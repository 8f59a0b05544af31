-- ===== src/Archive/Contained.antt =====
-- Where the extraction of an archive writes.
use aa_panel_tomcat_plugin.Prelude.{
  ℕ, zero, suc, ◌+◌, ◌≡◌, inl, inr, Bool, true, List, [], ◌∷◌, Option, none, some, Text, ok, All,
  All-append, map, arith, ltb, Bool-cases, Result-cases,
}
use aa_panel_tomcat_plugin.Folders.{make_parents}
use aa_panel_tomcat_plugin.Folders.Contained.{
  IsBelow, IsMade, makedirs-IsBelow, make_parents-IsBelow,
}
use aa_panel_tomcat_plugin.Archive.{
  min_free_space_bytes, TarInfo, Kind, regular, directory, symlink, hardlink, device, other, Break,
  Failure, cut, followed, is_below, safe_target, validate_member, admit, preflight, Archive,
  extract_from, materialize, safe_extract_tar, Write, made_directory, wrote_file,
}
use aa_panel_tomcat_plugin.Archive.Limits.{admit_sound}

abbrev pub place : Write → Text
place (made_directory path) = path
place (wrote_file path body mode) = path

module _ (realpath : Text → Text) (base : Text) where
  abbrev pub IsContained : Write → Type 0
  IsContained w = is_below base (place w) ≡ true

module _ (realpath : Text → Text) (base : Text) (exists : Text → Bool)
    (made : IsMade exists base) where
  abbrev Inside : Write → Type 0
  Inside = IsContained realpath base

  safe_target-is_below :
      (name target : Text)
      → safe_target realpath base name ≡ ok target
      → is_below base target ≡ true
  unfolding safe_target
  safe_target-is_below name target h = ground arith

  validate_member-is_below :
      (m : TarInfo) (target : Text)
      → validate_member realpath base m ≡ ok target
      → is_below base target ≡ true
  unfolding validate_member
  validate_member-is_below m target h = elim (Result-cases (safe_target realpath base m.name)) [
    | inl (e, f) ↦ ground arith
    | inr (t, f) ↦ ground (arith, safe_target-is_below m.name t f)
  ]

  made-IsContained : (ps : List Text) → All (IsBelow base) ps → All Inside (map made_directory ps)
  unfolding is_below
  made-IsContained [] h = tt
  made-IsContained (p ∷ ps) (h, k) = (h, made-IsContained ps k)

  is_below-IsBelow : (p : Text) → is_below base p ≡ true → IsBelow base p
  unfolding is_below
  is_below-IsBelow p h = h

  materialize-IsContained :
      (target : Text) (m : TarInfo) (k : Kind)
      → is_below base target ≡ true
      → All Inside (materialize exists target m k)
  unfolding materialize
  materialize-IsContained target m regular h =
      All-append Inside (map made_directory (make_parents exists target)) _
        (made-IsContained _
          (make_parents-IsBelow exists base made target (is_below-IsBelow target h)))
        (h, tt)
  materialize-IsContained target m directory h =
      made-IsContained _ (makedirs-IsBelow exists base made target (is_below-IsBelow target h))
  materialize-IsContained target m symlink h = tt
  materialize-IsContained target m hardlink h = tt
  materialize-IsContained target m device h = tt
  materialize-IsContained target m other h = tt

  cut-IsContained :
      (steps : ℕ) (bytes : Option ℕ) (ws : List Write)
      → All Inside ws
      → All Inside (cut steps bytes ws)
  unfolding cut
  cut-IsContained steps bytes [] h = tt
  cut-IsContained zero none (w ∷ ws) h = tt
  cut-IsContained zero (some n) (made_directory path ∷ ws) h = tt
  cut-IsContained zero (some n) (wrote_file path body mode ∷ ws) (h, k) = (h, tt)
  cut-IsContained (suc steps) bytes (w ∷ ws) (h, k) = (h, cut-IsContained steps bytes ws k)

  followed-IsContained :
      (o : Option Break) (ws : List Write) (rest : Option Failure × List Write)
      → All Inside ws
      → All Inside rest.1
      → All Inside (followed realpath base o ws rest).1
  followed-IsContained none ws rest h k = All-append Inside ws rest.1 h k
  followed-IsContained (some (steps, bytes)) ws rest h k = cut-IsContained steps bytes ws h

  extract_from-IsContained :
      (breaks : ℕ → Option Break) (count total : ℕ) (ms : List TarInfo)
      → All Inside (extract_from realpath base exists breaks count total ms).1
  unfolding extract_from
  extract_from-IsContained breaks count total [] = tt
  extract_from-IsContained breaks count total (m ∷ ms) =
      elim (Result-cases (admit realpath base count total m)) [
        | inl (x, f) ↦ rw (f, extract_from) tt
        | inr ((target, total'), f) ↦
            let now = admit_sound realpath base count total m target total' f in
            rw (f, extract_from)
              (followed-IsContained (breaks count) _ _
                (materialize-IsContained target m m.kind
                  (validate_member-is_below m target now.valid))
                (extract_from-IsContained breaks (count + 1) total' ms))
      ]

module _ (realpath : Text → Text) (base : Text) where
  -- Where the destination exists with the directories on the way to it, whatever the members are, on
  -- both readings, and wherever an exception of the system ends the extraction: each directory that
  -- it makes, those on the way to a member included, and each file that it opens is the destination
  -- or lies below it.
  pub safe_extract_tar-IsContained :
      (a : Archive)
      → IsMade a.exists base
      → All (IsContained realpath base) (safe_extract_tar realpath base a).1
  unfolding safe_extract_tar
  safe_extract_tar-IsContained a made = elim (Result-cases (preflight realpath base a)) [
    | inl (x, f) ↦ rw (f, safe_extract_tar) tt
    | inr (t, f) ↦ elim (Bool-cases (ltb a.free (t + min_free_space_bytes))) [
      | inl k ↦ rw (f, safe_extract_tar) (rw k tt)
      | inr k ↦
          rw (f, safe_extract_tar)
            (rw k (extract_from-IsContained realpath base a.exists made a.breaks 0 0 a.again))
    ]
  ]
