-- ===== src/Archive/Bounds.antt =====
-- How much the extraction of an archive writes.
use aa_panel_tomcat_plugin.Prelude.{
  ℕ, zero, suc, ◌+◌, ◌≤◌, ◌≡◌, refl, inl, inr, Bool, List, [], ◌∷◌, ◌++◌, Option, none, some, Text,
  All, length, take, map, ◌%◌, arith, ltb, Bool-cases, Result-cases,
}
use aa_panel_tomcat_plugin.Folders.{makedirs, make_parents}
use aa_panel_tomcat_plugin.Archive.{
  grown, min_free_space_bytes, TarInfo, Kind, regular, directory, symlink, hardlink, device, other,
  Break, Failure, cut, followed, admit, preflight, Archive, extract_from, materialize,
  safe_extract_tar, max_archive_members, max_total_extracted_bytes, Write, made_directory,
  wrote_file,
}
use aa_panel_tomcat_plugin.Archive.Limits.{admit_sound}

-- the files that were opened, and the bytes that were written
abbrev pub files : List Write → ℕ
files [] = 0
files (made_directory path ∷ ws) = files ws
files (wrote_file path body mode ∷ ws) = 1 + files ws

abbrev pub written : List Write → ℕ
written [] = 0
written (made_directory path ∷ ws) = written ws
written (wrote_file path body mode ∷ ws) = length body + written ws

append-counts :
    (ws vs : List Write)
    → (files (ws ++ vs) ≡ files ws + files vs) × (written (ws ++ vs) ≡ written ws + written vs)
append-counts [] vs = (ground arith, ground arith)
append-counts (made_directory path ∷ ws) vs = append-counts ws vs
append-counts (wrote_file path body mode ∷ ws) vs =
    let (f, w) = append-counts ws vs in (ground (arith, f), ground (arith, w))

made-counts :
    (ps : List Text) (ws : List Write)
    → (files (map made_directory ps ++ ws) ≡ files ws)
      × (written (map made_directory ps ++ ws) ≡ written ws)
made-counts [] ws = (refl, refl)
made-counts (p ∷ ps) ws = made-counts ps ws

only_made-counts :
    (ps : List Text) → (files (map made_directory ps) ≡ 0) × (written (map made_directory ps) ≡ 0)
only_made-counts [] = (refl, refl)
only_made-counts (p ∷ ps) = only_made-counts ps

length-take : (n : ℕ) (s : List ℕ) → length (take n s) ≤ length s
length-take zero s = omega arith
length-take (suc n) [] = omega arith
length-take (suc n) (c ∷ s) = omega (arith, length-take n s)

cut-counts :
    (steps : ℕ) (bytes : Option ℕ) (ws : List Write)
    → (files (cut steps bytes ws) ≤ files ws) × (written (cut steps bytes ws) ≤ written ws)
unfolding cut
cut-counts steps bytes [] = (omega arith, omega arith)
cut-counts zero none (w ∷ ws) = (omega arith, omega arith)
cut-counts zero (some n) (made_directory path ∷ ws) = (omega arith, omega arith)
cut-counts zero (some n) (wrote_file path body mode ∷ ws) =
    (omega arith, omega (arith, length-take n body))
cut-counts (suc steps) bytes (made_directory path ∷ ws) = cut-counts steps bytes ws
cut-counts (suc steps) bytes (wrote_file path body mode ∷ ws) =
    let (f, w) = cut-counts steps bytes ws in (omega (arith, f), omega (arith, w))

-- `tarfile` yields no more bytes of a member than its header says.
abbrev pub IsSized : TarInfo → Type 0
IsSized m = length m.body ≤ m.size

materialize-counts :
    (exists : Text → Bool) (target : Text) (m : TarInfo) (k : Kind)
    → IsSized m
    → (files (materialize exists target m k) ≤ 1)
      × (written (materialize exists target m k) ≤ grown k m.size 0)
unfolding materialize
materialize-counts exists target m regular h =
    let (f, w) =
      made-counts (make_parents exists target) (wrote_file target m.body (m.mode % 512) ∷ []) in
    (omega (arith, f), omega (arith, w, h))
materialize-counts exists target m directory h =
    let (f, w) = only_made-counts (makedirs exists target) in (omega (arith, f), omega (arith, w))
materialize-counts exists target m symlink h = (omega arith, omega arith)
materialize-counts exists target m hardlink h = (omega arith, omega arith)
materialize-counts exists target m device h = (omega arith, omega arith)
materialize-counts exists target m other h = (omega arith, omega arith)

-- No more than so many files and bytes.
abbrev IsWithin : ℕ → ℕ → List Write → Type 0
IsWithin few much ws = (files ws ≤ few) × (written ws ≤ much)

module _ (realpath : Text → Text) (base : Text) where
  followed-IsWithin :
      (o : Option Break) (ws : List Write) (rest : Option Failure × List Write)
      (few much few' much' : ℕ)
      → IsWithin few much ws
      → IsWithin few' much' rest.1
      → IsWithin (few + few') (much + much') (followed realpath base o ws rest).1
  followed-IsWithin none ws rest few much few' much' (h, k) (h', k') =
      let (f, w) = append-counts ws rest.1 in (omega (arith, f, h, h'), omega (arith, w, k, k'))
  followed-IsWithin (some (steps, bytes)) ws rest few much few' much' (h, k) (h', k') =
      let (f, w) = cut-counts steps bytes ws in (omega (arith, f, h), omega (arith, w, k))

  -- what is left of the two limits
  extract_from-bounds :
      (exists : Text → Bool) (breaks : ℕ → Option Break) (count total : ℕ) (ms : List TarInfo)
      → All IsSized ms
      → count ≤ max_archive_members
      → total ≤ max_total_extracted_bytes
      → (let ws = (extract_from realpath base exists breaks count total ms).1 in
          (count + files ws ≤ max_archive_members)
          × (total + written ws ≤ max_total_extracted_bytes))
  unfolding extract_from
  extract_from-bounds exists breaks count total [] h b c = (ground arith, ground arith)
  extract_from-bounds exists breaks count total (m ∷ ms) (s, h) b c =
      elim (Result-cases (admit realpath base count total m)) [
        | inl (x, f) ↦ rw (f, extract_from) (ground arith, ground arith)
        | inr ((target, total'), f) ↦
            let now = admit_sound realpath base count total m target total' f in
            let rest = extract_from realpath base exists breaks (count + 1) total' ms in
            let (few, much) =
              extract_from-bounds exists breaks (count + 1) total' ms h now.room (now.bounded c) in
            let (f', w') =
              followed-IsWithin (breaks count) (materialize exists target m m.kind) rest 1
                (grown m.kind m.size 0) (files rest.1) (written rest.1)
                (materialize-counts exists target m m.kind s) (omega arith, omega arith) in
            rw (f, extract_from) (omega (arith, f', few), omega (arith, w', much, now.sum))
      ]

  -- Where no body is longer than its header says, an extraction opens at most 50,000 files and writes
  -- at most 8 GiB to them, even if the archive changed after the preflight and wherever an exception
  -- ends it.
  pub safe_extract_tar-bounds :
      (a : Archive)
      → All IsSized a.again
      → (files (safe_extract_tar realpath base a).1 ≤ max_archive_members)
        × (written (safe_extract_tar realpath base a).1 ≤ max_total_extracted_bytes)
  unfolding safe_extract_tar
  safe_extract_tar-bounds a h = elim (Result-cases (preflight realpath base a)) [
    | inl (x, f) ↦ rw (f, safe_extract_tar) (ground arith, ground arith)
    | inr (t, f) ↦ elim (Bool-cases (ltb a.free (t + min_free_space_bytes))) [
      | inl k ↦ rw (f, safe_extract_tar) (rw k (ground arith, ground arith))
      | inr k ↦
          let (few, much) =
            extract_from-bounds a.exists a.breaks 0 0 a.again h (ground arith) (ground arith) in
          rw (f, safe_extract_tar) (rw k (omega (arith, few), omega (arith, much)))
    ]
  ]
