-- ===== src/Archive/Limits.antt =====
-- What the preflight of an archive establishes, and that the extraction of the same members then
-- succeeds.
use aa_panel_tomcat_plugin.Prelude.{
  All_at, ℕ, ◌+◌, ◌≤◌, ◌≡◌, refl, Bool, Option, inl, inr, List, [], ◌∷◌, none, Text, ok, err,
  length, All, Elem, arith, ltb, Bool-cases, Result-cases,
}
use aa_panel_tomcat_plugin.Archive.{
  UnsafeArchive, Break, TarInfo, is_reg, validate_member, grown, admit, preflight_from, preflight,
  Archive, extract_from, safe_extract_tar, check_compressed_size, max_archive_members,
  max_total_extracted_bytes, min_free_space_bytes,
}

-- the bytes that the regular members unpack to
abbrev pub expanded : List TarInfo → ℕ
expanded [] = 0
expanded (m ∷ ms) = grown m.kind m.size 0 + expanded ms

module _ (realpath : Text → Text) (base : Text) where
  abbrev pub IsValid : TarInfo → Type 0
  IsValid m = (target : Text) × (validate_member realpath base m ≡ ok target)

  pub record IsAdmitted (count total : ℕ) (m : TarInfo) (target : Text) (total' : ℕ) : Type 0 where
    pub room : count + 1 ≤ max_archive_members
    pub valid : validate_member realpath base m ≡ ok target
    pub sum : total' ≡ total + grown m.kind m.size 0
    pub bounded : total ≤ max_total_extracted_bytes → total' ≤ max_total_extracted_bytes

  pub admit_sound :
      (count total : ℕ) (m : TarInfo) (target : Text) (total' : ℕ)
      → admit realpath base count total m ≡ ok (target, total')
      → IsAdmitted count total m target total'
  unfolding admit
  admit_sound count total m target total' h =
      elim (Bool-cases (ltb max_archive_members (count + 1))) [
        | inl e ↦ ground arith
        | inr e ↦ elim (Result-cases (validate_member realpath base m)) [
          | inl (x, f) ↦ ground arith
          | inr (t, f) ↦ elim (Bool-cases (is_reg m.kind)) [
            | inl k ↦ elim (Bool-cases (ltb max_total_extracted_bytes (total + m.size))) [
              | inl l ↦ ground arith
              | inr l ↦ record {
                room = ground arith;
                valid = ground arith;
                sum = ground arith;
                bounded = λ b. ground arith;
              }
            ]
            | inr k ↦ record {
              room = ground arith;
              valid = ground arith;
              sum = ground arith;
              bounded = λ b. ground arith;
            }
          ]
        ]
      ]

  preflight_from_sound :
      (count total : ℕ) (ms : List TarInfo) (t : ℕ)
      → preflight_from realpath base count total ms ≡ ok t
      → All IsValid ms
        × (t ≡ total + expanded ms)
        × (total ≤ max_total_extracted_bytes → t ≤ max_total_extracted_bytes)
        × (count ≤ max_archive_members → count + length ms ≤ max_archive_members)
  unfolding preflight_from
  preflight_from_sound count total [] t h = (tt, ground arith, λ b. ground arith, λ b. ground arith)
  preflight_from_sound count total (m ∷ ms) t h =
      elim (Result-cases (admit realpath base count total m)) [
        | inl (x, f) ↦ ground arith
        | inr ((target, total'), f) ↦
            let now = admit_sound count total m target total' f in
            let (valid, sum, bound, room) =
              preflight_from_sound (count + 1) total' ms t (rw (f, preflight_from) at h) in
            (
              ((target, now.valid), valid),
              ground (arith, now.sum, sum),
              λ b. bound (now.bounded b),
              λ b. ground (arith, room now.room),
            )
      ]

  extract_from-none :
      (exists : Text → Bool) (breaks : ℕ → Option Break) (count total : ℕ) (ms : List TarInfo)
      (t : ℕ)
      → ((n : ℕ) → breaks n ≡ none)
      → preflight_from realpath base count total ms ≡ ok t
      → (extract_from realpath base exists breaks count total ms).0 ≡ none
  unfolding preflight_from extract_from
  extract_from-none exists breaks count total [] t g h = refl
  extract_from-none exists breaks count total (m ∷ ms) t g h =
      elim (Result-cases (admit realpath base count total m)) [
        | inl (x, f) ↦ ground arith
        | inr ((target, total'), f) ↦
            rw (f, extract_from, g count)
              (extract_from-none exists breaks (count + 1) total' ms t g
                (rw (f, preflight_from) at h))
      ]

  preflight-from :
      (a : Archive) (t : ℕ)
      → preflight realpath base a ≡ ok t
      → preflight_from realpath base 0 0 a.members ≡ ok t
  unfolding preflight
  preflight-from a t h = elim (Result-cases (check_compressed_size a.compressed)) [
    | inl (x, f) ↦ ground arith
    | inr (n, f) ↦ rw (f, preflight) at h
  ]

  -- An archive passes the preflight only with at most 50,000 members, each valid, and the result is
  -- the number of bytes that its regular members unpack to, at most 8 GiB.
  pub preflight_sound :
      (a : Archive) (t : ℕ)
      → preflight realpath base a ≡ ok t
      → All IsValid a.members
        × (t ≡ expanded a.members)
        × (t ≤ max_total_extracted_bytes)
        × (length a.members ≤ max_archive_members)
  preflight_sound a t h =
      let (valid, sum, bound, room) = preflight_from_sound 0 0 a.members t (preflight-from a t h) in
      (valid, ground (arith, sum), bound (ground arith), ground (arith, room (ground arith)))

  -- An archive that passes the preflight, is read again as it was and has its room on the disk is
  -- extracted without an exception, where neither reading a member nor writing it raises one of the
  -- system.
  pub safe_extract_tar-none :
      (a : Archive) (t : ℕ)
      → preflight realpath base a ≡ ok t
      → a.again ≡ a.members
      → t + min_free_space_bytes ≤ a.free
      → ((n : ℕ) → a.breaks n ≡ none)
      → (safe_extract_tar realpath base a).0 ≡ none
  unfolding safe_extract_tar
  safe_extract_tar-none a t h same room unbroken =
      elim (Bool-cases (ltb a.free (t + min_free_space_bytes))) [
        | inl k ↦ ground arith
        | inr k ↦
            rw (h, safe_extract_tar)
              (rw k (
                rw same (
                  extract_from-none a.exists a.breaks 0 0 a.members t unbroken
                    (preflight-from a t h))))
      ]

  -- An archive that holds a member that is not valid is refused before anything is written.
  pub safe_extract_tar-refused :
      (a : Archive) (m : TarInfo) (e : UnsafeArchive)
      → Elem m a.members
      → validate_member realpath base m ≡ err e
      → (safe_extract_tar realpath base a).1 ≡ []
  unfolding safe_extract_tar
  safe_extract_tar-refused a m e member bad = elim (Result-cases (preflight realpath base a)) [
    | inl (x, f) ↦ rw (f, safe_extract_tar) refl
    | inr (t, f) ↦
        let (target, good) = All_at IsValid m a.members (preflight_sound a t f).0 member in
        cc (good, bad)
  ]
