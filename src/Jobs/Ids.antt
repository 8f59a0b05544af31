-- ===== src/Jobs/Ids.antt =====
-- Job identifiers: what is accepted stays in the store, and what is minted is accepted.
use aa_panel_tomcat_plugin.Prelude.{
  ℕ, ◌≡◌, ◌≢◌, refl, inl, inr, Bool, true, false, not, ◌&&◌, [], ◌∷◌, ◌++◌, Text, codes, ok, All,
  All-map, All-append, all, all_sound, all_complete, ◌==◌, arith, is_alnum, is_empty, among, any,
  text_eq, text_eq_iff, strip_by, strip_by-All, Bool-cases, and_true, if◌then◌else◌,
}
use aa_panel_tomcat_plugin.Jobs.{
  is_id_char, is_job_id, validate_job_id, is_contained, entry_path, job_dir, is_kind_char,
  dash_runs, or_job, new_job_id,
}

abbrev pub IsAlnum : Text → Type 0
IsAlnum s = All (λ c. is_alnum c ≡ true) s

abbrev IsKind : Text → Type 0
IsKind s = All (λ c. is_kind_char c ≡ true) s

dash-kind : is_kind_char b'-' ≡ true
unfolding is_kind_char is_alnum
dash-kind = refl

dash_runs-IsKind : (marked : Bool) (s : Text) → IsKind (dash_runs marked s)
unfolding dash_runs
dash_runs-IsKind marked [] = tt
dash_runs-IsKind marked (c ∷ s) = elim (Bool-cases (is_kind_char c)) [
  | inl e ↦ rw e (e, dash_runs-IsKind false s)
  | inr e ↦ rw e (dashed marked (dash_runs-IsKind true s))
]
  where
    dashed :
        (m : Bool)
        → IsKind (dash_runs true s)
        → IsKind (if m then dash_runs true s else b'-' ∷ dash_runs true s)
    dashed true h = h
    dashed false h = (dash-kind, h)

or_job-IsKind : (s : Text) → IsKind s → IsKind (or_job s)
unfolding or_job is_kind_char is_alnum
or_job-IsKind [] h = (refl, (refl, (refl, tt)))
or_job-IsKind (c ∷ s) h = h

or_job-filled : (s : Text) → is_empty (or_job s) ≡ false
unfolding or_job
or_job-filled [] = refl
or_job-filled (c ∷ s) = refl

alnum-kind : (c : ℕ) → is_alnum c ≡ true → is_kind_char c ≡ true
unfolding is_kind_char
alnum-kind c h = ground arith

kind-id : (c : ℕ) → is_kind_char c ≡ true → is_id_char c ≡ true
unfolding is_kind_char is_id_char
kind-id c h = ground arith

kind-ne-dot : (c : ℕ) → is_kind_char c ≡ true → (c == b'.') ≡ false
unfolding is_kind_char is_alnum
kind-ne-dot c h = ground arith

kind-is_job_id : (s : Text) → is_empty s ≡ false → IsKind s → is_job_id s ≡ true
unfolding is_job_id among any text_eq
kind-is_job_id [] e h = cc
kind-is_job_id (c ∷ s) e (k, h) =
    rw (all_complete is_id_char (c ∷ s) (All-map _ _ kind-id (c ∷ s) (k, h)), kind-ne-dot c k)

append-filled : (s t : Text) → is_empty s ≡ false → is_empty (s ++ t) ≡ false
append-filled [] t h = cc
append-filled (c ∷ s) t h = refl

-- Whatever the kind, an identifier minted with an alphanumeric stamp and suffix is accepted.
pub new_job_id-is_job_id :
    (kind stamp rand : Text)
    → IsAlnum stamp
    → IsAlnum rand
    → is_job_id (new_job_id kind stamp rand) ≡ true
unfolding new_job_id
new_job_id-is_job_id kind stamp rand hs hr =
    let base = or_job (strip_by (λ c. c == b'-') (dash_runs false (or_job kind))) in
    let base_kind =
      or_job-IsKind _ (strip_by-All (λ c. c == b'-') _ _ (dash_runs-IsKind false (or_job kind))) in
    kind-is_job_id _ (append-filled base _ (or_job-filled _)) (
      All-append _ base _ base_kind (
        dashed (stamp ++ (codes "-" ++ rand)) (
          All-append _ stamp _ (All-map _ _ alnum-kind stamp hs)
            (dashed rand (All-map _ _ alnum-kind rand hr)))))
  where
    dashed : (s : Text) → IsKind s → IsKind (codes "-" ++ s)
    dashed s h = (dash-kind, h)

-- A name with no slash, which stands for no directory but its own.
abbrev pub IsEntryName : Text → Type 0
IsEntryName name =
    (is_empty name ≡ false)
    × (name ≢ codes ".")
    × (name ≢ codes "..")
    × All (λ c. (c == b'/') ≡ false) name

id-not-slash : (c : ℕ) → is_id_char c ≡ true → (c == b'/') ≡ false
unfolding is_id_char is_alnum
id-not-slash c h = ground arith

is_job_id-IsEntryName : (name : Text) → is_job_id name ≡ true → IsEntryName name
unfolding is_job_id among any
is_job_id-IsEntryName name h =
    let (shape, dots) = and_true (not (is_empty name) && all is_id_char name) _ h in
    let (filled, chars) = and_true (not (is_empty name)) (all is_id_char name) shape in
    (
      ground arith,
      ground (arith, text_eq_iff name (codes ".")),
      ground (arith, text_eq_iff name (codes "..")),
      All-map _ _ id-not-slash name (all_sound is_id_char name chars),
    )

pub job_dir_sound :
    (realpath : Text → Text) (jobs_root job_id path : Text)
    → job_dir realpath jobs_root job_id ≡ ok path
    → IsEntryName job_id
      × (path ≡ entry_path realpath jobs_root job_id)
      × (is_contained (realpath jobs_root) path ≡ true)
unfolding job_dir validate_job_id
job_dir_sound realpath jobs_root job_id path h = elim (Bool-cases (is_job_id job_id)) [
  | inl e ↦ let shape = is_job_id-IsEntryName job_id e in (shape, ground arith, ground arith)
  | inr e ↦ ground arith
]
