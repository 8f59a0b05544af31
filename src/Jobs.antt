-- ===== src/Jobs.antt =====
-- plugin/javahost/core/jobs.py: background jobs. This file has the identifiers, the metadata of a
-- job and the values that corrupt metadata is read as; the children have the store, the checks of
-- processes, cancellation and the supervisor.
mod Ids
mod Tests
pub mod Store
pub mod Proc
pub mod Cancel
pub mod Supervise
use aa_panel_tomcat_plugin.Prelude.{
  ℕ, Bool, true, false, not, ◌&&◌, ◌||◌, List, [], ◌∷◌, ◌++◌, Option, none, some, Text, codes,
  Result, ok, err, all, leb, ◌==◌, if◌then◌else◌, is_alnum, is_empty, among, any, text_eq, strip,
  strip_by, lower, starts_with, ℤ, pos, negsuc,
}

-- A Python float; `finite n` is n · 2⁻¹⁰⁷⁴, the unit of which every finite float is a multiple.
pub data Float : Type 0 where
  finite : ℤ → Float
  infinite not_a_number : Float

-- A value of the parsed metadata; of an array or object it only matters whether it has an item.
pub data Json : Type 0 where
  null : Json
  bool : Bool → Json
  int : ℤ → Json
  float : Float → Json
  str : Text → Json
  compound : Bool → Json

-- The keys of meta.json that the code reads or writes; a missing key reads as `null`.
pub record Meta : Type 0 where
  pub id : Json
  pub kind : Json
  pub target : Json
  pub state : Json
  pub started : Json
  pub ended : Json
  pub message : Json
  pub pid : Json

pub data State : Type 0 where
  running done failed cancelled unknown missing : State

pub data Error : Type 0 where
  invalid_job_id : Text → Error
  path_escapes : Text → Error
  meta_is_symlink meta_not_object meta_unreadable : Error

-- `[A-Za-z0-9_.-]`
is_id_char : ℕ → Bool
is_id_char c = is_alnum c || c == b'_' || c == b'.' || c == b'-'

-- `_JOB_ID_RE.fullmatch(name) and name not in (".", "..")`
pub is_job_id : Text → Bool
is_job_id name =
    not (is_empty name) && all is_id_char name && not (among name (codes "." ∷ codes ".." ∷ []))

pub validate_job_id : Text → Result Error Text
validate_job_id job_id = if is_job_id job_id then ok job_id else err (invalid_job_id job_id)

-- `path == root or path.startswith(root + "/")`
pub is_contained : Text → Text → Bool
is_contained root path = text_eq path root || starts_with (root ++ codes "/") path

-- `os.path.realpath` resolves links in the file system, which is outside the program.
module _ (realpath : Text → Text) (jobs_root : Text) where
  -- the real path of an entry of JOBS_ROOT; `os.path.join` of a relative name
  pub entry_path : Text → Text
  entry_path name = realpath (realpath jobs_root ++ (codes "/" ++ name))

  pub job_dir : Text → Result Error Text
  job_dir job_id = elim (validate_job_id job_id) [
    | err e ↦ err e
    | ok name ↦
        if is_contained (realpath jobs_root) (entry_path name)
        then ok (entry_path name)
        else err (path_escapes name)
  ]

-- `[A-Za-z0-9_-]`, the characters of a kind that are kept in an identifier
is_kind_char : ℕ → Bool
is_kind_char c = is_alnum c || c == b'_' || c == b'-'

-- `re.sub(r"[^A-Za-z0-9_-]+", "-", kind)`; the flag says that a dropped run is already marked.
dash_runs : Bool → Text → Text
dash_runs marked [] = []
dash_runs marked (c ∷ s) =
    let rest = dash_runs (not (is_kind_char c)) s in
    if is_kind_char c then c ∷ rest else if marked then rest else b'-' ∷ rest

or_job : Text → Text
or_job [] = codes "job"
or_job (c ∷ s) = c ∷ s

-- `_new_job_id`, with the UTC stamp and the six random hex digits that it draws
pub new_job_id : Text → Text → Text → Text
new_job_id kind stamp rand =
    or_job (strip_by (λ c. c == b'-') (dash_runs false (or_job kind)))
    ++ (codes "-" ++ (stamp ++ (codes "-" ++ rand)))

abbrev state_of : Text → State
state_of s =
    if text_eq s (codes "running")
    then running
    else if text_eq s (codes "done")
    then done
    else if text_eq s (codes "failed")
    then failed
    else if text_eq s (codes "cancelled")
    then cancelled
    else unknown

pub normalise_state : Json → State
normalise_state (str s) = state_of (lower (strip s))
normalise_state value = unknown

-- `state in _TERMINAL_STATES`
abbrev pub is_terminal : State → Bool
is_terminal done = true
is_terminal failed = true
is_terminal cancelled = true
is_terminal state = false

-- `float(n)` and `float(text)`; `none` is the OverflowError or the ValueError.
pub record FloatOps : Type 0 where
  pub of_int : ℤ → Option Float
  pub of_text : Text → Option Float

-- finite and not negative, in units of 2⁻¹⁰⁷⁴; anything else counts as the start of time
abbrev usable : Option Float → ℕ
usable (some (finite (pos n))) = n
usable x = 0

pub normalise_started : FloatOps → Json → ℕ
normalise_started ops (int z) = usable (ops.of_int z)
normalise_started ops (float x) = usable (some x)
normalise_started ops (str s) = usable (ops.of_text s)
normalise_started ops value = 0
