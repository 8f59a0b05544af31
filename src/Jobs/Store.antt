-- ===== src/Jobs/Store.antt =====
-- The directory of jobs in core/jobs.py: listing, counting, reading, retention and clearing.
mod Listing
pub mod Retention
mod Tests
use aa_panel_tomcat_plugin.Prelude.{
  ℕ, suc, ◌+◌, Bool, true, false, not, ◌&&◌, ◌||◌, List, [], ◌∷◌, ◌++◌, Option, none, some, Text,
  Result, ok, err, length, take, drop, filter, leb, if◌then◌else◌, text_eq, sort_by, among, ℤ, pos,
  clip, min, max,
}
use aa_panel_tomcat_plugin.Jobs.{
  Json, str, Meta, State, running, unknown, missing, Error, meta_is_symlink, meta_not_object,
  meta_unreadable, is_job_id, job_dir, normalise_state, normalise_started, is_terminal, FloatOps,
}

-- What stands at meta.json: `unreadable` covers a missing file and text that does not parse.
pub data MetaFile : Type 0 where
  symlink unreadable not_object : MetaFile
  object : Meta → MetaFile

-- A directory of the store.
pub record JobFiles : Type 0 where
  pub meta : MetaFile
  pub argv : Option (List Text)
  pub output : Text

-- JOBS_ROOT: the names that `os.listdir` gives (`none` where the root is no directory or cannot be
-- listed), those of them that are symbolic links, and the directories by their real paths.
pub record JobsFs : Type 0 where
  pub names : Option (List Text)
  pub links : List Text
  pub dirs : List (Text × JobFiles)

unfoldable pub lookup : Text → List (Text × JobFiles) → Option JobFiles
lookup path [] = none
lookup path ((p, files) ∷ dirs) = if text_eq p path then some files else lookup path dirs

unfoldable pub read_meta_file : MetaFile → Result Error Meta
read_meta_file symlink = err meta_is_symlink
read_meta_file unreadable = err meta_unreadable
read_meta_file not_object = err meta_not_object
read_meta_file (object meta) = ok meta

-- `_read_meta`
unfoldable pub read_meta : JobsFs → Text → Result Error Meta
read_meta fs path = elim (lookup path fs.dirs) [
  | none ↦ err meta_unreadable
  | some files ↦ read_meta_file files.meta
]

-- A listed job: its directory's name, and the state and the start that its metadata is read as.
pub record Job : Type 0 where
  pub name : Text
  pub state : State
  pub started : ℕ
  pub meta : Meta

-- `metas.sort(key=lambda m: m["started"], reverse=True)`
abbrev pub newer : Job → Job → Bool
newer a b = leb b.started a.started

abbrev pub unlimited : ℕ
unlimited = 1_000_000_000

module _ (ops : FloatOps) (realpath : Text → Text) (jobs_root : Text) where
  -- `_job_storage_dir`; `os.path.isdir` follows links, so it asks about the real path.
  pub storage_dir : JobsFs → Text → Option Text
  storage_dir fs name =
      if not (is_job_id name)
      then none
      else if among name fs.links
      then none
      else elim (job_dir realpath jobs_root name) [
        | err e ↦ none
        | ok path ↦ elim (lookup path fs.dirs) [ none ↦ none | some files ↦ some path ]
      ]

  -- the entry of the list for one name
  pub job_of : JobsFs → Text → Option Job
  job_of fs name = elim (storage_dir fs name) [
    | none ↦ none
    | some path ↦ elim (read_meta fs path) [
      | err e ↦ none
      | ok meta ↦ some (record {
        name = name;
        state = normalise_state meta.state;
        started = normalise_started ops meta.started;
        meta = meta;
      })
    ]
  ]

  abbrev cons_some : Option Job → List Job → List Job
  cons_some none jobs = jobs
  cons_some (some job) jobs = job ∷ jobs

  unfoldable pub jobs_of : JobsFs → List Text → List Job
  jobs_of fs [] = []
  jobs_of fs (name ∷ names) = cons_some (job_of fs name) (jobs_of fs names)

  abbrev pub listdir : JobsFs → List Text
  listdir fs = elim fs.names [ none ↦ [] | some names ↦ names ]

  unfoldable pub list_jobs : JobsFs → ℤ → List Job
  list_jobs fs limit = take (clip limit) (sort_by newer (jobs_of fs (listdir fs)))

  abbrev skipped_one : JobsFs → Text → ℕ
  skipped_one fs name = elim (storage_dir fs name) [
    | none ↦ 0
    | some path ↦ elim (read_meta fs path) [ err e ↦ 1 | ok meta ↦ 0 ]
  ]

  skipped_in : JobsFs → List Text → ℕ
  skipped_in fs [] = 0
  skipped_in fs (name ∷ names) = skipped_one fs name + skipped_in fs names

  pub count_skipped : JobsFs → ℕ
  count_skipped fs = skipped_in fs (listdir fs)

  -- `shutil.rmtree`; the paths that `locked` names raise OSError, and stay as they are.
  unfoldable pub without : Text → List (Text × JobFiles) → List (Text × JobFiles)
  without path dirs = filter (λ d. not (text_eq d.0 path)) dirs

  module _ (locked : Text → Bool) where
    -- the body of the loops of `prune` and `clear`
    pub remove_job : JobsFs × ℕ → Job → JobsFs × ℕ
    remove_job (fs, removed) job = elim (job_dir realpath jobs_root job.name) [
      | err e ↦ (fs, removed)
      | ok path ↦
          if locked path
          then (fs, removed)
          else (record fs { dirs = without path fs.dirs }, removed + 1)
    ]

    unfoldable pub remove_jobs : JobsFs × ℕ → List Job → JobsFs × ℕ
    remove_jobs s [] = s
    remove_jobs s (job ∷ jobs) = remove_jobs (remove_job s job) jobs

    -- what `prune` means to remove
    unfoldable pub victims : JobsFs → ℤ → List Job
    victims fs keep =
        drop (clip keep) (filter (λ job. is_terminal job.state) (list_jobs fs (pos unlimited)))

    unfoldable pub prune : JobsFs → ℤ → JobsFs × ℕ
    prune fs keep = remove_jobs (fs, 0) (victims fs keep)

    pub clear : JobsFs → JobsFs × ℕ
    clear fs =
        remove_jobs (fs, 0) (filter (λ job. is_terminal job.state) (list_jobs fs (pos unlimited)))
