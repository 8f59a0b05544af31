-- ===== src/Jobs/Supervise/Launch.antt =====
-- A started job is recorded as running, with the command that a retry runs again, and its supervisor
-- is handed that command.
use aa_panel_tomcat_plugin.Prelude.{
  ◌≡◌, ◌≢◌, refl, ◌∙◌, true, [], ◌&&◌, inl, inr, Bool, false, List, ◌∷◌, Option, none, some, Text,
  codes, Result, ok, arith, text_eq, text_eq_iff, text_eq_refl, if◌then◌else◌, drop, sym,
  Result-cases, ok_eq, subst,
}
use aa_panel_tomcat_plugin.Jobs.{
  Meta, null, float, str, FloatOps, Float, Error, job_dir, new_job_id,
}
use aa_panel_tomcat_plugin.Jobs.Store.{JobsFs, lookup, read_meta, prune}
use aa_panel_tomcat_plugin.Jobs.Store.Retention.{lookup-without}
use aa_panel_tomcat_plugin.Jobs.Store.{read_meta_file, JobFiles}
use aa_panel_tomcat_plugin.Jobs.Supervise.{
  exec, after_dashes, main, supervisor_argv, start, store_job, started_meta, read_argv,
  default_terminal_retention, kept_argv,
}

-- The arguments that a job's supervisor is started with make it run the job's command in the job's
-- directory, unless the directory or the program is called "--".
pub main-supervisor_argv :
    (python self jdir a : Text) (argv : List Text)
    → text_eq self (codes "--") ≡ false
    → text_eq jdir (codes "--") ≡ false
    → main (drop 1 (supervisor_argv python self jdir (a ∷ argv))) ≡ exec jdir (a ∷ argv)
unfolding main supervisor_argv after_dashes text_eq
main-supervisor_argv python self jdir a argv h k = rw (h, k) refl

module _ (ops : FloatOps) (realpath : Text → Text) (jobs_root : Text) (locked : Text → Bool) where
  lookup-store_job :
      (fs : JobsFs) (id path p : Text) (meta : _) (argv : Option (List Text))
      → p ≢ path
      → lookup p (store_job ops realpath jobs_root locked fs id path meta argv).dirs
        ≡ lookup p fs.dirs
  unfolding store_job lookup
  lookup-store_job fs id path p meta argv h =
      ground (arith, text_eq_iff path p, lookup-without p path fs.dirs ops realpath jobs_root h)

  lookup-head :
      (path : Text) (files : JobFiles) (dirs : List (Text × JobFiles))
      → lookup path ((path, files) ∷ dirs) ≡ some files
  unfolding lookup
  lookup-head path files dirs = rw (text_eq_refl path)

  read_meta-found :
      (fs : JobsFs) (path : Text) (files : JobFiles)
      → lookup path fs.dirs ≡ some files
      → read_meta fs path ≡ read_meta_file files.meta
  unfolding read_meta
  read_meta-found fs path files h = rw (h, read_meta)

  read_argv-found :
      (fs : JobsFs) (path : Text) (files : JobFiles)
      → lookup path fs.dirs ≡ some files
      → read_argv ops realpath jobs_root locked fs path ≡ kept_argv files.argv
  unfolding read_argv
  read_argv-found fs path files h = rw (h, read_argv)

  module _ (fs : JobsFs) (kind : Text) (target : Option Text) (argv : List Text) (stamp rand : Text)
      (now : Float) (recorded : Bool) where
    -- The record names this job, its kind and target, is running since `now`, and has no pid, end
    -- or message.
    abbrev pub IsFresh : Text → Meta → Type 0
    IsFresh id meta =
        (meta.id ≡ str id)
        × (meta.kind ≡ str kind)
        × (meta.target ≡ elim target [ none ↦ null | some t ↦ str t ])
        × (meta.state ≡ str (codes "running"))
        × (meta.started ≡ float now)
        × (meta.ended ≡ null)
        × (meta.message ≡ str [])
        × (meta.pid ≡ null)

    started_meta-IsFresh : (id : Text) → IsFresh id (started_meta id kind target now)
    unfolding started_meta
    started_meta-IsFresh id = (refl, refl, refl, refl, refl, refl, refl, refl)

    abbrev pub has_word : List Text → Bool
    has_word [] = false
    has_word (a ∷ words) = true

    kept_argv-if :
        (b : Bool) (words : List Text)
        → kept_argv (if b then some words else none)
          ≡ (if b && has_word words then some words else none)
    kept_argv-if false words = refl
    kept_argv-if true [] = refl
    kept_argv-if true (a ∷ words) = refl

    -- The directory of the identifier holds a fresh record and the command, if that has a word and
    -- could be recorded, and every other directory is as `prune` left it.
    abbrev pub IsRecorded : JobsFs → Text → Text → Type 0
    IsRecorded fs' id path =
        (job_dir realpath jobs_root id ≡ ok path)
        × ((meta : Meta) × (read_meta fs' path ≡ ok meta) × IsFresh id meta)
        × (read_argv ops realpath jobs_root locked fs' path
            ≡ (if recorded && has_word argv then some argv else none))
        × ((p : Text)
            → p ≢ path
            → lookup p fs'.dirs
              ≡ lookup p (prune ops realpath jobs_root locked fs default_terminal_retention).0.dirs)

    abbrev AllRecorded : JobsFs × Text × Text → Type 0
    AllRecorded (fs', id, path) = IsRecorded fs' id path

    stored-IsRecorded :
        (id path : Text)
        → job_dir realpath jobs_root id ≡ ok path
        → AllRecorded (
          store_job ops realpath jobs_root locked
              (prune ops realpath jobs_root locked fs default_terminal_retention).0
              id
              path
              (started_meta id kind target now)
              (if recorded then some argv else none),
          id,
          path,
        )
    unfolding store_job read_meta_file
    stored-IsRecorded id path h = (
      h,
      (
        started_meta id kind target now,
        read_meta-found _ path _ (lookup-head path _ _),
        started_meta-IsFresh id,
      ),
      read_argv-found _ path _ (lookup-head path _ _) ∙ kept_argv-if recorded argv,
      λ p k.
          lookup-store_job (prune ops realpath jobs_root locked fs default_terminal_retention).0 id
            path p _ _ k,
    )

    ok-IsRecorded :
        (x y : JobsFs × Text × Text)
        → AllRecorded x
        → ◌≡◌ {A = Result Error (JobsFs × Text × Text)} (ok x) (ok y)
        → AllRecorded y
    ok-IsRecorded x y r e = subst AllRecorded (sym (ok_eq e)) r

    -- Where `start` returns an identifier, the metadata in its directory names it, the given kind and
    -- target, is running since the given time and has no pid, end or message, `_read_argv` gives the
    -- command there if it has a word and could be recorded and nothing else, and every other
    -- directory is as `prune` left it.
    pub start-IsRecorded :
        (fs' : JobsFs) (id path : Text)
        → start ops realpath jobs_root locked fs kind target argv stamp rand now recorded
          ≡ ok (fs', id, path)
        → IsRecorded fs' id path
    unfolding start
    start-IsRecorded fs' id path h =
        elim (Result-cases (job_dir realpath jobs_root (new_job_id kind stamp rand))) [
          | inl (e, f) ↦ ground arith
          | inr (at, f) ↦
              ok-IsRecorded _ (fs', id, path) (stored-IsRecorded (new_job_id kind stamp rand) at f)
                (rw (f, start) at h)
        ]
