-- ===== src/Jobs/Store/Retention.antt =====
-- `prune` and `clear` remove finished jobs alone, and `prune` the oldest of them.
use aa_panel_tomcat_plugin.Prelude.{
  leb→le, ◌≤◌, length, filter, arith, ℕ, ◌-◌, ◌≡◌, ◌≢◌, refl, sym, ap, ◌∙◌, inl, inr, Bool, true,
  false, List, [], ◌∷◌, none, Text, ok, length-drop, All, All-drop, Elem, filter-IsSorted,
  take-before-drop, Elem-split, ◌⊎◌, text_eq_iff, Bool-cases, Result-cases, clip, ℤ, pos, some_eq,
}
use aa_panel_tomcat_plugin.Jobs.{FloatOps, is_terminal, job_dir}
use aa_panel_tomcat_plugin.Jobs.Store.{
  JobFiles, JobsFs, Job, newer, lookup, job_of, list_jobs, without, remove_job, remove_jobs,
  victims, prune, clear, unlimited,
}
use aa_panel_tomcat_plugin.Jobs.Store.Listing.{IsListed, list_jobs_sound}

pub lookup-without :
    (p path : Text) (dirs : List (Text × JobFiles)) (ops : FloatOps) (realpath : Text → Text)
    (jobs_root : Text)
    → p ≢ path
    → lookup p (without ops realpath jobs_root path dirs) ≡ lookup p dirs
unfolding lookup without filter
lookup-without p path [] ops realpath jobs_root h = refl
lookup-without p path ((q, files) ∷ dirs) ops realpath jobs_root h = ground (
  arith,
  lookup-without p path dirs ops realpath jobs_root h,
  text_eq_iff q path,
  text_eq_iff q p,
)

module _ (ops : FloatOps) (realpath : Text → Text) (jobs_root : Text) (locked : Text → Bool) where
  remove_job-lookup :
      (p : Text) (s : JobsFs × ℕ) (job : Job)
      → job_dir realpath jobs_root job.name ≢ ok p
      → lookup p (remove_job ops realpath jobs_root locked s job).0.dirs ≡ lookup p s.0.dirs
  unfolding remove_job
  remove_job-lookup p (fs, removed) job h =
      elim (Result-cases (job_dir realpath jobs_root job.name)) [
        | inl (e, f) ↦ ground arith
        | inr (path, f) ↦ ground (
          arith,
          lookup-without p path fs.dirs ops realpath jobs_root (λ k. h (f ∙ ap ok (sym k))),
        )
      ]

  -- A directory that no removed job has stays.
  remove_jobs-lookup :
      (p : Text) (s : JobsFs × ℕ) (jobs : List Job)
      → All (λ job. job_dir realpath jobs_root job.name ≢ ok p) jobs
      → lookup p (remove_jobs ops realpath jobs_root locked s jobs).0.dirs ≡ lookup p s.0.dirs
  unfolding remove_jobs
  remove_jobs-lookup p s [] h = refl
  remove_jobs-lookup p s (job ∷ jobs) (h, hs) =
      remove_jobs-lookup p (remove_job ops realpath jobs_root locked s job) jobs hs
      ∙ remove_job-lookup p s job h

  -- Two names of jobs never stand for one directory.
  abbrev pub IsDistinct : Type 0
  IsDistinct =
      (a b p : Text)
      → job_dir realpath jobs_root a ≡ ok p
      → job_dir realpath jobs_root b ≡ ok p
      → a ≡ b

  module _ (distinct : IsDistinct) (fs : JobsFs) (job : Job) (path : Text)
      (listed : IsListed ops realpath jobs_root fs job) (active : is_terminal job.state ≡ false)
      (place : job_dir realpath jobs_root job.name ≡ ok path) where
    -- a finished job of the list is another job, and has another directory
    elsewhere :
        (v : Job)
        → IsListed ops realpath jobs_root fs v
        → is_terminal v.state ≡ true
        → job_dir realpath jobs_root v.name ≢ ok path
    elsewhere v h t e =
        let same = distinct v.name job.name path e place in
        let one : v ≡ job =
          some_eq (sym h ∙ (ap (job_of ops realpath jobs_root fs) same ∙ listed)) in
        cc (ap (λ (j : Job). is_terminal j.state) one)

    finished-elsewhere :
        (jobs : List Job)
        → All (IsListed ops realpath jobs_root fs) jobs
        → All
            (λ v. job_dir realpath jobs_root v.name ≢ ok path)
            (filter (λ v. is_terminal v.state) jobs)
    unfolding filter
    finished-elsewhere [] h = tt
    finished-elsewhere (v ∷ vs) (k, h) = elim (Bool-cases (is_terminal v.state)) [
      | inl e ↦ rw e (elsewhere v k e, finished-elsewhere vs h)
      | inr e ↦ rw e (finished-elsewhere vs h)
    ]

    -- Where no two names of jobs stand for one directory, `prune` leaves the directory of a listed
    -- job that is not finished as it is, however few jobs it is to keep.
    pub prune-keeps_active :
        (keep : ℤ)
        → lookup path (prune ops realpath jobs_root locked fs keep).0.dirs ≡ lookup path fs.dirs
    unfolding prune victims
    prune-keeps_active keep =
        remove_jobs-lookup path (fs, 0) _
          (All-drop _ (clip keep) _
            (finished-elsewhere _ (list_jobs_sound ops realpath jobs_root fs (pos unlimited)).0))

    -- Where no two names of jobs stand for one directory, `clear` leaves the directory of a listed
    -- job that is not finished as it is.
    pub clear-keeps_active :
        lookup path (clear ops realpath jobs_root locked fs).0.dirs ≡ lookup path fs.dirs
    unfolding clear
    clear-keeps_active =
        remove_jobs-lookup path (fs, 0) _
          (finished-elsewhere _ (list_jobs_sound ops realpath jobs_root fs (pos unlimited)).0)

  -- the finished jobs, the newest first
  abbrev pub finished : JobsFs → List Job
  finished fs =
      filter (λ job. is_terminal job.state) (list_jobs ops realpath jobs_root fs (pos unlimited))

  -- `prune` means to remove all finished jobs but `keep`, and a finished job that it spares is at
  -- least as new as each that it removes.
  pub prune-oldest :
      (fs : JobsFs) (keep : ℤ)
      → (length (victims ops realpath jobs_root locked fs keep) ≡ length (finished fs) - clip keep)
        × ((spared v : Job)
            → Elem spared (finished fs)
            → Elem v (victims ops realpath jobs_root locked fs keep)
            → Elem spared (victims ops realpath jobs_root locked fs keep)
              ⊎ (v.started ≤ spared.started))
  unfolding victims
  prune-oldest fs keep = (
    length-drop (clip keep) (finished fs),
    λ spared v m k. elim (Elem-split (clip keep) spared (finished fs) m) [
      | inl first ↦ inr (
          leb→le v.started spared.started (
            take-before-drop newer (clip keep) spared v (finished fs)
              (filter-IsSorted newer _ _
                (list_jobs_sound ops realpath jobs_root fs (pos unlimited)).1)
              first k))
      | inr rest ↦ inl rest
    ],
  )

  lookup-without_self :
      (p : Text) (dirs : List (Text × JobFiles))
      → lookup p (without ops realpath jobs_root p dirs) ≡ none
  unfolding lookup without filter
  lookup-without_self p [] = refl
  lookup-without_self p ((q, files) ∷ dirs) =
      ground (arith, lookup-without_self p dirs, text_eq_iff q p)

  lookup-without-none :
      (p path : Text) (dirs : List (Text × JobFiles))
      → lookup p dirs ≡ none
      → lookup p (without ops realpath jobs_root path dirs) ≡ none
  unfolding lookup without filter
  lookup-without-none p path [] h = refl
  lookup-without-none p path ((q, files) ∷ dirs) h =
      ground (arith, lookup-without-none p path dirs, text_eq_iff q p)

  remove_jobs-none :
      (p : Text) (s : JobsFs × ℕ) (jobs : List Job)
      → lookup p s.0.dirs ≡ none
      → lookup p (remove_jobs ops realpath jobs_root locked s jobs).0.dirs ≡ none
  unfolding remove_jobs remove_job
  remove_jobs-none p s [] h = h
  remove_jobs-none p (fs, n) (job ∷ jobs) h =
      remove_jobs-none p (remove_job ops realpath jobs_root locked (fs, n) job) jobs
        (elim (Result-cases (job_dir realpath jobs_root job.name)) [
          | inl (e, f) ↦ ground arith
          | inr (path, f) ↦ ground (arith, lookup-without-none p path fs.dirs)
        ])

  remove_jobs-gone :
      (p : Text) (v : Job) (s : JobsFs × ℕ) (jobs : List Job)
      → Elem v jobs
      → job_dir realpath jobs_root v.name ≡ ok p
      → locked p ≡ false
      → lookup p (remove_jobs ops realpath jobs_root locked s jobs).0.dirs ≡ none
  unfolding remove_jobs remove_job
  remove_jobs-gone p v s [] m e k = elim m [ ]
  remove_jobs-gone p v (fs, n) (job ∷ jobs) (inl m) e k =
      remove_jobs-none p (remove_job ops realpath jobs_root locked (fs, n) job) jobs (
        ground (
          arith,
          ap (λ (j : Job). job_dir realpath jobs_root j.name) m,
          lookup-without_self p fs.dirs,
        ))
  remove_jobs-gone p v s (job ∷ jobs) (inr m) e k =
      remove_jobs-gone p v (remove_job ops realpath jobs_root locked s job) jobs m e k

  -- The directory of each job that is to go is gone, unless it cannot be removed.
  pub prune-removes :
      (fs : JobsFs) (keep : ℤ) (v : Job) (p : Text)
      → Elem v (victims ops realpath jobs_root locked fs keep)
      → job_dir realpath jobs_root v.name ≡ ok p
      → locked p ≡ false
      → lookup p (prune ops realpath jobs_root locked fs keep).0.dirs ≡ none
  unfolding prune
  prune-removes fs keep v p m e k = remove_jobs-gone p v (fs, 0) _ m e k
