-- ===== src/Jobs/Store/Listing.antt =====
-- What the list of jobs holds: each readable job once, as its directory says, the newest first.
use aa_panel_tomcat_plugin.Prelude.{
  length, All, arith, ℕ, ◌+◌, ◌≤◌, ◌≡◌, refl, inl, inr, true, false, List, [], ◌∷◌, Option, none,
  some, Text, subst, length-take, length-sort_by, All-take, Elem, IsSorted, take-IsSorted, sort_by,
  sort_by-All, sort_by-Elem, sort_by-IsSorted, clip, ℤ, Option-cases, take-eq_self, if◌then◌else◌,
  is_some,
}
use aa_panel_tomcat_plugin.Jobs.{FloatOps}
use aa_panel_tomcat_plugin.Jobs.Store.{
  JobsFs, Job, newer, storage_dir, job_of, cons_some, jobs_of, listdir, list_jobs, skipped_one,
  skipped_in, count_skipped,
}

newer_total : (a b : Job) → newer a b ≡ false → newer b a ≡ true
newer_total a b h = ground arith

newer_trans : (a b c : Job) → newer a b ≡ true → newer b c ≡ true → newer a c ≡ true
newer_trans a b c h k = ground arith

module _ (ops : FloatOps) (realpath : Text → Text) (jobs_root : Text) where
  -- The entry is what the directory of its name is read as.
  abbrev pub IsListed : JobsFs → Job → Type 0
  IsListed fs job = job_of ops realpath jobs_root fs job.name ≡ some job

  job_of-name :
      (fs : JobsFs) (name : Text) (job : Job)
      → job_of ops realpath jobs_root fs name ≡ some job
      → name ≡ job.name
  unfolding job_of
  job_of-name fs name job h = ground arith

  jobs_of-IsListed :
      (fs : JobsFs) (names : List Text)
      → All (IsListed fs) (jobs_of ops realpath jobs_root fs names)
  unfolding jobs_of
  jobs_of-IsListed fs [] = tt
  jobs_of-IsListed fs (name ∷ names) = elim (Option-cases (job_of ops realpath jobs_root fs name)) [
    | inl e ↦ rw e (jobs_of-IsListed fs names)
    | inr (job, e) ↦ rw e (
      subst (λ n. job_of ops realpath jobs_root fs n ≡ some job) (job_of-name fs name job e) e,
      jobs_of-IsListed fs names,
    )
  ]

  jobs_of-Elem :
      (fs : JobsFs) (names : List Text) (name : Text) (job : Job)
      → Elem name names
      → job_of ops realpath jobs_root fs name ≡ some job
      → Elem job (jobs_of ops realpath jobs_root fs names)
  unfolding jobs_of
  jobs_of-Elem fs [] name job m e = elim m [ ]
  jobs_of-Elem fs (n ∷ names) name job (inl k) e = rw (← k, e) (inl refl)
  jobs_of-Elem fs (n ∷ names) name job (inr m) e =
      elim (Option-cases (job_of ops realpath jobs_root fs n)) [
        | inl f ↦ rw f (jobs_of-Elem fs names name job m e)
        | inr (other, f) ↦ rw f (inr (jobs_of-Elem fs names name job m e))
      ]

  -- The list has at most `limit` entries, each true to its directory, the newest first.
  pub list_jobs_sound :
      (fs : JobsFs) (limit : ℤ)
      → All (IsListed fs) (list_jobs ops realpath jobs_root fs limit)
        × IsSorted newer (list_jobs ops realpath jobs_root fs limit)
        × (length (list_jobs ops realpath jobs_root fs limit) ≤ clip limit)
  unfolding list_jobs
  list_jobs_sound fs limit =
      let jobs = jobs_of ops realpath jobs_root fs (listdir ops realpath jobs_root fs) in
      (
        All-take _ (clip limit) _ (sort_by-All newer _ jobs (jobs_of-IsListed fs _)),
        take-IsSorted newer (clip limit) _ (sort_by-IsSorted newer newer_total newer_trans jobs),
        omega (arith, length-take (clip limit) (sort_by newer jobs)),
      )

  length-jobs_of :
      (fs : JobsFs) (names : List Text)
      → length (jobs_of ops realpath jobs_root fs names) ≤ length names
  unfolding jobs_of
  length-jobs_of fs [] = omega arith
  length-jobs_of fs (name ∷ names) = omega (
    arith,
    length-cons_some (job_of ops realpath jobs_root fs name)
        (jobs_of ops realpath jobs_root fs names),
    length-jobs_of fs names,
  )
    where
      length-cons_some :
          (o : Option Job) (jobs : List Job)
          → length (cons_some ops realpath jobs_root o jobs) ≤ length jobs + 1
      length-cons_some none jobs = omega arith
      length-cons_some (some job) jobs = omega arith

  -- Where the limit leaves room for every name, each readable job is in the list.
  pub list_jobs_complete :
      (fs : JobsFs) (limit : ℤ) (name : Text) (job : Job)
      → length (listdir ops realpath jobs_root fs) ≤ clip limit
      → Elem name (listdir ops realpath jobs_root fs)
      → job_of ops realpath jobs_root fs name ≡ some job
      → Elem job (list_jobs ops realpath jobs_root fs limit)
  unfolding list_jobs
  list_jobs_complete fs limit name job room m e =
      let names = listdir ops realpath jobs_root fs in
      let jobs = jobs_of ops realpath jobs_root fs names in
      rw
        (take-eq_self (clip limit) (sort_by newer jobs)
          (omega (arith, length-sort_by newer jobs, length-jobs_of fs names)))
        (sort_by-Elem newer job jobs (jobs_of-Elem fs names name job m e))

  skipped_one_lem :
      (fs : JobsFs) (name : Text)
      → length (cons_some ops realpath jobs_root (job_of ops realpath jobs_root fs name) [])
          + skipped_one ops realpath jobs_root fs name
        ≡ (if is_some (storage_dir ops realpath jobs_root fs name) then 1 else 0)
  unfolding job_of
  skipped_one_lem fs name = ground arith

  -- the names that stand for a directory of the store
  pub stored : JobsFs → List Text → ℕ
  stored fs [] = 0
  stored fs (name ∷ names) =
      (if is_some (storage_dir ops realpath jobs_root fs name) then 1 else 0) + stored fs names

  jobs_of-count :
      (fs : JobsFs) (names : List Text)
      → length (jobs_of ops realpath jobs_root fs names)
          + skipped_in ops realpath jobs_root fs names
        ≡ stored fs names
  unfolding jobs_of skipped_in stored
  jobs_of-count fs [] = omega arith
  jobs_of-count fs (name ∷ names) = omega (
    arith,
    jobs_of-count fs names,
    skipped_one_lem fs name,
    length-cons (job_of ops realpath jobs_root fs name) (jobs_of ops realpath jobs_root fs names),
  )
    where
      length-cons :
          (o : Option Job) (jobs : List Job)
          → length (cons_some ops realpath jobs_root o jobs)
            ≡ length (cons_some ops realpath jobs_root o []) + length jobs
      length-cons none jobs = omega arith
      length-cons (some job) jobs = omega arith

  -- With room for every name, each directory of the store is either listed or counted as skipped.
  pub list_jobs-count_skipped :
      (fs : JobsFs) (limit : ℤ)
      → length (listdir ops realpath jobs_root fs) ≤ clip limit
      → length (list_jobs ops realpath jobs_root fs limit) + count_skipped ops realpath jobs_root fs
        ≡ stored fs (listdir ops realpath jobs_root fs)
  unfolding list_jobs count_skipped
  list_jobs-count_skipped fs limit room =
      let names = listdir ops realpath jobs_root fs in
      let jobs = jobs_of ops realpath jobs_root fs names in
      omega (
        arith,
        length-take (clip limit) (sort_by newer jobs),
        length-sort_by newer jobs,
        length-jobs_of fs names,
        jobs_of-count fs names,
      )
