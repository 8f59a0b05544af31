-- ===== src/Jobs/Cancel/Aimed.antt =====
-- A run of `cancel` up to the process group that it acts on: the rest of the run is about the group
-- that `os.getpgid` names for the supervisor of the job.
use aa_panel_tomcat_plugin.Prelude.{
  ℕ, ◌≡◌, refl, ◌⊎◌, inl, inr, Bool, List, [], ◌∷◌, Option, none, some, Text, Result, ok,
  Bool-cases, Result-cases, ℤ,
}
use aa_panel_tomcat_plugin.Jobs.{Json, Meta, job_dir, normalise_state}
use aa_panel_tomcat_plugin.Jobs.Proc.{
  Bytes, Identity, Uncertain, expected_prefix, capture_expected, capture_identity,
}
use aa_panel_tomcat_plugin.Jobs.Cancel.Monad.{
  probed, polled, asked, Trace, CancelError, raise, ◌>>=◌,
}
use aa_panel_tomcat_plugin.Jobs.Cancel.{
  World, Located, found, no_process, denied_group, failed_group, probe_identity, ask_group,
  raced_or, with_group, with_identity, is_running, falsy, cancel_read, cancel,
}
use aa_panel_tomcat_plugin.Jobs.Cancel.Keeps.{Keeps-raced_or}

-- The process that the job's metadata names was captured as its supervisor `i`, and `os.getpgid`
-- named its group `g`.
pub record IsAimed (realpath : Text → Text) (jobs_root executable module_file : Text)
    (world : World) (job_id : Text) (i : Identity) (g : ℤ) : Type 0 where
  path : Text
  meta : Meta
  at_path : job_dir realpath jobs_root job_id ≡ ok path
  read : world.meta 0 ≡ ok meta
  captured :
      capture_identity realpath executable module_file path (world.procfs 0) meta.pid ≡ some i
  located : world.locate 1 i.0 ≡ found g

-- `Q` holds of a run that does nothing but look, and `P` of one that goes on with a located group.
module _ (Q : Trace → Type 0) (P : Identity → ℤ → Trace → Type 0) (start : Q [])
    (on_probed : (seen : Option Identity) (tr : Trace) → Q tr → Q (probed seen ∷ tr))
    (on_polled : (pgid : ℤ) (r : Result Uncertain Bool) (tr : Trace)
      → Q tr
      → Q (polled pgid r ∷ tr))
    (on_asked : (tr : Trace) → Q tr → Q (asked ∷ tr)) (rounds rounds' : ℕ)
    (on_group : (world : World) (expected : List Bytes) (meta : Meta) (i : Identity) (g : ℤ)
      → P i g
          (with_group world expected meta.pid meta i rounds rounds'
            (found g)
            (asked ∷ probed (some i) ∷ [])).1) where
  module _ (world : World) (expected : List Bytes) where
    abbrev LocatedFrom : Json → Trace → Type 0
    LocatedFrom value tr =
        Q tr
        ⊎ ((i : Identity) × (g : ℤ) × (capture_expected expected (world.procfs 0) value ≡ some i)
            × (world.locate 1 i.0 ≡ found g)
            × P i g tr)

    raced_or-looks :
        (value : Json) (e : CancelError) (tr : Trace)
        → Q tr
        → Q (raced_or world expected value e tr).1
    raced_or-looks value e tr h =
        (Keeps-raced_or world expected value Q on_probed on_polled on_asked e).at tr h

    with_group-LocatedFrom :
        (meta : Meta) (i : Identity) (group : Located)
        → capture_expected expected (world.procfs 0) meta.pid ≡ some i
        → world.locate 1 i.0 ≡ group
        → (let run =
              with_group world expected meta.pid meta i rounds rounds' group
                (asked ∷ probed (some i) ∷ []) in
            LocatedFrom meta.pid run.1)
    unfolding with_group raise
    with_group-LocatedFrom meta i (found g) e l = inr (i, g, e, l, on_group world expected meta i g)
    with_group-LocatedFrom meta i no_process e l =
        inl (raced_or-looks meta.pid _ _ (on_asked _ (on_probed _ _ start)))
    with_group-LocatedFrom meta i denied_group e l = inl (on_asked _ (on_probed _ _ start))
    with_group-LocatedFrom meta i failed_group e l = inl (on_asked _ (on_probed _ _ start))

    with_identity-LocatedFrom :
        (meta : Meta) (o : Option Identity)
        → capture_expected expected (world.procfs 0) meta.pid ≡ o
        → (let run = with_identity world expected meta.pid meta rounds rounds' o (probed o ∷ []) in
            LocatedFrom meta.pid run.1)
    unfolding with_identity ◌>>=◌ ask_group
    with_identity-LocatedFrom meta none e =
        inl (raced_or-looks meta.pid _ (probed none ∷ []) (on_probed _ _ start))
    with_identity-LocatedFrom meta (some i) e =
        with_group-LocatedFrom meta i (world.locate 1 i.0) e refl

    cancel_read-LocatedFrom :
        (meta : Meta)
        → (let run = cancel_read world expected rounds rounds' (ok meta) [] in
            LocatedFrom meta.pid run.1)
    unfolding cancel_read ◌>>=◌ probe_identity raise
    cancel_read-LocatedFrom meta = elim (Bool-cases (is_running (normalise_state meta.state))) [
      | inr e ↦ rw e (inl start)
      | inl e ↦ elim (Bool-cases (falsy meta.pid)) [
        | inl f ↦ rw (e, f) (inl start)
        | inr f ↦ rw (e, f) (with_identity-LocatedFrom meta _ refl)
      ]
    ]

  module _ (realpath : Text → Text) (jobs_root executable module_file : Text) (world : World) where
    pub cancel-IsAimed :
        (job_id : Text)
        → (let run =
              cancel realpath jobs_root executable module_file world rounds rounds' job_id [] in
            Q run.1
            ⊎ ((i : Identity) × (g : ℤ) × IsAimed realpath jobs_root executable module_file world
                  job_id i g
                × P i g run.1))
    unfolding cancel cancel_read raise
    cancel-IsAimed job_id = elim (Result-cases (job_dir realpath jobs_root job_id)) [
      | inl (e, bad) ↦ inl (rw (bad, cancel) start)
      | inr (path, good) ↦ elim (Result-cases (world.meta 0)) [
        | inl (e, unread) ↦ inl (rw (good, cancel) (rw (unread, cancel_read) start))
        | inr (meta, read) ↦
            rw (good, cancel)
              (rw (read, cancel_read)
                (elim (cancel_read-LocatedFrom world
                  (expected_prefix realpath executable module_file path) meta) [
                    | inl quiet ↦ inl quiet
                    | inr (i, g, e, l, h) ↦ inr (
                      i,
                      g,
                      record {
                        path = path;
                        meta = meta;
                        at_path = good;
                        read = read;
                        captured = e;
                        located = l;
                      },
                      h,
                    )
                  ]))
      ]
    ]
