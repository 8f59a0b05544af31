-- ===== src/Jobs/Cancel/Signals.antt =====
-- `cancel` signals a process group only right after it has seen the supervisor that it saw first.
use aa_panel_tomcat_plugin.Prelude.{
  ℕ, ◌≡◌, refl, ◌⊎◌, inl, inr, Bool, true, false, List, [], ◌∷◌, Text, Result, ok, err, length,
  Bool-cases, ℤ,
}
use aa_panel_tomcat_plugin.Jobs.{Json, Meta}
use aa_panel_tomcat_plugin.Jobs.Proc.{Bytes, Identity, capture_expected}
use aa_panel_tomcat_plugin.Jobs.Cancel.Monad.{
  Signal, term, kill, probed, signalled, Trace, CancelError, pure, ◌>>=◌,
}
use aa_panel_tomcat_plugin.Jobs.Cancel.{
  World, found, same_identity, probe_identity, ask_meta, wait_exit, signal_group, raced_or,
  signal_and_wait, escalate, terminate, write_meta, mark_cancelled, conclude, finalize, after,
  attempt, with_group, cancel,
}
use aa_panel_tomcat_plugin.Jobs.Cancel.Aimed.{IsAimed, cancel-IsAimed}
use aa_panel_tomcat_plugin.Jobs.Cancel.Keeps.{
  Keeps, Keeps-pure, Keeps-raise, Keeps-if, Keeps-continue, Keeps-bind, Keeps-ask_meta,
  Keeps-wait_exit, Keeps-raced_or,
}

-- The latest event is a sight of that supervisor.
abbrev JustSeen : Identity → Trace → Type 0
JustSeen i [] = ⊥
JustSeen i (probed seen ∷ tr) = same_identity i seen ≡ true
JustSeen i (e ∷ tr) = ⊥

-- Each signal goes to that group and comes right after a sight of that supervisor.
abbrev IsGuarded : Identity → ℤ → Trace → Type 0
IsGuarded i g [] = Unit
IsGuarded i g (signalled s pgid k ∷ tr) = (pgid ≡ g) × JustSeen i tr × IsGuarded i g tr
IsGuarded i g (e ∷ tr) = IsGuarded i g tr

module _ (world : World) (expected : List Bytes) (value : Json) (i : Identity) (g : ℤ) where
  IsGuarded-ask_meta : Keeps (IsGuarded i g) (ask_meta world expected value)
  IsGuarded-ask_meta =
      Keeps-ask_meta world expected value (IsGuarded i g) (λ s tr h. h) (λ p r tr h. h) (λ tr h. h)

  IsGuarded-wait_exit :
      (rounds : ℕ) (pgid : ℤ) → Keeps (IsGuarded i g) (wait_exit world expected value rounds pgid)
  IsGuarded-wait_exit =
      Keeps-wait_exit world expected value (IsGuarded i g) (λ s tr h. h) (λ p r tr h. h) (λ tr h. h)

  IsGuarded-raced_or : (e : CancelError) → Keeps (IsGuarded i g) (raced_or world expected value e)
  IsGuarded-raced_or =
      Keeps-raced_or world expected value (IsGuarded i g) (λ s tr h. h) (λ p r tr h. h) (λ tr h. h)

  -- a signal is the one step that needs the sight
  signal_and_wait-IsGuarded :
      (s : Signal) (rounds : ℕ) (tr : Trace)
      → JustSeen i tr
      → IsGuarded i g tr
      → IsGuarded i g (signal_and_wait world expected value s rounds g tr).1
  unfolding signal_and_wait signal_group ◌>>=◌
  signal_and_wait-IsGuarded s rounds tr seen h =
      Keeps-continue (IsGuarded i g) _ _ (signalled s g (world.killed (length tr)) ∷ tr)
        (λ there.
          Keeps-if (IsGuarded i g) there _ _ (IsGuarded-wait_exit rounds g)
            (Keeps-pure (IsGuarded i g) true))
        (refl, seen, h)

  Keeps-escalate :
      (rounds : ℕ) (gone : Bool)
      → Keeps (IsGuarded i g) (escalate world expected value i rounds g gone)
  unfolding escalate ◌>>=◌ probe_identity
  Keeps-escalate rounds true = Keeps-pure (IsGuarded i g) true
  Keeps-escalate rounds false = record {
    at = λ tr h.
        let seen = capture_expected expected (world.procfs (length tr)) value in
        elim (Bool-cases (same_identity i seen)) [
          | inl e ↦ rw e (signal_and_wait-IsGuarded kill rounds (probed seen ∷ tr) e h)
          | inr e ↦ rw e ((Keeps-raise (IsGuarded i g) _).at (probed seen ∷ tr) h)
        ];
  }

  terminate-IsGuarded :
      (rounds rounds' : ℕ) (tr : Trace)
      → JustSeen i tr
      → IsGuarded i g tr
      → IsGuarded i g (terminate world expected value i rounds rounds' g tr).1
  unfolding terminate ◌>>=◌
  terminate-IsGuarded rounds rounds' tr seen h =
      let run = signal_and_wait world expected value term rounds g tr in
      Keeps-continue (IsGuarded i g) run.0 (escalate world expected value i rounds' g) run.1
        (Keeps-escalate rounds') (signal_and_wait-IsGuarded term rounds tr seen h)

  Keeps-mark_cancelled :
      (meta : Meta) → Keeps (IsGuarded i g) (mark_cancelled world expected value meta)
  unfolding mark_cancelled write_meta ◌>>=◌ pure
  Keeps-mark_cancelled meta = record {
    at = λ tr h. elim (Bool-cases (world.written (length tr))) [ inl e ↦ rw e h | inr e ↦ rw e h ];
  }

  Keeps-conclude : (meta : Meta) → Keeps (IsGuarded i g) (conclude world expected value meta)
  unfolding conclude
  Keeps-conclude meta =
      Keeps-if (IsGuarded i g) _ _ _ (Keeps-pure (IsGuarded i g) _) (Keeps-mark_cancelled meta)

  Keeps-after :
      (meta : Meta) (r : Result CancelError Bool)
      → Keeps (IsGuarded i g) (after world expected value meta r)
  unfolding after finalize
  Keeps-after meta (ok true) =
      Keeps-bind (IsGuarded i g) _ _ IsGuarded-ask_meta (λ again. Keeps-conclude _)
  Keeps-after meta (ok false) = Keeps-raise (IsGuarded i g) _
  Keeps-after meta (err e) = IsGuarded-raced_or e

  with_group-IsGuarded :
      (meta : Meta) (rounds rounds' : ℕ) (tr : Trace)
      → IsGuarded i g tr
      → IsGuarded i g (with_group world expected value meta i rounds rounds' (found g) tr).1
  unfolding with_group ◌>>=◌ probe_identity attempt
  with_group-IsGuarded meta rounds rounds' tr h =
      let seen = capture_expected expected (world.procfs (length tr)) value in
      elim (Bool-cases (same_identity i seen)) [
        | inl e ↦
            rw e (
              (Keeps-after meta _).at _ (terminate-IsGuarded rounds rounds' (probed seen ∷ tr) e h))
        | inr e ↦ rw e ((IsGuarded-raced_or _).at (probed seen ∷ tr) h)
      ]

-- No signal was sent.
abbrev IsQuiet : Trace → Type 0
IsQuiet [] = Unit
IsQuiet (signalled s pgid k ∷ tr) = ⊥
IsQuiet (e ∷ tr) = IsQuiet tr

module _ (realpath : Text → Text) (jobs_root executable module_file : Text) (world : World)
    (rounds rounds' : ℕ) where
  -- What a run sent: nothing, or signals to the group that was located for the captured supervisor,
  -- of which each comes right after a sight of that supervisor, before any other event.
  pub IsVerified : Text → Trace → Type 0
  IsVerified job_id tr =
      IsQuiet tr
      ⊎ ((i : Identity) × (g : ℤ) × IsAimed realpath jobs_root executable module_file world job_id i
            g
          × IsGuarded i g tr)

  -- Whatever the world answers and however the run ends, `cancel` sends no signal, or it captured
  -- the process that the job's metadata names as the supervisor of this job, `os.getpgid` named the
  -- group of that process, and each signal goes to that group right after a new sight of the same
  -- supervisor.
  pub cancel-IsVerified :
      (job_id : Text)
      → IsVerified job_id
          (cancel realpath jobs_root executable module_file world rounds rounds' job_id []).1
  unfolding IsVerified
  cancel-IsVerified =
      cancel-IsAimed IsQuiet IsGuarded tt (λ s t k. k) (λ p r t k. k) (λ t k. k) rounds rounds'
        (λ world expected meta i g.
          with_group-IsGuarded world expected meta.pid i g meta rounds rounds' _ tt)
        realpath jobs_root executable module_file world
