-- ===== src/Jobs/Cancel/Earned.antt =====
-- Every record that `cancel` writes is a cancellation that the run has earned.
use aa_panel_tomcat_plugin.Prelude.{
  ℕ, ◌≡◌, refl, inl, inr, ◌⊎◌, Bool, true, false, List, [], ◌∷◌, Text, Result, ok, err, length,
  Bool-cases, ℤ,
}
use aa_panel_tomcat_plugin.Jobs.{Json, Meta, normalise_state, is_terminal}
use aa_panel_tomcat_plugin.Jobs.Proc.{Bytes, Identity}
use aa_panel_tomcat_plugin.Jobs.Cancel.Monad.{
  Signal, term, kill, asked, wrote, Trace, CancelError, pure, raise, ◌>>=◌,
}
use aa_panel_tomcat_plugin.Jobs.Cancel.{
  World, found, same_identity, probe_identity, ask_meta, wait_exit, signal_group, raced_or,
  signal_and_wait, escalate, terminate, write_meta, mark_cancelled, latest, conclude, finalize,
  after, attempt, with_group, cancel,
}
use aa_panel_tomcat_plugin.Jobs.Cancel.Keeps.{
  Keeps, Keeps-pure, Keeps-raise, Keeps-if, Keeps-bind, Keeps-probe, Keeps-wait_exit,
  Keeps-raced_or,
}
use aa_panel_tomcat_plugin.Jobs.Cancel.Aimed.{IsAimed, cancel-IsAimed}
use aa_panel_tomcat_plugin.Jobs.Cancel.Outcome.{IsGone, IsEarned, terminate-IsGone}

module _ (world : World) (expected : List Bytes) (value : Json) (g : ℤ) where
  Earned-probe : Keeps (IsEarned g) (probe_identity world expected value)
  Earned-probe =
      Keeps-probe world expected value (IsEarned g) (λ s tr h. h) (λ p r tr h. h) (λ tr h. h)

  Earned-raced_or : (e : CancelError) → Keeps (IsEarned g) (raced_or world expected value e)
  Earned-raced_or =
      Keeps-raced_or world expected value (IsEarned g) (λ s tr h. h) (λ p r tr h. h) (λ tr h. h)

  Earned-wait_exit :
      (rounds : ℕ) (pgid : ℤ) → Keeps (IsEarned g) (wait_exit world expected value rounds pgid)
  Earned-wait_exit =
      Keeps-wait_exit world expected value (IsEarned g) (λ s tr h. h) (λ p r tr h. h) (λ tr h. h)

  Earned-signal : (s : Signal) → Keeps (IsEarned g) (signal_group world expected value s g)
  unfolding signal_group
  Earned-signal s = record { at = λ tr h. h }

  Earned-signal_and_wait :
      (s : Signal) (rounds : ℕ)
      → Keeps (IsEarned g) (signal_and_wait world expected value s rounds g)
  unfolding signal_and_wait
  Earned-signal_and_wait s rounds = Keeps-bind (IsEarned g) _ _ (Earned-signal s) (λ there.
      Keeps-if (IsEarned g) there _ _ (Earned-wait_exit rounds g) (Keeps-pure (IsEarned g) true))

  Earned-escalate :
      (i : Identity) (rounds : ℕ) (gone : Bool)
      → Keeps (IsEarned g) (escalate world expected value i rounds g gone)
  unfolding escalate
  Earned-escalate i rounds true = Keeps-pure (IsEarned g) true
  Earned-escalate i rounds false = Keeps-bind (IsEarned g) _ _ Earned-probe (λ again.
      Keeps-if (IsEarned g) (same_identity i again) _ _ (Earned-signal_and_wait kill rounds)
        (Keeps-raise (IsEarned g) _))

  Earned-terminate :
      (i : Identity) (rounds rounds' : ℕ)
      → Keeps (IsEarned g) (terminate world expected value i rounds rounds' g)
  unfolding terminate
  Earned-terminate i rounds rounds' =
      Keeps-bind (IsEarned g) _ _ (Earned-signal_and_wait term rounds) (Earned-escalate i rounds')

  conclude-IsEarned :
      (meta : Meta) (tr : Trace)
      → IsGone g tr
      → IsEarned g tr
      → IsEarned g (conclude world expected value meta tr).1
  unfolding conclude mark_cancelled write_meta ◌>>=◌ pure
  conclude-IsEarned meta tr gone h = elim (Bool-cases (is_terminal (normalise_state meta.state))) [
    | inl e ↦ rw e h
    | inr e ↦ rw e (elim (Bool-cases (world.written (length tr))) [
      | inl w ↦ rw w (refl, gone, h)
      | inr w ↦ rw w h
    ])
  ]

  after-IsEarned :
      (meta : Meta) (r : Result CancelError Bool) (tr : Trace)
      → (r ≡ ok true → IsGone g tr)
      → IsEarned g tr
      → IsEarned g (after world expected value meta r tr).1
  unfolding after finalize ◌>>=◌ ask_meta raise
  after-IsEarned meta (ok true) tr gone h =
      conclude-IsEarned (latest world expected value meta (world.meta (length tr))) (asked ∷ tr)
        (gone refl) h
  after-IsEarned meta (ok false) tr gone h = h
  after-IsEarned meta (err e) tr gone h = (Earned-raced_or e).at tr h

  attempt-IsEarned :
      (meta : Meta) (i : Identity) (rounds rounds' : ℕ)
      → Keeps (IsEarned g) (attempt world expected value meta i rounds rounds' g)
  unfolding attempt
  attempt-IsEarned meta i rounds rounds' = record {
    at = λ tr h.
        after-IsEarned meta _ _ (terminate-IsGone world expected value g i rounds rounds' tr)
          ((Earned-terminate i rounds rounds').at tr h);
  }

  with_group-IsEarned :
      (meta : Meta) (i : Identity) (rounds rounds' : ℕ)
      → Keeps (IsEarned g) (with_group world expected value meta i rounds rounds' (found g))
  unfolding with_group
  with_group-IsEarned meta i rounds rounds' = Keeps-bind (IsEarned g) _ _ Earned-probe (λ again.
      Keeps-if (IsEarned g) (same_identity i again) _ _ (attempt-IsEarned meta i rounds rounds')
        (Earned-raced_or _))

-- Nothing was written.
abbrev IsUnwritten : Trace → Type 0
IsUnwritten [] = Unit
IsUnwritten (wrote meta ∷ tr) = ⊥
IsUnwritten (e ∷ tr) = IsUnwritten tr

module _ (realpath : Text → Text) (jobs_root executable module_file : Text) (world : World)
    (rounds rounds' : ℕ) where
  -- What a run wrote: nothing, or cancellations that it has earned for the group that was located
  -- for the captured supervisor.
  pub IsJustified : Text → Trace → Type 0
  IsJustified job_id tr =
      IsUnwritten tr
      ⊎ ((i : Identity) × (g : ℤ) × IsAimed realpath jobs_root executable module_file world job_id i
            g
          × IsEarned g tr)

  -- Whatever the world answers, `cancel` writes no metadata, or it captured the supervisor of this
  -- job and `os.getpgid` named its group, each metadata that it writes has the state `cancelled`,
  -- and before the write the last signal to that group or poll of it showed that it is gone: the
  -- signal found no group, or the poll saw no live member.
  pub cancel-IsEarned :
      (job_id : Text)
      → IsJustified job_id
          (cancel realpath jobs_root executable module_file world rounds rounds' job_id []).1
  unfolding IsJustified
  cancel-IsEarned =
      cancel-IsAimed IsUnwritten (λ i. IsEarned) tt (λ s t k. k) (λ p r t k. k) (λ t k. k) rounds
        rounds'
        (λ world expected meta i g.
          (with_group-IsEarned world expected meta.pid g meta i rounds rounds').at _ tt)
        realpath jobs_root executable module_file world
