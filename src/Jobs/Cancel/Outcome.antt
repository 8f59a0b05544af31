-- ===== src/Jobs/Cancel/Outcome.antt =====
-- `cancel` records a cancellation only once the process group is proven gone.
use aa_panel_tomcat_plugin.Prelude.{
  ℕ, zero, suc, ◌≡◌, refl, ap, Bool, true, false, not, List, [], ◌∷◌, Option, codes, Result, ok,
  err, length, ℤ, if◌then◌else◌,
}
use aa_panel_tomcat_plugin.Jobs.{Json, str}
use aa_panel_tomcat_plugin.Jobs.Proc.{
  Bytes, Identity, capture_expected, Kill, delivered, absent, denied, failed, Uncertain,
  group_exists,
}
use aa_panel_tomcat_plugin.Jobs.Cancel.Monad.{
  Signal, term, kill, probed, polled, signalled, wrote, asked, Trace, CancelError,
  changed_before_kill, Run, pure, raise, continue, ◌>>=◌,
}
use aa_panel_tomcat_plugin.Jobs.Cancel.{
  World, same_identity, probe_identity, poll, poll_result, wait_exit, signal_group, signal_result,
  signal_and_wait, escalate, terminate,
}

-- The last that was learnt of the group `g` is that it is gone: a poll of it saw no live member, or
-- a signal to it found no group.
abbrev pub IsGone : ℤ → Trace → Type 0
IsGone g [] = ⊥
IsGone g (polled pgid (ok there) ∷ tr) = (pgid ≡ g) × (there ≡ false)
IsGone g (polled pgid (err u) ∷ tr) = ⊥
IsGone g (signalled s pgid answer ∷ tr) = (pgid ≡ g) × (answer ≡ absent)
IsGone g (asked ∷ tr) = IsGone g tr
IsGone g (probed seen ∷ tr) = IsGone g tr
IsGone g (wrote meta ∷ tr) = IsGone g tr

-- Each write records a cancellation of a group that was gone.
abbrev pub IsEarned : ℤ → Trace → Type 0
IsEarned g [] = Unit
IsEarned g (wrote meta ∷ tr) = (meta.state ≡ str (codes "cancelled")) × IsGone g tr × IsEarned g tr
IsEarned g (e ∷ tr) = IsEarned g tr

module _ (world : World) (expected : List Bytes) (value : Json) (g : ℤ) where
  abbrev wait_step : Run Bool → Bool → Run Bool
  wait_step later there = if there then later else pure true

  last_poll-IsGone :
      (tr : Trace) (r : Result Uncertain Bool)
      → (let run =
            continue
              (poll_result world expected value r)
              (λ there. pure (not there))
              (polled g r ∷ tr) in
          run.0 ≡ ok true → IsGone g run.1)
  unfolding pure
  last_poll-IsGone tr (ok true) h = cc
  last_poll-IsGone tr (ok false) h = (refl, refl)
  last_poll-IsGone tr (err u) h = cc

  one_poll-IsGone :
      (later : Run Bool)
      → ((tr : Trace) → (later tr).0 ≡ ok true → IsGone g (later tr).1)
      → (tr : Trace) (r : Result Uncertain Bool)
      → (let run =
            continue
              (poll_result world expected value r)
              (λ there. if there then later else pure true)
              (polled g r ∷ tr) in
          run.0 ≡ ok true → IsGone g run.1)
  unfolding pure
  one_poll-IsGone later k tr (ok true) h = k _ h
  one_poll-IsGone later k tr (ok false) h = (refl, refl)
  one_poll-IsGone later k tr (err u) h = cc

  -- A true result of the wait, and of the signal with the wait, comes with the proof.
  wait_exit-IsGone :
      (rounds : ℕ) (tr : Trace)
      → (wait_exit world expected value rounds g tr).0 ≡ ok true
      → IsGone g (wait_exit world expected value rounds g tr).1
  unfolding wait_exit ◌>>=◌ poll
  wait_exit-IsGone zero tr h = last_poll-IsGone tr (group_exists g (world.sighting (length tr))) h
  wait_exit-IsGone (suc rounds) tr h =
      one_poll-IsGone (wait_exit world expected value rounds g) (wait_exit-IsGone rounds) tr
        (group_exists g (world.sighting (length tr))) h

  signal-IsGone :
      (s : Signal) (later : Run Bool)
      → ((tr : Trace) → (later tr).0 ≡ ok true → IsGone g (later tr).1)
      → (tr : Trace) (k : Kill)
      → (let run =
            continue
              (signal_result world expected value k)
              (λ there. if there then later else pure true)
              (signalled s g k ∷ tr) in
          run.0 ≡ ok true → IsGone g run.1)
  unfolding pure
  signal-IsGone s later k tr delivered h = k _ h
  signal-IsGone s later k tr absent h = (refl, refl)
  signal-IsGone s later k tr denied h = cc
  signal-IsGone s later k tr failed h = cc

  signal_and_wait-IsGone :
      (s : Signal) (rounds : ℕ) (tr : Trace)
      → (signal_and_wait world expected value s rounds g tr).0 ≡ ok true
      → IsGone g (signal_and_wait world expected value s rounds g tr).1
  unfolding signal_and_wait signal_group ◌>>=◌
  signal_and_wait-IsGone s rounds tr h =
      signal-IsGone s (wait_exit world expected value rounds g) (wait_exit-IsGone rounds) tr
        (world.killed (length tr)) h

  escalate-IsGone :
      (i : Identity) (rounds : ℕ) (tr : Trace) (gone : Bool)
      → (gone ≡ true → IsGone g tr)
      → (escalate world expected value i rounds g gone tr).0 ≡ ok true
      → IsGone g (escalate world expected value i rounds g gone tr).1
  unfolding escalate ◌>>=◌ probe_identity pure raise
  escalate-IsGone i rounds tr true k h = k refl
  escalate-IsGone i rounds tr false k h =
      let seen = capture_expected expected (world.procfs (length tr)) value in
      go (same_identity i seen) h
    where
      seen' : Option Identity
      seen' = capture_expected expected (world.procfs (length tr)) value

      go :
          (b : Bool)
          → (let run =
                (if b
                    then signal_and_wait world expected value kill rounds g
                    else raise changed_before_kill)
                  (probed seen' ∷ tr) in
              run.0 ≡ ok true → IsGone g run.1)
      go true h = signal_and_wait-IsGone kill rounds (probed seen' ∷ tr) h
      go false h = cc

  bind-IsGone :
      (f : Bool → Run Bool) (r : Result CancelError Bool) (tr : Trace)
      → (r ≡ ok true → IsGone g tr)
      → ((gone : Bool)
          → (gone ≡ true → IsGone g tr)
          → (f gone tr).0 ≡ ok true
          → IsGone g (f gone tr).1)
      → (continue r f tr).0 ≡ ok true
      → IsGone g (continue r f tr).1
  bind-IsGone f (ok gone) tr was k h = k gone (λ e. was (ap ok e)) h
  bind-IsGone f (err e) tr was k h = cc

  -- `terminate` returns true only when the group is gone.
  pub terminate-IsGone :
      (i : Identity) (rounds rounds' : ℕ) (tr : Trace)
      → (terminate world expected value i rounds rounds' g tr).0 ≡ ok true
      → IsGone g (terminate world expected value i rounds rounds' g tr).1
  unfolding terminate ◌>>=◌
  terminate-IsGone i rounds rounds' tr h =
      let run = signal_and_wait world expected value term rounds g tr in
      bind-IsGone (escalate world expected value i rounds' g) run.0 run.1
        (signal_and_wait-IsGone term rounds tr) (λ gone. escalate-IsGone i rounds' run.1 gone) h
