-- ===== src/Jobs/Cancel.antt =====
-- `cancel` of core/jobs.py, against a world whose answers may change from one call to the next.
mod Monad
mod Keeps
mod Aimed
mod Signals
mod Outcome
mod Earned
mod Tests
use aa_panel_tomcat_plugin.Prelude.{
  ℕ, zero, suc, ◌+◌, length, Bool, true, false, not, ◌&&◌, List, [], ◌∷◌, Option, none, some, Text,
  codes, Result, ok, err, if◌then◌else◌, is_empty, ℤ, pos, negsuc, int_eq,
}
use aa_panel_tomcat_plugin.Jobs.{
  Json, null, bool, int, float, str, compound, finite, infinite, not_a_number, Meta, State, running,
  done, failed, cancelled, unknown, missing, Error, job_dir, normalise_state, is_terminal, Float,
}
use aa_panel_tomcat_plugin.Jobs.Proc.{
  Bytes, Identity, Procfs, Sighting, Kill, delivered, absent, denied, Uncertain, capture_expected,
  group_exists, expected_prefix,
}
use aa_panel_tomcat_plugin.Jobs.Cancel.Monad.{
  Signal, term, kill, Event, probed, polled, signalled, wrote, asked, Trace, CancelError, bad_id,
  no_meta, not_running, still_starting, unverified, vanished, group_denied, group_failed,
  changed_before_term, changed_before_kill, signal_failed, exit_unknown, still_exists, write_failed,
  Run, pure, raise, ◌>>=◌, ◌>>◌,
}

-- The answer of `os.getpgid`.
pub data Located : Type 0 where
  found : ℤ → Located
  no_process denied_group failed_group : Located

-- What each kind of call answers; the number is how many events came before. `locate` answers for
-- a pid.
pub record World : Type 0 where
  pub meta : ℕ → Result Error Meta
  pub procfs : ℕ → Procfs
  pub locate : ℕ → ℤ → Located
  pub sighting : ℕ → Sighting
  pub killed : ℕ → Kill
  pub written : ℕ → Bool
  pub now : ℕ → Float

-- `not value`
falsy : Json → Bool
falsy null = true
falsy (bool b) = not b
falsy (int (pos zero)) = true
falsy (int z) = false
falsy (float (finite (pos zero))) = true
falsy (float x) = false
falsy (str s) = is_empty s
falsy (compound full) = not full

same_identity : Identity → Option Identity → Bool
same_identity i none = false
same_identity i (some j) = int_eq i.0 j.0 && int_eq i.1 j.1

module _ (world : World) (expected : List Bytes) (value : Json) where
  -- `_pid_is_supervisor`
  pub probe_identity : Run (Option Identity)
  probe_identity tr =
      let seen = capture_expected expected (world.procfs (length tr)) value in
      (ok seen, probed seen ∷ tr)

  pub ask_meta : Run (Result Error Meta)
  ask_meta tr = (ok (world.meta (length tr)), asked ∷ tr)

  -- `os.getpgid(pid)`
  pub ask_group : ℤ → Run Located
  ask_group pid tr = (ok (world.locate (length tr) pid), asked ∷ tr)

  abbrev poll_result : Result Uncertain Bool → Result CancelError Bool
  poll_result (ok there) = ok there
  poll_result (err u) = err (exit_unknown u)

  -- `_process_group_exists`; its RuntimeError is `exit_unknown`.
  pub poll : ℤ → Run Bool
  poll pgid tr =
      let answer = group_exists pgid (world.sighting (length tr)) in
      (poll_result answer, polled pgid answer ∷ tr)

  -- `_wait_for_process_group_exit`: `rounds` is how often the clock is found before the deadline.
  -- The result says that the group is gone.
  pub wait_exit : ℕ → ℤ → Run Bool
  wait_exit zero pgid = do there ← poll pgid; pure (not there)
  wait_exit (suc rounds) pgid = do
    there ← poll pgid
    if there then wait_exit rounds pgid else pure true

  abbrev signal_result : Kill → Result CancelError Bool
  signal_result delivered = ok true
  signal_result absent = ok false
  signal_result k = err signal_failed

  -- `_signal_process_group`: false where the group is proven absent.
  signal_group : Signal → ℤ → Run Bool
  signal_group s pgid tr =
      let answer = world.killed (length tr) in (signal_result answer, signalled s pgid answer ∷ tr)

  terminal_in : Result Error Meta → Option State
  terminal_in (err e) = none
  terminal_in (ok meta) =
      if is_terminal (normalise_state meta.state) then some (normalise_state meta.state) else none

  abbrev or_raise : CancelError → Option State → Run State
  or_raise e none = raise e
  or_raise e (some state) = pure state

  -- `_terminal_cancel_result`, and the exception where it finds none
  pub raced_or : CancelError → Run State
  raced_or e = do current ← ask_meta; or_raise e (terminal_in current)

  -- a signal, and the wait unless the group is proven absent
  signal_and_wait : Signal → ℕ → ℤ → Run Bool
  signal_and_wait s rounds pgid = do
    there ← signal_group s pgid
    if there then wait_exit rounds pgid else pure true

  -- after the wait that follows SIGTERM: the group is gone, or SIGKILL after one more check
  escalate : Identity → ℕ → ℤ → Bool → Run Bool
  escalate identity rounds pgid true = pure true
  escalate identity rounds pgid false = do
    again ← probe_identity
    if same_identity identity again
        then signal_and_wait kill rounds pgid
        else raise changed_before_kill

  -- the body of the `try`: SIGTERM, the wait, and what follows
  pub terminate : Identity → ℕ → ℕ → ℤ → Run Bool
  terminate identity rounds rounds' pgid = do
    gone ← signal_and_wait term rounds pgid
    escalate identity rounds' pgid gone

  write_meta : Meta → Run Unit
  write_meta meta tr =
      if world.written (length tr) then (ok tt, wrote meta ∷ tr) else (err write_failed, asked ∷ tr)

  abbrev cancelled_meta : Meta → Float → Meta
  cancelled_meta meta now = record meta {
    state = str (codes "cancelled");
    ended = float now;
    message = str (codes "cancelled by operator");
  }

  abbrev latest : Meta → Result Error Meta → Meta
  latest old (ok new) = new
  latest old (err e) = old

  mark_cancelled : Meta → Run State
  mark_cancelled meta tr =
      (write_meta (cancelled_meta meta (world.now (length tr))) >>= λ _. pure cancelled) tr

  conclude : Meta → Run State
  conclude meta =
      if is_terminal (normalise_state meta.state)
      then pure (normalise_state meta.state)
      else mark_cancelled meta

  -- the end of the function, with the metadata that was read first
  finalize : Meta → Bool → Run State
  finalize meta false = raise still_exists
  finalize meta true = do again ← ask_meta; conclude (latest meta again)

  -- `except RuntimeError` around `terminate`
  after : Meta → Result CancelError Bool → Run State
  after meta (ok gone) = finalize meta gone
  after meta (err e) = raced_or e

  attempt : Meta → Identity → ℕ → ℕ → ℤ → Run State
  attempt meta identity rounds rounds' pgid tr =
      let (r, tr') = terminate identity rounds rounds' pgid tr in after meta r tr'

  pub with_group : Meta → Identity → ℕ → ℕ → Located → Run State
  with_group meta identity rounds rounds' (found pgid) = do
    again ← probe_identity
    if same_identity identity again
        then attempt meta identity rounds rounds' pgid
        else raced_or changed_before_term
  with_group meta identity rounds rounds' no_process = raced_or vanished
  with_group meta identity rounds rounds' denied_group = raise group_denied
  with_group meta identity rounds rounds' failed_group = raise group_failed

  with_identity : Meta → ℕ → ℕ → Option Identity → Run State
  with_identity meta rounds rounds' none = raced_or unverified
  with_identity meta rounds rounds' (some identity) = do
    group ← ask_group identity.0
    with_group meta identity rounds rounds' group

abbrev is_running : State → Bool
is_running running = true
is_running state = false

-- `cancel` behind the check of the identifier: `expected` is how the command line of this job's
-- supervisor starts, and the numbers bound the two waits.
cancel_read : World → List Bytes → ℕ → ℕ → Result Error Meta → Run State
cancel_read world expected rounds rounds' (err e) = raise (no_meta e)
cancel_read world expected rounds rounds' (ok meta) =
    if not (is_running (normalise_state meta.state))
    then raise (not_running (normalise_state meta.state))
    else if falsy meta.pid
    then raise still_starting
    else do
      identity ← probe_identity world expected meta.pid
      with_identity world expected meta.pid meta rounds rounds' identity

module _ (realpath : Text → Text) (jobs_root executable module_file : Text) (world : World)
    (rounds rounds' : ℕ) where
  pub cancel : Text → Run State
  cancel job_id tr = elim (job_dir realpath jobs_root job_id) [
    | err e ↦ (err (bad_id e), tr)
    | ok path ↦
        cancel_read world (expected_prefix realpath executable module_file path) rounds rounds'
          (world.meta 0) tr
  ]
