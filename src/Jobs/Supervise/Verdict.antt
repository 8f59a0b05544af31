-- ===== src/Jobs/Supervise/Verdict.antt =====
-- What the supervisor leaves in the metadata of its job.
use aa_panel_tomcat_plugin.Prelude.{
  ◌≡◌, refl, ◌⊎◌, inl, inr, Bool, true, false, not, List, [], ◌∷◌, ◌++◌, Option, none, some, Text,
  codes, All, ℤ, pos, int_eq, if◌then◌else◌, Bool-cases, text_eq, strip, strip_by, is_space,
  trim_start, trim_end, lower,
}
use aa_panel_tomcat_plugin.Jobs.{Meta, str, running, done, failed, normalise_state, Float}
use aa_panel_tomcat_plugin.Jobs.Supervise.{
  Circumstances, read_or_blank, marked_running, finalized, written_if, finish, fail, waited_for,
  supervise, message_of,
}

-- The record is a running job's, or a finished one's whose state fits the exit code.
abbrev pub IsRunning : Meta → Type 0
IsRunning meta = normalise_state meta.state ≡ running

abbrev pub IsVerdict : ℤ → Meta → Type 0
IsVerdict rc meta =
    ((normalise_state meta.state ≡ done) × (int_eq rc (pos 0) ≡ true))
    ⊎ ((normalise_state meta.state ≡ failed) × (int_eq rc (pos 0) ≡ false))

normalise_state-words :
    (normalise_state (str (codes "running")) ≡ running)
    × (normalise_state (str (codes "done")) ≡ done)
    × (normalise_state (str (codes "failed")) ≡ failed)
unfolding normalise_state strip strip_by is_space trim_start trim_end lower text_eq
normalise_state-words = (refl, refl, refl)

marked_running-IsRunning : (meta : Meta) (pid : ℤ) → IsRunning (marked_running meta pid)
unfolding marked_running
marked_running-IsRunning meta pid = normalise_state-words.0

finalized-IsVerdict :
    (meta : Meta) (ended : Float) (rc : ℤ) (message : Text)
    → IsVerdict rc (finalized meta ended rc message)
unfolding finalized
finalized-IsVerdict meta ended rc message = elim (Bool-cases (int_eq rc (pos 0))) [
  | inl e ↦ inl (rw (e, finalized) normalise_state-words.1, e)
  | inr e ↦ inr (rw (e, finalized) normalise_state-words.2, e)
]

-- The worker could not be spawned or waited for, or the first record could not be written.
abbrev pub HasException : Circumstances → Type 0
HasException c = (c.spawned ≡ false) ⊎ (c.first_written ≡ false) ⊎ (c.waited ≡ none)

-- The exit code of a run that was not asked to stop: the worker's, or 127 of an exception.
abbrev pub IsExit : Circumstances → ℤ → Type 0
IsExit c rc =
    ((c.cancel_requested ≡ false) × (c.waited ≡ some rc)) ⊎ (HasException c × (rc ≡ pos 127))

-- How a run ends: it leaves a running record to the process that cancels it, or its last record is
-- the verdict, if that could be written.
abbrev pub Ends : Circumstances → ℤ × List Meta → Type 0
Ends c (rc, writes) =
    ((c.cancel_requested ≡ true) × (rc ≡ pos 143) × All IsRunning writes)
    ⊎ ((ws : List Meta) × (meta : Meta) × (writes ≡ ws ++ written_if c.last_written meta)
        × All IsRunning ws
        × IsVerdict rc meta
        × IsExit c rc)

module _ (c : Circumstances) where
  Ends-if :
      (b : Bool) (x y : ℤ × List Meta)
      → (b ≡ true → Ends c x)
      → (b ≡ false → Ends c y)
      → Ends c (if b then x else y)
  Ends-if true x y h k = h refl
  Ends-if false x y h k = k refl

  finish-Ends :
      (meta : Meta) (rc : ℤ) (message : Text) (writes : List Meta)
      → All IsRunning writes
      → IsExit c rc
      → Ends c (finish c meta rc message writes)
  unfolding finish
  finish-Ends meta rc message writes h k = inr (
    writes,
    finalized meta c.ended rc message,
    refl,
    h,
    finalized-IsVerdict meta c.ended rc message,
    k,
  )

  waited_for-Ends :
      (meta : Meta) (o : Option ℤ) → c.waited ≡ o → IsRunning meta → Ends c (waited_for c meta o)
  unfolding waited_for fail
  waited_for-Ends meta none w h =
      finish-Ends meta (pos 127) _ (meta ∷ []) (h, tt) (inr (inr (inr w), refl))
  waited_for-Ends meta (some rc) w h =
      Ends-if c.cancel_requested _ _ (λ e. inl (e, refl, (h, tt)))
        (λ e. finish-Ends meta rc (message_of rc) (meta ∷ []) (h, tt) (inl (e, w)))

  -- Whatever happens to the worker, a run of the supervisor ends in one of two ways. Either it was
  -- asked to stop, exits with 143 and has written only running records. Or it exits with the
  -- worker's exit code and was not asked to stop, or exits with 127 and the worker could not be
  -- spawned or waited for or the first record could not be written; and then its last record, if
  -- that could be written, is `done` if the exit code is 0 and `failed` otherwise, and each record
  -- before it is running.
  pub supervise-Ends : (name : Text) → Ends c (supervise c name)
  unfolding supervise fail
  supervise-Ends name =
      let meta = read_or_blank name c.now c.meta in
      Ends-if (not c.spawned) _ _
        (λ e. finish-Ends meta (pos 127) _ [] tt (inr (inl (of_not c.spawned e), refl)))
        (λ e.
          Ends-if (not c.first_written) _ _
            (λ f.
              finish-Ends (marked_running meta c.pid) (pos 127) _ [] tt
                (inr (inr (inl (of_not c.first_written f)), refl)))
            (λ f.
              waited_for-Ends (marked_running meta c.pid) c.waited refl
                (marked_running-IsRunning meta c.pid)))
    where
      of_not : (b : Bool) → not b ≡ true → b ≡ false
      of_not true h = cc
      of_not false h = refl
