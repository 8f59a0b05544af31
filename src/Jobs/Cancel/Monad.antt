-- ===== src/Jobs/Cancel/Monad.antt =====
-- Runs of `cancel`: a value or an exception, and the events so far, the latest first.
use aa_panel_tomcat_plugin.Prelude.{Bool, List, Option, Result, ok, err, ℤ}
use aa_panel_tomcat_plugin.Jobs.{Meta, State, Error}
use aa_panel_tomcat_plugin.Jobs.Proc.{Identity, Kill, Uncertain}

pub data Signal : Type 0 where
  term kill : Signal

-- What the run did, with what it was told.
pub data Event : Type 0 where
  probed : Option Identity → Event
  polled : ℤ → Result Uncertain Bool → Event
  signalled : Signal → ℤ → Kill → Event
  wrote : Meta → Event
  asked : Event

abbrev pub Trace : Type 0
Trace = List Event

pub data CancelError : Type 0 where
  bad_id no_meta : Error → CancelError
  not_running : State → CancelError
  still_starting unverified vanished group_denied group_failed : CancelError
  changed_before_term changed_before_kill signal_failed still_exists write_failed : CancelError
  exit_unknown : Uncertain → CancelError

abbrev pub Run : Type 0 → Type 0
Run A = Trace → Result CancelError A × Trace

module _ {A : Type 0} where
  unfoldable pub pure : A → Run A
  pure a tr = (ok a, tr)

  unfoldable pub raise : CancelError → Run A
  raise e tr = (err e, tr)

module _ {A B : Type 0} where
  abbrev pub continue : Result CancelError A → (A → Run B) → Run B
  continue (ok a) f tr = f a tr
  continue (err e) f tr = (err e, tr)

  infixl 5 ◌>>=◌ ◌>>◌
  unfoldable pub ◌>>=◌ : Run A → (A → Run B) → Run B
  ◌>>=◌ m f tr = let (r, tr') = m tr in continue r f tr'

  abbrev pub ◌>>◌ : Run A → Run B → Run B
  m >> n = m >>= λ _. n
