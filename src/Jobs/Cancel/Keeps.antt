-- ===== src/Jobs/Cancel/Keeps.antt =====
-- Properties of the events that a run of `cancel` keeps, one rule for each way to build a run.
use aa_panel_tomcat_plugin.Prelude.{
  ◌∷◌, ℕ, zero, suc, Bool, true, false, not, List, Option, none, some, Result, ok, err, ℤ,
  if◌then◌else◌,
}
use aa_panel_tomcat_plugin.Jobs.{Json, State}
use aa_panel_tomcat_plugin.Jobs.Proc.{Bytes, Identity, Uncertain}
use aa_panel_tomcat_plugin.Jobs.Cancel.Monad.{
  probed, polled, asked, Trace, CancelError, Run, pure, raise, continue, ◌>>=◌,
}
use aa_panel_tomcat_plugin.Jobs.Cancel.{
  World, probe_identity, ask_meta, poll, wait_exit, terminal_in, or_raise, raced_or,
}

-- The run keeps a property of the events, whatever its outcome.
pub record Keeps (P : Trace → Type 0) {A : Type 0} (m : Run A) : Type 0 where
  pub at : (tr : Trace) → P tr → P (m tr).1

module _ (P : Trace → Type 0) where
  module _ {A : Type 0} where
    pub Keeps-pure : (a : A) → Keeps P (pure a)
    unfolding pure
    Keeps-pure a = record { at = λ tr h. h }

    pub Keeps-raise : (e : CancelError) → Keeps P (raise {A = A} e)
    unfolding raise
    Keeps-raise e = record { at = λ tr h. h }

    pub Keeps-if : (b : Bool) (m n : Run A) → Keeps P m → Keeps P n → Keeps P (if b then m else n)
    Keeps-if true m n k l = k
    Keeps-if false m n k l = l

  module _ {A B : Type 0} where
    pub Keeps-continue :
        (r : Result CancelError A) (f : A → Run B) (tr : Trace)
        → ((a : A) → Keeps P (f a))
        → P tr
        → P (continue r f tr).1
    Keeps-continue (ok a) f tr k h = (k a).at tr h
    Keeps-continue (err e) f tr k h = h

    pub Keeps-bind :
        (m : Run A) (f : A → Run B) → Keeps P m → ((a : A) → Keeps P (f a)) → Keeps P (m >>= f)
    unfolding ◌>>=◌
    Keeps-bind m f k l = record { at = λ tr h. Keeps-continue (m tr).0 f (m tr).1 l (k.at tr h) }

-- A property that no sight, question or poll disturbs is kept by all that only looks.
module _ (world : World) (expected : List Bytes) (value : Json) (P : Trace → Type 0)
    (on_probed : (seen : Option Identity) (tr : Trace) → P tr → P (probed seen ∷ tr))
    (on_polled : (pgid : ℤ) (r : Result Uncertain Bool) (tr : Trace)
      → P tr
      → P (polled pgid r ∷ tr))
    (on_asked : (tr : Trace) → P tr → P (asked ∷ tr)) where
  pub Keeps-probe : Keeps P (probe_identity world expected value)
  unfolding probe_identity
  Keeps-probe = record { at = λ tr h. on_probed _ tr h }

  pub Keeps-ask_meta : Keeps P (ask_meta world expected value)
  unfolding ask_meta
  Keeps-ask_meta = record { at = λ tr h. on_asked tr h }

  pub Keeps-poll : (pgid : ℤ) → Keeps P (poll world expected value pgid)
  unfolding poll
  Keeps-poll pgid = record { at = λ tr h. on_polled pgid _ tr h }

  pub Keeps-wait_exit :
      (rounds : ℕ) (pgid : ℤ) → Keeps P (wait_exit world expected value rounds pgid)
  unfolding wait_exit
  Keeps-wait_exit zero pgid = Keeps-bind P _ _ (Keeps-poll pgid) (λ there. Keeps-pure P (not there))
  Keeps-wait_exit (suc rounds) pgid =
      Keeps-bind P _ _ (Keeps-poll pgid)
        (λ there. Keeps-if P there _ _ (Keeps-wait_exit rounds pgid) (Keeps-pure P true))

  pub Keeps-raced_or : (e : CancelError) → Keeps P (raced_or world expected value e)
  unfolding raced_or
  Keeps-raced_or e =
      Keeps-bind P _ _ Keeps-ask_meta (λ r. Keeps-found (terminal_in world expected value r))
    where
      Keeps-found : (o : Option State) → Keeps P (or_raise world expected value e o)
      Keeps-found none = Keeps-raise P e
      Keeps-found (some state) = Keeps-pure P state
