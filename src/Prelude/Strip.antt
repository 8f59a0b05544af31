-- ===== src/Prelude/Strip.antt =====
-- What stripping leaves.
use Prim.Native.Nat.{ℕ}
use mathlib.Core.Path.{◌≡◌, refl, ap}
use mathlib.Core.Logic.{inl, inr}
use mathlib.Core.Bool.{Bool, false}
use mathlib.Core.List.{[], ◌∷◌}
use aa_panel_tomcat_plugin.Prelude.Tests.{Bool-cases}
use aa_panel_tomcat_plugin.Prelude.Lists.{All}
use aa_panel_tomcat_plugin.Prelude.Texts.{
  Text, trim_start, trim_end, keep_before, strip_by, strip, is_space,
}

-- The first, and the last, character fails the test.
abbrev pub HeadNot : (ℕ → Bool) → Text → Type 0
HeadNot p [] = Unit
HeadNot p (c ∷ s) = p c ≡ false

abbrev pub LastNot : (ℕ → Bool) → Text → Type 0
LastNot p [] = Unit
LastNot p (c ∷ []) = p c ≡ false
LastNot p (c ∷ d ∷ s) = LastNot p (d ∷ s)

module _ (p : ℕ → Bool) where
  trim_start-HeadNot : (s : Text) → HeadNot p (trim_start p s)
  unfolding trim_start
  trim_start-HeadNot [] = tt
  trim_start-HeadNot (c ∷ s) = elim (Bool-cases (p c)) [
    | inl e ↦ rw e (trim_start-HeadNot s)
    | inr e ↦ rw e e
  ]

  keep_before-LastNot : (c : ℕ) (s : Text) → LastNot p s → LastNot p (keep_before p c s)
  keep_before-LastNot c [] h = elim (Bool-cases (p c)) [ inl e ↦ rw e tt | inr e ↦ rw e e ]
  keep_before-LastNot c (d ∷ s) h = h

  trim_end-LastNot : (s : Text) → LastNot p (trim_end p s)
  unfolding trim_end
  trim_end-LastNot [] = tt
  trim_end-LastNot (c ∷ s) = keep_before-LastNot c (trim_end p s) (trim_end-LastNot s)

  keep_before-HeadNot : (c : ℕ) (s : Text) → p c ≡ false → HeadNot p (keep_before p c s)
  keep_before-HeadNot c [] h = rw h h
  keep_before-HeadNot c (d ∷ s) h = h

  trim_end-HeadNot : (s : Text) → HeadNot p s → HeadNot p (trim_end p s)
  unfolding trim_end
  trim_end-HeadNot [] h = tt
  trim_end-HeadNot (c ∷ s) h = keep_before-HeadNot c (trim_end p s) h

  -- Neither end of a stripped text is a character that was to go.
  pub strip_by-HeadNot : (s : Text) → HeadNot p (strip_by p s)
  unfolding strip_by
  strip_by-HeadNot s = trim_end-HeadNot (trim_start p s) (trim_start-HeadNot s)

  pub strip_by-LastNot : (s : Text) → LastNot p (strip_by p s)
  unfolding strip_by
  strip_by-LastNot s = trim_end-LastNot (trim_start p s)

  trim_start-eq_self : (s : Text) → HeadNot p s → trim_start p s ≡ s
  unfolding trim_start
  trim_start-eq_self [] h = refl
  trim_start-eq_self (c ∷ s) h = rw h

  trim_end-eq_self : (s : Text) → LastNot p s → trim_end p s ≡ s
  unfolding trim_end
  trim_end-eq_self [] h = refl
  trim_end-eq_self (c ∷ []) h = rw h
  trim_end-eq_self (c ∷ d ∷ s) h = ap (keep_before p c) (trim_end-eq_self (d ∷ s) h)

  -- A text whose ends stay is left as it is.
  pub strip_by-eq_self : (s : Text) → HeadNot p s → LastNot p s → strip_by p s ≡ s
  unfolding strip_by
  strip_by-eq_self s h k = rw (trim_start-eq_self s h) (trim_end-eq_self s k)

  trim_start-All : (P : ℕ → Type 0) (s : Text) → All P s → All P (trim_start p s)
  unfolding trim_start
  trim_start-All P [] h = tt
  trim_start-All P (c ∷ s) (q, h) = elim (Bool-cases (p c)) [
    | inl e ↦ rw e (trim_start-All P s h)
    | inr e ↦ rw e (q, h)
  ]

  keep_before-All : (P : ℕ → Type 0) (c : ℕ) (s : Text) → P c → All P s → All P (keep_before p c s)
  keep_before-All P c [] q h = elim (Bool-cases (p c)) [ inl e ↦ rw e tt | inr e ↦ rw e (q, tt) ]
  keep_before-All P c (d ∷ s) q h = (q, h)

  trim_end-All : (P : ℕ → Type 0) (s : Text) → All P s → All P (trim_end p s)
  unfolding trim_end
  trim_end-All P [] h = tt
  trim_end-All P (c ∷ s) (q, h) = keep_before-All P c (trim_end p s) q (trim_end-All P s h)

  pub strip_by-All : (P : ℕ → Type 0) (s : Text) → All P s → All P (strip_by p s)
  unfolding strip_by
  strip_by-All P s h = trim_end-All P (trim_start p s) (trim_start-All P s h)

  -- A text none of whose characters is to go is left as it is.
  All-HeadNot : (s : Text) → All (λ c. p c ≡ false) s → HeadNot p s
  All-HeadNot [] h = tt
  All-HeadNot (c ∷ s) (e, h) = e

  All-LastNot : (s : Text) → All (λ c. p c ≡ false) s → LastNot p s
  All-LastNot [] h = tt
  All-LastNot (c ∷ []) (e, h) = e
  All-LastNot (c ∷ d ∷ s) (e, h) = All-LastNot (d ∷ s) h

  pub strip_by-eq_of_All : (s : Text) → All (λ c. p c ≡ false) s → strip_by p s ≡ s
  strip_by-eq_of_All s h = strip_by-eq_self s (All-HeadNot s h) (All-LastNot s h)

pub strip-LastNot : (s : Text) → LastNot is_space (strip s)
unfolding strip
strip-LastNot s = strip_by-LastNot is_space s

pub strip-strip : (s : Text) → strip (strip s) ≡ strip s
unfolding strip
strip-strip s =
    strip_by-eq_self is_space (strip_by is_space s) (strip_by-HeadNot is_space s)
      (strip_by-LastNot is_space s)

pub strip-eq_of_All : (s : Text) → All (λ c. is_space c ≡ false) s → strip s ≡ s
unfolding strip
strip-eq_of_All s h = strip_by-eq_of_All is_space s h
