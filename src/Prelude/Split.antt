-- ===== src/Prelude/Split.antt =====
-- Splitting a text and joining its pieces.
use Prim.Native.Nat.{ℕ}
use mathlib.Core.Path.{◌≡◌, refl, ap, ◌∙◌}
use mathlib.Core.Logic.{inl, inr}
use mathlib.Core.Bool.{Bool, true, false, not}
use mathlib.Core.List.{List, [], ◌∷◌, ◌++◌}
use native.Mathlib.Omega.{arith}
use aa_panel_tomcat_plugin.Prelude.Tests.{Bool-cases}
use aa_panel_tomcat_plugin.Prelude.Lists.{All, All-map, filter, filter-All, All-filter}
use aa_panel_tomcat_plugin.Prelude.Texts.{
  Text, is_empty, is_space, cons_first, split_by, words, join,
}

-- No character of the text passes the test.
abbrev pub Free : (ℕ → Bool) → Text → Type 0
Free p s = All (λ c. p c ≡ false) s

module _ (p : ℕ → Bool) where
  cons_first-Free :
      (c : ℕ) (ws : List Text) → p c ≡ false → All (Free p) ws → All (Free p) (cons_first c ws)
  cons_first-Free c [] e h = ((e, tt), tt)
  cons_first-Free c (w ∷ ws) e (k, h) = ((e, k), h)

  -- No piece holds a separator.
  pub split_by-Free : (s : Text) → All (Free p) (split_by p s)
  unfolding split_by
  split_by-Free [] = (tt, tt)
  split_by-Free (c ∷ s) = elim (Bool-cases (p c)) [
    | inl e ↦ rw e (tt, split_by-Free s)
    | inr e ↦ rw e (cons_first-Free c (split_by p s) e (split_by-Free s))
  ]

  -- A text with no separator is one piece, and a separator ends a piece.
  pub split_by-eq_of_Free : (w : Text) → Free p w → split_by p w ≡ w ∷ []
  unfolding split_by
  split_by-eq_of_Free [] h = refl
  split_by-eq_of_Free (c ∷ w) (e, h) = rw (e, split_by-eq_of_Free w h)

  pub split_by-append :
      (w : Text) (c : ℕ) (s : Text)
      → Free p w
      → p c ≡ true
      → split_by p (w ++ c ∷ s) ≡ w ∷ split_by p s
  unfolding split_by
  split_by-append [] c s h e = rw e
  split_by-append (d ∷ w) c s (k, h) e = rw (k, split_by-append w c s h e)

  pub split_by-join :
      (c : ℕ) (w : Text) (ws : List Text)
      → p c ≡ true
      → All (Free p) (w ∷ ws)
      → split_by p (join (c ∷ []) (w ∷ ws)) ≡ w ∷ ws
  unfolding join
  split_by-join c w [] e (h, k) = split_by-eq_of_Free w h
  split_by-join c w (v ∷ ws) e (h, k) =
      split_by-append w c (join (c ∷ []) (v ∷ ws)) h e ∙ ap (λ r. w ∷ r) (split_by-join c v ws e k)

abbrev pub IsWord : Text → Type 0
IsWord w = (is_empty w ≡ false) × Free is_space w

not-true : (b : Bool) → not b ≡ true → b ≡ false
not-true b h = ground arith

both : (P Q : Text → Type 0) (ws : List Text) → All P ws → All Q ws → All (λ w. P w × Q w) ws
both P Q [] h k = tt
both P Q (w ∷ ws) (p, h) (q, k) = ((p, q), both P Q ws h k)

-- The words of a text are not empty and hold no white space.
pub words-IsWord : (s : Text) → All IsWord (words s)
unfolding words
words-IsWord s =
    both _ _ (filter (λ w. not (is_empty w)) (split_by is_space s))
      (All-map _ (λ w. is_empty w ≡ false) (λ w. not-true (is_empty w)) _
        (filter-All (λ w. not (is_empty w)) (split_by is_space s)))
      (All-filter (Free is_space) (λ w. not (is_empty w)) (split_by is_space s)
        (split_by-Free is_space s))
