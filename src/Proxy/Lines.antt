-- ===== src/Proxy/Lines.antt =====
-- The lines of a text, put together again after some are left out.
use aa_panel_tomcat_plugin.Prelude.{
  ℕ, ◌≡◌, refl, ap, ◌∙◌, inl, inr, ◌⊎◌, Bool, true, false, List, [], ◌∷◌, ◌++◌, Text, Bool-cases,
  filter, cons_first,
}
use aa_panel_tomcat_plugin.Proxy.{lines_of, joined, is_break}

-- a line with its break, and the end of a text that has none
abbrev IsWhole : Text → Type 0
IsWhole [] = ⊥
IsWhole (c ∷ s) = ((is_break c ≡ true) × (s ≡ [])) ⊎ ((is_break c ≡ false) × IsWhole s)

abbrev IsEnd : Text → Type 0
IsEnd [] = ⊥
IsEnd (c ∷ s) = (is_break c ≡ false) × ((s ≡ []) ⊎ IsEnd s)

abbrev AreLines : List Text → Type 0
AreLines [] = Unit
AreLines (w ∷ ws) = (IsWhole w × AreLines ws) ⊎ (IsEnd w × (ws ≡ []))

cons_first-AreLines :
    (c : ℕ) (ws : List Text) → is_break c ≡ false → AreLines ws → AreLines (cons_first c ws)
cons_first-AreLines c [] e h = inr ((e, inl refl), refl)
cons_first-AreLines c (w ∷ ws) e (inl (k, h)) = inl (inr (e, k), h)
cons_first-AreLines c (w ∷ ws) e (inr (k, h)) = inr ((e, inr k), h)

lines_of-AreLines : (s : Text) → AreLines (lines_of s)
unfolding lines_of
lines_of-AreLines [] = tt
lines_of-AreLines (c ∷ s) = elim (Bool-cases (is_break c)) [
  | inl e ↦ rw e (inl (inl (e, refl), lines_of-AreLines s))
  | inr e ↦ rw e (cons_first-AreLines c (lines_of s) e (lines_of-AreLines s))
]

filter-AreLines : (p : Text → Bool) (ws : List Text) → AreLines ws → AreLines (filter p ws)
unfolding filter
filter-AreLines p [] h = tt
filter-AreLines p (w ∷ ws) (inl (k, h)) = elim (Bool-cases (p w)) [
  | inl e ↦ rw e (inl (k, filter-AreLines p ws h))
  | inr e ↦ rw e (filter-AreLines p ws h)
]
filter-AreLines p (w ∷ ws) (inr (k, h)) = elim (Bool-cases (p w)) [
  | inl e ↦ rw e (inr (k, ap (filter p) h))
  | inr e ↦ rw (e, h) tt
]

lines_of-whole : (w s : Text) → IsWhole w → lines_of (w ++ s) ≡ w ∷ lines_of s
unfolding lines_of
lines_of-whole [] s h = elim h [ ]
lines_of-whole (c ∷ w) s (inl (e, k)) = rw (e, k) refl
lines_of-whole (c ∷ w) s (inr (e, k)) = rw (e, lines_of-whole w s k) refl

lines_of-end : (w : Text) → IsEnd w → lines_of w ≡ w ∷ []
unfolding lines_of
lines_of-end [] h = elim h [ ]
lines_of-end (c ∷ w) (e, inl k) = rw (e, k) refl
lines_of-end (c ∷ w) (e, inr k) = rw (e, lines_of-end w k) refl

append-nil : (s : Text) → s ++ [] ≡ s
append-nil [] = refl
append-nil (c ∷ s) = ap (λ r. c ∷ r) (append-nil s)

lines_of-joined : (ws : List Text) → AreLines ws → lines_of (joined ws) ≡ ws
unfolding joined lines_of
lines_of-joined [] h = refl
lines_of-joined (w ∷ ws) (inl (k, h)) =
    lines_of-whole w (joined ws) k ∙ ap (λ r. w ∷ r) (lines_of-joined ws h)
lines_of-joined (w ∷ ws) (inr (k, h)) = rw (h, joined, append-nil w, lines_of-end w k) refl

-- The text of the lines that pass a test has those lines and no other.
pub lines_of-joined-filter :
    (p : Text → Bool) (s : Text) → lines_of (joined (filter p (lines_of s))) ≡ filter p (lines_of s)
lines_of-joined-filter p s =
    lines_of-joined (filter p (lines_of s)) (filter-AreLines p (lines_of s) (lines_of-AreLines s))
