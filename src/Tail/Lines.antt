-- ===== src/Tail/Lines.antt =====
-- The last lines of a file are those of a part at its end that has lines enough.
use aa_panel_tomcat_plugin.Prelude.{
  ℕ, zero, suc, ◌-◌, ◌≤◌, ◌<◌, ◌≡◌, refl, sym, ap, ◌∙◌, inl, inr, ◌⊎◌, ◌&&◌, ◌||◌, List, [], ◌∷◌,
  ◌++◌, length, length-append, drop, ◌==◌, cons_first, Bool-cases, arith,
}
use aa_panel_tomcat_plugin.Tail.{Bytes, count, lines_of, ending, starts_line}

module _ {ℓ} {A : Type ℓ} where
  drop-before : (n : ℕ) (f t : List A) → length f ≤ n → drop n (f ++ t) ≡ drop (n - length f) t
  drop-before n [] t h = ap (λ k. drop k t) (omega arith)
  drop-before zero (x ∷ f) t h = absurd (omega arith)
  drop-before (suc n) (x ∷ f) t h =
      drop-before n f t (omega arith) ∙ ap (λ k. drop k t) (omega arith)

  -- The last elements of a list are those of an end that has as many.
  last-append : (n : ℕ) (f t : List A) → n ≤ length t → ending n (f ++ t) ≡ ending n t
  last-append n f t h =
      drop-before (length (f ++ t) - n) f t (omega (arith, h, length-append f t))
      ∙ ap (λ k. drop k t) (omega (arith, h, length-append f t))

-- The lines of a longer text: those of the end with others before, and the first of them longer.
abbrev IsExtended : List Bytes → List Bytes → Type 0
IsExtended more less =
    ((f : List Bytes) × (more ≡ f ++ less))
    ⊎ ((f : List Bytes) × (w : Bytes) × (v : Bytes) × (rest : List Bytes) × (less ≡ w ∷ rest)
        × (more ≡ f ++ (v ∷ rest)))

new_line-IsExtended : (more less : List Bytes) → IsExtended more less → IsExtended ([] ∷ more) less
new_line-IsExtended more less (inl (f, e)) = inl ([] ∷ f, ap (λ r. [] ∷ r) e)
new_line-IsExtended more less (inr (f, w, v, rest, e, g)) =
    inr ([] ∷ f, w, v, rest, e, ap (λ r. [] ∷ r) g)

cons_first-IsExtended :
    (c : ℕ) (more less : List Bytes) → IsExtended more less → IsExtended (cons_first c more) less
cons_first-IsExtended c more [] (inl ([], e)) = inl ((c ∷ []) ∷ [], ap (cons_first c) e)
cons_first-IsExtended c more (w ∷ less) (inl ([], e)) =
    inr ([], w, c ∷ w, less, refl, ap (cons_first c) e)
cons_first-IsExtended c more less (inl (u ∷ f, e)) = inl ((c ∷ u) ∷ f, ap (cons_first c) e)
cons_first-IsExtended c more less (inr ([], w, v, rest, e, g)) =
    inr ([], w, c ∷ v, rest, e, ap (cons_first c) g)
cons_first-IsExtended c more less (inr (u ∷ f, w, v, rest, e, g)) =
    inr ((c ∷ u) ∷ f, w, v, rest, e, ap (cons_first c) g)

lines_of-IsExtended : (before s : Bytes) → IsExtended (lines_of (before ++ s)) (lines_of s)
unfolding lines_of
lines_of-IsExtended [] s = inl ([], refl)
lines_of-IsExtended (c ∷ before) s =
    let rest = lines_of-IsExtended before s in
    elim (Bool-cases (c == 13 && starts_line (before ++ s))) [
      | inl e ↦ rw e rest
      | inr e ↦ elim (Bool-cases (c == 10 || c == 13)) [
        | inl f ↦ rw (e, f) (new_line-IsExtended (lines_of (before ++ s)) (lines_of s) rest)
        | inr f ↦ rw (e, f) (cons_first-IsExtended c (lines_of (before ++ s)) (lines_of s) rest)
      ]
    ]

extended-last :
    (n : ℕ) (more less : List Bytes)
    → IsExtended more less
    → n < length less
    → ending n more ≡ ending n less
extended-last n more less (inl (f, e)) h = ap (ending n) e ∙ last-append n f less (omega arith)
extended-last n more less (inr (f, w, v, rest, e, g)) h =
    let enough : n ≤ length rest = omega (arith, h, ap length e) in
    ap (ending n) g
    ∙ last-append n f (v ∷ rest) (omega (arith, enough))
    ∙ last-append n (v ∷ []) rest enough
    ∙ sym (last-append n (w ∷ []) rest enough)
    ∙ sym (ap (ending n) e)

length-cons_first : (c : ℕ) (ws : List Bytes) → length ws ≤ length (cons_first c ws)
length-cons_first c [] = omega arith
length-cons_first c (w ∷ ws) = omega arith

count-lines_of : (s : Bytes) → count s ≤ length (lines_of s)
unfolding count lines_of
count-lines_of [] = omega arith
count-lines_of (c ∷ s) = ground (arith, count-lines_of s, length-cons_first c (lines_of s))

-- A part at the end of a file with more line feeds than `n` has the last `n` lines of the file.
pub last-lines_of :
    (n : ℕ) (before s : Bytes)
    → n < count s
    → ending n (lines_of (before ++ s)) ≡ ending n (lines_of s)
last-lines_of n before s h =
    extended-last n (lines_of (before ++ s)) (lines_of s) (lines_of-IsExtended before s)
      (omega (arith, h, count-lines_of s))
