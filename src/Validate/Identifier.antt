-- ===== src/Validate/Identifier.antt =====
-- Which identifiers util/validate.py accepts: exactly the app names that are safe as one component
-- of a path.
use aa_panel_tomcat_plugin.Prelude.{
  length, arith, ℕ, zero, suc, ◌≤◌, ◌≡◌, refl, ◌↔◌, inl, inr, true, false, [], ◌∷◌, Text, codes,
  Value, ok, All, is_alnum, is_space, strip, strip-LastNot, and_true, subst, sym, LastNot, among,
  any, text_eq, text_or_empty, Bool-cases, ok_eq,
}
use aa_panel_tomcat_plugin.Validate.{is_ident_char, at_end, ident_tail, ident_match, identifier}

-- One to 63 characters, the first a letter or a digit, the others of `[A-Za-z0-9._-]`.
abbrev pub IsIdentifier : Text → Type 0
IsIdentifier [] = ⊥
IsIdentifier (c ∷ s) = (is_alnum c ≡ true) × All (λ d. is_ident_char d ≡ true) s × (length s ≤ 62)

not-at_end : (c : ℕ) (s : Text) → LastNot is_space (c ∷ s) → at_end (c ∷ s) ≡ false
unfolding at_end is_space
not-at_end c [] h = ground arith
not-at_end c (d ∷ s) h = refl

LastNot-tail : (c : ℕ) (s : Text) → LastNot is_space (c ∷ s) → LastNot is_space s
LastNot-tail c [] h = tt
LastNot-tail c (d ∷ s) h = h

ident_tail_sound :
    (n : ℕ) (s : Text)
    → LastNot is_space s
    → ident_tail n s ≡ true
    → All (λ d. is_ident_char d ≡ true) s × (length s ≤ n)
unfolding ident_tail
ident_tail_sound zero [] k h = (tt, omega arith)
ident_tail_sound zero (c ∷ s) k h = ground (arith, not-at_end c s k)
ident_tail_sound (suc n) [] k h = (tt, omega arith)
ident_tail_sound (suc n) (c ∷ s) k h =
    ground (arith, not-at_end c s k, ident_tail_sound n s (LastNot-tail c s k))

ident_tail_complete :
    (n : ℕ) (s : Text) → All (λ d. is_ident_char d ≡ true) s → length s ≤ n → ident_tail n s ≡ true
unfolding ident_tail at_end
ident_tail_complete zero [] h k = refl
ident_tail_complete zero (c ∷ s) h k = absurd (omega arith)
ident_tail_complete (suc n) [] h k = refl
ident_tail_complete (suc n) (c ∷ s) (e, h) k = rw (e, ident_tail_complete n s h (omega arith))

ident_match_iff : (s : Text) → LastNot is_space s → (ident_match s ≡ true) ↔ IsIdentifier s
unfolding ident_match
ident_match_iff [] k = ground arith
ident_match_iff (c ∷ s) k = (
  λ h.
      let (a, b) = and_true (is_alnum c) (ident_tail 62 s) h in
      let (chars, short) = ident_tail_sound 62 s (LastNot-tail c s k) b in (a, chars, short),
  λ (a, chars, short). rw (a, ident_tail_complete 62 s chars short),
)

-- no identifier is "." or "..": the first character is none
not-dots : (s : Text) → IsIdentifier s → among s (codes "." ∷ codes ".." ∷ []) ≡ false
unfolding among any text_eq is_alnum
not-dots [] h = absurd h
not-dots (c ∷ []) h = ground arith
not-dots (c ∷ d ∷ s) h = ground arith

-- `identifier` returns a name exactly when the stripped value is one, and returns that.
pub identifier_iff :
    (value : Value) (name : Text)
    → (identifier value ≡ ok name) ↔ ((name ≡ strip (text_or_empty value)) × IsIdentifier name)
unfolding identifier
identifier_iff value name =
    let s = strip (text_or_empty value) in
    let clean : LastNot is_space s = strip-LastNot (text_or_empty value) in
    elim (Bool-cases (ident_match s)) [
      | inl e ↦
          let dots = not-dots s ((ident_match_iff s clean).0 e) in
          rw (e, dots)
            (
              λ h. (ok_eq h, subst IsIdentifier (sym (ok_eq h)) ((ident_match_iff s clean).0 e)),
              λ (h, k). cc,
            )
      | inr e ↦ rw e (λ h. cc, λ (h, k). cc ((ident_match_iff s clean).1 (subst IsIdentifier h k)))
    ]
