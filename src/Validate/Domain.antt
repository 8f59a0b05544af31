-- ===== src/Validate/Domain.antt =====
-- Which host names util/validate.py accepts: the labels of RFC 1123, in lower case.
use aa_panel_tomcat_plugin.Prelude.{
  ℕ, ◌≤◌, ◌≡◌, refl, ◌↔◌, inl, inr, Bool, true, false, not, ◌&&◌, List, [], ◌∷◌, Text, Value, ok,
  length, All, All-map, all, all_sound, all_complete, ◌==◌, leb, arith, is_empty, is_space, strip,
  strip-LastNot, LastNot, HeadNot, lower, lower_onto, split_on, text_or_empty, Bool-cases, and_true,
  subst, sym, ap, ok_eq,
}
use aa_panel_tomcat_plugin.Validate.{
  is_label_char, starts_dash, ends_dash, label_match, drop_newline, domain_match, domain,
}

abbrev is_newline : ℕ → Bool
is_newline c = c == 10

abbrev is_dash : ℕ → Bool
is_dash c = c == b'-'

-- One to 63 characters of `[A-Za-z0-9-]`, with a dash at neither end.
abbrev IsLabel : Text → Type 0
IsLabel w =
    (1 ≤ length w)
    × (length w ≤ 63)
    × All (λ c. is_label_char c ≡ true) w
    × HeadNot is_dash w
    × LastNot is_dash w

starts_dash_iff : (w : Text) → (starts_dash w ≡ false) ↔ HeadNot is_dash w
unfolding starts_dash
starts_dash_iff [] = (λ h. tt, λ h. refl)
starts_dash_iff (c ∷ w) = (λ h. h, λ h. h)

ends_dash_iff : (w : Text) → (ends_dash w ≡ false) ↔ LastNot is_dash w
unfolding ends_dash
ends_dash_iff [] = (λ h. tt, λ h. refl)
ends_dash_iff (c ∷ []) = (λ h. h, λ h. h)
ends_dash_iff (c ∷ d ∷ w) = ends_dash_iff (d ∷ w)

label_tests :
    (a b c d e : Bool)
    → ((a && b && c && not d && not e) ≡ true)
      ↔ ((a ≡ true) × (b ≡ true) × (c ≡ true) × (d ≡ false) × (e ≡ false))
label_tests true true true false false = ground arith
label_tests a b c d e = ground arith

label_match_iff : (w : Text) → (label_match w ≡ true) ↔ IsLabel w
unfolding label_match
label_match_iff w =
    let split =
      label_tests (leb 1 (length w)) (leb (length w) 63) (all is_label_char w) (starts_dash w)
        (ends_dash w) in
    (
      λ h.
          let (low, high, chars, head, last) = split.0 h in
          (
            ground arith,
            ground arith,
            all_sound is_label_char w chars,
            (starts_dash_iff w).0 head,
            (ends_dash_iff w).0 last,
          ),
      λ (low, high, chars, head, last). split.1 (
        ground arith,
        ground arith,
        all_complete is_label_char w chars,
        (starts_dash_iff w).1 head,
        (ends_dash_iff w).1 last,
      ),
    )

drop_newline-eq_self : (s : Text) → LastNot is_newline s → drop_newline s ≡ s
unfolding drop_newline
drop_newline-eq_self [] h = refl
drop_newline-eq_self (c ∷ []) h = rw h
drop_newline-eq_self (c ∷ d ∷ s) h = ap (λ r. c ∷ r) (drop_newline-eq_self (d ∷ s) h)

is_empty-lower : (c : ℕ) (s : Text) → is_empty (lower (c ∷ s)) ≡ false
unfolding lower
is_empty-lower c s = ground arith

lower_onto-LastNot_one : (c : ℕ) → is_space c ≡ false → LastNot is_newline (lower_onto c [])
unfolding is_space
lower_onto-LastNot_one c h = ground arith

lower_onto-LastNot :
    (c : ℕ) (r : Text)
    → is_empty r ≡ false
    → LastNot is_newline r
    → LastNot is_newline (lower_onto c r)
lower_onto-LastNot c [] e h = cc
lower_onto-LastNot c (d ∷ r) e h = ground arith

-- No newline comes to stand at the end of a stripped text by lowering it.
lower-LastNot : (s : Text) → LastNot is_space s → LastNot is_newline (lower s)
unfolding lower
lower-LastNot [] h = tt
lower-LastNot (c ∷ []) h = lower_onto-LastNot_one c h
lower-LastNot (c ∷ d ∷ s) h =
    lower_onto-LastNot c (lower (d ∷ s)) (is_empty-lower d s) (lower-LastNot (d ∷ s) h)

-- Dots part labels, and the whole has one to 253 characters.
abbrev pub IsDomain : Text → Type 0
IsDomain s = (1 ≤ length s) × (length s ≤ 253) × All IsLabel (split_on b'.' s)

domain_match_iff : (s : Text) → LastNot is_newline s → (domain_match s ≡ true) ↔ IsDomain s
unfolding domain_match
domain_match_iff s clean = rw (drop_newline-eq_self s clean) (forth, back)
  where
    labels : List Text
    labels = split_on b'.' s

    tests : Bool
    tests = leb 1 (length s) && leb (length s) 253 && all label_match labels

    forth : tests ≡ true → IsDomain s
    forth h =
        let (sizes, match) =
          and_true (leb 1 (length s) && leb (length s) 253) (all label_match labels) h in
        (
          ground arith,
          ground arith,
          All-map _ _ (λ w. (label_match_iff w).0) labels (all_sound label_match labels match),
        )

    back : IsDomain s → tests ≡ true
    back (low, high, each) =
        let match =
          all_complete label_match labels (All-map _ _ (λ w. (label_match_iff w).1) labels each) in
        rw match (ground arith)

-- `domain` returns a name exactly when the stripped, lower-cased value is a host name, and returns
-- that.
pub domain_iff :
    (value : Value) (name : Text)
    → (domain value ≡ ok name) ↔ ((name ≡ lower (strip (text_or_empty value))) × IsDomain name)
unfolding domain
domain_iff value name =
    let s = lower (strip (text_or_empty value)) in
    let clean : LastNot is_newline s =
      lower-LastNot (strip (text_or_empty value)) (strip-LastNot (text_or_empty value)) in
    elim (Bool-cases (domain_match s)) [
      | inl e ↦ rw e (
        λ h. (ok_eq h, subst IsDomain (sym (ok_eq h)) ((domain_match_iff s clean).0 e)),
        λ (h, k). cc,
      )
      | inr e ↦ rw e (λ h. cc, λ (h, k). cc ((domain_match_iff s clean).1 (subst IsDomain h k)))
    ]
