-- ===== src/JvmOpts/Sanitize.antt =====
-- What `sanitize` keeps, what it drops, and that it drops nothing in silence.
use mathlib.Core.List.{append_assoc, append-nil}
use aa_panel_tomcat_plugin.Prelude.{
  subst, arith, ℕ, ◌+◌, ◌≤◌, ◌≡◌, refl, ◌∙◌, Bool, true, false, List, [], ◌∷◌, ◌++◌, Text, length,
  length-append, All, All-map, All-append, filter, is_empty, is_space, LastNot, among, strip,
  strip-strip, strip-LastNot, and_true, if◌then◌else◌,
}
use aa_panel_tomcat_plugin.JvmOpts.{
  is_safe_char, safe_match, removed_11_plus, has_removed_prefix, Verdict, blank, dropped, kept,
  judge, Sanitized, append_verdict, none_yet, sanitize_from, sanitize,
}

safe_match-All :
    (s : Text) → LastNot is_space s → safe_match s ≡ true → All (λ c. is_safe_char c ≡ true) s
unfolding safe_match is_space
safe_match-All [] k h = tt
safe_match-All (c ∷ []) k h = (h, tt)
safe_match-All (c ∷ d ∷ []) k h = ground arith
safe_match-All (c ∷ d ∷ e ∷ s) k h =
    let (a, b) = and_true (is_safe_char c) (safe_match (d ∷ e ∷ s)) h in
    (a, safe_match-All (d ∷ e ∷ s) k b)

-- A flag that the shell cannot misread, and that the JVM of that release still knows.
pub record IsAllowed (j : ℕ) (opt : Text) : Type 0 where
  filled : is_empty opt ≡ false
  safe : All (λ c. is_safe_char c ≡ true) opt
  known_11 : 11 ≤ j → among opt removed_11_plus ≡ false
  known_9 : 9 ≤ j → has_removed_prefix opt ≡ false

abbrev pub IsKept : ℕ → Text → Type 0
IsKept j opt = (strip opt ≡ opt) × (judge j opt ≡ kept opt)

kept-IsAllowed : (j : ℕ) (opt : Text) → IsKept j opt → IsAllowed j opt
unfolding judge
kept-IsAllowed j opt (s, h) = record {
  filled = ground arith;
  safe = safe_match-All opt (subst (LastNot is_space) s (strip-LastNot opt)) (ground arith);
  known_11 = λ k. ground arith;
  known_9 = λ k. ground arith;
}

judge-IsKept : (j : ℕ) (opt o : Text) → strip opt ≡ opt → judge j opt ≡ kept o → IsKept j o
unfolding judge
judge-IsKept j opt o s h = ground arith

sanitize_from-IsKept :
    (j : ℕ) (r : Sanitized) (opts : List Text)
    → All (IsKept j) r.cleaned
    → All (IsKept j) (sanitize_from j r opts).cleaned
unfolding sanitize_from
sanitize_from-IsKept j r [] h = h
sanitize_from-IsKept j r (opt ∷ opts) h =
    sanitize_from-IsKept j (append_verdict r (judge j (strip opt))) opts
      (step (judge j (strip opt)) refl)
  where
    step : (v : Verdict) → judge j (strip opt) ≡ v → All (IsKept j) (append_verdict r v).cleaned
    step blank e = h
    step (dropped w) e = h
    step (kept o) e =
        All-append (IsKept j) r.cleaned (o ∷ []) h
          (judge-IsKept j (strip opt) o (strip-strip opt) e, tt)

-- Sanitizing what was kept keeps all of it.
pub sanitize_from-kept :
    (j : ℕ) (r : Sanitized) (opts : List Text)
    → All (IsKept j) opts
    → sanitize_from j r opts ≡ record { cleaned = r.cleaned ++ opts; warnings = r.warnings }
unfolding sanitize_from
sanitize_from-kept j r [] h = rw append-nil refl
sanitize_from-kept j r (opt ∷ opts) ((s, k), h) =
    rw (s, k) (sanitize_from-kept j (append_verdict r (kept opt)) opts h ∙ rw append_assoc refl)

-- Every option that `sanitize` returns is allowed on the release it was asked about.
pub sanitize-IsAllowed : (opts : List Text) (j : ℕ) → All (IsAllowed j) (sanitize opts j).cleaned
unfolding sanitize
sanitize-IsAllowed opts j =
    All-map (IsKept j) (IsAllowed j) (kept-IsAllowed j) (sanitize opts j).cleaned
      (sanitize_from-IsKept j none_yet opts tt)

-- Sanitizing what `sanitize` returned keeps all of it, in order and without a warning.
pub sanitize_again :
    (opts : List Text) (j : ℕ)
    → sanitize (sanitize opts j).cleaned j
      ≡ record { cleaned = (sanitize opts j).cleaned; warnings = [] }
unfolding sanitize
sanitize_again opts j =
    sanitize_from-kept j none_yet (sanitize opts j).cleaned
      (sanitize_from-IsKept j none_yet opts tt)

pub is_blank : Text → Bool
is_blank opt = is_empty (strip opt)

-- what a verdict adds to the result
abbrev counted : Verdict → ℕ
counted blank = 0
counted (dropped w) = 1
counted (kept o) = 1

append_verdict-count :
    (r : Sanitized) (v : Verdict)
    → length (append_verdict r v).cleaned + length (append_verdict r v).warnings
      ≡ length r.cleaned + length r.warnings + counted v
append_verdict-count r blank = omega arith
append_verdict-count r (dropped w) = omega (arith, length-append r.warnings (w ∷ []))
append_verdict-count r (kept o) = omega (arith, length-append r.cleaned (o ∷ []))

judge-count : (j : ℕ) (opt : Text) → counted (judge j opt) + (if is_empty opt then 1 else 0) ≡ 1
unfolding judge
judge-count j opt = ground arith

filter-count :
    (opt : Text) (opts : List Text)
    → length (filter is_blank (opt ∷ opts))
      ≡ (if is_empty (strip opt) then 1 else 0) + length (filter is_blank opts)
unfolding filter is_blank
filter-count opt opts = ground arith

sanitize_from-count :
    (j : ℕ) (r : Sanitized) (opts : List Text)
    → length (sanitize_from j r opts).cleaned
        + length (sanitize_from j r opts).warnings
        + length (filter is_blank opts)
      ≡ length r.cleaned + length r.warnings + length opts
unfolding sanitize_from filter
sanitize_from-count j r [] = omega arith
sanitize_from-count j r (opt ∷ opts) = omega (
  arith,
  sanitize_from-count j (append_verdict r (judge j (strip opt))) opts,
  append_verdict-count r (judge j (strip opt)),
  judge-count j (strip opt),
  filter-count opt opts,
)

-- Each option is kept, warned about, or blank: the three counts add up.
pub sanitize-count :
    (opts : List Text) (j : ℕ)
    → length (sanitize opts j).cleaned
        + length (sanitize opts j).warnings
        + length (filter is_blank opts)
      ≡ length opts
unfolding sanitize
sanitize-count opts j = omega (arith, sanitize_from-count j none_yet opts)
