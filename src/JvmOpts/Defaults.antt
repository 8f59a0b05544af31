-- ===== src/JvmOpts/Defaults.antt =====
-- The default options pass the sanitizer, and the heap they ask for first fits the largest.
use aa_panel_tomcat_plugin.Prelude.{
  ℕ, ◌≤◌, ◌≡◌, refl, ◌↔◌, true, false, [], ◌∷◌, ◌++◌, Text, codes, All, All-map, All-append, any,
  all, all_sound, arith, is_empty, is_space, is_alnum, is_digit, among, text_eq, starts_with,
  strip-eq_of_All, decimal, decimal-digit,
}
use aa_panel_tomcat_plugin.JvmOpts.{
  is_safe_char, safe_match, removed_11_plus, has_removed_prefix, judge, sanitize, default_opts,
  initial_heap, none_yet,
}
use aa_panel_tomcat_plugin.JvmOpts.Sanitize.{IsKept, sanitize_from-kept}

abbrev IsSafe : Text → Type 0
IsSafe s = All (λ c. is_safe_char c ≡ true) s

safe-not-space : (c : ℕ) → is_safe_char c ≡ true → is_space c ≡ false
unfolding is_safe_char is_alnum is_space
safe-not-space c h = ground arith

digit-safe : (c : ℕ) → is_digit c ≡ true → is_safe_char c ≡ true
unfolding is_safe_char is_alnum is_digit
digit-safe c h = ground arith

safe_match_of_All : (s : Text) → is_empty s ≡ false → IsSafe s → safe_match s ≡ true
unfolding safe_match
safe_match_of_All [] e h = cc
safe_match_of_All (c ∷ []) e (k, h) = k
safe_match_of_All (c ∷ d ∷ []) e (k, (l, h)) = rw (k, l)
safe_match_of_All (c ∷ d ∷ f ∷ s) e (k, h) = rw (k, safe_match_of_All (d ∷ f ∷ s) refl h)

safe-IsKept :
    (j : ℕ) (opt : Text)
    → is_empty opt ≡ false
    → IsSafe opt
    → among opt removed_11_plus ≡ false
    → has_removed_prefix opt ≡ false
    → IsKept j opt
unfolding judge
safe-IsKept j opt e h a b =
    let match = safe_match_of_All opt e h in
    (strip-eq_of_All opt (All-map _ _ safe-not-space opt h), ground arith)

heap_opt-IsSafe : (flag : Text) (n : ℕ) → IsSafe flag → IsSafe (flag ++ (decimal n ++ codes "m"))
unfolding is_safe_char is_alnum
heap_opt-IsSafe flag n h = All-append _ flag _ h (
    All-append _ (decimal n) (codes "m") (All-map _ _ digit-safe (decimal n) (decimal-digit n))
      (refl, tt))

literal-IsKept :
    (j : ℕ) (opt : Text)
    → is_empty opt ≡ false
    → all is_safe_char opt ≡ true
    → among opt removed_11_plus ≡ false
    → has_removed_prefix opt ≡ false
    → IsKept j opt
literal-IsKept j opt e h = safe-IsKept j opt e (all_sound is_safe_char opt h)

default_opts-IsKept : (j heap_mb : ℕ) → All (IsKept j) (default_opts heap_mb)
unfolding default_opts has_removed_prefix all among any text_eq starts_with is_safe_char is_alnum
default_opts-IsKept j heap_mb =
    let xms = all_sound is_safe_char (codes "-Xms") refl in
    let xmx = all_sound is_safe_char (codes "-Xmx") refl in
    (
      literal-IsKept j _ refl refl refl refl,
      (
        safe-IsKept j _ refl (heap_opt-IsSafe (codes "-Xms") (initial_heap heap_mb) xms) refl refl,
        (
          safe-IsKept j _ refl (heap_opt-IsSafe (codes "-Xmx") heap_mb xmx) refl refl,
          (
            literal-IsKept j _ refl refl refl refl,
            (literal-IsKept j _ refl refl refl refl, (literal-IsKept j _ refl refl refl refl, tt)),
          ),
        ),
      ),
    )

-- The defaults, at any heap and for any release, come through the sanitizer unchanged.
pub sanitize-default_opts :
    (heap_mb j : ℕ)
    → sanitize (default_opts heap_mb) j ≡ record { cleaned = default_opts heap_mb; warnings = [] }
unfolding sanitize
sanitize-default_opts heap_mb j =
    sanitize_from-kept j none_yet (default_opts heap_mb) (default_opts-IsKept j heap_mb)

-- The initial heap is at most the largest exactly from 64 MB on.
pub initial_heap_iff : (heap_mb : ℕ) → (initial_heap heap_mb ≤ heap_mb) ↔ (64 ≤ heap_mb)
unfolding initial_heap
initial_heap_iff heap_mb = (λ h. omega arith, λ h. omega arith)
