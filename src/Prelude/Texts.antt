-- ===== src/Prelude/Texts.antt =====
-- Python's `str` as its list of code points, with the methods that the source calls.
use Prim.Native.Nat.{ℕ, zero, suc, ◌+◌, pred}
use Prim.Native.Char.{code}
use Prim.Native.String.{String}
use mathlib.Core.Path.{◌≡◌, refl}
use mathlib.Core.Logic.{◌↔◌}
use mathlib.Core.Bool.{Bool, true, false, not, ◌&&◌, ◌||◌}
use mathlib.Core.List.{List, [], ◌∷◌, ◌++◌}
use native.Mathlib.Omega.{arith}
use aa_panel_tomcat_plugin.Prelude.Tests.{leb, ◌==◌, if◌then◌else◌}
use aa_panel_tomcat_plugin.Prelude.Lists.{length, filter, any}

abbrev pub Text : Type 0
Text = List ℕ

-- The text that a literal of the source spells.
abbrev pub codes : String → Text
codes String.[] = []
codes (String.◌∷◌ c s) = code c ∷ codes s

unfoldable pub text_eq : Text → Text → Bool
text_eq [] [] = true
text_eq [] (b ∷ t) = false
text_eq (a ∷ s) [] = false
text_eq (a ∷ s) (b ∷ t) = a == b && text_eq s t

pub text_eq_iff : (s t : Text) → (text_eq s t ≡ true) ↔ (s ≡ t)
unfolding text_eq
text_eq_iff [] [] = ground arith
text_eq_iff [] (b ∷ t) = ground arith
text_eq_iff (a ∷ s) [] = ground arith
text_eq_iff (a ∷ s) (b ∷ t) = ground (arith, text_eq_iff s t)

pub text_eq_refl : (s : Text) → text_eq s s ≡ true
text_eq_refl s = (text_eq_iff s s).1 refl

-- `s in texts`
unfoldable pub among : Text → List Text → Bool
unfolding any text_eq
among s texts = any (text_eq s) texts

abbrev pub is_empty : Text → Bool
is_empty [] = true
is_empty (c ∷ s) = false

-- `str.isspace` of one character, over the whole of Unicode.
unfoldable pub is_space : ℕ → Bool
is_space c =
    (leb 9 c && leb c 13)
    || (leb 28 c && leb c 32)
    || c == 133
    || c == 160
    || c == 5760
    || (leb 8192 c && leb c 8202)
    || c == 8232
    || c == 8233
    || c == 8239
    || c == 8287
    || c == 12288

unfoldable pub is_digit : ℕ → Bool
is_digit c = leb b'0' c && leb c b'9'

-- `[A-Za-z0-9]`
unfoldable pub is_alnum : ℕ → Bool
is_alnum c = (leb b'A' c && leb c b'Z') || (leb b'a' c && leb c b'z') || (leb b'0' c && leb c b'9')

unfoldable pub trim_start : (ℕ → Bool) → Text → Text
trim_start p [] = []
trim_start p (c ∷ s) = let rest = trim_start p s in if p c then rest else c ∷ s

-- one character in front of a text whose end is trimmed
abbrev pub keep_before : (ℕ → Bool) → ℕ → Text → Text
keep_before p c [] = if p c then [] else c ∷ []
keep_before p c (d ∷ r) = c ∷ d ∷ r

unfoldable pub trim_end : (ℕ → Bool) → Text → Text
trim_end p [] = []
trim_end p (c ∷ s) = keep_before p c (trim_end p s)

-- `s.strip(chars)`, for the set of characters that `p` tests
unfoldable pub strip_by : (ℕ → Bool) → Text → Text
unfolding trim_start trim_end
strip_by p s = trim_end p (trim_start p s)

-- `s.strip()`
unfoldable pub strip : Text → Text
unfolding strip_by is_space
strip s = strip_by is_space s

unfoldable pub starts_with : Text → Text → Bool
starts_with [] s = true
starts_with (c ∷ p) [] = false
starts_with (c ∷ p) (d ∷ s) = c == d && starts_with p s

unfoldable pub contains_char : ℕ → Text → Bool
unfolding any
contains_char c s = any (λ d. d == c) s

abbrev pub cons_first : ℕ → List Text → List Text
cons_first c [] = (c ∷ []) ∷ []
cons_first c (w ∷ ws) = (c ∷ w) ∷ ws

-- the pieces between the characters that `p` tests
unfoldable pub split_by : (ℕ → Bool) → Text → List Text
split_by p [] = [] ∷ []
split_by p (c ∷ s) = let rest = split_by p s in if p c then [] ∷ rest else cons_first c rest

-- `s.split(c)` for one character
unfoldable pub split_on : ℕ → Text → List Text
unfolding split_by
split_on c s = split_by (λ d. d == c) s

-- `s.split()`: the pieces between white space, the empty ones left out
unfoldable pub words : Text → List Text
unfolding split_by is_space filter
words s = filter (λ w. not (is_empty w)) (split_by is_space s)

unfoldable pub join : Text → List Text → Text
join sep [] = []
join sep (w ∷ []) = w
join sep (w ∷ v ∷ ws) = w ++ (sep ++ join sep (v ∷ ws))

-- `str.lower`, exact on every character whose lower case is ASCII or holds ASCII: A to Z, the
-- Kelvin sign and the dotted capital I. The case of any other character is left as it is.
-- one lower-cased character in front of a text
abbrev pub lower_onto : ℕ → Text → Text
lower_onto c r =
    if leb b'A' c && leb c b'Z'
    then (c + 32) ∷ r
    else if c == 8490
    then b'k' ∷ r
    else if c == 304
    then b'i' ∷ 775 ∷ r
    else c ∷ r

unfoldable pub lower : Text → Text
lower [] = []
lower (c ∷ s) = lower_onto c (lower s)

-- `s.replace(pattern, "")`; the number counts the characters of a match that are still to skip.
unfoldable pub remove_from : Text → ℕ → Text → Text
remove_from pattern skip [] = []
remove_from pattern (suc skip) (c ∷ s) = remove_from pattern skip s
remove_from pattern zero (c ∷ s) =
    let hit = starts_with pattern (c ∷ s) in
    let rest = remove_from pattern (if hit then pred (length pattern) else 0) s in
    if hit then rest else c ∷ rest

unfoldable pub remove_all : Text → Text → Text
unfolding remove_from starts_with
remove_all pattern s = remove_from pattern 0 s
