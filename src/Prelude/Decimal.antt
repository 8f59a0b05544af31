-- ===== src/Prelude/Decimal.antt =====
-- Python's unbounded integers, `"%d" % n` of a natural number, and `int(text)`.
use Prim.Native.Nat.{ℕ, zero, suc, ◌+◌, ◌-◌, ◌*◌, ◌/◌, ◌%◌}
use mathlib.Core.Path.{◌≡◌}
use mathlib.Core.Logic.{inl, inr, ◌↔◌}
use mathlib.Core.Bool.{Bool, true, false, ◌&&◌}
use mathlib.Core.Option
use mathlib.Core.Option.{Option, none, some}
use mathlib.Core.List.{[], ◌∷◌, ◌++◌}
use native.Mathlib.Omega.{arith}
use aa_panel_tomcat_plugin.Prelude.Tests.{leb, ltb, ◌==◌, if◌then◌else◌, Bool-cases}
use aa_panel_tomcat_plugin.Prelude.Lists.{All, All-append}
use aa_panel_tomcat_plugin.Prelude.Texts.{Text, is_digit, strip}

-- `negsuc n` is -(n + 1).
pub data ℤ : Type 0 where
  pos : ℕ → ℤ
  negsuc : ℕ → ℤ

abbrev pub leb_int : ℤ → ℤ → Bool
leb_int (pos a) (pos b) = leb a b
leb_int (pos a) (negsuc b) = false
leb_int (negsuc a) (pos b) = true
leb_int (negsuc a) (negsuc b) = leb b a

-- `max(0, z)`, as a natural number
abbrev pub clip : ℤ → ℕ
clip (pos n) = n
clip (negsuc n) = 0

digits_of : ℕ → ℕ → Text
digits_of zero n = []
digits_of (suc fuel) n =
    let more = digits_of fuel (n / 10) in
    if ltb n 10 then (48 + n) ∷ [] else more ++ (48 + n % 10) ∷ []

-- `"%d" % n`; a number has no more digits than its value and one.
unfoldable pub decimal : ℕ → Text
unfolding digits_of
decimal n = digits_of (suc n) n

digits_of-digit : (fuel n : ℕ) → All (λ c. is_digit c ≡ true) (digits_of fuel n)
unfolding digits_of is_digit
digits_of-digit zero n = tt
digits_of-digit (suc fuel) n = elim (Bool-cases (ltb n 10)) [
  | inl e ↦ rw e (ground arith, tt)
  | inr e ↦
      rw e (
        All-append _ (digits_of fuel (n / 10)) _ (digits_of-digit fuel (n / 10)) (ground arith, tt))
]

-- A printed number is made of digits.
pub decimal-digit : (n : ℕ) → All (λ c. is_digit c ≡ true) (decimal n)
unfolding decimal
decimal-digit n = digits_of-digit (suc n) n

-- Digits with single underscores between them; the flag says that a digit stands just before.
digits_value : Bool → ℕ → Text → Option ℕ
digits_value prev acc [] = if prev then some acc else none
digits_value prev acc (c ∷ s) =
    let digit = digits_value true (10 * acc + (c - 48)) s in
    let gap = digits_value false acc s in
    if is_digit c then digit else if c == b'_' && prev then gap else none

abbrev negate : ℕ → ℤ
negate zero = pos zero
negate (suc n) = negsuc n

unfoldable pub signed_value : Text → Option ℤ
unfolding digits_value is_digit
signed_value [] = none
signed_value (c ∷ s) =
    if c == b'-'
    then Option.map negate (digits_value false 0 s)
    else if c == b'+'
    then Option.map pos (digits_value false 0 s)
    else Option.map pos (digits_value false 0 (c ∷ s))

-- `int(text)`, over the ASCII digits; `none` is the ValueError.
unfoldable pub int_of_text : Text → Option ℤ
unfolding signed_value strip
int_of_text s = signed_value (strip s)

unfoldable pub int_eq : ℤ → ℤ → Bool
int_eq (pos a) (pos b) = a == b
int_eq (pos a) (negsuc b) = false
int_eq (negsuc a) (pos b) = false
int_eq (negsuc a) (negsuc b) = a == b

pub int_eq_iff : (a b : ℤ) → (int_eq a b ≡ true) ↔ (a ≡ b)
unfolding int_eq
int_eq_iff (pos a) (pos b) = ground arith
int_eq_iff (pos a) (negsuc b) = ground arith
int_eq_iff (negsuc a) (pos b) = ground arith
int_eq_iff (negsuc a) (negsuc b) = ground arith
