-- ===== src/Validate/Numbers.antt =====
-- The ranges of the numbers that util/validate.py accepts.
use aa_panel_tomcat_plugin.Prelude.{
  ℕ, ◌≤◌, ◌≡◌, ◌↔◌, ◌⊎◌, inl, inr, Value, ok, ℤ, pos, negsuc, some, arith, int_of, Option-cases,
  true, Bool-cases,
}
use aa_panel_tomcat_plugin.Validate.{within, port, memory_mb, java_major, is_java_major}

-- The number lies between two natural numbers.
abbrev pub InRange : ℤ → ℕ → ℕ → Type 0
InRange (pos n) lo hi = (lo ≤ n) × (n ≤ hi)
InRange (negsuc n) lo hi = ⊥

within_iff : (z : ℤ) (lo hi : ℕ) → (within z lo hi ≡ true) ↔ InRange z lo hi
unfolding within
within_iff (pos n) lo hi = ground arith
within_iff (negsuc n) lo hi = ground arith

-- `port` accepts exactly the numerals from `lo` to `hi`, and returns their number.
pub port_iff :
    (value : Value) (lo hi : ℕ) (p : ℤ)
    → (port value lo hi ≡ ok p) ↔ ((int_of value ≡ some p) × InRange p lo hi)
unfolding port
port_iff value lo hi p = elim (Option-cases (int_of value)) [
  | inl e ↦ ground arith
  | inr (z, e) ↦ elim (Bool-cases (within z lo hi)) [
    | inl k ↦ (λ h. ground (arith, (within_iff p lo hi).0), λ h. ground arith)
    | inr k ↦ (λ h. ground arith, λ h. ground (arith, (within_iff p lo hi).1))
  ]
]

-- `memory_mb` accepts exactly the numerals from `lo` to `hi`, and returns their number.
pub memory_mb_iff :
    (value : Value) (lo hi : ℕ) (m : ℤ)
    → (memory_mb value lo hi ≡ ok m) ↔ ((int_of value ≡ some m) × InRange m lo hi)
unfolding memory_mb
memory_mb_iff value lo hi m = elim (Option-cases (int_of value)) [
  | inl e ↦ ground arith
  | inr (z, e) ↦ elim (Bool-cases (within z lo hi)) [
    | inl k ↦ (λ h. ground (arith, (within_iff m lo hi).0), λ h. ground arith)
    | inr k ↦ (λ h. ground arith, λ h. ground (arith, (within_iff m lo hi).1))
  ]
]

-- `java_major` accepts exactly the numerals of the four long-term-support releases.
pub java_major_iff :
    (value : Value) (v : ℤ)
    → (java_major value ≡ ok v)
      ↔ ((int_of value ≡ some v) × ((v ≡ pos 8) ⊎ (v ≡ pos 11) ⊎ (v ≡ pos 17) ⊎ (v ≡ pos 21)))
unfolding java_major is_java_major
java_major_iff value (pos n) = elim (Option-cases (int_of value)) [
  | inl e ↦ ground arith
  | inr (z, e) ↦ ground arith
]
java_major_iff value (negsuc n) = ground arith
