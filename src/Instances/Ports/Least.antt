-- ===== src/Instances/Ports/Least.antt =====
-- The port that is allocated is the least that is free.
use aa_panel_tomcat_plugin.Prelude.{
  ℕ, zero, suc, ◌+◌, ◌-◌, ◌≤◌, ◌<◌, ◌≡◌, refl, subst, inl, inr, ◌⊎◌, Bool, true, false, List,
  Option, none, some, Result, ok, err, Bool-cases, arith,
}
use aa_panel_tomcat_plugin.Instances.Ports.{
  Claim, Error, none_free, is_free, scan_ports, port_found, allocate_port,
}

split : (lo q : ℕ) → lo ≤ q → (lo ≡ q) ⊎ (suc lo ≤ q)
split lo q h = ground arith

module _ (in_use : ℕ → Bool) (claims : List Claim) where
  abbrev free : ℕ → Bool
  free = is_free in_use claims

  -- What a scan of the ports from `lo` up to, and without, `end` finds.
  abbrev IsLeast : ℕ → ℕ → Option ℕ → Type 0
  IsLeast lo end none = (q : ℕ) → lo ≤ q → q < end → free q ≡ false
  IsLeast lo end (some p) =
      (lo ≤ p) × (p < end) × (free p ≡ true) × ((q : ℕ) → lo ≤ q → q < p → free q ≡ false)

  later :
      (lo end : ℕ) (found : Option ℕ)
      → free lo ≡ false
      → IsLeast (suc lo) end found
      → IsLeast lo end found
  later lo end none e h = λ q l k. elim (split lo q l) [ inl s ↦ rw (← s) e | inr s ↦ h q s k ]
  later lo end (some p) e (a, b, c, h) =
      (omega arith, b, c, λ q l k. elim (split lo q l) [ inl s ↦ rw (← s) e | inr s ↦ h q s k ])

  scan_ports-IsLeast : (n lo : ℕ) → IsLeast lo (n + lo) (scan_ports in_use claims n lo)
  unfolding scan_ports
  scan_ports-IsLeast zero lo = λ q l k. absurd (omega arith)
  scan_ports-IsLeast (suc n) lo = elim (Bool-cases (free lo)) [
    | inl e ↦ rw e (omega arith, omega arith, e, λ q l k. absurd (omega arith))
    | inr e ↦
        let same : n + suc lo ≡ suc n + lo = omega arith in
        rw e (
          later lo (suc n + lo) (scan_ports in_use claims n (suc lo)) e (
            subst (λ end. IsLeast (suc lo) end (scan_ports in_use claims n (suc lo))) same
              (scan_ports-IsLeast n (suc lo))))
  ]

  -- The least free port of the range, or none of it is free.
  abbrev pub IsAllocated : ℕ → ℕ → Result Error ℕ → Type 0
  IsAllocated lo hi (err e) = (e ≡ none_free lo hi) × ((q : ℕ) → lo ≤ q → q ≤ hi → free q ≡ false)
  IsAllocated lo hi (ok p) =
      (lo ≤ p) × (p ≤ hi) × (free p ≡ true) × ((q : ℕ) → lo ≤ q → q < p → free q ≡ false)

  port_found-IsAllocated :
      (lo hi : ℕ) (found : Option ℕ)
      → IsLeast lo (suc hi - lo + lo) found
      → IsAllocated lo hi (port_found in_use claims lo hi found)
  port_found-IsAllocated lo hi none h = (refl, λ q l k. h q l (omega arith))
  port_found-IsAllocated lo hi (some p) (a, b, c, h) = (a, omega arith, c, h)

-- With no preference the port of a new instance is the least of the range that no instance claims
-- and no process listens on, and the allocation raises only where the range has none.
pub allocate_port-IsAllocated :
    (in_use : ℕ → Bool) (claims : List Claim) (lo hi : ℕ)
    → IsAllocated in_use claims lo hi (allocate_port in_use claims none lo hi)
unfolding allocate_port
allocate_port-IsAllocated in_use claims lo hi =
    port_found-IsAllocated in_use claims lo hi (scan_ports in_use claims (suc hi - lo) lo)
      (scan_ports-IsLeast in_use claims (suc hi - lo) lo)
