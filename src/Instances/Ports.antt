-- ===== src/Instances/Ports.antt =====
-- plugin/javahost/core/tomcat/instance.py: the port of a new instance. `in_use` says of a port that a
-- process listens on it.
mod Least
mod Tests
use aa_panel_tomcat_plugin.Prelude.{
  ℕ, zero, suc, ◌-◌, Bool, true, false, not, ◌&&◌, ◌||◌, List, [], ◌∷◌, Option, none, some, Text,
  Result, ok, err, any, ◌==◌, ltb, if◌then◌else◌, ℤ, pos, negsuc, clip, Value, truthy,
}
use aa_panel_tomcat_plugin.Validate.{port}
use aa_panel_tomcat_plugin.Validate

abbrev pub port_lo : ℕ
port_lo = 8080

abbrev pub port_hi : ℕ
port_hi = 8999

pub data Error : Type 0 where
  invalid : Validate.Error → Error
  claimed : ℕ → Error
  listening : ℕ → Error
  none_free : ℕ → ℕ → Error

-- An instance and the port that `_read_port` finds.
abbrev pub Claim : Type 0
Claim = Text × Option ℕ

abbrev has_port : ℕ → Claim → Bool
has_port p (name, none) = false
has_port p (name, some q) = ltb 0 q && q == p

-- `p in used_ports()`
pub is_claimed : ℕ → List Claim → Bool
is_claimed p claims = any (has_port p) claims

module _ (in_use : ℕ → Bool) (claims : List Claim) where
  pub is_free : ℕ → Bool
  is_free p = not (is_claimed p claims) && not (in_use p)

  -- the loop over the `n` ports from `p` on
  pub scan_ports : ℕ → ℕ → Option ℕ
  scan_ports zero p = none
  scan_ports (suc n) p = let rest = scan_ports n (suc p) in if is_free p then some p else rest

  abbrev port_found : ℕ → ℕ → Option ℕ → Result Error ℕ
  port_found lo hi none = err (none_free lo hi)
  port_found lo hi (some p) = ok p

  abbrev take_preferred : ℕ → Result Error ℕ
  take_preferred p =
      if is_claimed p claims then err (claimed p) else if in_use p then err (listening p) else ok p

  -- `allocate_port`; a preference that is falsy is none
  pub allocate_port : Option Value → ℕ → ℕ → Result Error ℕ
  allocate_port none lo hi = port_found lo hi (scan_ports (suc hi - lo) lo)
  allocate_port (some v) lo hi =
      if truthy v
      then elim (port v 1 65_535) [ err e ↦ err (invalid e) | ok z ↦ take_preferred (clip z) ]
      else port_found lo hi (scan_ports (suc hi - lo) lo)
