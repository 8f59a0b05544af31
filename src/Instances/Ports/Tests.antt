-- ===== src/Instances/Ports/Tests.antt =====
-- Two ports that are taken, and the theorem for the range.
use aa_panel_tomcat_plugin.Prelude.{
  ℕ, ◌≡◌, refl, Bool, List, [], ◌∷◌, none, some, codes, ok, any, ◌==◌,
}
use aa_panel_tomcat_plugin.Instances.Ports.{
  Claim, is_claimed, is_free, scan_ports, allocate_port, port_lo, port_hi,
}
use aa_panel_tomcat_plugin.Instances.Ports.Least.{IsAllocated, allocate_port-IsAllocated}

abbrev claims : List Claim
claims = (codes "shop", some 8080) ∷ []

abbrev listening : ℕ → Bool
listening p = p == 8081

next-port : allocate_port listening claims none 8080 8083 ≡ ok 8082
unfolding allocate_port scan_ports is_free is_claimed any
next-port = refl

allocate_port-IsAllocated_example :
    IsAllocated listening claims port_lo port_hi
      (allocate_port listening claims none port_lo port_hi)
allocate_port-IsAllocated_example = allocate_port-IsAllocated listening claims port_lo port_hi
