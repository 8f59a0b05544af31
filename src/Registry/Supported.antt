-- ===== src/Registry/Supported.antt =====
-- Each version that the validator of the panel's input accepts has a line here.
use aa_panel_tomcat_plugin.Prelude.{
  ◌≡◌, refl, sym, inl, inr, true, Text, codes, Value, ok, arith, among, any, text_eq, text_eq_iff,
  Bool-cases,
}
use aa_panel_tomcat_plugin.Validate.{tomcat_version, supported_tomcat}
use aa_panel_tomcat_plugin.Registry.{TomcatLine, line_9, line_10, line_11, find_line, get_line}

supported-line :
    (major : Text)
    → among major supported_tomcat ≡ true
    → (line : TomcatLine) × (get_line major ≡ ok line) × (line.major ≡ major)
unfolding among any get_line find_line
supported-line major h = elim (Bool-cases (text_eq major (codes "9"))) [
  | inl e ↦ (line_9, rw (e, get_line, find_line) refl, sym ((text_eq_iff major (codes "9")).0 e))
  | inr e ↦ elim (Bool-cases (text_eq major (codes "10"))) [
    | inl f ↦
        (line_10, rw (e, f, get_line, find_line) refl, sym ((text_eq_iff major (codes "10")).0 f))
    | inr f ↦ elim (Bool-cases (text_eq major (codes "11"))) [
      | inl g ↦ (
        line_11,
        rw (e, f, g, get_line, find_line) refl,
        sym ((text_eq_iff major (codes "11")).0 g),
      )
      | inr g ↦ ground arith
    ]
  ]
]

-- Where the validator of a Tomcat version returns a major, the registry has a line of that major.
pub tomcat_version-get_line :
    (value : Value) (major : Text)
    → tomcat_version value ≡ ok major
    → (line : TomcatLine) × (get_line major ≡ ok line) × (line.major ≡ major)
unfolding tomcat_version
tomcat_version-get_line value major h = supported-line major (ground arith)
