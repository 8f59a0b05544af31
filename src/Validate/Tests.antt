-- ===== src/Validate/Tests.antt =====
-- Runs of the validators, and the theorems at concrete inputs.
use aa_panel_tomcat_plugin.Prelude.{◌≡◌, ◌↔◌, codes, ok, Value, str, text_or_empty, strip, lower}
use aa_panel_tomcat_plugin.Validate.{identifier, domain}
use aa_panel_tomcat_plugin.Validate.Identifier.{IsIdentifier, identifier_iff}
use aa_panel_tomcat_plugin.Validate.Domain.{IsDomain, domain_iff}

abbrev shop : Value
shop = str (codes " shop-1 ")

identifier_iff_example :
    (identifier shop ≡ ok (codes "shop-1"))
    ↔ ((codes "shop-1" ≡ strip (text_or_empty shop)) × IsIdentifier (codes "shop-1"))
identifier_iff_example = identifier_iff shop (codes "shop-1")

abbrev host : Value
host = str (codes "Shop.Example.com")

domain_iff_example : (domain host ≡ ok (codes "shop.example.com")) ↔ (
    (codes "shop.example.com" ≡ lower (strip (text_or_empty host)))
    × IsDomain (codes "shop.example.com"))
domain_iff_example = domain_iff host (codes "shop.example.com")

abbrev numeral : Value
numeral = str (codes "8080")
