-- ===== src/JvmOpts/Tests.antt =====
-- Runs of `sanitize`, and the theorems at concrete inputs.
use aa_panel_tomcat_plugin.Prelude.{
  ◌≡◌, refl, List, [], ◌∷◌, Text, codes, All, any, among, text_eq, is_alnum, starts_with, strip,
}
use aa_panel_tomcat_plugin.JvmOpts.{
  is_safe_char, safe_match, has_removed_prefix, judge, sanitize_from, sanitize, unsafe_option,
  removed_flag,
}
use aa_panel_tomcat_plugin.JvmOpts.Sanitize.{IsAllowed, sanitize-IsAllowed}

abbrev given : List Text
given =
    codes " -Xmx512m "
    ∷ codes ""
    ∷ codes "-XX:+UseParNewGC"
    ∷ codes "-XX:PermSize=64m"
    ∷ codes "-Dx=$(id);"
    ∷ []

sanitize_17 : sanitize given 17 ≡ record {
  cleaned = codes "-Xmx512m" ∷ [];
  warnings =
      removed_flag 17 (codes "-XX:+UseParNewGC")
      ∷ removed_flag 17 (codes "-XX:PermSize=64m")
      ∷ unsafe_option (codes "-Dx=$(id);")
      ∷ [];
}
unfolding sanitize sanitize_from judge safe_match is_safe_char is_alnum has_removed_prefix among any
    text_eq starts_with strip
sanitize_17 = refl

sanitize-IsAllowed_example : All (IsAllowed 17) (sanitize given 17).cleaned
sanitize-IsAllowed_example = sanitize-IsAllowed given 17
