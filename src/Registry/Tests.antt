-- ===== src/Registry/Tests.antt =====
-- The newest patch of an index, and the theorem for it.
use aa_panel_tomcat_plugin.Prelude.{
  lower, remove_all, among, any, str, ◌≡◌, refl, true, List, [], ◌∷◌, some, Text, codes, ok, filter,
  split_on, split_by, text_eq, starts_with, int_of_text, signed_value, strip, strip_by, trim_start,
  trim_end, is_space, is_digit, int_eq,
}
use aa_panel_tomcat_plugin.Registry.{
  TomcatLine, find_line, get_line, numbers, ver_key, key_lt, keyed, newest, is_of_line, newest_of,
  from_index, resolve_latest_patch,
}
use aa_panel_tomcat_plugin.Validate.{tomcat_version}
use aa_panel_tomcat_plugin.Registry.Newest.{IsNewest, resolve_latest_patch-IsNewest}

abbrev index : List Text
index = codes "9.0.9" ∷ codes "10.1.9" ∷ codes "10.1.10" ∷ codes "10.0.27" ∷ []

resolved : resolve_latest_patch (codes "10") (some index) true ≡ ok (codes "10.1.10")
unfolding resolve_latest_patch from_index newest_of newest keyed key_lt ver_key numbers is_of_line
    get_line find_line filter split_on split_by text_eq starts_with int_of_text signed_value strip
    strip_by trim_start trim_end is_space is_digit int_eq
resolved = refl

resolve_latest_patch-IsNewest_example :
    (line : TomcatLine) × (found : List Text) × (get_line (codes "10") ≡ ok line)
    × (some index ≡ some found)
    × IsNewest (filter (is_of_line line) found) (codes "10.1.10")
resolve_latest_patch-IsNewest_example =
    resolve_latest_patch-IsNewest (codes "10") (some index) (codes "10.1.10") resolved

tomcat-10 : tomcat_version (str (codes " Tomcat10.1 ")) ≡ ok (codes "10")
unfolding tomcat_version strip strip_by trim_start trim_end is_space lower remove_all split_on
    split_by among any text_eq
tomcat-10 = refl
