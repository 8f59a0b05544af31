-- ===== src/Proxy/Tests.antt =====
-- A small nginx.conf, and the theorems for it.
use aa_panel_tomcat_plugin.Prelude.{
  ℕ, ◌≡◌, refl, Bool, true, some, Text, codes, ◌==◌, starts_with, trim_start, is_space, filter,
}
use aa_panel_tomcat_plugin.Proxy.{
  contains, after_http, injected, keep_accepted, ensure_include, lines_of, is_include, is_break,
  joined, remove_include,
}

abbrev underscore : ℕ → Bool
underscore c = c == b'_'

abbrev yes : Text → Bool
yes content = true

abbrev bare : Text
bare = codes "a;\nhttp {\n}\n"

abbrev included : Text
included = codes "http {\n    include /www/server/javahost/vhost/nginx/*.conf;\n}\n"

ensure-bare :
    ensure_include underscore yes (some bare)
    ≡ (true, some (codes "a;\nhttp {\n    include /www/server/javahost/vhost/nginx/*.conf;\n\n}\n"))
unfolding ensure_include contains starts_with after_http trim_start is_space injected keep_accepted
ensure-bare = refl

remove-included : remove_include yes (some included) ≡ (true, some (codes "http {\n}\n"))
unfolding remove_include contains starts_with lines_of is_include is_break joined keep_accepted
    filter
remove-included = refl
