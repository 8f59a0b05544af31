-- ===== src/Proxy/Include.antt =====
-- nginx.conf is changed to what nginx accepts, or not at all.
use aa_panel_tomcat_plugin.Prelude.{
  ◌≡◌, ◌⊎◌, Bool, true, false, ◌||◌, ◌++◌, Option, none, some, Text, codes, All,
}
use aa_panel_tomcat_plugin.Proxy.{contains, include_line, lines_of, is_include, vhost_dir}

-- The text of the file is as it was, or nginx accepts it and the answer is yes.
abbrev pub IsRolledBack : (Text → Bool) → Option Text → Bool × Option Text → Type 0
IsRolledBack accepts conf r =
    (r.1 ≡ conf) ⊎ ((c : Text) × (r.1 ≡ some c) × (accepts c ≡ true) × (r.0 ≡ true))

abbrev pub HasLine : Option Text → Type 0
HasLine none = ⊥
HasLine (some content) =
    (contains include_line content || contains (vhost_dir ++ codes "/*.conf") content) ≡ true

-- no line includes the vhosts of the plugin
abbrev pub HasNoLine : Option Text → Type 0
HasNoLine none = Unit
HasNoLine (some content) = All (λ line. is_include line ≡ false) (lines_of content)
