-- ===== src/Config/Tests.antt =====
-- A configuration that is read, updated and edited, and the theorems for it.
use aa_panel_tomcat_plugin.Prelude.{
  ◌≡◌, ◌≢◌, ◌≤◌, ◌⊎◌, [], ◌∷◌, none, some, Text, codes, Value, int, str, pos,
}
use aa_panel_tomcat_plugin.Config.{
  File, Store, load, get, update, log_rotate_max_mb, log_rotate_when, log_rotate_keep,
  log_purge_days,
}
use aa_panel_tomcat_plugin.Config.Cached.{Reaches, started, loaded, update-get}
use aa_panel_tomcat_plugin.Config.Bounds.{log_settings_bounds}

abbrev file : File
file = record { stamp = (1, 40); content = (codes "log_rotate_keep", int (pos 0)) ∷ [] }

abbrev cold : Store
cold = record { file = some file; cache = none }

-- read once, so that the cache is filled
abbrev warm : Store
warm = (load cold).1

warm-Reaches : Reaches warm
warm-Reaches = loaded cold (started (some file))

update-get_example :
    (get
        (codes "site_suffix")
        (str [])
        (update ((codes "site_suffix", str (codes "x.org")) ∷ []) (2, 60) warm)
      ≡ str (codes "x.org"))
    × ((other : Text) (default : Value)
        → other ≢ codes "site_suffix"
        → get other default (update ((codes "site_suffix", str (codes "x.org")) ∷ []) (2, 60) warm)
          ≡ get other default warm)
update-get_example =
    update-get warm (codes "site_suffix") (str (codes "x.org")) (str []) (2, 60) warm-Reaches

log_settings_bounds_example :
    (1 ≤ log_rotate_max_mb cold)
    × ((log_rotate_when cold ≡ codes "daily")
        ⊎ (log_rotate_when cold ≡ codes "weekly")
        ⊎ (log_rotate_when cold ≡ codes "monthly"))
    × (get (codes "log_rotate_keep") (int (pos 7)) cold ≡ int (pos 0) → log_rotate_keep cold ≡ 7)
    × (get (codes "log_purge_days") (int (pos 30)) cold ≡ int (pos 0) → log_purge_days cold ≡ 30)
log_settings_bounds_example = log_settings_bounds cold
