-- ===== src/Backups/Restore/Tests.antt =====
-- A restore that ends well, and the theorem for it.
use aa_panel_tomcat_plugin.Prelude.{true, [], ◌∷◌, ◌++◌, some, codes, str}
use aa_panel_tomcat_plugin.Backups.Restore.{Host, Archive, World, removes}

abbrev fine : World
fine = record {
  secures_staging = true;
  removes_unit = true;
  deletes = removes;
  removes_tree = true;
  moves = true;
  secures_moved = true;
  rebuilds = true;
  rewritten = λ b tree. tree ++ codes "+port";
  secures_rebuilt = true;
  starts = true;
}

abbrev archive : Archive
archive = record {
  manifest = some (str (codes "shop"));
  extracts = true;
  payload = some (codes "v1");
}

abbrev host : Host
host = record {
  instances = (codes "shop", record { payload = codes "v2"; secured = true }) ∷ [];
  units = codes "shop" ∷ [];
}
