-- ===== src/Maintenance/Wipe/Tests.antt =====
-- A host with one instance, its runtimes and one that is not used, and the theorem for it.
use aa_panel_tomcat_plugin.Prelude.{refl, true, false, [], ◌∷◌, none, some, codes}
use aa_panel_tomcat_plugin.Instances.{App, Host, World}
use aa_panel_tomcat_plugin.Instances.Supported.{IsSupported}
use aa_panel_tomcat_plugin.Maintenance.Wipe.{wipe}
use aa_panel_tomcat_plugin.Maintenance.Wipe.Guard.{wipe-IsSupported}

abbrev world : World
world = record {
  paths = record { python = codes "p"; runner = codes "r"; cron_log = codes "l" };
  panel_removes = λ domain. true;
  vhost_stays = λ conf. false;
  unit_stays = λ app. false;
  tree_stays = λ path. false;
  data_left = λ h. none;
  plan_stays = false;
  nginx_accepts = λ content. true;
}

abbrev shop : App
shop = record {
  name = codes "shop";
  managed = true;
  tomcat = some (codes "10");
  line = some (codes "10");
  java = some 17;
}

abbrev host : Host
host = record {
  apps = shop ∷ [];
  domains = [];
  jdks = codes "jdk-17" ∷ codes "jdk-21" ∷ [];
  tomcats = record { major = codes "10"; managed = true } ∷ [];
  vhosts = codes "shop.conf" ∷ [];
  nginx_conf = none;
  backups = record { schedules = []; cron_dir = true; cron_file = none };
  data_root = true;
  plan = none;
}

wipe-IsSupported_example : IsSupported host (wipe world (codes "jdks") (codes "WIPE") host).0
wipe-IsSupported_example = wipe-IsSupported world (codes "jdks") (codes "WIPE") host (λ h. refl)
