-- ===== src/Remotes/Tests.antt =====
-- Two profiles and a schedule, and the theorems for them.
use aa_panel_tomcat_plugin.Prelude.{
  ◌≡◌, refl, true, false, [], ◌∷◌, none, some, codes, map, filter, text_eq, str, sort_by,
}
use aa_panel_tomcat_plugin.Schedule.{Paths}
use aa_panel_tomcat_plugin.Schedule
use aa_panel_tomcat_plugin.Remotes.{Profile, list_profiles, find, enabled_ids}
use aa_panel_tomcat_plugin.Remotes.Change.{Mishaps, dependents, delete_profile, deleted}
use aa_panel_tomcat_plugin.Remotes.Secret.{with_secret, list_profiles-with_secret}
use aa_panel_tomcat_plugin.Remotes.Change.Refine.{deleting, run, spec, view, run-spec}
use aa_panel_tomcat_plugin.Remotes.Change.Detach.{IsDropped, delete_profile-IsDetached}
use aa_panel_tomcat_plugin.Remotes.Transfer.{Client, download}
use aa_panel_tomcat_plugin.Remotes.Transfer.First.{IsFirst, download-IsFirst}

abbrev site : Profile
site = record {
  id = codes "site";
  fields =
      (codes "endpoint", str (codes "e"))
      ∷ (codes "bucket", str (codes "b"))
      ∷ (codes "access_key", str (codes "a"))
      ∷ (codes "secret_key", str (codes "s"))
      ∷ [];
}

abbrev spare : Profile
spare = record site { id = codes "spare" }

abbrev paths : Paths
paths = record { python = codes "p"; runner = codes "r"; cron_log = codes "l" }

abbrev host : Schedule.Host
host = record { schedules = []; cron_dir = true; cron_file = none }

abbrev fine : Mishaps
fine = record { readable = true; raised = none }

abbrev client : Client
client = record {
  put_object = λ p name. text_eq p.id (codes "site");
  get_object = λ p name. true;
  delete_object = λ p name. true;
  list_objects = λ p. some ((codes "backup", 3) ∷ []);
}

list_profiles-with_secret_example :
    list_profiles (map (λ p. with_secret (1, []) p) (site ∷ spare ∷ []))
    ≡ list_profiles (map (λ p. with_secret (2, 3 ∷ []) p) (site ∷ spare ∷ []))
list_profiles-with_secret_example =
    list_profiles-with_secret (λ p. (1, [])) (λ p. (2, 3 ∷ [])) (site ∷ spare ∷ [])

run-spec_example :
    view (run fine paths (deleting (codes "site") false) (site ∷ spare ∷ []) host) (codes "spare")
    ≡ spec fine (deleting (codes "site") false) host (view (site ∷ spare ∷ [])) (codes "spare")
run-spec_example =
    run-spec fine paths (deleting (codes "site") false) (site ∷ spare ∷ []) host (codes "spare")

site-deleted :
    (delete_profile fine paths (codes "site") false (site ∷ spare ∷ []) host).2 ≡ deleted []
unfolding delete_profile find dependents text_eq filter Schedule.list_schedules sort_by
site-deleted = refl

delete_profile-IsDetached_example :
    IsDropped fine paths
      (codes "site")
      false
      (site ∷ spare ∷ [])
      (delete_profile fine paths (codes "site") false (site ∷ spare ∷ []) host).0
      (delete_profile fine paths (codes "site") false (site ∷ spare ∷ []) host).1
unfolding Schedule.wanted
delete_profile-IsDetached_example =
    delete_profile-IsDetached fine paths (codes "site") false (site ∷ spare ∷ []) host []
      (λ h. refl) site-deleted

download-IsFirst_example :
    IsFirst client
      (site ∷ spare ∷ [])
      (codes "backup")
      (enabled_ids (site ∷ spare ∷ []))
      (download client (site ∷ spare ∷ []) (codes "backup") none)
download-IsFirst_example = download-IsFirst client (site ∷ spare ∷ []) (codes "backup")
