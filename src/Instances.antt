-- ===== src/Instances.antt =====
-- plugin/javahost/core/tomcat/instance.py, plugin/javahost/core/deploy/proxy.py and
-- plugin/javahost/core/runtime/java.py: the instances that the host has, and how one is deleted.
pub mod Supported
pub mod Used
pub mod Ports
use aa_panel_tomcat_plugin.Prelude.{
  text_leb, ℕ, Bool, true, false, not, List, [], ◌∷◌, ◌++◌, Option, none, some, Text, codes, Result,
  ok, err, map, filter, any, ◌==◌, if◌then◌else◌, is_empty, among, text_eq, sort_by, str, is_digit,
  starts_with, drop, length, clip, int_of_text, ◌&&◌, Dict, find_key, drop_key,
}
use aa_panel_tomcat_plugin.Validate.{identifier, at_end}
use aa_panel_tomcat_plugin.Validate
use aa_panel_tomcat_plugin.Schedule.{remove_schedule, Paths}
use aa_panel_tomcat_plugin.Schedule

-- A directory of an instance: whether it has the marker of the plugin, the release line in the
-- record that the panel shows, the line that its CATALINA_HOME resolves to, and its Java release.
pub record App : Type 0 where
  pub name : Text
  pub managed : Bool
  pub tomcat : Option Text
  pub line : Option Text
  pub java : Option ℕ

pub record Tomcat : Type 0 where
  pub major : Text
  pub managed : Bool

-- What the plugin keeps on the host. `domains` has the site.domain of each instance, `plan` is
-- the file .uninstall_plan.
pub record Host : Type 0 where
  pub apps : List App
  pub domains : Dict Text
  pub jdks : List Text
  pub tomcats : List Tomcat
  pub vhosts : List Text
  pub nginx_conf : Option Text
  pub backups : Schedule.Host
  pub data_root : Bool
  pub plan : Option Text

-- How the calls outside the plugin end: whether the panel removes the site of a domain, whether a
-- vhost file, a unit or the tree at a path stays, as its removal raises, whether the plan cannot be
-- written, and what `nginx -t` says of a configuration. `data_left` is what the removal of the data
-- root leaves of a host where it raises midway.
pub record World : Type 0 where
  pub paths : Paths
  pub panel_removes : Text → Bool
  pub vhost_stays : Text → Bool
  pub unit_stays : Text → Bool
  pub tree_stays : Text → Bool
  pub data_left : Host → Option Host
  pub plan_stays : Bool
  pub nginx_accepts : Text → Bool

pub data Error : Type 0 where
  invalid_app : Validate.Error → Error
  unit_not_removed : Text → Error
  unmanaged_dir : Text → Error
  tree_not_removed : Text → Error
  in_use : Text → List Text → Error

-- `vhost_path`, less its directory
abbrev pub conf_of : Text → Text
conf_of app = app ++ codes ".conf"

abbrev pub instance_root : Text
instance_root = codes "/www/server/javahost/instances"

-- `remove_vhost`, in the `try` of `remove_site`
pub without_vhost : World → Text → Host → Host
without_vhost world app host =
    if world.vhost_stays (conf_of app)
    then host
    else record host { vhosts = filter (λ v. not (text_eq v (conf_of app))) host.vhosts }

-- `read_domain`
abbrev domain_of : Text → Host → Option Text
domain_of app host = find_key app host.domains

-- What `remove_site` answers: `removed`, and the domain that it kept.
pub data Site : Type 0 where
  removed : Site
  kept : Text → Site

abbrev site_at : World → Text → Option Text → Host → Host × Site
site_at world name none host = (record host { domains = drop_key name host.domains }, removed)
site_at world name (some domain) host =
    if world.panel_removes domain
    then (record host { domains = drop_key name host.domains }, removed)
    else (host, kept domain)

-- `remove_site`, on a validated name
pub remove_site : World → Text → Host → Host × Site
remove_site world name host =
    site_at world name (domain_of name host) (without_vhost world name host)

-- the schedules after `remove_schedule`, and whether it dropped one
pub drop_schedule : World → Text → Host → Host × Bool
drop_schedule world app host = elim (remove_schedule world.paths (str app) host.backups) [
  | err e ↦ (host, false)
  | ok r ↦ (record host { backups = r.0 }, r.1)
]

pub find_name : Text → List App → Option App
find_name name [] = none
find_name name (a ∷ apps) =
    let rest = find_name name apps in if text_eq a.name name then some a else rest

abbrev pub without_app : Text → Host → Host
without_app name host = record host {
  apps = filter (λ a. not (text_eq a.name name)) host.apps;
  domains = drop_key name host.domains;
}

-- `fs.safe_rmtree(base, require_marker=True)`, where `base` is a directory; the flag tells whether
-- it was removed
pub remove_base : World → Text → Option App → Host → Host × Result Error Bool
remove_base world name none host = (host, ok false)
remove_base world name (some app) host =
    if not app.managed
    then (host, err (unmanaged_dir name))
    else if world.tree_stays (instance_root ++ codes "/" ++ name)
    then (host, err (tree_not_removed name))
    else (without_app name host, ok true)

-- `if purge and os.path.isdir(base) and not site_blocked`
pub remove_unblocked : World → Text → Site → Host → Host × Result Error Bool
remove_unblocked world name (kept domain) host = (host, ok false)
remove_unblocked world name removed host = remove_base world name (find_name name host.apps) host

pub delete_named : World → Text → Host → Host × Result Error Bool
delete_named world name host =
    let site = remove_site world name host in
    let dropped = drop_schedule world name site.0 in
    if world.unit_stays name
    then (dropped.0, err (unit_not_removed name))
    else remove_unblocked world name site.1 dropped.0

-- `delete` with `purge`
pub delete : World → Text → Host → Host × Result Error Bool
delete world app host = elim (identifier (str app)) [
  | err e ↦ (host, err (invalid_app e))
  | ok name ↦ delete_named world name host
]

-- The name of a runtime's directory, as `_list_plugin_jdks` and `_wipe_jdks` of core/maintenance.py read it.
-- the characters up to the first that fails the test
pub leading : (ℕ → Bool) → Text → Text
leading p [] = []
leading p (c ∷ s) = let rest = leading p s in if p c then c ∷ rest else []

abbrev jdk_digits : Text → Text
jdk_digits name = leading is_digit (drop 4 name)

-- `^jdk-\d+$`
pub is_jdk : Text → Bool
is_jdk name =
    starts_with (codes "jdk-") name
    && not (is_empty (jdk_digits name))
    && at_end (drop (length (jdk_digits name)) (drop 4 name))

-- `int(re.match(r"jdk-(\d+)", name).group(1))`
pub jdk_major : Text → ℕ
jdk_major name = elim (int_of_text (jdk_digits name)) [ none ↦ 0 | some z ↦ clip z ]

pub pins : ℕ → App → Bool
pins major app = elim app.java [ none ↦ false | some m ↦ m == major ]

-- `java.usage(major)`
pub usage : ℕ → Host → List Text
usage major host =
    map (λ a. a.name) (filter (pins major) (sort_by (λ a b. text_leb a.name b.name) host.apps))

-- `_list_apps` of core/maintenance.py: the names in order
pub list_names : Host → List Text
list_names host = map (λ a. a.name) (sort_by (λ a b. text_leb a.name b.name) host.apps)

pub runs_on : Text → App → Bool
runs_on major app = elim app.line [ none ↦ false | some l ↦ text_eq l major ]

-- `installer.usage(major)`
pub line_usage : Text → Host → List Text
line_usage major host =
    map (λ a. a.name) (filter (runs_on major) (sort_by (λ a b. text_leb a.name b.name) host.apps))

abbrev pub home_root : Text
home_root = codes "/www/server/javahost/tomcat"

pub find_tomcat : Text → List Tomcat → Option Tomcat
find_tomcat major [] = none
find_tomcat major (t ∷ tomcats) =
    let rest = find_tomcat major tomcats in if text_eq t.major major then some t else rest

-- `fs.safe_rmtree(dest, require_marker=True)`, where `dest` is a directory
pub remove_home : World → Text → Option Tomcat → Host → Host × Result Error Bool
remove_home world major none host = (host, ok false)
remove_home world major (some t) host =
    if not t.managed
    then (host, err (unmanaged_dir major))
    else if world.tree_stays (home_root ++ codes "/" ++ major)
    then (host, err (tree_not_removed major))
    else (record host { tomcats = filter (λ t. not (text_eq t.major major)) host.tomcats }, ok true)

abbrev pub uninstall_unused : World → Text → List Text → Host → Host × Result Error Bool
uninstall_unused world major (user ∷ users) host = (host, err (in_use major (user ∷ users)))
uninstall_unused world major [] host = remove_home world major (find_tomcat major host.tomcats) host

-- `installer.uninstall(major)`, of a line of the registry and without `force`
pub uninstall : World → Text → Host → Host × Result Error Bool
uninstall world major host = uninstall_unused world major (line_usage major host) host
