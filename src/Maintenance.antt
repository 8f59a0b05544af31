-- ===== src/Maintenance.antt =====
-- plugin/javahost/core/maintenance.py: what the panel's danger zone removes, scope by scope. The
-- state is the host of Instances; a report keeps what each step of a scope
-- said, less the list `schedules_pruned`. That a service is stopped changes nothing here.
pub mod Wipe
pub mod Supported
use aa_panel_tomcat_plugin.Prelude.{
  ltb, ◌-◌, Dict, find_key, set_key, text_leb, is_nil, ℕ, Bool, true, false, not, ◌&&◌, List, [],
  ◌∷◌, ◌++◌, Option, none, some, Text, codes, Result, ok, err, map, filter, any, if◌then◌else◌,
  is_empty, is_digit, among, text_eq, sort_by, starts_with, str, drop, clip, int_of_text, length,
  take, ◌-◌,
}
use aa_panel_tomcat_plugin.Validate.{at_end, identifier}
use aa_panel_tomcat_plugin.Logs.{ends_with}
use aa_panel_tomcat_plugin.Proxy.{remove_include}
use aa_panel_tomcat_plugin.Instances.{
  App, Tomcat, Host, World, Error, in_use, unit_not_removed, tree_not_removed, unmanaged_dir,
  invalid_app, delete, drop_schedule, remove_site, usage, list_names, uninstall, is_jdk, jdk_major,
}

pub list_jdks : Host → List Text
list_jdks host = sort_by text_leb (filter is_jdk host.jdks)

abbrev has_tomcat : Host → Text → Bool
has_tomcat host major = any (λ t. text_eq t.major major) host.tomcats

-- `_list_installed_tomcats`, over the lines of the registry in the order of their names
pub list_tomcats : Host → List Text
list_tomcats host = filter (has_tomcat host) (codes "10" ∷ codes "11" ∷ codes "9" ∷ [])

pub list_sites : Host → List Text
list_sites host = sort_by text_leb (filter (ends_with (codes ".conf")) host.vhosts)

-- `_SIZE_CACHE`: the size of a path and the time when it was taken
abbrev pub Sizes : Type 0
Sizes = Dict (ℕ × ℕ)

abbrev is_fresh : ℕ → ℕ → Option (ℕ × ℕ) → Bool
is_fresh ttl now none = false
is_fresh ttl now (some (size, taken)) = ltb (now - taken) ttl

abbrev size_of : Option (ℕ × ℕ) → ℕ
size_of none = 0
size_of (some (size, taken)) = size

-- `_dir_size`: `walk` sums the sizes of the files below a path; the clock does not go back
pub dir_size : (Text → ℕ) → ℕ → ℕ → Text → Sizes → ℕ × Sizes
dir_size walk ttl now path sizes =
    if is_fresh ttl now (find_key path sizes)
    then (size_of (find_key path sizes), sizes)
    else (walk path, set_key path (walk path, now) sizes)

pub record Preview : Type 0 where
  pub apps : List Text
  pub jdks : List Text
  pub tomcats : List Text
  pub sites : List Text
  pub exists : Bool
  pub size_bytes : ℕ

-- `wipe_preview`, with the sizes cached afterwards
pub wipe_preview : (Text → ℕ) → ℕ → ℕ → Host → Sizes → Preview × Sizes
wipe_preview walk ttl now host sizes =
    let size = dir_size walk ttl now (codes "/www/server/javahost") sizes in
    (
      record {
        apps = list_names host;
        jdks = list_jdks host;
        tomcats = list_tomcats host;
        sites = list_sites host;
        exists = host.data_root;
        size_bytes = size.0;
      },
      size.1,
    )

-- What a step says of one item.
pub data Verdict : Type 0 where
  gone : Verdict
  trouble : Error → Verdict
  skipped : List Text → Verdict

pub record Report : Type 0 where
  pub removed : List Text
  pub errors : List (Text × Error)
  pub skips : List (Text × List Text)

pub record SiteReport : Type 0 where
  pub report : Report
  pub include_removed : Bool

abbrev blank : Report
blank = record { removed = []; errors = []; skips = [] }

abbrev tell : Text → Verdict → Report → Report
tell item gone report = record report { removed = item ∷ report.removed }
tell item (trouble e) report = record report { errors = (item, e) ∷ report.errors }
tell item (skipped users) report = record report { skips = (item, users) ∷ report.skips }

-- a loop over the items, in which each step changes the host
pub each : (Text → Host → Host × Verdict) → List Text → Host → Host × Report
each step [] host = (host, blank)
each step (item ∷ items) host =
    let now = step item host in let rest = each step items now.0 in (rest.0, tell item now.1 rest.1)

abbrev verdict_of : Result Error Bool → Verdict
verdict_of (ok b) = gone
verdict_of (err e) = trouble e

module _ (world : World) where
  abbrev delete_app : Text → Host → Host × Verdict
  delete_app app host = let r = delete world app host in (r.0, verdict_of r.1)

  -- one turn of the loop of `_wipe_apps`
  pub wipe_app : Text → Host → Host × Verdict
  wipe_app app host =
      let pruned = drop_schedule world app host in
      if world.unit_stays app
      then (pruned.0, trouble (unit_not_removed app))
      else delete_app app pruned.0

  pub wipe_apps : Host → Host × Report
  wipe_apps host = each wipe_app (list_names host) host

  abbrev jdk_root : Text
  jdk_root = codes "/www/server/javahost/runtimes"

  abbrev unused : Text → List Text → Host → Host × Verdict
  unused name (user ∷ users) host = (host, skipped (user ∷ users))
  unused name [] host =
      if world.tree_stays (jdk_root ++ (codes "/" ++ name))
      then (host, trouble (tree_not_removed name))
      else (record host { jdks = filter (λ j. not (text_eq j name)) host.jdks }, gone)

  pub wipe_jdk : Text → Host → Host × Verdict
  wipe_jdk name host = unused name (usage (jdk_major name) host) host

  pub wipe_jdks : Host → Host × Report
  wipe_jdks host = each wipe_jdk (list_jdks host) host

  abbrev shows : Text → App → Bool
  shows major app = elim app.tomcat [ none ↦ false | some t ↦ text_eq t major ]

  abbrev uninstall_line : Text → Host → Host × Verdict
  uninstall_line major host = let r = uninstall world major host in (r.0, verdict_of r.1)

  -- one turn of the loop of `_wipe_tomcats`, for the records that `list_apps` gave before it
  pub wipe_tomcat : List App → Text → Host → Host × Verdict
  wipe_tomcat apps major host =
      let users = map (λ a. a.name) (filter (shows major) apps) in
      if is_nil users then uninstall_line major host else (host, skipped users)

  pub wipe_tomcats : Host → Host × Report
  wipe_tomcats host =
      each (wipe_tomcat (sort_by (λ a b. text_leb a.name b.name) host.apps)) (list_tomcats host)
        host

  -- one turn of the loop of `_wipe_sites`; `remove_site` validates the name
  pub wipe_site : Text → Host → Host × Verdict
  wipe_site app host = elim (identifier (str app)) [
    | err e ↦ (host, trouble (invalid_app e))
    | ok name ↦ ((remove_site world name host).0, gone)
  ]

  -- `conf[:-len(".conf")]`
  abbrev site_of : Text → Text
  site_of conf = take (length conf - 5) conf

  pub wipe_sites : Host → Host × SiteReport
  wipe_sites host =
      let done = each wipe_site (map site_of (list_sites host)) host in
      let conf = remove_include world.nginx_accepts done.0.nginx_conf in
      (record done.0 { nginx_conf = conf.1 }, record { report = done.1; include_removed = conf.0 })
