-- ===== src/Maintenance/Wipe.antt =====
-- plugin/javahost/core/maintenance.py: `wipe`, its scopes, its confirmation and the uninstall plan.
mod Guard
mod Tests
use aa_panel_tomcat_plugin.Prelude.{
  is_nil, Bool, true, false, not, ◌&&◌, List, [], ◌∷◌, ◌++◌, Option, none, some, Text, codes,
  Result, ok, err, if◌then◌else◌, is_empty, among, text_eq, strip, split_on, join, map,
}
use aa_panel_tomcat_plugin.Instances.{Host, World}
use aa_panel_tomcat_plugin.Maintenance.{
  Report, SiteReport, wipe_apps, wipe_sites, wipe_tomcats, wipe_jdks,
}

abbrev pub data_dir : Text
data_dir = codes "/www/server/javahost"

-- The answer of `wipe`, with the step for each category that was wiped.
pub record Steps : Type 0 where
  pub apps : Option Report
  pub sites : Option SiteReport
  pub tomcats : Option Report
  pub jdks : Option Report
  pub data_removed : Option Bool

pub data Answer : Type 0 where
  unconfirmed : List Text → Answer
  nothing_to_do : Answer
  performed : List Text → Steps → Answer

abbrev valid_scope : List Text
valid_scope = codes "apps" ∷ codes "jdks" ∷ codes "tomcats" ∷ codes "sites" ∷ codes "full" ∷ []

-- the items that are not empty, each once; `err` is the first that is none of the categories
pub scope_from : List Text → List Text → Result Text (List Text)
scope_from out [] = ok out
scope_from out (s ∷ items) =
    let skip = scope_from out items in
    let take_it = scope_from (out ++ (s ∷ [])) items in
    if is_empty s
    then skip
    else if not (among s valid_scope)
    then err s
    else if among s out
    then skip
    else take_it

-- `_normalize_scope`, of the csv form
pub normalize_scope : Text → Result Text (List Text)
normalize_scope scope = scope_from [] (map strip (split_on b',' scope))

module _ (world : World) where
  -- What is left when the data root is removed: all but nginx.conf and the cron file lies in it.
  abbrev pub without_data : Host → Host
  without_data host = record host {
    apps = [];
    domains = [];
    jdks = [];
    tomcats = [];
    vhosts = [];
    backups = record host.backups { schedules = [] };
    data_root = false;
    plan = none;
  }

  abbrev pub after_data : Option Host → Host → Host × Bool
  after_data none host = (without_data host, true)
  after_data (some left) host = (left, false)

  -- the last step of `_wipe_full`, with its flag `removed`
  pub remove_data : Host → Host × Bool
  remove_data host =
      if host.data_root then after_data (world.data_left host) host else (host, false)

  pub wipe_full : Host → Host × Steps
  wipe_full host =
      let a = wipe_apps world host in
      let s = wipe_sites world a.0 in
      let t = wipe_tomcats world s.0 in
      let j = wipe_jdks world t.0 in
      let d = remove_data j.0 in
      (
        d.0,
        record {
          apps = some a.1;
          sites = some s.1;
          tomcats = some t.1;
          jdks = some j.1;
          data_removed = some d.1;
        },
      )

  abbrev pub when {ℓ} : {R : Type ℓ} → Bool → (Host → Host × R) → Host → Host × Option R
  when true step host = let r = step host in (r.0, some r.1)
  when false step host = (host, none)

  -- the categories of a scope without `full`
  pub wipe_some : List Text → Host → Host × Steps
  wipe_some items host =
      let a = when (among (codes "apps") items) (wipe_apps world) host in
      let s = when (among (codes "sites") items) (wipe_sites world) a.0 in
      let t = when (among (codes "tomcats") items) (wipe_tomcats world) s.0 in
      let j = when (among (codes "jdks") items) (wipe_jdks world) t.0 in
      (j.0, record { apps = a.1; sites = s.1; tomcats = t.1; jdks = j.1; data_removed = none })

  -- `write_uninstall_plan`, of a scope that is not empty
  pub write_plan : List Text → Host → Host
  write_plan items host =
      if world.plan_stays
      then host
      else record host { plan = some (join (codes ",") items ++ codes "\n"); data_root = true }

  pub run_scope : List Text → Host → Host × Answer
  run_scope items host =
      if among (codes "full") items
      then (let r = wipe_full (write_plan items host) in (r.0, performed (codes "full" ∷ []) r.1))
      else (let r = wipe_some items (write_plan items host) in (r.0, performed items r.1))

  abbrev pub confirmed_scope : Text → List Text → Host → Host × Answer
  confirmed_scope confirm items host =
      if not (text_eq confirm (codes "WIPE"))
      then (host, unconfirmed items)
      else if is_nil items
      then (host, nothing_to_do)
      else run_scope items host

  -- `wipe`: the host afterwards, and the answer or the item that is invalid
  pub wipe : Text → Text → Host → Host × Result Text Answer
  wipe scope confirm host = elim (normalize_scope scope) [
    | err s ↦ (host, err s)
    | ok items ↦ (let r = confirmed_scope confirm items host in (r.0, ok r.1))
  ]
