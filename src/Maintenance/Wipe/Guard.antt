-- ===== src/Maintenance/Wipe/Guard.antt =====
-- What a whole wipe keeps, and what a full one leaves.
use aa_panel_tomcat_plugin.Prelude.{
  is_nil, ◌≡◌, refl, inl, inr, Bool, true, false, not, List, [], Option, if◌then◌else◌, none, some,
  Text, Bool-cases, some_eq, Result-cases, text_eq, among, codes,
}
use aa_panel_tomcat_plugin.Instances.{Host, World}
use aa_panel_tomcat_plugin.Instances.Supported.{IsSupported, IsSupported-refl, IsSupported-trans}
use aa_panel_tomcat_plugin.Maintenance.{wipe_apps, wipe_sites, wipe_tomcats, wipe_jdks}
use aa_panel_tomcat_plugin.Maintenance.Supported.{
  wipe_apps-IsSupported, wipe_sites-IsSupported, wipe_tomcats-IsSupported, wipe_jdks-IsSupported,
}
use aa_panel_tomcat_plugin.Maintenance.Wipe.{
  wipe, wipe_full, wipe_some, write_plan, remove_data, after_data, run_scope, normalize_scope,
  confirmed_scope, when,
}

module _ (world : World) (clean : (h : Host) → world.data_left h ≡ none) where
  write_plan-IsSupported :
      (items : List Text) (host : Host) → IsSupported host (write_plan world items host)
  unfolding write_plan
  write_plan-IsSupported items host = elim (Bool-cases world.plan_stays) [
    | inl e ↦ rw (write_plan, e) (IsSupported-refl host)
    | inr e ↦ rw (write_plan, e) (IsSupported-refl host)
  ]

  after_data-IsSupported :
      (b : Bool) (o : Option Host) (host : Host)
      → o ≡ none
      → IsSupported host (if b then after_data world o host else (host, false)).0
  after_data-IsSupported true none host e =
      ((λ a m. elim m [ ]), (λ a j m k l. elim m [ ]), λ a t m k l. elim m [ ])
  after_data-IsSupported true (some left) host e = cc
  after_data-IsSupported false o host e = IsSupported-refl host

  remove_data-IsSupported : (host : Host) → IsSupported host (remove_data world host).0
  unfolding remove_data
  remove_data-IsSupported host =
      after_data-IsSupported host.data_root (world.data_left host) host (clean host)

  when-IsSupported :
      {R : Type 0} (b : Bool) (step : Host → Host × R)
      → ((host : Host) → IsSupported host (step host).0)
      → (host : Host) → IsSupported host (when world b step host).0
  when-IsSupported true step h host = h host
  when-IsSupported false step h host = IsSupported-refl host

  wipe_full-IsSupported : (host : Host) → IsSupported host (wipe_full world host).0
  unfolding wipe_full
  wipe_full-IsSupported host =
      let a = (wipe_apps world host).0 in
      let s = (wipe_sites world a).0 in
      let t = (wipe_tomcats world s).0 in
      let j = (wipe_jdks world t).0 in
      IsSupported-trans host a (remove_data world j).0 (wipe_apps-IsSupported world host) (
        IsSupported-trans a s (remove_data world j).0 (wipe_sites-IsSupported world a) (
          IsSupported-trans s t (remove_data world j).0 (wipe_tomcats-IsSupported world s) (
            IsSupported-trans t j (remove_data world j).0 (wipe_jdks-IsSupported world t)
              (remove_data-IsSupported j))))

  wipe_some-IsSupported :
      (items : List Text) (host : Host) → IsSupported host (wipe_some world items host).0
  unfolding wipe_some
  wipe_some-IsSupported items host =
      let a = (when world (among (codes "apps") items) (wipe_apps world) host).0 in
      let s = (when world (among (codes "sites") items) (wipe_sites world) a).0 in
      let t = (when world (among (codes "tomcats") items) (wipe_tomcats world) s).0 in
      let j = (when world (among (codes "jdks") items) (wipe_jdks world) t).0 in
      IsSupported-trans host a j
        (when-IsSupported _ (wipe_apps world) (wipe_apps-IsSupported world) host)
        (IsSupported-trans a s j
          (when-IsSupported _ (wipe_sites world) (wipe_sites-IsSupported world) a)
          (IsSupported-trans s t j
            (when-IsSupported _ (wipe_tomcats world) (wipe_tomcats-IsSupported world) s)
            (when-IsSupported _ (wipe_jdks world) (wipe_jdks-IsSupported world) t)))

  run_scope-IsSupported :
      (items : List Text) (host : Host) → IsSupported host (run_scope world items host).0
  unfolding run_scope
  run_scope-IsSupported items host =
      let planned = write_plan world items host in
      elim (Bool-cases (among (codes "full") items)) [
        | inl e ↦
            rw (run_scope, e)
              (IsSupported-trans host planned (wipe_full world planned).0
                (write_plan-IsSupported items host) (wipe_full-IsSupported planned))
        | inr e ↦
            rw (run_scope, e)
              (IsSupported-trans host planned (wipe_some world items planned).0
                (write_plan-IsSupported items host) (wipe_some-IsSupported items planned))
      ]

  confirmed-IsSupported :
      (confirm : Text) (items : List Text) (host : Host)
      → IsSupported host (confirmed_scope world confirm items host).0
  confirmed-IsSupported confirm items host =
      elim (Bool-cases (not (text_eq confirm (codes "WIPE")))) [
        | inl e ↦ rw e (IsSupported-refl host)
        | inr e ↦ elim (Bool-cases (is_nil items)) [
          | inl f ↦ rw (e, f) (IsSupported-refl host)
          | inr f ↦ rw (e, f) (run_scope-IsSupported items host)
        ]
      ]

-- Whatever the scope of a wipe and whatever call fails in it, where the removal of the data root does
-- not raise midway and every other removal that raises leaves its tree whole: no application is there
-- afterwards that was not, and one that is left has the plugin's Java runtimes of its release and the
-- Tomcat line that it runs on, wherever the host had them before.
pub wipe-IsSupported :
    (world : World) (scope confirm : Text) (host : Host)
    → ((h : Host) → world.data_left h ≡ none)
    → IsSupported host (wipe world scope confirm host).0
unfolding wipe
wipe-IsSupported world scope confirm host clean = elim (Result-cases (normalize_scope scope)) [
  | inl (s, e) ↦ rw (wipe, e) (IsSupported-refl host)
  | inr (items, e) ↦ rw (wipe, e) (confirmed-IsSupported world clean confirm items host)
]

-- Nothing of the plugin's own is left under the data root.
abbrev pub IsBare : Host → Type 0
IsBare host =
    (host.apps ≡ [])
    × (host.jdks ≡ [])
    × (host.tomcats ≡ [])
    × (host.vhosts ≡ [])
    × (host.backups.schedules ≡ [])
    × (host.plan ≡ none)

after_data-IsBare :
    (world : World) (b : Bool) (o : Option Host) (host : Host)
    → (if b then after_data world o host else (host, false)).1 ≡ true
    → IsBare (if b then after_data world o host else (host, false)).0
after_data-IsBare world true none host h = (refl, refl, refl, refl, refl, refl)
after_data-IsBare world true (some left) host h = cc
after_data-IsBare world false o host h = cc

remove_data-IsBare :
    (world : World) (host : Host)
    → (remove_data world host).1 ≡ true
    → IsBare (remove_data world host).0
unfolding remove_data
remove_data-IsBare world host h =
    after_data-IsBare world host.data_root (world.data_left host) host h

-- Where a full wipe reports that it removed the data root, no instance, runtime, Tomcat, vhost or
-- schedule is left under it, and no uninstall plan either.
pub wipe_full-IsBare :
    (world : World) (host : Host)
    → (wipe_full world host).1.data_removed ≡ some true
    → IsBare (wipe_full world host).0
unfolding wipe_full
wipe_full-IsBare world host h =
    remove_data-IsBare world
      (wipe_jdks world (wipe_tomcats world (wipe_sites world (wipe_apps world host).0).0).0).0
      (some_eq h)
