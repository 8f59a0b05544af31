-- ===== src/Maintenance/Supported.antt =====
-- A wipe never takes the Java runtime or the Tomcat away that an application left over runs on.
use aa_panel_tomcat_plugin.Prelude.{
  text_leb, is_nil, ◌≡◌, refl, ap, ◌∙◌, inl, inr, not, List, [], ◌∷◌, ◌++◌, some, Text, map, filter,
  Elem-filter, Bool-cases, Result-cases, text_eq, text_eq_iff, codes, sort_by, str,
}
use aa_panel_tomcat_plugin.Validate.{identifier}
use aa_panel_tomcat_plugin.Instances.{
  App, Host, World, drop_schedule, delete, remove_site, usage, jdk_major, list_names,
}
use aa_panel_tomcat_plugin.Instances.Supported.{
  IsSupported, IsAlike-IsSupported, IsSupported-refl, IsSupported-trans, drop_schedule-IsAlike,
  remove_site-IsAlike, delete-IsSupported,
}
use aa_panel_tomcat_plugin.Instances.Used.{usage-nil, uninstall-IsSupported}
use aa_panel_tomcat_plugin.Maintenance.{
  each, Verdict, wipe_app, wipe_apps, unused, wipe_jdk, wipe_jdks, wipe_tomcat, wipe_tomcats,
  wipe_site, wipe_sites, jdk_root, shows, list_jdks, list_tomcats, list_sites, site_of,
}

each-IsSupported :
    (step : Text → Host → Host × Verdict)
    → ((item : Text) (host : Host) → IsSupported host (step item host).0)
    → (items : List Text) (host : Host) → IsSupported host (each step items host).0
unfolding each
each-IsSupported step h [] host = IsSupported-refl host
each-IsSupported step h (item ∷ items) host =
    IsSupported-trans host (step item host).0 (each step items (step item host).0).0 (h item host)
      (each-IsSupported step h items (step item host).0)

module _ (world : World) where
  wipe_app-IsSupported : (app : Text) (host : Host) → IsSupported host (wipe_app world app host).0
  unfolding wipe_app
  wipe_app-IsSupported app host =
      let pruned = (drop_schedule world app host).0 in
      let start = IsAlike-IsSupported host pruned (drop_schedule-IsAlike world app host) in
      elim (Bool-cases (world.unit_stays app)) [
        | inl e ↦ rw (wipe_app, e) start
        | inr e ↦
            rw (wipe_app, e)
              (IsSupported-trans host pruned (delete world app pruned).0 start
                (delete-IsSupported world app pruned))
      ]

  pub wipe_apps-IsSupported : (host : Host) → IsSupported host (wipe_apps world host).0
  unfolding wipe_apps
  wipe_apps-IsSupported host =
      each-IsSupported (wipe_app world) wipe_app-IsSupported (list_names host) host

  without_jdk-IsSupported :
      (name : Text) (host : Host)
      → usage (jdk_major name) host ≡ []
      → IsSupported host (record host { jdks = filter (λ j. not (text_eq j name)) host.jdks })
  without_jdk-IsSupported name host e = (
    (λ a m. m),
    (λ a j m k l. elim (Bool-cases (text_eq j name)) [
      | inl f ↦ absurd (
          usage-nil (jdk_major name) host a e m
            (k ∙ ap (λ n. some (jdk_major n)) ((text_eq_iff j name).0 f)))
      | inr f ↦ Elem-filter _ j host.jdks l (ap not f)
    ]),
    λ a t m k l. l,
  )

  unused-IsSupported :
      (name : Text) (users : List Text) (host : Host)
      → usage (jdk_major name) host ≡ users
      → IsSupported host (unused world name users host).0
  unused-IsSupported name (user ∷ users) host e = IsSupported-refl host
  unused-IsSupported name [] host e =
      elim (Bool-cases (world.tree_stays (jdk_root world ++ (codes "/" ++ name)))) [
        | inl f ↦ rw f (IsSupported-refl host)
        | inr f ↦ rw f (without_jdk-IsSupported name host e)
      ]

  wipe_jdk-IsSupported : (name : Text) (host : Host) → IsSupported host (wipe_jdk world name host).0
  unfolding wipe_jdk
  wipe_jdk-IsSupported name host = unused-IsSupported name (usage (jdk_major name) host) host refl

  pub wipe_jdks-IsSupported : (host : Host) → IsSupported host (wipe_jdks world host).0
  unfolding wipe_jdks
  wipe_jdks-IsSupported host =
      each-IsSupported (wipe_jdk world) wipe_jdk-IsSupported (list_jdks host) host

  wipe_tomcat-IsSupported :
      (apps : List App) (major : Text) (host : Host)
      → IsSupported host (wipe_tomcat world apps major host).0
  unfolding wipe_tomcat
  wipe_tomcat-IsSupported apps major host =
      elim (Bool-cases (is_nil (map (λ a. a.name) (filter (shows world major) apps)))) [
        | inl e ↦ rw (wipe_tomcat, e) (uninstall-IsSupported world major host)
        | inr e ↦ rw (wipe_tomcat, e) (IsSupported-refl host)
      ]

  pub wipe_tomcats-IsSupported : (host : Host) → IsSupported host (wipe_tomcats world host).0
  unfolding wipe_tomcats
  wipe_tomcats-IsSupported host =
      each-IsSupported (wipe_tomcat world (sort_by (λ a b. text_leb a.name b.name) host.apps))
        (wipe_tomcat-IsSupported (sort_by (λ a b. text_leb a.name b.name) host.apps))
        (list_tomcats host) host

  wipe_site-IsSupported : (app : Text) (host : Host) → IsSupported host (wipe_site world app host).0
  unfolding wipe_site
  wipe_site-IsSupported app host = elim (Result-cases (identifier (str app))) [
    | inl (e, k) ↦ rw (wipe_site, k) (IsSupported-refl host)
    | inr (name, k) ↦
        rw (wipe_site, k)
          (IsAlike-IsSupported host (remove_site world name host).0
            (remove_site-IsAlike world name host))
  ]

  pub wipe_sites-IsSupported : (host : Host) → IsSupported host (wipe_sites world host).0
  unfolding wipe_sites
  wipe_sites-IsSupported host =
      each-IsSupported (wipe_site world) wipe_site-IsSupported
        (map (site_of world) (list_sites host)) host
