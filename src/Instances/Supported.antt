-- ===== src/Instances/Supported.antt =====
-- What the deletion of an instance and the removal of a Tomcat leave alone.
use aa_panel_tomcat_plugin.Prelude.{
  ◌≡◌, refl, sym, subst, ◌∙◌, inl, inr, Bool, not, List, [], ◌∷◌, ◌++◌, Option, none, some, Text,
  filter, Elem, Bool-cases, Result-cases, codes, str,
}
use aa_panel_tomcat_plugin.Validate.{identifier}
use aa_panel_tomcat_plugin.Schedule.{remove_schedule}
use aa_panel_tomcat_plugin.Instances.{
  App, Tomcat, Host, World, delete, drop_schedule, remove_site, without_vhost, find_name,
  without_app, remove_base, remove_unblocked, delete_named, kept, removed, Site, site_at, domain_of,
  conf_of, instance_root, jdk_major,
}

-- What may change from one host to a later one: no application is new, and a runtime that one of
-- those left over runs on is still there.
abbrev pub IsSupported : Host → Host → Type 0
IsSupported before after =
    ((a : App) → Elem a after.apps → Elem a before.apps)
    × ((a : App) (j : Text)
        → Elem a after.apps
        → a.java ≡ some (jdk_major j)
        → Elem j before.jdks
        → Elem j after.jdks)
    × ((a : App) (t : Tomcat)
        → Elem a after.apps
        → a.line ≡ some t.major
        → Elem t before.tomcats
        → Elem t after.tomcats)

-- the same applications and runtimes
abbrev pub IsAlike : Host → Host → Type 0
IsAlike before after =
    (after.apps ≡ before.apps) × (after.jdks ≡ before.jdks) × (after.tomcats ≡ before.tomcats)

pub IsAlike-IsSupported : (before after : Host) → IsAlike before after → IsSupported before after
IsAlike-IsSupported before after (e, f, g) = (
  (λ a m. subst (Elem a) e m),
  (λ a j m h k. subst (Elem j) (sym f) k),
  (λ a t m h k. subst (Elem t) (sym g) k),
)

pub IsSupported-refl : (host : Host) → IsSupported host host
IsSupported-refl host = ((λ a m. m), (λ a j m h k. k), (λ a t m h k. k))

pub IsSupported-trans : (x y z : Host) → IsSupported x y → IsSupported y z → IsSupported x z
IsSupported-trans x y z (f, g, h) (p, q, r) = (
  (λ a m. f a (p a m)),
  (λ a j m e k. q a j m e (g a j (p a m) e k)),
  (λ a t m e k. r a t m e (h a t (p a m) e k)),
)

-- what a filter keeps is in the list
filter-Elem : {A : Type 0} (p : A → Bool) (a : A) (xs : List A) → Elem a (filter p xs) → Elem a xs
unfolding filter
filter-Elem p a [] m = m
filter-Elem p a (x ∷ xs) m = elim (Bool-cases (p x)) [
  | inl e ↦ elim (rw e at m) [ inl k ↦ inl k | inr k ↦ inr (filter-Elem p a xs k) ]
  | inr e ↦ inr (filter-Elem p a xs (rw e at m))
]

pub drop_schedule-IsAlike :
    (world : World) (app : Text) (host : Host) → IsAlike host (drop_schedule world app host).0
unfolding drop_schedule
drop_schedule-IsAlike world app host =
    elim (Result-cases (remove_schedule world.paths (str app) host.backups)) [
      | inl (e, k) ↦ rw (drop_schedule, k) (refl, refl, refl)
      | inr (r, k) ↦ rw (drop_schedule, k) (refl, refl, refl)
    ]

without_vhost-IsAlike :
    (world : World) (app : Text) (host : Host) → IsAlike host (without_vhost world app host)
unfolding without_vhost
without_vhost-IsAlike world app host = elim (Bool-cases (world.vhost_stays (conf_of app))) [
  | inl e ↦ rw (without_vhost, e) (refl, refl, refl)
  | inr e ↦ rw (without_vhost, e) (refl, refl, refl)
]

site_at-IsAlike :
    (world : World) (name : Text) (domain : Option Text) (host : Host)
    → IsAlike host (site_at world name domain host).0
site_at-IsAlike world name none host = (refl, refl, refl)
site_at-IsAlike world name (some domain) host = elim (Bool-cases (world.panel_removes domain)) [
  | inl e ↦ rw e (refl, refl, refl)
  | inr e ↦ rw e (refl, refl, refl)
]

pub IsAlike-trans : (x y z : Host) → IsAlike x y → IsAlike y z → IsAlike x z
IsAlike-trans x y z (a, b, c) (d, e, f) = (d ∙ a, e ∙ b, f ∙ c)

pub remove_site-IsAlike :
    (world : World) (name : Text) (host : Host) → IsAlike host (remove_site world name host).0
unfolding remove_site
remove_site-IsAlike world name host =
    IsAlike-trans host (without_vhost world name host) (remove_site world name host).0
      (without_vhost-IsAlike world name host)
      (site_at-IsAlike world name (domain_of name host) (without_vhost world name host))

without_app-IsSupported : (name : Text) (host : Host) → IsSupported host (without_app name host)
without_app-IsSupported name host =
    ((λ a m. filter-Elem _ a host.apps m), (λ a j m e k. k), (λ a t m e k. k))

remove_base-IsSupported :
    (world : World) (name : Text) (app : Option App) (host : Host)
    → IsSupported host (remove_base world name app host).0
unfolding remove_base
remove_base-IsSupported world name none host = IsSupported-refl host
remove_base-IsSupported world name (some app) host = elim (Bool-cases (not app.managed)) [
  | inl e ↦ rw (remove_base, e) (IsSupported-refl host)
  | inr e ↦ elim (Bool-cases (world.tree_stays (instance_root ++ codes "/" ++ name))) [
    | inl f ↦ rw (remove_base, e, f) (IsSupported-refl host)
    | inr f ↦ rw (remove_base, e, f) (without_app-IsSupported name host)
  ]
]

remove_unblocked-IsSupported :
    (world : World) (name : Text) (site : Site) (host : Host)
    → IsSupported host (remove_unblocked world name site host).0
unfolding remove_unblocked
remove_unblocked-IsSupported world name (kept domain) host = IsSupported-refl host
remove_unblocked-IsSupported world name removed host =
    remove_base-IsSupported world name (find_name name host.apps) host

delete_named-IsSupported :
    (world : World) (name : Text) (host : Host) → IsSupported host (delete_named world name host).0
unfolding delete_named
delete_named-IsSupported world name host =
    let site = remove_site world name host in
    let dropped = drop_schedule world name site.0 in
    let start = IsAlike-IsSupported host dropped.0 (
      IsAlike-trans host site.0 dropped.0 (remove_site-IsAlike world name host)
        (drop_schedule-IsAlike world name site.0)) in
    elim (Bool-cases (world.unit_stays name)) [
      | inl e ↦ rw (delete_named, e) start
      | inr e ↦
          rw (delete_named, e)
            (IsSupported-trans host dropped.0 (remove_unblocked world name site.1 dropped.0).0 start
              (remove_unblocked-IsSupported world name site.1 dropped.0))
    ]

pub delete-IsSupported :
    (world : World) (app : Text) (host : Host) → IsSupported host (delete world app host).0
unfolding delete
delete-IsSupported world app host = elim (Result-cases (identifier (str app))) [
  | inl (e, k) ↦ rw (delete, k) (IsSupported-refl host)
  | inr (name, k) ↦ rw (delete, k) (delete_named-IsSupported world name host)
]
