-- ===== src/Instances/Used.antt =====
-- A runtime that no application uses, and the removal of a Tomcat.
use aa_panel_tomcat_plugin.Prelude.{
  text_leb, ℕ, ◌≡◌, refl, ap, subst, ◌∙◌, inl, inr, Bool, true, not, List, [], ◌∷◌, ◌++◌, Option,
  none, some, Text, map, filter, arith, Elem, Elem-filter, Bool-cases, text_eq, text_eq_iff, codes,
  sort_by, sort_by-Elem,
}
use aa_panel_tomcat_plugin.Instances.{
  App, Tomcat, Host, World, usage, uninstall, pins, runs_on, line_usage, find_tomcat, remove_home,
  uninstall_unused, home_root,
}
use aa_panel_tomcat_plugin.Instances.Supported.{IsSupported, IsSupported-refl}

-- a list that a map makes empty is empty
map-nil : {A B : Type 0} (f : A → B) (xs : List A) → map f xs ≡ [] → xs ≡ []
map-nil f [] h = refl
map-nil f (x ∷ xs) h = cc

unused-Elem :
    (p : App → Bool) (before : App → App → Bool) (a : App) (apps : List App)
    → map (λ b. b.name) (filter p (sort_by before apps)) ≡ []
    → Elem a apps
    → p a ≡ true
    → ⊥
unused-Elem p before a apps e m k =
    subst (Elem a) (map-nil (λ b. b.name) _ e)
      (Elem-filter p a (sort_by before apps) (sort_by-Elem before a apps m) k)

pins-true : (major : ℕ) (a : App) → a.java ≡ some major → pins major a ≡ true
unfolding pins
pins-true major a e = rw (pins, e) (ground arith)

-- No application runs on a release that none uses.
pub usage-nil :
    (major : ℕ) (host : Host) (a : App)
    → usage major host ≡ []
    → Elem a host.apps
    → a.java ≡ some major
    → ⊥
unfolding usage
usage-nil major host a e m k =
    unused-Elem (pins major) (λ a b. text_leb a.name b.name) a host.apps e m (pins-true major a k)

runs_on-true : (major : Text) (a : App) → a.line ≡ some major → runs_on major a ≡ true
unfolding runs_on
runs_on-true major a e = rw (runs_on, e, (text_eq_iff major major).1 refl) refl

line_usage-nil :
    (major : Text) (host : Host) (a : App)
    → line_usage major host ≡ []
    → Elem a host.apps
    → a.line ≡ some major
    → ⊥
unfolding line_usage
line_usage-nil major host a e m k =
    unused-Elem (runs_on major) (λ a b. text_leb a.name b.name) a host.apps e m
      (runs_on-true major a k)

without_tomcat-IsSupported :
    (major : Text) (host : Host)
    → line_usage major host ≡ []
    → IsSupported host
        (record host { tomcats = filter (λ t. not (text_eq t.major major)) host.tomcats })
without_tomcat-IsSupported major host e = (
  (λ a m. m),
  (λ a j m k l. l),
  λ a t m k l. elim (Bool-cases (text_eq t.major major)) [
    | inl f ↦
        absurd (line_usage-nil major host a e m (k ∙ ap some ((text_eq_iff t.major major).0 f)))
    | inr f ↦ Elem-filter _ t host.tomcats l (ap not f)
  ],
)

remove_home-IsSupported :
    (world : World) (major : Text) (found : Option Tomcat) (host : Host)
    → line_usage major host ≡ []
    → IsSupported host (remove_home world major found host).0
unfolding remove_home
remove_home-IsSupported world major none host e = IsSupported-refl host
remove_home-IsSupported world major (some t) host e = elim (Bool-cases (not t.managed)) [
  | inl f ↦ rw (remove_home, f) (IsSupported-refl host)
  | inr f ↦ elim (Bool-cases (world.tree_stays (home_root ++ codes "/" ++ major))) [
    | inl g ↦ rw (remove_home, f, g) (IsSupported-refl host)
    | inr g ↦ rw (remove_home, f, g) (without_tomcat-IsSupported major host e)
  ]
]

uninstall_unused-IsSupported :
    (world : World) (major : Text) (users : List Text) (host : Host)
    → line_usage major host ≡ users
    → IsSupported host (uninstall_unused world major users host).0
uninstall_unused-IsSupported world major [] host e =
    remove_home-IsSupported world major (find_tomcat major host.tomcats) host e
uninstall_unused-IsSupported world major (user ∷ users) host e = IsSupported-refl host

pub uninstall-IsSupported :
    (world : World) (major : Text) (host : Host) → IsSupported host (uninstall world major host).0
unfolding uninstall
uninstall-IsSupported world major host =
    uninstall_unused-IsSupported world major (line_usage major host) host refl
