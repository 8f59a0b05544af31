-- ===== src/Remotes/Change/Refine.antt =====
-- The profiles as a map from ids: each operation does to the list what its specification does to
-- the map.
use aa_panel_tomcat_plugin.Prelude.{
  ◌≡◌, refl, subst, ◌∙◌, inl, inr, Bool, not, ◌&&◌, List, [], ◌∷◌, ◌++◌, Option, none, some, Text,
  Result, ok, err, Dict, Value, str, arith, Bool-cases, Option-cases, Result-cases, text_eq,
  text_eq_iff, filter, if◌then◌else◌, is_nil,
}
use aa_panel_tomcat_plugin.Validate.{identifier}
use aa_panel_tomcat_plugin.Validate
use aa_panel_tomcat_plugin.Schedule.{Paths}
use aa_panel_tomcat_plugin.Schedule
use aa_panel_tomcat_plugin.Remotes.{
  Profile, Form, find, profile_of, lacks, slug, or_else, add_named, add_profile, is_complete, Error,
}
use aa_panel_tomcat_plugin.Remotes.Change.{
  changed, replace, update_profile, Mishaps, dependents, delete_profile, drop_profile,
}

-- the abstract view of the registry
abbrev pub Registry : Type 0
Registry = Text → Option (Dict Value)

abbrev fields_of : Option Profile → Option (Dict Value)
fields_of none = none
fields_of (some p) = some p.fields

abbrev pub view : List Profile → Registry
view profiles pid = fields_of (find pid profiles)

abbrev pub put : Text → Option (Dict Value) → Registry → Registry
put pid d registry k = if text_eq pid k then d else registry k

-- the profiles that stay when an operation raises
abbrev pub kept_or : List Profile → Result Error (List Profile) → List Profile
kept_or profiles (ok saved) = saved
kept_or profiles (err e) = profiles

-- a new id gets the profile, an id that is there stays
abbrev fresh : Text → Option (Dict Value) → Dict Value → Registry → Registry
fresh pid none d registry = put pid (some d) registry
fresh pid (some old) d registry = registry

abbrev added : Text → Form → Result Validate.Error Text → Registry → Registry
added now form (err e) registry = registry
added now form (ok pid) registry =
    fresh pid (registry pid) (profile_of now form pid).fields registry

-- the specification of `add_profile`
abbrev pub spec_add : Text → Form → Registry → Registry
spec_add now form registry =
    if lacks form
    then registry
    else added now form (identifier (str (or_else form.pid (slug (or_else form.name form.bucket)))))
        registry

abbrev revised : Text → Dict Value → Option (Dict Value) → Registry → Registry
revised pid given none registry = registry
revised pid given (some d) registry =
    if is_complete (changed given d) then put pid (some (changed given d)) registry else registry

-- the specification of `update_profile`
abbrev pub spec_update : Text → Dict Value → Registry → Registry
spec_update pid given registry = revised pid given (registry pid) registry

-- the specification of `delete_profile`
abbrev pub spec_delete : Text → Bool → Bool → Registry → Registry
spec_delete pid used force registry = if used && not force then registry else put pid none registry

find-append :
    (k : Text) (p : Profile) (profiles : List Profile)
    → view (profiles ++ (p ∷ [])) k ≡ elim (find k profiles) [
      | some q ↦ some q.fields
      | none ↦ if text_eq p.id k then some p.fields else none
    ]
unfolding find
find-append k p [] = ground arith
find-append k p (q ∷ profiles) = ground (arith, find-append k p profiles)

find-replace :
    (k pid : Text) (d : Dict Value) (p : Profile) (profiles : List Profile)
    → find pid profiles ≡ some p
    → view (replace pid d profiles) k ≡ put pid (some d) (view profiles) k
unfolding find replace
find-replace k pid d p [] h = cc
find-replace k pid d p (q ∷ profiles) h = elim (Bool-cases (text_eq q.id pid)) [
  | inl e ↦ ground (arith, text_eq_iff q.id pid, text_eq_iff q.id k, text_eq_iff pid k)
  | inr e ↦ ground (
    arith,
    find-replace k pid d p profiles (rw (find, e) at h),
    text_eq_iff q.id pid,
    text_eq_iff q.id k,
    text_eq_iff pid k,
  )
]

find-drop :
    (k pid : Text) (profiles : List Profile)
    → view (drop_profile pid profiles) k ≡ put pid none (view profiles) k
unfolding find filter
find-drop k pid [] = ground arith
find-drop k pid (q ∷ profiles) =
    ground
      (arith, find-drop k pid profiles, text_eq_iff q.id pid, text_eq_iff q.id k, text_eq_iff pid k)

fresh-none :
    (k pid : Text) (p : Profile) (profiles : List Profile)
    → p.id ≡ pid
    → find pid profiles ≡ none
    → view (profiles ++ (p ∷ [])) k ≡ put pid (some p.fields) (view profiles) k
fresh-none k pid p profiles e h = elim (Bool-cases (text_eq pid k)) [
  | inl f ↦
      find-append k p profiles
      ∙ rw (subst (λ x. find x profiles ≡ none) ((text_eq_iff pid k).0 f) h, e, f) refl
  | inr f ↦ elim (Option-cases (find k profiles)) [
    | inl g ↦ find-append k p profiles ∙ rw (g, e, f) refl
    | inr (q, g) ↦ find-append k p profiles ∙ rw (g, f) refl
  ]
]

-- Adding a profile, saved or refused, does to the registry what its specification says.
add_profile-spec_add :
    (now : Text) (form : Form) (profiles : List Profile) (k : Text)
    → view (kept_or profiles (add_profile now form profiles)) k
      ≡ spec_add now form (view profiles) k
unfolding add_profile add_named profile_of
add_profile-spec_add now form profiles k = elim (Bool-cases (lacks form)) [
  | inl e ↦ rw (add_profile, e) refl
  | inr e ↦
      elim (Result-cases
        (identifier (str (or_else form.pid (slug (or_else form.name form.bucket)))))) [
          | inl (x, f) ↦ rw (add_profile, e, f) refl
          | inr (pid, f) ↦ elim (Option-cases (find pid profiles)) [
            | inl g ↦
                rw (add_profile, e, f, add_named, g)
                  (fresh-none k pid (profile_of now form pid) profiles refl g)
            | inr (p, g) ↦ rw (add_profile, e, f, add_named, g) refl
          ]
        ]
]

update_profile-spec_update :
    (pid : Text) (given : Dict Value) (profiles : List Profile) (k : Text)
    → view (kept_or profiles (update_profile pid given profiles)) k
      ≡ spec_update pid given (view profiles) k
unfolding update_profile
update_profile-spec_update pid given profiles k = elim (Option-cases (find pid profiles)) [
  | inl e ↦ rw (update_profile, e) refl
  | inr (p, e) ↦ elim (Bool-cases (is_complete (changed given p.fields))) [
    | inl f ↦ rw (update_profile, e, f) (find-replace k pid (changed given p.fields) p profiles e)
    | inr f ↦ rw (update_profile, e, f) refl
  ]
]

put-absent :
    (pid k : Text) (profiles : List Profile)
    → find pid profiles ≡ none
    → view profiles k ≡ put pid none (view profiles) k
put-absent pid k profiles h = elim (Bool-cases (text_eq pid k)) [
  | inl e ↦ rw (subst (λ x. find x profiles ≡ none) ((text_eq_iff pid k).0 e) h, e) refl
  | inr e ↦ rw e refl
]

delete_profile-spec_delete :
    (mishaps : Mishaps) (paths : Paths) (pid : Text) (force : Bool) (profiles : List Profile)
    (host : Schedule.Host) (k : Text)
    → view (delete_profile mishaps paths pid force profiles host).0 k
      ≡ spec_delete pid (not (is_nil (dependents mishaps pid host))) force (view profiles) k
unfolding delete_profile
delete_profile-spec_delete mishaps paths pid force profiles host k =
    elim (Bool-cases (not (is_nil (dependents mishaps pid host)) && not force)) [
      | inl e ↦ elim (Option-cases (find pid profiles)) [
        | inl f ↦ rw (delete_profile, f, e) refl
        | inr (p, f) ↦ rw (delete_profile, f, e) refl
      ]
      | inr e ↦ elim (Option-cases (find pid profiles)) [
        | inl f ↦ rw (delete_profile, f, e) (put-absent pid k profiles f)
        | inr (p, f) ↦ rw (delete_profile, f, e) (find-drop k pid profiles)
      ]
    ]

pub data Command : Type 0 where
  adding : Text → Form → Command
  updating : Text → Dict Value → Command
  deleting : Text → Bool → Command

abbrev pub run : Mishaps → Paths → Command → List Profile → Schedule.Host → List Profile
run mishaps paths (adding now form) profiles host = kept_or profiles (add_profile now form profiles)
run mishaps paths (updating pid given) profiles host =
    kept_or profiles (update_profile pid given profiles)
run mishaps paths (deleting pid force) profiles host =
    (delete_profile mishaps paths pid force profiles host).0

abbrev pub spec : Mishaps → Command → Schedule.Host → Registry → Registry
spec mishaps (adding now form) host registry = spec_add now form registry
spec mishaps (updating pid given) host registry = spec_update pid given registry
spec mishaps (deleting pid force) host registry =
    spec_delete pid (not (is_nil (dependents mishaps pid host))) force registry

-- Seen as a map from ids to fields, the list of profiles changes with every command as its
-- specification says: one that adds puts the profile of a form that lacks nothing at an id that is
-- new, one that updates revises the fields at an id where they stay complete, one that deletes drops
-- an id that no schedule uses, as far as the schedules could be listed, or that is forced; each leaves every other id as it was, and one that
-- is refused changes nothing.
pub run-spec :
    (mishaps : Mishaps) (paths : Paths) (command : Command) (profiles : List Profile)
    (host : Schedule.Host) (k : Text)
    → view (run mishaps paths command profiles host) k ≡ spec mishaps command host (view profiles) k
run-spec mishaps paths (adding now form) profiles host k = add_profile-spec_add now form profiles k
run-spec mishaps paths (updating pid given) profiles host k =
    update_profile-spec_update pid given profiles k
run-spec mishaps paths (deleting pid force) profiles host k =
    delete_profile-spec_delete mishaps paths pid force profiles host k
