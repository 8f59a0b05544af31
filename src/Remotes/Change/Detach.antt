-- ===== src/Remotes/Change/Detach.antt =====
-- Deleting a profile, and the schedules that name it.
use aa_panel_tomcat_plugin.Prelude.{
  ◌≡◌, ◌≢◌, refl, inl, inr, ◌⊎◌, some, Bool, true, false, not, ◌&&◌, List, [], ◌∷◌, none, Text, All,
  arith, Bool-cases, Option-cases, text_eq_iff, filter, is_nil, map,
}
use aa_panel_tomcat_plugin.Schedule.{Paths, list_schedules, mentions, detach_remote}
use aa_panel_tomcat_plugin.Schedule
use aa_panel_tomcat_plugin.Schedule.Sync.{IsInSync, detach_remote_lem, list_schedules-mentions}
use aa_panel_tomcat_plugin.Remotes.{Profile, find}
use aa_panel_tomcat_plugin.Remotes.Change.{
  Mishaps, dependents, delete_profile, drop_profile, detached, deleted,
}

find-drop_profile :
    (pid : Text) (profiles : List Profile) → find pid (drop_profile pid profiles) ≡ none
unfolding find filter
find-drop_profile pid [] = refl
find-drop_profile pid (p ∷ profiles) = ground (arith, find-drop_profile pid profiles)

find-drop_profile_ne :
    (k pid : Text) (profiles : List Profile)
    → k ≢ pid
    → find k (drop_profile pid profiles) ≡ find k profiles
unfolding find filter
find-drop_profile_ne k pid [] h = refl
find-drop_profile_ne k pid (p ∷ profiles) h =
    ground (arith, find-drop_profile_ne k pid profiles h, text_eq_iff p.id pid, text_eq_iff p.id k)

-- No schedule names the profile, and the managed file shows the schedules.
abbrev pub IsDetached : Paths → Text → Schedule.Host → Type 0
IsDetached paths pid host = All (λ d. mentions pid d ≡ false) host.schedules × IsInSync paths host

unfiltered :
    {A B : Type 0} (f : A → B) (p : A → Bool) (xs : List A)
    → is_nil (map f (filter p xs)) ≡ true
    → All (λ x. p x ≡ false) xs
unfolding filter
unfiltered f p [] h = tt
unfiltered f p (x ∷ xs) h = elim (Bool-cases (p x)) [
  | inl e ↦ cc (rw e at h)
  | inr e ↦ (e, unfiltered f p xs (rw e at h))
]

-- One of the exceptions that are not passed on was raised.
abbrev pub IsMishap : Mishaps → Bool → Type 0
IsMishap mishaps force =
    (mishaps.readable ≡ false)
    ⊎ ((force ≡ true) × ((left : Schedule.Host) × (mishaps.raised ≡ some left)))

no_dependents :
    (mishaps : Mishaps) (pid : Text) (host : Schedule.Host)
    → mishaps.readable ≡ true
    → is_nil (dependents mishaps pid host) ≡ true
    → All (λ d. mentions pid d ≡ false) host.schedules
unfolding dependents
no_dependents mishaps pid host l h =
    list_schedules-mentions pid host
      (unfiltered _ _ (list_schedules host) (rw (l, dependents) at h))

detached-IsDetached :
    (mishaps : Mishaps) (paths : Paths) (pid : Text) (force : Bool) (host : Schedule.Host)
    → IsInSync paths host
    → (not (is_nil (dependents mishaps pid host)) && not force) ≡ false
    → IsDetached paths pid (detached mishaps paths pid (dependents mishaps pid host) force host)
      ⊎ IsMishap mishaps force
detached-IsDetached mishaps paths pid force host sync h = elim (Bool-cases mishaps.readable) [
  | inr l ↦ inr (inl l)
  | inl l ↦ elim (Bool-cases (is_nil (dependents mishaps pid host))) [
    | inl e ↦ inl (rw (detached, e, and_false force) (no_dependents mishaps pid host l e, sync))
    | inr e ↦ elim (Option-cases mishaps.raised) [
      | inl k ↦
          let forced : force ≡ true = ground (arith, e, h) in
          inl (rw (detached, e, forced, k) (detach_remote_lem paths pid host sync))
      | inr (left, k) ↦ inr (inr (ground (arith, e, h), (left, k)))
    ]
  ]
]
  where
    and_false : (b : Bool) → (b && false) ≡ false
    and_false true = refl
    and_false false = refl

-- The profile is gone and the others are as they were; no schedule names it and the managed file
-- shows the schedules, unless one of the exceptions that are not passed on was raised.
abbrev pub IsDropped :
    Mishaps → Paths → Text → Bool → List Profile → List Profile → Schedule.Host → Type 0
IsDropped mishaps paths pid force profiles left after =
    (find pid left ≡ none)
    × ((k : Text) → k ≢ pid → find k left ≡ find k profiles)
    × (IsDetached paths pid after ⊎ IsMishap mishaps force)

-- Where `delete_profile` says that it removed a profile and the managed cron file showed the
-- schedules before: the profile is gone and every other one is as it was. No schedule names it any
-- more, whether the deletion was forced or not, and the managed file still shows the schedules,
-- unless the schedules could not be listed, or the deletion was forced and `detach_remote` raises.
pub delete_profile-IsDetached :
    (mishaps : Mishaps) (paths : Paths) (pid : Text) (force : Bool) (profiles : List Profile)
    (host : Schedule.Host) (apps : List Text)
    → IsInSync paths host
    → (delete_profile mishaps paths pid force profiles host).2 ≡ deleted apps
    → IsDropped mishaps paths pid force profiles
        (delete_profile mishaps paths pid force profiles host).0
        (delete_profile mishaps paths pid force profiles host).1
unfolding delete_profile
delete_profile-IsDetached mishaps paths pid force profiles host apps sync h =
    elim (Option-cases (find pid profiles)) [
      | inl f ↦ cc (rw (delete_profile, f) at h)
      | inr (p, f) ↦ elim (Bool-cases (not (is_nil (dependents mishaps pid host)) && not force)) [
        | inl e ↦ cc (rw (delete_profile, f, e) at h)
        | inr e ↦
            rw (delete_profile, f, e)
              (
                find-drop_profile pid profiles,
                (λ k l. find-drop_profile_ne k pid profiles l),
                detached-IsDetached mishaps paths pid force host sync e,
              )
      ]
    ]
