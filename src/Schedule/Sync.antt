-- ===== src/Schedule/Sync.antt =====
-- The schedules after each operation, and that the managed cron file always shows them.
use aa_panel_tomcat_plugin.Prelude.{
  text_leb, All-of_Elem, All-of_map, All_at, sort_by-Elem, ℕ, ◌≡◌, ◌≢◌, refl, inl, inr, Bool, true,
  false, not, List, [], ◌∷◌, Option, none, some, Text, ok, All, arith, map, filter, any, among,
  text_eq, text_eq_iff, text_eq_refl, Bool-cases, Result-cases, if◌then◌else◌, ℤ, clip, Value,
  ok_eq, sym, subst,
}
use aa_panel_tomcat_plugin.Validate.{identifier}
use aa_panel_tomcat_plugin.Schedule.{
  Entry, Schedules, has_app, assign, find_app, delete, Paths, Host, wanted, store, split_remotes,
  set_schedule, detach_entry, mentions, mentions_in, detach_from, detach_remote, remove_schedule,
  validate_cron, norm_with, norm_remotes, list_schedules,
}

-- Where there is an /etc/cron.d, the managed file is the rendering of the schedules, or missing where
-- there are none.
abbrev pub IsInSync : Paths → Host → Type 0
IsInSync paths host = host.cron_dir ≡ true → host.cron_file ≡ wanted paths host.schedules

store-IsInSync :
    (paths : Paths) (table : Schedules) (host : Host) → IsInSync paths (store paths table host)
unfolding store
store-IsInSync paths table host h = ground arith

find_app-assign :
    (app : Text) (e : Entry) (table : Schedules) → find_app app (assign app e table) ≡ some e
unfolding find_app assign
find_app-assign app e [] = rw (text_eq_refl app) refl
find_app-assign app e ((a, s) ∷ table) = ground (arith, find_app-assign app e table)

find_app-assign_other :
    (b app : Text) (e : Entry) (table : Schedules)
    → b ≢ app
    → find_app b (assign app e table) ≡ find_app b table
unfolding find_app assign
find_app-assign_other b app e [] h = ground (arith, text_eq_iff app b)
find_app-assign_other b app e ((a, s) ∷ table) h =
    ground (arith, find_app-assign_other b app e table h, text_eq_iff a app, text_eq_iff a b)

find_app-delete : (app : Text) (table : Schedules) → find_app app (delete app table) ≡ none
unfolding find_app delete filter
find_app-delete app [] = refl
find_app-delete app ((a, s) ∷ table) = ground (arith, find_app-delete app table)

find_app-delete_other :
    (b app : Text) (table : Schedules) → b ≢ app → find_app b (delete app table) ≡ find_app b table
unfolding find_app delete filter
find_app-delete_other b app [] h = refl
find_app-delete_other b app ((a, s) ∷ table) h =
    ground (arith, find_app-delete_other b app table h, text_eq_iff a app, text_eq_iff a b)

among-filter :
    (pid : Text) (r : List Text) → among pid (filter (λ x. not (text_eq x pid)) r) ≡ false
unfolding among any filter
among-filter pid [] = refl
among-filter pid (x ∷ r) = ground (arith, among-filter pid r, text_eq_iff x pid, text_eq_iff pid x)

detached : (pid : Text) (o : Option (List Text)) → mentions_in pid (detach_from pid o) ≡ false
detached pid none = refl
detached pid (some r) = among-filter pid r

detach_entry-detached :
    (pid app : Text) (s : Entry) (b : Bool)
    → mentions_in pid s.remotes ≡ b
    → mentions_in pid (if b then record s { remotes = detach_from pid s.remotes } else s).remotes
      ≡ false
detach_entry-detached pid app s true h = detached pid s.remotes
detach_entry-detached pid app s false h = h

map-detached :
    (pid : Text) (table : Schedules)
    → All (λ d. mentions pid d ≡ false) (map (detach_entry pid) table)
unfolding mentions detach_entry
map-detached pid [] = tt
map-detached pid ((a, s) ∷ table) =
    (detach_entry-detached pid a s (mentions_in pid s.remotes) refl, map-detached pid table)

none-mentions :
    (pid : Text) (table : Schedules)
    → any (mentions pid) table ≡ false
    → All (λ d. mentions pid d ≡ false) table
unfolding any
none-mentions pid [] h = tt
none-mentions pid (d ∷ table) h = (ground arith, none-mentions pid table (ground arith))

-- After a profile is detached no schedule names it, and a managed file that showed the schedules
-- still does.
pub detach_remote_lem :
    (paths : Paths) (pid : Text) (host : Host)
    → IsInSync paths host
    → All (λ d. mentions pid d ≡ false) (detach_remote paths pid host).schedules
      × IsInSync paths (detach_remote paths pid host)
unfolding detach_remote store
detach_remote_lem paths pid host sync = elim (Bool-cases (any (mentions pid) host.schedules)) [
  | inl e ↦ rw (e, detach_remote) (map-detached pid host.schedules, store-IsInSync paths _ host)
  | inr e ↦ rw (e, detach_remote) (none-mentions pid host.schedules e, sync)
]

-- The name is the application's, the schedule is as it was given, with the number of backups to keep no less than 0 and the blanks
-- around its destinations dropped; every other schedule is as before, and the managed file is in step.
abbrev pub IsScheduled : Paths → Value → Text → Text → ℤ → Host → Host → Text → Type 0
IsScheduled paths app expr remotes keep host host' name =
    (identifier app ≡ ok name)
    × ((cron : Text) × (validate_cron expr ≡ ok cron)
        × (find_app name host'.schedules
            ≡ some (record {
              cron = cron;
              remotes = some (split_remotes remotes);
              remote = false;
              keep = clip keep;
            })))
    × ((b : Text) → b ≢ name → find_app b host'.schedules ≡ find_app b host.schedules)
    × IsInSync paths host'

abbrev Scheduled : Paths → Value → Text → Text → ℤ → Host → Host × Text → Type 0
Scheduled paths app expr remotes keep host (host', name) =
    IsScheduled paths app expr remotes keep host host' name

stored-IsScheduled :
    (paths : Paths) (app : Value) (expr remotes : Text) (keep : ℤ) (host : Host) (name cron : Text)
    → identifier app ≡ ok name
    → validate_cron expr ≡ ok cron
    → Scheduled paths app expr remotes keep host (
      store paths
          (assign name
            (record {
              cron = cron;
              remotes = some (split_remotes remotes);
              remote = false;
              keep = clip keep;
            })
            host.schedules)
          host,
      name,
    )
unfolding store
stored-IsScheduled paths app expr remotes keep host name cron i h = (
  i,
  (cron, h, find_app-assign name _ host.schedules),
  (λ b k. find_app-assign_other b name _ host.schedules k),
  store-IsInSync paths _ host,
)

-- Where `set_schedule` returns, the name that it returns is the given application's as
-- `validate.identifier` has it, and under that name a schedule is found with the validated
-- expression, the destinations without blanks and the number to keep, at least 0; every other
-- schedule is as before, and the managed file shows the schedules.
pub set_schedule-IsScheduled :
    (paths : Paths) (app : Value) (expr remotes : Text) (keep : ℤ) (host : Host) (host' : Host)
    (name : Text)
    → set_schedule paths app expr remotes keep host ≡ ok (host', name)
    → IsScheduled paths app expr remotes keep host host' name
unfolding set_schedule
set_schedule-IsScheduled paths app expr remotes keep host host' name h =
    elim (Result-cases (identifier app)) [
      | inl (x, e) ↦ ground arith
      | inr (n, e) ↦ elim (Result-cases (validate_cron expr)) [
        | inl (x, f) ↦ ground arith
        | inr (cron, f) ↦
            subst (Scheduled paths app expr remotes keep host)
              (sym (ok_eq (rw (e, f, set_schedule) at h)))
              (stored-IsScheduled paths app expr remotes keep host n cron e f)
      ]
    ]

absent-find_app :
    (app : Text) (table : Schedules) → has_app app table ≡ false → find_app app table ≡ none
unfolding find_app
absent-find_app app [] h = refl
absent-find_app app ((a, s) ∷ table) h = ground (arith, absent-find_app app table)

-- The application has no schedule any more, every other one is as before, the flag says whether it
-- had one, and the managed file is in step.
abbrev pub IsRemoved : Paths → Text → Host → Host → Bool → Type 0
IsRemoved paths name host host' existed =
    (find_app name host'.schedules ≡ none)
    × ((b : Text) → b ≢ name → find_app b host'.schedules ≡ find_app b host.schedules)
    × (existed ≡ has_app name host.schedules)
    × IsInSync paths host'

abbrev Removed : Paths → Text → Host → Host × Bool → Type 0
Removed paths name host (host', existed) = IsRemoved paths name host host' existed

-- Where the managed file shows the schedules and `remove_schedule` returns, the application has no
-- schedule any more, every other one is as before, the flag says whether it had one, and the managed
-- file still shows the schedules.
pub remove_schedule-IsRemoved :
    (paths : Paths) (app : Value) (name : Text) (host : Host) (host' : Host) (existed : Bool)
    → IsInSync paths host
    → identifier app ≡ ok name
    → remove_schedule paths app host ≡ ok (host', existed)
    → IsRemoved paths name host host' existed
unfolding remove_schedule store
remove_schedule-IsRemoved paths app name host host' existed sync e h =
    elim (Bool-cases (has_app name host.schedules)) [
      | inl k ↦ subst (Removed paths name host) (sym (ok_eq (rw (e, k, remove_schedule) at h))) (
        find_app-delete name host.schedules,
        (λ b l. find_app-delete_other b name host.schedules l),
        sym k,
        store-IsInSync paths _ host,
      )
      | inr k ↦
          subst (Removed paths name host) (sym (ok_eq (rw (e, k, remove_schedule) at h)))
            (absent-find_app name host.schedules k, (λ b l. refl), sym k, sync)
    ]

-- A schedule that names a profile is listed with it.
mentions-norm :
    (pid : Text) (remote : Bool) (o : Option (List Text))
    → mentions_in pid o ≡ true
    → among pid (norm_with remote o) ≡ true
mentions-norm pid remote none h = cc
mentions-norm pid remote (some r) h = h

abbrev NotIn : Text → Text × Text × List Text × ℕ → Type 0
NotIn pid s = among pid s.2 ≡ false

listed-mentions :
    (pid : Text) (d : Text × Entry) → among pid (norm_remotes d.1) ≡ false → mentions pid d ≡ false
unfolding mentions norm_remotes
listed-mentions pid (app, s) h = elim (Bool-cases (mentions_in pid s.remotes)) [
  | inl e ↦ cc (h, mentions-norm pid s.remote s.remotes e)
  | inr e ↦ e
]

-- Where no listed schedule has a profile, none names it.
pub list_schedules-mentions :
    (pid : Text) (host : Host)
    → All (NotIn pid) (list_schedules host)
    → All (λ d. mentions pid d ≡ false) host.schedules
unfolding list_schedules mentions norm_remotes
list_schedules-mentions pid host h = All-of_Elem _ host.schedules (λ d m. listed-mentions pid d (
    All_at _ d _ (All-of_map (NotIn pid) _ _ h)
      (sort_by-Elem (λ a b. text_leb a.0 b.0) d host.schedules m)))
