-- ===== src/Remotes/Change.antt =====
-- plugin/javahost/core/backup/remote.py: a profile changed and deleted, with the schedules that
-- name it.
pub mod Refine
pub mod Detach
use aa_panel_tomcat_plugin.Prelude.{
  Bool, true, false, not, ◌&&◌, List, [], ◌∷◌, Option, none, some, Text, codes, Result, ok, err,
  map, filter, if◌then◌else◌, among, text_eq, strip, Dict, set_key, find_key, Value, null, bool,
  str, truthy, text_of, is_nil,
}
use aa_panel_tomcat_plugin.Schedule.{list_schedules, detach_remote, Paths}
use aa_panel_tomcat_plugin.Schedule
use aa_panel_tomcat_plugin.Remotes.{
  Profile, Disk, field, is_complete, find, load, providers, Error, incomplete, no_such_profile,
}

abbrev is_given : Text → Dict Value → Bool
is_given key d = elim (field key null d) [ null ↦ false | _ ↦ true ]

-- `p[key] = str(fields[key]).strip()`, where it is given
abbrev copy_text : Dict Value → Text → Dict Value → Dict Value
copy_text given key d =
    if is_given key given then set_key key (str (strip (text_of (field key null given)))) d else d

abbrev copy_flag : Dict Value → Text → Dict Value → Dict Value
copy_flag given key d =
    if is_given key given then set_key key (bool (truthy (field key null given))) d else d

pub copy_texts : Dict Value → List Text → Dict Value → Dict Value
copy_texts given [] d = d
copy_texts given (key ∷ keys) d = copy_texts given keys (copy_text given key d)

abbrev text_keys : List Text
text_keys =
    codes "name"
    ∷ codes "provider"
    ∷ codes "endpoint"
    ∷ codes "region"
    ∷ codes "bucket"
    ∷ codes "access_key"
    ∷ codes "prefix"
    ∷ []

-- whether the value of `p["provider"]` is one of the known texts
abbrev is_known : Value → Bool
is_known (str s) = among s providers
is_known v = false

abbrev mend_provider : Dict Value → Dict Value → Dict Value
mend_provider given d =
    if truthy (field (codes "provider") null given)
      && not (is_known (field (codes "provider") null d))
    then set_key (codes "provider") (str (codes "other")) d
    else d

-- an empty secret keeps the stored one
abbrev copy_secret : Dict Value → Dict Value → Dict Value
copy_secret given d =
    if truthy (field (codes "secret_key") null given)
    then set_key (codes "secret_key") (field (codes "secret_key") null given) d
    else d

pub changed : Dict Value → Dict Value → Dict Value
changed given d = copy_secret given (
    copy_flag given (codes "enabled")
      (copy_flag given (codes "path_style") (mend_provider given (copy_texts given text_keys d))))

-- the profile that `_find` gives, changed in place
pub replace : Text → Dict Value → List Profile → List Profile
replace pid fields [] = []
replace pid fields (p ∷ profiles) =
    let rest = replace pid fields profiles in
    if text_eq p.id pid then record p { fields = fields } ∷ profiles else p ∷ rest

-- `update_profile`
pub update_profile : Text → Dict Value → List Profile → Result Error (List Profile)
update_profile pid given profiles = elim (find pid profiles) [
  | none ↦ err (no_such_profile pid)
  | some p ↦
      if is_complete (changed given p.fields)
      then ok (replace pid (changed given p.fields) profiles)
      else err incomplete
]

-- `_load`, an operation, and `_save` where it does not raise
pub commit : Text → (List Profile → Result Error (List Profile)) → Disk → Disk × Option Error
commit now operation disk =
    let (profiles, loaded) = load now disk in
    elim (operation profiles) [
      | err e ↦ (loaded, some e)
      | ok saved ↦ (record loaded { registry = some saved }, none)
    ]

-- The two exceptions that `delete_profile` does not pass on: whether the schedules could be listed,
-- and what `detach_remote` leaves where it raises.
pub record Mishaps : Type 0 where
  pub readable : Bool
  pub raised : Option Schedule.Host

-- `_dependents`
unfoldable pub dependents : Mishaps → Text → Schedule.Host → List Text
dependents mishaps pid host =
    if mishaps.readable
    then map (λ s. s.0) (filter (λ s. among pid s.2) (list_schedules host))
    else []

pub data Deleted : Type 0 where
  absent : Deleted
  used_by : List Text → Deleted
  deleted : List Text → Deleted

abbrev pub drop_profile : Text → List Profile → List Profile
drop_profile pid profiles = filter (λ p. not (text_eq p.id pid)) profiles

abbrev detached_or_left : Option Schedule.Host → Paths → Text → Schedule.Host → Schedule.Host
detached_or_left none paths pid host = detach_remote paths pid host
detached_or_left (some left) paths pid host = left

abbrev detached : Mishaps → Paths → Text → List Text → Bool → Schedule.Host → Schedule.Host
detached mishaps paths pid apps force host =
    if force && not (is_nil apps) then detached_or_left mishaps.raised paths pid host else host

-- `delete_profile`: the profiles, the schedules and the answer
unfoldable pub delete_profile :
    Mishaps
    → Paths
    → Text
    → Bool
    → List Profile
    → Schedule.Host
    → List Profile × Schedule.Host × Deleted
delete_profile mishaps paths pid force profiles host = elim (find pid profiles) [
  | none ↦ (profiles, host, absent)
  | some p ↦
      if not (is_nil (dependents mishaps pid host)) && not force
      then (profiles, host, used_by (dependents mishaps pid host))
      else (
        drop_profile pid profiles,
        detached mishaps paths pid (dependents mishaps pid host) force host,
        deleted (if force then dependents mishaps pid host else []),
      )
]
