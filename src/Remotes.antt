-- ===== src/Remotes.antt =====
-- plugin/javahost/core/backup/remote.py: the storage profiles for backups. A profile is an object
-- of remotes.json; that it has an `id`, a text, is what the code that writes it sees to.
pub mod Transfer
mod Secret
pub mod Change
mod Tests
use aa_panel_tomcat_plugin.Prelude.{
  ℕ, Bool, true, false, not, ◌&&◌, ◌||◌, List, [], ◌∷◌, ◌++◌, Option, none, some, Text, codes,
  Result, ok, err, map, filter, any, all, ◌==◌, if◌then◌else◌, is_empty, is_alnum, among, text_eq,
  strip, strip_by, lower, split_on, Dict, find_key, set_key, Value, null, bool, str, truthy,
  text_of, is_nil,
}
use aa_panel_tomcat_plugin.Validate.{identifier}
use aa_panel_tomcat_plugin.Validate
use aa_panel_tomcat_plugin.Schedule.{list_schedules, detach_remote, Paths}
use aa_panel_tomcat_plugin.Schedule

pub record Profile : Type 0 where
  pub id : Text
  pub fields : Dict Value

-- remotes.json, `none` where it cannot be read or has no list, and the older remote.json
pub record Disk : Type 0 where
  pub registry : Option (List Profile)
  pub legacy : Option (Dict Value)

abbrev pub providers : List Text
providers =
    codes "wasabi"
    ∷ codes "minio"
    ∷ codes "backblaze"
    ∷ codes "r2"
    ∷ codes "aws"
    ∷ codes "other"
    ∷ []

abbrev pub required_keys : List Text
required_keys = codes "endpoint" ∷ codes "bucket" ∷ codes "access_key" ∷ codes "secret_key" ∷ []

-- `p.get(key, default)`
abbrev pub field : Text → Value → Dict Value → Value
field key default d = elim (find_key key d) [ none ↦ default | some v ↦ v ]

-- `all(p.get(k) for k in _REQUIRED)`
pub is_complete : Dict Value → Bool
is_complete d = all (λ k. truthy (field k null d)) required_keys

abbrev or_text : Value → Text → Value
or_text v t = if truthy v then v else str t

-- the profile that the older file becomes
pub migrated : Text → Dict Value → Profile
migrated now c = record {
  id = codes "default";
  fields =
      (codes "name", or_text (field (codes "provider") (str (codes "default")) c) (codes "default"))
      ∷ (codes "provider", field (codes "provider") (str (codes "other")) c)
      ∷ (codes "endpoint", field (codes "endpoint") null c)
      ∷ (codes "region", field (codes "region") (str (codes "us-east-1")) c)
      ∷ (codes "bucket", field (codes "bucket") null c)
      ∷ (codes "access_key", field (codes "access_key") null c)
      ∷ (codes "secret_key", field (codes "secret_key") null c)
      ∷ (codes "prefix", field (codes "prefix") (str []) c)
      ∷ (codes "path_style", bool (truthy (field (codes "path_style") (bool true) c)))
      ∷ (codes "enabled", bool true)
      ∷ (codes "created_at", str now)
      ∷ [];
}

abbrev migrate : Text → Option (Dict Value) → List Profile
migrate now none = []
migrate now (some c) = if is_complete c then migrated now c ∷ [] else []

-- `_load`: the profiles, and the disk, on which a migration is saved
pub load : Text → Disk → List Profile × Disk
load now disk = elim disk.registry [
  | some profiles ↦ (profiles, disk)
  | none ↦ (
    migrate now disk.legacy,
    if is_nil (migrate now disk.legacy)
        then disk
        else record disk { registry = some (migrate now disk.legacy) },
  )
]

-- `_find`
pub find : Text → List Profile → Option Profile
find pid [] = none
find pid (p ∷ profiles) = let rest = find pid profiles in if text_eq p.id pid then some p else rest

pub redact : Profile → Dict Value
redact p =
    (codes "id", str p.id)
    ∷ (codes "name", field (codes "name") (str p.id) p.fields)
    ∷ (codes "provider", field (codes "provider") (str (codes "other")) p.fields)
    ∷ (codes "endpoint", field (codes "endpoint") (str []) p.fields)
    ∷ (codes "region", field (codes "region") (str []) p.fields)
    ∷ (codes "bucket", field (codes "bucket") (str []) p.fields)
    ∷ (codes "access_key", field (codes "access_key") (str []) p.fields)
    ∷ (codes "prefix", field (codes "prefix") (str []) p.fields)
    ∷ (codes "path_style", bool (truthy (field (codes "path_style") (bool true) p.fields)))
    ∷ (codes "enabled", bool (truthy (field (codes "enabled") (bool true) p.fields)))
    ∷ (codes "secret_set", bool (truthy (field (codes "secret_key") null p.fields)))
    ∷ (codes "configured", bool (is_complete p.fields))
    ∷ (codes "created_at", field (codes "created_at") null p.fields)
    ∷ []

-- `list_profiles` and `get_profile`, redacted
pub list_profiles : List Profile → List (Dict Value)
list_profiles profiles = map redact profiles

pub get_profile : Text → List Profile → Option (Dict Value)
get_profile pid profiles = elim (find pid profiles) [ none ↦ none | some p ↦ some (redact p) ]

pub is_enabled : Profile → Bool
is_enabled p = truthy (field (codes "enabled") (bool true) p.fields) && is_complete p.fields

pub enabled_ids : List Profile → List Text
enabled_ids profiles = map (λ p. p.id) (filter is_enabled profiles)

pub configured : List Profile → Bool
configured profiles = not (is_nil (enabled_ids profiles))

-- the host of a provider's endpoints, after `https://s3.` and the region
abbrev endpoint_host : Text → Option Text
endpoint_host provider =
    if text_eq provider (codes "wasabi")
    then some (codes ".wasabisys.com")
    else if text_eq provider (codes "aws")
    then some (codes ".amazonaws.com")
    else if text_eq provider (codes "backblaze")
    then some (codes ".backblazeb2.com")
    else none

pub canonical_endpoint : Text → Text → Text
canonical_endpoint provider region = elim (endpoint_host provider) [
  | none ↦ []
  | some host ↦ if is_empty region then [] else codes "https://s3." ++ (region ++ host)
]

abbrev or_else : Text → Text → Text
or_else s t = if is_empty s then t else s

-- `[A-Za-z0-9._-]`
is_slug_char : ℕ → Bool
is_slug_char c = is_alnum c || c == b'.' || c == b'_' || c == b'-'

-- `re.sub("[^A-Za-z0-9._-]+", "-", s)`; the flag says that a dash was just put in
dashed : Bool → Text → Text
dashed put [] = []
dashed put (c ∷ s) =
    let kept = c ∷ dashed false s in
    let replaced = if put then dashed true s else b'-' ∷ dashed true s in
    if is_slug_char c then kept else replaced

pub slug : Text → Text
slug s =
    or_else (strip_by (λ c. c == b'-' || c == b'.' || c == b'_') (dashed false (lower (strip s))))
      (codes "profile")

pub data Error : Type 0 where
  incomplete : Error
  invalid_id : Validate.Error → Error
  duplicate : Text → Error
  no_such_profile : Text → Error

-- the arguments of `add_profile`
pub record Form : Type 0 where
  pub name : Text
  pub provider : Text
  pub endpoint : Text
  pub region : Text
  pub bucket : Text
  pub access_key : Text
  pub secret_key : Text
  pub prefix : Text
  pub path_style : Bool
  pub pid : Text
  pub enabled : Bool

abbrev region_of : Form → Text
region_of form = strip (or_else form.region (codes "us-east-1"))

abbrev endpoint_of : Form → Text
endpoint_of form = or_else (strip form.endpoint) (canonical_endpoint form.provider (region_of form))

abbrev known_provider : Text → Text
known_provider provider = if among provider providers then provider else codes "other"

pub profile_of : Text → Form → Text → Profile
profile_of now form pid = record {
  id = pid;
  fields =
      (codes "name", str (strip (or_else form.name pid)))
      ∷ (codes "provider", str (known_provider form.provider))
      ∷ (codes "endpoint", str (endpoint_of form))
      ∷ (codes "region", str (strip (or_else (region_of form) (codes "us-east-1"))))
      ∷ (codes "bucket", str (strip form.bucket))
      ∷ (codes "access_key", str (strip form.access_key))
      ∷ (codes "secret_key", str form.secret_key)
      ∷ (codes "prefix", str (strip_by (λ c. c == b'/') (strip form.prefix)))
      ∷ (codes "path_style", bool form.path_style)
      ∷ (codes "enabled", bool form.enabled)
      ∷ (codes "created_at", str now)
      ∷ [];
}

abbrev lacks : Form → Bool
lacks form =
    is_empty (endpoint_of form)
    || is_empty (strip form.bucket)
    || is_empty (strip form.access_key)
    || is_empty form.secret_key

pub add_named : Text → Form → Text → List Profile → Result Error (List Profile)
add_named now form pid profiles = elim (find pid profiles) [
  | some p ↦ err (duplicate pid)
  | none ↦ ok (profiles ++ (profile_of now form pid ∷ []))
]

-- `add_profile`: the profiles that are saved
pub add_profile : Text → Form → List Profile → Result Error (List Profile)
add_profile now form profiles =
    if lacks form
    then err incomplete
    else elim (identifier (str (or_else form.pid (slug (or_else form.name form.bucket))))) [
      | err e ↦ err (invalid_id e)
      | ok pid ↦ add_named now form pid profiles
    ]
