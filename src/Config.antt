-- ===== src/Config.antt =====
-- plugin/javahost/core/config.py: the settings of config.json, behind a cache that is keyed by the
-- file's time and size. A setting is a scalar, as the panel writes it.
mod Cached
mod Bounds
mod Tests
use aa_panel_tomcat_plugin.Prelude.{
  ℕ, ◌≡◌, Bool, true, false, not, ◌&&◌, ◌||◌, List, [], ◌∷◌, Option, none, some, Text, codes, Value,
  null, bool, int, str, truthy, text_of, int_of, int_of_text, is_digit, all, is_empty, strip,
  strip_by, lower, among, text_eq, ◌==◌, if◌then◌else◌, ℤ, pos, negsuc, clip, max, Dict, find_key,
  update_keys,
}

-- `(st.st_mtime_ns, st.st_size)`
abbrev pub Stamp : Type 0
Stamp = ℕ × ℕ

-- config.json on the disk: its stamp, and what it parses to, with `{}` for what is no object.
pub record File : Type 0 where
  pub stamp : Stamp
  pub content : Dict Value

-- The state: the file, if there is one, and `_CACHE`.
pub record Store : Type 0 where
  pub file : Option File
  pub cache : Option (Stamp × Dict Value)

pub stamp_eq : Stamp → Stamp → Bool
stamp_eq (m, s) (n, t) = m == n && s == t

-- parsing the file, which fills the cache
abbrev reread : File → Dict Value × Store
reread file = (file.content, record { file = some file; cache = some (file.stamp, file.content) })

load_file : File → Option (Stamp × Dict Value) → Dict Value × Store
load_file file none = reread file
load_file file (some (key, entries)) =
    if stamp_eq key file.stamp
    then (entries, record { file = some file; cache = some (key, entries) })
    else reread file

-- `_load`
pub load : Store → Dict Value × Store
load store = elim store.file [
  | none ↦ ([], record { file = none; cache = none })
  | some file ↦ load_file file store.cache
]

abbrev pub defaults : Dict Value
defaults =
    (codes "manage_hardening", bool true)
    ∷ (codes "log_rotate_enabled", bool true)
    ∷ (codes "log_rotate_when", str (codes "daily"))
    ∷ (codes "log_rotate_keep", int (pos 7))
    ∷ (codes "log_rotate_max_mb", int (pos 50))
    ∷ (codes "log_purge_days", int (pos 30))
    ∷ []

abbrev pub or_else : Option Value → Value → Value
or_else none v = v
or_else (some w) v = w

-- `if default is None: default = _DEFAULTS.get(key)`
pub default_for : Text → Value → Value
default_for key null = or_else (find_key key defaults) null
default_for key v = v

pub get : Text → Value → Store → Value
get key default store = or_else (find_key key (load store).0) (default_for key default)

abbrev content_of : Option File → Dict Value
content_of none = []
content_of (some file) = file.content

-- `update`, with the stamp that the new file gets
pub update : Dict Value → Stamp → Store → Store
update changes stamp store = record {
  file = some (record { stamp = stamp; content = update_keys changes (content_of store.file) });
  cache = none;
}

pub set : Text → Value → Stamp → Store → Store
set key value stamp store = update ((key, value) ∷ []) stamp store

-- `_as_bool`
pub as_bool : Value → Bool → Bool
as_bool (bool b) default = b
as_bool null default = default
as_bool v default =
    among (lower (strip (text_of v))) (codes "1" ∷ codes "true" ∷ codes "yes" ∷ codes "on" ∷ [])

pub log_rotate_enabled : Store → Bool
log_rotate_enabled store = as_bool (get (codes "log_rotate_enabled") (bool true) store) true

-- `get(key, default) or default`
abbrev or_value : Value → Value → Value
or_value v default = if truthy v then v else default

abbrev known_when : Text → Text
known_when v =
    if among v (codes "daily" ∷ codes "weekly" ∷ codes "monthly" ∷ []) then v else codes "daily"

pub log_rotate_when : Store → Text
log_rotate_when store = known_when (
    lower (
      strip (
        text_of (
          or_value (get (codes "log_rotate_when") (str (codes "daily")) store)
            (str (codes "daily"))))))

-- `max(lo, int(...))`, with the default where that raises
at_least : ℕ → ℕ → Option ℤ → ℕ
at_least lo default none = default
at_least lo default (some z) = max lo (clip z)

number_setting : Text → ℕ → ℕ → Store → ℕ
number_setting key lo default store =
    at_least lo default (int_of (or_value (get key (int (pos default)) store) (int (pos default))))

pub log_rotate_keep : Store → ℕ
log_rotate_keep store = number_setting (codes "log_rotate_keep") 0 7 store

pub log_rotate_max_mb : Store → ℕ
log_rotate_max_mb store = number_setting (codes "log_rotate_max_mb") 1 50 store

pub log_purge_days : Store → ℕ
log_purge_days store = number_setting (codes "log_purge_days") 0 30 store

-- `get("aapanel_api_key", None)`, where the setting is not falsy
pub aapanel_api_key : Store → Option Text
aapanel_api_key store =
    let v = get (codes "aapanel_api_key") null store in if truthy v then some (text_of v) else none

-- the port in the panel's port.pl, `none` where it cannot be read
abbrev port_of_file : Option Text → ℕ → ℤ
port_of_file none default = pos default
port_of_file (some body) default =
    let digits = strip body in
    if not (is_empty digits) && all is_digit digits
    then elim (int_of_text digits) [ none ↦ pos default | some z ↦ z ]
    else pos default

abbrev configured_port : Value → Option ℤ
configured_port v = if is_empty (strip (text_of v)) then none else int_of v

abbrev port_setting : Value → Option ℤ
port_setting null = none
port_setting v = configured_port v

pub aapanel_port : Option Text → ℕ → Store → ℤ
aapanel_port file default store = elim (port_setting (get (codes "aapanel_port") null store)) [
  | none ↦ port_of_file file default
  | some z ↦ z
]

-- `str(val).strip().strip(".") if val else ""`
pub site_suffix : Store → Text
site_suffix store =
    let v = get (codes "site_suffix") (str []) store in
    if truthy v then strip_by (λ c. c == b'.') (strip (text_of v)) else []

-- the version of info.json, `none` where it cannot be read
pub plugin_version : Option Value → Text
plugin_version none = codes "unknown"
plugin_version (some v) = if truthy v then strip (text_of v) else codes "unknown"
