-- ===== src/Schedule.antt =====
-- plugin/javahost/core/backup/schedule.py: scheduled backups. The host is what schedules.json holds,
-- whether there is an /etc/cron.d, and the managed file in it.
mod Cron
pub mod Sync
mod Tests
use aa_panel_tomcat_plugin.Prelude.{
  text_leb, ℕ, Bool, true, false, not, ◌&&◌, ◌||◌, List, [], ◌∷◌, ◌++◌, Option, none, some, Text,
  codes, Result, ok, err, length, map, filter, all, any, ltb, leb, ◌==◌, if◌then◌else◌, is_empty,
  is_digit, among, text_eq, strip, words, join, split_on, sort_by, decimal, ℤ, pos, clip, Value,
  str,
}
use aa_panel_tomcat_plugin.Validate.{identifier}
use aa_panel_tomcat_plugin.Validate

-- `[0-9*/,\-]`
pub is_cron_char : ℕ → Bool
is_cron_char c = is_digit c || c == b'*' || c == b'/' || c == b',' || c == b'-'

-- `_CRON_FIELD.match` of a field, which has no white space for the `$` to pass over.
pub is_cron_field : Text → Bool
is_cron_field f = not (is_empty f) && all is_cron_char f

pub data Error : Type 0 where
  invalid_cron : Text → Error
  invalid_app : Validate.Error → Error

pub validate_cron : Text → Result Error Text
validate_cron expr =
    let fields = words (strip expr) in
    if (length fields == 5) && all is_cron_field fields
    then ok (join (codes " ") fields)
    else err (invalid_cron (strip expr))

-- An entry of schedules.json: `remotes` may be missing, as in the legacy form with `remote`.
pub record Entry : Type 0 where
  pub cron : Text
  pub remotes : Option (List Text)
  pub remote : Bool
  pub keep : ℕ

-- a dict in the order of insertion
abbrev pub Schedules : Type 0
Schedules = List (Text × Entry)

abbrev pub has_app : Text → Schedules → Bool
has_app app [] = false
has_app app ((a, e) ∷ table) = text_eq a app || has_app app table

-- `data[app] = entry`, `data.get(app)` and `del data[app]`
pub assign : Text → Entry → Schedules → Schedules
assign app entry [] = (app, entry) ∷ []
assign app entry ((a, e) ∷ table) =
    let rest = assign app entry table in if text_eq a app then (a, entry) ∷ table else (a, e) ∷ rest

pub find_app : Text → Schedules → Option Entry
find_app app [] = none
find_app app ((a, e) ∷ table) =
    let rest = find_app app table in if text_eq a app then some e else rest

pub delete : Text → Schedules → Schedules
delete app table = filter (λ d. not (text_eq d.0 app)) table

abbrev norm_with : Bool → Option (List Text) → List Text
norm_with remote (some r) = r
norm_with remote none = if remote then codes "all" ∷ [] else []

pub norm_remotes : Entry → List Text
norm_remotes s = norm_with s.remote s.remotes

pub record Paths : Type 0 where
  pub python : Text
  pub runner : Text
  pub cron_log : Text

remotes_flag : List Text → Text
remotes_flag [] = []
remotes_flag (r ∷ rs) = codes " --remotes " ++ join (codes ",") (r ∷ rs)

keep_flag : ℕ → Text
keep_flag keep = if ltb 0 keep then codes " --keep " ++ decimal keep else []

line_of : Paths → Text × Entry → Text
line_of paths (app, s) =
    s.cron
    ++ codes " root "
    ++ paths.python
    ++ codes " "
    ++ paths.runner
    ++ codes " --app "
    ++ app
    ++ remotes_flag (norm_remotes s)
    ++ keep_flag s.keep
    ++ codes " >> "
    ++ paths.cron_log
    ++ codes " 2>&1"

abbrev heading : List Text
heading =
    codes "# Managed by JavaHost — scheduled app backups. Do not edit by hand."
    ∷ codes "SHELL=/bin/sh"
    ∷ codes "PATH=/usr/local/sbin:/usr/local/bin:/usr/sbin:/usr/bin:/sbin:/bin"
    ∷ []
    ∷ []

pub render_cron : Paths → Schedules → Text
render_cron paths table =
    join (codes "\n") (heading ++ map (line_of paths) (sort_by (λ a b. text_leb a.0 b.0) table))
    ++ codes "\n"

pub record Host : Type 0 where
  pub schedules : Schedules
  pub cron_dir : Bool
  pub cron_file : Option Text

-- what the managed file is to hold
unfoldable pub wanted : Paths → Schedules → Option Text
wanted paths [] = none
wanted paths (d ∷ table) = some (render_cron paths (d ∷ table))

-- `_write` and then `_regenerate`
pub store : Paths → Schedules → Host → Host
store paths table host = record host {
  schedules = table;
  cron_file = if host.cron_dir then wanted paths table else host.cron_file;
}

-- `list_schedules`: the application, its expression, its destinations and the number to keep
unfoldable pub list_schedules : Host → List (Text × Text × List Text × ℕ)
list_schedules host =
    map (λ d. (d.0, d.1.cron, norm_remotes d.1, d.1.keep))
      (sort_by (λ a b. text_leb a.0 b.0) host.schedules)

-- `[x.strip() for x in remotes.split(",") if x.strip()]`
pub split_remotes : Text → List Text
split_remotes s = filter (λ x. not (is_empty x)) (map strip (split_on b',' s))

pub set_schedule : Paths → Value → Text → Text → ℤ → Host → Result Error (Host × Text)
set_schedule paths app expr remotes keep host = elim (identifier app) [
  | err e ↦ err (invalid_app e)
  | ok name ↦ elim (validate_cron expr) [
    | err e ↦ err e
    | ok cron ↦ ok (
      store paths
          (assign name
            (record {
              cron = cron;
              remotes = some (split_remotes remotes);
              remote = false;
              keep = clip keep;
            })
            host.schedules)
          host,
      name,
    )
  ]
]

abbrev detach_from : Text → Option (List Text) → Option (List Text)
detach_from pid none = none
detach_from pid (some r) = some (filter (λ x. not (text_eq x pid)) r)

abbrev mentions_in : Text → Option (List Text) → Bool
mentions_in pid none = false
mentions_in pid (some r) = among pid r

detach_entry : Text → Text × Entry → Text × Entry
detach_entry pid (app, s) =
    (app, if mentions_in pid s.remotes then record s { remotes = detach_from pid s.remotes } else s)

pub mentions : Text → Text × Entry → Bool
mentions pid (app, s) = mentions_in pid s.remotes

pub detach_remote : Paths → Text → Host → Host
detach_remote paths pid host =
    if any (mentions pid) host.schedules
    then store paths (map (detach_entry pid) host.schedules) host
    else host

pub remove_schedule : Paths → Value → Host → Result Error (Host × Bool)
remove_schedule paths app host = elim (identifier app) [
  | err e ↦ err (invalid_app e)
  | ok name ↦
      if has_app name host.schedules
      then ok (store paths (delete name host.schedules) host, true)
      else ok (host, false)
]
