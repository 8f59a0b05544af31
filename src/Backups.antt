-- ===== src/Backups.antt =====
-- plugin/javahost/core/backup/store.py: the local backups, their names, their listing, deletion and
-- retention. `root` is the real path of the directory of the backups, `locked` says that a
-- backup cannot be removed; the sidecar files, which only save reading an archive, are left out.
pub mod Keep
mod Names
pub mod Restore
mod Tests
use aa_panel_tomcat_plugin.Prelude.{
  ℕ, ◌-◌, Bool, true, false, not, ◌&&◌, ◌||◌, List, [], ◌∷◌, ◌++◌, Option, none, some, Text, codes,
  Result, ok, err, map, filter, all, any, ◌==◌, leb, if◌then◌else◌, is_empty, is_digit, is_alnum,
  among, text_eq, text_leb, sort_by, starts_with, strip, split_on, take, drop, length, ℤ, clip,
  Value,
}
use aa_panel_tomcat_plugin.Validate.{identifier}
use aa_panel_tomcat_plugin.Validate

-- `[A-Za-z0-9._-]`
pub is_app_char : ℕ → Bool
is_app_char c = is_alnum c || c == b'.' || c == b'_' || c == b'-'

-- the text less the newline at which `$` may hold
pub less_newline : Text → Text
less_newline [] = []
less_newline (c ∷ []) = if c == 10 then [] else c ∷ []
less_newline (c ∷ d ∷ s) = c ∷ less_newline (d ∷ s)

-- `T\d{6}Z\.tar\.gz`
pub is_time : Text → Bool
is_time s =
    starts_with (codes "T") s
    && all is_digit (take 6 (drop 1 s))
    && text_eq (drop 7 s) (codes "Z.tar.gz")

-- `\d{8}` and that
pub is_day : Text → Bool
is_day s = (length (take 8 s) == 8) && all is_digit (take 8 s) && is_time (drop 8 s)

pub is_stamp : Text → Bool
is_stamp s = starts_with (codes "-") s && is_day (drop 1 s)

-- `[A-Za-z0-9._-]+` and the stamp, which has a fixed length
pub app_and_stamp : Text → Option Text
app_and_stamp s =
    let app = take (length s - 24) s in
    if not (is_empty app) && all is_app_char app && is_stamp (drop (length s - 24) s)
    then some app
    else none

-- `_app_from_name`; `_NAME_RE` is the same pattern
pub app_from_name : Text → Option Text
app_from_name name =
    if starts_with (codes "backup-") (less_newline name)
    then app_and_stamp (drop 7 (less_newline name))
    else none

abbrev pub is_backup_name : Text → Bool
is_backup_name name = elim (app_from_name name) [ none ↦ false | some app ↦ true ]

pub data Error : Type 0 where
  invalid_name : Text → Error
  escapes : Text → Error
  not_removed : Text → Error
  invalid_app : Validate.Error → Error

-- A file of the directory, with the `app` of its manifest.
pub record Backup : Type 0 where
  pub name : Text
  pub app : Option Text

-- `man.get("app") or _app_from_name(name)`
pub entry_app : Backup → Option Text
entry_app b = elim b.app [
  | none ↦ app_from_name b.name
  | some a ↦ if is_empty a then app_from_name b.name else some a
]

-- whether `list_backups(app)` lists a file
pub is_listed : Text → Backup → Bool
is_listed app b =
    is_backup_name b.name && elim (entry_app b) [ none ↦ false | some a ↦ text_eq a app ]

abbrev newer_first : Text → Text → Bool
newer_first s t = text_leb t s

-- the names that `prune_backups` sorts, the newest first
pub local_names : Text → List Backup → List Text
local_names app files = sort_by newer_first (map (λ b. b.name) (filter (is_listed app) files))

module _ (realpath : Text → Text) (root : Text) (locked : Text → Bool) where
  abbrev pub path_of : Text → Text
  path_of name = realpath (root ++ (codes "/" ++ name))

  -- `_backup_path`
  pub backup_path : Text → Result Error Text
  backup_path name =
      if not (is_backup_name name)
      then err (invalid_name name)
      else if text_eq (path_of name) root || starts_with (root ++ codes "/") (path_of name)
      then ok (path_of name)
      else err (escapes name)

  pub unlink : Text → Text → List Backup → List Backup × Result Error Bool
  unlink name path files =
      if not (any (λ b. text_eq (path_of b.name) path) files)
      then (files, ok false)
      else if locked name
      then (files, err (not_removed name))
      else (filter (λ b. not (text_eq (path_of b.name) path)) files, ok true)

  -- `delete_backup(name, ["local"])`
  pub delete_local : Text → List Backup → List Backup × Result Error Bool
  delete_local name files = elim (backup_path name) [
    | err e ↦ (files, err e)
    | ok path ↦ unlink name path files
  ]

  abbrev told : Text → Result Error Bool → List Text → List Text
  told name (err e) removed = removed
  told name (ok b) removed = name ∷ removed

  -- the loop of `prune_backups` over the names that are too many
  pub remove_all : List Text → List Backup → List Backup × List Text
  remove_all [] files = (files, [])
  remove_all (name ∷ names) files =
      let now = delete_local name files in
      let rest = remove_all names now.0 in (rest.0, told name now.1 rest.1)

  pub surplus : ℕ → Text → List Backup → List Text
  surplus keep app files = drop keep (local_names app files)

  abbrev pruned : Text → ℤ → List Backup → List Backup × List Text
  pruned app keep files = remove_all (surplus (clip keep) app files) files

  -- `prune_backups`, of the local backups
  pub prune_local : Value → ℤ → List Backup → Result Error (List Backup × List Text)
  prune_local app keep files = elim (identifier app) [
    | err e ↦ err (invalid_app e)
    | ok name ↦ ok (pruned name keep files)
  ]
