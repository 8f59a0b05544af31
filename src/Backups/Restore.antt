-- ===== src/Backups/Restore.antt =====
-- plugin/javahost/core/backup/store.py: `restore`, step by step. The instances are a dict of what
-- each holds and whether the modes of its secrets are strict; how each call ends is a circumstance.
mod Scope
mod Done
pub mod Guarded
mod Tests
use aa_panel_tomcat_plugin.Prelude.{
  ℕ, Bool, true, false, not, ◌&&◌, ◌||◌, List, [], ◌∷◌, Option, none, some, Text, codes, Result, ok,
  err, if◌then◌else◌, is_empty, is_some, text_eq, filter, Dict, find_key, set_key, drop_key, Value,
  null, str, truthy,
}
use aa_panel_tomcat_plugin.Validate.{identifier, domain}
use aa_panel_tomcat_plugin.Validate

pub record Instance : Type 0 where
  pub payload : Text
  pub secured : Bool

pub record Host : Type 0 where
  pub instances : Dict Instance
  pub units : List Text

-- An archive: `manifest` has its `app`, `payload` is what `base/` holds, if it is there.
pub record Archive : Type 0 where
  pub manifest : Option Value
  pub extracts : Bool
  pub payload : Option Text

-- Whether each call succeeds. `deletes` is the removal of the old instance by `instance.delete`,
-- which may raise, keep the tree or remove it; `secures_moved` and `secures_rebuilt` are the two checks
-- of the restored secrets, and `rebuilds` is all between them: the port, the owner and the unit.
-- `rewritten` is what that step makes of a tree, where it succeeds and where it raises: it writes the
-- port, drops the markers of the old site and writes setenv.
pub data Deletion : Type 0 where
  raises keeps removes : Deletion

pub record World : Type 0 where
  pub secures_staging : Bool
  pub removes_unit : Bool
  pub deletes : Deletion
  pub removes_tree : Bool
  pub moves : Bool
  pub secures_moved : Bool
  pub rebuilds : Bool
  pub rewritten : Bool → Text → Text
  pub secures_rebuilt : Bool
  pub starts : Bool

pub data Failure : Type 0 where
  not_found no_manifest : Failure
  invalid : Validate.Error → Failure
  already_exists : Text → Failure
  not_extracted no_payload insecure : Failure
  unit_not_removed not_deleted tree_not_removed not_moved : Failure
  discarded rollback_incomplete not_rebuilt not_started : Failure

abbrev without_unit : Text → Host → Host
without_unit target host = record host { units = filter (λ u. not (text_eq u target)) host.units }

abbrev without_instance : Text → Host → Host
without_instance target host = record host { instances = drop_key target host.instances }

abbrev deleted : Deletion → Text → Host → Host × Option Failure
deleted raises target host = (host, some not_deleted)
deleted keeps target host = (host, none)
deleted removes target host = (without_instance target host, none)

-- the instance of that name altered, if there is one
pub altered : Text → (Instance → Instance) → Host → Host
altered target f host = elim (find_key target host.instances) [
  | none ↦ host
  | some i ↦ record host { instances = set_key target (f i) host.instances }
]

module _ (world : World) where
  -- the old application is stopped and deleted, where there is one and it is to be overwritten
  pub clear_old : Bool → Text → Host → Host × Option Failure
  clear_old new_mode target host =
      if new_mode || not (is_some (find_key target host.instances))
      then (host, none)
      else if not world.removes_unit
      then (host, some unit_not_removed)
      else deleted world.deletes target (without_unit target host)

  -- `fs.safe_rmtree(base)`, where it is a directory
  pub clear_tree : Text → Host → Host × Option Failure
  clear_tree target host =
      if not (is_some (find_key target host.instances))
      then (host, none)
      else if world.removes_tree
      then (without_instance target host, none)
      else (host, some tree_not_removed)

  pub move_in : Text → Text → Host → Host × Option Failure
  move_in target payload host =
      if world.moves
      then (
        record host {
          instances = set_key target (record { payload = payload; secured = false }) host.instances;
        },
        none,
      )
      else (host, some not_moved)

  -- what `_secure_or_discard_restore` leaves where securing fails
  abbrev discard : Text → Host → Host × Option Failure
  discard target host =
      if world.removes_unit && world.removes_tree
      then (without_instance target (without_unit target host), some discarded)
      else if world.removes_tree
      then (without_instance target host, some rollback_incomplete)
      else if world.removes_unit
      then (without_unit target host, some rollback_incomplete)
      else (host, some rollback_incomplete)

  -- `_secure_or_discard_restore`: the modes of the secrets are made strict, or the instance is removed
  pub secure_or_discard : Bool → Text → Host → Host × Option Failure
  secure_or_discard succeeds target host =
      if succeeds
      then (altered target (λ i. record i { secured = true }) host, none)
      else discard target host

  -- the tree is rewritten, with modes that may be loose
  pub rewrite : Bool → Text → Host → Host
  rewrite succeeds target host =
      altered target (λ i. record { payload = world.rewritten succeeds i.payload; secured = false })
        host

  -- and the unit is rendered again
  pub rebuilt_if : Bool → Text → Host → Host × Option Failure
  rebuilt_if true target host =
      let rewritten = rewrite true target host in
      (
        record (without_unit target rewritten) {
          units = target ∷ (without_unit target rewritten).units;
        },
        none,
      )
  rebuilt_if false target host = (rewrite false target host, some not_rebuilt)

  pub rebuild : Text → Host → Host × Option Failure
  rebuild target host = rebuilt_if world.rebuilds target host

  pub start : Text → Host → Host × Option Failure
  start target host = if world.starts then (host, none) else (host, some not_started)

  -- a step after those before it, unless one of them raised
  abbrev pub then_do :
      Host × Option Failure → (Host → Host × Option Failure) → Host × Option Failure
  then_do (host, none) step = step host
  then_do (host, some e) step = (host, some e)

  -- from the cutover on
  pub cut_over : Bool → Text → Text → Host → Host × Option Failure
  cut_over new_mode target payload host =
      let cleared = then_do (clear_old new_mode target host) (clear_tree target) in
      let moved = then_do cleared (move_in target payload) in
      let secured = then_do moved (secure_or_discard world.secures_moved target) in
      let rebuilt = then_do secured (rebuild target) in
      let secured_again = then_do rebuilt (secure_or_discard world.secures_rebuilt target) in
      then_do secured_again (start target)

  abbrev unpack : Bool → Text → Option Text → Host → Host × Option Failure
  unpack new_mode target none host = (host, some no_payload)
  unpack new_mode target (some payload) host =
      if world.secures_staging then cut_over new_mode target payload host else (host, some insecure)

  -- with the target and the domain checked
  pub restore_to : Bool → Text → Archive → Host → Host × Option Failure
  restore_to new_mode target archive host =
      if new_mode && is_some (find_key target host.instances)
      then (host, some (already_exists target))
      else if not archive.extracts
      then (host, some not_extracted)
      else unpack new_mode target archive.payload host

-- `as_name or src_app`
abbrev pub target_of : Option Value → Value → Value
target_of none src = src
target_of (some v) src = if truthy v then v else src

abbrev check_domain : Option Value → Result Validate.Error Text
check_domain none = ok []
check_domain (some v) = if truthy v then domain v else ok []

-- `restore`, up to the publication of the site
pub restore : World → Option Archive → Option Value → Option Value → Host → Host × Option Failure
restore world none as_name dom host = (host, some not_found)
restore world (some archive) as_name dom host = elim archive.manifest [
  | none ↦ (host, some no_manifest)
  | some src ↦ elim (identifier (target_of as_name src)) [
    | err e ↦ (host, some (invalid e))
    | ok target ↦ elim (check_domain dom) [
      | err e ↦ (host, some (invalid e))
      | ok d ↦ restore_to world (is_some as_name) target archive host
    ]
  ]
]
