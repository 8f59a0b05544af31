-- ===== src/Jobs/Supervise.antt =====
-- The launch of a job and its supervisor in core/jobs.py: `start`, `retry`, `read_log`,
-- `_supervise` and `_main`.
mod Verdict
mod Launch
mod Tests
use aa_panel_tomcat_plugin.Prelude.{
  ℕ, ◌+◌, Bool, true, false, not, ◌&&◌, List, [], ◌∷◌, ◌++◌, Option, none, some, Text, codes,
  Result, ok, err, length, drop, leb, if◌then◌else◌, is_empty, text_eq, among, ℤ, pos, negsuc,
  int_eq, decimal,
}
use aa_panel_tomcat_plugin.Jobs.{
  Json, null, int, float, str, Float, Meta, State, unknown, missing, Error, job_dir, new_job_id,
  normalise_state, FloatOps,
}
use aa_panel_tomcat_plugin.Jobs.Store.{
  MetaFile, object, JobFiles, JobsFs, lookup, read_meta, without, prune,
}

-- What a run of the supervisor meets: the metadata that it reads, two readings of the clock, whether
-- the worker could be spawned, the answers of the two writes, how the worker ended (`none` where
-- waiting raises), whether SIGTERM has come by then, and the text of an exception.
pub record Circumstances : Type 0 where
  pub meta : Result Error Meta
  pub now : Float
  pub ended : Float
  pub pid : ℤ
  pub spawned : Bool
  pub first_written : Bool
  pub waited : Option ℤ
  pub cancel_requested : Bool
  pub last_written : Bool
  pub problem : Text

-- the metadata that stands in for an unreadable one
abbrev pub blank_meta : Text → Float → Meta
blank_meta name now = record {
  id = str name;
  kind = str [];
  target = null;
  state = str (codes "running");
  started = float now;
  ended = null;
  message = str [];
  pid = null;
}

abbrev read_or_blank : Text → Float → Result Error Meta → Meta
read_or_blank name now (ok meta) = meta
read_or_blank name now (err e) = blank_meta name now

pub marked_running : Meta → ℤ → Meta
marked_running meta pid = record meta { pid = int pid; state = str (codes "running") }

int_text : ℤ → Text
int_text (pos n) = decimal n
int_text (negsuc n) = b'-' ∷ decimal (n + 1)

message_of : ℤ → Text
message_of rc =
    if int_eq rc (pos 0) then codes "completed (rc=0)" else codes "exited rc=" ++ int_text rc

pub finalized : Meta → Float → ℤ → Text → Meta
finalized meta ended rc message = record meta {
  state = str (if int_eq rc (pos 0) then codes "done" else codes "failed");
  ended = float ended;
  message = str message;
}

abbrev pub written_if : Bool → Meta → List Meta
written_if true meta = meta ∷ []
written_if false meta = []

module _ (c : Circumstances) where
  -- the end of `_supervise`
  finish : Meta → ℤ → Text → List Meta → ℤ × List Meta
  finish meta rc message writes =
      (rc, writes ++ written_if c.last_written (finalized meta c.ended rc message))

  -- the `except` clause, and then the end
  fail : Meta → List Meta → ℤ × List Meta
  fail meta writes = finish meta (pos 127) (codes "supervisor error: " ++ c.problem) writes

  -- behind the first write
  waited_for : Meta → Option ℤ → ℤ × List Meta
  waited_for meta none = fail meta (meta ∷ [])
  waited_for meta (some rc) =
      if c.cancel_requested
      then (pos 143, meta ∷ [])
      else finish meta rc (message_of rc) (meta ∷ [])

  -- `_supervise`: its result and the metadata that it writes, in order
  pub supervise : Text → ℤ × List Meta
  supervise name =
      let meta = read_or_blank name c.now c.meta in
      if not c.spawned
      then fail meta []
      else if not c.first_written
      then fail (marked_running meta c.pid) []
      else waited_for (marked_running meta c.pid) c.waited

-- What `_main` does with its arguments: a usage error, or a supervised command.
pub data Dispatch : Type 0 where
  usage no_work : Dispatch
  exec : Text → List Text → Dispatch

-- `argv[argv.index("--") + 1:]`, with `none` where there is no "--"
after_dashes : List Text → Option (List Text)
after_dashes [] = none
after_dashes (a ∷ argv) =
    let rest = after_dashes argv in if text_eq a (codes "--") then some argv else rest

abbrev exec_of : Text → List Text → Dispatch
exec_of jdir [] = no_work
exec_of jdir (a ∷ work) = exec jdir (a ∷ work)

abbrev exec_after : Text → Option (List Text) → Dispatch
exec_after jdir none = usage
exec_after jdir (some work) = exec_of jdir work

-- `len(argv) >= 4 and argv[1] == "exec" and "--" in argv`
pub main : List Text → Dispatch
main (self ∷ word ∷ jdir ∷ a ∷ argv) =
    if text_eq word (codes "exec")
    then exec_after jdir (after_dashes (self ∷ word ∷ jdir ∷ a ∷ argv))
    else usage
main argv = usage

-- the command line of `_spawn_detached`
pub supervisor_argv : Text → Text → Text → List Text → List Text
supervisor_argv python self jdir argv = python ∷ self ∷ codes "exec" ∷ jdir ∷ codes "--" ∷ argv

abbrev pub default_terminal_retention : ℤ
default_terminal_retention = pos 500

pub started_meta : Text → Text → Option Text → Float → Meta
started_meta id kind target now = record {
  id = str id;
  kind = str kind;
  target = elim target [ none ↦ null | some t ↦ str t ];
  state = str (codes "running");
  started = float now;
  ended = null;
  message = str [];
  pid = null;
}

abbrev output_of : Option JobFiles → Text
output_of none = []
output_of (some files) = files.output

abbrev with_name : Text → Option (List Text) → List Text
with_name id none = id ∷ []
with_name id (some names) = if among id names then names else names ++ id ∷ []

-- A recorded empty command counts as none.
abbrev pub kept_argv : Option (List Text) → Option (List Text)
kept_argv none = none
kept_argv (some []) = none
kept_argv (some (a ∷ argv)) = some (a ∷ argv)

-- `_read_argv`
abbrev argv_in : Option JobFiles → Option (List Text)
argv_in none = none
argv_in (some files) = kept_argv files.argv

module _ (ops : FloatOps) (realpath : Text → Text) (jobs_root : Text) (locked : Text → Bool) where
  -- the new directory's files; the output of an older job of that name stays
  store_job : JobsFs → Text → Text → Meta → Option (List Text) → JobsFs
  store_job fs id path meta argv = record fs {
    names = some (with_name id fs.names);
    dirs =
        (path, record { meta = object meta; argv = argv; output = output_of (lookup path fs.dirs) })
        ∷ without ops realpath jobs_root path fs.dirs;
  }

  -- `start`: the flag says whether the command could be recorded. The result has the identifier, and
  -- the path and the command that are handed to `_spawn_detached`.
  pub start :
      JobsFs
      → Text
      → Option Text
      → List Text
      → Text
      → Text
      → Float
      → Bool
      → Result Error (JobsFs × Text × Text)
  start fs kind target argv stamp rand now recorded =
      let fs' = (prune ops realpath jobs_root locked fs default_terminal_retention).0 in
      let id = new_job_id kind stamp rand in
      elim (job_dir realpath jobs_root id) [
        | err e ↦ err e
        | ok path ↦ ok (
          store_job fs' id path (started_meta id kind target now)
              (if recorded then some argv else none),
          id,
          path,
        )
      ]

  pub read_argv : JobsFs → Text → Option (List Text)
  read_argv fs path = argv_in (lookup path fs.dirs)
