-- ===== src/Logs.antt =====
-- plugin/javahost/core/logrotate.py: which logs are rotated, how one is, what is purged and the
-- managed cron file. `gzip` is an argument, times are in a unit of which `day` make a day.
pub mod Rotate
mod Targets
mod Purge
mod Tests
use aa_panel_tomcat_plugin.Prelude.{
  ℕ, ◌+◌, ◌*◌, Bool, true, false, not, ◌&&◌, ◌||◌, List, [], ◌∷◌, ◌++◌, Option, none, some, Text,
  codes, text_eq, filter, map, length, ltb, leb, if◌then◌else◌, join, Dict, find_key,
}

-- `s.endswith(suffix)`
pub ends_with : Text → Text → Bool
ends_with suffix [] = text_eq suffix []
ends_with suffix (c ∷ s) = text_eq suffix (c ∷ s) || ends_with suffix s

-- What a directory shows: the names, and whether each is a regular file.
abbrev pub Listing : Type 0
Listing = List (Text × Bool)

-- INSTANCE_ROOT with the logs directory of each instance, and LOGS_DIR; `none` for what is not there
pub record Tree : Type 0 where
  pub instances : Option (List (Text × Option Listing))
  pub plugin_logs : Option Listing

abbrev pub or_nothing {ℓ} : {A : Type ℓ} → Option (List A) → List A
or_nothing none = []
or_nothing (some xs) = xs

-- `os.path.join` of a directory and a name
pub under : Text → Text → Text
under dir name = dir ++ (codes "/" ++ name)

pub is_instance_log : Text × Bool → Bool
is_instance_log (f, file) =
    not (ends_with (codes ".gz") f)
    && (text_eq f (codes "catalina.out") || ends_with (codes ".log") f)
    && file

pub is_plugin_log : Text × Bool → Bool
is_plugin_log (f, file) = ends_with (codes ".log") f && file

-- the paths in a directory of the entries that pass
pub paths_in : (Text × Bool → Bool) → Text → Listing → List Text
paths_in p dir listing = map (λ e. under dir e.0) (filter p listing)

-- `glob("*.gz")`, which passes over hidden names
is_hidden : Text → Bool
is_hidden [] = false
is_hidden (c ∷ s) = text_eq (c ∷ []) (codes ".")

pub is_artifact : Text × Bool → Bool
is_artifact (f, file) = ends_with (codes ".gz") f && not (is_hidden f)

module _ (instance_root logs_dir : Text) where
  abbrev logs_of : Text → Text
  logs_of name = under (under instance_root name) (codes "logs")

  pub instance_paths : (Text × Bool → Bool) → List (Text × Option Listing) → List Text
  instance_paths p [] = []
  instance_paths p ((name, listing) ∷ rest) =
      paths_in p (logs_of name) (or_nothing listing) ++ instance_paths p rest

  -- `_targets`
  pub targets : Tree → List Text
  targets tree =
      instance_paths is_instance_log (or_nothing tree.instances)
      ++ paths_in is_plugin_log logs_dir (or_nothing tree.plugin_logs)

  -- `_rotated_artifacts`, over `_gz_dirs`
  pub rotated_artifacts : Tree → List Text
  rotated_artifacts tree =
      instance_paths is_artifact (or_nothing tree.instances)
      ++ paths_in is_artifact logs_dir (or_nothing tree.plugin_logs)

-- A rotated artifact: `locked` says that it cannot be removed.
pub record Artifact : Type 0 where
  pub path : Text
  pub mtime : ℕ
  pub size : ℕ
  pub locked : Bool

pub record Purged : Type 0 where
  pub removed : ℕ
  pub freed_bytes : ℕ
  pub left : List Artifact

-- `days <= 0 or mtime < now - days * 86400`
pub is_old : ℕ → ℕ → ℕ → Artifact → Bool
is_old day now days a = not (ltb 0 days) || ltb (a.mtime + days * day) now

pub purge : ℕ → ℕ → ℕ → List Artifact → Purged
purge day now days [] = record { removed = 0; freed_bytes = 0; left = [] }
purge day now days (a ∷ artifacts) =
    let rest = purge day now days artifacts in
    if is_old day now days a && not a.locked
    then record rest { removed = rest.removed + 1; freed_bytes = rest.freed_bytes + a.size }
    else record rest { left = a ∷ rest.left }

abbrev pub cron_of : Text → Text
cron_of when =
    if text_eq when (codes "daily")
    then codes "0 0 * * *"
    else if text_eq when (codes "weekly")
    then codes "0 0 * * 0"
    else if text_eq when (codes "monthly")
    then codes "0 0 1 * *"
    else codes "0 0 * * *"

pub render_cron : Text → Text → Text → Text → Text
render_cron python runner cron_log when =
    join (codes "\n") (
      codes "# Managed by JavaHost — log rotation + purge. Do not edit by hand."
      ∷ codes "SHELL=/bin/sh"
      ∷ codes "PATH=/usr/local/sbin:/usr/local/bin:/usr/sbin:/usr/bin:/sbin:/bin"
      ∷ []
      ∷ (cron_of when
          ++ (codes " root "
              ++ (python
                  ++ (codes " "
                      ++ (runner ++ (codes " --run >> " ++ (cron_log ++ codes " 2>&1")))))))
      ∷ [])
    ++ codes "\n"

-- /etc/cron.d, if there is one, with the managed file
pub record CronDir : Type 0 where
  pub present : Bool
  pub file : Option Text

-- `apply_schedule`: whether the file is installed afterwards, by its answer
pub apply_schedule : Text → Text → Text → Bool → Text → CronDir → Bool × CronDir
apply_schedule python runner cron_log enabled when dir =
    if not dir.present
    then (false, dir)
    else if not enabled
    then (false, record dir { file = none })
    else (true, record dir { file = some (render_cron python runner cron_log when) })

-- the flags of `main`: whether it rotates, and whether it purges
pub main_steps : Bool → Bool → Bool → Bool × Bool
main_steps run rotate purges =
    (run || rotate || not (rotate || purges), run || purges || not (rotate || purges))

-- `sum_sizes`: a path whose size cannot be told counts nothing
pub sum_sizes : List (Option ℕ) → ℕ
sum_sizes [] = 0
sum_sizes (none ∷ sizes) = sum_sizes sizes
sum_sizes (some n ∷ sizes) = n + sum_sizes sizes
