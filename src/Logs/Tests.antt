-- ===== src/Logs/Tests.antt =====
-- A log with two rotations, a tree of logs, and the theorems for them.
use aa_panel_tomcat_plugin.Prelude.{
  ℕ, ◌-◌, ◌≡◌, ◌&&◌, refl, inl, inr, true, false, List, [], ◌∷◌, none, some, codes, filter, ltb,
  leb, ◌==◌, if◌then◌else◌, Elem, text_eq,
}
use aa_panel_tomcat_plugin.Logs.{
  ends_with, Tree, under, is_instance_log, is_plugin_log, paths_in, instance_paths, targets,
  rotated_artifacts, Artifact,
}
use aa_panel_tomcat_plugin.Logs.Rotate.{Log, rotate_one}
use aa_panel_tomcat_plugin.Logs.Rotate.Shift.{rotate_one-shifts}
use aa_panel_tomcat_plugin.Logs.Targets.{targets-rotated_artifacts}

abbrev same : List ℕ → List ℕ
same body = body

abbrev log : Log
log = record {
  live = 3 ∷ [];
  slot = λ i. if i == 1 then some (2 ∷ []) else if i == 2 then some (1 ∷ []) else none;
}

rotate_one-shifts_example :
    ((rotate_one same (record { unlinks = true; compresses = true }) 2 log).0 ≡ true)
    × ((rotate_one same (record { unlinks = true; compresses = true }) 2 log).1.live ≡ [])
    × ((i : ℕ)
        → (rotate_one same (record { unlinks = true; compresses = true }) 2 log).1.slot i ≡ (
            if i == 1
            then some (3 ∷ [])
            else if ltb 1 i && leb i 2
            then log.slot (i - 1)
            else log.slot i))
rotate_one-shifts_example = rotate_one-shifts same 1 log

abbrev tree : Tree
tree = record {
  instances = some (
      (codes "app", some ((codes "catalina.out", true) ∷ (codes "catalina.out.1.gz", true) ∷ []))
      ∷ []);
  plugin_logs = some ((codes "cron.log", true) ∷ []);
}

tree-targets :
    targets (codes "/i") (codes "/l") tree
    ≡ codes "/i/app/logs/catalina.out" ∷ codes "/l/cron.log" ∷ []
unfolding targets instance_paths paths_in is_instance_log is_plugin_log ends_with under filter
    text_eq
tree-targets = refl

targets-rotated_artifacts_example :
    Elem (codes "/l/cron.log") (rotated_artifacts (codes "/i") (codes "/l") tree) → ⊥
targets-rotated_artifacts_example =
    targets-rotated_artifacts (codes "/i") (codes "/l") tree (codes "/l/cron.log")
      (rw tree-targets (inr (inl refl)))

abbrev artifacts : List Artifact
artifacts =
    record { path = codes "a"; mtime = 5; size = 7; locked = false }
    ∷ record { path = codes "b"; mtime = 500; size = 9; locked = false }
    ∷ []
