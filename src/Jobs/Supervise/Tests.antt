-- ===== src/Jobs/Supervise/Tests.antt =====
-- A job that is started, supervised and asked to stop, and the theorems for it.
use aa_panel_tomcat_plugin.Prelude.{
  ◌≡◌, refl, true, false, [], ◌∷◌, none, some, Text, codes, ok, err, text_eq, pos, strip_by,
  trim_start, trim_end, sort_by, filter, starts_with, all, is_alnum, among, any,
}
use aa_panel_tomcat_plugin.Jobs.{
  finite, FloatOps, meta_unreadable, is_id_char, is_job_id, validate_job_id, is_contained,
  entry_path, job_dir, new_job_id, dash_runs, or_job, is_kind_char,
}
use aa_panel_tomcat_plugin.Jobs.Store.{
  JobsFs, object, lookup, without, prune, victims, remove_jobs, list_jobs, jobs_of,
}
use aa_panel_tomcat_plugin.Jobs.Supervise.{Circumstances, supervise, start, store_job, started_meta}
use aa_panel_tomcat_plugin.Jobs.Supervise.Verdict.{Ends, supervise-Ends}
use aa_panel_tomcat_plugin.Jobs.Supervise.Launch.{IsRecorded, start-IsRecorded}

abbrev stopped : Circumstances
stopped = record {
  meta = err meta_unreadable;
  now = finite (pos 1);
  ended = finite (pos 2);
  pid = pos 7;
  spawned = true;
  first_written = true;
  waited = some (pos 1);
  cancel_requested = true;
  last_written = true;
  problem = [];
}

supervise-Ends_example : Ends stopped (supervise stopped (codes "job-1"))
supervise-Ends_example = supervise-Ends stopped (codes "job-1")

not-dashes :
    (text_eq (codes "jobs.py") (codes "--") ≡ false) × (text_eq (codes "/j/a") (codes "--") ≡ false)
unfolding text_eq
not-dashes = (refl, refl)

abbrev plain : FloatOps
plain = record { of_int = λ z. some (finite z); of_text = λ s. none }

abbrev empty_store : JobsFs
empty_store = record { names = none; links = []; dirs = [] }

abbrev result : JobsFs × Text × Text
result = (
  record {
    names = some (codes "war-t-r" ∷ []);
    links = [];
    dirs =
        (
          codes "/j/war-t-r",
          record {
            meta = object (started_meta (codes "war-t-r") (codes "war") none (finite (pos 1)));
            argv = some (codes "sh" ∷ []);
            output = [];
          },
        )
        ∷ [];
  },
  codes "war-t-r",
  codes "/j/war-t-r",
)

started :
    start plain
      (λ p. p)
      (codes "/j")
      (λ p. false)
      empty_store
      (codes "war")
      none
      (codes "sh" ∷ [])
      (codes "t")
      (codes "r")
      (finite (pos 1))
      true
    ≡ ok result
unfolding start store_job prune victims remove_jobs list_jobs jobs_of sort_by filter new_job_id
    dash_runs or_job is_kind_char strip_by trim_start trim_end job_dir validate_job_id is_job_id
    is_id_char is_alnum all among any text_eq is_contained entry_path starts_with lookup without
started = refl

start-IsRecorded_example :
    IsRecorded plain
      (λ p. p)
      (codes "/j")
      (λ p. false)
      empty_store
      (codes "war")
      none
      (codes "sh" ∷ [])
      (codes "t")
      (codes "r")
      (finite (pos 1))
      true
      result.0
      result.1
      result.2
start-IsRecorded_example =
    start-IsRecorded plain (λ p. p) (codes "/j") (λ p. false) empty_store (codes "war") none
      (codes "sh" ∷ []) (codes "t") (codes "r") (finite (pos 1)) true result.0 result.1 result.2
      started
