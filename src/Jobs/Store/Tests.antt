-- ===== src/Jobs/Store/Tests.antt =====
-- A store with a running job, two finished ones and a corrupt one, and the theorems for it.
use aa_panel_tomcat_plugin.Prelude.{
  filter, pos, ℕ, ◌-◌, ◌≡◌, ◌≤◌, ◌⊎◌, refl, Bool, false, [], ◌∷◌, none, some, Text, codes, ok,
  length, All, Elem, IsSorted, starts_with, text_eq, all, is_alnum, among, any, strip, strip_by,
  is_space, trim_start, trim_end, lower, sort_by, insert_by,
}
use aa_panel_tomcat_plugin.Jobs.{
  int, null, str, finite, Meta, FloatOps, State, done, is_id_char, is_job_id, validate_job_id,
  is_contained, entry_path, job_dir, normalise_state, normalise_started,
}
use aa_panel_tomcat_plugin.Jobs.Ids.{job_dir_sound}
use aa_panel_tomcat_plugin.Jobs.Store.{
  MetaFile, unreadable, object, JobFiles, JobsFs, Job, newer, lookup, read_meta_file, read_meta,
  storage_dir, job_of, jobs_of, list_jobs, victims, prune,
}
use aa_panel_tomcat_plugin.Jobs.Store.Listing.{IsListed, list_jobs_sound}
use aa_panel_tomcat_plugin.Jobs.Store.Retention.{
  IsDistinct, finished, prune-keeps_active, prune-oldest,
}

abbrev plain : FloatOps
plain = record { of_int = λ z. some (finite z); of_text = λ s. none }

abbrev real : Text → Text
real p = p

abbrev root : Text
root = codes "/j"

abbrev unlocked : Text → Bool
unlocked p = false

abbrev meta_in : Text → ℕ → Meta
meta_in state started = record {
  id = null;
  kind = null;
  target = null;
  state = str state;
  started = int (pos started);
  ended = null;
  message = null;
  pid = null;
}

abbrev files_of : MetaFile → JobFiles
files_of meta = record { meta = meta; argv = none; output = [] }

abbrev store : JobsFs
store = record {
  names = some (codes "a" ∷ codes "b" ∷ codes "c" ∷ codes "x" ∷ codes ".." ∷ []);
  links = [];
  dirs =
      (codes "/j/a", files_of (object (meta_in (codes "done") 1)))
      ∷ (codes "/j/b", files_of (object (meta_in (codes " Running") 2)))
      ∷ (codes "/j/c", files_of (object (meta_in (codes "failed") 3)))
      ∷ (codes "/j/x", files_of unreadable)
      ∷ [];
}

abbrev job_in : Text → Text → State → ℕ → Job
job_in name word state started = record {
  name = name;
  state = state;
  started = started;
  meta = meta_in word started;
}

abbrev job_a : Job
job_a = job_in (codes "a") (codes "done") done 1

abbrev job_b : Job
job_b = job_in (codes "b") (codes " Running") State.running 2

abbrev job_c : Job
job_c = job_in (codes "c") (codes "failed") State.failed 3

store-list_jobs : list_jobs plain real root store (pos 10) ≡ job_c ∷ job_b ∷ job_a ∷ []
unfolding list_jobs jobs_of job_of storage_dir read_meta read_meta_file lookup job_dir
    validate_job_id is_job_id is_id_char is_alnum all among any text_eq is_contained entry_path
    starts_with normalise_state normalise_started strip strip_by is_space trim_start trim_end lower
    sort_by insert_by
store-list_jobs = refl

store-victims : victims plain real root unlocked store (pos 1) ≡ job_a ∷ []
unfolding victims list_jobs jobs_of job_of storage_dir read_meta read_meta_file lookup job_dir
    validate_job_id is_job_id is_id_char is_alnum all among any text_eq is_contained entry_path
    starts_with normalise_state normalise_started strip strip_by is_space trim_start trim_end lower
    sort_by insert_by filter
store-victims = refl

b-IsListed : IsListed plain real root store job_b
unfolding job_of storage_dir read_meta read_meta_file lookup job_dir validate_job_id is_job_id
    is_id_char is_alnum all among any text_eq is_contained entry_path starts_with normalise_state
    normalise_started strip strip_by is_space trim_start trim_end lower
b-IsListed = refl

job_dir-run :
    (job_dir real root (codes "b") ≡ ok (codes "/j/b"))
    × (job_dir real root (codes "a") ≡ ok (codes "/j/a"))
unfolding job_dir validate_job_id is_job_id is_id_char is_alnum all among any text_eq is_contained
    entry_path starts_with
job_dir-run = (refl, refl)

root-IsDistinct : IsDistinct plain real root unlocked
unfolding entry_path
root-IsDistinct a b p h k =
    cc ((job_dir_sound real root a p h).1, (job_dir_sound real root b p k).1)

list_jobs_sound_example :
    All (IsListed plain real root store) (list_jobs plain real root store (pos 2))
    × IsSorted newer (list_jobs plain real root store (pos 2))
    × (length (list_jobs plain real root store (pos 2)) ≤ 2)
list_jobs_sound_example = list_jobs_sound plain real root store (pos 2)

prune-keeps_active_example :
    lookup (codes "/j/b") (prune plain real root unlocked store (pos 0)).0.dirs
    ≡ lookup (codes "/j/b") store.dirs
prune-keeps_active_example =
    prune-keeps_active plain real root unlocked root-IsDistinct store job_b (codes "/j/b")
      b-IsListed refl job_dir-run.0 (pos 0)

prune-oldest_example :
    (length (victims plain real root unlocked store (pos 1))
      ≡ length (finished plain real root unlocked store) - 1)
    × ((spared v : Job)
        → Elem spared (finished plain real root unlocked store)
        → Elem v (victims plain real root unlocked store (pos 1))
        → Elem spared (victims plain real root unlocked store (pos 1))
          ⊎ (v.started ≤ spared.started))
prune-oldest_example = prune-oldest plain real root unlocked store (pos 1)
