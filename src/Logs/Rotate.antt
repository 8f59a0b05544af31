-- ===== src/Logs/Rotate.antt =====
-- `_rotate_one` and `rotate`: a live log and its numbered rotations.
pub mod Shift
use aa_panel_tomcat_plugin.Prelude.{
  ℕ, zero, suc, ◌+◌, ◌*◌, Bool, true, false, not, List, [], ◌∷◌, Option, none, some, Text, length,
  ltb, max, ◌==◌, if◌then◌else◌,
}

-- `slot i` is the file `<path>.<i>.gz`.
pub record Log : Type 0 where
  pub live : List ℕ
  pub slot : ℕ → Option (List ℕ)

-- What the calls meet: whether the oldest rotation can be removed, and whether compressing succeeds.
pub record Luck : Type 0 where
  pub unlinks : Bool
  pub compresses : Bool

abbrev pub Slots : Type 0
Slots = ℕ → Option (List ℕ)

abbrev pub write_slot : ℕ → Option (List ℕ) → Slots → Slots
write_slot i b s j = if j == i then b else s j

-- `os.replace(<path>.<i>.gz, <path>.<i + 1>.gz)`, if there is the first
move_up : ℕ → Slots → Slots
move_up i s j = elim (s i) [
  | none ↦ s j
  | some b ↦ if j == i + 1 then some b else if j == i then none else s j
]

-- the loop from n down to 1
pub shift : ℕ → Slots → Slots
shift zero s = s
shift (suc n) s = shift n (move_up (suc n) s)

drop_oldest : Luck → ℕ → Slots → Slots
drop_oldest luck keep s = if luck.unlinks then write_slot keep none s else s

-- `_rotate_one`: whether it returns rather than raises, and the files it leaves
pub rotate_one : (List ℕ → List ℕ) → Luck → ℕ → Log → Bool × Log
rotate_one gzip luck zero log = (true, record log { live = [] })
rotate_one gzip luck (suc keep) log =
    let shifted = shift keep (drop_oldest luck (suc keep) log.slot) in
    if luck.compresses
    then (true, record { live = []; slot = write_slot 1 (some (gzip log.live)) shifted })
    else (false, record log { slot = shifted })

-- `rotate` of the logs at its targets: a log that is small enough stays, and an OSError skips one.
pub rotate :
    (List ℕ → List ℕ) → ℕ → ℕ → List (Text × Luck × Log) → List Text × List (Text × Luck × Log)
rotate gzip max_mb keep [] = ([], [])
rotate gzip max_mb keep ((path, luck, log) ∷ logs) =
    let rest = rotate gzip max_mb keep logs in
    let (done, after) = rotate_one gzip luck keep log in
    if ltb (max 1 max_mb * 1024 * 1024) (length log.live)
    then ((if done then path ∷ rest.0 else rest.0), (path, luck, after) ∷ rest.1)
    else (rest.0, (path, luck, log) ∷ rest.1)
