-- ===== src/Logs/Rotate/Shift.antt =====
-- Rotation moves each kept rotation up by one, and loses nothing but the oldest.
use aa_panel_tomcat_plugin.Prelude.{
  ℕ, zero, suc, ◌+◌, ◌-◌, ◌≡◌, refl, ◌∙◌, inl, inr, true, List, [], Option, none, some, arith,
  Option-cases, ◌==◌, if◌then◌else◌, ltb, leb, ◌&&◌,
}
use aa_panel_tomcat_plugin.Logs.Rotate.{
  Log, Slots, write_slot, move_up, shift, drop_oldest, rotate_one,
}

-- where a slot comes from when the first n move up
abbrev source : ℕ → Slots → ℕ → Option (List ℕ)
source n s j =
    if j == 0 then s j else if j == 1 then none else if leb j (n + 1) then s (j - 1) else s j

move_up-at :
    (i j : ℕ) (s : Slots)
    → s (i + 1) ≡ none
    → move_up i s j ≡ (if j == i + 1 then s i else if j == i then none else s j)
unfolding move_up
move_up-at i j s h = elim (Option-cases (s i)) [
  | inl e ↦ rw (e, move_up) (ground (arith, h, e))
  | inr (b, e) ↦ rw (e, move_up) refl
]

shift-source : (n : ℕ) (s : Slots) → s (n + 1) ≡ none → (j : ℕ) → shift n s j ≡ source n s j
unfolding shift
shift-source zero s h j = ground (arith, h)
shift-source (suc n) s h j =
    shift-source n (move_up (suc n) s) (ground (arith, h, move_up-at (suc n) (n + 1) s h)) j
    ∙ ground (arith, h, move_up-at (suc n) j s h, move_up-at (suc n) (j - 1) s h)

-- Where the oldest rotation can be removed and compressing succeeds, rotating with room for at least
-- one rotation empties the live log, keeps its content in the first rotation, moves each of the others
-- up by one, drops only the last and leaves every other file as it is.
pub rotate_one-shifts :
    (gzip : List ℕ → List ℕ) (keep : ℕ) (log : Log)
    → ((rotate_one gzip (record { unlinks = true; compresses = true }) (suc keep) log).0 ≡ true)
      × ((rotate_one gzip (record { unlinks = true; compresses = true }) (suc keep) log).1.live
          ≡ [])
      × ((i : ℕ)
          → (rotate_one gzip (record { unlinks = true; compresses = true }) (suc keep) log).1.slot i
            ≡ (if i == 1
                then some (gzip log.live)
                else if ltb 1 i && leb i (suc keep)
                then log.slot (i - 1)
                else log.slot i))
unfolding rotate_one drop_oldest
rotate_one-shifts gzip keep log = (
  refl,
  refl,
  λ i. ground (arith, shift-source keep (write_slot (suc keep) none log.slot) (ground arith) i),
)
