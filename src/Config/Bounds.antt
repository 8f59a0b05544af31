-- ===== src/Config/Bounds.antt =====
-- The numbers and words that the log settings can have.
use aa_panel_tomcat_plugin.Prelude.{
  among-Elem, [], ◌∷◌, ℕ, ◌≤◌, ◌≡◌, refl, ◌⊎◌, inl, inr, Option, none, some, Text, codes, int,
  arith, Bool-cases, ℤ, pos, among, int_of, truthy,
}
use aa_panel_tomcat_plugin.Config.{
  Store, get, at_least, number_setting, log_rotate_keep, log_rotate_max_mb, log_purge_days,
  log_rotate_when, known_when,
}

at_least_ge : (lo default : ℕ) (o : Option ℤ) → lo ≤ default → lo ≤ at_least lo default o
unfolding at_least
at_least_ge lo default none h = h
at_least_ge lo default (some z) h = ground arith

known_when_sound :
    (v : Text)
    → (known_when v ≡ codes "daily")
      ⊎ (known_when v ≡ codes "weekly")
      ⊎ (known_when v ≡ codes "monthly")
known_when_sound v =
    elim (Bool-cases (among v (codes "daily" ∷ codes "weekly" ∷ codes "monthly" ∷ []))) [
      | inr e ↦ inl (rw e refl)
      | inl e ↦ rw e (elim (among-Elem v _ e) [
        | inl k ↦ inl k
        | inr (inl k) ↦ inr (inl k)
        | inr (inr (inl k)) ↦ inr (inr k)
        | inr (inr (inr never)) ↦ absurd never
      ])
    ]

-- Where config.json holds null, Booleans, integers and texts, and no other values: the size that a
-- log is rotated at is at least 1 MB and the cadence is daily, weekly or monthly; a configured 0 for the rotations to keep or the days to purge after reads
-- as the default 7 or 30.
pub log_settings_bounds :
    (store : Store)
    → (1 ≤ log_rotate_max_mb store)
      × ((log_rotate_when store ≡ codes "daily")
          ⊎ (log_rotate_when store ≡ codes "weekly")
          ⊎ (log_rotate_when store ≡ codes "monthly"))
      × (get (codes "log_rotate_keep") (int (pos 7)) store ≡ int (pos 0)
          → log_rotate_keep store ≡ 7)
      × (get (codes "log_purge_days") (int (pos 30)) store ≡ int (pos 0)
          → log_purge_days store ≡ 30)
unfolding log_rotate_max_mb log_rotate_when log_rotate_keep log_purge_days number_setting truthy
    int_of at_least
log_settings_bounds store =
    (at_least_ge 1 50 _ (ground arith), known_when_sound _, (λ h. rw h refl), (λ h. rw h refl))
