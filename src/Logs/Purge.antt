-- ===== src/Logs/Purge.antt =====
-- What a purge removes, and what it counts.
use aa_panel_tomcat_plugin.Prelude.{
  ℕ, ◌+◌, ◌≡◌, refl, inl, inr, Bool, not, ◌&&◌, List, [], ◌∷◌, filter, length, arith, Bool-cases,
  ap,
}
use aa_panel_tomcat_plugin.Logs.{Artifact, is_old, purge}

-- the bytes that files take
abbrev pub bytes : List Artifact → ℕ
bytes [] = 0
bytes (a ∷ artifacts) = a.size + bytes artifacts

-- what is old enough and can be removed
abbrev pub is_purged : ℕ → ℕ → ℕ → Artifact → Bool
is_purged day now days a = is_old day now days a && not a.locked

-- A purge leaves exactly the artifacts that are too new or cannot be removed, in their order, and
-- reports the number and the bytes of those that it removed.
pub purge_lem :
    (day now days : ℕ) (artifacts : List Artifact)
    → ((purge day now days artifacts).left ≡ filter (λ a. not (is_purged day now days a)) artifacts)
      × ((purge day now days artifacts).removed
          ≡ length (filter (is_purged day now days) artifacts))
      × ((purge day now days artifacts).freed_bytes
          ≡ bytes (filter (is_purged day now days) artifacts))
unfolding purge filter
purge_lem day now days [] = (refl, refl, refl)
purge_lem day now days (a ∷ artifacts) =
    let (x, y, z) = purge_lem day now days artifacts in
    elim (Bool-cases (is_purged day now days a)) [
      | inl e ↦ rw e (x, ground (arith, y), ground (arith, z))
      | inr e ↦ rw e (ap (λ r. a ∷ r) x, y, z)
    ]
