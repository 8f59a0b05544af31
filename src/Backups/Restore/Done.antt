-- ===== src/Backups/Restore/Done.antt =====
-- A restore that raises nothing has put the application in its place.
use aa_panel_tomcat_plugin.Prelude.{
  ◌≡◌, refl, inl, inr, Bool, true, false, not, ◌&&◌, Option, none, some, Text, Bool-cases,
  Option-cases, if◌then◌else◌, is_some, find_key, find_key-set_key,
}
use aa_panel_tomcat_plugin.Backups.Restore.{
  Instance, altered, rewrite, rebuilt_if, discard, Host, Archive, World, Failure, clear_old,
  clear_tree, move_in, secure_or_discard, rebuild, start, then_do, cut_over, restore_to, insecure,
}

module _ (target : Text) where
  module _ (world : World) where
    -- The instance of that name, where nothing was raised.
    abbrev IsHeld : Instance → Host × Option Failure → Type 0
    IsHeld i r = r.1 ≡ none → find_key target r.0.instances ≡ some i

    -- A step keeps or changes what is held.
    abbrev IsStep : Instance → Instance → (Host → Host × Option Failure) → Type 0
    IsStep i j step = (host : Host) → find_key target host.instances ≡ some i → IsHeld j (step host)

    then_do-IsHeld :
        (i j : Instance) (r : Host × Option Failure) (step : Host → Host × Option Failure)
        → IsHeld i r
        → IsStep i j step
        → IsHeld j (then_do world r step)
    then_do-IsHeld i j (host, none) step h k = k host (h refl)
    then_do-IsHeld i j (host, some x) step h k = λ e. cc

    then_do-any :
        (j : Instance) (r : Host × Option Failure) (step : Host → Host × Option Failure)
        → ((host : Host) → IsHeld j (step host))
        → IsHeld j (then_do world r step)
    then_do-any j (host, none) step k = k host
    then_do-any j (host, some x) step k = λ e. cc

    move_in-IsHeld :
        (payload : Text) (host : Host)
        → IsHeld (record { payload = payload; secured = false }) (move_in world target payload host)
    unfolding move_in
    move_in-IsHeld payload host = elim (Bool-cases world.moves) [
      | inl e ↦
          rw (move_in, e)
            (λ h.
              find_key-set_key target (record { payload = payload; secured = false })
                host.instances)
      | inr e ↦ rw (move_in, e) (λ h. cc)
    ]

    altered-IsHeld :
        (f : Instance → Instance) (i : Instance) (host : Host)
        → find_key target host.instances ≡ some i
        → find_key target (altered target f host).instances ≡ some (f i)
    unfolding altered
    altered-IsHeld f i host h = rw (altered, h) (find_key-set_key target (f i) host.instances)

    discard-raises : (host : Host) → (discard world target host).1 ≡ none → ⊥
    discard-raises host h = elim (Bool-cases world.removes_unit) [
      | inl e ↦ elim (Bool-cases world.removes_tree) [
        | inl f ↦ cc (rw (e, f) at h)
        | inr f ↦ cc (rw (e, f) at h)
      ]
      | inr e ↦ elim (Bool-cases world.removes_tree) [
        | inl f ↦ cc (rw (e, f) at h)
        | inr f ↦ cc (rw (e, f) at h)
      ]
    ]

    secure-IsStep :
        (succeeds : Bool) (payload : Text)
        → IsStep
            (record { payload = payload; secured = false })
            (record { payload = payload; secured = true })
            (secure_or_discard world succeeds target)
    unfolding secure_or_discard
    secure-IsStep true payload host h = λ e. altered-IsHeld _ _ host h
    secure-IsStep false payload host h = λ e. absurd (discard-raises host e)

    rebuilt_if-IsStep :
        (b : Bool) (payload : Text)
        → IsStep
            (record { payload = payload; secured = true })
            (record { payload = world.rewritten true payload; secured = false })
            (rebuilt_if world b target)
    unfolding rebuilt_if rewrite
    rebuilt_if-IsStep true payload host h =
        λ e. altered-IsHeld _ (record { payload = payload; secured = true }) host h
    rebuilt_if-IsStep false payload host h = λ e. cc

    rebuild-IsStep :
        (payload : Text)
        → IsStep
            (record { payload = payload; secured = true })
            (record { payload = world.rewritten true payload; secured = false })
            (rebuild world target)
    unfolding rebuild
    rebuild-IsStep payload host h = rebuilt_if-IsStep world.rebuilds payload host h

    start-IsStep : (i : Instance) → IsStep i i (start world target)
    unfolding start
    start-IsStep i host h = elim (Bool-cases world.starts) [
      | inl e ↦ rw (start, e) (λ n. h)
      | inr e ↦ rw (start, e) (λ n. h)
    ]

    abbrev restored_instance : Text → Instance
    restored_instance payload = record { payload = world.rewritten true payload; secured = true }

    abbrev pub IsRestored : Option Text → Host × Option Failure → Type 0
    IsRestored found r =
        r.1 ≡ none
        → (payload : Text) × (found ≡ some payload)
          × (find_key target r.0.instances ≡ some (restored_instance payload))

    if-IsRestored :
        (b : Bool) (found : Option Text) (payload : Text) (host : Host) (e : Failure)
        (r : Host × Option Failure)
        → found ≡ some payload
        → (r.1 ≡ none → find_key target r.0.instances ≡ some (restored_instance payload))
        → IsRestored found (if b then r else (host, some e))
    if-IsRestored true found payload host e r f g h = (payload, f, g h)
    if-IsRestored false found payload host e r f g h = cc

    cut_over-restored :
        (new_mode : Bool) (payload : Text) (host : Host)
        → IsHeld (restored_instance payload) (cut_over world new_mode target payload host)
    unfolding cut_over
    cut_over-restored new_mode payload host =
        let cleared =
          then_do world (clear_old world new_mode target host) (clear_tree world target) in
        let moved = then_do world cleared (move_in world target payload) in
        let secured = then_do world moved (secure_or_discard world world.secures_moved target) in
        let rebuilt = then_do world secured (rebuild world target) in
        let again = then_do world rebuilt (secure_or_discard world world.secures_rebuilt target) in
        then_do-IsHeld _ _ again (start world target)
          (then_do-IsHeld _ _ rebuilt _
            (then_do-IsHeld _ _ secured (rebuild world target)
              (then_do-IsHeld _ _ moved _
                (then_do-any _ cleared (move_in world target payload) (move_in-IsHeld payload))
                (secure-IsStep world.secures_moved payload))
              (rebuild-IsStep payload))
            (secure-IsStep world.secures_rebuilt (world.rewritten true payload)))
          (start-IsStep (restored_instance payload))

    pub restore_to-IsRestored :
        (new_mode : Bool) (archive : Archive) (host : Host)
        → IsRestored archive.payload (restore_to world new_mode target archive host)
    unfolding restore_to
    restore_to-IsRestored new_mode archive host =
        elim (Bool-cases (new_mode && is_some (find_key target host.instances))) [
          | inl e ↦ rw (restore_to, e) (λ h. cc)
          | inr e ↦ elim (Bool-cases (not archive.extracts)) [
            | inl f ↦ rw (restore_to, e, f) (λ h. cc)
            | inr f ↦ elim (Option-cases archive.payload) [
              | inl g ↦ rw (restore_to, e, f, g) (λ h. cc)
              | inr (payload, g) ↦
                  rw (restore_to, e, f, g)
                    (if-IsRestored world.secures_staging (some payload) payload host insecure
                      (cut_over world new_mode target payload host) refl
                      (cut_over-restored new_mode payload host))
            ]
          ]
        ]
