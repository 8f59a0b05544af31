-- ===== src/Backups/Restore/Scope.antt =====
-- A restore under one name leaves the instances of the others as they are.
use aa_panel_tomcat_plugin.Prelude.{
  ◌≡◌, ◌≢◌, refl, ◌∙◌, inl, inr, Bool, true, false, not, ◌&&◌, ◌||◌, Option, none, some, Text,
  Bool-cases, Option-cases, if◌then◌else◌, is_some, find_key, set_key, find_key-set_key_ne,
  find_key-drop_key_ne,
}
use aa_panel_tomcat_plugin.Backups.Restore.{
  Instance, Host, Archive, World, Failure, Deletion, raises, keeps, removes, clear_old, clear_tree,
  move_in, discard, altered, rewrite, rebuilt_if, Instance, secure_or_discard, rebuild, start,
  then_do, cut_over, restore_to, without_unit, without_instance, deleted, insecure,
}

module _ (target : Text) where
  -- the other instances are as they were
  abbrev IsOther : Host → Host → Type 0
  IsOther before after =
      (k : Text) → k ≢ target → find_key k after.instances ≡ find_key k before.instances

  IsOther-trans : (x y z : Host) → IsOther x y → IsOther y z → IsOther x z
  IsOther-trans x y z h l k n = l k n ∙ h k n

  without_instance-IsOther : (host : Host) → IsOther host (without_instance target host)
  without_instance-IsOther host k n = find_key-drop_key_ne k target host.instances n

  put-IsOther :
      (i : Instance) (host : Host)
      → IsOther host (record host { instances = set_key target i host.instances })
  put-IsOther i host k n = find_key-set_key_ne k target i host.instances n

  deleted-IsOther : (d : Deletion) (host : Host) → IsOther host (deleted d target host).0
  deleted-IsOther raises host k n = refl
  deleted-IsOther keeps host k n = refl
  deleted-IsOther removes host k n = without_instance-IsOther host k n

  module _ (world : World) where
    clear_old-IsOther :
        (new_mode : Bool) (host : Host) → IsOther host (clear_old world new_mode target host).0
    unfolding clear_old
    clear_old-IsOther new_mode host =
        elim (Bool-cases (new_mode || not (is_some (find_key target host.instances)))) [
          | inl e ↦ rw (clear_old, e) (λ k n. refl)
          | inr e ↦ elim (Bool-cases (not world.removes_unit)) [
            | inl f ↦ rw (clear_old, e, f) (λ k n. refl)
            | inr f ↦
                rw (clear_old, e, f) (deleted-IsOther world.deletes (without_unit target host))
          ]
        ]

    clear_tree-IsOther : (host : Host) → IsOther host (clear_tree world target host).0
    unfolding clear_tree
    clear_tree-IsOther host = elim (Bool-cases (not (is_some (find_key target host.instances)))) [
      | inl e ↦ rw (clear_tree, e) (λ k n. refl)
      | inr e ↦ elim (Bool-cases world.removes_tree) [
        | inl f ↦ rw (clear_tree, e, f) (without_instance-IsOther host)
        | inr f ↦ rw (clear_tree, e, f) (λ k n. refl)
      ]
    ]

    move_in-IsOther :
        (payload : Text) (host : Host) → IsOther host (move_in world target payload host).0
    unfolding move_in
    move_in-IsOther payload host = elim (Bool-cases world.moves) [
      | inl e ↦ rw (move_in, e) (put-IsOther (record { payload = payload; secured = false }) host)
      | inr e ↦ rw (move_in, e) (λ k n. refl)
    ]

    discard-IsOther : (host : Host) → IsOther host (discard world target host).0
    discard-IsOther host = elim (Bool-cases world.removes_unit) [
      | inl e ↦ elim (Bool-cases world.removes_tree) [
        | inl f ↦ rw (e, f) (without_instance-IsOther host)
        | inr f ↦ rw (e, f) (λ k n. refl)
      ]
      | inr e ↦ elim (Bool-cases world.removes_tree) [
        | inl f ↦ rw (e, f) (without_instance-IsOther host)
        | inr f ↦ rw (e, f) (λ k n. refl)
      ]
    ]

    altered-IsOther : (f : Instance → Instance) (host : Host) → IsOther host (altered target f host)
    unfolding altered
    altered-IsOther f host = elim (Option-cases (find_key target host.instances)) [
      | inl e ↦ rw (altered, e) (λ k n. refl)
      | inr (i, e) ↦ rw (altered, e) (put-IsOther (f i) host)
    ]

    secure-IsOther :
        (succeeds : Bool) (host : Host)
        → IsOther host (secure_or_discard world succeeds target host).0
    unfolding secure_or_discard
    secure-IsOther true host = altered-IsOther _ host
    secure-IsOther false host = discard-IsOther host

    rebuilt_if-IsOther : (b : Bool) (host : Host) → IsOther host (rebuilt_if world b target host).0
    unfolding rebuilt_if rewrite
    rebuilt_if-IsOther true host = altered-IsOther _ host
    rebuilt_if-IsOther false host = altered-IsOther _ host

    rebuild-IsOther : (host : Host) → IsOther host (rebuild world target host).0
    unfolding rebuild
    rebuild-IsOther host = rebuilt_if-IsOther world.rebuilds host

    start-IsOther : (host : Host) → IsOther host (start world target host).0
    unfolding start
    start-IsOther host = elim (Bool-cases world.starts) [
      | inl e ↦ rw (start, e) (λ k n. refl)
      | inr e ↦ rw (start, e) (λ k n. refl)
    ]

    then_do-IsOther :
        (host : Host) (r : Host × Option Failure) (step : Host → Host × Option Failure)
        → IsOther host r.0
        → ((h : Host) → IsOther h (step h).0)
        → IsOther host (then_do world r step).0
    then_do-IsOther host (h, none) step f g = IsOther-trans host h (step h).0 f (g h)
    then_do-IsOther host (h, some e) step f g = f

    cut_over-IsOther :
        (new_mode : Bool) (payload : Text) (host : Host)
        → IsOther host (cut_over world new_mode target payload host).0
    unfolding cut_over
    cut_over-IsOther new_mode payload host =
        let cleared =
          then_do world (clear_old world new_mode target host) (clear_tree world target) in
        let moved = then_do world cleared (move_in world target payload) in
        let secured = then_do world moved (secure_or_discard world world.secures_moved target) in
        let rebuilt = then_do world secured (rebuild world target) in
        let secured_again =
          then_do world rebuilt (secure_or_discard world world.secures_rebuilt target) in
        let h1 =
          then_do-IsOther host (clear_old world new_mode target host) (clear_tree world target)
            (clear_old-IsOther new_mode host) clear_tree-IsOther in
        let h2 =
          then_do-IsOther host cleared (move_in world target payload) h1
            (move_in-IsOther payload) in
        let h3 =
          then_do-IsOther host moved (secure_or_discard world world.secures_moved target) h2
            (secure-IsOther world.secures_moved) in
        let h4 = then_do-IsOther host secured (rebuild world target) h3 rebuild-IsOther in
        let h5 =
          then_do-IsOther host rebuilt (secure_or_discard world world.secures_rebuilt target) h4
            (secure-IsOther world.secures_rebuilt) in
        then_do-IsOther host secured_again (start world target) h5 start-IsOther

    if-IsOther :
        (b : Bool) (host : Host) (r : Host × Option Failure) (e : Failure)
        → IsOther host r.0
        → IsOther host (if b then r else (host, some e)).0
    if-IsOther true host r e h = h
    if-IsOther false host r e h = λ k n. refl

    pub restore_to-IsOther :
        (new_mode : Bool) (archive : Archive) (host : Host)
        → IsOther host (restore_to world new_mode target archive host).0
    unfolding restore_to
    restore_to-IsOther new_mode archive host =
        elim (Bool-cases (new_mode && is_some (find_key target host.instances))) [
          | inl e ↦ rw (restore_to, e) (λ k n. refl)
          | inr e ↦ elim (Bool-cases (not archive.extracts)) [
            | inl f ↦ rw (restore_to, e, f) (λ k n. refl)
            | inr f ↦ elim (Option-cases archive.payload) [
              | inl g ↦ rw (restore_to, e, f, g) (λ k n. refl)
              | inr (payload, g) ↦
                  rw (restore_to, e, f, g)
                    (if-IsOther world.secures_staging host
                      (cut_over world new_mode target payload host) insecure
                      (cut_over-IsOther new_mode payload host))
            ]
          ]
        ]
