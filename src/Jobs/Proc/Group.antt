-- ===== src/Jobs/Proc/Group.antt =====
-- What `_process_group_exists` proves by its answers.
use aa_panel_tomcat_plugin.Prelude.{
  ℕ, ◌+◌, ◌≡◌, refl, inl, inr, ◌⊎◌, true, false, Bool, not, ◌||◌, ◌==◌, get_elem?, int_eq,
  int_eq_iff, int_of_text, ap, if◌then◌else◌, List, [], ◌∷◌, some, ok, All, Elem, arith, ltb,
  leb_int, ℤ, pos, Bool-cases, Option-cases,
}
use aa_panel_tomcat_plugin.Jobs.Proc.Identity.{HasFields, parse_stat_sound}
use aa_panel_tomcat_plugin.Jobs.Proc.{
  Bytes, Stat, StatRead, vanished, unreadable, contents, is_pid_name, one_byte, parse_stat,
  field_int, malformed_stat, Entry, Kill, delivered, absent, denied, failed, Sighting, Member,
  passed_over, other_group, zombie, live, doubtful, member_of, Uncertain, recheck, scan,
  group_exists,
}

-- The entry is no process, or its stat was gone, or its stat was read, is the well-formed record of
-- that process, and shows another group or a zombie.
abbrev pub IsHarmless : ℤ → Entry → Type 0
IsHarmless pgid entry =
    (is_pid_name entry.name ≡ false)
    ⊎ (entry.stat ≡ vanished)
    ⊎ ((raw : Bytes) × (stat : Stat) × (group : ℤ) × (letter : ℕ) × (entry.stat ≡ contents raw)
        × HasFields raw stat
        × (int_of_text entry.name ≡ some stat.pid)
        × (get_elem? stat.words 0 ≡ some (letter ∷ []))
        × (field_int 2 stat.words ≡ some group)
        × ((int_eq group pgid ≡ false) ⊎ (letter ≡ b'Z')))

abbrev is_settled : Member → Bool
is_settled live = false
is_settled (doubtful u) = false
is_settled m = true

StatRead-cases :
    (r : StatRead) → (r ≡ vanished) ⊎ (r ≡ unreadable) ⊎ ((raw : Bytes) × (r ≡ contents raw))
StatRead-cases vanished = inl refl
StatRead-cases unreadable = inr (inl refl)
StatRead-cases (contents raw) = inr (inr (raw, refl))

one_byte_sound : (w : Bytes) (c : ℕ) → one_byte w ≡ some c → w ≡ c ∷ []
unfolding one_byte
one_byte_sound [] c h = cc
one_byte_sound (d ∷ []) c h = cc
one_byte_sound (d ∷ e ∷ s) c h = cc

member_of-IsHarmless :
    (pgid : ℤ) (entry : Entry) → is_settled (member_of pgid entry) ≡ true → IsHarmless pgid entry
unfolding member_of
member_of-IsHarmless pgid entry h = elim (Bool-cases (is_pid_name entry.name)) [
  | inr other ↦ inl other
  | inl named ↦ elim (StatRead-cases entry.stat) [
    | inl e ↦ inr (inl e)
    | inr (inl e) ↦ cc (rw (named, e, member_of) at h)
    | inr (inr (raw, e)) ↦ elim (Option-cases (parse_stat raw)) [
      | inl f ↦ cc (rw (named, e, f, member_of) at h)
      | inr (stat, f) ↦ elim (Option-cases (get_elem? stat.words 0)) [
        | inl g ↦ cc (rw (named, e, f, g, member_of) at h)
        | inr (word, g) ↦ elim (Option-cases (field_int 2 stat.words)) [
          | inl k ↦ cc (rw (named, e, f, g, k, member_of) at h)
          | inr (group, k) ↦ elim (Option-cases (one_byte word)) [
            | inl l ↦ cc (rw (named, e, f, g, k, l, member_of) at h)
            | inr (letter, l) ↦ elim (Option-cases (int_of_text entry.name)) [
              | inl m ↦ cc (rw (named, e, f, g, k, l, m, member_of) at h)
              | inr (number, m) ↦
                  let (same, other) =
                    verdict_sound stat.pid number group pgid letter
                      (rw (named, e, f, g, k, l, m, member_of) at h) in
                  inr (
                    inr (
                      raw,
                      stat,
                      group,
                      letter,
                      e,
                      parse_stat_sound raw stat f,
                      rw same m,
                      rw (← one_byte_sound word letter l) g,
                      k,
                      other,
                    ))
            ]
          ]
        ]
      ]
    ]
  ]
]
  where
    verdict_sound :
        (pid number group pgid : ℤ) (letter : ℕ)
        → is_settled (
            if not (int_eq pid number) || not (leb_int (pos 0) group)
            then doubtful malformed_stat
            else if not (int_eq group pgid)
            then other_group
            else if letter == b'Z'
            then zombie
            else live)
          ≡ true
        → (pid ≡ number) × ((int_eq group pgid ≡ false) ⊎ (letter ≡ b'Z'))
    verdict_sound pid number group pgid letter h = elim (Bool-cases (int_eq pid number)) [
      | inr differ ↦ ground arith
      | inl same ↦ elim (Bool-cases (int_eq group pgid)) [
        | inr other ↦ ((int_eq_iff pid number).0 same, inl other)
        | inl own ↦ ((int_eq_iff pid number).0 same, inr (ground arith))
      ]
    ]

recheck-false : (k : Kill) → recheck k ≡ ok false → k ≡ absent
unfolding recheck
recheck-false absent h = refl
recheck-false denied h = cc
recheck-false failed h = cc
recheck-false delivered h = cc

recheck-true : (k : Kill) → recheck k ≡ ok true → ⊥
unfolding recheck
recheck-true absent h = cc
recheck-true denied h = cc
recheck-true failed h = cc
recheck-true delivered h = cc

Member-cases :
    (m : Member)
    → (m ≡ passed_over)
      ⊎ (m ≡ other_group)
      ⊎ (m ≡ zombie)
      ⊎ (m ≡ live)
      ⊎ ((u : Uncertain) × (m ≡ doubtful u))
Member-cases passed_over = inl refl
Member-cases other_group = inr (inl refl)
Member-cases zombie = inr (inr (inl refl))
Member-cases live = inr (inr (inr (inl refl)))
Member-cases (doubtful u) = inr (inr (inr (inr (u, refl))))

Kill-cases : (k : Kill) → (k ≡ absent) ⊎ (k ≡ delivered) ⊎ ((k ≡ denied) ⊎ (k ≡ failed))
Kill-cases absent = inl refl
Kill-cases delivered = inr (inl refl)
Kill-cases denied = inr (inr (inl refl))
Kill-cases failed = inr (inr (inr refl))

scan_gone :
    (pgid : ℤ) (reprobe : Kill) (matched : ℕ) (entries : List Entry)
    → scan pgid reprobe matched entries ≡ ok false
    → All (IsHarmless pgid) entries
unfolding scan
scan_gone pgid reprobe matched [] h = tt
scan_gone pgid reprobe matched (e ∷ es) h = elim (Member-cases (member_of pgid e)) [
  | inl k ↦ (
    member_of-IsHarmless pgid e (ap is_settled k),
    scan_gone pgid reprobe matched es (rw (k, scan) at h),
  )
  | inr (inl k) ↦ (
    member_of-IsHarmless pgid e (ap is_settled k),
    scan_gone pgid reprobe matched es (rw (k, scan) at h),
  )
  | inr (inr (inl k)) ↦ (
    member_of-IsHarmless pgid e (ap is_settled k),
    scan_gone pgid reprobe (matched + 1) es (rw (k, scan) at h),
  )
  | inr (inr (inr (inl k))) ↦ ground arith
  | inr (inr (inr (inr (u, k)))) ↦ ground arith
]

scan_live :
    (pgid : ℤ) (reprobe : Kill) (matched : ℕ) (entries : List Entry)
    → scan pgid reprobe matched entries ≡ ok true
    → (e : Entry) × Elem e entries × (member_of pgid e ≡ live)
unfolding scan
scan_live pgid reprobe matched [] h = elim (Bool-cases (ltb 0 matched)) [
  | inl k ↦ ground arith
  | inr k ↦ absurd (recheck-true reprobe (ground arith))
]
scan_live pgid reprobe matched (e ∷ es) h = elim (Member-cases (member_of pgid e)) [
  | inl k ↦ later (scan_live pgid reprobe matched es (rw (k, scan) at h))
  | inr (inl k) ↦ later (scan_live pgid reprobe matched es (rw (k, scan) at h))
  | inr (inr (inl k)) ↦ later (scan_live pgid reprobe (matched + 1) es (rw (k, scan) at h))
  | inr (inr (inr (inl k))) ↦ (e, inl refl, k)
  | inr (inr (inr (inr (u, k)))) ↦ ground arith
]
  where
    later :
        ((d : Entry) × Elem d es × (member_of pgid d ≡ live))
        → (d : Entry) × Elem d (e ∷ es) × (member_of pgid d ≡ live)
    later (d, m, k) = (d, inr m, k)

-- A group is reported gone only if the kernel says that it is absent, or if /proc could be listed
-- and each of its entries has no number for a name, or its stat file did not exist any more, or its
-- stat was read, is the well-formed record of that process and shows another group or a zombie.
pub group_exists_gone :
    (pgid : ℤ) (seen : Sighting)
    → group_exists pgid seen ≡ ok false
    → (seen.probe ≡ absent)
      ⊎ ((entries : List Entry) × (seen.entries ≡ some entries) × All (IsHarmless pgid) entries)
unfolding group_exists
group_exists_gone pgid seen h = elim (Bool-cases (leb_int (pos 1) pgid)) [
  | inr low ↦ ground arith
  | inl high ↦ elim (Kill-cases seen.probe) [
    | inl gone ↦ inl gone
    | inr (inl e) ↦ elim (Option-cases seen.entries) [
      | inl f ↦ ground arith
      | inr (entries, f) ↦ inr (entries, f, scan_gone pgid seen.reprobe 0 entries (ground arith))
    ]
    | inr (inr e) ↦ ground arith
  ]
]

-- A group is reported alive only if /proc shows a live member of it.
pub group_exists_live :
    (pgid : ℤ) (seen : Sighting)
    → group_exists pgid seen ≡ ok true
    → (entries : List Entry) × (seen.entries ≡ some entries)
      × ((e : Entry) × Elem e entries × (member_of pgid e ≡ live))
unfolding group_exists
group_exists_live pgid seen h = elim (Bool-cases (leb_int (pos 1) pgid)) [
  | inr low ↦ ground arith
  | inl high ↦ elim (Kill-cases seen.probe) [
    | inl gone ↦ ground arith
    | inr (inl e) ↦ elim (Option-cases seen.entries) [
      | inl f ↦ ground arith
      | inr (entries, f) ↦ (entries, f, scan_live pgid seen.reprobe 0 entries (ground arith))
    ]
    | inr (inr e) ↦ ground arith
  ]
]
