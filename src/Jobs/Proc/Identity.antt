-- ===== src/Jobs/Proc/Identity.antt =====
-- What a captured identity says of the process.
use aa_panel_tomcat_plugin.Prelude.{
  ◌≡◌, refl, ap, sym, some_eq, inl, inr, true, Option, List, [], ◌∷◌, ◌++◌, none, some, arith, any,
  ◌==◌, leb, false, length, take, drop, strip_by, ℕ, zero, suc, Text, codes, text_eq, text_eq_iff,
  Bool-cases, Option-cases, ℤ, pos, leb_int, int_eq, int_eq_iff, and_true,
}
use aa_panel_tomcat_plugin.Jobs.{Json}
use aa_panel_tomcat_plugin.Jobs.Proc.{
  Bytes, Identity, Procfs, Stat, parse_stat, field_int, int_of_json, argv_of, has_prefix,
  is_own_argv, born_at, capture_identity, capture_expected, expected_prefix, find, rfind,
  is_byte_space, byte_words, int_of_bytes,
}

-- A byte does not occur in the bytes.
abbrev pub Lacks : ℕ → Bytes → Type 0
Lacks b s = any (λ c. c == b) s ≡ false

-- The stat record's pid is the number before the first "(", and its words are those behind the last
-- ")", which stands behind that "(".
pub record HasFields (raw : Bytes) (stat : Stat) : Type 0 where
  before : Bytes
  rest : Bytes
  front : Bytes
  behind : Bytes
  opening : raw ≡ before ++ (b'(' ∷ rest)
  first : Lacks b'(' before
  closed : raw ≡ front ++ (b')' ∷ behind)
  closing : Lacks b')' behind
  in_order : leb (length front) (length before) ≡ false
  number : int_of_bytes (strip_by is_byte_space before) ≡ some stat.pid
  fields : stat.words ≡ byte_words behind

find_sound :
    (b : ℕ) (s : Bytes) (i : ℕ)
    → find b s ≡ some i
    → (before : Bytes) × (rest : Bytes) × (s ≡ before ++ (b ∷ rest))
      × Lacks b before
      × (take i s ≡ before)
      × (length before ≡ i)
unfolding find any
find_sound b [] i h = cc
find_sound b (c ∷ s) i h = elim (Bool-cases (c == b)) [
  | inl e ↦
      let same : i ≡ 0 = some_eq (sym (rw (e, find) at h)) in
      let eq : c ≡ b = ground arith in ([], s, ap (λ x. x ∷ s) eq, refl, rw same refl, rw same refl)
  | inr e ↦ elim (Option-cases (find b s)) [
    | inl k ↦ cc (rw (e, k, find) at h)
    | inr (j, k) ↦
        let (before, rest, f, l, t, n) = find_sound b s j k in
        let same : i ≡ suc j = some_eq (sym (rw (e, k, find) at h)) in
        (c ∷ before, rest, cc, rw e l, rw same (ap (λ xs. c ∷ xs) t), rw (same, n) refl)
  ]
]

rfind-none : (b : ℕ) (s : Bytes) → rfind b s ≡ none → Lacks b s
unfolding rfind any
rfind-none b [] h = refl
rfind-none b (c ∷ s) h = elim (Option-cases (rfind b s)) [
  | inl k ↦ elim (Bool-cases (c == b)) [
    | inl e ↦ ground arith
    | inr e ↦ rw (e, rfind-none b s k) refl
  ]
  | inr (j, k) ↦ cc (rw (k, rfind) at h)
]

rfind_sound :
    (b : ℕ) (s : Bytes) (i : ℕ)
    → rfind b s ≡ some i
    → (front : Bytes) × (behind : Bytes) × (s ≡ front ++ (b ∷ behind))
      × Lacks b behind
      × (drop (suc i) s ≡ behind)
      × (length front ≡ i)
unfolding rfind
rfind_sound b [] i h = cc
rfind_sound b (c ∷ s) i h = elim (Option-cases (rfind b s)) [
  | inl k ↦ elim (Bool-cases (c == b)) [
    | inl e ↦
        let same : i ≡ 0 = some_eq (sym (rw (k, e, rfind) at h)) in
        let eq : c ≡ b = ground arith in
        ([], s, ap (λ x. x ∷ s) eq, rfind-none b s k, rw same refl, rw same refl)
    | inr e ↦ cc (rw (k, e, rfind) at h)
  ]
  | inr (j, k) ↦
      let (front, behind, f, l, t, n) = rfind_sound b s j k in
      let same : i ≡ suc j = some_eq (sym (rw (k, rfind) at h)) in
      (c ∷ front, behind, cc, l, rw same t, rw (same, n) refl)
]

-- The process of that number runs this interpreter with this module, "exec", the job's real
-- directory, "--" and some further arguments, its stat record is its own, and field 22 of it, word 19
-- behind the last ")", is the start that the identity names.
pub record IsSupervisor (realpath : Text → Text) (executable module_file jdir : Text)
    (procfs : Procfs) (value : Json) (pid start : ℤ) : Type 0 where
  asked : int_of_json value ≡ some pid
  runs :
      (raw : Bytes) × (rest : List Bytes) × (procfs.cmdline pid ≡ some raw)
      × (argv_of raw
          ≡ some (
              executable ∷ realpath module_file ∷ codes "exec" ∷ realpath jdir ∷ codes "--" ∷ rest))
  born :
      (raw : Bytes) × (stat : Stat) × (procfs.stat pid ≡ some raw)
      × HasFields raw stat
      × (stat.pid ≡ pid)
      × (field_int 19 stat.words ≡ some start)
  after_boot : leb_int (pos 0) start ≡ true

has_prefix-append :
    (ws vs : List Bytes) → has_prefix ws vs ≡ true → (rest : List Bytes) × (vs ≡ ws ++ rest)
unfolding has_prefix
has_prefix-append [] vs h = (vs, refl)
has_prefix-append (w ∷ ws) [] h = cc
has_prefix-append (w ∷ ws) (v ∷ vs) h =
    let (same, more) = and_true (text_eq w v) (has_prefix ws vs) h in
    let (rest, e) = has_prefix-append ws vs more in (rest, cc ((text_eq_iff w v).0 same))

is_own_argv_sound :
    (expected : List Bytes) (o : Option Bytes)
    → is_own_argv expected o ≡ true
    → (raw : Bytes) × (rest : List Bytes) × (o ≡ some raw) × (argv_of raw ≡ some (expected ++ rest))
unfolding is_own_argv
is_own_argv_sound expected none h = cc
is_own_argv_sound expected (some raw) h = elim (Option-cases (argv_of raw)) [
  | inl e ↦ ground arith
  | inr (argv, e) ↦
      let (rest, f) = has_prefix-append expected argv (ground arith) in (raw, rest, refl, cc)
]

fields_sound :
    (raw : Bytes) (l r : ℕ) (stat : Stat) (pid : ℤ)
    → find b'(' raw ≡ some (suc l)
    → rfind b')' raw ≡ some r
    → leb r (suc l) ≡ false
    → int_of_bytes (strip_by is_byte_space (take (suc l) raw)) ≡ some pid
    → stat ≡ record { pid = pid; words = byte_words (drop (suc r) raw) }
    → HasFields raw stat
fields_sound raw l r stat pid f g order number e =
    let (before, rest, opening, first, taken, m) = find_sound b'(' raw (suc l) f in
    let (front, behind, closed, closing, dropped, n) = rfind_sound b')' raw r g in
    rw e (record {
      before = before;
      rest = rest;
      front = front;
      behind = behind;
      opening = opening;
      first = first;
      closed = closed;
      closing = closing;
      in_order = rw (m, n) order;
      number = rw (← taken) number;
      fields = rw dropped refl;
    })

pub parse_stat_sound : (raw : Bytes) (stat : Stat) → parse_stat raw ≡ some stat → HasFields raw stat
unfolding parse_stat
parse_stat_sound raw stat h = elim (Option-cases (find b'(' raw)) [
  | inl f ↦ cc (rw (f, parse_stat) at h)
  | inr (zero, f) ↦ cc (rw (f, parse_stat) at h)
  | inr (suc l, f) ↦ elim (Option-cases (rfind b')' raw)) [
    | inl g ↦ cc (rw (f, g, parse_stat) at h)
    | inr (r, g) ↦ elim (Bool-cases (leb r (suc l))) [
      | inl order ↦ cc (rw (f, g, order, parse_stat) at h)
      | inr order ↦ elim (Option-cases (int_of_bytes (strip_by is_byte_space (take (suc l) raw)))) [
        | inl k ↦ cc (rw (f, g, order, k, parse_stat) at h)
        | inr (pid, k) ↦
            fields_sound raw l r stat pid f g order k
              (sym (some_eq (rw (f, g, order, k, parse_stat) at h)))
      ]
    ]
  ]
]

born_at_sound :
    (pid : ℤ) (o : Option Bytes) (i : Identity)
    → born_at pid o ≡ some i
    → (i.0 ≡ pid)
      × ((raw : Bytes) × (stat : Stat) × (o ≡ some raw)
          × HasFields raw stat
          × (stat.pid ≡ pid)
          × (field_int 19 stat.words ≡ some i.1))
      × (leb_int (pos 0) i.1 ≡ true)
unfolding born_at
born_at_sound pid none i h = cc
born_at_sound pid (some raw) i h = elim (Option-cases (parse_stat raw)) [
  | inl e ↦ ground arith
  | inr (stat, e) ↦ elim (Option-cases (field_int 19 stat.words)) [
    | inl f ↦ ground arith
    | inr (start, f) ↦ elim (Bool-cases (leb_int (pos 0) start)) [
      | inr late ↦ ground arith
      | inl late ↦ elim (Bool-cases (int_eq stat.pid pid)) [
        | inr other ↦ ground arith
        | inl same ↦
            let e1 : i ≡ (pid, start) = ground arith in
            (
              ap (λ (j : Identity). j.0) e1,
              (raw, stat, refl, parse_stat_sound raw stat e, (int_eq_iff stat.pid pid).0 same, cc),
              cc,
            )
      ]
    ]
  ]
]

-- An identity is captured only of a process whose command line starts with this interpreter, this
-- module, "exec", the job's real directory and "--", and whose stat record names its own number
-- before the first "("; the start is field 22 of that record, counted behind its last ")".
pub capture_identity_sound :
    (realpath : Text → Text) (executable module_file jdir : Text) (procfs : Procfs) (value : Json)
    (pid start : ℤ)
    → capture_identity realpath executable module_file jdir procfs value ≡ some (pid, start)
    → IsSupervisor realpath executable module_file jdir procfs value pid start
unfolding capture_expected expected_prefix
capture_identity_sound realpath executable module_file jdir procfs value pid start h =
    let expected' = expected_prefix realpath executable module_file jdir in
    elim (Option-cases (int_of_json value)) [
      | inl e ↦ ground arith
      | inr (number, e) ↦ elim (Bool-cases (is_own_argv expected' (procfs.cmdline number))) [
        | inr other ↦ ground arith
        | inl own ↦
            let (same, born, late) =
              born_at_sound number (procfs.stat number) (pid, start) (ground arith) in
            record {
              asked = cc;
              runs = rw same (is_own_argv_sound expected' (procfs.cmdline number) own);
              born = rw same born;
              after_boot = late;
            }
      ]
    ]
