-- ===== src/Jobs/Proc.antt =====
-- The checks of processes in core/jobs.py: the birth identity of a supervisor, and whether a
-- process group still has a live member.
mod Identity
mod Group
mod Tests
use mathlib.Core.Option
use aa_panel_tomcat_plugin.Prelude.{
  ℕ, zero, suc, ◌+◌, ◌/◌, ◌^◌, Bool, true, false, not, ◌&&◌, ◌||◌, List, [], ◌∷◌, ◌++◌, Option,
  none, some, Text, codes, Result, ok, err, length, take, drop, filter, get_elem?, all, leb, ltb,
  ◌==◌, if◌then◌else◌, is_empty, is_digit, text_eq, strip_by, split_by, split_on, ℤ, pos, negsuc,
  leb_int, int_eq, int_of_text, signed_value,
}
use aa_panel_tomcat_plugin.Jobs.{
  Json, null, bool, int, float, str, compound, finite, infinite, not_a_number,
}

abbrev pub Bytes : Type 0
Bytes = List ℕ

abbrev pub Identity : Type 0
Identity = ℤ × ℤ

is_byte_space : ℕ → Bool
is_byte_space c = (leb 9 c && leb c 13) || c == 32

-- `int(raw)` of bytes
int_of_bytes : Bytes → Option ℤ
int_of_bytes raw = signed_value (strip_by is_byte_space raw)

-- `raw.split()` of bytes
byte_words : Bytes → List Bytes
byte_words raw = filter (λ w. not (is_empty w)) (split_by is_byte_space raw)

-- `raw.find(b)` and `raw.rfind(b)`, with `none` for -1
find : ℕ → Bytes → Option ℕ
find b [] = none
find b (c ∷ s) = let later = Option.map suc (find b s) in if c == b then some 0 else later

rfind : ℕ → Bytes → Option ℕ
rfind b [] = none
rfind b (c ∷ s) = elim (rfind b s) [
  | none ↦ if c == b then some 0 else none
  | some i ↦ some (suc i)
]

-- towards zero, from units of 2⁻¹⁰⁷⁴
truncate : ℤ → ℤ
truncate (pos n) = pos (n / 2 ^ 1074)
truncate (negsuc n) = elim (suc n / 2 ^ 1074) [ zero ↦ pos 0 | suc m ↦ negsuc m ]

-- `int(value)` of a parsed value; `none` is an exception.
pub int_of_json : Json → Option ℤ
int_of_json null = none
int_of_json (bool b) = some (pos (if b then 1 else 0))
int_of_json (int z) = some z
int_of_json (float (finite z)) = some (truncate z)
int_of_json (float infinite) = none
int_of_json (float not_a_number) = none
int_of_json (str s) = int_of_text s
int_of_json (compound full) = none

-- The fields of a stat record that the code reads: the pid before the parentheses, and the words
-- behind the last of them.
pub record Stat : Type 0 where
  pub pid : ℤ
  pub words : List Bytes

-- Both parentheses stand in their places and the pid is a number.
pub parse_stat : Bytes → Option Stat
parse_stat raw = elim (find b'(' raw) [
  | none ↦ none
  | some zero ↦ none
  | some (suc l) ↦ elim (rfind b')' raw) [
    | none ↦ none
    | some r ↦
        if leb r (suc l)
        then none
        else elim (int_of_bytes (strip_by is_byte_space (take (suc l) raw))) [
          | none ↦ none
          | some pid ↦ some (record { pid = pid; words = byte_words (drop (suc r) raw) })
        ]
  ]
]

-- `int(stat_fields[i])`
pub field_int : ℕ → List Bytes → Option ℤ
field_int i words = elim (get_elem? words i) [ none ↦ none | some w ↦ int_of_bytes w ]

-- What procfs shows of a process; `none` where the file cannot be read.
pub record Procfs : Type 0 where
  pub cmdline : ℤ → Option Bytes
  pub stat : ℤ → Option Bytes

-- the argument vector: the bytes end in a NUL, and NULs part the arguments
init : Bytes → Bytes
init [] = []
init (c ∷ []) = []
init (c ∷ d ∷ s) = c ∷ init (d ∷ s)

ends_nul : Bytes → Bool
ends_nul [] = false
ends_nul (c ∷ []) = c == 0
ends_nul (c ∷ d ∷ s) = ends_nul (d ∷ s)

argv_of : Bytes → Option (List Bytes)
argv_of raw = if ends_nul raw then some (split_on 0 (init raw)) else none

has_prefix : List Bytes → List Bytes → Bool
has_prefix [] argv = true
has_prefix (w ∷ ws) [] = false
has_prefix (w ∷ ws) (v ∷ vs) = text_eq w v && has_prefix ws vs

is_own_argv : List Bytes → Option Bytes → Bool
is_own_argv expected none = false
is_own_argv expected (some raw) = elim (argv_of raw) [
  | none ↦ false
  | some argv ↦ has_prefix expected argv
]

born_at : ℤ → Option Bytes → Option Identity
born_at pid none = none
born_at pid (some raw) = elim (parse_stat raw) [
  | none ↦ none
  | some stat ↦ elim (field_int 19 stat.words) [
    | none ↦ none
    | some start ↦
        if not (int_eq stat.pid pid) || not (leb_int (pos 0) start) then none else some (pid, start)
  ]
]

-- How the supervisor's command line starts: the paths are the bytes that `os.fsencode` gives, since
-- `os.fsdecode` is injective.
pub expected_prefix : (Text → Text) → Text → Text → Text → List Bytes
expected_prefix realpath executable module_file jdir =
    executable ∷ realpath module_file ∷ codes "exec" ∷ realpath jdir ∷ codes "--" ∷ []

pub capture_expected : List Bytes → Procfs → Json → Option Identity
capture_expected expected procfs value = elim (int_of_json value) [
  | none ↦ none
  | some pid ↦
      if is_own_argv expected (procfs.cmdline pid) then born_at pid (procfs.stat pid) else none
]

-- `_capture_supervisor_identity`: `executable` is `sys.executable or "python3"` and `module_file`
-- is `__file__`.
abbrev pub capture_identity : (Text → Text) → Text → Text → Text → Procfs → Json → Option Identity
capture_identity realpath executable module_file jdir =
    capture_expected (expected_prefix realpath executable module_file jdir)

-- The answer of `os.killpg`; `absent` is ESRCH.
pub data Kill : Type 0 where
  delivered absent denied failed : Kill

pub data StatRead : Type 0 where
  vanished unreadable : StatRead
  contents : Bytes → StatRead

-- An entry of /proc with what reading its stat gives.
pub record Entry : Type 0 where
  pub name : Text
  pub stat : StatRead

-- What one call of `_process_group_exists` meets: its two probes by `killpg` and the entries of
-- /proc, `none` where they cannot be listed.
pub record Sighting : Type 0 where
  pub probe : Kill
  pub entries : Option (List Entry)
  pub reprobe : Kill

pub data Uncertain : Type 0 where
  invalid_group probe_failed unlisted stat_unreadable malformed_stat invisible : Uncertain

pub data Member : Type 0 where
  passed_over other_group zombie live : Member
  doubtful : Uncertain → Member

-- `entry.isdigit()`
pub is_pid_name : Text → Bool
is_pid_name name = not (is_empty name) && all is_digit name

one_byte : Bytes → Option ℕ
one_byte (c ∷ []) = some c
one_byte s = none

-- the entry's state letter and group, from a well-formed record of its own pid
pub member_of : ℤ → Entry → Member
member_of pgid entry = if not (is_pid_name entry.name) then passed_over else elim entry.stat [
  | vanished ↦ passed_over
  | unreadable ↦ doubtful stat_unreadable
  | contents raw ↦ elim (parse_stat raw) [
    | none ↦ doubtful malformed_stat
    | some stat ↦ elim (get_elem? stat.words 0) [
      | none ↦ doubtful malformed_stat
      | some word ↦ elim (field_int 2 stat.words) [
        | none ↦ doubtful malformed_stat
        | some group ↦ elim (one_byte word) [
          | none ↦ doubtful malformed_stat
          | some letter ↦ elim (int_of_text entry.name) [
            | none ↦ doubtful malformed_stat
            | some number ↦
                if not (int_eq stat.pid number) || not (leb_int (pos 0) group)
                then doubtful malformed_stat
                else if not (int_eq group pgid)
                then other_group
                else if letter == b'Z'
                then zombie
                else live
          ]
        ]
      ]
    ]
  ]
]

recheck : Kill → Result Uncertain Bool
recheck absent = ok false
recheck denied = err probe_failed
recheck failed = err probe_failed
recheck delivered = err invisible

scan : ℤ → Kill → ℕ → List Entry → Result Uncertain Bool
scan pgid reprobe matched [] = if ltb 0 matched then ok false else recheck reprobe
scan pgid reprobe matched (entry ∷ entries) = elim (member_of pgid entry) [
  | passed_over ↦ scan pgid reprobe matched entries
  | other_group ↦ scan pgid reprobe matched entries
  | zombie ↦ scan pgid reprobe (matched + 1) entries
  | live ↦ ok true
  | doubtful u ↦ err u
]

-- `_process_group_exists`
pub group_exists : ℤ → Sighting → Result Uncertain Bool
group_exists pgid seen = if not (leb_int (pos 1) pgid) then err invalid_group else elim seen.probe [
  | absent ↦ ok false
  | denied ↦ err probe_failed
  | failed ↦ err probe_failed
  | delivered ↦ elim seen.entries [
    | none ↦ err unlisted
    | some entries ↦ scan pgid seen.reprobe 0 entries
  ]
]
