-- ===== src/Jobs/Proc/Tests.antt =====
-- A supervisor and two process groups in procfs, and the theorems for them.
use aa_panel_tomcat_plugin.Prelude.{
  ◌≡◌, ◌⊎◌, refl, true, false, List, [], ◌∷◌, ◌++◌, some, Text, codes, ok, All, pos, text_eq,
  strip_by, trim_start, trim_end, split_by, split_on, filter, is_digit, all, signed_value,
  int_of_text, int_eq, strip,
}
use aa_panel_tomcat_plugin.Jobs.{int}
use aa_panel_tomcat_plugin.Jobs.Proc.{
  delivered, Bytes, Procfs, capture_identity, capture_expected, expected_prefix, int_of_json,
  is_own_argv, argv_of, ends_nul, init, has_prefix, born_at, parse_stat, find, rfind, int_of_bytes,
  is_byte_space, byte_words, field_int, absent, contents, Entry, Sighting, is_pid_name, one_byte,
  member_of, scan, group_exists,
}
use aa_panel_tomcat_plugin.Jobs.Proc.Identity.{IsSupervisor, capture_identity_sound}
use aa_panel_tomcat_plugin.Jobs.Proc.Group.{IsHarmless, group_exists_gone}

abbrev python : Text
python = codes "py"

abbrev module_file : Text
module_file = codes "/m"

-- each argument with a NUL behind it
abbrev join_nul : List Bytes → Bytes
join_nul [] = []
join_nul (w ∷ ws) = w ++ (0 ∷ join_nul ws)

abbrev proc : Procfs
proc = record {
  cmdline = λ pid. some (
      join_nul (python ∷ module_file ∷ codes "exec" ∷ codes "/j/a" ∷ codes "--" ∷ codes "sh" ∷ []));
  stat = λ pid. some (codes "7 (p) y) S 1 7 7 0 0 0 0 0 0 0 0 0 0 0 0 0 1 0 99 0");
}

captured :
    capture_identity (λ p. p) python module_file (codes "/j/a") proc (int (pos 7))
    ≡ some (pos 7, pos 99)
unfolding capture_expected expected_prefix int_of_json is_own_argv argv_of ends_nul init has_prefix
    born_at parse_stat find rfind int_of_bytes is_byte_space byte_words field_int text_eq strip_by
    trim_start trim_end split_by split_on filter signed_value int_eq
captured = refl

capture_identity_sound_example :
    IsSupervisor (λ p. p) python module_file (codes "/j/a") proc (int (pos 7)) (pos 7) (pos 99)
capture_identity_sound_example =
    capture_identity_sound (λ p. p) python module_file (codes "/j/a") proc (int (pos 7)) (pos 7)
      (pos 99) captured

abbrev dead : List Entry
dead =
    record { name = codes "7"; stat = contents (codes "7 (py) Z 1 7 7") }
    ∷ record { name = codes "self"; stat = contents [] }
    ∷ []

abbrev alive : List Entry
alive = record { name = codes "8"; stat = contents (codes "8 (sh) R 1 7 7") } ∷ dead

abbrev seeing : List Entry → Sighting
seeing entries = record { probe = delivered; entries = some entries; reprobe = delivered }

dead-group : group_exists (pos 7) (seeing dead) ≡ ok false
unfolding group_exists scan member_of is_pid_name one_byte parse_stat find rfind int_of_bytes
    is_byte_space byte_words field_int strip_by trim_start trim_end split_by filter signed_value
    int_eq is_digit all int_of_text strip
dead-group = refl

alive-group : group_exists (pos 7) (seeing alive) ≡ ok true
unfolding group_exists scan member_of is_pid_name one_byte parse_stat find rfind int_of_bytes
    is_byte_space byte_words field_int strip_by trim_start trim_end split_by filter signed_value
    int_eq is_digit all int_of_text strip
alive-group = refl

group_exists_gone_example :
    (delivered ≡ absent)
    ⊎ ((entries : List Entry) × (some dead ≡ some entries) × All (IsHarmless (pos 7)) entries)
group_exists_gone_example = group_exists_gone (pos 7) (seeing dead) dead-group
