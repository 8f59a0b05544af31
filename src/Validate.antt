-- ===== src/Validate.antt =====
-- plugin/javahost/core/util/validate.py: the checks that every request value passes.
mod Identifier
mod Domain
mod Numbers
mod Tests
use aa_panel_tomcat_plugin.Prelude.{
  ℕ, zero, suc, ◌*◌, Bool, true, false, not, ◌&&◌, ◌||◌, List, [], ◌∷◌, Option, none, some, Text,
  codes, Value, ℤ, pos, Result, ok, err, length, all, leb, leb_int, ◌==◌, if◌then◌else◌, is_alnum,
  strip, lower, remove_all, split_on, text_eq, among, text_or_empty, int_of,
}

-- The `ValueError`s, one for each place that raises.
pub data Error : Type 0 where
  invalid_identifier : Text → Error
  invalid_domain : Text → Error
  unsupported_tomcat : Value → Error
  invalid_port invalid_java invalid_memory : Value → Error
  port_out_of_range memory_out_of_range : ℤ → Error
  unsupported_java : ℤ → Error

-- `[A-Za-z0-9._-]`
unfoldable pub is_ident_char : ℕ → Bool
unfolding is_alnum
is_ident_char c = is_alnum c || c == b'.' || c == b'_' || c == b'-'

-- `$` holds at the end of the text and before a newline that ends it.
unfoldable pub at_end : Text → Bool
at_end [] = true
at_end (c ∷ []) = c == 10
at_end (c ∷ d ∷ s) = false

-- `[A-Za-z0-9._-]{0,n}$`
unfoldable pub ident_tail : ℕ → Text → Bool
unfolding is_ident_char at_end
ident_tail zero s = at_end s
ident_tail (suc n) [] = true
ident_tail (suc n) (c ∷ s) = (is_ident_char c && ident_tail n s) || at_end (c ∷ s)

-- `_IDENT_RE.match`
unfoldable pub ident_match : Text → Bool
unfolding ident_tail is_alnum
ident_match [] = false
ident_match (c ∷ s) = is_alnum c && ident_tail 62 s

unfoldable pub identifier : Value → Result Error Text
unfolding ident_match strip text_or_empty among
identifier value =
    let name = strip (text_or_empty value) in
    if not (ident_match name)
    then err (invalid_identifier name)
    else if among name (codes "." ∷ codes ".." ∷ [])
    then err (invalid_identifier name)
    else ok name

-- `[A-Za-z0-9-]`
pub is_label_char : ℕ → Bool
unfolding is_alnum
is_label_char c = is_alnum c || c == b'-'

starts_dash : Text → Bool
starts_dash [] = false
starts_dash (c ∷ s) = c == b'-'

ends_dash : Text → Bool
ends_dash [] = false
ends_dash (c ∷ []) = c == b'-'
ends_dash (c ∷ d ∷ s) = ends_dash (d ∷ s)

-- `(?!-)[A-Za-z0-9-]{1,63}(?<!-)` over a whole label
label_match : Text → Bool
unfolding is_label_char starts_dash ends_dash all
label_match w =
    leb 1 (length w)
    && leb (length w) 63
    && all is_label_char w
    && not (starts_dash w)
    && not (ends_dash w)

-- what `$` lets stand behind the match
drop_newline : Text → Text
drop_newline [] = []
drop_newline (c ∷ []) = if c == 10 then [] else c ∷ []
drop_newline (c ∷ d ∷ s) = c ∷ drop_newline (d ∷ s)

-- `_DOMAIN_RE.match`: no label holds a dot, so the labels are the pieces between the dots.
domain_match : Text → Bool
unfolding label_match drop_newline split_on
domain_match s =
    let name = drop_newline s in
    leb 1 (length name) && leb (length name) 253 && all label_match (split_on b'.' name)

pub domain : Value → Result Error Text
unfolding domain_match strip lower text_or_empty
domain value =
    let name = lower (strip (text_or_empty value)) in
    if not (domain_match name) then err (invalid_domain name) else ok name

abbrev pub supported_tomcat : List Text
supported_tomcat = codes "9" ∷ codes "10" ∷ codes "11" ∷ []

abbrev first_piece : List Text → Text
first_piece [] = []
first_piece (w ∷ ws) = w

unfoldable pub tomcat_version : Value → Result Error Text
unfolding strip lower remove_all split_on among text_or_empty
tomcat_version value =
    let raw = remove_all (codes "tomcat") (lower (strip (text_or_empty value))) in
    let major = first_piece (split_on b'.' raw) in
    if not (among major supported_tomcat) then err (unsupported_tomcat value) else ok major

within : ℤ → ℕ → ℕ → Bool
within p lo hi = leb_int (pos lo) p && leb_int p (pos hi)

pub port : Value → ℕ → ℕ → Result Error ℤ
unfolding int_of
port value lo hi = elim (int_of value) [
  | none ↦ err (invalid_port value)
  | some p ↦ if not (within p lo hi) then err (port_out_of_range p) else ok p
]

is_java_major : ℤ → Bool
is_java_major (pos v) = v == 8 || v == 11 || v == 17 || v == 21
is_java_major v = false

pub java_major : Value → Result Error ℤ
unfolding int_of
java_major value = elim (int_of value) [
  | none ↦ err (invalid_java value)
  | some v ↦ if not (is_java_major v) then err (unsupported_java v) else ok v
]

pub memory_mb : Value → ℕ → ℕ → Result Error ℤ
unfolding int_of
memory_mb value lo hi = elim (int_of value) [
  | none ↦ err (invalid_memory value)
  | some m ↦ if not (within m lo hi) then err (memory_out_of_range m) else ok m
]
