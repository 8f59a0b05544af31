-- ===== src/Registry.antt =====
-- plugin/javahost/core/tomcat/registry.py: the lines of Tomcat and the newest patch of one. The
-- download and the scan of its text for versions are arguments.
mod Newest
mod Supported
mod Tests
use aa_panel_tomcat_plugin.Prelude.{
  ℕ, Bool, true, false, not, List, [], ◌∷◌, ◌++◌, Option, none, some, Text, codes, Result, ok, err,
  filter, if◌then◌else◌, starts_with, split_on, text_eq, ℤ, leb_int, int_eq, int_of_text,
}

pub record TomcatLine : Type 0 where
  pub major : Text
  pub line : Text
  pub min_java : ℕ
  pub namespace : Text
  pub legacy : Bool

pub data Error : Type 0 where
  unsupported_major : Text → Error
  no_patch unreachable bad_version : Error

abbrev pub line_9 : TomcatLine
line_9 = record {
  major = codes "9";
  line = codes "9.0";
  min_java = 8;
  namespace = codes "javax";
  legacy = true;
}

abbrev pub line_10 : TomcatLine
line_10 = record {
  major = codes "10";
  line = codes "10.1";
  min_java = 11;
  namespace = codes "jakarta";
  legacy = false;
}

abbrev pub line_11 : TomcatLine
line_11 = record {
  major = codes "11";
  line = codes "11.0";
  min_java = 17;
  namespace = codes "jakarta";
  legacy = false;
}

abbrev pub lines : List TomcatLine
lines = line_9 ∷ line_10 ∷ line_11 ∷ []

find_line : Text → List TomcatLine → Result Error TomcatLine
find_line major [] = err (unsupported_major major)
find_line major (l ∷ ls) =
    let rest = find_line major ls in if text_eq major l.major then ok l else rest

pub get_line : Text → Result Error TomcatLine
get_line major = find_line major lines

pub fallback_patch : Text → Text
fallback_patch major =
    if text_eq major (codes "9")
    then codes "9.0.107"
    else if text_eq major (codes "10")
    then codes "10.1.55"
    else codes "11.0.22"

abbrev pub Key : Type 0
Key = List ℤ

-- `tuple(int(x) for x in v.split("."))`; `none` is the ValueError.
numbers : List Text → Option Key
numbers [] = some []
numbers (w ∷ ws) = elim (int_of_text w) [
  | none ↦ none
  | some z ↦ elim (numbers ws) [ none ↦ none | some zs ↦ some (z ∷ zs) ]
]

pub ver_key : Text → Option Key
ver_key v = numbers (split_on b'.' v)

-- `a < b` of tuples
pub key_lt : Key → Key → Bool
key_lt a [] = false
key_lt [] (z ∷ b) = true
key_lt (x ∷ a) (z ∷ b) = let rest = key_lt a b in if int_eq x z then rest else leb_int x z

-- the versions with their keys
pub keyed : List Text → Option (List (Key × Text))
keyed [] = some []
keyed (v ∷ vs) = elim (ver_key v) [
  | none ↦ none
  | some k ↦ elim (keyed vs) [ none ↦ none | some ks ↦ some ((k, v) ∷ ks) ]
]

-- `max` keeps the first of the greatest.
abbrev pub better : Key × Text → Key × Text → Key × Text
better best c = if key_lt best.0 c.0 then c else best

pub newest : Key × Text → List (Key × Text) → Key × Text
newest best [] = best
newest best (c ∷ cs) = newest (better best c) cs

-- `v.startswith(line.line + ".")`
pub is_of_line : TomcatLine → Text → Bool
is_of_line line v = starts_with (line.line ++ codes ".") v

abbrev or_fallback : Bool → Error → Text → Result Error Text
or_fallback strict e major = if strict then err e else ok (fallback_patch major)

newest_of : Text → Bool → Option (List (Key × Text)) → Result Error Text
newest_of major strict none = or_fallback strict bad_version major
newest_of major strict (some []) = or_fallback strict no_patch major
newest_of major strict (some (v ∷ vs)) = ok (newest v vs).1

from_index : Text → TomcatLine → Option (List Text) → Bool → Result Error Text
from_index major line none strict = or_fallback strict unreachable major
from_index major line (some found) strict =
    newest_of major strict (keyed (filter (is_of_line line) found))

-- `resolve_latest_patch`: what the scan found in the index, `none` where it could not be read
pub resolve_latest_patch : Text → Option (List Text) → Bool → Result Error Text
resolve_latest_patch major index strict = elim (get_line major) [
  | err e ↦ err e
  | ok line ↦ from_index major line index strict
]
