-- ===== src/War.antt =====
-- plugin/javahost/core/deploy/war.py: a WAR extracted and put in the place of a web application.
-- `zipfile` gives the members, `os.path.realpath` follows the links of the file system; both are
-- arguments.
pub mod Root
mod Contained
mod Tests
use aa_panel_tomcat_plugin.Prelude.{
  ℕ, ◌+◌, ◌/◌, ◌%◌, ◌^◌, Bool, true, false, not, ◌&&◌, ◌||◌, List, [], ◌∷◌, ◌++◌, Option, none,
  some, Text, codes, Result, ok, err, ◌==◌, if◌then◌else◌, starts_with, text_eq, any, Dict, set_key,
  length, drop, take,
}
use aa_panel_tomcat_plugin.Folders.{makedirs, make_parents}
use aa_panel_tomcat_plugin.Logs.{ends_with}
use aa_panel_tomcat_plugin.Proxy.{contains}

pub data Failure : Type 0 where
  not_found : Failure
  bad_zip : Failure
  absolute_path path_traversal symlink_entry : Text → Failure
  not_written : Text → Failure
  not_renamed : Failure

-- A `ZipInfo` with what reading it gives; `broken` says where reading or writing it raises, if it
-- does: before its file is open, or behind so many bytes.
pub record Member : Type 0 where
  pub filename : Text
  pub external_attr : ℕ
  pub body : List ℕ
  pub broken : Option (Option ℕ)

-- `(external_attr >> 16) & 0o170000 == 0o120000`
pub is_symlink : ℕ → Bool
is_symlink attr = attr / 2 ^ 28 % 16 == 10

abbrev pub is_drive : Text → Bool
is_drive (a ∷ c ∷ s) = c == b':'
is_drive s = false

pub is_within : Text → Text → Bool
is_within base target = text_eq target base || starts_with (base ++ codes "/") target

-- the files of a tree, by their paths in it
abbrev pub Tree : Type 0
Tree = Dict (List ℕ)

-- The path of a target in the tree.
abbrev pub inside : Text → Text → Text
inside base target = drop (length base + 1) target

module _ (realpath : Text → Text) where
  -- `_safe_target`
  pub safe_target : Text → Text → Result Failure Text
  safe_target base name =
      if starts_with (codes "/") name || starts_with (codes "\\") name || is_drive name
      then err (absolute_path name)
      else if is_within (realpath base) (realpath (base ++ (codes "/" ++ name)))
      then ok (realpath (base ++ (codes "/" ++ name)))
      else err (path_traversal name)

  -- what is done to one member: the path that it is to have
  pub admit_member : Text → Member → Result Failure Text
  admit_member base m =
      if is_symlink m.external_attr
      then err (symlink_entry m.filename)
      else elim (safe_target base m.filename) [ err e ↦ err e | ok target ↦ ok target ]

-- `info.is_dir()`
pub is_dir : Member → Bool
is_dir m = ends_with (codes "/") m.filename

module _ (realpath : Text → Text) (exists : Text → Bool) where
  abbrev put_member : Text → Member → List ℕ → Text → Tree → Tree
  put_member base m bytes target tree =
      if is_dir m then tree else set_key (inside (realpath base) target) bytes tree

  -- the directories that are made for a member, and the file that is opened
  pub directories : Member → Text → List Text
  directories m target = if is_dir m then makedirs exists target else make_parents exists target

  pub opened : Member → Text → List Text
  opened m target = if is_dir m then [] else target ∷ []

  -- one turn of the loop, before the others
  pub placed :
      Text
      → Member
      → Text
      → Tree
      → Option (Option ℕ)
      → Tree × List Text × Option Failure
      → Tree × List Text × Option Failure
  placed base m target tree none rest =
      (rest.0, directories m target ++ (opened m target ++ rest.1), rest.2)
  placed base m target tree (some none) rest =
      (tree, directories m target, some (not_written m.filename))
  placed base m target tree (some (some n)) rest = (
    put_member base m (take n m.body) target tree,
    directories m target ++ opened m target,
    some (not_written m.filename),
  )

  -- the loop of `safe_extract`: the files, the directories that it made and the files that it opened
  -- so far, and the exception that ends it; `exists` is what exists when it begins
  pub extract_from : Text → List Member → Tree → Tree × List Text × Option Failure
  extract_from base [] tree = (tree, [], none)
  extract_from base (m ∷ members) tree = elim (admit_member realpath base m) [
    | err e ↦ (tree, [], some e)
    | ok target ↦
        let rest = extract_from base members (put_member base m m.body target tree) in
        placed base m target tree m.broken rest
  ]

  -- `safe_extract`, into a directory that has the files of `tree`; `none` is a BadZipFile
  pub safe_extract : Option (List Member) → Text → Tree → Tree × List Text × Option Failure
  safe_extract none base tree = (tree, [], some bad_zip)
  safe_extract (some members) base tree = extract_from base members tree

pub data Namespace : Type 0 where
  javax jakarta mixed : Namespace

-- a name of the archive, and the text of the member where it can be read
abbrev pub Entry : Type 0
Entry = Text × Option Text

abbrev reads : (Text → Bool) → Option Text → Bool
reads p none = false
reads p (some body) = p body

-- whether the text of a descriptor passes a test
abbrev described : (Text → Bool) → Entry → Bool
described p (name, body) =
    (ends_with (codes "web.xml") name || ends_with (codes ".tld") name) && reads p body

abbrev chosen : Bool → Bool → Option Namespace
chosen true true = some mixed
chosen true false = some jakarta
chosen false true = some javax
chosen false false = none

abbrev has_jakarta : Text → Bool
has_jakarta body = contains (codes "jakarta.servlet") body || contains (codes "jakarta.ee") body

abbrev has_javax : Text → Bool
has_javax body = contains (codes "javax.servlet") body || contains (codes "java.sun.com") body

-- `detect_namespace`: jakarta and javax by the names, or else by the descriptors
pub detect_namespace : Option (List Entry) → Option Namespace
detect_namespace none = none
detect_namespace (some entries) =
    let jakarta_names = any (λ e. contains (codes "jakarta/servlet/") e.0) entries in
    let javax_names = any (λ e. contains (codes "javax/servlet/") e.0) entries in
    if jakarta_names || javax_names
    then chosen jakarta_names javax_names
    else chosen (any (described has_jakarta) entries) (any (described has_javax) entries)

pub data Warning : Type 0 where
  needs_jakarta needs_tomcat_10 : Warning

-- `namespace_warning`, by the namespace of the Tomcat line
pub namespace_warning : Option Namespace → Text → Option Warning
namespace_warning none tomcat = none
namespace_warning (some jakarta) tomcat =
    if text_eq tomcat (codes "javax") then some needs_tomcat_10 else none
namespace_warning (some javax) tomcat =
    if text_eq tomcat (codes "jakarta") then some needs_jakarta else none
namespace_warning (some mixed) tomcat =
    if text_eq tomcat (codes "jakarta") then some needs_jakarta else none
