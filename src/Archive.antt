-- ===== src/Archive.antt =====
-- plugin/javahost/core/backup/archive.py: the extraction of an archive that an operator supplies.
-- `tarfile` gives the members of the open file, and `os.path.realpath` follows the links of the
-- file system; both are arguments. Extraction makes no link, so that a real path stays what it is.
-- An exception of `tarfile` or of the file system while a member is extracted is where it breaks.
mod Contained
mod Limits
mod Bounds
mod Tests
use aa_panel_tomcat_plugin.Prelude.{
  ℕ, zero, suc, ◌+◌, ◌^◌, ◌*◌, ◌%◌, take, Bool, true, false, not, ◌&&◌, ◌||◌, List, [], ◌∷◌, ◌++◌,
  Option, none, some, Text, codes, Result, ok, err, ltb, leb, ◌==◌, if◌then◌else◌, starts_with,
  split_on, among, text_eq, map, length,
}
use aa_panel_tomcat_plugin.Folders.{makedirs, make_parents}

abbrev pub max_compressed_archive_bytes : ℕ
max_compressed_archive_bytes = 2 * 1024 * 1024 * 1024

abbrev pub max_archive_members : ℕ
max_archive_members = 50_000

abbrev pub max_member_bytes : ℕ
max_member_bytes = 2 * 1024 * 1024 * 1024

abbrev pub max_total_extracted_bytes : ℕ
max_total_extracted_bytes = 8 * 1024 * 1024 * 1024

abbrev pub max_manifest_bytes : ℕ
max_manifest_bytes = 1024 * 1024

abbrev pub min_free_space_bytes : ℕ
min_free_space_bytes = 128 * 1024 * 1024

pub data UnsafeArchive : Type 0 where
  absolute_path path_traversal link_entry device_entry : Text → UnsafeArchive
  cannot_stat too_many_members expanded_too_large : UnsafeArchive
  compressed_too_large : ℕ → UnsafeArchive
  member_too_large : Text → ℕ → UnsafeArchive
  no_space : ℕ → ℕ → UnsafeArchive

-- The type of a member as `tarfile` reads it; `other` is any that is none of these.
pub data Kind : Type 0 where
  regular directory symlink hardlink device other : Kind

pub record TarInfo : Type 0 where
  pub name : Text
  pub kind : Kind
  pub size : ℕ
  pub mode : ℕ
  pub body : List ℕ

-- `isreg()`, `issym() or islnk()` and `isdev() or ischr() or isblk() or isfifo()`
abbrev pub is_reg : Kind → Bool
is_reg regular = true
is_reg kind = false

abbrev pub is_link : Kind → Bool
is_link symlink = true
is_link hardlink = true
is_link kind = false

abbrev pub is_dev : Kind → Bool
is_dev device = true
is_dev kind = false

-- `len(name) > 1 and name[1] == ":"`
has_drive : Text → Bool
has_drive (c ∷ d ∷ s) = d == b':'
has_drive s = false

pub is_absolute : Text → Bool
is_absolute name = starts_with (codes "/") name || starts_with (codes "\\") name || has_drive name

-- `name.replace("\\", "/").split("/")`
slashes : Text → Text
slashes name = map (λ c. if c == b'\\' then b'/' else c) name

pub parts_of : Text → List Text
parts_of name = split_on b'/' (slashes name)

pub is_below : Text → Text → Bool
is_below base target = text_eq target base || starts_with (base ++ codes "/") target

module _ (realpath : Text → Text) where
  pub safe_target : Text → Text → Result UnsafeArchive Text
  safe_target base name =
      if is_absolute name
      then err (absolute_path name)
      else if among (codes "..") (parts_of name)
      then err (path_traversal name)
      else if is_below base (realpath (base ++ (codes "/" ++ name)))
      then ok (realpath (base ++ (codes "/" ++ name)))
      else err (path_traversal name)

  -- `_validate_member`, with the target that it resolves
  pub validate_member : Text → TarInfo → Result UnsafeArchive Text
  validate_member base m =
      if is_link m.kind
      then err (link_entry m.name)
      else if is_dev m.kind
      then err (device_entry m.name)
      else elim (safe_target base m.name) [
        | err e ↦ err e
        | ok target ↦
            if is_reg m.kind && ltb max_member_bytes m.size
            then err (member_too_large m.name m.size)
            else ok target
      ]

-- `_check_compressed_size`; `none` where the file has no size to be told.
pub check_compressed_size : Option ℕ → Result UnsafeArchive ℕ
check_compressed_size none = err cannot_stat
check_compressed_size (some n) =
    if ltb max_compressed_archive_bytes n then err (compressed_too_large n) else ok n

abbrev grown : Kind → ℕ → ℕ → ℕ
grown kind size total = if is_reg kind then total + size else total

-- What extraction does with the file system.
pub data Write : Type 0 where
  made_directory : Text → Write
  wrote_file : Text → List ℕ → ℕ → Write

-- what is written for one member of that kind that passed, with the directories on the way to it
-- that were missing when the extraction began
pub materialize : (Text → Bool) → Text → TarInfo → Kind → List Write
materialize exists target m directory = map made_directory (makedirs exists target)
materialize exists target m regular =
    map made_directory (make_parents exists target)
    ++ (wrote_file target m.body (m.mode % 512) ∷ [])
materialize exists target m kind = []

-- where a member raises: the writes before it, and how much of a file that was opened is written
abbrev pub Break : Type 0
Break = ℕ × Option ℕ

-- the write that a break interrupts
abbrev pub partly : Option ℕ → Write → List Write
partly (some n) (wrote_file path body mode) = wrote_file path (take n body) mode ∷ []
partly bytes w = []

pub cut : ℕ → Option ℕ → List Write → List Write
cut steps bytes [] = []
cut zero bytes (w ∷ ws) = partly bytes w
cut (suc steps) bytes (w ∷ ws) = w ∷ cut steps bytes ws

-- An archive while it is open: its size, its members on the first reading and on the second, what
-- the disk has free, what exists when the extraction begins, and for the number of a member where
-- its extraction raises an exception of the system, if it does.
pub record Archive : Type 0 where
  pub compressed : Option ℕ
  pub members : List TarInfo
  pub again : List TarInfo
  pub free : ℕ
  pub exists : Text → Bool
  pub breaks : ℕ → Option Break

pub data Failure : Type 0 where
  unsafe : UnsafeArchive → Failure
  os_error : Failure

module _ (realpath : Text → Text) (base : Text) where
  -- the checks that both loops make of a member, by the number and the total size before it: the
  -- target and the new total
  pub admit : ℕ → ℕ → TarInfo → Result UnsafeArchive (Text × ℕ)
  admit count total m =
      if ltb max_archive_members (count + 1)
      then err too_many_members
      else elim (validate_member realpath base m) [
        | err e ↦ err e
        | ok target ↦
            if is_reg m.kind && ltb max_total_extracted_bytes (total + m.size)
            then err expanded_too_large
            else ok (target, grown m.kind m.size total)
      ]

  -- the loop of `_preflight`
  pub preflight_from : ℕ → ℕ → List TarInfo → Result UnsafeArchive ℕ
  preflight_from count total [] = ok total
  preflight_from count total (m ∷ ms) = elim (admit count total m) [
    | err e ↦ err e
    | ok (target, total') ↦ preflight_from (count + 1) total' ms
  ]

  pub preflight : Archive → Result UnsafeArchive ℕ
  preflight a = elim (check_compressed_size a.compressed) [
    | err e ↦ err e
    | ok n ↦ preflight_from 0 0 a.members
  ]

  -- one turn of the loop, before the others
  abbrev pub followed :
      Option Break → List Write → Option Failure × List Write → Option Failure × List Write
  followed none ws rest = (rest.0, ws ++ rest.1)
  followed (some (steps, bytes)) ws rest = (some os_error, cut steps bytes ws)

  -- the loop of `safe_extract_tar`: what it has written when it ends or raises
  pub extract_from :
      (Text → Bool) → (ℕ → Option Break) → ℕ → ℕ → List TarInfo → Option Failure × List Write
  extract_from exists breaks count total [] = (none, [])
  extract_from exists breaks count total (m ∷ ms) = elim (admit count total m) [
    | err e ↦ (some (unsafe e), [])
    | ok (target, total') ↦
        let rest = extract_from exists breaks (count + 1) total' ms in
        followed (breaks count) (materialize exists target m m.kind) rest
  ]

  -- `safe_extract_tar` behind the making of the destination, with the exception it raises if any
  pub safe_extract_tar : Archive → Option Failure × List Write
  safe_extract_tar a = elim (preflight a) [
    | err e ↦ (some (unsafe e), [])
    | ok total ↦
        if ltb a.free (total + min_free_space_bytes)
        then (some (unsafe (no_space (total + min_free_space_bytes) a.free)), [])
        else extract_from a.exists a.breaks 0 0 a.again
  ]

-- `read_member_bytes`, by the number and the total size before a member; `none` is also what any
-- exception becomes.
member_body : TarInfo → Option (List ℕ)
member_body m =
    if not (is_reg m.kind) || ltb max_manifest_bytes m.size
    then none
    else if leb (length (take (max_manifest_bytes + 1) m.body)) max_manifest_bytes
    then some (take (max_manifest_bytes + 1) m.body)
    else none

read_from : Text → ℕ → ℕ → List TarInfo → Option (List ℕ)
read_from arcname count total [] = none
read_from arcname count total (m ∷ ms) =
    let rest = read_from arcname (count + 1) (grown m.kind m.size total) ms in
    if ltb max_archive_members (count + 1)
    then none
    else if is_reg m.kind && ltb max_member_bytes m.size
    then none
    else if is_reg m.kind && ltb max_total_extracted_bytes (total + m.size)
    then none
    else if text_eq m.name arcname
    then member_body m
    else rest

pub read_member_bytes : Archive → Text → Option (List ℕ)
read_member_bytes a arcname = elim (check_compressed_size a.compressed) [
  | err e ↦ none
  | ok n ↦ read_from arcname 0 0 a.members
]
