-- ===== src/Archive/Tests.antt =====
-- A small archive, one that holds a link, and the theorems for them.
use aa_panel_tomcat_plugin.Prelude.{
  ◌≤◌, leb, filter, ◌≡◌, refl, arith, List, [], ◌∷◌, none, some, Text, codes, ok, err, length, All,
  starts_with, split_on, split_by, among, any, text_eq,
}
use aa_panel_tomcat_plugin.Archive.{
  link_entry, TarInfo, regular, directory, symlink, is_absolute, has_drive, slashes, parts_of,
  is_below, safe_target, validate_member, check_compressed_size, admit, preflight_from, preflight,
  Archive, materialize, extract_from, safe_extract_tar, made_directory, wrote_file,
  max_archive_members, max_total_extracted_bytes, read_member_bytes, read_from, member_body,
}
use aa_panel_tomcat_plugin.Archive.Limits.{safe_extract_tar-none}
use aa_panel_tomcat_plugin.Archive.Contained.{IsContained, safe_extract_tar-IsContained}
use aa_panel_tomcat_plugin.Archive.Bounds.{files, written, safe_extract_tar-bounds}
use aa_panel_tomcat_plugin.Folders.{heads, makedirs, make_parents}
use aa_panel_tomcat_plugin.Folders.Contained.{IsMade}

abbrev real : Text → Text
real p = p

abbrev base : Text
base = codes "/d"

abbrev folder : TarInfo
folder = record { name = codes "app"; kind = directory; size = 0; mode = 493; body = [] }

abbrev file : TarInfo
file = record { name = codes "app/a"; kind = regular; size = 2; mode = 4516; body = 7 ∷ 8 ∷ [] }

abbrev link : TarInfo
link = record { name = codes "app/l"; kind = symlink; size = 0; mode = 511; body = [] }

abbrev archive_of : List TarInfo → Archive
archive_of ms = record {
  compressed = some 100;
  members = ms;
  again = ms;
  free = 1_000_000_000;
  exists = λ p. leb (length p) 2;
  breaks = λ n. none;
}

abbrev small : Archive
small = archive_of (folder ∷ file ∷ [])

small-preflight : preflight real base small ≡ ok 2
unfolding preflight preflight_from admit validate_member safe_target is_absolute has_drive slashes
    parts_of is_below check_compressed_size starts_with split_on split_by among any text_eq
small-preflight = refl

small-extracted : safe_extract_tar real base small ≡ (
  none,
  made_directory (codes "/d/app")
      ∷ made_directory (codes "/d/app")
      ∷ wrote_file (codes "/d/app/a") (7 ∷ 8 ∷ []) 420
      ∷ [],
)
unfolding safe_extract_tar makedirs make_parents heads filter extract_from materialize preflight
    preflight_from admit validate_member safe_target is_absolute has_drive slashes parts_of is_below
    check_compressed_size starts_with split_on split_by among any text_eq
small-extracted = refl

small-read : read_member_bytes small (codes "app/a") ≡ some (7 ∷ 8 ∷ [])
unfolding read_member_bytes read_from member_body check_compressed_size text_eq
small-read = refl

link-refused : validate_member real base link ≡ err (link_entry (codes "app/l"))
unfolding validate_member
link-refused = refl

safe_extract_tar-none_example : (safe_extract_tar real base small).0 ≡ none
safe_extract_tar-none_example =
    safe_extract_tar-none real base small 2 small-preflight refl (ground arith) (λ n. refl)

base-IsMade : IsMade small.exists base
unfolding heads
base-IsMade = record { itself = refl; above = (refl, tt) }

safe_extract_tar-IsContained_example :
    All (IsContained real base) (safe_extract_tar real base small).1
safe_extract_tar-IsContained_example = safe_extract_tar-IsContained real base small base-IsMade

safe_extract_tar-bounds_example :
    (files (safe_extract_tar real base small).1 ≤ max_archive_members)
    × (written (safe_extract_tar real base small).1 ≤ max_total_extracted_bytes)
safe_extract_tar-bounds_example =
    safe_extract_tar-bounds real base small (ground arith, (ground arith, tt))
