-- ===== src/Backups/Tests.antt =====
-- Three backups of which one is to be kept, and the theorem for them.
use aa_panel_tomcat_plugin.Prelude.{
  ◌≡◌, refl, Bool, true, false, not, ◌||◌, List, [], ◌∷◌, none, some, Text, codes, ok, str, pos,
  Elem, take, drop, filter, among, text_leb, any, all, text_eq, strip, is_space, trim_start,
  trim_end, strip_by, text_or_empty, truthy, text_of, is_alnum, is_digit, starts_with, sort_by, ap,
}
use aa_panel_tomcat_plugin.Validate.{identifier, ident_match, ident_tail, is_ident_char, at_end}
use aa_panel_tomcat_plugin.Backups.{
  Backup, local_names, prune_local, surplus, is_listed, entry_app, app_from_name, app_and_stamp,
  is_stamp, is_day, is_time, is_app_char, less_newline, remove_all, delete_local, backup_path,
  unlink,
}
use aa_panel_tomcat_plugin.Backups.Names.{backup_name, app_from_name-backup_name}
use aa_panel_tomcat_plugin.Backups.Keep.{IsDistinct, stays, prune_local-IsKept}

abbrev real : Text → Text
real path = path

abbrev unlocked : Text → Bool
unlocked name = false

abbrev old : Backup
old = record { name = codes "backup-shop-20240101T000000Z.tar.gz"; app = none }

abbrev recent : Backup
recent = record { name = codes "backup-shop-20250101T000000Z.tar.gz"; app = some (codes "shop") }

abbrev foreign : Backup
foreign = record { name = codes "backup-blog-20230101T000000Z.tar.gz"; app = none }

real-distinct : IsDistinct real (codes "/b") unlocked
real-distinct a b h = ap (drop 3) h

abbrev files : List Backup
files = old ∷ recent ∷ foreign ∷ []

abbrev pruned_files : List Backup × List Text
pruned_files = (recent ∷ foreign ∷ [], old.name ∷ [])

shop-named : identifier (str (codes "shop")) ≡ ok (codes "shop")
unfolding identifier ident_match ident_tail is_ident_char at_end strip strip_by is_space trim_start
    trim_end text_or_empty truthy text_of is_alnum among any text_eq
shop-named = refl

files-pruned :
    prune_local real (codes "/b") unlocked (str (codes "shop")) (pos 1) files ≡ ok pruned_files
unfolding identifier ident_match ident_tail is_ident_char at_end strip strip_by is_space trim_start
    trim_end text_or_empty truthy text_of is_alnum among any text_eq prune_local surplus local_names
    is_listed entry_app app_from_name app_and_stamp is_stamp is_day is_time is_app_char less_newline
    remove_all delete_local backup_path unlink starts_with all is_digit filter sort_by text_leb
files-pruned = refl

prune_local-IsKept_example :
    (recent ∷ foreign ∷ []
      ≡ filter
          (λ b.
            stays real (codes "/b") unlocked b.name
            || not (among b.name (drop 1 (local_names (codes "shop") files))))
          files)
    × ((a b : Text)
        → Elem a (take 1 (local_names (codes "shop") files))
        → Elem b (drop 1 (local_names (codes "shop") files))
        → text_leb b a ≡ true)
prune_local-IsKept_example =
    prune_local-IsKept real (codes "/b") unlocked (str (codes "shop")) (codes "shop") (pos 1) files
      pruned_files real-distinct shop-named files-pruned

app_from_name-backup_name_example :
    app_from_name (backup_name (codes "my-shop-2") (codes "20250101") (codes "010203"))
    ≡ some (codes "my-shop-2")
unfolding all is_app_char is_alnum is_digit
app_from_name-backup_name_example =
    app_from_name-backup_name (codes "my-shop-2") (codes "20250101") (codes "010203") refl refl refl
      refl refl refl
