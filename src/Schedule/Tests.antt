-- ===== src/Schedule/Tests.antt =====
-- A schedule that is set, changed and removed, and the theorems for it.
use aa_panel_tomcat_plugin.Prelude.{
  ◌≡◌, refl, true, false, [], ◌∷◌, none, some, Text, codes, ok, length, All, pos, Value, str, strip,
  strip_by, is_space, trim_start, trim_end, words, split_by, split_on, filter, all, any, is_digit,
  is_alnum, among, text_eq, join,
}
use aa_panel_tomcat_plugin.Validate.{identifier, ident_match, ident_tail, at_end, is_ident_char}
use aa_panel_tomcat_plugin.Schedule.{
  is_cron_char, is_cron_field, validate_cron, Entry, assign, delete, Paths, Host, wanted, store,
  split_remotes, set_schedule, remove_schedule,
}
use aa_panel_tomcat_plugin.Schedule.Cron.{IsCronText, validate_cron_sound}
use aa_panel_tomcat_plugin.Schedule.Sync.{IsScheduled, set_schedule-IsScheduled}

abbrev nightly : Text
nightly = codes " 0 3 *  * *"

nightly-valid : validate_cron nightly ≡ ok (codes "0 3 * * *")
unfolding validate_cron is_cron_field is_cron_char strip strip_by is_space trim_start trim_end words
    split_by filter all is_digit join
nightly-valid = refl

validate_cron_sound_example :
    (length (words (strip nightly)) ≡ 5)
    × All (λ f. is_cron_field f ≡ true) (words (strip nightly))
    × (words (codes "0 3 * * *") ≡ words (strip nightly))
    × IsCronText (codes "0 3 * * *")
validate_cron_sound_example = validate_cron_sound nightly (codes "0 3 * * *") nightly-valid

abbrev paths : Paths
paths = record { python = codes "py"; runner = codes "run.py"; cron_log = codes "log" }

abbrev shop : Value
shop = str (codes "shop")

shop-valid : identifier shop ≡ ok (codes "shop")
unfolding identifier ident_match ident_tail at_end is_ident_char strip strip_by is_space trim_start
    trim_end is_alnum among any text_eq
shop-valid = refl

abbrev entry : Entry
entry = record {
  cron = codes "0 3 * * *";
  remotes = some (codes "s3" ∷ codes "ftp" ∷ []);
  remote = false;
  keep = 0;
}

abbrev fresh : Host
fresh = record { schedules = []; cron_dir = true; cron_file = none }

abbrev busy : Host
busy = record {
  schedules = (codes "shop", entry) ∷ [];
  cron_dir = true;
  cron_file = wanted paths ((codes "shop", entry) ∷ []);
}

shop-set :
    set_schedule paths shop nightly (codes "s3, ftp,") (pos 0) fresh ≡ ok (busy, codes "shop")
unfolding set_schedule store assign split_remotes split_on identifier ident_match ident_tail at_end
    is_ident_char strip strip_by is_space trim_start trim_end is_alnum among any text_eq
    validate_cron is_cron_field is_cron_char words split_by filter all is_digit join
shop-set = refl

set_schedule-IsScheduled_example :
    IsScheduled paths shop nightly (codes "s3, ftp,") (pos 0) fresh busy (codes "shop")
set_schedule-IsScheduled_example =
    set_schedule-IsScheduled paths shop nightly (codes "s3, ftp,") (pos 0) fresh busy (codes "shop")
      shop-set

shop-removed :
    remove_schedule paths shop busy
    ≡ ok (record { schedules = []; cron_dir = true; cron_file = wanted paths [] }, true)
unfolding remove_schedule store delete identifier ident_match ident_tail at_end is_ident_char strip
    strip_by is_space trim_start trim_end is_alnum among any text_eq filter
shop-removed = refl
