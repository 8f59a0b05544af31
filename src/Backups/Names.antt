-- ===== src/Backups/Names.antt =====
-- The name that a backup is given, and the application that is read from it.
use aa_panel_tomcat_plugin.Prelude.{
  ℕ, suc, zero, ◌-◌, ◌≡◌, refl, ap, ◌∙◌, true, false, [], ◌∷◌, ◌++◌, some, Text, codes, all,
  is_empty, is_digit, take, drop, length, length-append, starts_with, text_eq, arith,
}
use aa_panel_tomcat_plugin.Backups.{
  app_from_name, app_and_stamp, is_stamp, is_day, is_time, is_app_char, less_newline,
}

-- `"backup-%s-%s.tar.gz"`, with the day and the time of `_now_stamp`
pub backup_name : Text → Text → Text → Text
backup_name app day time =
    codes "backup-" ++ (app ++ (codes "-" ++ (day ++ (codes "T" ++ (time ++ codes "Z.tar.gz")))))

less_newline-append :
    (s : Text) (c : ℕ) (t : Text) → less_newline (s ++ c ∷ t) ≡ s ++ less_newline (c ∷ t)
unfolding less_newline
less_newline-append [] c t = refl
less_newline-append (a ∷ []) c t = refl
less_newline-append (a ∷ b ∷ s) c t = ap (λ r. a ∷ r) (less_newline-append (b ∷ s) c t)

take-append : (n : ℕ) (s t : Text) → length s ≡ n → take n (s ++ t) ≡ s
take-append zero [] t h = refl
take-append zero (c ∷ s) t h = absurd (omega arith)
take-append (suc n) [] t h = absurd (omega arith)
take-append (suc n) (c ∷ s) t h = ap (λ r. c ∷ r) (take-append n s t (omega arith))

drop-append : (n : ℕ) (s t : Text) → length s ≡ n → drop n (s ++ t) ≡ t
drop-append zero [] t h = refl
drop-append zero (c ∷ s) t h = absurd (omega arith)
drop-append (suc n) [] t h = absurd (omega arith)
drop-append (suc n) (c ∷ s) t h = drop-append n s t (omega arith)

abbrev stamp : Text → Text → Text
stamp day time = codes "-" ++ (day ++ (codes "T" ++ (time ++ codes "Z.tar.gz")))

less_newline-name :
    (app day time : Text) → less_newline (app ++ stamp day time) ≡ app ++ stamp day time
unfolding less_newline
less_newline-name app day time =
    less_newline-append app b'-' (day ++ (codes "T" ++ (time ++ codes "Z.tar.gz")))
    ∙ ap (λ r. app ++ r)
        (less_newline-append (codes "-" ++ day) b'T' (time ++ codes "Z.tar.gz")
          ∙ ap (λ r. codes "-" ++ (day ++ r))
              (less_newline-append (codes "T" ++ time) b'Z' (codes ".tar.gz")))

is_time-append :
    (time : Text)
    → length time ≡ 6
    → all is_digit time ≡ true
    → is_time (codes "T" ++ (time ++ codes "Z.tar.gz")) ≡ true
unfolding is_time starts_with text_eq
is_time-append time k m =
    rw
      (is_time, take-append 6 time (codes "Z.tar.gz") k, drop-append 6 time (codes "Z.tar.gz") k, m)
      refl

is_stamp-append :
    (day time : Text)
    → length day ≡ 8
    → length time ≡ 6
    → all is_digit day ≡ true
    → all is_digit time ≡ true
    → is_stamp (stamp day time) ≡ true
unfolding is_stamp is_day starts_with
is_stamp-append day time h k l m =
    let rest = codes "T" ++ (time ++ codes "Z.tar.gz") in
    rw
      (
        is_stamp,
        is_day,
        take-append 8 day rest h,
        drop-append 8 day rest h,
        h,
        l,
        is_time-append time k m,
      )
      refl

length-stamp : (day time : Text) → length day ≡ 8 → length time ≡ 6 → length (stamp day time) ≡ 24
length-stamp day time h k = omega (
  arith,
  h,
  k,
  length-append day (codes "T" ++ (time ++ codes "Z.tar.gz")),
  length-append time (codes "Z.tar.gz"),
)

app_and_stamp-append :
    (app day time : Text)
    → is_empty app ≡ false
    → all is_app_char app ≡ true
    → length (stamp day time) ≡ 24
    → is_stamp (stamp day time) ≡ true
    → app_and_stamp (app ++ stamp day time) ≡ some app
unfolding app_and_stamp
app_and_stamp-append app day time e h k l =
    let fits : length app ≡ length (app ++ stamp day time) - 24 =
      omega (arith, length-append app (stamp day time), k) in
    rw
      (
        app_and_stamp,
        take-append _ app (stamp day time) fits,
        drop-append _ app (stamp day time) fits,
        e,
        h,
        l,
      )
      refl

-- The name that a backup of an application is given at a day and a time of digits is read back as
-- a backup of that application, whatever dashes and digits its own name has.
pub app_from_name-backup_name :
    (app day time : Text)
    → is_empty app ≡ false
    → all is_app_char app ≡ true
    → length day ≡ 8
    → length time ≡ 6
    → all is_digit day ≡ true
    → all is_digit time ≡ true
    → app_from_name (backup_name app day time) ≡ some app
unfolding app_from_name backup_name starts_with
app_from_name-backup_name app day time e f h k l m =
    rw (app_from_name, less_newline-name (codes "backup-" ++ app) day time)
      (app_and_stamp-append app day time e f (length-stamp day time h k)
        (is_stamp-append day time h k l m))
