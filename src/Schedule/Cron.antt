-- ===== src/Schedule/Cron.antt =====
-- Which cron expressions are accepted, and what is kept of them.
use aa_panel_tomcat_plugin.Prelude.{
  ◌≡◌, refl, ◌∙◌, ap, inl, inr, true, not, ◌||◌, ◌&&◌, ◌==◌, List, [], ◌∷◌, Text, codes, ok, length,
  All, All-map, All-append, arith, is_empty, is_space, strip, words, words-IsWord, IsWord, Free,
  join, all, all_sound, Bool-cases, and_true, ok_eq, split_by-join, filter-eq_self, sym, subst,
}
use aa_panel_tomcat_plugin.Schedule.{is_cron_char, is_cron_field, validate_cron}

words-join :
    (w : Text) (ws : List Text) → All IsWord (w ∷ ws) → words (join (codes " ") (w ∷ ws)) ≡ w ∷ ws
unfolding words is_space
words-join w ws h =
    rw
      (split_by-join is_space 32 w ws refl (All-map IsWord (Free is_space) (λ v k. k.1) (w ∷ ws) h))
      (filter-eq_self (λ v. not (is_empty v)) (w ∷ ws)
        (All-map IsWord _ (λ v k. ap not k.0) (w ∷ ws) h))

-- a character of a field, or the blank between two
abbrev pub IsCronText : Text → Type 0
IsCronText = All (λ c. (is_cron_char c || c == 32) ≡ true)

field-IsCronText : (f : Text) → is_cron_field f ≡ true → IsCronText f
unfolding is_cron_field
field-IsCronText f h =
    All-map _ _ (λ c k. ground arith) f
      (all_sound is_cron_char f (and_true (not (is_empty f)) (all is_cron_char f) h).1)

join-IsCronText :
    (ws : List Text) → All (λ f. is_cron_field f ≡ true) ws → IsCronText (join (codes " ") ws)
unfolding join
join-IsCronText [] h = tt
join-IsCronText (w ∷ []) (k, h) = field-IsCronText w k
join-IsCronText (w ∷ v ∷ ws) (k, h) =
    All-append _ w _ (field-IsCronText w k) (ground arith, join-IsCronText (v ∷ ws) h)

five : (ws : List Text) → (length ws == 5) ≡ true → All IsWord ws → words (join (codes " ") ws) ≡ ws
five [] h k = ground arith
five (w ∷ ws) h k = words-join w ws k

-- An accepted expression has exactly five fields, each of cron characters; what is kept has the same
-- fields and no character but those and the blanks between them, so that it cannot end its line.
pub validate_cron_sound :
    (expr cron : Text)
    → validate_cron expr ≡ ok cron
    → (length (words (strip expr)) ≡ 5)
      × All (λ f. is_cron_field f ≡ true) (words (strip expr))
      × (words cron ≡ words (strip expr))
      × IsCronText cron
unfolding validate_cron
validate_cron_sound expr cron h =
    elim (Bool-cases
      ((length (words (strip expr)) == 5) && all is_cron_field (words (strip expr)))) [
        | inr e ↦ ground arith
        | inl e ↦
            let (count, fields) =
              and_true (length (words (strip expr)) == 5) (all is_cron_field (words (strip expr)))
                e in
            let good = all_sound is_cron_field (words (strip expr)) fields in
            let same = ok_eq (rw e at h) in
            (
              ground arith,
              good,
              ap words same ∙ five _ count (words-IsWord (strip expr)),
              subst IsCronText (sym same) (join-IsCronText _ good),
            )
      ]
