-- ===== src/Tail/Tests.antt =====
-- A log of three lines, and the theorem for its last two.
use aa_panel_tomcat_plugin.Prelude.{◌≡◌, refl, [], ◌∷◌, some, codes, join, arith}
use aa_panel_tomcat_plugin.Tail.{Bytes, lines_of, last, tail}
use aa_panel_tomcat_plugin.Tail.Whole.{tail-last}

abbrev log : Bytes
log = codes "one\ntwo\r\nthree\n"

log-lines : lines_of log ≡ codes "one" ∷ codes "two" ∷ codes "three" ∷ []
unfolding lines_of
log-lines = refl

tail-last_example : tail 2 log ≡ some (join (10 ∷ []) (last 2 (lines_of log)))
tail-last_example = tail-last 2 log (omega arith)
