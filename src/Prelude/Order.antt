-- ===== src/Prelude/Order.antt =====
-- The order that Python's `sorted` gives texts: by code points, a prefix first.
use mathlib.Core.Path.{◌≡◌, refl}
use mathlib.Core.Bool.{Bool, true, false}
use mathlib.Core.List.{[], ◌∷◌}
use native.Mathlib.Omega.{arith}
use aa_panel_tomcat_plugin.Prelude.Tests.{ltb, ◌==◌, if◌then◌else◌}
use aa_panel_tomcat_plugin.Prelude.Texts.{Text}

unfoldable pub text_leb : Text → Text → Bool
text_leb [] t = true
text_leb (a ∷ s) [] = false
text_leb (a ∷ s) (b ∷ t) = let rest = text_leb s t in if a == b then rest else ltb a b

pub text_leb_total : (s t : Text) → text_leb s t ≡ false → text_leb t s ≡ true
unfolding text_leb
text_leb_total [] t h = cc
text_leb_total (a ∷ s) [] h = refl
text_leb_total (a ∷ s) (b ∷ t) h = ground (arith, text_leb_total s t)

pub text_leb_trans :
    (s t u : Text) → text_leb s t ≡ true → text_leb t u ≡ true → text_leb s u ≡ true
unfolding text_leb
text_leb_trans [] t u h k = refl
text_leb_trans (a ∷ s) [] u h k = cc
text_leb_trans (a ∷ s) (b ∷ t) [] h k = cc
text_leb_trans (a ∷ s) (b ∷ t) (c ∷ u) h k = ground (arith, text_leb_trans s t u)
