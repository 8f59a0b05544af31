-- ===== src/Prelude/Among.antt =====
-- Membership of a text in a list of texts, as a test and as a proposition.
use mathlib.Core.Path.{◌≡◌, refl}
use mathlib.Core.Logic.{inl, inr}
use mathlib.Core.Bool.{true}
use mathlib.Core.List.{List, [], ◌∷◌}
use native.Mathlib.Omega.{arith}
use aa_panel_tomcat_plugin.Prelude.Tests.{Bool-cases}
use aa_panel_tomcat_plugin.Prelude.Lists.{Elem, any}
use aa_panel_tomcat_plugin.Prelude.Texts.{Text, among, text_eq, text_eq_iff}

pub among-Elem : (s : Text) (ts : List Text) → among s ts ≡ true → Elem s ts
unfolding among any
among-Elem s [] h = cc
among-Elem s (t ∷ ts) h = elim (Bool-cases (text_eq s t)) [
  | inl e ↦ inl ((text_eq_iff s t).0 e)
  | inr e ↦ inr (among-Elem s ts (ground arith))
]

pub Elem-among : (s : Text) (ts : List Text) → Elem s ts → among s ts ≡ true
unfolding among any
Elem-among s [] h = elim h [ ]
Elem-among s (t ∷ ts) (inl e) = rw ((text_eq_iff s t).1 e) refl
Elem-among s (t ∷ ts) (inr m) = ground (arith, Elem-among s ts m)
