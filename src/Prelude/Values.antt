-- ===== src/Prelude/Values.antt =====
-- A Python value as a request or a JSON document brings it to the code modelled here.
use Prim.Native.Nat.{zero, suc}
use mathlib.Core.Bool.{Bool, true, false}
use mathlib.Core.Option.{Option, none, some}
use mathlib.Core.List.{[], ◌∷◌}
use aa_panel_tomcat_plugin.Prelude.Texts.{Text, codes}
use aa_panel_tomcat_plugin.Prelude.Decimal.{ℤ, pos, negsuc, decimal, int_of_text}

pub data Value : Type 0 where
  null : Value
  bool : Bool → Value
  int : ℤ → Value
  str : Text → Value

-- `bool(value)`
unfoldable pub truthy : Value → Bool
truthy null = false
truthy (bool b) = b
truthy (int (pos zero)) = false
truthy (int (pos (suc n))) = true
truthy (int (negsuc n)) = true
truthy (str []) = false
truthy (str (c ∷ s)) = true

-- `str(value)`
unfoldable pub text_of : Value → Text
text_of null = codes "None"
text_of (bool true) = codes "True"
text_of (bool false) = codes "False"
text_of (int (pos n)) = decimal n
text_of (int (negsuc n)) = b'-' ∷ decimal (suc n)
text_of (str s) = s

-- `str(value or "")`
unfoldable pub text_or_empty : Value → Text
unfolding text_of truthy decimal
text_or_empty value = elim (truthy value) [ true ↦ text_of value | false ↦ [] ]

-- `int(value)`; `none` is the TypeError or the ValueError.
unfoldable pub int_of : Value → Option ℤ
unfolding int_of_text
int_of null = none
int_of (bool true) = some (pos 1)
int_of (bool false) = some (pos 0)
int_of (int z) = some z
int_of (str s) = int_of_text s
