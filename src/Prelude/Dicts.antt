-- ===== src/Prelude/Dicts.antt =====
-- Python's `dict` with text keys: an association list in the order of insertion.
use mathlib.Core.Path.{◌≡◌, refl, ◌∙◌}
use mathlib.Core.Logic.{◌≢◌, inl, inr}
use mathlib.Core.Bool.{not}
use mathlib.Core.Option.{Option, none, some}
use mathlib.Core.List.{List, [], ◌∷◌}
use native.Mathlib.Omega.{arith}
use aa_panel_tomcat_plugin.Prelude.Tests.{if◌then◌else◌, Bool-cases}
use aa_panel_tomcat_plugin.Prelude.Lists.{filter}
use aa_panel_tomcat_plugin.Prelude.Texts.{Text, text_eq, text_eq_iff, text_eq_refl}

abbrev pub Dict {ℓ} : Type ℓ → Type ℓ
Dict A = List (Text × A)

module _ {ℓ} {A : Type ℓ} where
  -- `d.get(key)`
  unfoldable pub find_key : Text → Dict A → Option A
  find_key key [] = none
  find_key key ((k, a) ∷ d) = let rest = find_key key d in if text_eq k key then some a else rest

  -- `d[key] = a`
  unfoldable pub set_key : Text → A → Dict A → Dict A
  set_key key a [] = (key, a) ∷ []
  set_key key a ((k, b) ∷ d) =
      let rest = set_key key a d in if text_eq k key then (k, a) ∷ d else (k, b) ∷ rest

  -- `del d[key]`
  unfoldable pub drop_key : Text → Dict A → Dict A
  unfolding filter
  drop_key key d = filter (λ e. not (text_eq e.0 key)) d

  -- `d.update(changes)`
  unfoldable pub update_keys : Dict A → Dict A → Dict A
  update_keys [] d = d
  update_keys ((k, a) ∷ changes) d = update_keys changes (set_key k a d)

  pub find_key-set_key : (key : Text) (a : A) (d : Dict A) → find_key key (set_key key a d) ≡ some a
  unfolding find_key set_key
  find_key-set_key key a [] = rw (text_eq_refl key) refl
  find_key-set_key key a ((k, b) ∷ d) = ground (arith, find_key-set_key key a d)

  pub find_key-set_key_ne :
      (other key : Text) (a : A) (d : Dict A)
      → other ≢ key
      → find_key other (set_key key a d) ≡ find_key other d
  unfolding find_key set_key
  find_key-set_key_ne other key a [] h = ground (arith, text_eq_iff key other)
  find_key-set_key_ne other key a ((k, b) ∷ d) h =
      ground (arith, find_key-set_key_ne other key a d h, text_eq_iff k key, text_eq_iff k other)

  pub find_key-drop_key : (key : Text) (d : Dict A) → find_key key (drop_key key d) ≡ none
  unfolding find_key drop_key filter
  find_key-drop_key key [] = refl
  find_key-drop_key key ((k, b) ∷ d) = ground (arith, find_key-drop_key key d)

  pub find_key-drop_key_ne :
      (other key : Text) (d : Dict A)
      → other ≢ key
      → find_key other (drop_key key d) ≡ find_key other d
  unfolding find_key drop_key filter
  find_key-drop_key_ne other key [] h = refl
  find_key-drop_key_ne other key ((k, b) ∷ d) h =
      ground (arith, find_key-drop_key_ne other key d h, text_eq_iff k key, text_eq_iff k other)

  -- A key that the changes do not name keeps its value.
  pub find_key-update_keys_ne :
      (key : Text) (changes d : Dict A)
      → find_key key changes ≡ none
      → find_key key (update_keys changes d) ≡ find_key key d
  unfolding find_key update_keys
  find_key-update_keys_ne key [] d h = refl
  find_key-update_keys_ne key ((k, a) ∷ changes) d h = elim (Bool-cases (text_eq k key)) [
    | inl e ↦ ground arith
    | inr e ↦
        find_key-update_keys_ne key changes (set_key k a d) (ground arith)
        ∙ find_key-set_key_ne key k a d (λ same. ground (arith, text_eq_iff k key))
  ]
