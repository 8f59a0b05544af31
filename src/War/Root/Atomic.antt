-- ===== src/War/Root/Atomic.antt =====
-- The live tree is replaced as a whole, or kept.
use aa_panel_tomcat_plugin.Prelude.{
  ◌≡◌, refl, inl, inr, ◌⊎◌, Bool, true, false, List, [], Option, none, some, Text, Bool-cases,
}
use aa_panel_tomcat_plugin.War.{Failure, Member, Tree, safe_extract}
use aa_panel_tomcat_plugin.War.Root.{
  Site, Luck, rmtree_quiet, move_aside, promote, roll_back, swap, finish, staged, replace_root,
}

-- With no exception the live tree is the new one; with one it is the old one, or the old one stands
-- aside, as it could not be moved back.
abbrev pub IsReplaced : Luck → Tree → Option Tree → Option Failure → Site → Type 0
IsReplaced luck new old none after = after.live ≡ some new
IsReplaced luck new old (some e) after =
    (after.live ≡ old) ⊎ ((luck.restores ≡ false) × (after.live ≡ none) × (after.backup ≡ old))

abbrev Replaced : Luck → Tree → Option Tree → Site × Option Failure → Type 0
Replaced luck new old r = IsReplaced luck new old r.1 r.0

swap-IsReplaced :
    (luck : Luck) (new : Tree) (old : Option Tree)
    → Replaced luck new old (swap luck (record { live = old; staging = some new; backup = none }))
unfolding swap move_aside promote roll_back
swap-IsReplaced luck new none = elim (Bool-cases luck.promotes) [
  | inl e ↦ rw (swap, promote, e) refl
  | inr e ↦ rw (swap, promote, e) (inl refl)
]
swap-IsReplaced luck new (some t) = elim (Bool-cases luck.moves_aside) [
  | inl e ↦ elim (Bool-cases luck.promotes) [
    | inl f ↦ rw (swap, move_aside, promote, e, f) refl
    | inr f ↦ elim (Bool-cases luck.restores) [
      | inl g ↦ rw (swap, move_aside, promote, roll_back, e, f, g) (inl refl)
      | inr g ↦ rw (swap, move_aside, promote, roll_back, e, f, g) (inr (refl, refl, refl))
    ]
  ]
  | inr e ↦ rw (swap, move_aside, e) (inl refl)
]

finish-IsReplaced :
    (luck : Luck) (new : Tree) (old : Option Tree) (e : Option Failure)
    → Replaced luck new old
        (finish luck (record { live = old; staging = some new; backup = none }) e)
unfolding roll_back
finish-IsReplaced luck new old none = swap-IsReplaced luck new old
finish-IsReplaced luck new none (some e) = inl refl
finish-IsReplaced luck new (some t) (some e) = inl refl

-- Where nothing is left over from an earlier run, or it could be removed, `replace_root` never
-- leaves a mixture of two trees: with no exception the live tree is what the WAR holds, and with
-- one it is the old tree, which stands aside only if moving it back fails as well.
pub replace_root-IsReplaced :
    (realpath : Text → Text) (exists : Text → Bool) (luck : Luck) (found : Bool)
    (members : Option (List Member)) (staging : Text) (site : Site)
    → rmtree_quiet luck site.staging ≡ none
    → rmtree_quiet luck site.backup ≡ none
    → IsReplaced luck
        (safe_extract realpath exists members staging []).0
        site.live
        (replace_root realpath exists luck found members staging site).1
        (replace_root realpath exists luck found members staging site).0
unfolding replace_root staged
replace_root-IsReplaced realpath exists luck false members staging site h k = inl refl
replace_root-IsReplaced realpath exists luck true members staging site h k =
    let extracted = safe_extract realpath exists members staging [] in
    rw (h, k) (finish-IsReplaced luck extracted.0 site.live extracted.2)
