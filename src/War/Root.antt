-- ===== src/War/Root.antt =====
-- plugin/javahost/core/deploy/war.py: `replace_root`, which swaps the extracted tree for the live one.
pub mod Atomic
use aa_panel_tomcat_plugin.Prelude.{
  Bool, true, false, not, ◌&&◌, List, [], ◌∷◌, Option, none, some, Text, if◌then◌else◌, is_some,
}
use aa_panel_tomcat_plugin.War.{Failure, not_found, not_renamed, Member, Tree, safe_extract}

-- The live tree and the two that stand beside it while it is replaced.
pub record Site : Type 0 where
  pub live : Option Tree
  pub staging : Option Tree
  pub backup : Option Tree

-- What the calls meet: whether a tree can be removed, and whether each of the renames succeeds.
pub record Luck : Type 0 where
  pub removes : Bool
  pub moves_aside : Bool
  pub promotes : Bool
  pub restores : Bool

-- `_rmtree_quiet` of a tree
unfoldable pub rmtree_quiet : Luck → Option Tree → Option Tree
rmtree_quiet luck tree = if luck.removes then none else tree

abbrev tree_of : Option Tree → Tree
tree_of none = []
tree_of (some tree) = tree

-- `os.rename(dest_dir, backup)`, where there is a live tree; a backup that is not empty stops it
pub move_aside : Luck → Site → Option Site
move_aside luck site = elim site.live [
  | none ↦ some site
  | some tree ↦ elim (luck.moves_aside && not (is_some site.backup)) [
    | true ↦ some (record site { live = none; backup = some tree })
    | false ↦ none
  ]
]

-- `os.rename(staging, dest_dir)`
pub promote : Luck → Site → Option Site
promote luck site =
    if luck.promotes && not (is_some site.live)
    then some (record site { live = site.staging; staging = none })
    else none

-- the `except` of `replace_root`
pub roll_back : Luck → Site → Site
roll_back luck site =
    if not (is_some site.live) && is_some site.backup && luck.restores
    then record { live = site.backup; staging = rmtree_quiet luck site.staging; backup = none }
    else record site { staging = rmtree_quiet luck site.staging }

pub swap : Luck → Site → Site × Option Failure
swap luck site = elim (move_aside luck site) [
  | none ↦ (roll_back luck site, some not_renamed)
  | some moved ↦ elim (promote luck moved) [
    | none ↦ (roll_back luck moved, some not_renamed)
    | some done ↦ (record done { backup = rmtree_quiet luck done.backup }, none)
  ]
]

abbrev finish : Luck → Site → Option Failure → Site × Option Failure
finish luck site none = swap luck site
finish luck site (some e) = (roll_back luck site, some e)

-- the site with what was left over removed, and the WAR extracted into the staging tree; `exists` is
-- what exists when the extraction begins
pub staged :
    (Text → Text)
    → (Text → Bool)
    → Luck
    → Option (List Member)
    → Text
    → Site
    → Site × Option Failure
staged realpath exists luck members staging site =
    let r =
      safe_extract realpath exists members staging (tree_of (rmtree_quiet luck site.staging)) in
    (record site { staging = some r.0; backup = rmtree_quiet luck site.backup }, r.2)

-- `replace_root`: the site afterwards, and the exception; `found` says that the WAR is there
pub replace_root :
    (Text → Text)
    → (Text → Bool)
    → Luck
    → Bool
    → Option (List Member)
    → Text
    → Site
    → Site × Option Failure
replace_root realpath exists luck false members staging site = (site, some not_found)
replace_root realpath exists luck true members staging site =
    let s = staged realpath exists luck members staging site in finish luck s.0 s.1
