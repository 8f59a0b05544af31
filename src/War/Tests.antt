-- ===== src/War/Tests.antt =====
-- A WAR of two files and one with a link, and the theorems for them.
use aa_panel_tomcat_plugin.Prelude.{
  ◌⊎◌, ◌≡◌, refl, true, false, [], ◌∷◌, none, some, Text, codes, All, Bool, leb, length,
}
use aa_panel_tomcat_plugin.War.{Failure, Member, is_within, is_symlink, safe_extract}
use aa_panel_tomcat_plugin.Folders.{heads}
use aa_panel_tomcat_plugin.Folders.Contained.{IsMade}
use aa_panel_tomcat_plugin.War.Contained.{safe_extract-IsContained}
use aa_panel_tomcat_plugin.War.Root.{Site, Luck, rmtree_quiet, replace_root}
use aa_panel_tomcat_plugin.War.Root.Atomic.{IsReplaced, replace_root-IsReplaced}

abbrev real : Text → Text
real path = path

abbrev exists : Text → Bool
exists p = leb (length p) 2

w-IsMade : IsMade exists (real (codes "/w"))
unfolding heads
w-IsMade = record { itself = refl; above = (refl, tt) }

abbrev page : Member
page = record { filename = codes "index.html"; external_attr = 0; body = 1 ∷ []; broken = none }

abbrev link : Member
link = record page { filename = codes "a"; external_attr = 2_684_354_560 }

abbrev site : Site
site = record { live = some ((codes "old", 2 ∷ []) ∷ []); staging = none; backup = none }

abbrev unlucky : Luck
unlucky = record { removes = true; moves_aside = true; promotes = false; restores = true }

safe_extract-IsContained_example :
    All
      (λ target. is_within (real (codes "/w")) target ≡ true)
      (safe_extract real exists (some (page ∷ link ∷ [])) (codes "/w") []).1
    × (((e : Failure) × ((safe_extract real exists (some (page ∷ link ∷ [])) (codes "/w") []).2
            ≡ some e))
        ⊎ All (λ m. is_symlink m.external_attr ≡ false) (page ∷ link ∷ []))
safe_extract-IsContained_example =
    safe_extract-IsContained real exists (page ∷ link ∷ []) (codes "/w") [] w-IsMade

replace_root-IsReplaced_example :
    IsReplaced unlucky
      (safe_extract real exists (some (page ∷ [])) (codes "/w") []).0
      site.live
      (replace_root real exists unlucky true (some (page ∷ [])) (codes "/w") site).1
      (replace_root real exists unlucky true (some (page ∷ [])) (codes "/w") site).0
unfolding rmtree_quiet
replace_root-IsReplaced_example =
    replace_root-IsReplaced real exists unlucky true (some (page ∷ [])) (codes "/w") site refl refl
