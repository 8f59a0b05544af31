-- ===== src/Jobs/Cancel/Tests.antt =====
-- A run of `cancel` that needs both signals, and the theorems for it.
use aa_panel_tomcat_plugin.Prelude.{
  pos, List, [], ◌∷◌, ◌++◌, some, Text, codes, ok, leb, if◌then◌else◌,
}
use aa_panel_tomcat_plugin.Jobs.{true, null, str, int, finite, Meta}
use aa_panel_tomcat_plugin.Jobs.Proc.{Bytes, Procfs, Sighting, delivered, absent, contents}
use aa_panel_tomcat_plugin.Jobs.Cancel.{World, found, cancel}
use aa_panel_tomcat_plugin.Jobs.Cancel.Signals.{IsVerified, cancel-IsVerified}
use aa_panel_tomcat_plugin.Jobs.Cancel.Earned.{IsJustified, cancel-IsEarned}

abbrev root : Text
root = codes "/j"

abbrev python : Text
python = codes "py"

abbrev module_file : Text
module_file = codes "/m"

-- each argument with a NUL behind it
abbrev join_nul : List Bytes → Bytes
join_nul [] = []
join_nul (w ∷ ws) = w ++ (0 ∷ join_nul ws)

abbrev proc : Procfs
proc = record {
  cmdline = λ pid. some (
      join_nul (python ∷ module_file ∷ codes "exec" ∷ codes "/j/a" ∷ codes "--" ∷ codes "sh" ∷ []));
  stat = λ pid. some (codes "7 (py) S 1 7 7 0 0 0 0 0 0 0 0 0 0 0 0 0 1 0 99 0");
}

abbrev alive : Sighting
alive = record {
  probe = delivered;
  entries = some (record { name = codes "7"; stat = contents (codes "7 (py) S 1 7 7") } ∷ []);
  reprobe = delivered;
}

abbrev gone : Sighting
gone = record { probe = absent; entries = some []; reprobe = absent }

abbrev meta : Meta
meta = record {
  id = null;
  kind = null;
  target = null;
  state = str (codes "running");
  started = int (pos 1);
  ended = null;
  message = null;
  pid = int (pos 7);
}

abbrev world : World
world = record {
  meta = λ n. ok meta;
  procfs = λ n. proc;
  locate = λ n pid. found (pos 7);
  sighting = λ n. if leb n 6 then alive else gone;
  killed = λ n. delivered;
  written = λ n. true;
  now = λ n. finite (pos n);
}

cancel-IsVerified_example :
    IsVerified
      (λ p. p)
      root
      python
      module_file
      world
      2
      2
      (codes "a")
      (cancel (λ p. p) root python module_file world 2 2 (codes "a") []).1
cancel-IsVerified_example = cancel-IsVerified (λ p. p) root python module_file world 2 2 (codes "a")

cancel-IsEarned_example :
    IsJustified
      (λ p. p)
      root
      python
      module_file
      world
      2
      2
      (codes "a")
      (cancel (λ p. p) root python module_file world 2 2 (codes "a") []).1
cancel-IsEarned_example = cancel-IsEarned (λ p. p) root python module_file world 2 2 (codes "a")
