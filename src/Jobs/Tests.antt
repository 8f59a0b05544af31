-- ===== src/Jobs/Tests.antt =====
-- Identifiers of jobs and their directories, at concrete inputs.
use aa_panel_tomcat_plugin.Prelude.{Text, codes}

abbrev root : Text
root = codes "/jobs"
