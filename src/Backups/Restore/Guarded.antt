-- ===== src/Backups/Restore/Guarded.antt =====
-- What a restore leaves alone, and what it leaves where it fails.
use aa_panel_tomcat_plugin.Prelude.{◌⊎◌, ◌≡◌, ◌≢◌, true, Option, some, Text, find_key}
use aa_panel_tomcat_plugin.Backups.Restore.{Host, World, Failure}

-- The other instances are as they were, and with no exception the target holds what rewriting the
-- port, the markers and setenv makes of the application in the archive, with strict modes on its
-- secrets.
abbrev pub IsScoped : World → Text → Option Text → Host → Host → Option Failure → Type 0
IsScoped world target found before after exception =
    ((k : Text) → k ≢ target → find_key k after.instances ≡ find_key k before.instances)
    × (((e : Failure) × (exception ≡ some e))
        ⊎ ((payload : Text) × (found ≡ some payload)
            × (find_key target after.instances
                ≡ some (record { payload = world.rewritten true payload; secured = true }))))
