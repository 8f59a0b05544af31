-- ===== src/Lib.antt =====
-- JavaHost, the plugin of plugin/javahost: a manager of Tomcat and Java runtimes for a hosting
-- panel. The panel calls plugin/javahost/javahost_main.py, which validates its input by
-- core/util/validate.py and calls the library plugin/javahost/core, for which `core` stands below. Long operations run as background
-- jobs of core/jobs.py; each has a directory with its metadata, its command and its output, and a
-- detached supervisor that runs the command.
--
-- Prelude: lists, results, Python's strings as lists of code points, `int(...)` of a text, and the
--   stable sort.
-- Validate: core/util/validate.py. A value of the panel is a `Value`; the regular expressions are
--   functions by clauses, with Python's `$` that lets one final newline pass.
-- JvmOpts: core/runtime/jvm_opts.py.
-- Jobs: core/jobs.py, identifiers and metadata. Jobs.Store: `list_jobs`, `count_skipped`, `prune`
--   and `clear` on a store of directories; a directory that cannot be removed is a path for which a
--   test given to them is true. Jobs.Proc: `_capture_supervisor_identity` and
--   `_process_group_exists` on the bytes that procfs shows. Jobs.Cancel: `cancel` as a run that
--   records its events, against a world whose answers may change from one call to the next.
--   Jobs.Supervise: `start`, `_supervise` and `_main`, with the circumstances of a run as a record.
-- Archive: core/backup/archive.py. The members that `tarfile` reads are lists, one for the preflight
--   and one for the extraction, since the file may change in between; extraction gives the
--   directories that it makes and the files that it opens, and the exception that ends it, be it one of
--   the system in the middle of a member.
-- Folders: `os.makedirs` as Archive and War use it, over a test of what exists when the extraction
--   begins: the directories on the way to a path that were missing then.
-- Schedule: core/backup/schedule.py. The host is the dict of schedules.json, whether there is an
--   /etc/cron.d, and the managed file in it.
-- Registry: core/tomcat/registry.py, over the versions that the scan of the download index finds.
-- Config: core/config.py: config.json behind its cache, and the getters of the settings.
-- Logs: core/logrotate.py. Logs.Rotate: one log and its numbered rotations, with `gzip` as an argument.
-- Proxy: the include of the vhosts in nginx.conf, put in by core/deploy/proxy.py and taken out by
--   core/maintenance.py. The configuration is a text as read, with invalid bytes replaced and
--   universal newlines, and each write of it succeeds.
-- Instances: the state of the host that maintenance works on, and the functions of
--   core/tomcat/instance.py, core/tomcat/installer.py, core/runtime/java.py and core/deploy/proxy.py
--   that it calls; a `World` says how the calls outside the plugin end. Instances.Ports: the port of a
--   new instance.
-- Maintenance: core/maintenance.py: a loop for each category of a wipe. Maintenance.Wipe: the scopes,
--   the confirmation and the uninstall plan. The removal of the data root that raises may leave any
--   part of the host; every other removal of a tree that raises leaves it there.
-- Remotes: core/backup/remote.py. Remotes.Change: a profile changed and deleted, together with the
--   schedules of Schedule; the exceptions that a deletion swallows are a record. Remotes.Transfer:
--   the S3 client is a record of answers.
-- War: core/deploy/war.py. War.Root: the swap of the live tree, with whether each call succeeds.
-- Backups: core/backup/store.py: names and retention of local backups. Backups.Restore: the steps of
--   a restore up to the publication of the site, with how each call ends as a record.
-- Tail: the `_tail` of core/jobs.py and of core/tomcat/instance.py, on fuel of a turn for each byte of the
--   file, which is enough as each turn goes back by one byte at least.
--
-- A float of the metadata is a multiple of 2^-1074 or not finite; `float(...)` of an integer or of a
-- text is a parameter, as `os.path.realpath` is. The two waits of `cancel` end by the clock; the
-- model bounds each by a number of polls, which the theorems leave open. `\d` of a file name is an
-- ASCII digit.
--
-- Not modelled: the creation and the states of instances, databases, the installation of runtimes,
-- the packing of a backup and its listing over the profiles, certificates; and the code that only
-- calls systemd, nginx, certbot, the panel, database clients or the network.
pub mod Prelude
pub mod Validate
pub mod JvmOpts
pub mod Jobs
pub mod Archive
pub mod Schedule
pub mod Registry
pub mod Config
pub mod Logs
pub mod Proxy
pub mod Instances
pub mod Maintenance
pub mod Remotes
pub mod War
pub mod Backups
pub mod Tail
pub mod Folders
