-- ===== src/JvmOpts.antt =====
-- plugin/javahost/core/runtime/jvm_opts.py: which JVM options reach a service unit.
mod Sanitize
mod Defaults
mod Tests
use aa_panel_tomcat_plugin.Prelude.{
  ℕ, ◌/◌, max, Bool, true, false, not, ◌&&◌, ◌||◌, List, [], ◌∷◌, ◌++◌, map, Text, codes, all, any,
  leb, ◌==◌, if◌then◌else◌, is_alnum, is_empty, among, starts_with, strip, decimal,
}

abbrev pub removed_11_plus : List Text
removed_11_plus =
    codes "-XX:+UseConcMarkSweepGC"
    ∷ codes "-XX:-UseConcMarkSweepGC"
    ∷ codes "-XX:+CMSIncrementalMode"
    ∷ codes "-XX:+UseParNewGC"
    ∷ codes "-Xincgc"
    ∷ []

abbrev removed_prefix_8 : List Text
removed_prefix_8 =
    codes "-XX:PermSize=" ∷ codes "-XX:MaxPermSize=" ∷ codes "-XX:+CMS" ∷ codes "-XX:CMS" ∷ []

-- `[A-Za-z0-9_:+\-=.,/%@${}]`
pub is_safe_char : ℕ → Bool
is_safe_char c =
    is_alnum c
    || c == b'_'
    || c == b':'
    || c == b'+'
    || c == b'-'
    || c == b'='
    || c == b'.'
    || c == b','
    || c == b'/'
    || c == b'%'
    || c == b'@'
    || c == b'$'
    || c == b'{'
    || c == b'}'

-- `_SAFE_OPT.match`: at least one character, all safe, and perhaps a newline at the end.
safe_match : Text → Bool
safe_match [] = false
safe_match (c ∷ []) = is_safe_char c
safe_match (c ∷ d ∷ []) = is_safe_char c && (is_safe_char d || d == 10)
safe_match (c ∷ d ∷ e ∷ s) = is_safe_char c && safe_match (d ∷ e ∷ s)

-- `opt.startswith(_REMOVED_PREFIX_8)`
pub has_removed_prefix : Text → Bool
has_removed_prefix opt = any (λ p. starts_with p opt) removed_prefix_8

pub data Warning : Type 0 where
  unsafe_option : Text → Warning
  removed_flag : ℕ → Text → Warning

-- What becomes of one option: it is blank, dropped with a warning, or kept.
pub data Verdict : Type 0 where
  blank : Verdict
  dropped : Warning → Verdict
  kept : Text → Verdict

-- the body of the loop, over the stripped option
pub judge : ℕ → Text → Verdict
judge java_major opt =
    if is_empty opt
    then blank
    else if not (safe_match opt)
    then dropped (unsafe_option opt)
    else if leb 11 java_major && among opt removed_11_plus
    then dropped (removed_flag java_major opt)
    else if leb 9 java_major && has_removed_prefix opt
    then dropped (removed_flag java_major opt)
    else kept opt

pub record Sanitized : Type 0 where
  pub cleaned : List Text
  pub warnings : List Warning

abbrev none_yet : Sanitized
none_yet = record { cleaned = []; warnings = [] }

abbrev append_verdict : Sanitized → Verdict → Sanitized
append_verdict r blank = r
append_verdict r (dropped w) = record r { warnings = r.warnings ++ w ∷ [] }
append_verdict r (kept opt) = record r { cleaned = r.cleaned ++ opt ∷ [] }

pub sanitize_from : ℕ → Sanitized → List Text → Sanitized
sanitize_from java_major r [] = r
sanitize_from java_major r (opt ∷ opts) =
    sanitize_from java_major (append_verdict r (judge java_major (strip opt))) opts

pub sanitize : List Text → ℕ → Sanitized
sanitize opts java_major = sanitize_from java_major none_yet opts

-- the smallest heap that the defaults ask for, in MB
pub initial_heap : ℕ → ℕ
initial_heap heap_mb = max 64 (heap_mb / 2)

pub default_opts : ℕ → List Text
unfolding initial_heap decimal
default_opts heap_mb =
    codes "-server"
    ∷ (codes "-Xms" ++ (decimal (initial_heap heap_mb) ++ codes "m"))
    ∷ (codes "-Xmx" ++ (decimal heap_mb ++ codes "m"))
    ∷ codes "-XX:+UseG1GC"
    ∷ codes "-Djava.security.egd=file:/dev/urandom"
    ∷ codes "-Dfile.encoding=UTF-8"
    ∷ []
