-- ===== src/Proxy.antt =====
-- plugin/javahost/core/deploy/proxy.py and plugin/javahost/core/maintenance.py: the line of
-- nginx.conf that includes the vhosts, put in and taken out. `accepts` is `nginx -t` of a
-- configuration, `word` is the `\w` of regular expressions.
mod Lines
mod Include
mod Tests
use aa_panel_tomcat_plugin.Prelude.{
  ℕ, suc, zero, Bool, true, false, not, ◌&&◌, ◌||◌, List, [], ◌∷◌, ◌++◌, Option, none, some, Text,
  codes, filter, length, ◌==◌, if◌then◌else◌, is_space, starts_with, trim_start, drop, take,
  cons_first, leb, ◌-◌,
}

-- `sub in s`
pub contains : Text → Text → Bool
contains sub [] = starts_with sub []
contains sub (c ∷ s) = starts_with sub (c ∷ s) || contains sub s

abbrev pub vhost_dir : Text
vhost_dir = codes "/www/server/javahost/vhost/nginx"

abbrev pub include_line : Text
include_line = codes "include /www/server/javahost/vhost/nginx/*.conf;"

-- what follows `\s*\{`, `none` where it is not there
abbrev after_brace : Text → Option Text
after_brace [] = none
after_brace (c ∷ s) = if c == b'{' then some s else none

abbrev opens_http : Text → Option Text
opens_http s =
    if starts_with (codes "http") s then after_brace (trim_start is_space (drop 4 s)) else none

-- what follows the first `\bhttp\s*\{`; the flag says that a word character stands just before
pub after_http : (ℕ → Bool) → Bool → Text → Option Text
after_http word inside [] = none
after_http word inside (c ∷ s) =
    let rest = after_http word (word c) s in
    elim (if inside then none else opens_http (c ∷ s)) [ some after ↦ some after | none ↦ rest ]

-- the content with the line put in before `after`, which ends it
pub injected : Text → Text → Text
injected content after =
    take (length content - length after) content
    ++ (codes "\n    " ++ (include_line ++ (codes "\n" ++ after)))

-- A rewritten nginx.conf stays if nginx accepts it, or else the text that was read is written back.
-- nginx.conf is its text as the code reads it, decoded with `errors="replace"` and with universal
-- newlines, and both `atomic_write`s succeed.
pub keep_accepted : (Text → Bool) → Text → Text → Bool × Option Text
keep_accepted accepts old new = if accepts new then (true, some new) else (false, some old)

abbrev pub is_included : Text → Bool
is_included content =
    contains vhost_dir content
    && contains (codes "include") content
    && (contains include_line content || contains (vhost_dir ++ codes "/*.conf") content)

abbrev pub inject : (Text → Bool) → Text → Option Text → Bool × Option Text
inject accepts content none = (false, some content)
inject accepts content (some after) = keep_accepted accepts content (injected content after)

-- `ensure_include`: its answer, and nginx.conf afterwards
pub ensure_include : (ℕ → Bool) → (Text → Bool) → Option Text → Bool × Option Text
ensure_include word accepts none = (false, none)
ensure_include word accepts (some content) =
    if is_included content
    then (true, some content)
    else inject accepts content (after_http word false content)

-- the characters at which `str.splitlines` ends a line
is_break : ℕ → Bool
is_break c = (leb 10 c && leb c 13) || (leb 28 c && leb c 30) || c == 133 || c == 8232 || c == 8233

-- `splitlines(keepends=True)`, of a text that was read with universal newlines
pub lines_of : Text → List Text
lines_of [] = []
lines_of (c ∷ s) =
    let rest = lines_of s in if is_break c then (c ∷ []) ∷ rest else cons_first c rest

pub is_include : Text → Bool
is_include line = contains vhost_dir line && contains (codes "include") line

pub joined : List Text → Text
joined [] = []
joined (line ∷ rest) = line ++ joined rest

abbrev pub strike : (Text → Bool) → Text → Bool × Option Text
strike accepts content =
    let kept = filter (λ line. not (is_include line)) (lines_of content) in
    if length kept == length (lines_of content)
    then (false, some content)
    else keep_accepted accepts content (joined kept)

-- `_remove_include`
pub remove_include : (Text → Bool) → Option Text → Bool × Option Text
remove_include accepts none = (false, none)
remove_include accepts (some content) =
    if contains vhost_dir content then strike accepts content else (false, some content)
