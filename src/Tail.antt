-- ===== src/Tail.antt =====
-- plugin/javahost/core/jobs.py: `_tail`, which reads the end of a log block by block, and the output
-- that `read_log` shows; plugin/javahost/core/tomcat/instance.py has the same `_tail`. A file is its
-- bytes, which are not decoded here.
mod Lines
mod Whole
mod Tests
use aa_panel_tomcat_plugin.Prelude.{
  ℕ, zero, suc, ◌+◌, ◌-◌, min, max, Bool, true, false, ◌&&◌, ◌||◌, List, [], ◌∷◌, ◌++◌, Option,
  none, some, length, take, drop, ltb, leb, ◌==◌, if◌then◌else◌, cons_first, join, ℤ, clip,
}

abbrev pub Bytes : Type 0
Bytes = List ℕ

-- `data.count(b"\n")`
pub count : Bytes → ℕ
count [] = 0
count (c ∷ s) = let rest = count s in if c == 10 then suc rest else rest

abbrev starts_line : Bytes → Bool
starts_line [] = false
starts_line (c ∷ s) = c == 10

-- `data.splitlines()` of bytes: `\n`, `\r` and `\r\n` end a line
pub lines_of : Bytes → List Bytes
lines_of [] = []
lines_of (c ∷ s) =
    let rest = lines_of s in
    if c == 13 && starts_line s
    then rest
    else if c == 10 || c == 13
    then [] ∷ rest
    else cons_first c rest

-- `xs[-n:]`, where `xs[-0:]` is all of `xs`
abbrev pub ending {ℓ} : {A : Type ℓ} → ℕ → List A → List A
ending n xs = drop (length xs - n) xs

pub last {ℓ} : {A : Type ℓ} → ℕ → List A → List A
last zero xs = xs
last (suc n) xs = ending (suc n) xs

abbrev pub block : ℕ
block = 4096

-- `f.seek(pos); f.read(step)`
abbrev pub read_at : ℕ → ℕ → Bytes → Bytes
read_at pos step file = take step (drop pos file)

abbrev pub goes_on : ℕ → ℕ → Bytes → Bool
goes_on lines pos bytes = ltb 0 pos && leb (count bytes) lines

-- the loop of `_tail`, on fuel; `none` is that the fuel did not do
pub read_back : ℕ → ℕ → Bytes → ℕ → Bytes → Option Bytes
read_back zero lines file pos bytes = if goes_on lines pos bytes then none else some bytes
read_back (suc fuel) lines file pos bytes =
    let rest =
      read_back fuel lines file (pos - min block pos)
        (read_at (pos - min block pos) (min block pos) file ++ bytes) in
    if goes_on lines pos bytes then rest else some bytes

-- `_tail`: each turn of the loop goes back by a byte at least
pub tail : ℕ → Bytes → Option Bytes
tail lines file = elim (read_back (length file) lines file (length file) []) [
  | none ↦ none
  | some bytes ↦ some (join (10 ∷ []) (last lines (lines_of bytes)))
]

-- `max(1, min(int(lines), 5000))` of `read_log`
pub shown_lines : ℤ → ℕ
shown_lines lines = max 1 (min (clip lines) 5000)
