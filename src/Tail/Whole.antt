-- ===== src/Tail/Whole.antt =====
-- Reading a file backwards ends, and gives the last lines of the whole file.
use aa_panel_tomcat_plugin.Prelude.{
  ℕ, zero, suc, ◌+◌, ◌-◌, ◌≤◌, ◌<◌, ◌≡◌, refl, sym, ap, ◌∙◌, inl, inr, ◌⊎◌, false, [], ◌∷◌, ◌++◌,
  Option, none, some, length, take, drop, Bool-cases, arith, min, join,
}
use aa_panel_tomcat_plugin.Tail.{
  Bytes, count, lines_of, ending, last, block, read_at, goes_on, read_back, tail,
}
use aa_panel_tomcat_plugin.Tail.Lines.{last-lines_of}

take-drop : (n : ℕ) (file : Bytes) → take n file ++ drop n file ≡ file
take-drop zero file = refl
take-drop (suc n) [] = refl
take-drop (suc n) (c ∷ file) = ap (λ r. c ∷ r) (take-drop n file)

drop_nil : (n : ℕ) → ◌≡◌ {A = Bytes} (drop n []) []
drop_nil zero = refl
drop_nil (suc n) = refl

drop-length : (file : Bytes) → drop (length file) file ≡ []
drop-length [] = refl
drop-length (c ∷ file) = drop-length file

drop-drop : (pos step : ℕ) (file : Bytes) → drop step (drop pos file) ≡ drop (pos + step) file
drop-drop zero step file = ap (λ k. drop k file) (omega arith)
drop-drop (suc pos) step [] = drop_nil step ∙ sym (drop_nil (suc pos + step))
drop-drop (suc pos) step (c ∷ file) =
    let later : suc (pos + step) ≡ suc pos + step = omega arith in
    drop-drop pos step file ∙ ap (λ k. drop k (c ∷ file)) later

read_at-IsEndOf :
    (file : Bytes) (pos step : ℕ) (bytes : Bytes)
    → step ≤ pos
    → drop pos file ≡ bytes
    → drop (pos - step) file ≡ read_at (pos - step) step file ++ bytes
read_at-IsEndOf file pos step bytes h e =
    sym (take-drop step (drop (pos - step) file))
    ∙ ap (λ r. take step (drop (pos - step) file) ++ r)
        (drop-drop (pos - step) step file ∙ ap (λ k. drop k file) (omega (arith, h)) ∙ e)

-- The loop ends with the fuel of a turn for each byte, at the end of the file that it stands at
-- when it has enough, or at the start.
abbrev Ends : ℕ → Bytes → Option Bytes → Type 0
Ends lines file none = ⊥
Ends lines file (some bytes) =
    (pos : ℕ) × (drop pos file ≡ bytes) × ((pos ≡ 0) ⊎ (lines < count bytes))

stopped :
    (lines pos : ℕ) (bytes : Bytes)
    → goes_on lines pos bytes ≡ false
    → (pos ≡ 0) ⊎ (lines < count bytes)
stopped lines pos bytes h = ground arith

read_back-Ends :
    (fuel lines : ℕ) (file : Bytes) (pos : ℕ) (bytes : Bytes)
    → pos ≤ fuel
    → drop pos file ≡ bytes
    → Ends lines file (read_back fuel lines file pos bytes)
unfolding read_back
read_back-Ends zero lines file pos bytes h e = elim (Bool-cases (goes_on lines pos bytes)) [
  | inl f ↦ ground arith
  | inr f ↦ rw f (pos, e, stopped lines pos bytes f)
]
read_back-Ends (suc fuel) lines file pos bytes h e = elim (Bool-cases (goes_on lines pos bytes)) [
  | inl f ↦ rw f (
      read_back-Ends fuel lines file (pos - min block pos) _ (ground (arith, f))
        (read_at-IsEndOf file pos (min block pos) bytes (omega arith) e))
  | inr f ↦ rw f (pos, e, stopped lines pos bytes f)
]

part-last :
    (lines : ℕ) (file bytes : Bytes) (pos : ℕ)
    → drop pos file ≡ bytes
    → (pos ≡ 0) ⊎ (lines < count bytes)
    → ending lines (lines_of bytes) ≡ ending lines (lines_of file)
part-last lines file bytes pos e (inl z) =
    ap (λ r. ending lines (lines_of r)) (sym e ∙ ap (λ k. drop k file) z)
part-last lines file bytes pos e (inr enough) =
    sym (last-lines_of lines (take pos file) bytes enough)
    ∙ ap (λ r. ending lines (lines_of r))
        (ap (λ r. take pos file ++ r) (sym e) ∙ take-drop pos file)

found-last :
    (lines : ℕ) (file : Bytes) (found : Option Bytes)
    → Ends lines file found
    → elim found [
      | none ↦ none
      | some bytes ↦ some (join (10 ∷ []) (ending lines (lines_of bytes)))
    ]
      ≡ some (join (10 ∷ []) (ending lines (lines_of file)))
found-last lines file none h = elim h [ ]
found-last lines file (some bytes) (pos, e, enough) =
    ap (λ r. some (join (10 ∷ []) r)) (part-last lines file bytes pos e enough)

-- `_tail` ends within a turn of its loop for each byte of the file, and for a positive number of
-- lines it gives the last lines of the whole file.
pub tail-last :
    (lines : ℕ) (file : Bytes)
    → 0 < lines
    → tail lines file ≡ some (join (10 ∷ []) (last lines (lines_of file)))
unfolding tail last
tail-last zero file h = absurd (omega arith)
tail-last (suc n) file h =
    found-last (suc n) file (read_back (length file) (suc n) file (length file) [])
      (read_back-Ends (length file) (suc n) file (length file) [] (omega arith) (drop-length file))
