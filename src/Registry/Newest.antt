-- ===== src/Registry/Newest.antt =====
-- The resolved patch is the newest of its line in the index.
use aa_panel_tomcat_plugin.Prelude.{
  some_eq, ◌≡◌, refl, sym, ap, ◌∙◌, inl, inr, ◌⊎◌, Bool, true, false, List, [], ◌∷◌, Option, none,
  some, Text, ok, arith, filter, Elem, Option-cases, Result-cases, ok_eq, pos, negsuc, int_eq,
  if◌then◌else◌, subst,
}
use aa_panel_tomcat_plugin.Registry.{
  TomcatLine, get_line, Key, ver_key, key_lt, keyed, better, newest, is_of_line, newest_of,
  from_index, resolve_latest_patch,
}

key_lt_trans : (a b c : Key) → key_lt b a ≡ false → key_lt b c ≡ true → key_lt c a ≡ false
unfolding key_lt int_eq
key_lt_trans [] b c h k = refl
key_lt_trans (x ∷ a) b [] h k = ground arith
key_lt_trans (x ∷ a) [] (z ∷ c) h k = ground arith
key_lt_trans (pos x ∷ a) (pos y ∷ b) (pos z ∷ c) h k = ground (arith, key_lt_trans a b c)
key_lt_trans (pos x ∷ a) (pos y ∷ b) (negsuc z ∷ c) h k = ground arith
key_lt_trans (pos x ∷ a) (negsuc y ∷ b) (pos z ∷ c) h k = ground arith
key_lt_trans (pos x ∷ a) (negsuc y ∷ b) (negsuc z ∷ c) h k = ground arith
key_lt_trans (negsuc x ∷ a) (pos y ∷ b) (pos z ∷ c) h k = ground arith
key_lt_trans (negsuc x ∷ a) (pos y ∷ b) (negsuc z ∷ c) h k = ground arith
key_lt_trans (negsuc x ∷ a) (negsuc y ∷ b) (pos z ∷ c) h k = ground arith
key_lt_trans (negsuc x ∷ a) (negsuc y ∷ b) (negsuc z ∷ c) h k = ground (arith, key_lt_trans a b c)

-- what is found is one of the candidates and none of them is greater
abbrev IsMaximum : Key × Text → List (Key × Text) → Type 0
IsMaximum best cs = (c : Key × Text) → Elem c cs → key_lt best.0 c.0 ≡ false

key_lt_irrefl : (k : Key) → key_lt k k ≡ false
unfolding key_lt int_eq
key_lt_irrefl [] = refl
key_lt_irrefl (pos x ∷ k) = ground (arith, key_lt_irrefl k)
key_lt_irrefl (negsuc x ∷ k) = ground (arith, key_lt_irrefl k)

pick-keep :
    (a : Key) (best c : Key × Text) (b : Bool)
    → key_lt best.0 c.0 ≡ b
    → key_lt best.0 a ≡ false
    → key_lt (if b then c else best).0 a ≡ false
pick-keep a best c true e h = key_lt_trans a best.0 c.0 h e
pick-keep a best c false e h = h

pick-new :
    (best c : Key × Text) (b : Bool)
    → key_lt best.0 c.0 ≡ b
    → key_lt (if b then c else best).0 c.0 ≡ false
pick-new best c true e = key_lt_irrefl c.0
pick-new best c false e = e

pick-cases :
    (best c : Key × Text) (b : Bool)
    → ((if b then c else best) ≡ best) ⊎ ((if b then c else best) ≡ c)
pick-cases best c true = inr refl
pick-cases best c false = inl refl

-- `newest` is no less than what its start is no less than, and than each candidate.
newest-start :
    (a : Key) (best : Key × Text) (cs : List (Key × Text))
    → key_lt best.0 a ≡ false
    → key_lt (newest best cs).0 a ≡ false
unfolding newest
newest-start a best [] h = h
newest-start a best (c ∷ cs) h = newest-start a (better best c) cs (pick-keep a best c _ refl h)

newest-IsMaximum : (best : Key × Text) (cs : List (Key × Text)) → IsMaximum (newest best cs) cs
unfolding newest
newest-IsMaximum best [] c m = elim m [ ]
newest-IsMaximum best (d ∷ cs) c (inl same) =
    newest-start c.0 (better best d) cs
      (subst (λ x. key_lt (better best d).0 x.0 ≡ false) (sym same) (pick-new best d _ refl))
newest-IsMaximum best (d ∷ cs) c (inr m) = newest-IsMaximum (better best d) cs c m

newest-Elem :
    (best : Key × Text) (cs : List (Key × Text))
    → (newest best cs ≡ best) ⊎ Elem (newest best cs) cs
unfolding newest
newest-Elem best [] = inl refl
newest-Elem best (c ∷ cs) = elim (newest-Elem (better best c) cs) [
  | inr k ↦ inr (inr k)
  | inl k ↦ elim (pick-cases best c (key_lt best.0 c.0)) [
    | inl j ↦ inl (k ∙ j)
    | inr j ↦ inr (inl (k ∙ j))
  ]
]

-- The keyed candidates are the versions with their keys.
keyed_sound :
    (vs : List Text) (ks : List (Key × Text)) (c : Key × Text)
    → keyed vs ≡ some ks
    → Elem c ks
    → Elem c.1 vs × (ver_key c.1 ≡ some c.0)
unfolding keyed
keyed_sound [] ks c h m = absurd (subst (Elem c) (sym (some_eq h)) m)
keyed_sound (v ∷ vs) ks c h m = elim (Option-cases (ver_key v)) [
  | inl e ↦ ground arith
  | inr (k, e) ↦ elim (Option-cases (keyed vs)) [
    | inl f ↦ ground arith
    | inr (ks', f) ↦ elim (subst (Elem c) (sym (some_eq (rw (e, f, keyed) at h))) m) [
      | inl j ↦ (inl (ap (λ x. x.1) j), rw j e)
      | inr n ↦ let (a, b) = keyed_sound vs ks' c f n in (inr a, b)
    ]
  ]
]

keyed_complete :
    (vs : List Text) (ks : List (Key × Text)) (w : Text)
    → keyed vs ≡ some ks
    → Elem w vs
    → (k : Key) × (ver_key w ≡ some k) × Elem (k, w) ks
unfolding keyed
keyed_complete [] ks w h m = elim m [ ]
keyed_complete (v ∷ vs) ks w h m = elim (Option-cases (ver_key v)) [
  | inl e ↦ ground arith
  | inr (k, e) ↦ elim (Option-cases (keyed vs)) [
    | inl f ↦ ground arith
    | inr (ks', f) ↦ elim m [
      | inl j ↦ (
        k,
        rw j e,
        subst (Elem (k, w)) (some_eq (rw (e, f, keyed) at h)) (inl (ap (λ x. (k, x)) j)),
      )
      | inr n ↦
          let (k', a, b) = keyed_complete vs ks' w f n in
          (k', a, subst (Elem (k', w)) (some_eq (rw (e, f, keyed) at h)) (inr b))
    ]
  ]
]

-- The version is one of the list, and no other of the list has a greater key.
abbrev pub IsNewest : List Text → Text → Type 0
IsNewest vs v =
    Elem v vs
    × ((k : Key) × (ver_key v ≡ some k)
        × ((w : Text) → Elem w vs → (k' : Key) × (ver_key w ≡ some k') × (key_lt k k' ≡ false)))

maximum : (c : Key × Text) (cs : List (Key × Text)) → IsMaximum (newest c cs) (c ∷ cs)
maximum c cs d (inl same) =
    newest-start d.0 c cs (subst (λ x. key_lt c.0 x.0 ≡ false) (sym same) (key_lt_irrefl c.0))
maximum c cs d (inr m) = newest-IsMaximum c cs d m

newest-IsNewest :
    (vs : List Text) (c : Key × Text) (cs : List (Key × Text))
    → keyed vs ≡ some (c ∷ cs)
    → IsNewest vs (newest c cs).1
newest-IsNewest vs c cs e =
    let (a, b) = keyed_sound vs (c ∷ cs) (newest c cs) e (newest-Elem c cs) in
    (
      a,
      (
        (newest c cs).0,
        b,
        λ w m. let (k', f, n) = keyed_complete vs (c ∷ cs) w e m in (k', f, maximum c cs (k', w) n),
      ),
    )

newest_of-IsNewest :
    (major : Text) (vs : List Text) (o : Option (List (Key × Text))) (v : Text)
    → keyed vs ≡ o
    → newest_of major true o ≡ ok v
    → IsNewest vs v
unfolding newest_of
newest_of-IsNewest major vs none v e h = ground arith
newest_of-IsNewest major vs (some []) v e h = ground arith
newest_of-IsNewest major vs (some (c ∷ cs)) v e h =
    subst (IsNewest vs) (sym (ok_eq h)) (newest-IsNewest vs c cs e)

-- Where a strict resolution returns a version, the index was read, the version is one that the index
-- lists for the line of that major, and by the order of their numbers no other listed version of the
-- line is newer.
pub resolve_latest_patch-IsNewest :
    (major : Text) (index : Option (List Text)) (v : Text)
    → resolve_latest_patch major index true ≡ ok v
    → (line : TomcatLine) × (found : List Text) × (get_line major ≡ ok line)
      × (index ≡ some found)
      × IsNewest (filter (is_of_line line) found) v
unfolding resolve_latest_patch from_index
resolve_latest_patch-IsNewest major none v h = ground arith
resolve_latest_patch-IsNewest major (some found) v h = elim (Result-cases (get_line major)) [
  | inl (e, f) ↦ ground arith
  | inr (line, f) ↦ (
    line,
    found,
    f,
    refl,
    newest_of-IsNewest major (filter (is_of_line line) found) _ v refl
        (rw (f, resolve_latest_patch) at h),
  )
]
