-- ===== src/Folders/Contained.antt =====
-- The directories that `os.makedirs` makes for a path below a directory that exists lie below it.
use aa_panel_tomcat_plugin.Prelude.{
  ◌≡◌, refl, sym, ap, ◌∙◌, inl, inr, Bool, true, not, ◌||◌, List, [], ◌∷◌, ◌++◌, Text, codes, ◌==◌,
  starts_with, text_eq, text_eq_iff, text_eq_refl, filter, All, All-append, Bool-cases, subst,
  arith, and_true,
}
use aa_panel_tomcat_plugin.Folders.{heads, make_parents, makedirs}

append_assoc : (xs ys zs : Text) → (xs ++ ys) ++ zs ≡ xs ++ (ys ++ zs)
append_assoc [] ys zs = refl
append_assoc (x ∷ xs) ys zs = ap (λ r. x ∷ r) (append_assoc xs ys zs)

append_nil : (xs : Text) → xs ++ [] ≡ xs
append_nil [] = refl
append_nil (x ∷ xs) = ap (λ r. x ∷ r) (append_nil xs)

starts_with-append : (p s : Text) → starts_with p (p ++ s) ≡ true
unfolding starts_with
starts_with-append [] s = refl
starts_with-append (c ∷ p) s = ground (arith, starts_with-append p s)

starts_with_sound : (p s : Text) → starts_with p s ≡ true → (rest : Text) × (s ≡ p ++ rest)
unfolding starts_with
starts_with_sound [] s h = (s, refl)
starts_with_sound (c ∷ p) [] h = cc
starts_with_sound (c ∷ p) (d ∷ s) h =
    let (same, more) = and_true (c == d) (starts_with p s) h in
    let (rest, e) = starts_with_sound p s more in let eq : d ≡ c = ground arith in (rest, cc)

starts_with-longer : (p s t : Text) → starts_with p s ≡ true → starts_with p (s ++ t) ≡ true
unfolding starts_with
starts_with-longer [] s t h = refl
starts_with-longer (c ∷ p) [] t h = cc
starts_with-longer (c ∷ p) (d ∷ s) t h =
    ground (arith, starts_with-longer p s t (and_true (c == d) (starts_with p s) h).1)

-- the directory or a path below it
abbrev pub IsBelow : Text → Text → Type 0
IsBelow base p = (text_eq p base || starts_with (base ++ codes "/") p) ≡ true

-- The heads of a longer path: those of the first part, that part, and those of the rest.
heads-append :
    (front b rest : Text)
    → heads front (b ++ (b'/' ∷ rest))
      ≡ heads front b ++ ((front ++ b) ∷ heads (front ++ (b ++ codes "/")) rest)
unfolding heads
heads-append front [] rest = ap (λ x. x ∷ heads (front ++ codes "/") rest) (sym (append_nil front))
heads-append front (c ∷ b) rest =
    let later : heads (front ++ (c ∷ [])) (b ++ (b'/' ∷ rest))
        ≡ heads (front ++ (c ∷ [])) b
          ++ ((front ++ (c ∷ b)) ∷ heads (front ++ (c ∷ (b ++ codes "/"))) rest) =
      heads-append (front ++ (c ∷ [])) b rest
      ∙ ap
          (λ x.
            heads (front ++ (c ∷ [])) b
            ++ (x ∷ heads ((front ++ (c ∷ [])) ++ (b ++ codes "/")) rest))
          (append_assoc front (c ∷ []) b)
      ∙ ap (λ x. heads (front ++ (c ∷ [])) b ++ ((front ++ (c ∷ b)) ∷ heads x rest))
          (append_assoc front (c ∷ []) (b ++ codes "/")) in
    elim (Bool-cases (c == b'/')) [ inl e ↦ rw e (ap (λ r. front ∷ r) later) | inr e ↦ rw e later ]

heads-starts_with :
    (base front s : Text)
    → starts_with base front ≡ true
    → All (λ p. starts_with base p ≡ true) (heads front s)
unfolding heads
heads-starts_with base front [] h = tt
heads-starts_with base front (c ∷ s) h =
    let rest = heads-starts_with base (front ++ (c ∷ [])) s (starts_with-longer base front _ h) in
    elim (Bool-cases (c == b'/')) [ inl e ↦ rw e (h, rest) | inr e ↦ rw e rest ]

All-missing :
    (exists : Text → Bool) (P : Text → Type 0) (ps qs : List Text)
    → All (λ p. exists p ≡ true) ps
    → All P qs
    → All P (filter (λ p. not (exists p)) (ps ++ qs))
unfolding filter
All-missing exists P [] [] h k = tt
All-missing exists P [] (q ∷ qs) h (k, l) = elim (Bool-cases (exists q)) [
  | inl e ↦ rw e (All-missing exists P [] qs tt l)
  | inr e ↦ rw e (k, All-missing exists P [] qs tt l)
]
All-missing exists P (p ∷ ps) qs (h, g) k = rw h (All-missing exists P ps qs g k)

-- The directory exists, with those on the way to it.
pub record IsMade (exists : Text → Bool) (base : Text) : Type 0 where
  pub itself : exists base ≡ true
  pub above : All (λ p. exists p ≡ true) (heads [] base)

module _ (exists : Text → Bool) (base : Text) (made : IsMade exists base) where
  base-IsBelow : (p : Text) → starts_with (base ++ codes "/") p ≡ true → IsBelow base p
  base-IsBelow p h = elim (Bool-cases (text_eq p base)) [
    | inl e ↦ rw e refl
    | inr e ↦ rw (e, h) refl
  ]

  IsBelow-refl : IsBelow base base
  IsBelow-refl = rw (text_eq_refl base) refl

  -- the heads of a path, with more of its own at the end
  missing-IsBelow :
      (path : Text) (more : List Text)
      → IsBelow base path
      → All (IsBelow base) more
      → All (IsBelow base) (filter (λ p. not (exists p)) (heads [] path ++ more))
  missing-IsBelow path more h k = elim (Bool-cases (text_eq path base)) [
    | inl e ↦
        rw ((text_eq_iff path base).0 e)
          (All-missing exists (IsBelow base) (heads [] base) more made.above k)
    | inr e ↦
        let (rest, f) = starts_with_sound (base ++ codes "/") path (ground (arith, e, h)) in
        let g : path ≡ base ++ (b'/' ∷ rest) = f ∙ append_assoc base (codes "/") rest in
        rw (g, heads-append [] base rest)
          (subst (λ l. All (IsBelow base) (filter (λ p. not (exists p)) l))
            (sym (list_assoc (heads [] base) (base ∷ heads (base ++ codes "/") rest) more))
            (All-missing exists (IsBelow base) (heads [] base)
              (base ∷ (heads (base ++ codes "/") rest ++ more)) made.above
              (
                IsBelow-refl,
                All-append (IsBelow base) (heads (base ++ codes "/") rest) more
                    (All-map' (heads (base ++ codes "/") rest) (
                      heads-starts_with (base ++ codes "/") (base ++ codes "/") rest
                        (starts_with_self (base ++ codes "/"))))
                    k,
              )))
  ]
    where
      All-map' :
          (ps : List Text)
          → All (λ p. starts_with (base ++ codes "/") p ≡ true) ps
          → All (IsBelow base) ps
      All-map' [] h = tt
      All-map' (p ∷ ps) (h, k) = (base-IsBelow p h, All-map' ps k)

      starts_with_self : (p : Text) → starts_with p p ≡ true
      starts_with_self p =
          subst (λ x. starts_with p x ≡ true) (append_nil p) (starts_with-append p [])

      list_assoc : (xs ys zs : List Text) → (xs ++ ys) ++ zs ≡ xs ++ (ys ++ zs)
      list_assoc [] ys zs = refl
      list_assoc (x ∷ xs) ys zs = ap (λ r. x ∷ r) (list_assoc xs ys zs)

  pub makedirs-IsBelow :
      (path : Text) → IsBelow base path → All (IsBelow base) (makedirs exists path)
  unfolding makedirs
  makedirs-IsBelow path h = missing-IsBelow path (path ∷ []) h (h, tt)

  pub make_parents-IsBelow :
      (path : Text) → IsBelow base path → All (IsBelow base) (make_parents exists path)
  unfolding make_parents
  make_parents-IsBelow path h =
      subst (λ l. All (IsBelow base) (filter (λ p. not (exists p)) l)) (list_nil (heads [] path))
        (missing-IsBelow path [] h tt)
    where
      list_nil : (xs : List Text) → xs ++ [] ≡ xs
      list_nil [] = refl
      list_nil (x ∷ xs) = ap (λ r. x ∷ r) (list_nil xs)
