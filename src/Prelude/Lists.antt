-- ===== src/Prelude/Lists.antt =====
-- Lists measured by native numbers, tested by Boolean functions, and predicates on lists.
use Prim.Native.Nat.{ℕ, zero, suc, ◌+◌, ◌-◌, ◌≤◌, min}
use mathlib.Core.Path.{◌≡◌, refl, sym, ap, subst}
use mathlib.Core.Logic.{◌⊎◌, inl, inr}
use mathlib.Core.Bool.{not, Bool, true, false, ◌&&◌, ◌||◌}
use mathlib.Core.Option.{Option, none, some}
use mathlib.Core.List.{List, [], ◌∷◌, ◌++◌, map}
use native.Mathlib.Omega.{arith}
use aa_panel_tomcat_plugin.Prelude.Tests.{if◌then◌else◌, Bool-cases, and_true}

module _ {ℓ} {A : Type ℓ} where
  abbrev pub length : List A → ℕ
  length [] = 0
  length (x ∷ xs) = suc (length xs)

  abbrev pub is_nil : List A → Bool
  is_nil [] = true
  is_nil (x ∷ xs) = false

  abbrev pub take : ℕ → List A → List A
  take zero xs = []
  take (suc n) [] = []
  take (suc n) (x ∷ xs) = x ∷ take n xs

  abbrev pub drop : ℕ → List A → List A
  drop zero xs = xs
  drop (suc n) [] = []
  drop (suc n) (x ∷ xs) = drop n xs

  abbrev pub get_elem? : List A → ℕ → Option A
  get_elem? [] i = none
  get_elem? (x ∷ xs) zero = some x
  get_elem? (x ∷ xs) (suc i) = get_elem? xs i

  unfoldable pub filter : (A → Bool) → List A → List A
  filter p [] = []
  filter p (x ∷ xs) = let rest = filter p xs in if p x then x ∷ rest else rest

  unfoldable pub all : (A → Bool) → List A → Bool
  all p [] = true
  all p (x ∷ xs) = p x && all p xs

  unfoldable pub any : (A → Bool) → List A → Bool
  any p [] = false
  any p (x ∷ xs) = p x || any p xs

  pub length-append : (xs ys : List A) → length (xs ++ ys) ≡ length xs + length ys
  length-append [] ys = omega arith
  length-append (x ∷ xs) ys = omega (arith, length-append xs ys)

  pub length-take : (n : ℕ) (xs : List A) → length (take n xs) ≡ min n (length xs)
  length-take zero xs = omega arith
  length-take (suc n) [] = omega arith
  length-take (suc n) (x ∷ xs) = omega (arith, length-take n xs)

  pub length-drop : (n : ℕ) (xs : List A) → length (drop n xs) ≡ length xs - n
  length-drop zero xs = omega arith
  length-drop (suc n) [] = omega arith
  length-drop (suc n) (x ∷ xs) = omega (arith, length-drop n xs)

  pub take-eq_self : (n : ℕ) (xs : List A) → length xs ≤ n → take n xs ≡ xs
  take-eq_self zero [] h = refl
  take-eq_self zero (x ∷ xs) h = absurd (omega arith)
  take-eq_self (suc n) [] h = refl
  take-eq_self (suc n) (x ∷ xs) h = ap (λ r. x ∷ r) (take-eq_self n xs (omega arith))

  pub length-filter : (p : A → Bool) (xs : List A) → length (filter p xs) ≤ length xs
  unfolding filter
  length-filter p [] = omega arith
  length-filter p (x ∷ xs) = ground (arith, length-filter p xs)

-- Membership, as a type by recursion.
abbrev pub Elem : {A : Type 0} → A → List A → Type 0
Elem x [] = ⊥
Elem x (y ∷ ys) = (x ≡ y) ⊎ Elem x ys

module _ {ℓ κ} {A : Type ℓ} where
  abbrev pub All : (A → Type κ) → List A → Type κ
  All P [] = Unit
  All P (x ∷ xs) = P x × All P xs

  pub All-append : (P : A → Type κ) (xs ys : List A) → All P xs → All P ys → All P (xs ++ ys)
  All-append P [] ys h k = k
  All-append P (x ∷ xs) ys (p, h) k = (p, All-append P xs ys h k)

  pub All-filter : (P : A → Type κ) (p : A → Bool) (xs : List A) → All P xs → All P (filter p xs)
  unfolding filter
  All-filter P p [] h = tt
  All-filter P p (x ∷ xs) (q, h) = elim (Bool-cases (p x)) [
    | inl e ↦ rw e (q, All-filter P p xs h)
    | inr e ↦ rw e (All-filter P p xs h)
  ]

  pub All-take : (P : A → Type κ) (n : ℕ) (xs : List A) → All P xs → All P (take n xs)
  All-take P zero xs h = tt
  All-take P (suc n) [] h = tt
  All-take P (suc n) (x ∷ xs) (q, h) = (q, All-take P n xs h)

  pub All-drop : (P : A → Type κ) (n : ℕ) (xs : List A) → All P xs → All P (drop n xs)
  All-drop P zero xs h = h
  All-drop P (suc n) [] h = tt
  All-drop P (suc n) (x ∷ xs) (q, h) = All-drop P n xs h

module _ {ℓ} {A : Type ℓ} where
  pub All-map : (P Q : A → Type 0) (f : (x : A) → P x → Q x) (xs : List A) → All P xs → All Q xs
  All-map P Q f [] h = tt
  All-map P Q f (x ∷ xs) (p, h) = (f x p, All-map P Q f xs h)

  -- What a filter keeps passes its test.
  pub filter-All : (p : A → Bool) (xs : List A) → All (λ x. p x ≡ true) (filter p xs)
  unfolding filter
  filter-All p [] = tt
  filter-All p (x ∷ xs) = elim (Bool-cases (p x)) [
    | inl e ↦ rw e (e, filter-All p xs)
    | inr e ↦ rw e (filter-All p xs)
  ]

  -- A filter that rejects nothing changes nothing.
  pub filter-eq_self : (p : A → Bool) (xs : List A) → All (λ x. p x ≡ true) xs → filter p xs ≡ xs
  unfolding filter
  filter-eq_self p [] h = refl
  filter-eq_self p (x ∷ xs) (e, h) = rw e (ap (λ r. x ∷ r) (filter-eq_self p xs h))

  pub all_sound : (p : A → Bool) (xs : List A) → all p xs ≡ true → All (λ x. p x ≡ true) xs
  unfolding all
  all_sound p [] h = tt
  all_sound p (x ∷ xs) h = let (a, b) = and_true (p x) (all p xs) h in (a, all_sound p xs b)

  pub all_complete : (p : A → Bool) (xs : List A) → All (λ x. p x ≡ true) xs → all p xs ≡ true
  unfolding all
  all_complete p [] h = refl
  all_complete p (x ∷ xs) (e, h) = rw (e, all_complete p xs h)

  pub all-append : (p : A → Bool) (xs ys : List A) → all p (xs ++ ys) ≡ (all p xs && all p ys)
  unfolding all
  all-append p [] ys = refl
  all-append p (x ∷ xs) ys = ground (arith, all-append p xs ys)

module _ {A : Type 0} where
  pub All_at : (P : A → Type 0) (a : A) (xs : List A) → All P xs → Elem a xs → P a
  All_at P a [] h m = elim m [ ]
  All_at P a (x ∷ xs) (p, h) (inl e) = subst P (sym e) p
  All_at P a (x ∷ xs) (p, h) (inr m) = All_at P a xs h m

  pub Elem-filter :
      (p : A → Bool) (a : A) (xs : List A) → Elem a xs → p a ≡ true → Elem a (filter p xs)
  unfolding filter
  Elem-filter p a [] m h = elim m [ ]
  Elem-filter p a (x ∷ xs) (inl e) h = rw (← e, h) (inl refl)
  Elem-filter p a (x ∷ xs) (inr m) h = elim (Bool-cases (p x)) [
    | inl k ↦ rw k (inr (Elem-filter p a xs m h))
    | inr k ↦ rw k (Elem-filter p a xs m h)
  ]

  -- An element of a list is among its first `n` or among the rest.
  pub Elem-split :
      (n : ℕ) (a : A) (xs : List A) → Elem a xs → Elem a (take n xs) ⊎ Elem a (drop n xs)
  Elem-split zero a xs m = inr m
  Elem-split (suc n) a [] m = elim m [ ]
  Elem-split (suc n) a (x ∷ xs) (inl e) = inl (inl e)
  Elem-split (suc n) a (x ∷ xs) (inr m) = elim (Elem-split n a xs m) [
    | inl k ↦ inl (inr k)
    | inr k ↦ inr k
  ]

  -- A predicate that every element satisfies.
  pub All-of_Elem : (P : A → Type 0) (xs : List A) → ((a : A) → Elem a xs → P a) → All P xs
  All-of_Elem P [] h = tt
  All-of_Elem P (x ∷ xs) h = (h x (inl refl), All-of_Elem P xs (λ a m. h a (inr m)))

pub All-of_map :
    {A B : Type 0} (P : B → Type 0) (f : A → B) (xs : List A)
    → All P (map f xs)
    → All (λ x. P (f x)) xs
All-of_map P f [] h = tt
All-of_map P f (x ∷ xs) (p, h) = (p, All-of_map P f xs h)

module _ {A : Type 0} where
  pub filter_cong :
      (p q : A → Bool) (xs : List A) → ((x : A) → p x ≡ q x) → filter p xs ≡ filter q xs
  unfolding filter
  filter_cong p q [] h = refl
  filter_cong p q (x ∷ xs) h = rw (h x, filter_cong p q xs h) refl

  pub filter-filter :
      (p q : A → Bool) (xs : List A) → filter p (filter q xs) ≡ filter (λ x. q x && p x) xs
  unfolding filter
  filter-filter p q [] = refl
  filter-filter p q (x ∷ xs) = ground (arith, filter-filter p q xs)

  -- A filter that rejects nothing changes nothing.
  pub filter-eq_of_any :
      (p : A → Bool) (xs : List A) → any p xs ≡ false → filter (λ x. not (p x)) xs ≡ xs
  unfolding filter any
  filter-eq_of_any p [] h = refl
  filter-eq_of_any p (x ∷ xs) h = ground (arith, filter-eq_of_any p xs)
