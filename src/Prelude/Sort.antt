-- ===== src/Prelude/Sort.antt =====
-- Python's `sorted` and `list.sort`, which are stable, by insertion, over a Boolean order.
use Prim.Native.Nat.{ℕ, zero, suc}
use mathlib.Core.Path.{◌≡◌, refl, sym, ap, subst, ◌∙◌}
use mathlib.Core.Logic.{inl, inr}
use mathlib.Core.Bool.{Bool, true, false}
use mathlib.Core.List.{List, [], ◌∷◌}
use aa_panel_tomcat_plugin.Prelude.Tests.{Bool-cases, if◌then◌else◌}
use aa_panel_tomcat_plugin.Prelude.Lists.{
  length, All, All-map, All_at, All-take, All-filter, filter, Elem, take, drop,
}

module _ {A : Type 0} (before : A → A → Bool) where
  unfoldable pub insert_by : A → List A → List A
  insert_by x [] = x ∷ []
  insert_by x (y ∷ ys) = let later = y ∷ insert_by x ys in if before x y then x ∷ y ∷ ys else later

  unfoldable pub sort_by : List A → List A
  unfolding insert_by
  sort_by [] = []
  sort_by (x ∷ xs) = insert_by x (sort_by xs)

  -- Each element stands before all that follow it.
  abbrev pub IsSorted : List A → Type 0
  IsSorted [] = Unit
  IsSorted (x ∷ xs) = All (λ y. before x y ≡ true) xs × IsSorted xs

  insert_by-All : (P : A → Type 0) (x : A) (ys : List A) → P x → All P ys → All P (insert_by x ys)
  unfolding insert_by
  insert_by-All P x [] p h = (p, tt)
  insert_by-All P x (y ∷ ys) p (q, h) = elim (Bool-cases (before x y)) [
    | inl e ↦ rw e (p, (q, h))
    | inr e ↦ rw e (q, insert_by-All P x ys p h)
  ]

  pub sort_by-All : (P : A → Type 0) (xs : List A) → All P xs → All P (sort_by xs)
  unfolding sort_by
  sort_by-All P [] h = tt
  sort_by-All P (x ∷ xs) (p, h) = insert_by-All P x (sort_by xs) p (sort_by-All P xs h)

  insert_by-Elem_head : (x : A) (ys : List A) → Elem x (insert_by x ys)
  unfolding insert_by
  insert_by-Elem_head x [] = inl refl
  insert_by-Elem_head x (y ∷ ys) = elim (Bool-cases (before x y)) [
    | inl e ↦ rw e (inl refl)
    | inr e ↦ rw e (inr (insert_by-Elem_head x ys))
  ]

  insert_by-Elem_tail : (a x : A) (ys : List A) → Elem a ys → Elem a (insert_by x ys)
  unfolding insert_by
  insert_by-Elem_tail a x [] m = elim m [ ]
  insert_by-Elem_tail a x (y ∷ ys) (inl m) = elim (Bool-cases (before x y)) [
    | inl e ↦ rw e (inr (inl m))
    | inr e ↦ rw e (inl m)
  ]
  insert_by-Elem_tail a x (y ∷ ys) (inr m) = elim (Bool-cases (before x y)) [
    | inl e ↦ rw e (inr (inr m))
    | inr e ↦ rw e (inr (insert_by-Elem_tail a x ys m))
  ]

  -- Nothing is lost.
  pub sort_by-Elem : (a : A) (xs : List A) → Elem a xs → Elem a (sort_by xs)
  unfolding sort_by
  sort_by-Elem a [] m = elim m [ ]
  sort_by-Elem a (x ∷ xs) (inl e) =
      subst (λ b. Elem b (insert_by x (sort_by xs))) (sym e) (insert_by-Elem_head x (sort_by xs))
  sort_by-Elem a (x ∷ xs) (inr m) = insert_by-Elem_tail a x (sort_by xs) (sort_by-Elem a xs m)

  length-insert_by : (x : A) (ys : List A) → length (insert_by x ys) ≡ suc (length ys)
  unfolding insert_by
  length-insert_by x [] = refl
  length-insert_by x (y ∷ ys) = elim (Bool-cases (before x y)) [
    | inl e ↦ rw e refl
    | inr e ↦ rw e (ap suc (length-insert_by x ys))
  ]

  pub length-sort_by : (xs : List A) → length (sort_by xs) ≡ length xs
  unfolding sort_by
  length-sort_by [] = refl
  length-sort_by (x ∷ xs) = length-insert_by x (sort_by xs) ∙ ap suc (length-sort_by xs)

  -- The first `n` of a sorted list stand before the rest.
  pub take-before-drop :
      (n : ℕ) (a b : A) (xs : List A)
      → IsSorted xs
      → Elem a (take n xs)
      → Elem b (drop n xs)
      → before a b ≡ true
  take-before-drop zero a b xs s m k = elim m [ ]
  take-before-drop (suc n) a b [] s m k = elim m [ ]
  take-before-drop (suc n) a b (x ∷ xs) (h, s) (inl e) k =
      rw e (All_at (λ y. before x y ≡ true) b xs h (Elem-drop n b xs k))
    where
      Elem-drop : (n : ℕ) (b : A) (xs : List A) → Elem b (drop n xs) → Elem b xs
      Elem-drop zero b xs m = m
      Elem-drop (suc n) b [] m = elim m [ ]
      Elem-drop (suc n) b (x ∷ xs) m = inr (Elem-drop n b xs m)
  take-before-drop (suc n) a b (x ∷ xs) (h, s) (inr m) k = take-before-drop n a b xs s m k

  pub take-IsSorted : (n : ℕ) (xs : List A) → IsSorted xs → IsSorted (take n xs)
  take-IsSorted zero xs s = tt
  take-IsSorted (suc n) [] s = tt
  take-IsSorted (suc n) (x ∷ xs) (h, s) = (All-take _ n xs h, take-IsSorted n xs s)

  pub filter-IsSorted : (p : A → Bool) (xs : List A) → IsSorted xs → IsSorted (filter p xs)
  unfolding filter
  filter-IsSorted p [] s = tt
  filter-IsSorted p (x ∷ xs) (h, s) = elim (Bool-cases (p x)) [
    | inl e ↦ rw e (All-filter (λ y. before x y ≡ true) p xs h, filter-IsSorted p xs s)
    | inr e ↦ rw e (filter-IsSorted p xs s)
  ]

  module _ (total : (x y : A) → before x y ≡ false → before y x ≡ true)
      (trans : (x y z : A) → before x y ≡ true → before y z ≡ true → before x z ≡ true) where
    insert_by-IsSorted : (x : A) (ys : List A) → IsSorted ys → IsSorted (insert_by x ys)
    unfolding insert_by
    insert_by-IsSorted x [] s = (tt, tt)
    insert_by-IsSorted x (y ∷ ys) (h, s) = elim (Bool-cases (before x y)) [
      | inl e ↦ rw e ((e, All-map _ _ (λ z k. trans x y z e k) ys h), (h, s))
      | inr e ↦
          rw e
            (insert_by-All (λ z. before y z ≡ true) x ys (total x y e) h, insert_by-IsSorted x ys s)
    ]

    pub sort_by-IsSorted : (xs : List A) → IsSorted (sort_by xs)
    unfolding sort_by
    sort_by-IsSorted [] = tt
    sort_by-IsSorted (x ∷ xs) = insert_by-IsSorted x (sort_by xs) (sort_by-IsSorted xs)
