-- ===== src/War/Contained.antt =====
-- Nothing of a WAR is written outside the directory that it is extracted into.
use aa_panel_tomcat_plugin.Prelude.{
  ◌⊎◌, Option-cases, ◌≡◌, sym, subst, inl, inr, true, false, ◌||◌, List, [], ◌∷◌, ◌++◌, none, some,
  Text, codes, ok, ok_eq, All, All-append, Bool, Option, ℕ, Bool-cases, Result-cases, starts_with,
}
use aa_panel_tomcat_plugin.War.{
  Failure, Member, is_symlink, is_drive, is_within, safe_target, admit_member, put_member,
  extract_from, safe_extract, Tree, directories, opened, placed, is_dir,
}
use aa_panel_tomcat_plugin.Folders.Contained.{
  IsBelow, IsMade, makedirs-IsBelow, make_parents-IsBelow,
}

module _ (realpath : Text → Text) (base : Text) where
  safe_target_sound :
      (name target : Text)
      → safe_target realpath base name ≡ ok target
      → is_within (realpath base) target ≡ true
  unfolding safe_target
  safe_target_sound name target h =
      elim (Bool-cases
        (starts_with (codes "/") name || starts_with (codes "\\") name || is_drive name)) [
          | inl e ↦ cc (rw (safe_target, e) at h)
          | inr e ↦
              elim (Bool-cases
                (is_within (realpath base) (realpath (base ++ (codes "/" ++ name))))) [
                  | inl f ↦
                      subst (λ t. is_within (realpath base) t ≡ true)
                        (sym (ok_eq (rw (safe_target, e, f) at h))) f
                  | inr f ↦ cc (rw (safe_target, e, f) at h)
                ]
        ]

  -- A member that is placed is no symlink, and its path is within the directory.
  admit_member_sound :
      (m : Member) (target : Text)
      → admit_member realpath base m ≡ ok target
      → (is_within (realpath base) target ≡ true) × (is_symlink m.external_attr ≡ false)
  unfolding admit_member
  admit_member_sound m target h = elim (Bool-cases (is_symlink m.external_attr)) [
    | inl e ↦ cc (rw (admit_member, e) at h)
    | inr e ↦ elim (Result-cases (safe_target realpath base m.filename)) [
      | inl (x, f) ↦ cc (rw (admit_member, e, f) at h)
      | inr (t, f) ↦ (
        subst (λ t. is_within (realpath base) t ≡ true) (sym (ok_eq (rw (admit_member, e, f) at h)))
            (safe_target_sound m.filename t f),
        e,
      )
    ]
  ]

module _ (realpath : Text → Text) (exists : Text → Bool) (base : Text)
    (made : IsMade exists (realpath base)) where
  abbrev IsInside : Text → Type 0
  IsInside target = is_within (realpath base) target ≡ true

  abbrev NoLink : Member → Type 0
  NoLink m = is_symlink m.external_attr ≡ false

  within-IsBelow : (p : Text) → IsInside p → IsBelow (realpath base) p
  unfolding is_within
  within-IsBelow p h = h

  below-IsInside : (ps : List Text) → All (IsBelow (realpath base)) ps → All IsInside ps
  unfolding is_within
  below-IsInside [] h = tt
  below-IsInside (p ∷ ps) (h, k) = (h, below-IsInside ps k)

  directories-IsInside :
      (m : Member) (target : Text)
      → IsInside target
      → All IsInside (directories realpath exists m target)
  unfolding directories
  directories-IsInside m target h = elim (Bool-cases (is_dir m)) [
    | inl e ↦ rw e (
        below-IsInside _
          (makedirs-IsBelow exists (realpath base) made target (within-IsBelow target h)))
    | inr e ↦ rw e (
        below-IsInside _
          (make_parents-IsBelow exists (realpath base) made target (within-IsBelow target h)))
  ]

  opened-IsInside :
      (m : Member) (target : Text)
      → IsInside target
      → All IsInside (opened realpath exists m target)
  unfolding opened
  opened-IsInside m target h = elim (Bool-cases (is_dir m)) [
    | inl e ↦ rw e tt
    | inr e ↦ rw e (h, tt)
  ]

  placed_sound :
      (m : Member) (members : List Member) (target : Text) (tree : Tree) (o : Option (Option ℕ))
      (rest : Tree × List Text × Option Failure)
      → IsInside target
      → NoLink m
      → All IsInside rest.1 × (rest.2 ≡ none → All NoLink members)
      → All IsInside (placed realpath exists base m target tree o rest).1
        × ((placed realpath exists base m target tree o rest).2 ≡ none → All NoLink (m ∷ members))
  unfolding placed
  placed_sound m members target tree none rest h l (k, n) = (
    All-append IsInside (directories realpath exists m target) _ (directories-IsInside m target h) (
        All-append IsInside (opened realpath exists m target) rest.1 (opened-IsInside m target h)
          k),
    λ e. (l, n e),
  )
  placed_sound m members target tree (some none) rest h l k =
      (directories-IsInside m target h, λ e. cc)
  placed_sound m members target tree (some (some n)) rest h l k = (
    All-append IsInside (directories realpath exists m target) _ (directories-IsInside m target h)
        (opened-IsInside m target h),
    λ e. cc,
  )

  extract_from_sound :
      (members : List Member) (tree : Tree)
      → All IsInside (extract_from realpath exists base members tree).1
        × ((extract_from realpath exists base members tree).2 ≡ none → All NoLink members)
  unfolding extract_from
  extract_from_sound [] tree = (tt, λ h. tt)
  extract_from_sound (m ∷ members) tree = elim (Result-cases (admit_member realpath base m)) [
    | inl (x, e) ↦ rw (extract_from, e) (tt, λ h. cc)
    | inr (target, e) ↦
        let sound = admit_member_sound realpath base m target e in
        rw (extract_from, e)
          (placed_sound m members target tree m.broken _ sound.0 sound.1
            (extract_from_sound members (put_member realpath exists base m m.body target tree)))
  ]

-- Where the directory exists with those on the way to it: each directory that the extraction makes,
-- those on the way to a member included, and each file that it opens, though it be written in part
-- only, is the directory or lies below it, whatever exception ends it; and it ends with an exception
-- or no member is a symbolic link.
pub safe_extract-IsContained :
    (realpath : Text → Text) (exists : Text → Bool) (members : List Member) (base : Text)
    (tree : Tree)
    → IsMade exists (realpath base)
    → All
        (λ target. is_within (realpath base) target ≡ true)
        (safe_extract realpath exists (some members) base tree).1
      × (((e : Failure) × ((safe_extract realpath exists (some members) base tree).2 ≡ some e))
          ⊎ All (λ m. is_symlink m.external_attr ≡ false) members)
unfolding safe_extract
safe_extract-IsContained realpath exists members base tree made =
    let sound = extract_from_sound realpath exists base made members tree in
    (
      sound.0,
      elim (Option-cases (extract_from realpath exists base members tree).2) [
        | inl e ↦ inr (sound.1 e)
        | inr (x, e) ↦ inl (x, e)
      ],
    )
