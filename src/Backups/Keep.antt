-- ===== src/Backups/Keep.antt =====
-- Which backups are left after the retention ran.
use aa_panel_tomcat_plugin.Prelude.{
  ◌≡◌, refl, sym, ap, ◌∙◌, inl, inr, Bool, true, false, not, ◌||◌, List, [], ◌∷◌, ◌++◌, Text, codes,
  ok, err, ok_eq, All-of_Elem, filter-eq_self, filter_cong, filter-filter, filter-eq_of_any, Elem,
  Bool-cases, Result-cases, text_eq, text_eq_iff, text_leb, text_leb_total, text_leb_trans,
  sort_by-IsSorted, IsSorted, take-before-drop, take, drop, starts_with, arith, filter, any, among,
  map, ℤ, clip, Value,
}
use aa_panel_tomcat_plugin.Validate.{identifier}
use aa_panel_tomcat_plugin.Backups.{
  Backup, is_backup_name, local_names, newer_first, is_listed, path_of, backup_path, unlink,
  delete_local, remove_all, surplus, prune_local,
}

module _ (realpath : Text → Text) (root : Text) (locked : Text → Bool) where
  abbrev at : Text → Text
  at name = path_of realpath root locked name

  -- The backup of a name stays although it is deleted, as its path is refused or is locked.
  abbrev pub stays : Text → Bool
  stays name = elim (backup_path realpath root locked name) [ err e ↦ true | ok path ↦ locked name ]

  -- Two names never have one real path.
  abbrev pub IsDistinct : Type 0
  IsDistinct = (a b : Text) → at a ≡ at b → a ≡ b

  backup_path-ok :
      (name path : Text) → backup_path realpath root locked name ≡ ok path → path ≡ at name
  unfolding backup_path
  backup_path-ok name path h = elim (Bool-cases (not (is_backup_name name))) [
    | inl e ↦ cc (rw (backup_path, e) at h)
    | inr e ↦
        elim (Bool-cases (text_eq (at name) root || starts_with (root ++ codes "/") (at name))) [
          | inl f ↦ ok_eq (rw (backup_path, e, f) at h)
          | inr f ↦ cc (rw (backup_path, e, f) at h)
        ]
  ]

  abbrev spares : Text → Backup → Bool
  spares name b = stays b.name || not (text_eq b.name name)

  module _ (distinct : IsDistinct) where
    same-path : (name : Text) (b : Backup) → text_eq (at b.name) (at name) ≡ text_eq b.name name
    same-path name b = elim (Bool-cases (text_eq b.name name)) [
      | inl e ↦
          (text_eq_iff (at b.name) (at name)).1 (ap at ((text_eq_iff b.name name).0 e)) ∙ sym e
      | inr e ↦ elim (Bool-cases (text_eq (at b.name) (at name))) [
        | inl f ↦ cc (
          e,
          (text_eq_iff b.name name).1
              (distinct b.name name ((text_eq_iff (at b.name) (at name)).0 f)),
        )
        | inr f ↦ f ∙ sym e
      ]
    ]

    spares-stays : (name : Text) (b : Backup) → stays name ≡ true → spares name b ≡ true
    spares-stays name b h = elim (Bool-cases (text_eq b.name name)) [
      | inl e ↦ rw (e, (text_eq_iff b.name name).0 e, h) refl
      | inr e ↦ ground (arith)
    ]

    spares-eq :
        (name : Text) (b : Backup) → stays name ≡ false → spares name b ≡ not (text_eq b.name name)
    spares-eq name b h = elim (Bool-cases (text_eq b.name name)) [
      | inl e ↦ rw (e, (text_eq_iff b.name name).0 e, h) refl
      | inr e ↦ ground (arith)
    ]

    filter-spares :
        (name : Text) (files : List Backup) → stays name ≡ true → files ≡ filter (spares name) files
    filter-spares name files h =
        sym
          (filter-eq_self (spares name) files (All-of_Elem _ files (λ b m. spares-stays name b h)))

    unlink-filter :
        (name path : Text) (files : List Backup)
        → locked name ≡ false
        → (unlink realpath root locked name path files).0
          ≡ filter (λ b. not (text_eq (at b.name) path)) files
    unfolding unlink
    unlink-filter name path files h =
        elim (Bool-cases (any (λ b. text_eq (at b.name) path) files)) [
          | inl e ↦ rw (unlink, e, h) refl
          | inr e ↦ rw (unlink, e) (sym (filter-eq_of_any (λ b. text_eq (at b.name) path) files e))
        ]

    unlink-locked :
        (name path : Text) (files : List Backup)
        → locked name ≡ true
        → (unlink realpath root locked name path files).0 ≡ files
    unfolding unlink
    unlink-locked name path files h =
        elim (Bool-cases (any (λ b. text_eq (at b.name) path) files)) [
          | inl e ↦ rw (unlink, e, h) refl
          | inr e ↦ rw (unlink, e) refl
        ]

    delete_local-filter :
        (name : Text) (files : List Backup)
        → (delete_local realpath root locked name files).0 ≡ filter (spares name) files
    unfolding delete_local
    delete_local-filter name files = elim (Result-cases (backup_path realpath root locked name)) [
      | inl (x, e) ↦ rw (delete_local, e) (filter-spares name files (rw (stays, e) refl))
      | inr (path, e) ↦ elim (Bool-cases (locked name)) [
        | inl f ↦
            rw (delete_local, e)
              (unlink-locked name path files f ∙ filter-spares name files (rw (stays, e) f))
        | inr f ↦
            rw (delete_local, e)
              (unlink-filter name path files f
                ∙ filter_cong _ (spares name) files (λ b.
                  ap not (ap (text_eq (at b.name)) (backup_path-ok name path e) ∙ same-path name b)
                  ∙ sym (spares-eq name b (rw (stays, e) f))))
      ]
    ]

    remove_all-filter :
        (names : List Text) (files : List Backup)
        → (remove_all realpath root locked names files).0
          ≡ filter (λ b. stays b.name || not (among b.name names)) files
    unfolding remove_all among any
    remove_all-filter [] files =
        sym (filter-eq_self _ files (All-of_Elem _ files (λ b m. ground arith)))
    remove_all-filter (name ∷ names) files =
        remove_all-filter names (delete_local realpath root locked name files).0
        ∙ ap (filter (λ b. stays b.name || not (among b.name names)))
            (delete_local-filter name files)
        ∙ filter-filter _ (spares name) files
        ∙ filter_cong _ _ files (λ b. ground arith)

-- The names are listed with the last in the order of texts first.
local_names-IsSorted :
    (app : Text) (files : List Backup) → IsSorted newer_first (local_names app files)
unfolding local_names
local_names-IsSorted app files =
    sort_by-IsSorted newer_first (λ s t h. text_leb_total t s h)
      (λ s t u h k. text_leb_trans u t s k h) (map (λ b. b.name) (filter (is_listed app) files))

-- Where two names never have one real path and `prune_backups` returns: what is left is every
-- backup but those of the surplus that can be removed, the surplus is what follows the first `keep`
-- backups of the application in the order of names, and none of those first has a name that comes
-- before a name of the surplus.
pub prune_local-IsKept :
    (realpath : Text → Text) (root : Text) (locked : Text → Bool) (app : Value) (name : Text)
    (keep : ℤ) (files : List Backup) (r : List Backup × List Text)
    → IsDistinct realpath root locked
    → identifier app ≡ ok name
    → prune_local realpath root locked app keep files ≡ ok r
    → (r.0
        ≡ filter
            (λ b.
              stays realpath root locked b.name
              || not (among b.name (drop (clip keep) (local_names name files))))
            files)
      × ((a b : Text)
          → Elem a (take (clip keep) (local_names name files))
          → Elem b (drop (clip keep) (local_names name files))
          → text_leb b a ≡ true)
unfolding prune_local surplus
prune_local-IsKept realpath root locked app name keep files r distinct e h = (
  ap (λ p. p.0) (ok_eq (rw (prune_local, e) at h))
      ∙ remove_all-filter realpath root locked distinct (drop (clip keep) (local_names name files))
          files,
  λ a b m k.
      take-before-drop newer_first (clip keep) a b (local_names name files)
        (local_names-IsSorted name files) m k,
)
