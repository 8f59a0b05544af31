-- ===== src/Logs/Targets.antt =====
-- A live log is never purged: no target of the rotation is an artifact.
use aa_panel_tomcat_plugin.Prelude.{
  ℕ, ◌≡◌, ◌≢◌, refl, sym, ap, ◌∙◌, inl, inr, Bool, true, ◌||◌, List, [], ◌∷◌, ◌++◌, Option, Text,
  codes, All, All-append, Elem, All_at, arith, Bool-cases, text_eq, text_eq_iff, filter, and_true,
}
use aa_panel_tomcat_plugin.Logs.{
  ends_with, Listing, Tree, or_nothing, under, is_instance_log, is_plugin_log, paths_in,
  is_artifact, instance_paths, targets, rotated_artifacts,
}

-- the last character, 0 where there is none
abbrev last_char : Text → ℕ
last_char [] = 0
last_char (c ∷ []) = c
last_char (c ∷ d ∷ s) = last_char (d ∷ s)

last_char-append : (s : Text) (c : ℕ) (t : Text) → last_char (s ++ c ∷ t) ≡ last_char (c ∷ t)
last_char-append [] c t = refl
last_char-append (a ∷ []) c t = refl
last_char-append (a ∷ b ∷ s) c t = last_char-append (b ∷ s) c t

last_char-under : (dir name : Text) → last_char (under dir name) ≡ last_char (codes "/" ++ name)
unfolding under
last_char-under dir name = last_char-append dir b'/' name

-- A text that ends with a suffix ends with its last character.
ends_with-last_char :
    (c d : ℕ) (suffix s : Text)
    → ends_with (c ∷ d ∷ suffix) s ≡ true
    → last_char s ≡ last_char (c ∷ d ∷ suffix)
unfolding ends_with text_eq
ends_with-last_char c d suffix [] h = cc
ends_with-last_char c d suffix (a ∷ []) h = ground arith
ends_with-last_char c d suffix (a ∷ b ∷ s) h =
    elim (Bool-cases (text_eq (c ∷ d ∷ suffix) (a ∷ b ∷ s))) [
      | inl e ↦ ap last_char (sym ((text_eq_iff (c ∷ d ∷ suffix) (a ∷ b ∷ s)).0 e))
      | inr e ↦ ends_with-last_char c d suffix (b ∷ s) (ground arith)
    ]

-- The path of an entry ends as its name, where the name ends with a suffix.
last_char-path :
    (dir name : Text) (l : ℕ) → l ≢ 0 → last_char name ≡ l → last_char (under dir name) ≡ l
last_char-path dir [] l h e = absurd (h (sym e))
last_char-path dir (c ∷ s) l h e = last_char-under dir (c ∷ s) ∙ e

is_artifact-last_char : (e : Text × Bool) → is_artifact e ≡ true → last_char e.0 ≡ b'z'
unfolding is_artifact
is_artifact-last_char (f, file) h =
    ends_with-last_char b'.' b'g' (codes "z") f (and_true (ends_with (codes ".gz") f) _ h).0

is_log-last_char :
    (f : Text)
    → (text_eq f (codes "catalina.out") || ends_with (codes ".log") f) ≡ true
    → last_char f ≢ b'z'
is_log-last_char f h = elim (Bool-cases (text_eq f (codes "catalina.out"))) [
  | inl e ↦ λ k. ground (arith, ap last_char ((text_eq_iff f (codes "catalina.out")).0 e))
  | inr e ↦ λ k. ground (arith, ends_with-last_char b'.' b'l' (codes "og") f (ground arith))
]

module _ (P : Text → Type 0) (p : Text × Bool → Bool)
    (holds : (dir : Text) (e : Text × Bool) → p e ≡ true → P (under dir e.0)) where
  paths_in-All : (dir : Text) (listing : Listing) → All P (paths_in p dir listing)
  unfolding paths_in filter
  paths_in-All dir [] = tt
  paths_in-All dir (e ∷ listing) = elim (Bool-cases (p e)) [
    | inl k ↦ rw k (holds dir e k, paths_in-All dir listing)
    | inr k ↦ rw k (paths_in-All dir listing)
  ]

  instance_paths-All :
      (instance_root logs_dir : Text) (instances : List (Text × Option Listing))
      → All P (instance_paths instance_root logs_dir p instances)
  unfolding instance_paths
  instance_paths-All instance_root logs_dir [] = tt
  instance_paths-All instance_root logs_dir ((name, listing) ∷ instances) =
      All-append P _ _ (paths_in-All _ (or_nothing listing))
        (instance_paths-All instance_root logs_dir instances)

abbrev EndsZ : Text → Type 0
EndsZ path = last_char path ≡ b'z'

abbrev EndsElse : Text → Type 0
EndsElse path = last_char path ≢ b'z'

artifact-EndsZ : (dir : Text) (e : Text × Bool) → is_artifact e ≡ true → EndsZ (under dir e.0)
artifact-EndsZ dir e h = last_char-path dir e.0 b'z' (λ k. ground arith) (is_artifact-last_char e h)

path-EndsElse : (dir f : Text) → last_char f ≢ b'z' → EndsElse (under dir f)
path-EndsElse dir [] h k = ground (arith, last_char-under dir [])
path-EndsElse dir (c ∷ f) h k = h (sym (last_char-under dir (c ∷ f)) ∙ k)

instance_log-EndsElse :
    (dir : Text) (e : Text × Bool) → is_instance_log e ≡ true → EndsElse (under dir e.0)
unfolding is_instance_log
instance_log-EndsElse dir (f, file) h = path-EndsElse dir f (is_log-last_char f (ground arith))

plugin_log-EndsElse :
    (dir : Text) (e : Text × Bool) → is_plugin_log e ≡ true → EndsElse (under dir e.0)
unfolding is_plugin_log
plugin_log-EndsElse dir (f, file) h = path-EndsElse dir f (is_log-last_char f (ground arith))

-- No log that is rotated while it is live is among the artifacts that a purge may remove.
pub targets-rotated_artifacts :
    (instance_root logs_dir : Text) (tree : Tree) (path : Text)
    → Elem path (targets instance_root logs_dir tree)
    → Elem path (rotated_artifacts instance_root logs_dir tree)
    → ⊥
unfolding targets rotated_artifacts
targets-rotated_artifacts instance_root logs_dir tree path m k =
    All_at EndsElse path _
      (All-append EndsElse _ _
        (instance_paths-All EndsElse is_instance_log instance_log-EndsElse instance_root logs_dir
          (or_nothing tree.instances))
        (paths_in-All EndsElse is_plugin_log plugin_log-EndsElse logs_dir
          (or_nothing tree.plugin_logs)))
      m
      (All_at EndsZ path _
        (All-append EndsZ _ _
          (instance_paths-All EndsZ is_artifact artifact-EndsZ instance_root logs_dir
            (or_nothing tree.instances))
          (paths_in-All EndsZ is_artifact artifact-EndsZ logs_dir (or_nothing tree.plugin_logs)))
        k)
