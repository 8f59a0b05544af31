-- ===== src/Config/Cached.antt =====
-- The cache of the configuration never shows a setting that the file does not have.
use aa_panel_tomcat_plugin.Prelude.{
  ◌≡◌, ◌≢◌, refl, sym, ap, ◌∙◌, inl, inr, true, false, [], ◌∷◌, Option, none, some, Text, Value,
  arith, Bool-cases, some_eq, Dict, find_key, set_key, update_keys, find_key-set_key,
  find_key-set_key_ne,
}
use aa_panel_tomcat_plugin.Config.{
  File, Stamp, Store, stamp_eq, load_file, load, default_for, or_else, get, content_of, update,
}

-- A cache entry under the file's stamp holds the file's content.
abbrev pub IsCoherent : Store → Type 0
IsCoherent store =
    (key : Stamp) (entries : Dict Value) (file : File)
    → store.cache ≡ some (key, entries)
    → store.file ≡ some file
    → stamp_eq key file.stamp ≡ true
    → entries ≡ file.content

-- The stamp of the file differs from the one that the cache is keyed by.
abbrev pub IsNewStamp : Store → Option File → Type 0
IsNewStamp store file =
    (key : Stamp) (entries : Dict Value) (f : File)
    → store.cache ≡ some (key, entries)
    → file ≡ some f
    → stamp_eq key f.stamp ≡ false

-- What can happen to the configuration: a process starts, reads or updates it, or the file is edited
-- or removed from outside and gets another stamp.
pub data Reaches : Store → Type 0 where
  started : (file : Option File) → Reaches (record { file = file; cache = none })
  loaded : (store : Store) → Reaches store → Reaches (load store).1
  updated :
      (store : Store) (changes : Dict Value) (stamp : Stamp)
      → Reaches store
      → Reaches (update changes stamp store)
  edited :
      (store : Store) (file : Option File)
      → Reaches store
      → IsNewStamp store file
      → Reaches (record { file = file; cache = store.cache })

load_file-content :
    (file : File) (cache : Option (Stamp × Dict Value))
    → IsCoherent (record { file = some file; cache = cache })
    → (load_file file cache).0 ≡ file.content
unfolding load_file
load_file-content file none h = refl
load_file-content file (some (key, entries)) h = elim (Bool-cases (stamp_eq key file.stamp)) [
  | inl e ↦ rw (e, load_file) (h key entries file refl refl e)
  | inr e ↦ rw (e, load_file) refl
]

reread-IsCoherent :
    (file : File)
    → IsCoherent (record { file = some file; cache = some (file.stamp, file.content) })
reread-IsCoherent file key entries f h k e =
    sym (ap (λ x. x.1) (some_eq h)) ∙ ap (λ f. f.content) (some_eq k)

load_file-IsCoherent :
    (file : File) (cache : Option (Stamp × Dict Value))
    → IsCoherent (record { file = some file; cache = cache })
    → IsCoherent (load_file file cache).1
unfolding load_file
load_file-IsCoherent file none h = reread-IsCoherent file
load_file-IsCoherent file (some (key, entries)) h = elim (Bool-cases (stamp_eq key file.stamp)) [
  | inl e ↦ rw (e, load_file) h
  | inr e ↦ rw (e, load_file) (reread-IsCoherent file)
]

load_file-file :
    (file : File) (cache : Option (Stamp × Dict Value)) → (load_file file cache).1.file ≡ some file
unfolding load_file
load_file-file file none = refl
load_file-file file (some (key, entries)) = ground arith

abbrev store_of : Option File → Option (Stamp × Dict Value) → Store
store_of file cache = record { file = file; cache = cache }

-- What a read shows and leaves, from the parts of a store.
loads :
    (file : Option File) (cache : Option (Stamp × Dict Value))
    → IsCoherent (record { file = file; cache = cache })
    → ((load (store_of file cache)).0 ≡ content_of file)
      × IsCoherent (load (store_of file cache)).1
      × ((load (store_of file cache)).1.file ≡ file)
unfolding load
loads none cache h = (refl, (λ key entries f k l e. cc), refl)
loads (some file) cache h =
    (load_file-content file cache h, load_file-IsCoherent file cache h, load_file-file file cache)

load_sound :
    (store : Store)
    → IsCoherent store
    → ((load store).0 ≡ content_of store.file)
      × IsCoherent (load store).1
      × ((load store).1.file ≡ store.file)
load_sound store h = loads store.file store.cache h

update-IsCoherent :
    (changes : Dict Value) (stamp : Stamp) (store : Store) → IsCoherent (update changes stamp store)
unfolding update
update-IsCoherent changes stamp store key entries file h k e = cc

-- Every store that is reached is coherent.
Reaches-IsCoherent : (store : Store) → Reaches store → IsCoherent store
Reaches-IsCoherent store (started file) = λ key entries f h k e. cc
Reaches-IsCoherent store (loaded s r) = (load_sound s (Reaches-IsCoherent s r)).1
Reaches-IsCoherent store (updated s changes stamp r) = update-IsCoherent changes stamp s
Reaches-IsCoherent store (edited s file r new) =
    λ key entries f h k e. absurd (cc (new key entries f h k, e))

pub get_sound :
    (store : Store) (key : Text) (default : Value)
    → Reaches store
    → (get key default store
        ≡ or_else (find_key key (content_of store.file)) (default_for key default))
      × ((load store).1.file ≡ store.file)
unfolding get
get_sound store key default r =
    let (same, coherent, kept) = load_sound store (Reaches-IsCoherent store r) in
    (ap (λ d. or_else (find_key key d) (default_for key default)) same, kept)

get-update :
    (store : Store) (key other : Text) (v default : Value) (stamp : Stamp)
    → Reaches store
    → get other default (update ((key, v) ∷ []) stamp store)
      ≡ or_else (find_key other (set_key key v (content_of store.file))) (default_for other default)
unfolding update update_keys
get-update store key other v default stamp r =
    (get_sound (update ((key, v) ∷ []) stamp store) other default
      (updated store ((key, v) ∷ []) stamp r)).0

-- Where each edit from outside so far changed the stamp that the cache has if it changed what the
-- file holds: after a setting is updated it reads as the new value, and every other setting reads as
-- before.
pub update-get :
    (store : Store) (key : Text) (v default : Value) (stamp : Stamp)
    → Reaches store
    → (get key default (update ((key, v) ∷ []) stamp store) ≡ v)
      × ((other : Text) (default' : Value)
          → other ≢ key
          → get other default' (update ((key, v) ∷ []) stamp store) ≡ get other default' store)
update-get store key v default stamp r = (
  get-update store key key v default stamp r
      ∙ ap (λ o. or_else o (default_for key default))
          (find_key-set_key key v (content_of store.file)),
  λ other d ne.
      get-update store key other v d stamp r
      ∙ ap (λ o. or_else o (default_for other d))
          (find_key-set_key_ne other key v (content_of store.file) ne)
      ∙ sym (get_sound store other d r).0,
)
