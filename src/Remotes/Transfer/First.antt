-- ===== src/Remotes/Transfer/First.antt =====
-- Which profile a download comes from, and what an upload reports.
use aa_panel_tomcat_plugin.Prelude.{
  ◌≡◌, refl, ap, inl, inr, Bool, true, false, ◌&&◌, List, [], ◌∷◌, ◌++◌, Option, none, some, Text,
  All, Bool-cases, filter, map,
}
use aa_panel_tomcat_plugin.Remotes.{Profile, enabled_ids}
use aa_panel_tomcat_plugin.Remotes.Transfer.{
  Client, client_of, puts, upload, listed, gives, download_from, download,
}

module _ (client : Client) (profiles : List Profile) (name : Text) where
  -- the profile is there and complete, its bucket lists the object, and getting it succeeds
  abbrev pub has_object : Option Profile → Bool
  has_object none = false
  has_object (some p) =
      listed client profiles name (client.list_objects p) && client.get_object p name

  abbrev pub serves : Text → Bool
  serves cid = has_object (client_of profiles cid)

  gives-has_object : (o : Option Profile) → gives client profiles true name o ≡ has_object o
  unfolding gives
  gives-has_object none = refl
  gives-has_object (some p) =
      elim (Bool-cases (listed client profiles name (client.list_objects p))) [
        | inl e ↦ rw e refl
        | inr e ↦ rw e refl
      ]

  -- The choice is the first candidate that lists the object and gives it, or none does.
  abbrev pub IsFirst : List Text → Option Text → Type 0
  IsFirst candidates none = All (λ c. serves c ≡ false) candidates
  IsFirst candidates (some cid) =
      (before : List Text) × (after : List Text) × (candidates ≡ before ++ (cid ∷ after))
      × All (λ c. serves c ≡ false) before
      × (serves cid ≡ true)

  later :
      (c : Text) (candidates : List Text) (choice : Option Text)
      → serves c ≡ false
      → IsFirst candidates choice
      → IsFirst (c ∷ candidates) choice
  later c candidates none e h = (e, h)
  later c candidates (some cid) e (before, after, f, h, k) =
      (c ∷ before, after, ap (λ r. c ∷ r) f, (e, h), k)

  download_from-IsFirst :
      (candidates : List Text)
      → IsFirst candidates (download_from client profiles true name candidates)
  unfolding download_from
  download_from-IsFirst [] = tt
  download_from-IsFirst (c ∷ candidates) = elim (Bool-cases (serves c)) [
    | inl e ↦ rw (gives-has_object (client_of profiles c), e) ([], candidates, refl, tt, e)
    | inr e ↦
        rw (gives-has_object (client_of profiles c), e)
          (later c candidates (download_from client profiles true name candidates) e
            (download_from-IsFirst candidates))
  ]

-- A download that names no profile comes from the first enabled one that is complete, lists the
-- object and gives it; that it fails means that no enabled profile does all of this.
pub download-IsFirst :
    (client : Client) (profiles : List Profile) (name : Text)
    → IsFirst client profiles name (enabled_ids profiles) (download client profiles name none)
unfolding download
download-IsFirst client profiles name =
    download_from-IsFirst client profiles name (enabled_ids profiles)

-- An upload reports on each destination, in order, whether it took the object, and the
-- destinations that it says hold the object are those, and only those, whose report is good.
pub upload_lem :
    (client : Client) (profiles : List Profile) (name : Text) (pids : List Text)
    → ((upload client profiles name pids).0
        ≡ map (λ pid. (pid, puts client profiles name pid)) pids)
      × ((upload client profiles name pids).1 ≡ filter (puts client profiles name) pids)
unfolding upload filter
upload_lem client profiles name [] = (refl, refl)
upload_lem client profiles name (pid ∷ pids) =
    let rest = upload_lem client profiles name pids in
    (
      ap (λ r. (pid, puts client profiles name pid) ∷ r) rest.0,
      elim (Bool-cases (puts client profiles name pid)) [
        | inl e ↦ rw e (ap (λ r. pid ∷ r) rest.1)
        | inr e ↦ rw e rest.1
      ],
    )
