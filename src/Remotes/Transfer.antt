-- ===== src/Remotes/Transfer.antt =====
-- plugin/javahost/core/backup/remote.py: uploads, downloads and deletions over the profiles. What
-- a bucket answers is an argument: `none` is the S3Error.
pub mod First
use aa_panel_tomcat_plugin.Prelude.{
  ℕ, Bool, true, false, not, ◌&&◌, List, [], ◌∷◌, ◌++◌, Option, none, some, Text, codes, map,
  filter, any, ◌==◌, if◌then◌else◌, is_nil, is_empty, among, text_eq, strip, lower, split_on,
}
use aa_panel_tomcat_plugin.Remotes.{Profile, find, is_complete, enabled_ids}

-- The selector of destinations that a caller gives.
pub data Selector : Type 0 where
  nowhere : Selector
  text : Text → Selector
  ids : List Text → Selector

abbrev pub non_empty : List Text → List Text
non_empty names = filter (λ i. not (is_empty i)) names

-- `_resolve_ids`
pub resolve_ids : List Profile → Selector → List Text
resolve_ids profiles nowhere = []
resolve_ids profiles (ids names) = non_empty names
resolve_ids profiles (text s) =
    if is_empty s
    then []
    else if text_eq (lower (strip s)) (codes "all")
    then enabled_ids profiles
    else non_empty (map strip (split_on b',' s))

-- What the S3 client does for a profile: whether a put, a get or a delete of a name succeeds, and
-- the names and sizes that a listing gives.
pub record Client : Type 0 where
  pub put_object : Profile → Text → Bool
  pub get_object : Profile → Text → Bool
  pub delete_object : Profile → Text → Bool
  pub list_objects : Profile → Option (List (Text × ℕ))

-- `_client`: the profile, where it is there and complete
pub client_of : List Profile → Text → Option Profile
client_of profiles pid = elim (find pid profiles) [
  | none ↦ none
  | some p ↦ if is_complete p.fields then some p else none
]

abbrev pub succeeds : (Profile → Text → Bool) → Text → Option Profile → Bool
succeeds operation name none = false
succeeds operation name (some p) = operation p name

module _ (client : Client) (profiles : List Profile) where
  pub puts : Text → Text → Bool
  puts name pid = succeeds client.put_object name (client_of profiles pid)

  -- `upload`: the result of each id, and the ids that hold the object now
  pub upload : Text → List Text → List (Text × Bool) × List Text
  upload name [] = ([], [])
  upload name (pid ∷ pids) =
      let rest = upload name pids in
      ((pid, puts name pid) ∷ rest.0, if puts name pid then pid ∷ rest.1 else rest.1)

  abbrev listed : Text → Option (List (Text × ℕ)) → Bool
  listed name none = false
  listed name (some objects) = any (λ o. text_eq o.0 name) objects

  -- whether a profile is tried and gives the object, when it is the `auto` choice
  pub gives : Bool → Text → Option Profile → Bool
  gives auto name none = false
  gives auto name (some p) =
      if auto && not (listed name (client.list_objects p)) then false else client.get_object p name

  -- the loop of `download` over the candidates
  pub download_from : Bool → Text → List Text → Option Text
  download_from auto name [] = none
  download_from auto name (cid ∷ candidates) =
      let rest = download_from auto name candidates in
      if gives auto name (client_of profiles cid) then some cid else rest

  -- `download`: the profile that it came from
  pub download : Text → Option Text → Option Text
  download name none = download_from true name (enabled_ids profiles)
  download name (some pid) =
      if is_empty pid
      then download_from false name (enabled_ids profiles)
      else download_from false name (pid ∷ [])

  abbrev targets_of : Selector → List Text
  targets_of s =
      if is_nil (resolve_ids profiles s) then enabled_ids profiles else resolve_ids profiles s

  -- `delete`: the profiles that the object was removed from
  pub delete : Text → Selector → List Text
  delete name s =
      filter (λ pid. succeeds client.delete_object name (client_of profiles pid)) (targets_of s)
