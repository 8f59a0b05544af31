-- ===== src/Remotes/Secret.antt =====
-- What the panel is shown of a profile does not depend on its secret key.
use aa_panel_tomcat_plugin.Prelude.{
  ℕ, ◌≡◌, refl, true, false, List, [], ◌∷◌, Text, codes, map, text_eq, text_eq_iff, find_key,
  set_key, find_key-set_key, find_key-set_key_ne, Value, null, bool, str, truthy, all, Dict,
}
use aa_panel_tomcat_plugin.Remotes.{Profile, redact, list_profiles, field, is_complete}

-- a profile with a secret, which is not empty
abbrev pub with_secret : ℕ × Text → Profile → Profile
with_secret (c, s) p = record p { fields = set_key (codes "secret_key") (str (c ∷ s)) p.fields }

apart :
    (key : Text) (secret : Value) (d : Dict Value)
    → text_eq key (codes "secret_key") ≡ false
    → find_key key (set_key (codes "secret_key") secret d) ≡ find_key key d
apart key secret d h =
    find_key-set_key_ne key (codes "secret_key") secret d
      (λ e. cc (h, (text_eq_iff key (codes "secret_key")).1 e))

-- what is shown where the secret is set
abbrev shown : Text → Dict Value → Dict Value
shown pid d =
    (codes "id", str pid)
    ∷ (codes "name", field (codes "name") (str pid) d)
    ∷ (codes "provider", field (codes "provider") (str (codes "other")) d)
    ∷ (codes "endpoint", field (codes "endpoint") (str []) d)
    ∷ (codes "region", field (codes "region") (str []) d)
    ∷ (codes "bucket", field (codes "bucket") (str []) d)
    ∷ (codes "access_key", field (codes "access_key") (str []) d)
    ∷ (codes "prefix", field (codes "prefix") (str []) d)
    ∷ (codes "path_style", bool (truthy (field (codes "path_style") (bool true) d)))
    ∷ (codes "enabled", bool (truthy (field (codes "enabled") (bool true) d)))
    ∷ (codes "secret_set", bool true)
    ∷ (
      codes "configured",
      bool (
          all (λ k. truthy (field k null d))
            (codes "endpoint" ∷ codes "bucket" ∷ codes "access_key" ∷ [])),
    )
    ∷ (codes "created_at", field (codes "created_at") null d)
    ∷ []

redact-with_secret :
    (c : ℕ) (s : Text) (p : Profile) → redact (with_secret (c, s) p) ≡ shown p.id p.fields
unfolding redact is_complete truthy all text_eq
redact-with_secret c s p =
    rw
      (
        redact,
        is_complete,
        field,
        apart (codes "name") (str (c ∷ s)) p.fields refl,
        apart (codes "provider") (str (c ∷ s)) p.fields refl,
        apart (codes "endpoint") (str (c ∷ s)) p.fields refl,
        apart (codes "region") (str (c ∷ s)) p.fields refl,
        apart (codes "bucket") (str (c ∷ s)) p.fields refl,
        apart (codes "access_key") (str (c ∷ s)) p.fields refl,
        apart (codes "prefix") (str (c ∷ s)) p.fields refl,
        apart (codes "path_style") (str (c ∷ s)) p.fields refl,
        apart (codes "enabled") (str (c ∷ s)) p.fields refl,
        apart (codes "created_at") (str (c ∷ s)) p.fields refl,
        find_key-set_key (codes "secret_key") (str (c ∷ s)) p.fields,
      )
      refl

-- Whatever secrets the profiles have, as long as each has one, the same list is shown.
pub list_profiles-with_secret :
    (secret other : Profile → ℕ × Text) (profiles : List Profile)
    → list_profiles (map (λ p. with_secret (secret p) p) profiles)
      ≡ list_profiles (map (λ p. with_secret (other p) p) profiles)
unfolding list_profiles
list_profiles-with_secret secret other [] = refl
list_profiles-with_secret secret other (p ∷ profiles) =
    rw
      (
        redact-with_secret (secret p).0 (secret p).1 p,
        redact-with_secret (other p).0 (other p).1 p,
        list_profiles-with_secret secret other profiles,
      )
      refl
