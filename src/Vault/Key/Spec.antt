-- ===== src/Vault/Key/Spec.antt =====
-- What a repository holds, and what its libraries are relied on for.
use citius_server.Prelude.{◌≡◌, refl, Bool, true, false, Option, none, Text}
use citius_server.Errors.{Error, ok, err, IsKeyNotFoundTest}
use citius_server.Vault.Storage.{IsStorage}
use citius_server.Vault.Key.Types.{Key, Version, Libraries, Repo, Names, custom, mapped}

-- Protobuf reads back what it wrote, its errors carry no domain code, and `IsKeyNotFound` is as
-- documented.
pub record IsLibraries {S : Type 0} (x : Libraries S) (contents : S → Text → Option Text)
    : Type 0 where
  pub storage : IsStorage x.storage contents
  pub not_found : IsKeyNotFoundTest x.is_key_not_found
  pub read_key : (k : Key) (b : Text) → x.marshal_key k ≡ ok b → x.unmarshal_key b ≡ ok k
  pub read_version :
      (v : Version) (b : Text) → x.marshal_version v ≡ ok b → x.unmarshal_version b ≡ ok v
  pub key_errors : (b : Text) (e : Error) → x.unmarshal_key b ≡ err e → x.is_key_not_found e ≡ false
  pub version_errors :
      (b : Text) (e : Error) → x.unmarshal_version b ≡ err e → x.is_key_not_found e ≡ false

module _ {S : Type 0} where
  abbrev pub is_custom : Names S → Bool
  is_custom (custom f) = true
  is_custom (mapped s cache) = false

module _ {S : Type 0} (contents : S → Text → Option Text) where
  -- The id that a stored mapping holds for a name.
  abbrev pub name_at : Names S → Text → Option Text
  name_at (custom f) name = none
  name_at (mapped s cache) name = contents s name

  -- The three views hold the same entries.
  pub record Same (r r' : Repo S) : Type 0 where
    pub keys : (j : Text) → contents r'.keys j ≡ contents r.keys j
    pub key_versions : (j : Text) → contents r'.key_versions j ≡ contents r.key_versions j
    pub names : (j : Text) → name_at r'.names j ≡ name_at r.names j

  pub Same-refl : (r : Repo S) → Same r r
  Same-refl r = record { keys = λ j. refl; key_versions = λ j. refl; names = λ j. refl }
