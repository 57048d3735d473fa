-- ===== src/Vault/Provider.antt =====
-- vault-storage/provider/vault_repository.go: the repository of provider instances. Each method holds the
-- repository's lock throughout.
use citius_server.Prelude.{◌≡◌, Option, none, some, List, if◌then◌else◌, ◌==◌, Text, text_Eq}
use citius_server.Errors.{Result, ok, err, new, invalid_argument, provider_not_found}
use citius_server.Vault.Storage.{Storage, IsStorage, IsSteady}
use citius_server.Vault.Collection.{
  Codec, IsCodec, put_value, get_value, delete_value, list_names, get_value-after_put,
  delete_value_lem,
}

-- What the repository sees of a provider instance.
pub record Instance : Type 0 where
  pub public_id : Text
  pub rest : Text

module _ {S : Type 0} (x : Storage S) (c : Codec Instance) where
  unfoldable pub put_provider_instance : Option Instance → S → Result (Unit {0}) × S
  put_provider_instance none s = (err (new invalid_argument), s)
  put_provider_instance (some v) s = put_value x c v.public_id v s

  unfoldable pub get_provider_instance : Text → S → Result Instance
  get_provider_instance = get_value x c provider_not_found

  unfoldable pub delete_provider_instance : Text → S → Result (Unit {0}) × S
  delete_provider_instance = delete_value x c provider_not_found

  unfoldable pub list_provider_instances : S → Result (List Text)
  list_provider_instances = list_names x c

module _ {S : Type 0} (x : Storage S) (c : Codec Instance) (contents : S → Text → Option Text)
    (law : IsStorage x contents) (steady : IsSteady x contents) (codec : IsCodec c) where
  -- Over a storage whose reads and deletions succeed, with an encoding that reads back what it
  -- wrote: after a successful `PutProviderInstance`, `GetProviderInstance` returns the instance
  -- under its id, and under every other id what it returned before; after one that fails, it
  -- returns for every id what it returned before.
  pub get_provider_instance-put_provider_instance :
      (v : Instance) (s : S) (j : Text)
      → let (a, t) = put_provider_instance x c (some v) s in
        get_provider_instance x c j t ≡ (
          if v.public_id == j
          then (elim a [ ok u ↦ ok v | err e ↦ get_provider_instance x c j s ])
          else get_provider_instance x c j s)
  unfolding put_provider_instance get_provider_instance
  get_provider_instance-put_provider_instance v s =
      get_value-after_put x c contents law steady codec provider_not_found v.public_id v s

  -- Over a storage whose reads and deletions succeed: `DeleteProviderInstance` of an id that holds
  -- nothing fails as not found, and otherwise it succeeds. In both cases `GetProviderInstance`
  -- then fails as not found for it, and returns for every other id what it returned before.
  pub get_provider_instance-delete_provider_instance :
      (name : Text) (s : S)
      → let (a, t) = delete_provider_instance x c name s in
        (a ≡ (elim (contents s name) [ none ↦ err (new provider_not_found) | some b ↦ ok tt ]))
        × ((j : Text)
            → get_provider_instance x c j t
              ≡ (if name == j then err (new provider_not_found) else get_provider_instance x c j s))
  unfolding delete_provider_instance get_provider_instance
  get_provider_instance-delete_provider_instance name s =
      delete_value_lem x c contents law steady codec provider_not_found name s
