-- ===== src/Vault/Key/Types.antt =====
-- The data that the key repository keeps, and what it is built from.
use citius_server.Prelude.{ℕ, Bool, Text}
use citius_server.Errors.{Error, Result}
use citius_server.Vault.Storage.{Storage}
use citius_server.Cache.{LruCache}

-- `storepb.Key` (proto/server/store/key.proto), as the repository sees it; `rest` is the fields
-- that it passes through.
pub record Key : Type 0 where
  pub public_id : Text
  pub name : Text
  pub current_version : ℕ
  pub create_time : ℕ
  pub update_time : ℕ
  pub rest : Text

-- `storepb.KeyVersion`
pub record Version : Type 0 where
  pub key_id : Text
  pub version : ℕ
  pub create_time : ℕ
  pub update_time : ℕ
  pub rest : Text

-- `core.OpCreate` and `core.OpUpdate`
pub data OpType : Type 0 where
  op_create op_update : OpType

-- `corekey.GetVaultOptions(opt...)`
pub record Options : Type 0 where
  pub initial_version : ℕ
  pub vet_for_write : Bool

-- The libraries: Vault's storage, protobuf's encoding, and citius-core's checks.
pub record Libraries (S : Type 0) : Type 0 where
  pub storage : Storage S
  pub marshal_key : Key → Result Text
  pub unmarshal_key : Text → Result Key
  pub marshal_version : Version → Result Text
  pub unmarshal_version : Text → Result Version
  pub vet_key : OpType → Key → Result (Unit {0})
  pub vet_version : OpType → Version → Result (Unit {0})
  pub is_key_not_found : Error → Bool

-- How names become ids: by `WithKeyNameToIDFunc`, or by a storage view and its cache.
pub data Names (S : Type 0) : Type 0 where
  custom : (Text → Result Text) → Names S
  mapped : S → LruCache Text Text → Names S

pub record Repo (S : Type 0) : Type 0 where
  pub keys : S
  pub key_versions : S
  pub names : Names S
