-- ===== src/Vault/Key/Mapped.antt =====
-- A repository that keeps its names in the storage goes on doing so, and looking up a name changes
-- none of them.
use citius_server.Prelude.{◌≡◌, refl, false, Option, arith, Text}
use citius_server.Vault.Storage.{Storage}
use citius_server.Vault.Key.Types.{Names, custom, mapped}
use citius_server.Vault.Key.Names.{
  store_key_name_to_id, delete_key_name_to_id, resolve_key_name_to_id,
}
use citius_server.Vault.Key.Spec.{is_custom, name_at}

module _ {S : Type 0} (x : Storage S) where
  abbrev pub IsMapped : Names S → Type 0
  IsMapped n = is_custom n ≡ false

  pub store-IsMapped :
      (name id : Text) (n : Names S) → IsMapped n → IsMapped (store_key_name_to_id x name id n).1
  unfolding store_key_name_to_id
  store-IsMapped name id (custom f) h = h
  store-IsMapped name id (mapped s cache) h = ground arith

  pub delete-IsMapped :
      (name : Text) (n : Names S) → IsMapped n → IsMapped (delete_key_name_to_id x name n).1
  unfolding delete_key_name_to_id
  delete-IsMapped name (custom f) h = h
  delete-IsMapped name (mapped s cache) h = ground arith

  pub resolve-IsMapped :
      (name : Text) (n : Names S) → IsMapped n → IsMapped (resolve_key_name_to_id x name n).1
  unfolding resolve_key_name_to_id
  resolve-IsMapped name (custom f) h = h
  resolve-IsMapped name (mapped s cache) h = ground arith

  pub name_at-resolve :
      (contents : S → Text → Option Text) (name j : Text) (n : Names S)
      → name_at contents (resolve_key_name_to_id x name n).1 j ≡ name_at contents n j
  unfolding resolve_key_name_to_id
  name_at-resolve contents name j (custom f) = refl
  name_at-resolve contents name j (mapped s cache) = ground arith
