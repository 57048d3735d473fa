-- ===== src/Vault/Key/Writes.antt =====
-- The steps that change the repository: `putKey`, `updateKey`, `deleteKey`, `putKeyVersion`. A
-- `now` is what `timestamppb.Now` returns in the call.
use citius_server.Prelude.{ℕ, Bool, if◌then◌else◌, ◌==◌, Text, text_Eq}
use citius_server.Errors.{
  Error, Result, ok, err, new, wrap, wrapped, invalid_argument, already_exists,
}
use citius_server.Vault.Key.Types.{Key, Version, Libraries, op_create, op_update}
use citius_server.Vault.Key.Act.{Act, ◌>>=◌, ◌>>◌, wrapping, reading, guard, on_names}
use citius_server.Vault.Key.Names.{store_key_name_to_id, delete_key_name_to_id}
use citius_server.Vault.Key.Entries.{version_key, save, get_key, get_key_version}

-- `if vetForWrite { if err := value.VetForWrite(ctx, op); … }`
abbrev pub vetted : Bool → Result (Unit {0}) → Result (Unit {0})
vetted vet checked = if vet then wrapped checked else ok tt

-- `if err != nil && !errors.IsKeyNotFound(err)`, and then `if old != nil`.
abbrev pub absent : {A : Type 0} → (Error → Bool) → Result A → Result (Unit {0})
absent is_key_not_found (ok old) = err (new already_exists)
absent is_key_not_found (err e) = if is_key_not_found e then ok tt else err (wrap e)

abbrev pub created_at : ℕ → Key → Key
created_at now key = record key { create_time = now; update_time = now }

abbrev pub version_created_at : ℕ → Version → Version
version_created_at now version = record version { create_time = now; update_time = now }

abbrev pub key_updated : {S : Type 0} → Result S → Act S (Unit {0})
key_updated (ok t) r = (ok tt, record r { keys = t })
key_updated (err e) r = (err (wrap e), r)

abbrev pub key_deleted : {S : Type 0} → Result S → Act S (Unit {0})
key_deleted (ok t) r = (ok tt, record r { keys = t })
key_deleted (err e) r = (err e, r)

abbrev pub version_saved : {S : Type 0} → Result S → Act S (Unit {0})
version_saved (ok t) r = (ok tt, record r { key_versions = t })
version_saved (err e) r = (err e, r)

module _ {S : Type 0} (x : Libraries S) where
  -- The end of `putKey`: without the key its name is removed again, as far as that succeeds.
  abbrev pub key_saved : Text → Result S → Act S (Unit {0})
  key_saved name (ok t) r = (ok tt, record r { keys = t })
  key_saved name (err e) r = (err (wrap e), (on_names (delete_key_name_to_id x.storage name) r).1)

  unfoldable pub put_key : Bool → ℕ → Key → Act S (Unit {0})
  put_key vet now key = do
    reading (λ r. vetted vet (x.vet_key op_create key))
    reading (λ r. absent x.is_key_not_found (get_key x key.public_id r))
    wrapping (on_names (store_key_name_to_id x.storage key.name key.public_id))
    λ r.
        key_saved key.name (save x.storage x.marshal_key r.keys key.public_id (created_at now key))
          r

  unfoldable pub update_key : Bool → ℕ → Key → Act S (Unit {0})
  update_key vet now key = do
    reading (λ r. vetted vet (x.vet_key op_update key))
    old ← reading (λ r. wrapped (get_key x key.public_id r))
    guard (old.name == key.name) (new invalid_argument)
    λ r.
        key_updated
          (save x.storage x.marshal_key r.keys key.public_id (record key { update_time = now })) r

  unfoldable pub delete_key : Text → Act S (Unit {0})
  delete_key id = do
    key ← reading (λ r. wrapped (get_key x id r))
    wrapping (on_names (delete_key_name_to_id x.storage key.name))
    λ r. key_deleted (x.storage.delete r.keys id) r

  unfoldable pub put_key_version : Bool → ℕ → Version → Act S (Unit {0})
  put_key_version vet now version = do
    reading (λ r. vetted vet (x.vet_version op_create version))
    reading (λ r. absent x.is_key_not_found (get_key_version x version.key_id version.version r))
    λ r.
        version_saved
          (save x.storage x.marshal_version r.key_versions
            (version_key version.key_id version.version) (version_created_at now version))
          r
