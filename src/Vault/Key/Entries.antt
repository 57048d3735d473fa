-- ===== src/Vault/Key/Entries.antt =====
-- Reading and writing the stored entries: `get`, `put`, `getKey`, `getKeyVersion`, `versionKey`.
use citius_server.Prelude.{ℕ, Option, none, some, [], ◌∷◌, ◌++◌, if◌then◌else◌, Text}
use citius_server.Decimal.{itoa}
use citius_server.Errors.{Result, ok, err, new, wrap, key_not_found, wrapped}
use citius_server.Vault.Storage.{Storage}
use citius_server.Vault.Key.Types.{Key, Version, Libraries, Repo}

-- `strings.Join([]string{keyID, version}, ":")`
unfoldable pub version_key_str : Text → Text → Text
version_key_str key_id version = key_id ++ b':' ∷ version

-- `%d` of a uint32.
unfoldable pub version_key : Text → ℕ → Text
unfolding version_key_str
version_key key_id version = version_key_str key_id (itoa version)

unfoldable pub version_prefix : Text → Text
version_prefix key_id = key_id ++ b':' ∷ []

decoded : {A : Type 0} → (Text → Result A) → Result (Option Text) → Result A
decoded unmarshal (err e) = err (wrap e)
decoded unmarshal (ok none) = err (new key_not_found)
decoded unmarshal (ok (some b)) = wrapped (unmarshal b)

save_bytes : {S : Type 0} → Storage S → S → Text → Result Text → Result S
save_bytes storage view key (err e) = err (wrap e)
save_bytes storage view key (ok b) = wrapped (storage.put view key b)

module _ {S : Type 0} {A : Type 0} where
  -- `get` of vault_repository.go
  unfoldable pub fetch : Storage S → (Text → Result A) → S → Text → Result A
  unfolding decoded
  fetch storage unmarshal view key = decoded unmarshal (storage.get view key)

  -- `put` of vault_repository.go
  unfoldable pub save : Storage S → (A → Result Text) → S → Text → A → Result S
  unfolding save_bytes
  save storage marshal view key value = save_bytes storage view key (marshal value)

module _ {S : Type 0} (x : Libraries S) where
  unfoldable pub not_found_again : {A : Type 0} → Result A → Result A
  not_found_again (ok a) = ok a
  not_found_again (err e) = if x.is_key_not_found e then err (new key_not_found) else err (wrap e)

  unfoldable pub get_key : Text → Repo S → Result Key
  unfolding fetch not_found_again
  get_key id r = not_found_again (fetch x.storage x.unmarshal_key r.keys id)

  unfoldable pub get_key_version : Text → ℕ → Repo S → Result Version
  unfolding fetch not_found_again
  get_key_version key_id version r =
      not_found_again
        (fetch x.storage x.unmarshal_version r.key_versions (version_key key_id version))
