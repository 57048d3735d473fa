-- ===== src/Vault/Key/Names.antt =====
-- The mapping from key names to ids: `storeKeyNameToID`, `deleteKeyNameToID`, `resolveKeyNameToID`.
use citius_server.Prelude.{Option, none, some, [], if◌then◌else◌, ◌==◌, Text, text_Eq}
use citius_server.Errors.{
  Result, ok, err, new, wrap, invalid_argument, already_exists, key_not_found,
}
use citius_server.Vault.Storage.{Storage}
use citius_server.Vault.Key.Types.{Names, custom, mapped}
use citius_server.Cache
use citius_server.Cache.{LruCache}

module _ {S : Type 0} (x : Storage S) where
  -- What is left of `storeKeyNameToID` after the `Put`, and after the `Get`.
  stored : Text → Text → S → LruCache Text Text → Result S → Result (Unit {0}) × Names S
  stored name id s cache (err e) = (err (wrap e), mapped s cache)
  stored name id s cache (ok t) = (ok tt, mapped t (Cache.put name id cache))

  store_found :
      Text → Text → S → LruCache Text Text → Result (Option Text) → Result (Unit {0}) × Names S
  unfolding stored
  store_found name id s cache (err e) = (err (wrap e), mapped s cache)
  store_found name id s cache (ok (some v)) = (err (new already_exists), mapped s cache)
  store_found name id s cache (ok none) = stored name id s cache (x.put s name id)

  unfoldable pub store_key_name_to_id : Text → Text → Names S → Result (Unit {0}) × Names S
  unfolding store_found
  store_key_name_to_id name id (custom f) = (ok tt, custom f)
  store_key_name_to_id name id (mapped s cache) =
      if name == []
      then (err (new invalid_argument), mapped s cache)
      else if id == []
      then (err (new invalid_argument), mapped s cache)
      else store_found name id s cache (x.get s name)

  deleted : S → LruCache Text Text → Result S → Result (Unit {0}) × Names S
  deleted s cache (err e) = (err (wrap e), mapped s cache)
  deleted s cache (ok t) = (ok tt, mapped t cache)

  unfoldable pub delete_key_name_to_id : Text → Names S → Result (Unit {0}) × Names S
  unfolding deleted
  delete_key_name_to_id name (custom f) = (ok tt, custom f)
  delete_key_name_to_id name (mapped s cache) =
      if name == []
      then (err (new invalid_argument), mapped s cache)
      else deleted s (Cache.remove name cache) (x.delete s name)

  looked_up : Text → S → LruCache Text Text → Result (Option Text) → Result Text × Names S
  looked_up name s cache (err e) = (err (wrap e), mapped s cache)
  looked_up name s cache (ok none) = (err (new key_not_found), mapped s cache)
  looked_up name s cache (ok (some id)) = (ok id, mapped s (Cache.put name id cache))

  cache_read : Text → S → Option Text × LruCache Text Text → Result Text × Names S
  unfolding looked_up
  cache_read name s (some id, cache) = (ok id, mapped s cache)
  cache_read name s (none, cache) = looked_up name s cache (x.get s name)

  unfoldable pub resolve_key_name_to_id : Text → Names S → Result Text × Names S
  unfolding cache_read
  resolve_key_name_to_id name (custom f) = (f name, custom f)
  resolve_key_name_to_id name (mapped s cache) =
      if name == []
      then (err (new invalid_argument), mapped s cache)
      else cache_read name s (Cache.get name cache)
