-- ===== src/Vault/Key/Calls.antt =====
-- The exported methods of `VaultRepository`, each as one step, for which it holds the repository's
-- lock. A nil pointer argument is `none`.
use citius_server.Prelude.{
  ℕ, ◌+◌, ◌%◌, ◌^◌, not, Option, none, some, List, [], ◌∷◌, eqb, if◌then◌else◌, ◌==◌, Text, text_Eq,
}
use citius_server.Errors.{Result, ok, err, new, wrap, wrapped, invalid_argument}
use citius_server.Vault.Key.Types.{Key, Version, Libraries, Options, Repo}
use citius_server.Vault.Key.Act.{Act, ◌>>=◌, ◌>>◌, wrapping, reading, guard, on_names}
use citius_server.Vault.Key.Names.{resolve_key_name_to_id}
use citius_server.Vault.Key.Entries.{
  version_key, version_key_str, version_prefix, get_key, get_key_version,
}
use citius_server.Vault.Key.Writes.{put_key, update_key, delete_key, put_key_version}

abbrev pub u32_mod : ℕ
u32_mod = 2 ^ 32

-- `CurrentVersion` is a uint32.
abbrev pub next_version : Key → ℕ
next_version key = (key.current_version + 1) % u32_mod

module _ {S : Type 0} (x : Libraries S) where
  -- The end of `CreateKey`: without its version the key is deleted again, as far as that succeeds.
  abbrev pub created : Text → Result (Unit {0}) × Repo S → Result (Unit {0}) × Repo S
  created id (ok u, r) = (ok tt, r)
  created id (err e, r) = (err (wrap e), (delete_key x id r).1)

  -- `now` and `later` are the times at which the key and the version are written.
  unfoldable pub create_key : Options → ℕ → ℕ → Option Key → Option Version → Act S (Unit {0})
  create_key opts now later none initial r = (err (new invalid_argument), r)
  create_key opts now later (some key) none r = (err (new invalid_argument), r)
  create_key opts now later (some key) (some initial) r =
      (do
        guard (key.public_id == initial.key_id) (new invalid_argument)
        guard (eqb initial.version opts.initial_version) (new invalid_argument)
        wrapping (put_key x opts.vet_for_write now key)
        λ q. created key.public_id (put_key_version x opts.vet_for_write later initial q))
        r

  unfoldable pub get_key_by_id : Text → Repo S → Result Key
  get_key_by_id id r = wrapped (get_key x id r)

  unfoldable pub get_key_by_name : Text → Act S Key
  unfolding get_key_by_id
  get_key_by_name name = do
    id ← wrapping (on_names (resolve_key_name_to_id x.storage name))
    reading (get_key_by_id id)

  read_all : List Text → Repo S → Result (List Key)
  read_all [] r = ok []
  read_all (id ∷ ids) r =
      let rest = read_all ids r in
      elim (get_key x id r) [
        | err e ↦ err (wrap e)
        | ok key ↦ elim rest [ err e ↦ err e | ok keys ↦ ok (key ∷ keys) ]
      ]

  unfoldable pub list_keys : Repo S → Result (List Key)
  unfolding read_all
  list_keys r = elim (x.storage.list r.keys []) [ err e ↦ err (wrap e) | ok ids ↦ read_all ids r ]

  unfoldable pub update_key_call : Options → ℕ → Option Key → Act S (Unit {0})
  update_key_call opts now none r = (err (new invalid_argument), r)
  update_key_call opts now (some key) r = wrapping (update_key x opts.vet_for_write now key) r

  -- The loop over the versions of a deleted key.
  unfoldable pub delete_versions : Text → List Text → Act S (Unit {0})
  delete_versions id [] r = (ok tt, r)
  delete_versions id (v ∷ versions) r =
      elim (x.storage.delete r.key_versions (version_key_str id v)) [
        | err e ↦ (err (wrap e), r)
        | ok t ↦ delete_versions id versions (record r { key_versions = t })
      ]

  unfoldable pub delete_key_call : Text → Act S (Unit {0})
  delete_key_call id = do
    wrapping (delete_key x id)
    versions ← reading (λ r. wrapped (x.storage.list r.key_versions (version_prefix id)))
    delete_versions id versions

  -- The end of `AddVersion`: without the new current version the version is deleted again.
  abbrev pub version_added : Text → Result (Unit {0}) × Repo S → Result (Unit {0}) × Repo S
  version_added at (ok u, r) = (ok tt, r)
  version_added at (err e, r) = elim (x.storage.delete r.key_versions at) [
    | err _ ↦ (err (wrap e), r)
    | ok t ↦ (err (wrap e), record r { key_versions = t })
  ]

  unfoldable pub add_version : Options → ℕ → ℕ → Version → Act S (Unit {0})
  add_version opts now later version = do
    guard (not (version.key_id == [])) (new invalid_argument)
    key ← reading (λ r. wrapped (get_key x version.key_id r))
    guard (eqb version.version (next_version key)) (new invalid_argument)
    wrapping (put_key_version x opts.vet_for_write now version)
    λ r. version_added (version_key version.key_id version.version) (
        update_key x opts.vet_for_write later (record key { current_version = next_version key }) r)

  unfoldable pub get_current_version : Text → Repo S → Result Version
  get_current_version id r = elim (get_key x id r) [
    | err e ↦ err (wrap (wrap e))
    | ok key ↦ wrapped (wrapped (get_key_version x id key.current_version r))
  ]

  -- The version 0 is the current one.
  unfoldable pub get_version : Text → ℕ → Repo S → Result Version
  unfolding get_current_version
  get_version id n r =
      if eqb n 0 then get_current_version id r else wrapped (wrapped (get_key_version x id n r))
