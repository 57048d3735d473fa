-- ===== src/Vault/Key/DeleteLaws.antt =====
-- `deleteKey` on a repository whose reads and deletions succeed.
use citius_server.Prelude.{
  ◌≡◌, refl, ◌≢◌, false, Option, none, [], arith, if◌then◌else◌, ◌==◌, Text, text_Eq,
}
use citius_server.Errors.{Result, ok, err}
use citius_server.Vault.Storage.{IsSteady}
use citius_server.Vault.Key.Types.{Key, Libraries, Repo, Names}
use citius_server.Vault.Key.Act.{◌>>◌, wrapping, on_names}
use citius_server.Vault.Key.Names.{delete_key_name_to_id}
use citius_server.Vault.Key.Entries.{get_key}
use citius_server.Vault.Key.Writes.{key_deleted, delete_key}
use citius_server.Vault.Key.Spec.{IsLibraries, is_custom, name_at}
use citius_server.Vault.Key.NameLaws.{name_at-delete}

module _ {S : Type 0} (contents : S → Text → Option Text) (x : Libraries S) where
  -- `r'` is `r` without the key `id` and without its name.
  pub record KeyRemoved (id name : Text) (r r' : Repo S) : Type 0 where
    pub keys : (j : Text) → contents r'.keys j ≡ (if id == j then none else contents r.keys j)
    pub names :
        (j : Text)
        → name_at contents r'.names j ≡ (if name == j then none else name_at contents r.names j)
    pub key_versions : r'.key_versions ≡ r.key_versions

  module _ (lib : IsLibraries x contents) (steady : IsSteady x.storage contents) where
    name_gone :
        (id : Text) (r : Repo S) (p : Result (Unit {0}) × Names S) (t : S)
        → p.0 ≡ ok tt
        → x.storage.delete r.keys id ≡ ok t
        → ((wrapping (on_names (λ _. p)) >> λ q. key_deleted (x.storage.delete q.keys id) q) r)
          ≡ (ok tt, record r { keys = t; names = p.1 })
    name_gone id r (ok u, m) t done gone = rw gone refl
    name_gone id r (err e, m) t done gone = absurd (ground arith)

    pub delete_key-KeyRemoved :
        (id : Text) (key : Key) (r : Repo S)
        → get_key x id r ≡ ok key
        → (is_custom r.names ≡ false → key.name ≢ [])
        → (r' : Repo S) × (delete_key x id r ≡ (ok tt, r')) × KeyRemoved id key.name r r'
    unfolding delete_key
    delete_key-KeyRemoved id key r found named =
        let (t, gone) = steady.deletes r.keys id in
        let (_, done, names) =
          name_at-delete x.storage contents lib.storage steady key.name r.names named in
        (
          record r { keys = t; names = (delete_key_name_to_id x.storage key.name r.names).1 },
          rw found (name_gone id r (delete_key_name_to_id x.storage key.name r.names) t done gone),
          record {
            keys = lib.storage.delete_removes r.keys id gone;
            names = names;
            key_versions = refl;
          },
        )
