-- ===== src/Vault/Key/Lookup.antt =====
-- `GetKeyByName`, after any calls.
use citius_server.Prelude.{◌≡◌, refl, ap, ◌∙◌, ◌≢◌, Option, List, [], arith, Text, text_Eq}
use citius_server.Prelude.Int.{ℤ}
use citius_server.Errors.{Result, ok, err, wrapped, ◌>>=◌}
use citius_server.Vault.Storage.{IsStorage, IsSteady}
use citius_server.Cache.{new_lru_cache-IsValid, cached-new_lru_cache}
use citius_server.Vault.Key.Types.{Libraries, Repo, Names, custom, mapped}
use citius_server.Vault.Key.Names.{resolve_key_name_to_id}
use citius_server.Vault.Key.Act.{continue, reading, wrap_first}
use citius_server.Vault.Key.Entries.{get_key}
use citius_server.Vault.Key.Calls.{get_key_by_id, get_key_by_name}
use citius_server.Vault.Key.Coherence.{
  IsCoherent, answer, resolve-answer, store-IsCoherent, delete-IsCoherent, resolve-IsCoherent,
}
use citius_server.Vault.Key.Runs.{Call, perform_all, new_vault_repository}
use citius_server.Vault.Key.Reach.{perform_all-kept}

module _ {S : Type 0} (x : Libraries S) (contents : S → Text → Option Text)
    (law : IsStorage x.storage contents) (steady : IsSteady x.storage contents) where
  -- What a name stands for, without the cache.
  abbrev pub named : Names S → Text → Result Text
  named (custom f) name = f name
  named (mapped s cache) name = answer (contents s name)

  resolve-named :
      (name : Text) (n : Names S)
      → IsCoherent contents n
      → name ≢ []
      → (resolve_key_name_to_id x.storage name n).0 ≡ named n name
  unfolding resolve_key_name_to_id
  resolve-named name (custom f) c ne = refl
  resolve-named name (mapped s cache) c ne =
      resolve-answer x.storage contents law steady name s cache c ne

  key_of :
      (r : Repo S) (a : Result Text) (m : Names S)
      → (continue (λ id. reading (get_key_by_id x id)) (wrap_first (a, record r { names = m }))).0
        ≡ (wrapped a >>= λ id. get_key_by_id x id r)
  unfolding get_key_by_id get_key
  key_of r (ok id) m = refl
  key_of r (err e) m = refl

  get_key_by_name-named :
      (r : Repo S) (name : Text)
      → IsCoherent contents r.names
      → name ≢ []
      → (get_key_by_name x name r).0 ≡ (wrapped (named r.names name) >>= λ id. get_key_by_id x id r)
  unfolding get_key_by_name
  get_key_by_name-named r name c ne =
      key_of r (resolve_key_name_to_id x.storage name r.names).0
        (resolve_key_name_to_id x.storage name r.names).1
      ∙ ap (λ a. wrapped a >>= λ id. get_key_by_id x id r) (resolve-named name r.names c ne)

  -- Over a storage whose reads and deletions succeed, and which may hold anything at first: after
  -- any calls on a new repository that keeps its names in the storage, `GetKeyByName` of a name
  -- that is not empty returns what `GetKeyByID` returns for the id that the storage of the names
  -- now holds for it, and KeyNotFound if it holds none. The cache, of whatever capacity, never
  -- shows in the answer.
  pub get_key_by_name_after_calls :
      (keys key_versions names : S) (capacity : ℤ) (calls : List Call) (name : Text)
      → name ≢ []
      → let r = perform_all x calls (new_vault_repository keys key_versions names capacity) in
        (get_key_by_name x name r).0 ≡ (wrapped (named r.names name) >>= λ id. get_key_by_id x id r)
  get_key_by_name_after_calls keys key_versions names capacity calls name ne =
      let start = new_vault_repository keys key_versions names capacity in
      get_key_by_name-named (perform_all x calls start) name
        (perform_all-kept x (IsCoherent contents) (store-IsCoherent x.storage contents law)
          (delete-IsCoherent x.storage contents law) (resolve-IsCoherent x.storage contents law)
          calls start
          (record {
            valid = new_lru_cache-IsValid capacity;
            stored = λ k h.
                absurd (ground (arith, cached-new_lru_cache {K = Text} {V = Text} capacity k));
          }))
        ne
