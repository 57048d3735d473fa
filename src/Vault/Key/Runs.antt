-- ===== src/Vault/Key/Runs.antt =====
-- Sequences of calls of the repository's methods.
use citius_server.Prelude.{ℕ, Option, List, [], ◌∷◌, Text}
use citius_server.Prelude.Int.{ℤ}
use citius_server.Cache.{new_lru_cache}
use citius_server.Vault.Key.Types.{Key, Version, Libraries, Options, Repo, mapped}
use citius_server.Vault.Key.Calls.{
  create_key, get_key_by_name, update_key_call, delete_key_call, add_version,
}

-- The methods that change the repository or its cache, with the times at which they write.
pub data Call : Type 0 where
  create : Options → ℕ → ℕ → Option Key → Option Version → Call
  find_by_name : Text → Call
  update : Options → ℕ → Option Key → Call
  delete : Text → Call
  add : Options → ℕ → ℕ → Version → Call

module _ {S : Type 0} (x : Libraries S) where
  unfoldable pub perform : Call → Repo S → Repo S
  perform (create opts now later key initial) r = (create_key x opts now later key initial r).1
  perform (find_by_name name) r = (get_key_by_name x name r).1
  perform (update opts now key) r = (update_key_call x opts now key r).1
  perform (delete id) r = (delete_key_call x id r).1
  perform (add opts now later version) r = (add_version x opts now later version r).1

  unfoldable pub perform_all : List Call → Repo S → Repo S
  perform_all [] r = r
  perform_all (c ∷ calls) r = perform_all calls (perform c r)

-- `NewVaultRepository` without a function of its own for the names: the three views of the storage,
-- and an empty cache.
abbrev pub new_vault_repository : {S : Type 0} → S → S → S → ℤ → Repo S
new_vault_repository keys key_versions names capacity = record {
  keys = keys;
  key_versions = key_versions;
  names = mapped names (new_lru_cache capacity);
}
