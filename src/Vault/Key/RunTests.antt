-- ===== src/Vault/Key/RunTests.antt =====
-- Runs of the repository's methods on a concrete storage.
use citius_server.Prelude.{◌≡◌, refl, true, none, some, List, [], ◌∷◌, arith, Text, codes}
use citius_server.Prelude.{lookup}
use citius_server.Prelude.Int.{pos}
use citius_server.Decimal.{itoa}
use citius_server.Errors.{ok, wrapped, ◌>>=◌}
use citius_server.Cache.{LruCache, new_lru_cache}
use citius_server.Cache
use citius_server.Vault.Memory.{Memory, memory, held}
use citius_server.Vault.Key.Types.{Key, Version, Options, Repo}
use citius_server.Vault.Key.Entries.{
  version_prefix, version_key, fetch, save, not_found_again, get_key, get_key_version,
}
use citius_server.Vault.Key.Names.{
  store_key_name_to_id, delete_key_name_to_id, resolve_key_name_to_id,
}
use citius_server.Vault.Key.Writes.{put_key, put_key_version, delete_key, created_at}
use citius_server.Vault.Key.Calls.{
  create_key, get_key_by_id, get_key_by_name, delete_key_call, delete_versions,
}
use citius_server.Vault.Key.Codec.{
  libraries, libraries-IsLibraries, libraries-IsSteady, not_found_code,
}
use citius_server.Vault.Key.Runs.{
  Call, create, find_by_name, delete, perform, perform_all, new_vault_repository,
}
use citius_server.Vault.Key.Lookup.{named, get_key_by_name_after_calls}
use citius_server.Vault.Key.Linked.{IsLinked, perform_all-IsLinked}
use citius_server.Vault.Key.Agreement.{get_key_by_name_has_name, get_key_by_name_of_found}

abbrev options : Options
options = record { initial_version = 1; vet_for_write = true }

abbrev key_of : Text → Text → Key
key_of id name = record {
  public_id = id;
  name = name;
  current_version = 1;
  create_time = 0;
  update_time = 0;
  rest = [];
}

abbrev first_of : Text → Version
first_of id = record { key_id = id; version = 1; create_time = 0; update_time = 0; rest = [] }

-- A key is made, found, deleted, and another is made with its name.
abbrev calls : List Call
calls =
    create options 1 1 (some (key_of (codes "a") (codes "n"))) (some (first_of (codes "a")))
    ∷ find_by_name (codes "n")
    ∷ delete (codes "a")
    ∷ create options 2 2 (some (key_of (codes "b") (codes "n"))) (some (first_of (codes "b")))
    ∷ []

abbrev after : Repo Memory
after = perform_all (libraries []) calls (new_vault_repository [] [] [] (pos 2))

nothing : (j : Text) → held [] j ≡ none
unfolding lookup
nothing j = refl

get_key_by_name_after_calls_example : (get_key_by_name (libraries []) (codes "n") after).0 ≡ (
    wrapped (
      named
        (libraries [])
        held
        (libraries-IsLibraries []).storage
        (libraries-IsSteady [])
        after.names
        (codes "n"))
    >>= λ id. get_key_by_id (libraries []) id after)
get_key_by_name_after_calls_example =
    get_key_by_name_after_calls (libraries []) held (libraries-IsLibraries []).storage
      (libraries-IsSteady []) [] [] [] (pos 2) calls (codes "n") (λ h. cc)

found :
    (get_key_by_name (libraries []) (codes "n") after).0
    ≡ ok (created_at 2 (key_of (codes "b") (codes "n")))
unfolding perform_all perform create_key get_key_by_name delete_key_call delete_versions put_key
    put_key_version delete_key libraries memory store_key_name_to_id delete_key_name_to_id
    resolve_key_name_to_id fetch save not_found_again get_key get_key_version version_key
    new_lru_cache not_found_code itoa Cache.get Cache.put Cache.remove Cache.find Cache.without
    Cache.move_to_front version_prefix
found = refl

get_key_by_name_has_name_example : codes "n" ≡ codes "n"
get_key_by_name_has_name_example =
    get_key_by_name_has_name held (libraries []) (libraries-IsLibraries []) (libraries-IsSteady [])
      [] [] [] nothing nothing (pos 2) calls (codes "n") (λ h. cc) found

found_by_id :
    get_key_by_id (libraries []) (codes "b") after
    ≡ ok (created_at 2 (key_of (codes "b") (codes "n")))
unfolding perform_all perform create_key get_key_by_name get_key_by_id delete_key_call
    delete_versions put_key put_key_version delete_key libraries memory store_key_name_to_id
    delete_key_name_to_id resolve_key_name_to_id fetch save not_found_again get_key get_key_version
    version_key new_lru_cache not_found_code itoa Cache.get Cache.put Cache.remove Cache.find
    Cache.without Cache.move_to_front version_prefix
found_by_id = refl

get_key_by_name_of_found_example :
    (get_key_by_name (libraries []) (codes "n") after).0
    ≡ ok (created_at 2 (key_of (codes "b") (codes "n")))
get_key_by_name_of_found_example =
    get_key_by_name_of_found held (libraries []) (libraries-IsLibraries []) (libraries-IsSteady [])
      [] [] [] nothing nothing (pos 2) calls (codes "b") found_by_id

new-IsLinked :
    IsLinked held
      (libraries [])
      (libraries-IsLibraries [])
      (libraries-IsSteady [])
      (new_vault_repository [] [] [] (pos 2))
new-IsLinked = record {
  kept_in_storage = refl;
  links = record {
    named = λ id b h. absurd (ground (arith, nothing id));
    owned = λ name id h. absurd (ground (arith, nothing name));
  };
}

perform_all-IsLinked_example :
    IsLinked held (libraries []) (libraries-IsLibraries []) (libraries-IsSteady []) after
perform_all-IsLinked_example =
    perform_all-IsLinked held (libraries []) (libraries-IsLibraries []) (libraries-IsSteady [])
      calls (new_vault_repository [] [] [] (pos 2)) new-IsLinked
