-- ===== src/Vault/Key/Tests.antt =====
-- The key repository on a concrete storage.
use citius_server.Prelude.{◌≡◌, refl, true, some, List, [], ◌∷◌, Text, codes}
use citius_server.Prelude.Int.{pos}
use citius_server.Errors.{Result, ok, err, wrap, foreign}
use citius_server.Vault.Memory.{Memory, memory, held}
use citius_server.Vault.Key.Types.{Key, Version, Options, Repo, mapped}
use citius_server.Cache.{new_lru_cache}
use citius_server.Vault.Key.Spec.{Same}
use citius_server.Vault.Key.Calls.{create_key, add_version, delete_key_call}
use citius_server.Vault.Key.Removal.{KeyGone, delete_key_call-KeyGone}
use citius_server.Vault.Key.Codec.{
  libraries, libraries-IsLibraries, libraries-IsSteady, libraries-IsListing, not_found_code,
}
use citius_server.Vault.Key.CreateLaws.{Created, create_key_atomic, create_key_adds}
use citius_server.Vault.Key.AddLaws.{Bumped, add_version_atomic, add_version_bumps}
use citius_server.Vault.Key.ReadLaws.{Returns, create_key_read_back, add_version_read_back}
use citius_server.Decimal.{itoa}
use citius_server.Vault.Key.Entries.{
  version_key, version_prefix, fetch, save, not_found_again, get_key, get_key_version,
}
use citius_server.Vault.Key.Names.{store_key_name_to_id, delete_key_name_to_id}
use citius_server.Vault.Key.Writes.{
  created_at, version_created_at, put_key, put_key_version, update_key, delete_key,
}

abbrev empty : Repo Memory
empty = record { keys = []; key_versions = []; names = mapped [] (new_lru_cache (pos 2)) }

abbrev options : Options
options = record { initial_version = 1; vet_for_write = true }

abbrev signing : Key
signing = record {
  public_id = codes "k1";
  name = codes "sign";
  current_version = 1;
  create_time = 0;
  update_time = 0;
  rest = [];
}

abbrev first : Version
first = record {
  key_id = codes "k1";
  version = 1;
  create_time = 0;
  update_time = 0;
  rest = codes "a";
}

-- The entry of the version is refused, after the key and its name were written.
abbrev refusing_versions : List Text
refusing_versions = codes "k1:1" ∷ []

abbrev broken : Result (Unit {0}) × Repo Memory
broken = create_key (libraries refusing_versions) options 5 6 (some signing) (some first) empty

broken_fails : broken ≡ (err (wrap (wrap (foreign 1))), broken.1)
unfolding create_key put_key put_key_version libraries memory store_key_name_to_id
    delete_key_name_to_id fetch save not_found_again get_key get_key_version delete_key version_key
    new_lru_cache not_found_code itoa
broken_fails = refl

create_key_atomic_example : Same held empty broken.1
create_key_atomic_example =
    create_key_atomic held (libraries refusing_versions) (libraries-IsLibraries refusing_versions)
      (libraries-IsSteady refusing_versions) options 5 6 (some signing) (some first) empty
      broken_fails

abbrev made : Result (Unit {0}) × Repo Memory
made = create_key (libraries []) options 5 6 (some signing) (some first) empty

made_succeeds : made ≡ (ok tt, made.1)
unfolding create_key put_key put_key_version libraries memory store_key_name_to_id
    delete_key_name_to_id fetch save not_found_again get_key get_key_version delete_key version_key
    new_lru_cache not_found_code itoa
made_succeeds = refl

create_key_adds_example : Created held (libraries []) options 5 6 signing first empty made.1
create_key_adds_example =
    create_key_adds held (libraries []) (libraries-IsLibraries []) (libraries-IsSteady []) options 5
      6 signing first empty made_succeeds

create_key_read_back_example :
    Returns held (libraries []) (created_at 5 signing) (version_created_at 6 first) made.1
create_key_read_back_example =
    create_key_read_back held (libraries []) (libraries-IsLibraries []) (libraries-IsSteady [])
      options 5 6 signing first empty made_succeeds refl

made_found : get_key (libraries []) (codes "k1") made.1 ≡ ok (created_at 5 signing)
unfolding create_key put_key put_key_version libraries memory store_key_name_to_id save
    not_found_again get_key get_key_version fetch not_found_code
made_found = refl

abbrev second : Version
second = record first { version = 2 }

-- The key is refused, after the version was written.
abbrev refusing_keys : List Text
refusing_keys = codes "k1" ∷ []

abbrev half_added : Result (Unit {0}) × Repo Memory
half_added = add_version (libraries refusing_keys) options 7 8 second made.1

half_added_fails : half_added ≡ (err (wrap (wrap (wrap (foreign 1)))), half_added.1)
unfolding create_key add_version update_key put_key put_key_version libraries memory
    store_key_name_to_id delete_key_name_to_id fetch save not_found_again get_key get_key_version
    delete_key version_key new_lru_cache not_found_code itoa
half_added_fails = refl

add_version_atomic_example : Same held made.1 half_added.1
add_version_atomic_example =
    add_version_atomic held (libraries refusing_keys) (libraries-IsLibraries refusing_keys)
      (libraries-IsSteady refusing_keys) options 7 8 second made.1 half_added_fails

abbrev added : Result (Unit {0}) × Repo Memory
added = add_version (libraries []) options 7 8 second made.1

added_succeeds : added ≡ (ok tt, added.1)
unfolding create_key add_version update_key put_key put_key_version libraries memory
    store_key_name_to_id delete_key_name_to_id fetch save not_found_again get_key get_key_version
    delete_key version_key new_lru_cache not_found_code itoa
added_succeeds = refl

add_version_bumps_example : Bumped held (libraries []) 7 8 second made.1 added.1
add_version_bumps_example =
    add_version_bumps held (libraries []) (libraries-IsLibraries []) (libraries-IsSteady []) options
      7 8 second made.1 added_succeeds

add_version_read_back_example :
    Returns held
      (libraries [])
      (record signing { current_version = 2; create_time = 5; update_time = 8 })
      (version_created_at 7 second)
      added.1
add_version_read_back_example =
    add_version_read_back held (libraries []) (libraries-IsLibraries []) (libraries-IsSteady [])
      options 7 8 second made.1 added_succeeds (created_at 5 signing) made_found refl

one_version :
    (libraries []).storage.list made.1.key_versions (version_prefix (codes "k1"))
    ≡ ok (codes "1" ∷ [])
unfolding version_prefix create_key put_key put_key_version libraries memory store_key_name_to_id
    save not_found_again get_key get_key_version fetch not_found_code version_key itoa
one_version = refl

delete_key_call-KeyGone_example :
    (r' : Repo Memory) × (delete_key_call (libraries []) (codes "k1") made.1 ≡ (ok tt, r'))
    × KeyGone held (libraries []) (codes "k1") (codes "sign") made.1 r'
delete_key_call-KeyGone_example =
    delete_key_call-KeyGone held (libraries []) (libraries-IsLibraries []) (libraries-IsSteady [])
      (libraries-IsListing []) (codes "k1") (created_at 5 signing) made.1 made_found (λ _ e. cc)
      one_version
