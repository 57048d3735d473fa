-- ===== src/Vault/Key/Agreement.antt =====
-- `GetKeyByName` and `GetKeyByID` agree on every repository that the methods reach.
use citius_server.Prelude.{
  ◌≡◌, refl, sym, ap, ◌∙◌, ◌≢◌, inl, inr, false, Option, none, some, List, [], arith, Option-cases,
  Text,
}
use citius_server.Prelude.Int.{ℤ}
use citius_server.Errors.{ok, wrapped, ◌>>=◌, Result-cases}
use citius_server.Vault.Storage.{IsSteady}
use citius_server.Vault.Key.Types.{Key, Libraries, Repo, Names, custom, mapped}
use citius_server.Vault.Key.Calls.{get_key_by_id, get_key_by_name}
use citius_server.Vault.Key.Entries.{get_key}
use citius_server.Vault.Key.Spec.{IsLibraries, is_custom, name_at}
use citius_server.Vault.Key.Coherence.{answer}
use citius_server.Vault.Key.Runs.{Call, perform_all, new_vault_repository}
use citius_server.Vault.Key.Lookup.{named, get_key_by_name_after_calls}
use citius_server.Vault.Key.Linked.{IsLinked, perform_all-IsLinked, stored_of_read}

module _ {S : Type 0} (contents : S → Text → Option Text) (x : Libraries S)
    (lib : IsLibraries x contents) (steady : IsSteady x.storage contents) where
  named-answer :
      (n : Names S) (name : Text)
      → is_custom n ≡ false
      → named x contents lib.storage steady n name ≡ answer (name_at contents n name)
  named-answer (custom f) name h = absurd (ground arith)
  named-answer (mapped s cache) name h = refl

  read_of_id :
      (id : Text) (r : Repo S) {key : Key} → get_key_by_id x id r ≡ ok key → get_key x id r ≡ ok key
  unfolding get_key_by_id
  read_of_id id r {key} h = elim (Result-cases (get_key x id r)) [
    | inl (k, found) ↦ ground arith
    | inr (e, failed) ↦ absurd (ground arith)
  ]

  module _ (keys key_versions names : S) (no_keys : (j : Text) → contents keys j ≡ none)
      (no_names : (j : Text) → contents names j ≡ none) (capacity : ℤ) (calls : List Call) where
    abbrev pub reached : Repo S
    reached = perform_all x calls (new_vault_repository keys key_versions names capacity)

    reached-IsLinked : IsLinked contents x lib steady reached
    reached-IsLinked =
        perform_all-IsLinked contents x lib steady calls
          (new_vault_repository keys key_versions names capacity)
          (record {
            kept_in_storage = refl;
            links = record {
              named = λ id b h. absurd (ground (arith, no_keys id));
              owned = λ name id h. absurd (ground (arith, no_names name));
            };
          })

    by_name :
        (name : Text)
        → name ≢ []
        → (get_key_by_name x name reached).0 ≡ (
            wrapped (answer (name_at contents reached.names name)) >>= λ id.
            get_key_by_id x id reached)
    by_name name ne =
        get_key_by_name_after_calls x contents lib.storage steady keys key_versions names capacity
          calls name ne
        ∙ ap (λ a. wrapped a >>= λ id. get_key_by_id x id reached)
            (named-answer reached.names name reached-IsLinked.kept_in_storage)

    -- Over a storage whose reads and deletions succeed while writes may fail, with an encoding
    -- that reads back what it wrote: on a repository made by any calls from a storage without keys
    -- and names, some of which may have failed, the key that `GetKeyByName` returns for a name
    -- that is not empty has that name.
    pub get_key_by_name_has_name :
        (name : Text) {key : Key}
        → name ≢ []
        → (get_key_by_name x name reached).0 ≡ ok key
        → key.name ≡ name
    get_key_by_name_has_name name {key} ne h =
        elim (Option-cases (name_at contents reached.names name)) [
          | inl free ↦ absurd (ground (arith, by_name name ne))
          | inr (id, given) ↦
              let (owner, stored, same) = reached-IsLinked.links.owned name id given in
              let read = read_of_id id reached (id_read name id ne given h) in
              let found = stored_of_read contents x lib steady id key reached read in
              let e : owner ≡ key =
                ground (arith, stored.at, stored.reads, found.at, found.reads) in
              rw (← e) same
        ]
      where
        id_read :
            (name id : Text)
            → name ≢ []
            → name_at contents reached.names name ≡ some id
            → (get_key_by_name x name reached).0 ≡ ok key
            → get_key_by_id x id reached ≡ ok key
        id_read name id ne given h =
            sym (
              by_name name ne
              ∙ ap (λ o. wrapped (answer o) >>= λ i. get_key_by_id x i reached) given)
            ∙ h

    -- Over a storage whose reads and deletions succeed while writes may fail, with an encoding
    -- that reads back what it wrote: on a repository made by any calls from a storage without keys
    -- and names, some of which may have failed, a key that `GetKeyByID` returns is what
    -- `GetKeyByName` returns for its name.
    pub get_key_by_name_of_found :
        (id : Text) {key : Key}
        → get_key_by_id x id reached ≡ ok key
        → (get_key_by_name x key.name reached).0 ≡ ok key
    get_key_by_name_of_found id {key} h =
        let stored =
          stored_of_read contents x lib steady id key reached (read_of_id id reached h) in
        let (was, reads, _, ne, back) = reached-IsLinked.links.named id stored.bytes stored.at in
        let same : was ≡ key = ground (arith, reads, stored.reads) in
        let given : name_at contents reached.names key.name ≡ some id = rw (← same) back in
        by_name key.name (rw (← same) ne)
        ∙ ap (λ o. wrapped (answer o) >>= λ i. get_key_by_id x i reached) given
        ∙ h
