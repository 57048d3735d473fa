-- ===== src/Vault/Key/Create.antt =====
-- `CreateKey` takes effect as a whole or not at all.
use citius_server.Prelude.{
  ℕ, ◌≡◌, refl, ap, Bool, Option, none, some, arith, if◌then◌else◌, ◌==◌, Text, text_eq_iff,
  text_Eq,
}
use citius_server.Errors.{Result, ok, err}
use citius_server.Vault.Storage.{IsSteady}
use citius_server.Vault.Key.Types.{Key, Libraries, Repo, Names, custom, mapped, op_create}
use citius_server.Vault.Key.Act.{◌>>◌, wrapping, on_names, Ends, Ends-result}
use citius_server.Vault.Key.Names.{delete_key_name_to_id}
use citius_server.Vault.Key.Entries.{save, get_key}
use citius_server.Vault.Key.Writes.{vetted, absent, key_saved, created_at, put_key}
use citius_server.Vault.Key.Spec.{IsLibraries, is_custom, name_at, Same, Same-refl}
use citius_server.Vault.Key.NameLaws.{
  IsFree, NameStored, store_key_name_to_id-NameStored, name_at-delete,
}
use citius_server.Vault.Key.EntryLaws.{save_writes, free_of_absent}

module _ {S : Type 0} (contents : S → Text → Option Text) (x : Libraries S) where
  -- `r'` is `r` with a new key, written as `b`, and its name.
  pub record KeyAdded (now : ℕ) (key : Key) (r r' : Repo S) : Type 0 where
    pub bytes : Text
    pub encoded : x.marshal_key (created_at now key) ≡ ok bytes
    pub free : contents r.keys key.public_id ≡ none
    pub name_free : IsFree x.storage contents key.name r.names
    pub keys :
        (j : Text)
        → contents r'.keys j ≡ (if key.public_id == j then some bytes else contents r.keys j)
    pub same_kind : is_custom r'.names ≡ is_custom r.names
    pub names :
        (j : Text)
        → name_at contents r'.names j ≡ (
            if is_custom r.names
            then none
            else if key.name == j
            then some key.public_id
            else name_at contents r.names j)
    pub key_versions : r'.key_versions ≡ r.key_versions

  module _ (lib : IsLibraries x contents) (steady : IsSteady x.storage contents) where
    -- A name that was just stored is cleared again.
    name_cleared :
        (name id : Text) (n m : Names S)
        → IsFree x.storage contents name n
        → is_custom m ≡ is_custom n
        → ((j : Text)
            → name_at contents m j
              ≡ (if is_custom n then none else if name == j then some id else name_at contents n j))
        → (j : Text)
        → name_at contents (delete_key_name_to_id x.storage name m).1 j ≡ name_at contents n j
    name_cleared name id (custom f) m free kind names j =
        let (_, _, cleared) =
          name_at-delete x.storage contents lib.storage steady name m (λ e. cc) in
        ground (arith, cleared j, names j)
    name_cleared name id (mapped s cache) m free kind names j =
        let (_, _, cleared) =
          name_at-delete x.storage contents lib.storage steady name m (λ e. free.0) in
        ground (arith, cleared j, names j, free.1, text_eq_iff name j)

    -- The write at the end of `putKey`, in a repository where the name is stored.
    key_saved-Ends :
        (now : ℕ) (key : Key) (r : Repo S) (m : Names S)
        → contents r.keys key.public_id ≡ none
        → NameStored x.storage contents key.name key.public_id r.names (ok tt, m)
        → (saved : Result S)
        → save x.storage x.marshal_key r.keys key.public_id (created_at now key) ≡ saved
        → Ends
            (λ _. KeyAdded now key r)
            (Same contents r)
            (key_saved x key.name saved (record r { names = m }))
    key_saved-Ends now key r m free (name_free, kind, names) (err e) failed = record {
      keys = λ j. refl;
      key_versions = λ j. refl;
      names = name_cleared key.name key.public_id r.names m name_free kind names;
    }
    key_saved-Ends now key r m free (name_free, kind, names) (ok t) saved =
        let (b, encoded, keys) =
          save_writes x.storage contents x.marshal_key lib.storage r.keys key.public_id
            (created_at now key) saved in
        record {
          bytes = b;
          encoded = encoded;
          free = free;
          name_free = name_free;
          keys = keys;
          same_kind = kind;
          names = names;
          key_versions = refl;
        }

    named-Ends :
        (now : ℕ) (key : Key) (r : Repo S)
        → contents r.keys key.public_id ≡ none
        → (p : Result (Unit {0}) × Names S)
        → NameStored x.storage contents key.name key.public_id r.names p
        → Ends
            (λ _. KeyAdded now key r)
            (Same contents r)
            ((wrapping (on_names (λ _. p)) >> λ q.
                key_saved x key.name
                  (save x.storage x.marshal_key q.keys key.public_id (created_at now key))
                  q)
              r)
    named-Ends now key r free (err e, m) same = record {
      keys = λ j. refl;
      key_versions = λ j. refl;
      names = λ j. ap (λ n. name_at contents n j) same;
    }
    named-Ends now key r free (ok u, m) stored = key_saved-Ends now key r m free stored _ refl

    pub put_key-Ends :
        (vet : Bool) (now : ℕ) (key : Key) (r : Repo S)
        → Ends (λ _. KeyAdded now key r) (Same contents r) (put_key x vet now key r)
    unfolding put_key
    put_key-Ends vet now key r =
        Ends-result Added (Same contents r) _ r (vetted vet (x.vet_key op_create key))
          (Same-refl contents r)
          λ _ _.
            Ends-result Added (Same contents r) _ r
              (absent x.is_key_not_found (get_key x key.public_id r)) (Same-refl contents r)
              λ _ passed.
                named-Ends now key r (free_of_absent x contents lib steady r key.public_id passed) _
                  (store_key_name_to_id-NameStored x.storage contents lib.storage key.name
                    key.public_id r.names)
      where
        Added : Unit {0} → Repo S → Type 0
        Added _ = KeyAdded now key r
