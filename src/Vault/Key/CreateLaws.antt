-- ===== src/Vault/Key/CreateLaws.antt =====
-- `CreateKey` takes effect as a whole or not at all.
use citius_server.Prelude.{
  ℕ, ◌≡◌, refl, sym, ap, ◌∙◌, ◌≢◌, Bool, false, Option, none, some, [], arith, eqb, if◌then◌else◌,
  eqb_iff, ◌==◌, Text, text_eq_iff, text_eq_refl, text_Eq,
}
use citius_server.Errors.{Error, Result, ok, err}
use citius_server.Vault.Storage.{IsSteady}
use citius_server.Vault.Key.Types.{
  Key, Version, Libraries, Options, Repo, Names, custom, mapped, op_create,
}
use citius_server.Vault.Key.Act.{Ends, Ends-continue, Ends-result, Ends-wrapping, Ends-guard}
use citius_server.Vault.Key.Entries.{version_key, save, get_key_version}
use citius_server.Vault.Key.Writes.{
  vetted, absent, created_at, put_key, delete_key, version_saved, version_created_at,
  put_key_version,
}
use citius_server.Vault.Key.Calls.{created, create_key}
use citius_server.Vault.Key.Spec.{IsLibraries, is_custom, name_at, Same, Same-refl}
use citius_server.Vault.Key.NameLaws.{IsFree}
use citius_server.Vault.Key.EntryLaws.{save_writes, get_key_found, free_of_absent_version}
use citius_server.Vault.Key.Create.{KeyAdded, put_key-Ends}
use citius_server.Vault.Key.DeleteLaws.{KeyRemoved, delete_key-KeyRemoved}

module _ {S : Type 0} (contents : S → Text → Option Text) (x : Libraries S) where
  -- `r'` is `r` with a new version, written as `b`.
  pub record VersionAdded (now : ℕ) (version : Version) (r r' : Repo S) : Type 0 where
    pub bytes : Text
    pub encoded : x.marshal_version (version_created_at now version) ≡ ok bytes
    pub free : contents r.key_versions (version_key version.key_id version.version) ≡ none
    pub key_versions :
        (j : Text)
        → contents r'.key_versions j ≡ (
            if version_key version.key_id version.version == j
            then some bytes
            else contents r.key_versions j)
    pub keys : r'.keys ≡ r.keys
    pub names : r'.names ≡ r.names

  -- A key and its first version, added to `r`.
  pub record Created (opts : Options) (now later : ℕ) (key : Key) (initial : Version)
      (r r' : Repo S) : Type 0 where
    pub same_id : key.public_id ≡ initial.key_id
    pub first : initial.version ≡ opts.initial_version
    pub middle : Repo S
    pub key_added : KeyAdded contents x now key r middle
    pub version_added : VersionAdded later initial middle r'

  module _ (lib : IsLibraries x contents) (steady : IsSteady x.storage contents) where
    version_saved-Ends :
        (now : ℕ) (version : Version) (r : Repo S)
        → contents r.key_versions (version_key version.key_id version.version) ≡ none
        → (saved : Result S)
        → save x.storage x.marshal_version r.key_versions
            (version_key version.key_id version.version)
            (version_created_at now version)
          ≡ saved
        → Ends (λ _. VersionAdded now version r) (λ r'. r' ≡ r) (version_saved saved r)
    version_saved-Ends now version r free (err e) failed = refl
    version_saved-Ends now version r free (ok t) saved =
        let (b, encoded, key_versions) =
          save_writes x.storage contents x.marshal_version lib.storage r.key_versions
            (version_key version.key_id version.version) (version_created_at now version) saved in
        record {
          bytes = b;
          encoded = encoded;
          free = free;
          key_versions = key_versions;
          keys = refl;
          names = refl;
        }

    pub put_key_version-Ends :
        (vet : Bool) (now : ℕ) (version : Version) (r : Repo S)
        → Ends
            (λ _. VersionAdded now version r)
            (λ r'. r' ≡ r)
            (put_key_version x vet now version r)
    unfolding put_key_version
    put_key_version-Ends vet now version r =
        Ends-result (λ _. VersionAdded now version r) (λ r'. r' ≡ r) _ r
          (vetted vet (x.vet_version op_create version)) refl
          λ _ _.
            Ends-result (λ _. VersionAdded now version r) (λ r'. r' ≡ r) _ r
              (absent x.is_key_not_found (get_key_version x version.key_id version.version r)) refl
              λ _ passed.
                version_saved-Ends now version r
                  (free_of_absent_version x contents lib steady r version.key_id version.version
                    passed)
                  _ refl

    named_of_free :
        (name : Text) (n : Names S)
        → IsFree x.storage contents name n
        → is_custom n ≡ false
        → name ≢ []
    named_of_free name (custom f) free e = cc
    named_of_free name (mapped s cache) free e = free.0

    name_restored :
        (name id j : Text) (n : Names S) (before after : Option Text)
        → IsFree x.storage contents name n
        → before
          ≡ (if is_custom n then none else if name == j then some id else name_at contents n j)
        → after ≡ (if name == j then none else before)
        → after ≡ name_at contents n j
    name_restored name id j (custom f) before after free h k = ground arith
    name_restored name id j (mapped s cache) before after free h k =
        ground (arith, free.1, text_eq_iff name j)

    restored :
        (now : ℕ) (key : Key) (r q r' : Repo S)
        → KeyAdded contents x now key r q
        → KeyRemoved contents x key.public_id key.name q r'
        → Same contents r r'
    restored now key r q r' added removed = record {
      keys = λ j.
          ground (arith, added.keys j, removed.keys j, added.free, text_eq_iff key.public_id j);
      key_versions = λ j. ap (λ s. contents s j) (removed.key_versions ∙ added.key_versions);
      names = λ j.
          name_restored key.name key.public_id j r.names _ _ added.name_free (added.names j)
            (removed.names j);
    }

    -- Deleting a key that was just added gives back what was there before.
    uncreated :
        (now : ℕ) (key : Key) (r q : Repo S)
        → KeyAdded contents x now key r q
        → Same contents r (delete_key x key.public_id q).1
    uncreated now key r q added =
        let present : contents q.keys key.public_id ≡ some added.bytes =
          rw (added.keys key.public_id, text_eq_refl key.public_id) in
        let found =
          get_key_found x contents lib steady q key.public_id added.bytes (created_at now key)
            present added.encoded in
        let (r', done, removed) =
          delete_key-KeyRemoved contents x lib steady key.public_id (created_at now key) q found
            (λ e. named_of_free key.name r.names added.name_free (sym added.same_kind ∙ e)) in
        rw done (restored now key r q r' added removed)

    created-Ends :
        (opts : Options) (now later : ℕ) (key : Key) (initial : Version) (r q : Repo S)
        → key.public_id ≡ initial.key_id
        → initial.version ≡ opts.initial_version
        → KeyAdded contents x now key r q
        → (p : Result (Unit {0}) × Repo S)
        → Ends (λ _. VersionAdded later initial q) (λ r'. r' ≡ q) p
        → Ends
            (λ _. Created opts now later key initial r)
            (Same contents r)
            (created x key.public_id p)
    created-Ends opts now later key initial r q same first added (ok u, r') version = record {
      same_id = same;
      first = first;
      middle = q;
      key_added = added;
      version_added = version;
    }
    created-Ends opts now later key initial r q same first added (err e, r') unchanged =
        rw unchanged (uncreated now key r q added)

    create_key-Ends :
        (opts : Options) (now later : ℕ) (key : Key) (initial : Version) (r : Repo S)
        → Ends
            (λ _. Created opts now later key initial r)
            (Same contents r)
            (create_key x opts now later (some key) (some initial) r)
    unfolding create_key
    create_key-Ends opts now later key initial r =
        Ends-guard Done (Same contents r) (key.public_id == initial.key_id) _ _ r
          (Same-refl contents r)
          λ same.
            Ends-guard Done (Same contents r) (eqb initial.version opts.initial_version) _ _ r
              (Same-refl contents r)
              λ first.
                Ends-continue (λ _. KeyAdded contents x now key r) Done (Same contents r) _ _
                  (Ends-wrapping (λ _. KeyAdded contents x now key r) (Same contents r)
                    (put_key x opts.vet_for_write now key r)
                    (put_key-Ends contents x lib steady opts.vet_for_write now key r))
                  λ _ q added.
                    created-Ends opts now later key initial r q
                      ((text_eq_iff key.public_id initial.key_id).0 same)
                      ((eqb_iff initial.version opts.initial_version).0 first) added _
                      (put_key_version-Ends opts.vet_for_write later initial q)
      where
        Done : Unit {0} → Repo S → Type 0
        Done _ = Created opts now later key initial r

    no_key :
        (opts : Options) (now later : ℕ) (initial : Option Version) (r : Repo S)
        → Ends (λ _ _. ⊥) (Same contents r) (create_key x opts now later none initial r)
    unfolding create_key
    no_key opts now later initial r = Same-refl contents r

    no_version :
        (opts : Options) (now later : ℕ) (key : Key) (r : Repo S)
        → Ends (λ _ _. ⊥) (Same contents r) (create_key x opts now later (some key) none r)
    unfolding create_key
    no_version opts now later key r = Same-refl contents r

    -- Over a storage whose reads and deletions succeed while writes may fail, with an encoding
    -- that reads back what it wrote: if `CreateKey` fails at any point, on a nil argument, a
    -- check, a key, name or version that is there already, or a write that the storage refuses,
    -- then the keys, the versions and the names are what they were before: what it had written by
    -- then is removed again.
    pub create_key_atomic :
        (opts : Options) (now later : ℕ) (key : Option Key) (initial : Option Version) (r : Repo S)
        {e : Error} {r' : Repo S}
        → create_key x opts now later key initial r ≡ (err e, r')
        → Same contents r r'
    create_key_atomic opts now later (some key) (some initial) r failed =
        rw failed at (create_key-Ends opts now later key initial r)
    create_key_atomic opts now later none initial r failed =
        rw failed at (no_key opts now later initial r)
    create_key_atomic opts now later (some key) none r failed =
        rw failed at (no_version opts now later key r)

    -- Over a storage whose reads and deletions succeed while writes may fail, with an encoding
    -- that reads back what it wrote: if `CreateKey` succeeds, the ids and the version number
    -- agreed, neither the key nor its name (where names are stored) nor the version was there, and
    -- exactly these three have been added.
    pub create_key_adds :
        (opts : Options) (now later : ℕ) (key : Key) (initial : Version) (r : Repo S) {r' : Repo S}
        → create_key x opts now later (some key) (some initial) r ≡ (ok tt, r')
        → Created opts now later key initial r r'
    create_key_adds opts now later key initial r done =
        rw done at (create_key-Ends opts now later key initial r)
