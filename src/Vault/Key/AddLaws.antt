-- ===== src/Vault/Key/AddLaws.antt =====
-- `UpdateKey` and `AddVersion`: each takes effect as a whole or not at all.
use citius_server.Prelude.{
  ℕ, ◌≡◌, refl, ap, Bool, Option, some, arith, eqb, if◌then◌else◌, eqb_iff, ◌==◌, Text, text_eq_iff,
  text_Eq, not, [], ◌∙◌,
}
use citius_server.Errors.{Error, Result, ok, err, wrapped, new, invalid_argument}
use citius_server.Vault.Storage.{IsSteady}
use citius_server.Vault.Key.Types.{Key, Version, Libraries, Options, Repo, op_update}
use citius_server.Vault.Key.Act.{
  Ends, Ends-continue, Ends-result, Ends-wrapping, Ends-guard, wrapping,
}
use citius_server.Vault.Key.Entries.{version_key, save, get_key}
use citius_server.Vault.Key.Writes.{vetted, key_updated, update_key, put_key_version}
use citius_server.Vault.Key.Calls.{version_added, next_version, add_version}
use citius_server.Vault.Key.Spec.{IsLibraries, name_at, Same, Same-refl}
use citius_server.Vault.Key.EntryLaws.{save_writes}
use citius_server.Vault.Key.CreateLaws.{VersionAdded, put_key_version-Ends}

module _ {S : Type 0} (contents : S → Text → Option Text) (x : Libraries S) where
  -- `r'` is `r` with other data for a key that has the same name.
  pub record KeyUpdated (now : ℕ) (key : Key) (r r' : Repo S) : Type 0 where
    pub old : Key
    pub read : get_key x key.public_id r ≡ ok old
    pub same_name : old.name ≡ key.name
    pub bytes : Text
    pub encoded : x.marshal_key (record key { update_time = now }) ≡ ok bytes
    pub keys :
        (j : Text)
        → contents r'.keys j ≡ (if key.public_id == j then some bytes else contents r.keys j)
    pub key_versions : r'.key_versions ≡ r.key_versions
    pub names : r'.names ≡ r.names

  -- `r'` is `r` with the next version of a key, which is then the key's current one.
  pub record Bumped (now later : ℕ) (version : Version) (r r' : Repo S) : Type 0 where
    pub key : Key
    pub read : get_key x version.key_id r ≡ ok key
    pub next : version.version ≡ next_version key
    pub middle : Repo S
    pub version_is_added : VersionAdded contents x now version r middle
    pub key_is_updated :
        KeyUpdated later (record key { current_version = next_version key }) middle r'

  module _ (lib : IsLibraries x contents) (steady : IsSteady x.storage contents) where
    key_updated-Ends :
        (now : ℕ) (key old : Key) (r : Repo S)
        → get_key x key.public_id r ≡ ok old
        → old.name ≡ key.name
        → (saved : Result S)
        → save x.storage x.marshal_key r.keys key.public_id (record key { update_time = now })
          ≡ saved
        → Ends (λ _. KeyUpdated now key r) (λ r'. r' ≡ r) (key_updated saved r)
    key_updated-Ends now key old r read same (err e) failed = refl
    key_updated-Ends now key old r read same (ok t) saved =
        let (b, encoded, keys) =
          save_writes x.storage contents x.marshal_key lib.storage r.keys key.public_id
            (record key { update_time = now }) saved in
        record {
          old = old;
          read = read;
          same_name = same;
          bytes = b;
          encoded = encoded;
          keys = keys;
          key_versions = refl;
          names = refl;
        }

    of_wrapped : {A : Type 0} (a : Result A) {v : A} → wrapped a ≡ ok v → a ≡ ok v
    of_wrapped (ok a) h = h
    of_wrapped (err e) h = absurd (ground arith)

    pub update_key-Ends :
        (vet : Bool) (now : ℕ) (key : Key) (r : Repo S)
        → Ends (λ _. KeyUpdated now key r) (λ r'. r' ≡ r) (update_key x vet now key r)
    unfolding update_key
    update_key-Ends vet now key r =
        Ends-result Done (λ r'. r' ≡ r) _ r (vetted vet (x.vet_key op_update key)) refl
          λ _ _.
            Ends-result Done (λ r'. r' ≡ r) _ r (wrapped (get_key x key.public_id r)) refl
              λ old read.
                Ends-guard Done (λ r'. r' ≡ r) (old.name == key.name) _ _ r refl
                  λ same.
                    key_updated-Ends now key old r (of_wrapped (get_key x key.public_id r) read)
                      ((text_eq_iff old.name key.name).0 same) _ refl
      where
        Done : Unit {0} → Repo S → Type 0
        Done _ = KeyUpdated now key r

    -- The version is deleted again where the key is not updated.
    version_added-Ends :
        (now later : ℕ) (key : Key) (version : Version) (r q : Repo S)
        → get_key x version.key_id r ≡ ok key
        → version.version ≡ next_version key
        → VersionAdded contents x now version r q
        → (p : Result (Unit {0}) × Repo S)
        → Ends
            (λ _. KeyUpdated later (record key { current_version = next_version key }) q)
            (λ r'. r' ≡ q)
            p
        → Ends
            (λ _. Bumped now later version r)
            (Same contents r)
            (version_added x (version_key version.key_id version.version) p)
    version_added-Ends now later key version r q read next added (ok u, r') updated = record {
      key = key;
      read = read;
      next = next;
      middle = q;
      version_is_added = added;
      key_is_updated = updated;
    }
    version_added-Ends now later key version r q read next added (err e, r') same =
        let at = version_key version.key_id version.version in
        let (t, gone) = steady.deletes q.key_versions at in
        rw (version_added, same, gone)
          (record {
            keys = λ j. ap (λ q'. contents q'.keys j) same ∙ ap (λ s. contents s j) added.keys;
            key_versions = λ j. ground (
              arith,
              added.key_versions j,
              lib.storage.delete_removes q.key_versions at gone j,
              added.free,
              text_eq_iff at j,
            );
            names = λ j.
                ap (λ q'. name_at contents q'.names j) same
                ∙ ap (λ n. name_at contents n j) added.names;
          })

    add_version-Ends :
        (opts : Options) (now later : ℕ) (version : Version) (r : Repo S)
        → Ends
            (λ _. Bumped now later version r)
            (Same contents r)
            (add_version x opts now later version r)
    unfolding add_version
    add_version-Ends opts now later version r =
        Ends-guard Done (Same contents r) (not (version.key_id == [])) (new invalid_argument) _ r
          (Same-refl contents r)
          λ _.
            Ends-result Done (Same contents r) _ r (wrapped (get_key x version.key_id r))
              (Same-refl contents r)
              λ key read.
                Ends-guard Done (Same contents r) (eqb version.version (next_version key))
                  (new invalid_argument) _ r (Same-refl contents r)
                  λ next.
                    Ends-continue (λ _. VersionAdded contents x now version r) Done
                      (Same contents r) _
                      (wrapping (put_key_version x opts.vet_for_write now version) r)
                      (Ends-wrapping (λ _. VersionAdded contents x now version r) (Same contents r)
                        (put_key_version x opts.vet_for_write now version r)
                        (weaken (put_key_version x opts.vet_for_write now version r) (
                          put_key_version-Ends contents x lib steady opts.vet_for_write now version
                            r)))
                      λ _ q added.
                        version_added-Ends now later key version r q
                          (of_wrapped (get_key x version.key_id r) read)
                          ((eqb_iff version.version (next_version key)).0 next) added
                          (update_key x opts.vet_for_write later
                            (record key { current_version = next_version key }) q)
                          (update_key-Ends opts.vet_for_write later
                            (record key { current_version = next_version key }) q)
      where
        Done : Unit {0} → Repo S → Type 0
        Done _ = Bumped now later version r

        weaken :
            (p : Result (Unit {0}) × Repo S)
            → Ends (λ _. VersionAdded contents x now version r) (λ r'. r' ≡ r) p
            → Ends (λ _. VersionAdded contents x now version r) (Same contents r) p
        weaken (ok u, q) h = h
        weaken (err e, q) h = rw h (Same-refl contents r)

    -- Over a storage whose reads and deletions succeed while writes may fail, with an encoding
    -- that reads back what it wrote: if `AddVersion` fails at any point, the keys, the versions
    -- and the names are what they were before.
    pub add_version_atomic :
        (opts : Options) (now later : ℕ) (version : Version) (r : Repo S) {e : Error} {r' : Repo S}
        → add_version x opts now later version r ≡ (err e, r')
        → Same contents r r'
    add_version_atomic opts now later version r failed =
        rw failed at (add_version-Ends opts now later version r)

    -- Over a storage whose reads and deletions succeed while writes may fail, with an encoding
    -- that reads back what it wrote: if `AddVersion` succeeds, the version was the one after the
    -- key's current version, as a uint32, and was not there; it has been added, and the key names
    -- it as its current version and is otherwise unchanged but for its update time; no other entry
    -- has changed.
    pub add_version_bumps :
        (opts : Options) (now later : ℕ) (version : Version) (r : Repo S) {r' : Repo S}
        → add_version x opts now later version r ≡ (ok tt, r')
        → Bumped now later version r r'
    add_version_bumps opts now later version r done =
        rw done at (add_version-Ends opts now later version r)
