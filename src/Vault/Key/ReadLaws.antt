-- ===== src/Vault/Key/ReadLaws.antt =====
-- What `GetKeyByID`, `GetCurrentVersion` and `GetVersion` return after `CreateKey` and after
-- `AddVersion`.
use citius_server.Prelude.{
  ℕ, ◌≡◌, refl, sym, ap, ◌∙◌, subst, inl, inr, Option, some, arith, eqb, Bool-cases, Text,
  text_eq_refl,
}
use citius_server.Errors.{ok}
use citius_server.Vault.Storage.{IsSteady}
use citius_server.Vault.Key.Types.{Key, Version, Libraries, Options, Repo}
use citius_server.Vault.Key.Entries.{version_key, get_key, get_key_version}
use citius_server.Vault.Key.Writes.{created_at, version_created_at}
use citius_server.Vault.Key.Calls.{
  next_version, create_key, add_version, get_key_by_id, get_current_version, get_version,
}
use citius_server.Vault.Key.Spec.{IsLibraries}
use citius_server.Vault.Key.EntryLaws.{get_key_found, get_key_version_found}
use citius_server.Vault.Key.CreateLaws.{VersionAdded, create_key_adds}
use citius_server.Vault.Key.AddLaws.{Bumped, add_version_bumps}

module _ {S : Type 0} (contents : S → Text → Option Text) (x : Libraries S) where
  -- The repository returns `key`, and `version` both as its current version and by its number.
  pub record Returns (key : Key) (version : Version) (r : Repo S) : Type 0 where
    pub by_id : get_key_by_id x key.public_id r ≡ ok key
    pub current : get_current_version x key.public_id r ≡ ok version
    pub by_number : get_version x key.public_id version.version r ≡ ok version

  module _ (lib : IsLibraries x contents) (steady : IsSteady x.storage contents) where
    current_of :
        (key : Key) (version : Version) (r : Repo S)
        → get_key x key.public_id r ≡ ok key
        → get_key_version x key.public_id key.current_version r ≡ ok version
        → get_current_version x key.public_id r ≡ ok version
    unfolding get_current_version
    current_of key version r found read = rw (get_current_version, found, read) refl

    by_number_of :
        (key : Key) (version : Version) (n : ℕ) (r : Repo S)
        → get_key x key.public_id r ≡ ok key
        → key.current_version ≡ n
        → get_key_version x key.public_id n r ≡ ok version
        → get_version x key.public_id n r ≡ ok version
    unfolding get_version
    by_number_of key version n r found same read = elim (Bool-cases (eqb n 0)) [
      | inl zeroth ↦ rw zeroth (current_of key version r found (rw same read))
      | inr other ↦ rw (other, read) refl
    ]

    Returns-stored :
        (key : Key) (version : Version) (r : Repo S)
        → get_key x key.public_id r ≡ ok key
        → key.current_version ≡ version.version
        → get_key_version x key.public_id version.version r ≡ ok version
        → Returns key version r
    unfolding get_key_by_id
    Returns-stored key version r found same read = record {
      by_id = rw found refl;
      current = current_of key version r found (rw same read);
      by_number = by_number_of key version version.version r found same read;
    }

    version_read :
        (now : ℕ) (version : Version) (r r' : Repo S)
        → VersionAdded contents x now version r r'
        → get_key_version x version.key_id version.version r' ≡ ok (version_created_at now version)
    version_read now version r r' added =
        get_key_version_found x contents lib steady r' version.key_id version.version added.bytes
          (version_created_at now version)
          (rw
            (
              added.key_versions (version_key version.key_id version.version),
              text_eq_refl (version_key version.key_id version.version),
            )
            refl)
          added.encoded

    Returns-after_bump :
        (now later : ℕ) (version : Version) (r r' : Repo S)
        (b : Bumped contents x now later version r r')
        → b.key.public_id ≡ version.key_id
        → Returns
            (record b.key { current_version = next_version b.key; update_time = later })
            (version_created_at now version)
            r'
    unfolding get_key_version
    Returns-after_bump now later version r r' b named =
        let u = b.key_is_updated in
        Returns-stored (record b.key { current_version = next_version b.key; update_time = later })
          (version_created_at now version) r'
          (get_key_found x contents lib steady r' b.key.public_id u.bytes
            (record b.key { current_version = next_version b.key; update_time = later })
            (rw (u.keys b.key.public_id, text_eq_refl b.key.public_id) refl) u.encoded)
          (sym b.next)
          (rw named (
            ap
              (λ q.
                get_key_version x version.key_id version.version (record r' { key_versions = q }))
              u.key_versions
            ∙ version_read now version r b.middle b.version_is_added))

    -- Over a storage whose reads and deletions succeed while writes may fail, with an encoding
    -- that reads back what it wrote: after a successful `CreateKey` of a key whose current version
    -- is the initial one, `GetKeyByID` returns the key with the time of the call in it, and
    -- `GetCurrentVersion` and `GetVersion` return the initial version.
    pub create_key_read_back :
        (opts : Options) (now later : ℕ) (key : Key) (initial : Version) (r : Repo S) {r' : Repo S}
        → create_key x opts now later (some key) (some initial) r ≡ (ok tt, r')
        → key.current_version ≡ initial.version
        → Returns (created_at now key) (version_created_at later initial) r'
    create_key_read_back opts now later key initial r {r'} done same =
        let c = create_key_adds contents x lib steady opts now later key initial r done in
        let added = c.key_added in
        let version = c.version_added in
        Returns-stored (created_at now key) (version_created_at later initial) r'
          (get_key_found x contents lib steady r' key.public_id added.bytes (created_at now key)
            (rw version.keys (rw (added.keys key.public_id, text_eq_refl key.public_id) refl))
            added.encoded)
          same (rw c.same_id (version_read later initial c.middle r' version))

    -- Over a storage whose reads and deletions succeed while writes may fail, with an encoding
    -- that reads back what it wrote: after a successful `AddVersion`, for a key stored under its
    -- own id, `GetKeyByID` returns the key that was there with the new version as its current one
    -- and the time of the call, and `GetCurrentVersion` and `GetVersion` return the new version.
    pub add_version_read_back :
        (opts : Options) (now later : ℕ) (version : Version) (r : Repo S) {r' : Repo S}
        → add_version x opts now later version r ≡ (ok tt, r')
        → (key : Key) → get_key x version.key_id r ≡ ok key
        → key.public_id ≡ version.key_id
        → Returns
            (record key { current_version = next_version key; update_time = later })
            (version_created_at now version)
            r'
    add_version_read_back opts now later version r {r'} done key found named =
        let b = add_version_bumps contents x lib steady opts now later version r done in
        let same : b.key ≡ key = ground (arith, b.read, found) in
        subst
          (λ k.
            k.public_id ≡ version.key_id
            → Returns (record k { current_version = next_version k; update_time = later })
                (version_created_at now version) r')
          same (Returns-after_bump now later version r r' b) named
