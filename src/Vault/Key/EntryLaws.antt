-- ===== src/Vault/Key/EntryLaws.antt =====
-- What the steps on stored entries read and write.
use citius_server.Prelude.{
  ℕ, ◌≡◌, refl, ap, ◌∙◌, ◌≢◌, inl, inr, false, Option, none, some, arith, if◌then◌else◌,
  Option-cases, ◌==◌, Text, text_Eq,
}
use citius_server.Errors.{Error, Result, ok, err, new, wrap, wrapped, key_not_found, Result-cases}
use citius_server.Vault.Storage.{Storage, IsStorage, IsSteady}
use citius_server.Vault.Key.Types.{Key, Version, Libraries, Repo}
use citius_server.Vault.Key.Entries.{
  version_key, fetch, save, not_found_again, get_key, get_key_version,
}
use citius_server.Vault.Key.Writes.{absent}
use citius_server.Vault.Key.Spec.{IsLibraries}

module _ {S : Type 0} {A : Type 0} (x : Storage S) (contents : S → Text → Option Text)
    (marshal : A → Result Text) where
  -- A value that was saved is encoded at its key, and no other key has changed.
  pub save_writes :
      (law : IsStorage x contents) (view : S) (key : Text) (value : A) {t : S}
      → save x marshal view key value ≡ ok t
      → (b : Text) × (marshal value ≡ ok b)
        × ((j : Text) → contents t j ≡ (if key == j then some b else contents view j))
  unfolding save
  save_writes law view key value {t} h = elim (Result-cases (marshal value)) [
    | inr (e, failed) ↦ absurd (ground arith)
    | inl (b, encoded) ↦ elim (Result-cases (x.put view key b)) [
      | inr (e, failed) ↦ absurd (ground arith)
      | inl (s, written) ↦
          let same : s ≡ t = ground arith in
          (b, encoded, law.put_writes view key b (written ∙ ap ok same))
    ]
  ]

module _ {S : Type 0} {A : Type 0} (x : Storage S) (contents : S → Text → Option Text)
    (unmarshal : Text → Result A) (steady : IsSteady x contents) where
  pub fetch_found :
      (view : S) (key b : Text)
      → contents view key ≡ some b
      → fetch x unmarshal view key ≡ wrapped (unmarshal b)
  unfolding fetch
  fetch_found view key b h = rw (steady.reads view key, h) refl

  pub fetch_missing :
      (view : S) (key : Text)
      → contents view key ≡ none
      → fetch x unmarshal view key ≡ err (new key_not_found)
  unfolding fetch
  fetch_missing view key h = rw (steady.reads view key, h) refl

module _ {S : Type 0} (x : Libraries S) (contents : S → Text → Option Text)
    (lib : IsLibraries x contents) (steady : IsSteady x.storage contents) (r : Repo S) where
  pub get_key_found :
      (id b : Text) (key : Key)
      → contents r.keys id ≡ some b
      → x.marshal_key key ≡ ok b
      → get_key x id r ≡ ok key
  unfolding get_key
  get_key_found id b key h m =
      rw (fetch_found x.storage contents x.unmarshal_key steady r.keys id b h, lib.read_key key b m)
        refl

  pub get_key_missing :
      (id : Text) → contents r.keys id ≡ none → get_key x id r ≡ err (new key_not_found)
  unfolding get_key
  get_key_missing id h =
      rw (fetch_missing x.storage contents x.unmarshal_key steady r.keys id h)
        (ground (arith, lib.not_found.of_new key_not_found))

  pub get_key_version_found :
      (id : Text) (n : ℕ) (b : Text) (version : Version)
      → contents r.key_versions (version_key id n) ≡ some b
      → x.marshal_version version ≡ ok b
      → get_key_version x id n r ≡ ok version
  unfolding get_key_version
  get_key_version_found id n b version h m =
      rw
        (
          fetch_found x.storage contents x.unmarshal_version steady r.key_versions
              (version_key id n) b h,
          lib.read_version version b m,
        )
        refl

  -- The check of `putKey` and `putKeyVersion` fails for a value that is stored.
  stored_fails :
      {A : Type 0} (u : Result A)
      → ((e : Error) → u ≡ err e → x.is_key_not_found e ≡ false)
      → absent x.is_key_not_found (not_found_again x (wrapped u)) ≢ ok tt
  unfolding not_found_again
  stored_fails (ok a) errors h = cc
  stored_fails (err e) errors h =
      ground (arith, errors e refl, lib.not_found.of_wrap e, lib.not_found.of_wrap (wrap e))

  pub free_of_absent :
      (id : Text) → absent x.is_key_not_found (get_key x id r) ≡ ok tt → contents r.keys id ≡ none
  unfolding get_key
  free_of_absent id h = elim (Option-cases (contents r.keys id)) [
    | inl free ↦ free
    | inr (b, found) ↦
        let read = fetch_found x.storage contents x.unmarshal_key steady r.keys id b found in
        absurd (stored_fails (x.unmarshal_key b) (lib.key_errors b) (rw read at h))
  ]

  pub free_of_absent_version :
      (id : Text) (n : ℕ)
      → absent x.is_key_not_found (get_key_version x id n r) ≡ ok tt
      → contents r.key_versions (version_key id n) ≡ none
  unfolding get_key_version
  free_of_absent_version id n h = elim (Option-cases (contents r.key_versions (version_key id n))) [
    | inl free ↦ free
    | inr (b, found) ↦
        let read =
          fetch_found x.storage contents x.unmarshal_version steady r.key_versions
            (version_key id n) b found in
        absurd (stored_fails (x.unmarshal_version b) (lib.version_errors b) (rw read at h))
  ]
