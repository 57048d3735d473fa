-- ===== src/Vault/Key/Coherence.antt =====
-- The cache of the name mapping never answers differently from the storage behind it.
use citius_server.Prelude.{
  ◌≡◌, refl, sym, ◌∙◌, ◌≢◌, inl, inr, Option, none, some, [], arith, Bool-cases, Option-cases, ◌==◌,
  Text, text_eq_iff, text_Eq, text_eq_refl,
}
use citius_server.Errors.{Result, ok, err, new, key_not_found, Result-cases}
use citius_server.Vault.Storage.{Storage, IsStorage, IsSteady}
use citius_server.Cache
use citius_server.Cache.{
  LruCache, IsValid, cached, cached-get, cached-put, cached-remove, put-recent_put, remove-forget,
}
use citius_server.Vault.Key.Types.{Names, custom, mapped}
use citius_server.Vault.Key.Names.{
  store_key_name_to_id, delete_key_name_to_id, resolve_key_name_to_id,
}

-- The answer that the storage alone gives.
abbrev pub answer : Option Text → Result Text
answer none = err (new key_not_found)
answer (some id) = ok id

module _ {S : Type 0} (contents : S → Text → Option Text) where
  -- What is cached is stored.
  pub record IsCoherentCache (s : S) (cache : LruCache Text Text) : Type 0 where
    pub valid : IsValid cache
    pub stored : (k : Text) {id : Text} → cached k cache ≡ some id → contents s k ≡ some id

  abbrev pub IsCoherent : Names S → Type 0
  IsCoherent (custom f) = Unit {0}
  IsCoherent (mapped s cache) = IsCoherentCache s cache

  -- Storing in the cache what the storage holds.
  after_put :
      (name id : Text) (t : S) (cache : LruCache Text Text)
      → IsCoherentCache t cache
      → contents t name ≡ some id
      → IsCoherentCache t (Cache.put name id cache)
  after_put name id t cache c here = record {
    valid = let (_, valid, _) = put-recent_put name id cache c.valid in valid;
    stored = λ k {id = w} h. elim (cached-put name id cache c.valid k h) [
      | inl (same, value) ↦ rw (← same, value) here
      | inr old ↦ c.stored k old
    ];
  }

  after_get :
      (name : Text) (s : S) (cache : LruCache Text Text)
      → IsCoherentCache s cache
      → IsCoherentCache s (Cache.get name cache).1
  after_get name s cache c =
      let (_, same, valid) = cached-get name cache c.valid in
      record { valid = valid; stored = λ k h. c.stored k (sym (same k) ∙ h) }

module _ {S : Type 0} (x : Storage S) (contents : S → Text → Option Text)
    (law : IsStorage x contents) where
  pub store-IsCoherent :
      (name id : Text) (n : Names S)
      → IsCoherent contents n
      → IsCoherent contents (store_key_name_to_id x name id n).1
  unfolding store_key_name_to_id
  store-IsCoherent name id (custom f) c = tt
  store-IsCoherent name id (mapped s cache) c = elim (Bool-cases (name == [])) [
    | inl empty ↦ rw empty c
    | inr named ↦ elim (Bool-cases (id == [])) [
      | inl empty ↦ rw (named, empty) c
      | inr given ↦ elim (Result-cases (x.get s name)) [
        | inr (e, failed) ↦ rw (named, given, failed) c
        | inl (some v, found) ↦ rw (named, given, found) c
        | inl (none, free) ↦ elim (Result-cases (x.put s name id)) [
          | inr (e, failed) ↦ rw (named, given, free, failed) c
          | inl (t, written) ↦
              let write = law.put_writes s name id written in
              rw (named, given, free, written)
                (after_put contents name id t cache
                  (record {
                    valid = c.valid;
                    stored = λ k {id = w} h. ground (
                      arith,
                      write k,
                      c.stored k h,
                      law.get_reads s name free,
                      text_eq_iff name k,
                    );
                  })
                  (rw (write name, text_eq_refl name) refl))
        ]
      ]
    ]
  ]

  pub delete-IsCoherent :
      (name : Text) (n : Names S)
      → IsCoherent contents n
      → IsCoherent contents (delete_key_name_to_id x name n).1
  unfolding delete_key_name_to_id
  delete-IsCoherent name (custom f) c = tt
  delete-IsCoherent name (mapped s cache) c =
      let gone = cached-remove name cache c.valid in
      let (_, valid, _) = remove-forget name cache c.valid in
      elim (Bool-cases (name == [])) [
        | inl empty ↦ rw empty c
        | inr named ↦ elim (Result-cases (x.delete s name)) [
          | inr (e, failed) ↦
              rw (named, failed)
                (record {
                  valid = valid;
                  stored = λ k {id = w} h. c.stored k (ground (arith, gone k));
                })
          | inl (t, done) ↦
              rw (named, done)
                (record {
                  valid = valid;
                  stored = λ k {id = w} h.
                      let kept : cached k cache ≡ some w = ground (arith, gone k) in
                      ground (arith, gone k, law.delete_removes s name done k, c.stored k kept);
                })
        ]
      ]

  pub resolve-IsCoherent :
      (name : Text) (n : Names S)
      → IsCoherent contents n
      → IsCoherent contents (resolve_key_name_to_id x name n).1
  unfolding resolve_key_name_to_id
  resolve-IsCoherent name (custom f) c = tt
  resolve-IsCoherent name (mapped s cache) c =
      let after = after_get contents name s cache c in
      elim (Bool-cases (name == [])) [
        | inl empty ↦ rw empty c
        | inr named ↦ elim (Option-cases (Cache.get name cache).0) [
          | inr (id, hit) ↦ rw (named, hit) after
          | inl miss ↦ elim (Result-cases (x.get s name)) [
            | inr (e, failed) ↦ rw (named, miss, failed) after
            | inl (none, free) ↦ rw (named, miss, free) after
            | inl (some id, found) ↦
                rw (named, miss, found)
                  (after_put contents name id s (Cache.get name cache).1 after
                    (sym (law.get_reads s name found)))
          ]
        ]
      ]

  -- With a storage whose reads succeed and a cache that holds only what is stored, resolving a name
  -- that is not empty returns what the storage holds for it, and KeyNotFound if it holds nothing:
  -- the cache is never seen in the answer.
  pub resolve-answer :
      (steady : IsSteady x contents) (name : Text) (s : S) (cache : LruCache Text Text)
      → IsCoherent contents (mapped s cache)
      → name ≢ []
      → (resolve_key_name_to_id x name (mapped s cache)).0 ≡ answer (contents s name)
  unfolding resolve_key_name_to_id
  resolve-answer steady name s cache c ne =
      let (value, _, _) = cached-get name cache c.valid in
      elim (Bool-cases (name == [])) [
        | inl empty ↦ absurd (ne ((text_eq_iff name []).0 empty))
        | inr named ↦ elim (Option-cases (Cache.get name cache).0) [
          | inr (id, hit) ↦ rw (named, hit, c.stored name (sym value ∙ hit)) refl
          | inl miss ↦ elim (Option-cases (contents s name)) [
            | inl free ↦ rw (named, miss, steady.reads s name, free) refl
            | inr (id, found) ↦ rw (named, miss, steady.reads s name, found) refl
          ]
        ]
      ]
