-- ===== src/Vault/Key/Removal.antt =====
-- `DeleteKey`: the key, its name and its versions.
use citius_server.Prelude.{
  ℕ, ◌≡◌, refl, ap, ◌∙◌, subst, ◌≢◌, inl, inr, Bool, true, false, ◌&&◌, Option, none, List, [], ◌∷◌,
  ◌++◌, arith, eqb, if◌then◌else◌, Bool-cases, Option-cases, ◌==◌, Text, text_eq_iff, text_eq_refl,
  text_Eq,
}
use citius_server.Decimal.{itoa, itoa_digits}
use citius_server.Errors.{ok}
use citius_server.Vault.Storage.{IsSteady, IsListing, holds}
use citius_server.Vault.Key.Types.{Key, Libraries, Repo}
use citius_server.Vault.Key.Entries.{version_key, version_key_str, version_prefix, get_key}
use citius_server.Vault.Key.Calls.{delete_versions, delete_key_call}
use citius_server.Vault.Key.Spec.{IsLibraries, is_custom, name_at}
use citius_server.Vault.Key.DeleteLaws.{delete_key-KeyRemoved}

-- `strings.HasPrefix(s, p)`
abbrev pub has_prefix : Text → Text → Bool
has_prefix [] s = true
has_prefix (c ∷ p) [] = false
has_prefix (c ∷ p) (d ∷ s) = eqb c d && has_prefix p s

has_prefix-append : (p s : Text) → has_prefix p (p ++ s) ≡ true
has_prefix-append [] s = refl
has_prefix-append (c ∷ p) s = ground (arith, has_prefix-append p s)

prefixed : (id v : Text) → version_key_str id v ≡ version_prefix id ++ v
unfolding version_key_str version_prefix
prefixed [] v = refl
prefixed (c ∷ id) v = ap (◌∷◌ c) (prefixed id v)

has_prefix-version : (id v : Text) → has_prefix (version_prefix id) (version_key_str id v) ≡ true
has_prefix-version id v = rw (prefixed id v) (has_prefix-append (version_prefix id) v)

module _ {S : Type 0} (contents : S → Text → Option Text) (x : Libraries S) where
  -- `r'` is `r` without the key, its name and its versions; what begins with the id and a colon is
  -- left open.
  pub record KeyGone (id name : Text) (r r' : Repo S) : Type 0 where
    pub keys : (j : Text) → contents r'.keys j ≡ (if id == j then none else contents r.keys j)
    pub names :
        (j : Text)
        → name_at contents r'.names j ≡ (if name == j then none else name_at contents r.names j)
    pub versions : (n : ℕ) → contents r'.key_versions (version_key id n) ≡ none
    pub others :
        (j : Text)
        → has_prefix (version_prefix id) j ≡ false
        → contents r'.key_versions j ≡ contents r.key_versions j

  module _ (lib : IsLibraries x contents) (steady : IsSteady x.storage contents)
      (listing : IsListing x.storage contents) where
    -- The loop deletes the entries of the versions that it is given.
    swept :
        (id : Text) (versions : List Text) (r : Repo S)
        → (t : S) × (delete_versions x id versions r ≡ (ok tt, record r { key_versions = t }))
          × ((v : Text) → holds versions v ≡ true → contents t (version_key_str id v) ≡ none)
          × ((j : Text) → contents r.key_versions j ≡ none → contents t j ≡ none)
          × ((j : Text)
              → has_prefix (version_prefix id) j ≡ false
              → contents t j ≡ contents r.key_versions j)
    unfolding delete_versions
    swept id [] r = (r.key_versions, refl, (λ v h. absurd (ground arith)), (λ j h. h), λ j h. refl)
    swept id (v ∷ versions) r =
        let at = version_key_str id v in
        let (t, done) = steady.deletes r.key_versions at in
        let gone = lib.storage.delete_removes r.key_versions at done in
        let (u, ends, found, missing, others) = swept id versions (record r { key_versions = t }) in
        (
          u,
          rw (delete_versions, done) ends,
          (λ w h. elim (Bool-cases (v == w)) [
            | inl here ↦
                missing (version_key_str id w)
                  (rw (← (text_eq_iff v w).0 here) (ground (arith, gone at, text_eq_refl at)))
            | inr there ↦ found w (rw there at h)
          ]),
          (λ j h. missing j (ground (arith, gone j))),
          λ j h. others j h ∙ (elim (Bool-cases (at == j)) [
            | inl here ↦ absurd (
                ground (
                  arith,
                  subst (λ k. has_prefix (version_prefix id) k ≡ true) ((text_eq_iff at j).0 here)
                      (has_prefix-version id v),
                  h,
                ))
            | inr there ↦ ground (arith, gone j)
          ]),
        )

    version_gone :
        (id : Text) (versions : List Text) (s t : S)
        → x.storage.list s (version_prefix id) ≡ ok versions
        → ((v : Text) → holds versions v ≡ true → contents t (version_key_str id v) ≡ none)
        → ((j : Text) → contents s j ≡ none → contents t j ≡ none)
        → (n : ℕ) → contents t (version_key id n) ≡ none
    unfolding version_key
    version_gone id versions s t listed gone missing n =
        elim (Option-cases (contents s (version_key_str id (itoa n)))) [
          | inl free ↦ missing (version_key_str id (itoa n)) free
          | inr (b, there) ↦ gone (itoa n) (
              listing.lists_all s (version_prefix id) listed (itoa n)
                (itoa_digits (λ c. eqb c b'/' ≡ false) (λ d h. ground arith) n)
                (rw (← prefixed id (itoa n), there) (λ e. cc)))
        ]

    -- Over a storage whose reads and deletions succeed and whose listings are complete, if the
    -- versions can be listed, `DeleteKey` of a key that is stored, and has a name where names are
    -- stored, succeeds; the key, its name and every version of it are gone, and every other key,
    -- every other name and every entry of a version that does not begin with the id and a colon is
    -- as it was.
    pub delete_key_call-KeyGone :
        (id : Text) (key : Key) (r : Repo S) {versions : List Text}
        → get_key x id r ≡ ok key
        → (is_custom r.names ≡ false → key.name ≢ [])
        → x.storage.list r.key_versions (version_prefix id) ≡ ok versions
        → (r' : Repo S) × (delete_key_call x id r ≡ (ok tt, r')) × KeyGone id key.name r r'
    unfolding delete_key_call
    delete_key_call-KeyGone id key r {versions} found named listed =
        let (q, deleted, removed) =
          delete_key-KeyRemoved contents x lib steady id key r found named in
        let (t, ends, gone, missing, others) = swept id versions q in
        let listed' : x.storage.list q.key_versions (version_prefix id) ≡ ok versions =
          rw removed.key_versions listed in
        (
          record q { key_versions = t },
          rw (deleted, listed', ends) refl,
          record {
            keys = removed.keys;
            names = removed.names;
            versions = λ n.
                version_gone id versions r.key_versions t listed gone
                  (λ j h. missing j (rw removed.key_versions h)) n;
            others = λ j h. others j h ∙ ap (λ s. contents s j) removed.key_versions;
          },
        )
