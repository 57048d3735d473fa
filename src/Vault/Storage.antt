-- ===== src/Vault/Storage.antt =====
-- A view of Vault's `logical.Storage` (github.com/hashicorp/vault/sdk/logical), the library that
-- the repositories keep their entries in. It is a parameter: `S` is whatever a view keeps.
use citius_server.Prelude.{
  true, false, All, eqb, [], ◌∷◌, ◌++◌, ◌≢◌, Bool, ◌≡◌, Option, none, some, List, if◌then◌else◌,
  ◌==◌, Text, text_Eq,
}
use citius_server.Errors.{Result, ok}

-- A call that fails leaves what the view keeps as it was; a call that succeeds returns what the
-- view keeps afterwards. Whether it fails may depend on all that the view keeps.
pub record Storage (S : Type 0) : Type 0 where
  pub get : S → Text → Result (Option Text)
  pub put : S → Text → Text → Result S
  pub delete : S → Text → Result S
  pub list : S → Text → Result (List Text)

-- The documented behaviour: a storage is a map from keys to values.
pub record IsStorage {S : Type 0} (x : Storage S) (contents : S → Text → Option Text) : Type 0 where
  pub get_reads : (s : S) (k : Text) {o : Option Text} → x.get s k ≡ ok o → o ≡ contents s k
  pub put_writes :
      (s : S) (k v : Text) {t : S}
      → x.put s k v ≡ ok t
      → (j : Text) → contents t j ≡ (if k == j then some v else contents s j)
  pub delete_removes :
      (s : S) (k : Text) {t : S}
      → x.delete s k ≡ ok t
      → (j : Text) → contents t j ≡ (if k == j then none else contents s j)

-- A storage whose reads and deletions succeed; writes may still fail.
pub record IsSteady {S : Type 0} (x : Storage S) (contents : S → Text → Option Text) : Type 0 where
  pub reads : (s : S) (k : Text) → x.get s k ≡ ok (contents s k)
  pub deletes : (s : S) (k : Text) → (t : S) × (x.delete s k ≡ ok t)

-- Whether a name is in a list.
abbrev pub holds : List Text → Text → Bool
holds [] k = false
holds (j ∷ js) k = let rest = holds js k in if j == k then true else rest

-- A storage that lists what follows a prefix in its keys, where that holds no `/`, at which Vault
-- cuts the names of a listing.
pub record IsListing {S : Type 0} (x : Storage S) (contents : S → Text → Option Text) : Type 0 where
  pub lists_all :
      (s : S) (p : Text) {names : List Text}
      → x.list s p ≡ ok names
      → (j : Text) → All (λ c. eqb c b'/' ≡ false) j
      → contents s (p ++ j) ≢ none
      → holds names j ≡ true
