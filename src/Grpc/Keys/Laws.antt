-- ===== src/Grpc/Keys/Laws.antt =====
-- Which keys a listing holds.
use citius_server.Prelude.{
  ◌≡◌, ◌≢◌, refl, eqb, eqb_iff, text_eq_iff, subst, inl, inr, true, false, Option, none, some, List,
  [], ◌∷◌, arith, Bool-cases, Text,
}
use citius_server.Errors.{Error, ok, err, Result-cases}
use citius_server.Grpc.Status.{Vocabulary}
use citius_server.Grpc.Sorting.{sort, IsSorted, sort-IsSorted, sort-Permᴰ}
use citius_server.Grpc.Keys.Listing.{
  KeyMetadata, ListKeysRequest, KeyManagementHandler, differs, list_filter_matches, matching,
  visible_keys,
}
use mathlib.Core.List.{Permᴰ}

-- A filter, with the value at which it is not set.
abbrev Wants {ℓ} : {A : Type ℓ} → A → A → A → Type ℓ
Wants unset wanted actual = (wanted ≢ unset) → actual ≡ wanted

-- The key matches each filter that is set: provider, policy and lifecycle state.
pub record Fits (req : ListKeysRequest) (md : KeyMetadata) : Type 0 where
  pub provider : Wants [] req.provider_id md.provider
  pub policy : Wants [] req.policy md.policy
  pub lifecycle_state : Wants 0 req.lifecycle_state md.lifecycle_state

list_filter_matches-Fits :
    (req : ListKeysRequest) (md : KeyMetadata) → list_filter_matches req md ≡ true → Fits req md
unfolding list_filter_matches differs
list_filter_matches-Fits req md h = record {
  provider = λ set.
      ground (arith, text_eq_iff req.provider_id [], text_eq_iff req.provider_id md.provider);
  policy = λ set. ground (arith, text_eq_iff req.policy [], text_eq_iff req.policy md.policy);
  lifecycle_state = λ set. ground (arith, eqb_iff req.lifecycle_state 0);
}

differs_neither : (wanted actual : Text) → Wants [] wanted actual → differs wanted actual ≡ false
unfolding differs
differs_neither [] actual h = refl
differs_neither (c ∷ s) actual h =
    let same : actual ≡ c ∷ s = h (λ e. cc) in ground (arith, text_eq_iff (c ∷ s) actual)

Fits-list_filter_matches :
    (req : ListKeysRequest) (md : KeyMetadata) → Fits req md → list_filter_matches req md ≡ true
unfolding list_filter_matches
Fits-list_filter_matches req md f =
    let first = differs_neither req.provider_id md.provider f.provider in
    let second = differs_neither req.policy md.policy f.policy in
    rw (first, second)
      (elim (Bool-cases (eqb req.lifecycle_state 0)) [
        | inl e ↦ rw e refl
        | inr e ↦
            let same : md.lifecycle_state ≡ req.lifecycle_state =
              f.lifecycle_state (λ z. ground (arith, eqb_iff req.lifecycle_state 0)) in
            ground arith
      ])

module _ {W : Type 0} (v : Vocabulary) (h : KeyManagementHandler W) where
  -- What is left of a listing: the entries that match the filters and whose key the caller may read.
  -- An entry is left out only if it is nil, does not match, or is of a key that is forbidden.
  pub data Readable (req : ListKeysRequest)
      : List (Option KeyMetadata) → List KeyMetadata → Type 0 where
    done : Readable req [] []
    absent :
        {all : List (Option KeyMetadata)} {ks : List KeyMetadata}
        → Readable req all ks
        → Readable req (none ∷ all) ks
    kept :
        {all : List (Option KeyMetadata)} {ks : List KeyMetadata} {md : KeyMetadata}
        → Fits req md
        → h.authorize_key md.name ≡ ok tt
        → Readable req all ks
        → Readable req (some md ∷ all) (md ∷ ks)
    filtered :
        {all : List (Option KeyMetadata)} {ks : List KeyMetadata} {md : KeyMetadata}
        → ¬ Fits req md
        → Readable req all ks
        → Readable req (some md ∷ all) ks
    forbidden :
        {all : List (Option KeyMetadata)} {ks : List KeyMetadata} {md : KeyMetadata} {e : Error}
        → h.authorize_key md.name ≡ err e
        → h.is_policy_violation e ≡ true
        → Readable req all ks
        → Readable req (some md ∷ all) ks

  matching-Readable :
      (req : ListKeysRequest) (all : List (Option KeyMetadata)) {ks : List KeyMetadata}
      → matching v h req all ≡ ok ks
      → Readable req all ks
  unfolding matching
  matching-Readable req [] m = let e : [] ≡ _ = ground arith in subst (Readable req []) e done
  matching-Readable req (none ∷ all) m = absent (matching-Readable req all m)
  matching-Readable req (some md ∷ all) {ks} m = elim (Bool-cases (list_filter_matches req md)) [
    | inr other ↦
        filtered (λ f. cc (Fits-list_filter_matches req md f))
          (matching-Readable req all (rw (matching, other) at m))
    | inl fits ↦ elim (Result-cases (h.authorize_key md.name)) [
      | inl (u, may) ↦ elim (Result-cases (matching v h req all)) [
        | inl (rest, good) ↦
            let e : md ∷ rest ≡ ks = ground (arith, rw (matching, fits, may, good) at m) in
            subst (Readable req (some md ∷ all)) e
              (kept (list_filter_matches-Fits req md fits) may (matching-Readable req all good))
        | inr (e, bad) ↦ absurd (ground (arith, rw (matching, fits, may, bad) at m))
      ]
      | inr (e, not_allowed) ↦ elim (Bool-cases (h.is_policy_violation e)) [
        | inl violation ↦
            forbidden not_allowed violation
              (matching-Readable req all (rw (matching, fits, not_allowed, violation) at m))
        | inr other ↦ absurd (ground (arith, rw (matching, fits, not_allowed, other) at m))
      ]
    ]
  ]

  -- A listing that does not fail holds, in ascending order of their names, what is left of the
  -- orchestrator's listing, each entry as often as it is there: the keys that match the provider, the
  -- policy and the lifecycle state of the request, where it sets them, and that the caller is
  -- authorized for. An entry is left out only if it is nil, does not match a filter that is set, or is
  -- of a key that the caller is forbidden.
  pub visible_keys-readable :
      (req : ListKeysRequest) (all : List (Option KeyMetadata)) {ks : List KeyMetadata}
      → visible_keys v h req all ≡ ok ks
      → (left : List KeyMetadata) × Readable req all left
        × Permᴰ left ks
        × IsSorted (λ k. k.name) ks
  unfolding visible_keys
  visible_keys-readable req all {ks} m = elim (Result-cases (matching v h req all)) [
    | inr (e, failed) ↦ absurd (ground arith)
    | inl (found, good) ↦
        let same : sort (λ k. k.name) found ≡ ks = ground arith in
        (
          found,
          matching-Readable req all good,
          subst (Permᴰ found) same (sort-Permᴰ (λ k. k.name) found),
          subst (IsSorted (λ k. k.name)) same (sort-IsSorted (λ k. k.name) found),
        )
  ]
