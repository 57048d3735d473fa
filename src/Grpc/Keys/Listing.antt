-- ===== src/Grpc/Keys/Listing.antt =====
-- internal/grpc/keymanagement/list_keys.go: `ListKeys`.
use citius_server.Prelude.{
  ℕ, Bool, true, false, not, ◌&&◌, Option, none, some, List, [], ◌∷◌, eqb, if◌then◌else◌, length,
  slice, ◌==◌, Text, text_Eq,
}
use citius_server.Prelude.Int.{ℤ}
use citius_server.Errors.{Error, Result, ok, err, new, invalid_argument}
use citius_server.Paging.{Page, window}
use citius_server.Grpc.Status.{Vocabulary, replied, failed, Rpc, to_status_error, call}
use citius_server.Grpc.Sorting.{sort}

-- `service.KeyMetadata`, as far as the listing reads it.
pub record KeyMetadata : Type 0 where
  pub name : Text
  pub provider : Text
  pub policy : Text
  pub lifecycle_state : ℕ
  pub rest : Text

pub record ListKeysRequest : Type 0 where
  pub has_scope_spec : Bool
  pub provider_id : Text
  pub policy : Text
  pub lifecycle_state : ℕ
  pub page_size : ℤ
  pub page_token : Text

-- A response, with the keys as `ToProto` returns them.
pub record ListKeysResponse : Type 0 where
  pub keys : List Text
  pub next_page_token : Text

-- `KEY_LIFECYCLE_STATE_UNSPECIFIED`
abbrev pub unspecified : ℕ
unspecified = 0

-- The handler's dependencies: the orchestrator that its factory makes, with `ListKeys` of it, the
-- authorization, `IsPolicyViolation` and `ToProto`. A nil entry of a listing is `none`.
pub record KeyManagementHandler (W : Type 0) : Type 0 where
  pub keys : W → Result (W → Result (List (Option KeyMetadata)) × W) × W
  pub authorize_key : Text → Result (Unit {0})
  pub is_policy_violation : Error → Bool
  pub to_proto : KeyMetadata → Result Text

-- A filter that is set and differs.
unfoldable pub differs : Text → Text → Bool
differs wanted actual = not (wanted == []) && not (wanted == actual)

unfoldable pub list_filter_matches : ListKeysRequest → KeyMetadata → Bool
unfolding differs
list_filter_matches req md =
    if differs req.provider_id md.provider
    then false
    else if differs req.policy md.policy
    then false
    else if not (eqb req.lifecycle_state unspecified)
        && not (eqb req.lifecycle_state md.lifecycle_state)
    then false
    else true

module _ {W : Type 0} (v : Vocabulary) (h : KeyManagementHandler W) where
  -- One round of the loop: the entry, what it is allowed, and the result of the rounds after it.
  admitted : KeyMetadata → Result (Unit {0}) → Result (List KeyMetadata) → Result (List KeyMetadata)
  admitted md (err e) rest = if h.is_policy_violation e then rest else err e
  admitted md (ok u) (ok ks) = ok (md ∷ ks)
  admitted md (ok u) (err e) = err e

  unfoldable pub matching : ListKeysRequest → List (Option KeyMetadata) → Result (List KeyMetadata)
  unfolding admitted list_filter_matches
  matching req [] = ok []
  matching req (none ∷ all) = matching req all
  matching req (some md ∷ all) =
      let rest = matching req all in
      if list_filter_matches req md then admitted md (h.authorize_key md.name) rest else rest

  sorted : Result (List KeyMetadata) → Result (List KeyMetadata)
  sorted (ok ks) = ok (sort (λ k. k.name) ks)
  sorted (err e) = err e

  unfoldable pub visible_keys :
      ListKeysRequest → List (Option KeyMetadata) → Result (List KeyMetadata)
  unfolding matching sorted
  visible_keys req all = sorted (matching req all)

  unfoldable pub protos : List KeyMetadata → Result (List Text)
  protos [] = ok []
  protos (md ∷ mds) =
      let rest = protos mds in
      elim (h.to_proto md) [
        | err e ↦ err e
        | ok p ↦ elim rest [ err e ↦ err e | ok ps ↦ ok (p ∷ ps) ]
      ]

  windowed : List KeyMetadata → Option Page → Rpc W ListKeysResponse
  unfolding protos
  windowed mds none w = (failed (to_status_error v (new invalid_argument)), w)
  windowed mds (some p) w =
      call v (λ q. (protos (slice mds p.start p.stop), q))
        (λ keys q. (replied (record { keys = keys; next_page_token = p.next }), q)) w

  seen : ListKeysRequest → Result (List KeyMetadata) → Rpc W ListKeysResponse
  unfolding windowed
  seen req (err e) w = (failed (to_status_error v e), w)
  seen req (ok mds) w = windowed mds (window (length mds) req.page_size req.page_token) w

  unfoldable pub list_keys : ListKeysRequest → Rpc W ListKeysResponse
  unfolding seen visible_keys
  list_keys req w =
      if req.has_scope_spec
      then (failed (to_status_error v (new invalid_argument)), w)
      else call v h.keys (λ list. call v list (λ all. seen req (visible_keys req all))) w
