-- ===== src/Grpc/Keys/Paged.antt =====
-- A client that follows the page tokens of `ListKeys`.
use citius_server.Prelude.{
  ℕ, zero, suc, ◌≤◌, ◌<◌, ◌≡◌, refl, ap, ◌∙◌, inl, inr, false, Option, none, some, List, [], ◌∷◌,
  ◌++◌, map, arith, if◌then◌else◌, Option-cases, length, slice, ◌==◌, Text, text_Eq,
}
use citius_server.Prelude.Int.{pos}
use citius_server.Decimal.{max_int}
use citius_server.Errors.{Result, ok, new, invalid_argument}
use citius_server.Paging.{Page, window, collect, collect_next, collect_all}
use mathlib.Core.Option
use citius_server.Grpc.Status.{to_status_error, Vocabulary, Reply, replied, failed}
use citius_server.Grpc.Keys.Listing.{
  KeyMetadata, ListKeysRequest, ListKeysResponse, KeyManagementHandler, visible_keys, list_keys,
  matching, list_filter_matches, protos,
}

module _ {W : Type 0} (v : Vocabulary) (h : KeyManagementHandler W) where
  -- All that the pages hold, in order, from a token on; `none` if a call fails or the calls run out.
  followed : List Text → Option (List Text) → Option (List Text)
  followed keys none = none
  followed keys (some more) = some (keys ++ more)

  next_page : (Text → Option (List Text)) → Reply ListKeysResponse → Option (List Text)
  unfolding followed
  next_page more (failed s) = none
  next_page more (replied r) =
      if r.next_page_token == [] then some r.keys else followed r.keys (more r.next_page_token)

  pub list_all : ℕ → ListKeysRequest → W → Text → Option (List Text)
  unfolding next_page
  list_all zero req w token = none
  list_all (suc calls) req w token =
      next_page (list_all calls req w) (list_keys v h (record req { page_token = token }) w).0

  matching-page_token :
      (req : ListKeysRequest) (token : Text) (all : List (Option KeyMetadata))
      → matching v h (record req { page_token = token }) all ≡ matching v h req all
  unfolding matching list_filter_matches
  matching-page_token req token [] = refl
  matching-page_token req token (none ∷ all) = matching-page_token req token all
  matching-page_token req token (some md ∷ all) = ground (arith, matching-page_token req token all)

  module _ (list : W → Result (List (Option KeyMetadata)) × W) (all : List (Option KeyMetadata))
      (w : W) (made : h.keys w ≡ (ok list, w)) (listed : list w ≡ (ok all, w))
      (proto : KeyMetadata → Text) (total : (k : KeyMetadata) → h.to_proto k ≡ ok (proto k)) where
    protos-map : (mds : List KeyMetadata) → protos v h mds ≡ ok (map proto mds)
    unfolding protos
    protos-map [] = refl
    protos-map (md ∷ mds) = rw (protos, total md, protos-map mds) refl

    -- What `ListKeys` replies to a token that `window` accepts, and to any other.
    page_reply :
        (req : ListKeysRequest) (size : ℕ) (token : Text) (ks : List KeyMetadata)
        → req.has_scope_spec ≡ false
        → req.page_size ≡ pos size
        → visible_keys v h req all ≡ ok ks
        → (o : Option Page) → window (length ks) (pos size) token ≡ o
        → (list_keys v h (record req { page_token = token }) w).0 ≡ (elim o [
          | none ↦ failed (to_status_error v (new invalid_argument))
          | some p ↦
              replied
                (record { keys = map proto (slice ks p.start p.stop); next_page_token = p.next })
        ])
    unfolding list_keys visible_keys
    page_reply req size token ks no_scope sized visible none at =
        rw (no_scope, made, listed, matching-page_token req token all, visible, sized, at) refl
    page_reply req size token ks no_scope sized visible (some p) at =
        rw
          (
            no_scope,
            made,
            listed,
            matching-page_token req token all,
            visible,
            sized,
            at,
            protos-map (slice ks p.start p.stop),
          )
          refl

    map-append : (xs ys : List KeyMetadata) → map proto xs ++ map proto ys ≡ map proto (xs ++ ys)
    map-append [] ys = refl
    map-append (x ∷ xs) ys = ap (◌∷◌ (proto x)) (map-append xs ys)

    followed-map :
        (items : List KeyMetadata) (o : Option (List KeyMetadata))
        → followed (map proto items) (Option.map (map proto) o)
          ≡ Option.map (map proto) (Option.map (λ rest. items ++ rest) o)
    unfolding followed
    followed-map items none = refl
    followed-map items (some rest) = ap some (map-append items rest)

    list_all-collect :
        (calls : ℕ) (req : ListKeysRequest) (size : ℕ) (token : Text) (ks : List KeyMetadata)
        → req.has_scope_spec ≡ false
        → req.page_size ≡ pos size
        → visible_keys v h req all ≡ ok ks
        → list_all calls req w token ≡ Option.map (map proto) (collect calls ks (pos size) token)
    unfolding list_all collect
    list_all-collect zero req size token ks no_scope sized visible = refl
    list_all-collect (suc calls) req size token ks no_scope sized visible =
        elim (Option-cases (window (length ks) (pos size) token)) [
          | inl bad ↦ rw (page_reply req size token ks no_scope sized visible none bad, bad) refl
          | inr (p, good) ↦
              rw (page_reply req size token ks no_scope sized visible (some p) good, good)
                (go (λ t. list_all-collect calls req size t ks no_scope sized visible)
                  (slice ks p.start p.stop) p.next)
        ]
      where
        go :
            ((t : Text)
              → list_all calls req w t ≡ Option.map (map proto) (collect calls ks (pos size) t))
            → (items : List KeyMetadata) (next : Text)
            → next_page
                (list_all calls req w)
                (replied (record { keys = map proto items; next_page_token = next }))
              ≡ Option.map (map proto) (collect_next (collect calls ks (pos size)) items next)
        go later items [] = refl
        go later items (c ∷ s) =
            ap (followed (map proto items)) (later (c ∷ s))
            ∙ followed-map items (collect calls ks (pos size) (c ∷ s))

    -- With a positive page size and no scope specification, following the tokens of `ListKeys`
    -- from the empty one, while the orchestrator's listing stays as it is, can be authorized
    -- without an error other than a refusal, and converts to messages, returns exactly the visible
    -- keys, each once and in their order; as many calls as keys, and one more, are enough.
    pub list_all-visible_keys :
        (req : ListKeysRequest) (size : ℕ) (ks : List KeyMetadata)
        → req.has_scope_spec ≡ false
        → req.page_size ≡ pos size
        → 0 < size
        → visible_keys v h req all ≡ ok ks
        → length ks ≤ max_int
        → list_all (suc (length ks)) req w [] ≡ some (map proto ks)
    list_all-visible_keys req size ks no_scope sized positive visible fits =
        list_all-collect (suc (length ks)) req size [] ks no_scope sized visible
        ∙ ap (Option.map (map proto)) (collect_all ks size positive fits)
