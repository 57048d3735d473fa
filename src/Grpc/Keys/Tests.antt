-- ===== src/Grpc/Keys/Tests.antt =====
-- `ListKeys` for a caller that may not read one of the keys.
use citius_server.Prelude.{
  ℕ, ◌≡◌, refl, true, false, Option, none, some, List, [], ◌∷◌, arith, if◌then◌else◌, ◌==◌, Text,
  codes, text_Eq,
}
use citius_server.Prelude.Int.{pos}
use citius_server.Errors.{ok, err, new, policy_violation}
use citius_server.Grpc.Status.{Vocabulary}
use citius_server.Grpc.Sorting.{IsSorted, sort}
use citius_server.Grpc.Keys.Listing.{
  KeyMetadata, ListKeysRequest, KeyManagementHandler, list_filter_matches, matching, visible_keys,
}
use citius_server.Grpc.Keys.Laws.{Readable, visible_keys-readable}
use citius_server.Grpc.Keys.Paged.{list_all, list_all-visible_keys}
use mathlib.Core.List.{Permᴰ}

abbrev vocabulary : Vocabulary
vocabulary = record { is_domain = λ e. true; grpc_code = λ e. 3; message = λ e. [] }

abbrev key : Text → KeyMetadata
key name = record { name = name; provider = codes "p"; policy = []; lifecycle_state = 1; rest = [] }

abbrev listed : List (Option KeyMetadata)
listed =
    some (key (codes "c"))
    ∷ none
    ∷ some (key (codes "a"))
    ∷ some (key (codes "root"))
    ∷ some (key (codes "b"))
    ∷ []

abbrev handler : KeyManagementHandler ℕ
handler = record {
  keys = λ w. (ok (λ q. (ok listed, q)), w);
  authorize_key = λ name. if name == codes "root" then err (new policy_violation) else ok tt;
  is_policy_violation = λ e. true;
  to_proto = λ k. ok k.name;
}

abbrev request : ListKeysRequest
request = record {
  has_scope_spec = false;
  provider_id = codes "p";
  policy = [];
  lifecycle_state = 0;
  page_size = pos 2;
  page_token = [];
}

abbrev visible : List KeyMetadata
visible = key (codes "a") ∷ key (codes "b") ∷ key (codes "c") ∷ []

visible_lem : visible_keys vocabulary handler request listed ≡ ok visible
unfolding visible_keys matching list_filter_matches sort
visible_lem = refl

visible_keys-readable_example :
    (left : List KeyMetadata) × Readable vocabulary handler request listed left
    × Permᴰ left visible
    × IsSorted (λ k. k.name) visible
visible_keys-readable_example = visible_keys-readable vocabulary handler request listed visible_lem

list_all-visible_keys_example :
    list_all vocabulary handler 4 request 0 [] ≡ some (codes "a" ∷ codes "b" ∷ codes "c" ∷ [])
list_all-visible_keys_example =
    list_all-visible_keys vocabulary handler (λ q. (ok listed, q)) listed 0 refl refl (λ k. k.name)
      (λ k. refl) request 2 visible refl refl (omega arith) visible_lem (omega arith)
