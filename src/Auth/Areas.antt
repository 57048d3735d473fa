-- ===== src/Auth/Areas.antt =====
-- Permissions and services come in areas, which the registry does not mix.
use citius_server.Prelude.{
  ◌≡◌, sym, ◌∙◌, inl, inr, true, some, List, [], ◌∷◌, arith, eqb, if◌then◌else◌, Bool-cases, ◌==◌,
  Text, codes, text_eq_iff, All, text_Eq,
}
use citius_server.Auth.Methods.{Method, Service, service_of}
use citius_server.Auth.Registry.{claim, has, require_perm, policy_registry}

-- What stands between the first and the second colon of a permission.
abbrev pub up_to_colon : Text → Text
up_to_colon [] = []
up_to_colon (c ∷ s) = let rest = up_to_colon s in if eqb c b':' then [] else c ∷ rest

abbrev pub after_colon : Text → Text
after_colon [] = []
after_colon (c ∷ s) = let rest = after_colon s in if eqb c b':' then s else rest

abbrev pub area_of : Text → Text
area_of p = up_to_colon (after_colon p)

abbrev pub service_area : Service → Text
service_area Service.key_management_service = codes "keys"
service_area Service.crypto_policy_service = codes "policy"
service_area Service.crypto_service = codes "crypto"
service_area Service.streaming_crypto_service = codes "crypto"
service_area Service.key_establishment_service = codes "crypto"
service_area Service.algorithm_discovery_service = codes "discovery"
service_area Service.provider_service = codes "provider"

area_of_registry : (m : Method) → area_of (claim (policy_registry m)) ≡ service_area (service_of m)
area_of_registry m = ground arith

has_area :
    (granted : List Text) (p a : Text)
    → has granted p ≡ true
    → All (λ q. area_of q ≡ a) granted
    → area_of p ≡ a
has_area [] p a h all = absurd (ground arith)
has_area (q ∷ qs) p a h all = elim (Bool-cases (q == p)) [
  | inl here ↦ rw (← (text_eq_iff q p).0 here) all.0
  | inr there ↦ has_area qs p a (rw there at h) all.1
]

-- A caller whose permissions all lie in one area, such as keys, crypto or policy, passes the check
-- of no RPC of a service of another area.
pub require_perm-area :
    (m : Method) (granted : List Text) (a : Text)
    → require_perm (policy_registry m) (some granted) ≡ true
    → All (λ q. area_of q ≡ a) granted
    → service_area (service_of m) ≡ a
require_perm-area m granted a passed all =
    sym (area_of_registry m) ∙ has_area granted (claim (policy_registry m)) a passed all
