-- ===== src/Auth/Tests.antt =====
-- The configuration and the permissions on concrete inputs.
use citius_server.Prelude.{◌≡◌, refl, ◌↔◌, List, [], ◌∷◌, Text, codes}
use citius_server.Errors.{ok}
use citius_server.Auth.Config.{
  Config, Env, load_from_env, split_csv, is_space, trim_space, trim_right, trim_left,
}
use citius_server.Auth.ConfigLaws.{IsCount, IsReady, load_from_env-succeeds_iff}
use citius_server.Auth.Lists.{IsEntry, blank, entry, split_csv-join}
use citius_server.Auth.Methods.{Method, service_of}
use citius_server.Auth.Methods
use citius_server.Auth.Areas.{service_area, require_perm-area}

abbrev env : Env
env = record {
  auth_enabled = codes "true";
  zitadel_issuer = codes "https://auth";
  introspect_id = codes "id";
  introspect_secret = [];
  zitadel_insecure = [];
  cache_ttl_seconds = codes "60";
  cache_max_entries = [];
  expected_audience = codes "a, b";
}

load_from_env-succeeds_iff_example :
    ((cfg : Config) × (load_from_env env ≡ ok cfg))
    ↔ (IsCount env.cache_ttl_seconds × IsCount env.cache_max_entries × IsReady env)
load_from_env-succeeds_iff_example = load_from_env-succeeds_iff env

first-IsEntry : IsEntry (codes "a b")
unfolding trim_space trim_right trim_left
first-IsEntry = record { trim = refl; given = λ e. cc; no_comma = (refl, (refl, (refl, tt))) }

second-IsEntry : IsEntry (codes "c")
unfolding trim_space trim_right trim_left
second-IsEntry = record { trim = refl; given = λ e. cc; no_comma = (refl, tt) }

split_csv-join_example : split_csv (codes " a b, ,c  ") ≡ codes "a b" ∷ codes "c" ∷ []
unfolding is_space
split_csv-join_example =
    split_csv-join (entry (codes " ") (codes "a b") [])
      (blank (codes " ") ∷ entry [] (codes "c") (codes "  ") ∷ []) ((refl, tt), (first-IsEntry, tt))
      ((refl, tt), ((tt, (second-IsEntry, (refl, (refl, tt)))), tt))

abbrev granted : List Text
granted = codes "citius:keys:read" ∷ codes "citius:keys:rotate" ∷ []

require_perm-area_example : service_area (service_of Methods.rotate_key) ≡ codes "keys"
require_perm-area_example =
    require_perm-area Methods.rotate_key granted (codes "keys") refl (refl, (refl, tt))
