-- ===== src/Auth/Config.antt =====
-- internal/auth/config.go: the configuration that the environment gives.
use citius_server.Prelude.{
  ℕ, ◌*◌, ◌%◌, ◌^◌, Bool, ◌&&◌, ◌||◌, none, some, List, [], ◌∷◌, leb, eqb, if◌then◌else◌, ◌==◌,
  Text, codes, text_Eq,
}
use citius_server.Prelude.Int.{pos, negsuc}
use citius_server.Decimal.{atoi}
use citius_server.Errors.{Result, ok, err, new, invalid_argument, ◌>>=◌}

-- `Config`; a duration is in nanoseconds, as an int64 that wraps around. `PublicMethods` and
-- `AllowUnauthenticatedReflection` stay at their zero values.
pub record Config : Type 0 where
  pub enabled : Bool
  pub issuer : Text
  pub introspect_client_id : Text
  pub introspect_secret : Text
  pub insecure : Bool
  pub cache_ttl : ℕ
  pub cache_max_entries : ℕ
  pub expected_audience : List Text

-- The environment: the value of a variable, empty where it is not set.
pub record Env : Type 0 where
  pub auth_enabled : Text
  pub zitadel_issuer : Text
  pub introspect_id : Text
  pub introspect_secret : Text
  pub zitadel_insecure : Text
  pub cache_ttl_seconds : Text
  pub cache_max_entries : Text
  pub expected_audience : Text

abbrev pub second : ℕ
second = 1000000000

abbrev pub int_mod : ℕ
int_mod = 2 ^ 64

abbrev pub default_cache_ttl : ℕ
default_cache_ttl = 30 * second

abbrev pub default_cache_max_entries : ℕ
default_cache_max_entries = 10000

-- `strings.Split(s, ",")`
unfoldable pub split : Text → List Text
split [] = [] ∷ []
split (c ∷ s) =
    let rest = split s in
    if eqb c b',' then [] ∷ rest else (elim rest [ [] ↦ (c ∷ []) ∷ [] | p ∷ ps ↦ (c ∷ p) ∷ ps ])

-- The white space of ASCII, which `strings.TrimSpace` trims.
unfoldable pub is_space : ℕ → Bool
is_space c = eqb c 32 || (leb 9 c && leb c 13)

unfoldable pub trim_left : Text → Text
unfolding is_space
trim_left [] = []
trim_left (c ∷ s) = let rest = trim_left s in if is_space c then rest else c ∷ s

unfoldable pub trim_right : Text → Text
unfolding is_space
trim_right [] = []
trim_right (c ∷ s) =
    let rest = trim_right s in
    elim rest [ [] ↦ (if is_space c then [] else c ∷ []) | d ∷ t ↦ c ∷ d ∷ t ]

unfoldable pub trim_space : Text → Text
trim_space s = trim_right (trim_left s)

unfoldable pub trimmed : List Text → List Text
trimmed [] = []
trimmed (p ∷ ps) = let rest = trimmed ps in if trim_space p == [] then rest else trim_space p ∷ rest

unfoldable pub split_csv : Text → List Text
unfolding trimmed
split_csv s = trimmed (split s)

-- A variable that holds a number which is not negative, or is not set.
unfoldable pub count : Text → ℕ → Result ℕ
count [] default = ok default
count (c ∷ s) default = elim (atoi (c ∷ s)) [
  | none ↦ err (new invalid_argument)
  | some (negsuc n) ↦ err (new invalid_argument)
  | some (pos n) ↦ ok n
]

unfoldable pub seconds_of : Text → Result ℕ
unfolding count
seconds_of [] = ok default_cache_ttl
seconds_of (c ∷ s) = count (c ∷ s) 0 >>= λ n. ok ((n * second) % int_mod)

unfoldable pub audience : Text → List Text
audience [] = []
audience (c ∷ s) = split_csv (c ∷ s)

unfoldable pub complete : Config → Result Config
complete cfg =
    if cfg.enabled
      && (cfg.issuer == [] || cfg.introspect_client_id == [] || cfg.introspect_secret == [])
    then err (new invalid_argument)
    else ok cfg

-- The configuration, from the numbers that were parsed.
abbrev pub configured : Env → ℕ → ℕ → Config
unfolding audience
configured env ttl entries = record {
  enabled = env.auth_enabled == codes "true";
  issuer = env.zitadel_issuer;
  introspect_client_id = env.introspect_id;
  introspect_secret = env.introspect_secret;
  insecure = env.zitadel_insecure == codes "true";
  cache_ttl = ttl;
  cache_max_entries = entries;
  expected_audience = audience env.expected_audience;
}

unfoldable pub load_from_env : Env → Result Config
unfolding seconds_of count configured complete
load_from_env env = seconds_of env.cache_ttl_seconds >>= λ ttl.
    count env.cache_max_entries default_cache_max_entries >>= λ entries.
    complete (configured env ttl entries)
