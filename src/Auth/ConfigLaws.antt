-- ===== src/Auth/ConfigLaws.antt =====
-- Which environments give a configuration, and what a comma-separated list gives.
use citius_server.Prelude.{
  ℕ, ◌*◌, ◌%◌, ◌≡◌, refl, ◌≢◌, ◌↔◌, ◌⊎◌, inl, inr, false, some, [], ◌∷◌, arith, Option-cases, ◌==◌,
  Text, codes, text_eq_iff, text_Eq,
}
use citius_server.Prelude.Int.{pos, negsuc}
use citius_server.Decimal.{atoi}
use citius_server.Errors.{Result-cases, ok}
use citius_server.Auth.Config.{
  Config, Env, count, complete, load_from_env, seconds_of, default_cache_max_entries, configured,
  second, int_mod,
}

-- Not set, or a number that is not negative.
abbrev pub IsCount : Text → Type 0
IsCount v = (v ≡ []) ⊎ ((n : ℕ) × (atoi v ≡ some (pos n)))

-- Authentication is off, or all that it needs is set.
abbrev pub IsReady : Env → Type 0
IsReady env =
    (env.auth_enabled ≢ codes "true")
    ⊎ ((env.zitadel_issuer ≢ []) × (env.introspect_id ≢ []) × (env.introspect_secret ≢ []))

count_of : (v : Text) (default n : ℕ) → count v default ≡ ok n → IsCount v
unfolding count
count_of [] default n h = inl refl
count_of (c ∷ s) default n h = elim (Option-cases (atoi (c ∷ s))) [
  | inl bad ↦ absurd (ground (arith, rw (count, bad) at h))
  | inr (pos m, good) ↦ inr (m, good)
  | inr (negsuc m, bad) ↦ absurd (ground (arith, rw (count, bad) at h))
]

counted : (v : Text) (default : ℕ) → IsCount v → (n : ℕ) × (count v default ≡ ok n)
unfolding count
counted [] default h = (default, refl)
counted (c ∷ s) default (inl h) = absurd (ground arith)
counted (c ∷ s) default (inr (n, good)) = (n, rw (count, good) refl)

seconds_counted : (v : Text) → IsCount v → (n : ℕ) × (seconds_of v ≡ ok n)
unfolding seconds_of
seconds_counted [] h = (_, refl)
seconds_counted (c ∷ s) h =
    let (n, good) = counted (c ∷ s) 0 h in ((n * second) % int_mod, rw good refl)

seconds_of-IsCount : (v : Text) (n : ℕ) → seconds_of v ≡ ok n → IsCount v
unfolding seconds_of
seconds_of-IsCount [] n h = inl refl
seconds_of-IsCount (c ∷ s) n h = elim (Result-cases (count (c ∷ s) 0)) [
  | inl (m, good) ↦ count_of (c ∷ s) 0 m good
  | inr (e, bad) ↦ absurd (ground (arith, rw bad at h))
]

complete-ready :
    (cfg : Config) {made : Config}
    → complete cfg ≡ ok made
    → (made ≡ cfg)
      × ((cfg.enabled ≡ false)
          ⊎ ((cfg.issuer ≢ []) × (cfg.introspect_client_id ≢ []) × (cfg.introspect_secret ≢ [])))
unfolding complete
complete-ready cfg h = ground (
  arith,
  text_eq_iff cfg.issuer [],
  text_eq_iff cfg.introspect_client_id [],
  text_eq_iff cfg.introspect_secret [],
)

completed :
    (cfg : Config)
    → (cfg.enabled ≡ false)
      ⊎ ((cfg.issuer ≢ []) × (cfg.introspect_client_id ≢ []) × (cfg.introspect_secret ≢ []))
    → complete cfg ≡ ok cfg
unfolding complete
completed cfg h = ground (
  arith,
  text_eq_iff cfg.issuer [],
  text_eq_iff cfg.introspect_client_id [],
  text_eq_iff cfg.introspect_secret [],
)

disabled_iff : (v : Text) → ((v == codes "true") ≡ false) ↔ (v ≢ codes "true")
disabled_iff v = (
  (λ off e. ground (arith, text_eq_iff v (codes "true"))),
  (λ ne. ground (arith, text_eq_iff v (codes "true"))),
)

-- `LoadFromEnv` succeeds exactly if each of CACHE_TTL_SECONDS and CACHE_MAX_ENTRIES is unset or a
-- number that is not negative, and ZITADEL_ISSUER, INTROSPECT_ID and INTROSPECT_SECRET are set
-- wherever AUTH_ENABLED is "true".
pub load_from_env-succeeds_iff :
    (env : Env)
    → ((cfg : Config) × (load_from_env env ≡ ok cfg))
      ↔ (IsCount env.cache_ttl_seconds × IsCount env.cache_max_entries × IsReady env)
unfolding load_from_env
load_from_env-succeeds_iff env = (
  (λ p. elim (Result-cases (seconds_of env.cache_ttl_seconds)) [
    | inr (e, bad) ↦ absurd (ground (arith, rw bad at p.1))
    | inl (ttl, timed) ↦
        elim (Result-cases (count env.cache_max_entries default_cache_max_entries)) [
          | inr (e, bad) ↦ absurd (ground (arith, rw (timed, bad) at p.1))
          | inl (entries, bounded) ↦
              let (same, ready) = complete-ready _ (rw (timed, bounded) at p.1) in
              (
                seconds_of-IsCount env.cache_ttl_seconds ttl timed,
                count_of env.cache_max_entries default_cache_max_entries entries bounded,
                elim ready [
                  | inl off ↦ inl ((disabled_iff env.auth_enabled).0 off)
                  | inr all ↦ inr all
                ],
              )
        ]
  ]),
  (λ q.
      let (c, d, ready) = q in
      let (ttl, timed) = seconds_counted env.cache_ttl_seconds c in
      let (entries, bounded) = counted env.cache_max_entries default_cache_max_entries d in
      (
        configured env ttl entries,
        rw (timed, bounded)
            (completed (configured env ttl entries) (elim ready [
              | inl off ↦ inl ((disabled_iff env.auth_enabled).1 off)
              | inr all ↦ inr all
            ])),
      )),
)
