-- ===== src/Errors.antt =====
-- The domain errors of citius-core, as far as the server makes them. An error is the calls that
-- built it, without the operation names and the messages, which only describe it.
use citius_server.Prelude.{ℕ, ◌≡◌, refl, ◌↔◌, ◌⊎◌, inl, inr, Bool, true}

-- The codes that the server passes to `errors.New`.
pub data Code : Type 0 where
  invalid_argument already_exists key_not_found policy_not_found template_not_found : Code
  provider_not_found policy_violation unauthenticated not_implemented internal : Code

pub data Error : Type 0 where
  -- `errors.New(ctx, op, code, message)`
  new : Code → Error
  -- `errors.Wrap(ctx, op, err)`
  wrap : Error → Error
  -- An error of a library, which the number tells from others.
  foreign : ℕ → Error

pub data Result {ℓ} (A : Type ℓ) : Type ℓ where
  ok : A → Result A
  err : Error → Result A

infixl 5 ◌>>=◌
abbrev pub ◌>>=◌ {ℓ κ} : {A : Type ℓ} {B : Type κ} → Result A → (A → Result B) → Result B
ok a >>= f = f a
err e >>= f = err e

-- `if err != nil { return errors.Wrap(ctx, op, err) }`
abbrev pub wrapped {ℓ} : {A : Type ℓ} → Result A → Result A
wrapped (ok a) = ok a
wrapped (err e) = err (wrap e)

pub Result-cases {ℓ} :
    {A : Type ℓ} (r : Result A) → ((a : A) × (r ≡ ok a)) ⊎ ((e : Error) × (r ≡ err e))
Result-cases (ok a) = inl (a, refl)
Result-cases (err e) = inr (e, refl)

-- What the server relies on in `errors.IsKeyNotFound`: it looks for the code behind the wrapping.
pub record IsKeyNotFoundTest (test : Error → Bool) : Type 0 where
  pub of_new : (c : Code) → (test (new c) ≡ true) ↔ (c ≡ key_not_found)
  pub of_wrap : (e : Error) → test (wrap e) ≡ test e
