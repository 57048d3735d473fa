-- ===== src/Software/Outcome.antt =====
-- What a call of the provider comes to: a value, an error, or a panic of a library.
use citius_server.Prelude.{◌≡◌, refl, Bool, true, false}
use citius_server.Errors.{Error, Code, new, wrap}

pub data Outcome {ℓ} (A : Type ℓ) : Type ℓ where
  ok : A → Outcome A
  err : Error → Outcome A
  panic : Outcome A

infixl 5 ◌>>=◌ ◌>>◌
abbrev pub ◌>>=◌ {ℓ κ} : {A : Type ℓ} {B : Type κ} → Outcome A → (A → Outcome B) → Outcome B
ok a >>= f = f a
err e >>= f = err e
panic >>= f = panic

abbrev pub ◌>>◌ {ℓ} : {B : Type ℓ} → Outcome (Unit {0}) → Outcome B → Outcome B
m >> k = m >>= λ _. k

-- `if err != nil { return errors.Wrap(ctx, op, err) }`
abbrev pub wrapped {ℓ} : {A : Type ℓ} → Outcome A → Outcome A
wrapped (ok a) = ok a
wrapped (err e) = err (wrap e)
wrapped panic = panic

-- `if !test { return errors.New(ctx, op, code) }`
abbrev pub guard : Bool → Code → Outcome (Unit {0})
guard true code = ok tt
guard false code = err (new code)

-- Go's index and slice expressions, and the calls that panic, return.
abbrev pub NoPanic {ℓ} : {A : Type ℓ} → Outcome A → Type 0
NoPanic (ok a) = Unit
NoPanic (err e) = Unit
NoPanic panic = ⊥

-- To take a successful sequence apart: what its first call gave, and the rest.
pub from_ok {ℓ κ μ} :
    {A : Type ℓ} {B : Type κ} {C : Type μ} (m : Outcome A) {f : A → Outcome B} {b : B}
    → (m >>= f) ≡ ok b
    → ((a : A) → m ≡ ok a → f a ≡ ok b → C)
    → C
from_ok (ok a) h k = k a refl h
from_ok (err e) h k = absurd (cc)
from_ok panic h k = absurd (cc)

-- To run a sequence whose first call is known to succeed.
pub then_ok {ℓ κ} :
    {A : Type ℓ} {B : Type κ} (m : Outcome A) (f : A → Outcome B) {a : A} {r : Outcome B}
    → m ≡ ok a
    → f a ≡ r
    → (m >>= f) ≡ r
then_ok m f e k = rw e k

pub then_guard {ℓ} :
    {B : Type ℓ} (b : Bool) (c : Code) {k r : Outcome B} → b ≡ true → k ≡ r → (guard b c >> k) ≡ r
then_guard b c e k = rw e k

pub ok-injective {ℓ} : {A : Type ℓ} {a b : A} → ok a ≡ ok b → a ≡ b
ok-injective h = cc

pub err-injective {ℓ} : {A : Type ℓ} {d e : Error} → ◌≡◌ {A = Outcome A} (err d) (err e) → d ≡ e
err-injective h = cc

pub wrapped-eq-ok {ℓ} : {A : Type ℓ} (m : Outcome A) {a : A} → wrapped m ≡ ok a → m ≡ ok a
wrapped-eq-ok (ok a) h = h
wrapped-eq-ok (err e) h = cc
wrapped-eq-ok panic h = cc

pub guard-eq-ok : (b : Bool) (c : Code) {u : Unit {0}} → guard b c ≡ ok u → b ≡ true
guard-eq-ok true c h = refl
guard-eq-ok false c h = cc

pub >>=-NoPanic {ℓ κ} :
    {A : Type ℓ} {B : Type κ} (m : Outcome A) (f : A → Outcome B)
    → NoPanic m
    → ((a : A) → m ≡ ok a → NoPanic (f a))
    → NoPanic (m >>= f)
>>=-NoPanic (ok a) f h k = k a refl
>>=-NoPanic (err e) f h k = tt
>>=-NoPanic panic f h k = h

pub wrapped-NoPanic {ℓ} : {A : Type ℓ} (m : Outcome A) → NoPanic m → NoPanic (wrapped m)
wrapped-NoPanic (ok a) h = tt
wrapped-NoPanic (err e) h = tt
wrapped-NoPanic panic h = h

pub guard-NoPanic : (b : Bool) (c : Code) → NoPanic (guard b c)
guard-NoPanic true c = tt
guard-NoPanic false c = tt
