-- ===== src/Bootstrap/Checked.antt =====
-- What a check of the access file comes to: a value, or the first problem that was found.
use citius_server.Prelude.{◌≡◌, refl, sym, ap, subst, ◌↔◌, Bool, true, false}

-- The errors of bootstrap/zitadel/setup-auth/acl.go, without the names that their messages give.
pub data Problem : Type 0 where
  unreadable unparsed unsupported_version no_users : Problem
  name_missing name_untidy redirect_missing uri_untidy uri_wildcard uri_fragment uri_invalid :
      Problem
  uri_relative uri_user uri_hostless uri_not_https uri_repeated : Problem
  username_missing username_repeated wildcard_not_alone permission_unknown : Problem
  user_type_unknown human_fields : Problem
  field_missing field_untidy email_invalid email_repeated variable_invalid demo_flags : Problem

pub data Checked {ℓ} (A : Type ℓ) : Type ℓ where
  ok : A → Checked A
  refused : Problem → Checked A

infixl 5 ◌>>=◌ ◌>>◌
abbrev pub ◌>>=◌ {ℓ κ} : {A : Type ℓ} {B : Type κ} → Checked A → (A → Checked B) → Checked B
ok a >>= f = f a
refused p >>= f = refused p

abbrev pub ◌>>◌ {ℓ} : {B : Type ℓ} → Checked (Unit {0}) → Checked B → Checked B
m >> k = m >>= λ _. k

-- `if !b { return err }`
abbrev pub guard : Bool → Problem → Checked (Unit {0})
guard true p = ok tt
guard false p = refused p

-- A check that finds nothing.
abbrev pub Passes : Checked (Unit {0}) → Type 0
Passes m = m ≡ ok tt

pub guard-Passes : (b : Bool) (p : Problem) → Passes (guard b p) ↔ (b ≡ true)
guard-Passes true p = (λ h. refl, λ h. refl)
guard-Passes false p = (λ h. cc, λ h. cc)

pub >>-eq-ok {ℓ} :
    {B : Type ℓ} (m : Checked (Unit {0})) (k : Checked B) (b : B)
    → ((m >> k) ≡ ok b) ↔ (Passes m × (k ≡ ok b))
>>-eq-ok (ok u) k b = (λ h. (refl, h), λ h. h.1)
>>-eq-ok (refused p) k b = (λ h. absurd (cc), λ h. absurd (cc))

-- What a sequence of two steps that gives `e` comes from.
pub >>=-eq-ok {ℓ κ} :
    {A : Type ℓ} {E : Type κ} (step : Checked A) (next : A → Checked E) {e : E}
    → (step >>= next) ≡ ok e
    → (a : A) × (step ≡ ok a) × (next a ≡ ok e)
>>=-eq-ok (refused problem) next h = absurd (cc)
>>=-eq-ok (ok a) next h = (a, refl, h)

pub ok-injective {ℓ} : {A : Type ℓ} {a b : A} → ok a ≡ ok b → a ≡ b
ok-injective h = cc

pub iff_trans {ℓ κ μ} : {A : Type ℓ} {B : Type κ} {C : Type μ} → (A ↔ B) → (B ↔ C) → (A ↔ C)
iff_trans f g = (λ a. g.0 (f.0 a), λ c. f.1 (g.1 c))

pub both_iff {ℓ κ μ ν} :
    {A : Type ℓ} {B : Type κ} {C : Type μ} {D : Type ν} → (A ↔ B) → (C ↔ D) → ((A × C) ↔ (B × D))
both_iff f g = (λ h. (f.0 h.0, g.0 h.1), λ h. (f.1 h.0, g.1 h.1))

pub ok_iff {ℓ} : {A : Type ℓ} (s a : A) → (ok s ≡ ok a) ↔ (a ≡ s)
ok_iff s a = (λ h. sym (ok-injective h), λ h. ap ok (sym h))

pub last_iff {ℓ} : {A : Type ℓ} (s a : A) → (ok s ≡ ok a) ↔ (Unit {0} × (a ≡ s))
last_iff s a = (λ h. (tt, (ok_iff s a).0 h), λ h. (ok_iff s a).1 h.1)

pub false_iff {ℓ κ} : {A : Type ℓ} {B : Type κ} → (A → ⊥) → (B → ⊥) → (A ↔ B)
false_iff f g = (λ a. absurd (f a), λ b. absurd (g b))

-- A check, exactly when `B`, followed by one that gives `s`, exactly when `C`.
pub check_iff {ℓ κ μ} :
    {A : Type ℓ} {B : Type κ} {C : Type μ} (m : Checked (Unit {0})) (k : Checked A) (s a : A)
    → (Passes m ↔ B)
    → ((k ≡ ok a) ↔ (C × (a ≡ s)))
    → (((m >> k) ≡ ok a) ↔ ((B × C) × (a ≡ s)))
check_iff m k s a f g = (
  λ h. let both = (>>-eq-ok m k a).0 h in let rest = g.0 both.1 in ((f.0 both.0, rest.0), rest.1),
  λ h. (>>-eq-ok m k a).1 (f.1 h.0.0, g.1 (h.0.1, h.1)),
)

-- A step that gives `t` exactly when `B`, followed by one that then holds exactly when `D`.
pub step_iff {ℓ κ μ ν} :
    {A : Type ℓ} {E : Type κ} {B : Type μ} {D : Type ν} (m : Checked A) (f : A → Checked E) (t : A)
    (b : E)
    → ((a : A) → (m ≡ ok a) ↔ (B × (a ≡ t)))
    → ((f t ≡ ok b) ↔ D)
    → (((m >>= f) ≡ ok b) ↔ (B × D))
step_iff m f t b p q = (
  λ h.
      let (a, e, h1) = >>=-eq-ok m f h in
      let c = (p a).0 e in (c.0, q.0 (subst (λ i. f i ≡ ok b) c.1 h1)),
  λ h. let e : m ≡ ok t = (p t).1 (h.0, refl) in rw e (q.1 h.1),
)

pub both_pass {ℓ κ} :
    {B : Type ℓ} {C : Type κ} (m k : Checked (Unit {0}))
    → (Passes m ↔ B)
    → (Passes k ↔ C)
    → (Passes (m >> k) ↔ (B × C))
both_pass m k f g = iff_trans (>>-eq-ok m k tt) (both_iff f g)
