-- ===== src/Bootstrap/UserLaws.antt =====
-- Each check of a user passes exactly when what it asks for holds.
use citius_server.Prelude.{
  ◌≡◌, refl, sym, ap, subst, ◌↔◌, ◌⊎◌, inl, inr, Bool, true, false, not, ◌&&◌, ◌||◌, Option, none,
  some, List, [], ◌∷◌, map, arith, Bool-cases, ◌==◌, Text, text_eq_iff, All, text_Eq, if◌then◌else◌,
  ℕ, ◌∙◌, ◌≤◌, leb, eqb, eqb_iff,
}
use citius_server.Bootstrap.Checked.{
  Problem, ok, guard, Passes, guard-Passes, both_pass, ok_iff, last_iff, check_iff, iff_trans,
  both_iff,
}
use citius_server.Bootstrap.Types.{AclUser, AclWebApplication, Parsers}
use citius_server.Bootstrap.Web.{to_lower, contains}
use citius_server.Grpc.Sorting.{sort}
use citius_server.Bootstrap.Users.{
  letter, letters_or_digits, star, known_permission_set, check_permissions, is_wildcard,
  expand_permissions, is_set, is_some_of, validate_machine_user, uses_demo_identity_flags,
  in_dev_mode, environment_variable_name, address_ok, validate_human_user,
}
use citius_server.Bootstrap.Acceptable.{
  IsClaim, AreGrants, granted, IsMachine, IsDev, IsDemo, IsHuman, IsLetter, IsVariable, IsDigit,
}
use citius_server.Bootstrap.Fresh.{guard-not-Passes, check_field-IsTidy}
use citius_server.Auth.Registry.{
  Permission, claim, all_permissions, keys_create, keys_rotate, keys_update_policy, keys_read,
  crypto_encrypt, crypto_decrypt, crypto_sign, crypto_verify, crypto_misc, policy_read,
  policy_write, discovery_read, provider_read, provider_write,
}

-- The claim of a permission is in the catalog, and is not `*`.
known_claim :
    (q : Permission) → (contains known_permission_set (claim q) ≡ true) × (claim q == star ≡ false)
known_claim keys_create = (refl, refl)
known_claim keys_rotate = (refl, refl)
known_claim keys_update_policy = (refl, refl)
known_claim keys_read = (refl, refl)
known_claim crypto_encrypt = (refl, refl)
known_claim crypto_decrypt = (refl, refl)
known_claim crypto_sign = (refl, refl)
known_claim crypto_verify = (refl, refl)
known_claim crypto_misc = (refl, refl)
known_claim policy_read = (refl, refl)
known_claim policy_write = (refl, refl)
known_claim discovery_read = (refl, refl)
known_claim provider_read = (refl, refl)
known_claim provider_write = (refl, refl)

claim_of_known : (qs : List Permission) (p : Text) → contains (map claim qs) p ≡ true → IsClaim p
claim_of_known [] p h = absurd (cc)
claim_of_known (q ∷ qs) p h = elim (Bool-cases (claim q == p)) [
  | inl e ↦ (q, sym ((text_eq_iff (claim q) p).0 e))
  | inr e ↦ claim_of_known qs p (rw e at h)
]

-- The two checks of a permission.
permission_check :
    (p : Text) → ((p == star ≡ false) × (contains known_permission_set p ≡ true)) ↔ IsClaim p
permission_check p = (
  λ h. claim_of_known all_permissions p h.1,
  λ h.
      let known = known_claim h.0 in
      (
        subst (λ t. t == star ≡ false) (sym h.1) known.1,
        subst (λ t. contains known_permission_set t ≡ true) (sym h.1) known.0,
      ),
)

check_permissions-IsClaim :
    (ps : List Text) → Passes (check_permissions ps known_permission_set) ↔ All IsClaim ps
unfolding check_permissions
check_permissions-IsClaim [] = (λ h. tt, λ h. refl)
check_permissions-IsClaim (p ∷ ps) =
    let all =
      both_pass (guard (not (p == star)) Problem.wildcard_not_alone) _
        (guard-not-Passes (p == star) _)
        (both_pass (guard (contains known_permission_set p) Problem.permission_unknown) _
          (guard-Passes (contains known_permission_set p) _) (check_permissions-IsClaim ps)) in
    (
      λ h. let a = all.0 h in ((permission_check p).0 (a.0, a.1.0), a.1.1),
      λ h. let c = (permission_check p).1 h.0 in all.1 (c.0, (c.1, h.1)),
    )

is_wildcard_iff : (ps : List Text) → (is_wildcard ps ≡ true) ↔ (ps ≡ star ∷ [])
is_wildcard_iff [] = (λ h. cc, λ h. cc)
is_wildcard_iff (p ∷ []) =
    (λ h. ap (λ t. t ∷ []) ((text_eq_iff p star).0 h), λ h. (text_eq_iff p star).1 (cc))
is_wildcard_iff (p ∷ q ∷ ps) = (λ h. cc, λ h. cc)

-- `*` alone is no list of claims.
star_alone : (ps : List Text) → All IsClaim ps → is_wildcard ps ≡ false
star_alone [] h = refl
star_alone (p ∷ []) h = ((permission_check p).1 h.0).0
star_alone (p ∷ q ∷ ps) h = refl

-- The list, with `*` alone expanded.
abbrev expanded : List Text → List Text
expanded ps = if is_wildcard ps then sort (λ p. p) known_permission_set else ps

expanded-granted : (ps : List Text) → expanded ps ≡ granted ps
expanded-granted [] = refl
expanded-granted (p ∷ []) = refl
expanded-granted (p ∷ q ∷ ps) = refl

expand_permissions_lem :
    (ps a : List Text)
    → (expand_permissions ps known_permission_set ≡ ok a) ↔ (AreGrants ps × (a ≡ expanded ps))
unfolding expand_permissions
expand_permissions_lem ps a = elim (Bool-cases (is_wildcard ps)) [
  | inl all ↦
      rw all (λ h. (inl ((is_wildcard_iff ps).0 all), (ok_iff _ a).0 h), λ h. (ok_iff _ a).1 h.1)
  | inr listed ↦
      let checked =
        check_iff {0, 0, 0} (check_permissions ps known_permission_set) (ok ps) ps a
          (check_permissions-IsClaim ps) (last_iff ps a) in
      rw listed (
        λ h. let c = checked.0 h in (inr c.0.0, c.1),
        λ h. checked.1 ((claims h.0 listed, tt), h.1),
      )
]
  where
    claims : AreGrants ps → is_wildcard ps ≡ false → All IsClaim ps
    claims (inl e) no_star = absurd (cc ((is_wildcard_iff ps).1 e))
    claims (inr all) no_star = all

pub expand_permissions-AreGrants :
    (ps a : List Text)
    → (expand_permissions ps known_permission_set ≡ ok a) ↔ (AreGrants ps × (a ≡ granted ps))
expand_permissions-AreGrants ps a =
    iff_trans (expand_permissions_lem ps a)
      (both_iff (λ g. g, λ g. g) (λ e. e ∙ expanded-granted ps, λ e. e ∙ sym (expanded-granted ps)))

-- A field of a text, and an optional one, that a machine user leaves out.
left_out : (v : Text) → (not (v == []) ≡ false) ↔ (v ≡ [])
left_out [] = (λ h. refl, λ h. refl)
left_out (c ∷ v) = (λ h. cc, λ h. cc)

unset {ℓ} : {A : Type ℓ} (o : Option A) → (is_set o ≡ false) ↔ (o ≡ none)
unset none = (λ h. refl, λ h. refl)
unset (some a) = (λ h. cc, λ h. cc)

pub validate_machine_user-IsMachine : (u : AclUser) → Passes (validate_machine_user u) ↔ IsMachine u
unfolding validate_machine_user
validate_machine_user-IsMachine u = (
  λ h. record {
    given_name = ground (arith, left_out u.given_name);
    family_name = ground (arith, left_out u.family_name);
    email = ground (arith, left_out u.email);
    email_verified = ground (arith, unset u.email_verified);
    password_env = ground (arith, left_out u.password_env);
    password_change_required = ground (arith, unset u.password_change_required);
  },
  λ m.
      rw
        (
          m.given_name, m.family_name, m.email, m.email_verified, m.password_env,
          m.password_change_required,
        )
        refl,
)

address_iff : (o : Option Text) (email : Text) → (address_ok o email ≡ true) ↔ (o ≡ some email)
address_iff none email = (λ h. absurd (cc), λ h. absurd (cc))
address_iff (some a) email =
    (λ h. ap some ((text_eq_iff a email).0 h), λ h. (text_eq_iff a email).1 (cc))

demo_given :
    (v c : Option Bool)
    → (is_some_of true v || is_some_of false c) ≡ true
    → (v ≡ some true) ⊎ (c ≡ some false)
demo_given (some true) c h = inl refl
demo_given (some false) (some false) h = inr refl
demo_given (some false) (some true) h = absurd (cc)
demo_given (some false) none h = absurd (cc)
demo_given none (some false) h = inr refl
demo_given none (some true) h = absurd (cc)
demo_given none none h = absurd (cc)

both_true : (a b : Bool) → (a && b ≡ true) ↔ ((a ≡ true) × (b ≡ true))
both_true false b = (λ h. absurd (cc), λ h. absurd (cc (h.0)))
both_true true b = (λ h. (refl, h), λ h. h.1)

either_true : (a b : Bool) → (a || b ≡ true) ↔ ((a ≡ true) ⊎ (b ≡ true))
either_true true b = (λ h. inl refl, λ h. refl)
either_true false b = (λ h. inr h, λ h. elim h [ inl e ↦ absurd (cc) | inr e ↦ e ])

either_iff {ℓ κ μ ν} :
    {A : Type ℓ} {B : Type κ} {C : Type μ} {D : Type ν} → (A ↔ B) → (C ↔ D) → (A ⊎ C) ↔ (B ⊎ D)
either_iff f g = (
  λ h. elim h [ inl a ↦ inl (f.0 a) | inr c ↦ inr (g.0 c) ],
  λ h. elim h [ inl b ↦ inl (f.1 b) | inr d ↦ inr (g.1 d) ],
)

in_range : (lo hi c : ℕ) → (leb lo c && leb c hi ≡ true) ↔ ((lo ≤ c) × (c ≤ hi))
in_range lo hi c = (λ h. (ground arith, ground arith), λ h. let (low, high) = h in ground arith)

letter-IsLetter : (c : ℕ) → (letter c ≡ true) ↔ IsLetter c
letter-IsLetter c = iff_trans (either_true _ (eqb c b'_')) (
    either_iff
      (iff_trans (either_true (leb b'A' c && leb c b'Z') (leb b'a' c && leb c b'z'))
        (either_iff (in_range b'A' b'Z' c) (in_range b'a' b'z' c)))
      (eqb_iff c b'_'))

letters_or_digits-All :
    (s : Text) → (letters_or_digits s ≡ true) ↔ All (λ d. IsLetter d ⊎ IsDigit d) s
letters_or_digits-All [] = (λ h. tt, λ h. refl)
letters_or_digits-All (c ∷ s) =
    iff_trans (both_true (letter c || (leb b'0' c && leb c b'9')) (letters_or_digits s)) (
      both_iff
        (iff_trans (either_true (letter c) (leb b'0' c && leb c b'9'))
          (either_iff (letter-IsLetter c) (in_range b'0' b'9' c)))
        (letters_or_digits-All s))

-- The pattern for the names of variables.
environment_variable_name-IsVariable :
    (s : Text) → (environment_variable_name s ≡ true) ↔ IsVariable s
unfolding environment_variable_name
environment_variable_name-IsVariable [] = (λ h. absurd (cc), λ h. absurd h)
environment_variable_name-IsVariable (c ∷ s) =
    iff_trans (both_true (letter c) (letters_or_digits s))
      (both_iff (letter-IsLetter c) (letters_or_digits-All s))

demo_uses :
    (v c : Option Bool)
    → (v ≡ some true) ⊎ (c ≡ some false)
    → (is_some_of true v || is_some_of false c) ≡ true
demo_uses v c (inl e) = rw e refl
demo_uses (some true) c (inr e) = refl
demo_uses (some false) c (inr e) = rw e refl
demo_uses none c (inr e) = rw e refl

is_dev : (web : Option AclWebApplication) → in_dev_mode web ≡ true → IsDev web
is_dev none h = absurd (cc)
is_dev (some app) h = (app, refl, h)

in_dev : (web : Option AclWebApplication) → IsDev web → in_dev_mode web ≡ true
in_dev none d = absurd (cc (d.1))
in_dev (some app) d = cc (d.1, d.2)

IsDemo-iff :
    (u : AclUser) (web : Option AclWebApplication)
    → (not (uses_demo_identity_flags u && not (in_dev_mode web)) ≡ true) ↔ (IsDemo u → IsDev web)
unfolding uses_demo_identity_flags
IsDemo-iff u web = (
  λ h d. is_dev web (
      let e : (is_some_of true u.email_verified || is_some_of false u.password_change_required)
          ≡ true =
        demo_uses u.email_verified u.password_change_required d in
      ground arith),
  λ h. elim (Bool-cases (uses_demo_identity_flags u)) [
    | inl e ↦ let f : in_dev_mode web ≡ true = in_dev web (h (demo_given _ _ e)) in rw (e, f) refl
    | inr e ↦ rw e refl
  ],
)

module _ (x : Parsers) (web : Option AclWebApplication) where
  pub validate_human_user-IsHuman :
      (u : AclUser) (seen : List Text) (e : Text)
      → (validate_human_user x web u seen ≡ ok e)
        ↔ ((IsHuman x web u × (contains seen (to_lower u.email) ≡ false)) × (e ≡ to_lower u.email))
  unfolding validate_human_user
  validate_human_user-IsHuman u seen e =
      let s = to_lower u.email in
      let all = check_iff {0, 0, 0} _ _ s e (check_field-IsTidy u.username) (
        check_iff {0, 0, 0} _ _ s e (check_field-IsTidy u.given_name) (
          check_iff {0, 0, 0} _ _ s e (check_field-IsTidy u.family_name) (
            check_iff {0, 0, 0} _ _ s e (check_field-IsTidy u.email) (
              check_iff {0, 0, 0} _ _ s e (check_field-IsTidy u.password_env) (
                check_iff {0, 0, 0} _ _ s e
                  (iff_trans (guard-Passes _ Problem.email_invalid)
                    (address_iff (x.parse_address u.email) u.email))
                  (check_iff {0, 0, 0} _ _ s e
                    (guard-not-Passes (contains seen s) Problem.email_repeated)
                    (check_iff {0, 0, 0} _ _ s e
                      (iff_trans (guard-Passes (environment_variable_name u.password_env) _)
                        (environment_variable_name-IsVariable u.password_env))
                      (check_iff {0, 0, 0} _ _ s e
                        (iff_trans (guard-Passes _ Problem.demo_flags) (IsDemo-iff u web))
                        (last_iff s e))))))))) in
      (
        λ h.
            let (c, same) = all.0 h in
            let (
              name,
              (given, (family, (mail, (env, (address, (fresh, (variable, (demo, _)))))))),
            ) =
              c in
            (
              (
                record {
                  username = name;
                  given_name = given;
                  family_name = family;
                  email = mail;
                  password_env = env;
                  address = address;
                  variable = variable;
                  demo = demo;
                },
                fresh,
              ),
              same,
            ),
        λ h.
            let i = h.0.0 in
            all.1 (
              (
                i.username,
                (
                  i.given_name,
                  (
                    i.family_name,
                    (i.email, (i.password_env, (i.address, (h.0.1, (i.variable, (i.demo, tt)))))),
                  ),
                ),
              ),
              h.1,
            ),
      )
