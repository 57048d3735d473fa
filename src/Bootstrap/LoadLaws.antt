-- ===== src/Bootstrap/LoadLaws.antt =====
-- The access file is accepted exactly when it is acceptable, and then gives what it provides.
use citius_server.Prelude.{
  ◌≡◌, refl, ◌≢◌, ◌↔◌, ◌⊎◌, inl, inr, true, false, ◌||◌, Option, List, [], ◌∷◌, if◌then◌else◌,
  Bool-cases, ◌==◌, Text, codes, text_eq_iff, text_Eq,
}
use citius_server.Bootstrap.Checked.{
  Problem, Checked, ok, refused, >>-eq-ok, ok_iff, last_iff, check_iff, step_iff, iff_trans,
  both_iff, false_iff,
}
use citius_server.Bootstrap.Types.{AclUser, AclWebApplication, ParsedAcl, Parsers}
use citius_server.Bootstrap.Web.{to_lower, contains}
use citius_server.Bootstrap.Users.{
  known_permission_set, validate_machine_user, machine_onboard_input, human_acl_input,
  validate_human_user, Progress, add_machine_user, add_human_user, append_machine, append_human,
  append_acl_user, append_acl_users, expand_permissions,
}
use citius_server.Bootstrap.Acceptable.{AreGrants, granted, IsMachine, IsHuman, is_human, IsOfType}
use citius_server.Bootstrap.Fresh.{guard-not-Passes}
use citius_server.Bootstrap.UserLaws.{
  expand_permissions-AreGrants, validate_machine_user-IsMachine, validate_human_user-IsHuman,
}

-- The user of a human has an email that was not seen.
abbrev pub FreshEmail : List Text → AclUser → Type 0
FreshEmail seen u = is_human u ≡ true → contains seen (to_lower u.email) ≡ false

empty_iff : (t : Text) → (t == [] ≡ false) ↔ (t ≢ [])
empty_iff [] = (λ h. absurd (cc), λ h. absurd (h refl))
empty_iff (c ∷ t) = (λ h e. cc, λ h. refl)

abbrev AsMachine : Text → Type 0
AsMachine t = (t ≡ []) ⊎ (t ≡ codes "machine")

machine_type_iff : (t : Text) → ((t == [] || t == codes "machine") ≡ true) ↔ AsMachine t
machine_type_iff t = (
  λ h. elim (Bool-cases (t == [])) [
    | inl e ↦ inl ((text_eq_iff t []).0 e)
    | inr e ↦ inr ((text_eq_iff t (codes "machine")).0 (rw e at h))
  ],
  known,
)
  where
    known : AsMachine t → (t == [] || t == codes "machine") ≡ true
    known (inl e) = rw e refl
    known (inr e) = rw e refl

machine-ne-human : (t : Text) → AsMachine t → (t == codes "human") ≡ false
machine-ne-human t (inl e) = rw e refl
machine-ne-human t (inr e) = rw e refl

module _ (x : Parsers) (web : Option AclWebApplication) (u : AclUser) where
  IsMachine-of_type : is_human u ≡ false → IsOfType x web u → IsMachine u
  IsMachine-of_type f (inl h) = h.1
  IsMachine-of_type f (inr h) = absurd (cc ((text_eq_iff u.user_type (codes "human")).1 h.0))

  IsHuman-of_type : is_human u ≡ true → IsOfType x web u → IsHuman x web u
  IsHuman-of_type f (inl h) = absurd (cc (machine-ne-human u.user_type h.0))
  IsHuman-of_type f (inr h) = h.1

  no_type :
      (u.user_type == [] || u.user_type == codes "machine") ≡ false
      → is_human u ≡ false
      → IsOfType x web u
      → ⊥
  no_type e f (inl h) = cc ((machine_type_iff u.user_type).1 h.0)
  no_type e f (inr h) = cc ((text_eq_iff u.user_type (codes "human")).1 h.0)

-- What a user adds.
abbrev pub added : Progress → AclUser → Progress
added p u =
    if is_human u
    then add_human_user p (human_acl_input u (granted u.permissions)) (to_lower u.email)
    else add_machine_user p (machine_onboard_input u (granted u.permissions))

-- What the loop over the users ends with, if none is refused.
abbrev pub outcome : Progress → List AclUser → ParsedAcl
outcome p [] = p.out
outcome p (u ∷ users) = outcome (added p u) users

module _ (x : Parsers) (web : Option AclWebApplication) where
  append_machine_iff :
      (p : Progress) (u : AclUser) (ps : List Text) (q : Progress)
      → (append_machine x web p u ps ≡ ok q)
        ↔ (IsMachine u × (q ≡ add_machine_user p (machine_onboard_input u ps)))
  append_machine_iff p u ps q =
      iff_trans (>>-eq-ok (validate_machine_user u) _ q)
        (both_iff (validate_machine_user-IsMachine u) (ok_iff _ q))

  append_human_iff :
      (p : Progress) (u : AclUser) (ps : List Text) (q : Progress)
      → (append_human x web p u ps ≡ ok q) ↔ (
          (IsHuman x web u × (contains p.seen_emails (to_lower u.email) ≡ false))
          × (q ≡ add_human_user p (human_acl_input u ps) (to_lower u.email)))
  append_human_iff p u ps q =
      step_iff (validate_human_user x web u p.seen_emails) _ (to_lower u.email) q
        (validate_human_user-IsHuman x web u p.seen_emails) (ok_iff _ q)

  -- The dispatch on the type of the user.
  abbrev dispatched : Progress → AclUser → List Text → Checked Progress
  dispatched p u permissions =
      if u.user_type == [] || u.user_type == codes "machine"
      then append_machine x web p u permissions
      else (if u.user_type == codes "human"
          then append_human x web p u permissions
          else refused Problem.user_type_unknown)

  dispatched_iff :
      (p : Progress) (u : AclUser) (q : Progress)
      → (dispatched p u (granted u.permissions) ≡ ok q)
        ↔ ((IsOfType x web u × FreshEmail p.seen_emails u) × (q ≡ added p u))
  dispatched_iff p u q = elim (Bool-cases (u.user_type == [] || u.user_type == codes "machine")) [
    | inl e ↦
        let as_machine = (machine_type_iff u.user_type).0 e in
        let other : is_human u ≡ false = machine-ne-human u.user_type as_machine in
        let both = append_machine_iff p u (granted u.permissions) q in
        rw (e, other)
          (
            λ h. let (m, same) = both.0 h in ((inl (as_machine, m), λ g. absurd (cc)), same),
            λ h. both.1 (IsMachine-of_type x web u other h.0.0, h.1),
          )
    | inr e ↦ elim (Bool-cases (is_human u)) [
      | inl f ↦
          let both = append_human_iff p u (granted u.permissions) q in
          let named = (text_eq_iff u.user_type (codes "human")).0 f in
          rw (e, f)
            (
              λ h. let (m, same) = both.0 h in ((inr (named, m.0), λ g. m.1), same),
              λ h. both.1 ((IsHuman-of_type x web u f h.0.0, h.0.1 refl), h.1),
            )
      | inr f ↦ rw (e, f) (false_iff (λ h. cc) (λ h. no_type x web u e f h.0.0))
    ]
  ]

  abbrev pub UserFits : Progress → AclUser → Type 0
  UserFits p u = AreGrants u.permissions × (IsOfType x web u × FreshEmail p.seen_emails u)

  append_acl_user-UserFits :
      (p : Progress) (u : AclUser) (q : Progress)
      → (append_acl_user x web p u known_permission_set ≡ ok q) ↔ (UserFits p u × (q ≡ added p u))
  unfolding append_acl_user
  append_acl_user-UserFits p u q =
      let both =
        step_iff (expand_permissions u.permissions known_permission_set) (dispatched p u)
          (granted u.permissions) q (expand_permissions-AreGrants u.permissions)
          (dispatched_iff p u q) in
      (λ h. let (g, (d, same)) = both.0 h in ((g, d), same), λ h. both.1 (h.0.0, (h.0.1, h.1)))

  -- The users fit one after the other.
  abbrev pub AllFit : Progress → List Text → List AclUser → Type 0
  AllFit p seen [] = Unit {0}
  AllFit p seen (u ∷ users) =
      (u.username ≢ [])
      × ((contains seen u.username ≡ false)
          × (UserFits p u × AllFit (added p u) (u.username ∷ seen) users))

  pub append_acl_users-AllFit :
      (p : Progress) (seen : List Text) (users : List AclUser) (acl : ParsedAcl)
      → (append_acl_users x web p seen users known_permission_set ≡ ok acl)
        ↔ (AllFit p seen users × (acl ≡ outcome p users))
  unfolding append_acl_users
  append_acl_users-AllFit p seen [] acl = last_iff p.out acl
  append_acl_users-AllFit p seen (u ∷ users) acl =
      let rest = append_acl_users-AllFit (added p u) (u.username ∷ seen) users acl in
      let typed =
        step_iff (append_acl_user x web p u known_permission_set)
          (λ next. append_acl_users x web next (u.username ∷ seen) users known_permission_set)
          (added p u) acl (append_acl_user-UserFits p u) rest in
      let fits : (_ ≡ ok acl) ↔ (
          (UserFits p u × AllFit (added p u) (u.username ∷ seen) users)
          × (acl ≡ outcome p (u ∷ users))) =
        (λ h. let (a, (b, c)) = typed.0 h in ((a, b), c), λ h. typed.1 (h.0.0, (h.0.1, h.1))) in
      check_iff {0, 0, 0} _ _ (outcome p (u ∷ users)) acl
        (iff_trans (guard-not-Passes (u.username == []) Problem.username_missing)
          (empty_iff u.username))
        (check_iff {0, 0, 0} _ _ (outcome p (u ∷ users)) acl
          (guard-not-Passes (contains seen u.username) Problem.username_repeated) fits)
