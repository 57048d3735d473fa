-- ===== src/Bootstrap/Accepted.antt =====
-- loadACL accepts exactly the acceptable files, and gives what they provide.
use citius_server.Prelude.{
  ◌≡◌, refl, sym, ap, ◌∙◌, ◌≢◌, ◌↔◌, inl, inr, Bool, true, false, not, Option, none, some, List, [],
  ◌∷◌, ◌++◌, append_assoc, append-nil, arith, eqb, eqb_iff, Bool-cases, length, ◌==◌, Text,
  text_eq_iff, All, text_Eq,
}
use citius_server.Prelude.Int.{ℤ, pos, negsuc}
use citius_server.Bootstrap.Checked.{
  Problem, ok, guard, Passes, guard-Passes, >>=-eq-ok, check_iff, iff_trans, >>-eq-ok, both_pass,
}
use citius_server.Bootstrap.Types.{Access, AclUser, AclWebApplication, AclFile, ParsedAcl, Parsers}
use citius_server.Bootstrap.Web.{
  contains, normalize_web_uri, validate_web_uris, validate_web_uri_set, validate_web_application,
}
use citius_server.Bootstrap.Users.{
  key_access, or_else, machine_onboard_input, human_acl_input, Progress, check_web, is_one,
  parse_acl,
}
use citius_server.Auth.Config.{trim_space}
use citius_server.Bootstrap.Acceptable
use citius_server.Bootstrap.Acceptable.{
  is_human, IsTidy, AreDistinct, AreNormalForms, IsUriSet, IsWeb, IsAcceptableWeb, IsAcceptableUser,
  IsAcceptable, granted, patterns, verified, must_change, machine, human, machines, humans,
  provided,
}
use citius_server.Bootstrap.Fresh.{Fresh, Fresh-nil_iff, guard-not-Passes, trim_space_nil}
use citius_server.Bootstrap.LoadLaws.{FreshEmail, added, AllFit, outcome, append_acl_users-AllFit}

given_iff {ℓ} : {A : Type ℓ} (l : List A) → (eqb (length l) 0 ≡ false) ↔ (l ≢ [])
given_iff [] = (λ h. absurd (ground arith), λ h. absurd (h refl))
given_iff (a ∷ l) = (λ h e. cc, λ h. ground arith)

-- The two checks of a name are those of a field.
name_iff : (v : Text) → ((trim_space v == [] ≡ false) × (v == trim_space v ≡ true)) ↔ IsTidy v
name_iff v = (
  λ h.
      let same : trim_space v ≡ v = sym ((text_eq_iff v (trim_space v)).0 h.1) in
      (λ (e : v ≡ []). ground (arith, text_eq_iff (trim_space v) [], trim_space_nil), same),
  λ h. (
    ground (arith, text_eq_iff (trim_space v) [], h.0),
    (text_eq_iff v (trim_space v)).1 (sym h.1),
  ),
)

module _ (x : Parsers) where
  -- The loop over URIs.
  validate_web_uris-AreNormalForms :
      (seen vs : List Text) (dev : Bool)
      → Passes (validate_web_uris x seen vs dev)
        ↔ ((ns : List Text) × AreNormalForms x dev vs ns × Fresh seen ns)
  unfolding validate_web_uris
  validate_web_uris-AreNormalForms seen [] dev = (λ h. ([], tt, tt), λ h. refl)
  validate_web_uris-AreNormalForms seen (v ∷ vs) dev = (
    λ h.
        let (n, e, h1) = >>=-eq-ok (normalize_web_uri x v dev) _ h in
        let (new, h2) =
          (>>-eq-ok (guard (not (contains seen n)) Problem.uri_repeated)
              (validate_web_uris x (n ∷ seen) vs dev) tt).0
            h1 in
        let (ns, forms, fresh) = (validate_web_uris-AreNormalForms (n ∷ seen) vs dev).0 h2 in
        (n ∷ ns, (e, forms), ((guard-not-Passes (contains seen n) _).0 new, fresh)),
    λ h. passes (λ n ns. (validate_web_uris-AreNormalForms (n ∷ seen) vs dev).1 ns) h.0 h.1 h.2,
  )
    where
      passes :
          ((n : Text)
            → ((ns : List Text) × AreNormalForms x dev vs ns × Fresh (n ∷ seen) ns)
            → Passes (validate_web_uris x (n ∷ seen) vs dev))
          → (ns : List Text) → AreNormalForms x dev (v ∷ vs) ns
          → Fresh seen ns
          → Passes (validate_web_uris x seen (v ∷ vs) dev)
      passes rest [] forms fresh = absurd forms
      passes rest (n ∷ ns) forms fresh = rw (forms.0, fresh.0) (rest n (ns, forms.1, fresh.1))

  validate_web_uri_set-IsUriSet :
      (vs : List Text) (dev : Bool) → Passes (validate_web_uri_set x vs dev) ↔ IsUriSet x dev vs
  unfolding validate_web_uri_set
  validate_web_uri_set-IsUriSet vs dev =
      let both = validate_web_uris-AreNormalForms [] vs dev in
      (
        λ h. let (ns, forms, fresh) = both.0 h in (ns, forms, (Fresh-nil_iff ns).0 fresh),
        λ h. both.1 (h.0, h.1, (Fresh-nil_iff h.0).1 h.2),
      )

  validate_web_application-IsWeb :
      (app : AclWebApplication) → Passes (validate_web_application x app) ↔ IsWeb x app
  unfolding validate_web_application
  validate_web_application-IsWeb app =
      let all =
        both_pass (guard (not (trim_space app.name == [])) Problem.name_missing) _
          (guard-not-Passes (trim_space app.name == []) _)
          (both_pass (guard (app.name == trim_space app.name) Problem.name_untidy) _
            (guard-Passes (app.name == trim_space app.name) _)
            (both_pass (guard (not (eqb (length app.redirect_uris) 0)) Problem.redirect_missing) _
              (iff_trans (guard-not-Passes (eqb (length app.redirect_uris) 0) _)
                (given_iff app.redirect_uris))
              (both_pass (validate_web_uri_set x app.redirect_uris app.dev_mode) _
                (validate_web_uri_set-IsUriSet app.redirect_uris app.dev_mode)
                (validate_web_uri_set-IsUriSet app.post_logout_redirect_uris app.dev_mode)))) in
      (
        λ h.
            let (missing, (untidy, (given, (first, second)))) = all.0 h in
            record {
              name = (name_iff app.name).0 (missing, untidy);
              redirects_given = given;
              redirect_uris = first;
              post_logout_redirect_uris = second;
            },
        λ w.
            let name = (name_iff app.name).1 w.name in
            all.1 (
              name.0,
              (name.1, (w.redirects_given, (w.redirect_uris, w.post_logout_redirect_uris))),
            ),
      )

-- The emails of a list are fresh if that of its first user is, and those of the others then are.
Fresh-emails :
    (p : Progress) (u : AclUser) (users : List AclUser)
    → Fresh p.seen_emails (Acceptable.emails (u ∷ users))
      ↔ (FreshEmail p.seen_emails u × Fresh (added p u).seen_emails (Acceptable.emails users))
Fresh-emails p u users = elim (Bool-cases (is_human u)) [
  | inl f ↦ rw f (λ h. (λ g. h.0, h.1), λ h. (h.0 refl, h.1))
  | inr f ↦ rw f (λ h. (λ g. absurd (cc), h), λ h. h.1)
]

module _ (x : Parsers) (web : Option AclWebApplication) where
  -- The texts of the users, each fresh for those before it.
  AllFit-iff :
      (p : Progress) (seen : List Text) (users : List AclUser)
      → AllFit x web p seen users ↔ (
          All (IsAcceptableUser x web) users
          × (Fresh seen (Acceptable.usernames users)
              × Fresh p.seen_emails (Acceptable.emails users)))
  AllFit-iff p seen [] = (λ h. (tt, (tt, tt)), λ h. tt)
  AllFit-iff p seen (u ∷ users) =
      let rest = AllFit-iff (added p u) (u.username ∷ seen) users in
      (
        λ h.
            let (given, (new, ((grants, (typed, email)), all))) = h in
            let (each, (names, mails)) = rest.0 all in
            let user : IsAcceptableUser x web u = record {
              username = given;
              permissions = grants;
              of_type = typed;
            } in
            ((user, each), ((new, names), (Fresh-emails p u users).1 (email, mails))),
        λ h.
            let ((user, each), ((new, names), mails)) = h in
            let (email, more) = (Fresh-emails p u users).0 mails in
            (
              user.username,
              (new, ((user.permissions, (user.of_type, email)), rest.1 (each, (names, more)))),
            ),
      )

key_access_lem : (o : Option Access) → key_access o ≡ patterns o
key_access_lem none = refl
key_access_lem (some block) = refl

verified_lem : (o : Option Bool) → or_else false o ≡ verified o
verified_lem none = refl
verified_lem (some true) = refl
verified_lem (some false) = refl

must_change_lem : (o : Option Bool) → or_else true o ≡ must_change o
must_change_lem none = refl
must_change_lem (some true) = refl
must_change_lem (some false) = refl

machine_onboard_input-machine :
    (u : AclUser) → machine_onboard_input u (granted u.permissions) ≡ machine u
unfolding machine_onboard_input
machine_onboard_input-machine u = simp (key_access_lem)

human_acl_input-human : (u : AclUser) → human_acl_input u (granted u.permissions) ≡ human u
unfolding human_acl_input
human_acl_input-human u = simp (key_access_lem, verified_lem, must_change_lem)

outcome_provided :
    (p : Progress) (users : List AclUser)
    → outcome p users ≡ record p.out {
      machine_users = p.out.machine_users ++ machines users;
      human_users = p.out.human_users ++ humans users;
    }
outcome_provided p [] = simp (append-nil)
outcome_provided p (u ∷ users) =
    let rest = outcome_provided (added p u) users in
    elim (Bool-cases (is_human u)) [
      | inl f ↦ rest ∙ simp (f, machine_onboard_input-machine, human_acl_input-human, append_assoc)
      | inr f ↦ rest ∙ simp (f, machine_onboard_input-machine, human_acl_input-human, append_assoc)
    ]

module _ (x : Parsers) where
  check_web-IsAcceptableWeb :
      (web : Option AclWebApplication) → Passes (check_web x web) ↔ IsAcceptableWeb x web
  check_web-IsAcceptableWeb none = (λ h. tt, λ h. refl)
  check_web-IsAcceptableWeb (some app) = validate_web_application-IsWeb x app

  is_one_iff : (n : ℤ) → (is_one n ≡ true) ↔ (n ≡ pos 1)
  is_one_iff (pos n) = (λ h. ap pos ((eqb_iff n 1).0 h), λ h. ground arith)
  is_one_iff (negsuc n) = (λ h. absurd (cc), λ h. absurd (cc))

  abbrev start : AclFile → Progress
  start f = record {
    out = record { web_application = f.web_application; machine_users = []; human_users = [] };
    seen_emails = [];
  }

  pub parse_acl-IsAcceptable :
      (f : AclFile) (acl : ParsedAcl)
      → (parse_acl x f ≡ ok acl) ↔ (IsAcceptable x f × (acl ≡ provided f))
  unfolding parse_acl
  parse_acl-IsAcceptable f acl =
      let users = append_acl_users-AllFit x f.web_application (start f) [] f.users acl in
      let all =
        check_iff {0, 0, 0} (guard (is_one f.version) Problem.unsupported_version) _ _ acl
          (iff_trans (guard-Passes (is_one f.version) _) (is_one_iff f.version))
          (check_iff {0, 0, 0} (guard (not (eqb (length f.users) 0)) Problem.no_users) _ _ acl
            (iff_trans (guard-not-Passes (eqb (length f.users) 0) _) (given_iff f.users))
            (check_iff {0, 0, 0} (check_web x f.web_application) _ (outcome (start f) f.users) acl
              (check_web-IsAcceptableWeb f.web_application) users)) in
      let fit = AllFit-iff x f.web_application (start f) [] f.users in
      let result : outcome (start f) f.users ≡ provided f = outcome_provided (start f) f.users in
      (
        λ h.
            let ((one, (given, (web, fits))), same) = all.0 h in
            let (each, (names, mails)) = fit.0 fits in
            (
              record {
                version = one;
                users_given = given;
                web = web;
                users = each;
                usernames = (Fresh-nil_iff _).0 names;
                emails = (Fresh-nil_iff _).0 mails;
              },
              same ∙ result,
            ),
        λ h.
            let a = h.0 in
            let fits =
              fit.1 (a.users, ((Fresh-nil_iff _).1 a.usernames, (Fresh-nil_iff _).1 a.emails)) in
            all.1 ((a.version, (a.users_given, (a.web, fits))), h.1 ∙ sym result),
      )
