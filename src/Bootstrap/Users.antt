-- ===== src/Bootstrap/Users.antt =====
-- bootstrap/zitadel/setup-auth/acl.go: the users, and the access file as a whole.
use citius_server.Prelude.{
  ℕ, ◌+◌, Bool, true, false, not, ◌&&◌, ◌||◌, Option, none, some, List, [], ◌∷◌, ◌++◌, map, leb,
  eqb, if◌then◌else◌, length, ◌==◌, Text, codes, text_Eq,
}
use citius_server.Prelude.Int.{ℤ, pos, negsuc}
use citius_server.Bootstrap.Checked.{Problem, Checked, ok, refused, ◌>>=◌, ◌>>◌, guard}
use citius_server.Bootstrap.Types.{
  Access, AclUser, AclWebApplication, AclFile, OnboardInput, AclHumanUser, ParsedAcl, Parsers,
}
use citius_server.Bootstrap.Web.{to_lower, contains, validate_web_application}
use citius_server.Auth.Config.{trim_space}
use citius_server.Auth.Registry.{claim, all_permissions}
use citius_server.Grpc.Sorting.{sort}

-- `knownPermissionSet`. The catalog of operations.go spells out the texts, in the order, of the
-- permissions of internal/auth.
abbrev pub known_permission_set : List Text
known_permission_set = map claim all_permissions

abbrev pub star : Text
star = codes "*"

-- The loop over permissions that are not the single `*`.
unfoldable pub check_permissions : List Text → List Text → Checked (Unit {0})
check_permissions [] known = ok tt
check_permissions (p ∷ ps) known = do
  guard (not (p == star)) Problem.wildcard_not_alone
  guard (contains known p) Problem.permission_unknown
  check_permissions ps known

abbrev pub is_wildcard : List Text → Bool
is_wildcard [] = false
is_wildcard (p ∷ []) = p == star
is_wildcard (p ∷ q ∷ ps) = false

unfoldable pub expand_permissions : List Text → List Text → Checked (List Text)
expand_permissions given known =
    if is_wildcard given
    then ok (sort (λ p. p) known)
    else check_permissions given known >> ok given

abbrev pub is_set {ℓ} : {A : Type ℓ} → Option A → Bool
is_set none = false
is_set (some a) = true

unfoldable pub validate_machine_user : AclUser → Checked (Unit {0})
validate_machine_user u =
    guard
      (not (
        not (u.given_name == [])
        || not (u.family_name == [])
        || not (u.email == [])
        || is_set u.email_verified
        || not (u.password_env == [])
        || is_set u.password_change_required))
      Problem.human_fields

abbrev pub is_some_of : Bool → Option Bool → Bool
is_some_of b none = false
is_some_of b (some true) = b
is_some_of b (some false) = not b

unfoldable pub uses_demo_identity_flags : AclUser → Bool
uses_demo_identity_flags u =
    is_some_of true u.email_verified || is_some_of false u.password_change_required

abbrev pub in_dev_mode : Option AclWebApplication → Bool
in_dev_mode none = false
in_dev_mode (some app) = app.dev_mode

-- A text that is not blank and that no white space surrounds.
unfoldable pub check_field : Text → Checked (Unit {0})
check_field value = do
  guard (not (trim_space value == [])) Problem.field_missing
  guard (value == trim_space value) Problem.field_untidy

-- `^[A-Za-z_][A-Za-z0-9_]*$`
abbrev pub letter : ℕ → Bool
letter c = (leb b'A' c && leb c b'Z') || (leb b'a' c && leb c b'z') || eqb c b'_'

abbrev pub letters_or_digits : Text → Bool
letters_or_digits [] = true
letters_or_digits (c ∷ s) = (letter c || (leb b'0' c && leb c b'9')) && letters_or_digits s

unfoldable pub environment_variable_name : Text → Bool
environment_variable_name [] = false
environment_variable_name (c ∷ s) = letter c && letters_or_digits s

abbrev pub key_access : Option Access → Access
key_access none = record { allow = []; deny = [] }
key_access (some block) = block

unfoldable pub machine_onboard_input : AclUser → List Text → OnboardInput
machine_onboard_input u permissions = record {
  username = u.username;
  display_name = u.display_name;
  permissions = permissions;
  key_access = key_access u.key_access;
  policy_access = key_access u.policy_access;
}

abbrev pub or_else {ℓ} : {A : Type ℓ} → A → Option A → A
or_else a none = a
or_else a (some b) = b

unfoldable pub human_acl_input : AclUser → List Text → AclHumanUser
human_acl_input u permissions = record {
  username = u.username;
  display_name = u.display_name;
  given_name = u.given_name;
  family_name = u.family_name;
  email = u.email;
  email_verified = or_else false u.email_verified;
  password_env = u.password_env;
  password_change_required = or_else true u.password_change_required;
  permissions = permissions;
  key_access = key_access u.key_access;
  policy_access = key_access u.policy_access;
}

-- What the loop over the users carries: the result so far, and the emails that were seen.
pub record Progress : Type 0 where
  pub out : ParsedAcl
  pub seen_emails : List Text

abbrev pub add_machine_user : Progress → OnboardInput → Progress
add_machine_user p u = record p {
  out = record p.out { machine_users = p.out.machine_users ++ u ∷ [] };
}

abbrev pub add_human_user : Progress → AclHumanUser → Text → Progress
add_human_user p u email = record {
  out = record p.out { human_users = p.out.human_users ++ u ∷ [] };
  seen_emails = email ∷ p.seen_emails;
}

abbrev pub address_ok : Option Text → Text → Bool
address_ok none email = false
address_ok (some address) email = address == email

module _ (x : Parsers) (web : Option AclWebApplication) where
  -- The key of the email, which is to be added to the ones that were seen.
  unfoldable pub validate_human_user : AclUser → List Text → Checked Text
  validate_human_user u seen_emails = do
    check_field u.username
    check_field u.given_name
    check_field u.family_name
    check_field u.email
    check_field u.password_env
    guard (address_ok (x.parse_address u.email) u.email) Problem.email_invalid
    guard (not (contains seen_emails (to_lower u.email))) Problem.email_repeated
    guard (environment_variable_name u.password_env) Problem.variable_invalid
    guard (not (uses_demo_identity_flags u && not (in_dev_mode web))) Problem.demo_flags
    ok (to_lower u.email)

  abbrev pub append_machine : Progress → AclUser → List Text → Checked Progress
  append_machine p u permissions = do
    validate_machine_user u
    ok (add_machine_user p (machine_onboard_input u permissions))

  abbrev pub append_human : Progress → AclUser → List Text → Checked Progress
  append_human p u permissions = do
    email ← validate_human_user u p.seen_emails
    ok (add_human_user p (human_acl_input u permissions) email)

  unfoldable pub append_acl_user : Progress → AclUser → List Text → Checked Progress
  append_acl_user p u known = do
    permissions ← expand_permissions u.permissions known
    if u.user_type == [] || u.user_type == codes "machine"
        then append_machine p u permissions
        else (if u.user_type == codes "human"
            then append_human p u permissions
            else refused Problem.user_type_unknown)

  -- The loop over the users, with the usernames that were seen.
  unfoldable pub append_acl_users :
      Progress → List Text → List AclUser → List Text → Checked ParsedAcl
  append_acl_users p seen_users [] known = ok p.out
  append_acl_users p seen_users (u ∷ users) known = do
    guard (not (u.username == [])) Problem.username_missing
    guard (not (contains seen_users u.username)) Problem.username_repeated
    next ← append_acl_user p u known
    append_acl_users next (u.username ∷ seen_users) users known

abbrev pub is_one : ℤ → Bool
is_one (pos n) = eqb n 1
is_one (negsuc n) = false

module _ (x : Parsers) where
  abbrev pub check_web : Option AclWebApplication → Checked (Unit {0})
  check_web none = ok tt
  check_web (some app) = validate_web_application x app

  abbrev pub present {ℓ} : {A : Type ℓ} → Problem → Option A → Checked A
  present problem none = refused problem
  present problem (some a) = ok a

  unfoldable pub parse_acl : AclFile → Checked ParsedAcl
  parse_acl f = do
    guard (is_one f.version) Problem.unsupported_version
    guard (not (eqb (length f.users) 0)) Problem.no_users
    check_web f.web_application
    append_acl_users x f.web_application
        (record {
          out = record {
            web_application = f.web_application;
            machine_users = [];
            human_users = [];
          };
          seen_emails = [];
        })
        [] f.users known_permission_set

  unfoldable pub load_acl : Text → Checked ParsedAcl
  load_acl path = do
    raw ← present Problem.unreadable (x.read_file path)
    f ← present Problem.unparsed (x.decode raw)
    parse_acl f

  -- `userCount`
  unfoldable pub user_count : ParsedAcl → ℕ
  user_count a = length a.machine_users + length a.human_users
