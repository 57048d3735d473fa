-- ===== src/Bootstrap/Acceptable.antt =====
-- Which access files are acceptable, and what they provide, said without the order of the checks.
use citius_server.Prelude.{
  ◌≤◌, ℕ, map, ◌≡◌, ◌≢◌, ◌⊎◌, Bool, true, false, Option, none, some, List, [], ◌∷◌, if◌then◌else◌,
  ◌==◌, Text, codes, All, text_Eq,
}
use citius_server.Prelude.Int.{pos}
use citius_server.Bootstrap.Checked.{ok}
use citius_server.Bootstrap.Types.{
  Access, AclUser, AclWebApplication, AclFile, OnboardInput, AclHumanUser, ParsedAcl, Parsers,
}
use citius_server.Bootstrap.Web.{to_lower, normalize_web_uri}
use citius_server.Auth.Config.{trim_space}
use citius_server.Auth.Registry.{Permission, claim, all_permissions}
use citius_server.Grpc.Sorting.{sort}

-- Not empty and with no white space around it.
abbrev pub IsTidy : Text → Type 0
IsTidy v = (v ≢ []) × (trim_space v ≡ v)

-- The text names a permission of internal/auth.
abbrev pub IsClaim : Text → Type 0
IsClaim p = (q : Permission) × (p ≡ claim q)

-- A list of permissions, or the single `*`.
abbrev pub AreGrants : List Text → Type 0
AreGrants ps = (ps ≡ codes "*" ∷ []) ⊎ All IsClaim ps

-- The permissions that a list stands for: `*` alone, for all of them in ascending order.
abbrev pub granted : List Text → List Text
granted [] = []
granted (p ∷ []) = if p == codes "*" then sort (λ q. q) (map claim all_permissions) else p ∷ []
granted (p ∷ q ∷ ps) = p ∷ q ∷ ps

-- A user with nothing that only a human user has.
pub record IsMachine (u : AclUser) : Type 0 where
  pub given_name : u.given_name ≡ []
  pub family_name : u.family_name ≡ []
  pub email : u.email ≡ []
  pub email_verified : u.email_verified ≡ none
  pub password_env : u.password_env ≡ []
  pub password_change_required : u.password_change_required ≡ none

abbrev pub IsDev : Option AclWebApplication → Type 0
IsDev web = (app : AclWebApplication) × (web ≡ some app) × (app.dev_mode ≡ true)

-- The email is taken as verified without a check, or the first password may be kept.
abbrev pub IsDemo : AclUser → Type 0
IsDemo u = (u.email_verified ≡ some true) ⊎ (u.password_change_required ≡ some false)

abbrev pub IsLetter : ℕ → Type 0
IsLetter c = (((b'A' ≤ c) × (c ≤ b'Z')) ⊎ ((b'a' ≤ c) × (c ≤ b'z'))) ⊎ (c ≡ b'_')

abbrev pub IsDigit : ℕ → Type 0
IsDigit c = (b'0' ≤ c) × (c ≤ b'9')

-- A letter or underscore, and then letters, underscores and digits.
abbrev pub IsVariable : Text → Type 0
IsVariable [] = ⊥
IsVariable (c ∷ s) = IsLetter c × All (λ d. IsLetter d ⊎ IsDigit d) s

pub record IsHuman (x : Parsers) (web : Option AclWebApplication) (u : AclUser) : Type 0 where
  pub username : IsTidy u.username
  pub given_name : IsTidy u.given_name
  pub family_name : IsTidy u.family_name
  pub email : IsTidy u.email
  pub password_env : IsTidy u.password_env
  pub address : x.parse_address u.email ≡ some u.email
  pub variable : IsVariable u.password_env
  pub demo : IsDemo u → IsDev web

abbrev pub is_human : AclUser → Bool
is_human u = u.user_type == codes "human"

-- A user of one of the two types, by what is asked of it.
abbrev pub IsOfType : Parsers → Option AclWebApplication → AclUser → Type 0
IsOfType x web u =
    (((u.user_type ≡ []) ⊎ (u.user_type ≡ codes "machine")) × IsMachine u)
    ⊎ ((u.user_type ≡ codes "human") × IsHuman x web u)

pub record IsAcceptableUser (x : Parsers) (web : Option AclWebApplication) (u : AclUser)
    : Type 0 where
  pub username : u.username ≢ []
  pub permissions : AreGrants u.permissions
  pub of_type : IsOfType x web u

abbrev pub AreDistinct : List Text → Type 0
AreDistinct [] = Unit {0}
AreDistinct (t ∷ ts) = All (λ s. s ≢ t) ts × AreDistinct ts

abbrev pub usernames : List AclUser → List Text
usernames [] = []
usernames (u ∷ users) = u.username ∷ usernames users

-- The emails of the human users, in lower case.
abbrev pub emails : List AclUser → List Text
emails [] = []
emails (u ∷ users) = if is_human u then to_lower u.email ∷ emails users else emails users

-- The texts of the second list are the normal forms of the URIs of the first one.
abbrev pub AreNormalForms : Parsers → Bool → List Text → List Text → Type 0
AreNormalForms x dev_mode [] [] = Unit {0}
AreNormalForms x dev_mode [] (n ∷ ns) = ⊥
AreNormalForms x dev_mode (v ∷ vs) [] = ⊥
AreNormalForms x dev_mode (v ∷ vs) (n ∷ ns) =
    (normalize_web_uri x v dev_mode ≡ ok n) × AreNormalForms x dev_mode vs ns

-- URIs with a normal form each, no two of which are equal.
abbrev pub IsUriSet : Parsers → Bool → List Text → Type 0
IsUriSet x dev_mode vs = (ns : List Text) × AreNormalForms x dev_mode vs ns × AreDistinct ns

pub record IsWeb (x : Parsers) (app : AclWebApplication) : Type 0 where
  pub name : IsTidy app.name
  pub redirects_given : app.redirect_uris ≢ []
  pub redirect_uris : IsUriSet x app.dev_mode app.redirect_uris
  pub post_logout_redirect_uris : IsUriSet x app.dev_mode app.post_logout_redirect_uris

abbrev pub IsAcceptableWeb : Parsers → Option AclWebApplication → Type 0
IsAcceptableWeb x none = Unit {0}
IsAcceptableWeb x (some app) = IsWeb x app

pub record IsAcceptable (x : Parsers) (f : AclFile) : Type 0 where
  pub version : f.version ≡ pos 1
  pub users_given : f.users ≢ []
  pub web : IsAcceptableWeb x f.web_application
  pub users : All (IsAcceptableUser x f.web_application) f.users
  pub usernames : AreDistinct (usernames f.users)
  pub emails : AreDistinct (emails f.users)

-- The patterns of an optional block: none without one.
abbrev pub patterns : Option Access → Access
patterns none = record { allow = []; deny = [] }
patterns (some block) = record { allow = block.allow; deny = block.deny }

-- Only an explicit `true` marks an email as verified.
abbrev pub verified : Option Bool → Bool
verified (some true) = true
verified (some false) = false
verified none = false

-- Only an explicit `false` lets the first password be kept.
abbrev pub must_change : Option Bool → Bool
must_change (some false) = false
must_change (some true) = true
must_change none = true

-- What a user provides, field by field.
abbrev pub machine : AclUser → OnboardInput
machine u = record {
  username = u.username;
  display_name = u.display_name;
  permissions = granted u.permissions;
  key_access = patterns u.key_access;
  policy_access = patterns u.policy_access;
}

abbrev pub human : AclUser → AclHumanUser
human u = record {
  username = u.username;
  display_name = u.display_name;
  given_name = u.given_name;
  family_name = u.family_name;
  email = u.email;
  email_verified = verified u.email_verified;
  password_env = u.password_env;
  password_change_required = must_change u.password_change_required;
  permissions = granted u.permissions;
  key_access = patterns u.key_access;
  policy_access = patterns u.policy_access;
}

-- The users of each type, in the order of the file, with the permissions that they are granted.
abbrev pub machines : List AclUser → List OnboardInput
machines [] = []
machines (u ∷ users) = if is_human u then machines users else machine u ∷ machines users

abbrev pub humans : List AclUser → List AclHumanUser
humans [] = []
humans (u ∷ users) = if is_human u then human u ∷ humans users else humans users

abbrev pub provided : AclFile → ParsedAcl
provided f = record {
  web_application = f.web_application;
  machine_users = machines f.users;
  human_users = humans f.users;
}
