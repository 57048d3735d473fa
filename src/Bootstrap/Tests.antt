-- ===== src/Bootstrap/Tests.antt =====
-- An access file over concrete parsers, and files that are refused.
use citius_server.Prelude.{
  ◌≡◌, refl, ◌↔◌, true, false, none, some, [], ◌∷◌, ◌++◌, if◌then◌else◌, drop, ◌==◌, Text, codes,
  All, text_Eq,
}
use citius_server.Prelude.Int.{pos}
use citius_server.Bootstrap.Checked.{Problem, ok, refused}
use citius_server.Bootstrap.Types.{AclUser, AclWebApplication, AclFile, Parsers}
use citius_server.Bootstrap.Web.{
  has_prefix, is_loopback_host, normalize_parsed_web_uri, normalize_web_uri, validate_web_uris,
  validate_web_uri_set, validate_web_application,
}
use citius_server.Bootstrap.Users.{
  check_permissions, expand_permissions, validate_machine_user, uses_demo_identity_flags,
  check_field, environment_variable_name, machine_onboard_input, human_acl_input,
  validate_human_user, append_acl_user, append_acl_users, parse_acl, load_acl, user_count,
}
use citius_server.Bootstrap.Acceptable.{IsAcceptable, provided}
use citius_server.Bootstrap.Load.{IsSafeUri, load_acl-succeeds_iff, load_acl-IsSafeUri}
use citius_server.Auth.Config.{is_space, trim_left, trim_right, trim_space}

abbrev web : AclWebApplication
web = record {
  name = codes "console";
  redirect_uris = codes "https://a.b/in" ∷ codes "http://localhost" ∷ [];
  post_logout_redirect_uris = codes "https://a.b/out" ∷ [];
  enable_refresh_tokens = false;
  dev_mode = true;
}

abbrev service : AclUser
service = record {
  username = codes "svc";
  user_type = [];
  display_name = codes "Service";
  given_name = [];
  family_name = [];
  email = [];
  email_verified = none;
  password_env = [];
  password_change_required = none;
  permissions = codes "citius:keys:read" ∷ codes "citius:crypto:sign" ∷ [];
  key_access = none;
  policy_access = none;
}

abbrev person : AclUser
person = record {
  username = codes "ann";
  user_type = codes "human";
  display_name = codes "Ann";
  given_name = codes "Ann";
  family_name = codes "Lee";
  email = codes "Ann@x.y";
  email_verified = some true;
  password_env = codes "ANN_PW";
  password_change_required = none;
  permissions = codes "citius:policy:read" ∷ [];
  key_access = some (record { allow = codes "k/*" ∷ []; deny = [] });
  policy_access = none;
}

abbrev file : AclFile
file = record { version = pos 1; web_application = some web; users = service ∷ person ∷ [] }

-- A URL is a scheme and a host, and every file holds the same users.
abbrev parsers : Parsers
parsers = record {
  Rest = Unit {0};
  read_file = λ path. some path;
  decode = λ raw.
      some (record file {
        users = if raw == codes "twice" then service ∷ service ∷ [] else file.users;
      });
  parse_url = λ v.
      if has_prefix v (codes "https://")
      then some (record {
        scheme = codes "https";
        opaque = [];
        has_user = false;
        host = drop 8 v;
        rest = tt;
      })
      else (if has_prefix v (codes "http://")
          then some (record {
            scheme = codes "http";
            opaque = [];
            has_user = false;
            host = drop 7 v;
            rest = tt;
          })
          else none);
  hostname = λ host. host;
  port = λ host. [];
  string = λ url. url.scheme ++ url.host;
  parse_address = λ email. some email;
  is_loopback_ip = λ host. false;
}

accepted : load_acl parsers (codes "acl.yaml") ≡ ok (provided file)
unfolding load_acl parse_acl append_acl_users append_acl_user expand_permissions check_permissions
    validate_machine_user uses_demo_identity_flags check_field environment_variable_name
    machine_onboard_input human_acl_input validate_human_user validate_web_application
    validate_web_uri_set validate_web_uris normalize_web_uri normalize_parsed_web_uri
    is_loopback_host is_space trim_left trim_right trim_space
accepted = refl

repeated : load_acl parsers (codes "twice") ≡ refused Problem.username_repeated
unfolding load_acl parse_acl append_acl_users append_acl_user expand_permissions check_permissions
    validate_machine_user check_field machine_onboard_input validate_web_application
    validate_web_uri_set validate_web_uris normalize_web_uri normalize_parsed_web_uri
    is_loopback_host is_space trim_left trim_right trim_space
repeated = refl

two_users : user_count parsers (provided file) ≡ 2
unfolding user_count
two_users = refl

load_acl-succeeds_iff_example : (load_acl parsers (codes "acl.yaml") ≡ ok (provided file)) ↔ (
    (raw : Text) × (f : AclFile) × (some (codes "acl.yaml") ≡ some raw)
    × (parsers.decode raw ≡ some f)
    × IsAcceptable parsers f
    × (provided file ≡ provided f))
load_acl-succeeds_iff_example = load_acl-succeeds_iff parsers (codes "acl.yaml") (provided file)

load_acl-IsSafeUri_example :
    All (IsSafeUri parsers true) web.redirect_uris
    × All (IsSafeUri parsers true) web.post_logout_redirect_uris
load_acl-IsSafeUri_example =
    load_acl-IsSafeUri parsers (codes "acl.yaml") (provided file) web accepted refl
