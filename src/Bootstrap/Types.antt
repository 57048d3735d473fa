-- ===== src/Bootstrap/Types.antt =====
-- bootstrap/zitadel/setup-auth/acl.go: the access file, as it is decoded, and what is made of it.
use citius_server.Prelude.Int.{ℤ}
use citius_server.Prelude.{Bool, Option, List, Text}

-- `aclAccessBlock`, and `admin.KeyAccess` and `admin.PolicyAccess`: patterns that allow and deny.
pub record Access : Type 0 where
  pub allow : List Text
  pub deny : List Text

-- `aclUser`
pub record AclUser : Type 0 where
  pub username : Text
  pub user_type : Text
  pub display_name : Text
  pub given_name : Text
  pub family_name : Text
  pub email : Text
  pub email_verified : Option Bool
  pub password_env : Text
  pub password_change_required : Option Bool
  pub permissions : List Text
  pub key_access : Option Access
  pub policy_access : Option Access

-- `aclWebApplication`
pub record AclWebApplication : Type 0 where
  pub name : Text
  pub redirect_uris : List Text
  pub post_logout_redirect_uris : List Text
  pub enable_refresh_tokens : Bool
  pub dev_mode : Bool

-- `aclFile`
pub record AclFile : Type 0 where
  pub version : ℤ
  pub web_application : Option AclWebApplication
  pub users : List AclUser

-- `admin.OnboardInput`
pub record OnboardInput : Type 0 where
  pub username : Text
  pub display_name : Text
  pub permissions : List Text
  pub key_access : Access
  pub policy_access : Access

-- `aclHumanUser`
pub record AclHumanUser : Type 0 where
  pub username : Text
  pub display_name : Text
  pub given_name : Text
  pub family_name : Text
  pub email : Text
  pub email_verified : Bool
  pub password_env : Text
  pub password_change_required : Bool
  pub permissions : List Text
  pub key_access : Access
  pub policy_access : Access

-- `parsedACL`
pub record ParsedAcl : Type 0 where
  pub web_application : Option AclWebApplication
  pub machine_users : List OnboardInput
  pub human_users : List AclHumanUser

-- A URL, as `net/url` parses it; `rest` is what the code does not read.
pub record Url (Rest : Type 0) : Type 0 where
  pub scheme : Text
  pub opaque : Text
  pub has_user : Bool
  pub host : Text
  pub rest : Rest

-- What the code calls: the file and the YAML decoder, `net/url`, `net/mail` and `net.ParseIP`.
pub record Parsers : Type 1 where
  pub Rest : Type 0
  pub read_file : Text → Option Text
  pub decode : Text → Option AclFile
  pub parse_url : Text → Option (Url Rest)
  -- `Hostname()` and `Port()` of a URL's host.
  pub hostname : Text → Text
  pub port : Text → Text
  pub string : Url Rest → Text
  -- The address in `mail.ParseAddress`.
  pub parse_address : Text → Option Text
  -- The text is an IP address, of the loopback.
  pub is_loopback_ip : Text → Bool
