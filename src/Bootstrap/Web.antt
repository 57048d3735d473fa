-- ===== src/Bootstrap/Web.antt =====
-- bootstrap/zitadel/setup-auth/acl.go: the web application and its URIs.
use citius_server.Prelude.{
  ◌+◌, Bool, true, false, not, ◌&&◌, ◌||◌, Option, none, some, List, [], ◌∷◌, ◌++◌, leb, eqb,
  if◌then◌else◌, length, ◌==◌, Text, codes, text_Eq,
}
use citius_server.Bootstrap.Checked.{Problem, Checked, ok, refused, ◌>>=◌, ◌>>◌, guard}
use citius_server.Bootstrap.Types.{AclWebApplication, Url, Parsers}
use citius_server.Auth.Config.{trim_space}

-- `strings.ToLower`, for ASCII.
abbrev pub to_lower : Text → Text
to_lower [] = []
to_lower (c ∷ s) = (if leb b'A' c && leb c b'Z' then c + 32 else c) ∷ to_lower s

abbrev pub has_prefix : Text → Text → Bool
has_prefix s [] = true
has_prefix [] (d ∷ t) = false
has_prefix (c ∷ s) (d ∷ t) = eqb c d && has_prefix s t

-- `strings.Contains`
abbrev pub contains_text : Text → Text → Bool
contains_text [] t = has_prefix [] t
contains_text (c ∷ s) t = has_prefix (c ∷ s) t || contains_text s t

-- A set of texts, as the list of its elements.
abbrev pub contains : List Text → Text → Bool
contains [] t = false
contains (s ∷ seen) t = s == t || contains seen t

-- `net.JoinHostPort`
abbrev pub join_host_port : Text → Text → Text
join_host_port host port =
    if contains_text host (codes ":")
    then codes "[" ++ (host ++ (codes "]:" ++ port))
    else host ++ (codes ":" ++ port)

module _ (x : Parsers) where
  unfoldable pub is_loopback_host : Text → Bool
  is_loopback_host host = host == codes "localhost" || x.is_loopback_ip host

  -- The host of the normalized URI, from its name in lower case and its port.
  abbrev pub host_of : Text → Text → Text
  host_of hostname port =
      if not (port == [])
      then join_host_port hostname port
      else (if contains_text hostname (codes ":")
          then codes "[" ++ (hostname ++ codes "]")
          else hostname)

  unfoldable pub normalize_parsed_web_uri : Url x.Rest → Bool → Checked Text
  unfolding is_loopback_host
  normalize_parsed_web_uri parsed dev_mode = do
    guard (not (parsed.scheme == [] || parsed.host == [] || not (parsed.opaque == [])))
        Problem.uri_relative
    guard (not parsed.has_user) Problem.uri_user
    let scheme = to_lower parsed.scheme
    let hostname = to_lower (x.hostname parsed.host)
    guard (not (hostname == [])) Problem.uri_hostless
    guard
        (scheme == codes "https"
          || (scheme == codes "http" && dev_mode && is_loopback_host hostname))
        Problem.uri_not_https
    ok (x.string (record parsed { scheme = scheme; host = host_of hostname (x.port parsed.host) }))

  abbrev pub parsed_uri : Option (Url x.Rest) → Bool → Checked Text
  parsed_uri none dev_mode = refused Problem.uri_invalid
  parsed_uri (some parsed) dev_mode = normalize_parsed_web_uri parsed dev_mode

  unfoldable pub normalize_web_uri : Text → Bool → Checked Text
  unfolding normalize_parsed_web_uri
  normalize_web_uri value dev_mode = do
    guard (not (value == []) && value == trim_space value) Problem.uri_untidy
    guard (not (contains_text value (codes "*") || contains_text (to_lower value) (codes "%2a")))
        Problem.uri_wildcard
    guard (not (contains_text value (codes "#"))) Problem.uri_fragment
    parsed_uri (x.parse_url value) dev_mode

  -- The loop, with the normalized URIs that were seen.
  unfoldable pub validate_web_uris : List Text → List Text → Bool → Checked (Unit {0})
  validate_web_uris seen [] dev_mode = ok tt
  validate_web_uris seen (value ∷ values) dev_mode = do
    normalized ← normalize_web_uri value dev_mode
    guard (not (contains seen normalized)) Problem.uri_repeated
    validate_web_uris (normalized ∷ seen) values dev_mode

  unfoldable pub validate_web_uri_set : List Text → Bool → Checked (Unit {0})
  unfolding validate_web_uris
  validate_web_uri_set values dev_mode = validate_web_uris [] values dev_mode

  unfoldable pub validate_web_application : AclWebApplication → Checked (Unit {0})
  validate_web_application app = do
    guard (not (trim_space app.name == [])) Problem.name_missing
    guard (app.name == trim_space app.name) Problem.name_untidy
    guard (not (eqb (length app.redirect_uris) 0)) Problem.redirect_missing
    validate_web_uri_set app.redirect_uris app.dev_mode
    validate_web_uri_set app.post_logout_redirect_uris app.dev_mode
