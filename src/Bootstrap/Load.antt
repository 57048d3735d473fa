-- ===== src/Bootstrap/Load.antt =====
-- What loadACL accepts, and what the URIs of an accepted web application are.
use citius_server.Prelude.{
  ◌≡◌, refl, sym, ap, ◌∙◌, subst, ◌≢◌, ◌↔◌, ◌⊎◌, inl, inr, Bool, true, false, not, ◌&&◌, ◌||◌,
  Option, none, some, List, [], ◌∷◌, arith, Bool-cases, Option-cases, ◌==◌, Text, codes,
  text_eq_iff, All, text_Eq,
}
use citius_server.Auth.Config.{trim_space}
use citius_server.Bootstrap.Checked.{Problem, ok, guard, guard-Passes, >>=-eq-ok, >>-eq-ok}
use citius_server.Bootstrap.Types.{AclWebApplication, AclFile, ParsedAcl, Url, Parsers}
use citius_server.Bootstrap.Web.{
  to_lower, contains_text, is_loopback_host, normalize_parsed_web_uri, normalize_web_uri,
}
use citius_server.Bootstrap.Users.{present, load_acl}
use citius_server.Bootstrap.Acceptable.{
  AreNormalForms, IsUriSet, IsAcceptableWeb, IsAcceptable, provided,
}
use citius_server.Bootstrap.Fresh.{guard-not-Passes}
use citius_server.Bootstrap.Accepted.{parse_acl-IsAcceptable}

-- The name of the host itself, or an address of it.
abbrev pub IsLoopback : Parsers → Text → Type 0
IsLoopback x host = (host ≡ codes "localhost") ⊎ (x.is_loopback_ip host ≡ true)

-- An absolute URL over HTTPS, or in development over HTTP to the host itself, to a named host and with
-- no white space around it, user, wildcard (plain or escaped) or fragment.
pub record IsSafeUri (x : Parsers) (dev : Bool) (v : Text) : Type 0 where
  pub tidy : (v ≢ []) × (trim_space v ≡ v)
  pub url : Url x.Rest
  pub parsed : x.parse_url v ≡ some url
  pub secure :
      (to_lower url.scheme ≡ codes "https")
      ⊎ ((to_lower url.scheme ≡ codes "http")
          × (dev ≡ true)
          × IsLoopback x (to_lower (x.hostname url.host)))
  pub absolute : (url.scheme ≢ []) × (url.host ≢ []) × (url.opaque ≡ [])
  pub hosted : to_lower (x.hostname url.host) ≢ []
  pub no_user : url.has_user ≡ false
  pub no_wildcard : contains_text v (codes "*") ≡ false
  pub no_escaped_wildcard : contains_text (to_lower v) (codes "%2a") ≡ false
  pub no_fragment : contains_text v (codes "#") ≡ false

neither : (a b : Bool) → a || b ≡ false → (a ≡ false) × (b ≡ false)
neither true b h = absurd (cc)
neither false b h = (refl, h)

both : (a b : Bool) → a && b ≡ true → (a ≡ true) × (b ≡ true)
both true b h = (refl, h)
both false b h = absurd (cc)

filled : (t : Text) → t == [] ≡ false → t ≢ []
filled t h e = cc ((text_eq_iff t []).1 e)

-- The guard on a text that is given and that no white space surrounds.
tidy_text : (v : Text) → (not (v == []) && v == trim_space v) ≡ true → (v ≢ []) × (trim_space v ≡ v)
tidy_text v h =
    let (given, same) = both (not (v == [])) (v == trim_space v) h in
    (filled v (ground arith), sym ((text_eq_iff v (trim_space v)).0 same))

module _ (x : Parsers) where
  is_loopback_host-IsLoopback : (host : Text) → is_loopback_host x host ≡ true → IsLoopback x host
  unfolding is_loopback_host
  is_loopback_host-IsLoopback host h = elim (Bool-cases (host == codes "localhost")) [
    | inl e ↦ inl ((text_eq_iff host (codes "localhost")).0 e)
    | inr e ↦ inr (rw e at h)
  ]

  absolute_url :
      (url : Url x.Rest)
      → (url.scheme == [] || url.host == [] || not (url.opaque == [])) ≡ false
      → (url.scheme ≢ []) × (url.host ≢ []) × (url.opaque ≡ [])
  absolute_url url h =
      let (named, opaque) = neither (url.scheme == [] || url.host == []) _ h in
      let (scheme, host) = neither (url.scheme == []) (url.host == []) named in
      (filled url.scheme scheme, filled url.host host, (text_eq_iff url.opaque []).0 (ground arith))

  parsed_secure :
      (s host : Text) (dev : Bool)
      → (s == codes "https" || (s == codes "http" && dev && is_loopback_host x host)) ≡ true
      → (s ≡ codes "https") ⊎ ((s ≡ codes "http") × (dev ≡ true) × IsLoopback x host)
  parsed_secure s host dev h = elim (Bool-cases (s == codes "https")) [
    | inl e ↦ inl ((text_eq_iff s (codes "https")).0 e)
    | inr e ↦ inr (
      ground (arith, text_eq_iff s (codes "http")),
      ground arith,
      is_loopback_host-IsLoopback host (ground arith),
    )
  ]

  parsed_safe :
      (url : Url x.Rest) (dev : Bool) {n : Text}
      → normalize_parsed_web_uri x url dev ≡ ok n
      → ((to_lower url.scheme ≡ codes "https")
          ⊎ ((to_lower url.scheme ≡ codes "http")
              × (dev ≡ true)
              × IsLoopback x (to_lower (x.hostname url.host))))
        × ((url.scheme ≢ []) × (url.host ≢ []) × (url.opaque ≡ []))
        × (to_lower (x.hostname url.host) ≢ [])
        × (url.has_user ≡ false)
  unfolding normalize_parsed_web_uri
  parsed_safe url dev {n} h =
      let scheme = to_lower url.scheme in
      let host = to_lower (x.hostname url.host) in
      let (absolute, h1) =
        (>>-eq-ok
            (guard (not (url.scheme == [] || url.host == [] || not (url.opaque == [])))
              Problem.uri_relative)
            _ n).0
          h in
      let (plain, h2) = (>>-eq-ok (guard (not url.has_user) Problem.uri_user) _ n).0 h1 in
      let (hosted, h3) = (>>-eq-ok (guard (not (host == [])) Problem.uri_hostless) _ n).0 h2 in
      let (secure, h4) =
        (>>-eq-ok
            (guard
              (scheme == codes "https"
                || (scheme == codes "http" && dev && is_loopback_host x host))
              Problem.uri_not_https)
            _ n).0
          h3 in
      (
        parsed_secure scheme host dev ((guard-Passes _ Problem.uri_not_https).0 secure),
        absolute_url url ((guard-not-Passes _ Problem.uri_relative).0 absolute),
        filled host ((guard-not-Passes (host == []) Problem.uri_hostless).0 hosted),
        (guard-not-Passes url.has_user Problem.uri_user).0 plain,
      )

  normalize_web_uri-IsSafeUri :
      (v : Text) (dev : Bool) {n : Text} → normalize_web_uri x v dev ≡ ok n → IsSafeUri x dev v
  unfolding normalize_web_uri normalize_parsed_web_uri
  normalize_web_uri-IsSafeUri v dev {n} h =
      let (tidy, h1) =
        (>>-eq-ok (guard (not (v == []) && v == trim_space v) Problem.uri_untidy) _ n).0 h in
      let (stars, h2) =
        (>>-eq-ok
            (guard (not (contains_text v (codes "*") || contains_text (to_lower v) (codes "%2a")))
              Problem.uri_wildcard)
            _ n).0
          h1 in
      let (hash, h3) =
        (>>-eq-ok (guard (not (contains_text v (codes "#"))) Problem.uri_fragment) _ n).0 h2 in
      let (no_star, no_escape) =
        neither (contains_text v (codes "*")) _
          ((guard-not-Passes _ Problem.uri_wildcard).0 stars) in
      let no_hash = (guard-not-Passes (contains_text v (codes "#")) Problem.uri_fragment).0 hash in
      elim (Option-cases (x.parse_url v)) [
        | inl none_parsed ↦ absurd (cc (rw none_parsed at h3))
        | inr (url, e) ↦
            let (secure, absolute, hosted, plain) = parsed_safe url dev (rw e at h3) in
            record {
              tidy = tidy_text v ((guard-Passes _ Problem.uri_untidy).0 tidy);
              url = url;
              parsed = e;
              secure = secure;
              absolute = absolute;
              hosted = hosted;
              no_user = plain;
              no_wildcard = no_star;
              no_escaped_wildcard = no_escape;
              no_fragment = no_hash;
            }
      ]

  present-eq-ok {ℓ} :
      {A : Type ℓ} (p : Problem) (o : Option A) {a : A} → present x p o ≡ ok a → o ≡ some a
  present-eq-ok p none h = absurd (cc)
  present-eq-ok p (some a) h = cc

  -- `loadACL` succeeds on a path with a result exactly when the file can be read and decoded, is of
  -- version 1, has users, and: its web application, if any, has a name that is not blank or surrounded
  -- by white space, redirect URIs, and distinct normal forms of the URIs of each list; each user has a
  -- username, permissions that are all in the catalog or the single `*`, and is a machine user (or of no
  -- type) without human fields, or a human user with all of them, an email that is a plain address, a
  -- variable name, and flags of a demo only in development; no two users share a username, and no two
  -- human users an email, whatever its case. The result then holds the web application, and the
  -- machine and the human users in the file's order, each with its names, the permissions granted (the
  -- whole catalog in order for `*`) and its patterns, none where they are left out; the email of a human
  -- user is verified only if the file says so, and the first password is to be changed unless the file
  -- says not to.
  pub load_acl-succeeds_iff :
      (path : Text) (acl : ParsedAcl)
      → (load_acl x path ≡ ok acl) ↔ (
          (raw : Text) × (f : AclFile) × (x.read_file path ≡ some raw)
          × (x.decode raw ≡ some f)
          × IsAcceptable x f
          × (acl ≡ provided f))
  unfolding load_acl
  load_acl-succeeds_iff path acl = (
    λ h.
        let (raw, e, h1) = >>=-eq-ok (present x Problem.unreadable (x.read_file path)) _ h in
        let (f, e2, h2) = >>=-eq-ok (present x Problem.unparsed (x.decode raw)) _ h1 in
        let (good, same) = (parse_acl-IsAcceptable x f acl).0 h2 in
        (raw, f, present-eq-ok _ _ e, present-eq-ok _ _ e2, good, same),
    λ h.
        let (raw, f, e, e2, good, same) = h in
        rw (e, e2) ((parse_acl-IsAcceptable x f acl).1 (good, same)),
  )

  All-IsSafeUri :
      (vs ns : List Text) (dev : Bool) → AreNormalForms x dev vs ns → All (IsSafeUri x dev) vs
  All-IsSafeUri [] ns dev h = tt
  All-IsSafeUri (v ∷ vs) [] dev h = absurd h
  All-IsSafeUri (v ∷ vs) (n ∷ ns) dev h =
      (normalize_web_uri-IsSafeUri v dev h.0, All-IsSafeUri vs ns dev h.1)

  uri_set_safe : (vs : List Text) (dev : Bool) → IsUriSet x dev vs → All (IsSafeUri x dev) vs
  uri_set_safe vs dev h = All-IsSafeUri vs h.0 dev h.1

  -- The URIs that a web application of an accepted file redirects to after login and after logout are
  -- not empty or surrounded by white space, and parse as absolute URLs over HTTPS, or in development
  -- over HTTP to `localhost` or a loopback address, with a named host and without user information; they
  -- hold no `*`, no `%2a` in either case and no `#`.
  pub load_acl-IsSafeUri :
      (path : Text) (acl : ParsedAcl) (app : AclWebApplication)
      → load_acl x path ≡ ok acl
      → acl.web_application ≡ some app
      → All (IsSafeUri x app.dev_mode) app.redirect_uris
        × All (IsSafeUri x app.dev_mode) app.post_logout_redirect_uris
  load_acl-IsSafeUri path acl app h e =
      let (raw, f, e1, e2, good, same) = (load_acl-succeeds_iff path acl).0 h in
      let given : f.web_application ≡ some app =
        ap (λ (a : ParsedAcl). a.web_application) (sym same) ∙ e in
      let web = subst (IsAcceptableWeb x) given good.web in
      (uri_set_safe _ _ web.redirect_uris, uri_set_safe _ _ web.post_logout_redirect_uris)
