-- ===== src/Crawler/Security.antt =====
-- apps/crawler/security.py: canonical URLs, the resolution of a host to a public address, and the
-- comparison of sites. The URL and text functions of Python, and the name server, are parameters.
use sniper_synapse.Base.{
  ℕ, String, Bool, true, false, not, ◌&&◌, ◌||◌, Option, none, some, List, [], ◌∷◌, ◌==◌,
  if◌then◌else◌, str_eq, ◌≡◌, refl, arith,
}

-- `urlsplit(value)`; a `port` of `none` is the `ValueError` of reading it.
pub record UrlParts : Type 0 where
  pub scheme : String
  pub hostname : Option String
  pub username : Option String
  pub password : Option String
  pub port : Option (Option ℕ)
  pub path : String
  pub query : String

pub record ResolvedWebsiteUrl : Type 0 where
  pub url : String
  pub scheme : String
  pub hostname : Option String
  pub port : ℕ
  pub ip_address : String
  pub request_target : String

-- The exceptions of this package: `UnsafeWebsiteUrl` and `WebsiteFetchError` with what they
-- report, and the `ValueError` of `urlsplit` and `urljoin`.
pub data FetchError : Type 0 where
  control_characters scheme_not_allowed host_or_credentials bad_hostname bad_port other_port :
      FetchError
  not_resolved no_address bad_address private_address : FetchError
  bad_redirect other_site downgrade bad_content_type bad_length too_long read_too_long : FetchError
  transport_failed redirects_exhausted value_error : FetchError

pub data Result {ℓ} (A : Type ℓ) : Type ℓ where
  ok : A → Result A
  err : FetchError → Result A

infix 10 ◌>>=◌
abbrev pub ◌>>=◌ {ℓ κ} : {A : Type ℓ} {B : Type κ} → Result A → (A → Result B) → Result B
ok a >>= f = f a
err e >>= f = err e

-- What the package calls. `idna` is `.encode("idna").decode("ascii")`, `getaddrinfo` the set of
-- addresses, and `is_global` the test of `ipaddress.ip_address`, absent for a malformed address.
pub record Web : Type 0 where
  pub strip : String → String
  pub lower : String → String
  pub rstrip_dot : String → String
  pub remove_www : String → String
  pub starts_with_http : String → Bool
  pub has_control : String → Bool
  pub has_colon : String → Bool
  pub text_before : String → String → Bool
  pub before_semicolon : String → String
  pub join_query : String → String → String
  pub brackets : String → String
  pub idna : String → Option String
  pub urlsplit : String → Option UrlParts
  pub urlunsplit : String → String → String → String → String
  pub urljoin : String → String → Option String
  pub getaddrinfo : Option String → ℕ → Option (List String)
  pub is_global : String → Option Bool

abbrev pub or_else {ℓ} : {A : Type ℓ} → FetchError → Option A → Result A
or_else e none = err e
or_else e (some a) = ok a

-- The truth of an optional text: absent and empty are false.
abbrev pub truthy : Option String → Bool
truthy none = false
truthy (some s) = not (str_eq s "")

abbrev pub text_or_empty : Option String → String
text_or_empty none = ""
text_or_empty (some s) = s

abbrev pub guard : Bool → FetchError → Result {0} Unit
guard true e = ok tt
guard false e = err e

-- Inversion of a chain that returned.
pub bind-ok {ℓ κ} :
    {A : Type ℓ} {B : Type κ} (first : Result A) (rest : A → Result B) {end : B}
    → (first >>= rest) ≡ ok end
    → (value : A) × (first ≡ ok value) × (rest value ≡ ok end)
bind-ok (ok value) rest h = (value, refl, h)
bind-ok (err e) f h = ground (arith, h)

pub guard-ok : (b : Bool) (e : FetchError) {u : Unit {0}} → guard b e ≡ ok u → b ≡ true
guard-ok true e h = refl
guard-ok false e h = ground (arith, h)

abbrev pub is_http : String → Bool
is_http scheme = str_eq scheme "http" || str_eq scheme "https"

abbrev pub default_port : String → ℕ
default_port scheme = if str_eq scheme "https" then 443 else 80

abbrev pub port_allowed : ℕ → Option ℕ → Bool
port_allowed expected none = true
port_allowed expected (some port) = port == expected

abbrev pub has_host_only : UrlParts → Bool
has_host_only parsed =
    truthy parsed.hostname && not (truthy parsed.username || truthy parsed.password)

module _ (web : Web) where
  abbrev pub or_slash : String → String
  or_slash path = if str_eq path "" then "/" else path

  unfoldable pub canonical_parts : UrlParts → Result (String × String × String × String)
  canonical_parts parsed = do
    _ ← guard (is_http (web.lower parsed.scheme)) scheme_not_allowed
    _ ← guard (has_host_only parsed) host_or_credentials
    encoded ← or_else bad_hostname (web.idna (text_or_empty parsed.hostname))
    port ← or_else bad_port parsed.port
    _ ← guard (port_allowed (default_port (web.lower parsed.scheme)) port) other_port
    let hostname = web.rstrip_dot (web.lower encoded)
    ok (
      web.lower parsed.scheme,
      (if web.has_colon hostname then web.brackets hostname else hostname),
      or_slash parsed.path,
      parsed.query,
    )

  unfoldable pub canonicalize_url : String → Result String
  canonicalize_url value = do
    _ ← guard (not (web.has_control (web.strip value))) control_characters
    parsed ← or_else value_error (web.urlsplit (web.strip value))
    parts ← canonical_parts parsed
    ok (web.urlunsplit parts.0 parts.1 parts.2 parts.3)

  -- The loop over the addresses: the first that is malformed or not global stops it.
  unfoldable pub check_addresses : List String → Result {0} Unit
  check_addresses [] = ok tt
  check_addresses (address ∷ rest) = do
    global ← or_else bad_address (web.is_global address)
    _ ← guard global private_address
    check_addresses rest

  -- `key=lambda item: (":" in item, item)`
  abbrev pub address_before : String → String → Bool
  address_before a b =
      if web.has_colon a
      then web.has_colon b && web.text_before a b
      else web.has_colon b || web.text_before a b

  -- `sorted(addresses, key=...)[0]`
  unfoldable pub first_address : String → List String → String
  first_address best [] = best
  first_address best (address ∷ rest) =
      first_address (if address_before address best then address else best) rest

  unfoldable pub select_address : List String → Result String
  select_address [] = err no_address
  select_address (address ∷ rest) = do
    _ ← check_addresses (address ∷ rest)
    ok (first_address address rest)

  abbrev pub lookup : UrlParts → Result (List String)
  lookup parsed =
      or_else not_resolved (web.getaddrinfo parsed.hostname (default_port parsed.scheme))

  unfoldable pub resolve_public_url : String → Result ResolvedWebsiteUrl
  resolve_public_url value = do
    url ← canonicalize_url value
    parsed ← or_else value_error (web.urlsplit url)
    addresses ← lookup parsed
    selected ← select_address addresses
    let target = or_slash parsed.path
    ok (record {
      url = url;
      scheme = parsed.scheme;
      hostname = parsed.hostname;
      port = default_port parsed.scheme;
      ip_address = selected;
      request_target =
          if str_eq parsed.query "" then target else web.join_query target parsed.query;
    })

  unfoldable pub normalized_host : String → Result String
  normalized_host value = do
    parsed ← or_else value_error (web.urlsplit value)
    ok (web.remove_www (web.rstrip_dot (web.lower (text_or_empty parsed.hostname))))

  unfoldable pub same_site : String → String → Result Bool
  same_site first_url second_url = do
    first_host ← normalized_host first_url
    second_host ← normalized_host second_url
    ok (str_eq first_host second_host)
