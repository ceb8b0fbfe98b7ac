-- ===== src/Crawler/Client.antt =====
-- apps/crawler/client.py: `fetch_url`, which follows a bounded number of redirects. The server is
-- a parameter: what a connection answers, by the number of redirects followed before it.
pub mod Rounds
pub mod Bounds
pub mod Body
use sniper_synapse.Base.{
  ℕ, zero, suc, ◌+◌, String, Bool, true, false, not, ◌&&◌, ◌||◌, Option, none, some, List, [], ◌∷◌,
  ◌==◌, ltb, leb, if◌then◌else◌, any, take, length, str_eq,
}
use sniper_synapse.Base.Int.{ℤ, pos, ltb_ℤ}
use sniper_synapse.Crawler.Security.{
  Web, ResolvedWebsiteUrl, FetchError, bad_redirect, other_site, downgrade, bad_content_type,
  bad_length, too_long, read_too_long, transport_failed, redirects_exhausted, value_error, Result,
  ok, err, ◌>>=◌, or_else, guard, truthy, text_or_empty, resolve_public_url, same_site,
}

-- A response: its status, the headers the client reads, and the bytes the server sends.
pub record Response : Type 0 where
  pub status : ℕ
  pub location : Option String
  pub content_type : Option String
  pub content_length : Option String
  pub bytes : List ℕ

pub record FetchResult : Type 0 where
  pub url : String
  pub status : ℕ
  pub content_type : String
  pub body : List ℕ

-- The settings `CRAWLER_MAX_REDIRECTS` and `CRAWLER_MAX_BYTES`, Python's `int` on a text, and the
-- server; its `none` is an `OSError`, an `HTTPException` or an `SSLError`.
pub record Session : Type 0 where
  pub max_redirects : ℕ
  pub max_bytes : ℕ
  pub parse_int : String → Option ℤ
  pub respond : ℕ → ResolvedWebsiteUrl → Option Response

-- One connection: the URL it was asked for and what it was resolved to.
pub record Connection : Type 0 where
  pub requested : String
  pub resolved : ResolvedWebsiteUrl

-- The connections made, in order, and the result.
pub record Fetch : Type 0 where
  pub connections : List Connection
  pub outcome : Result FetchResult

abbrev pub is_redirect : ℕ → Bool
is_redirect status =
    status == 301 || (status == 302 || (status == 303 || (status == 307 || status == 308)))

-- What a round of the loop does with the answer: another URL, or the result.
pub data Turn : Type 0 where
  go : String → Turn
  finish : Result FetchResult → Turn

abbrev pub turn_of : Result String → Turn
turn_of (ok next) = go next
turn_of (err e) = finish (err e)

abbrev pub stop : Result FetchResult → Fetch
stop r = record { connections = []; outcome = r }

abbrev pub log : String → ResolvedWebsiteUrl → Fetch → Fetch
log requested resolved f = record {
  connections = record { requested = requested; resolved = resolved } ∷ f.connections;
  outcome = f.outcome;
}

abbrev pub is_downgrade : Web → String → String → Bool
is_downgrade web scheme next = str_eq scheme "https" && web.starts_with_http (web.lower next)

module _ (web : Web) (session : Session) where
  -- The URL a redirect leads to.
  unfoldable pub next_url : String → ℕ → ResolvedWebsiteUrl → Option String → Result String
  next_url original redirect_count resolved location = do
    _ ← guard (truthy location && ltb redirect_count session.max_redirects) bad_redirect
    next ← or_else value_error (web.urljoin resolved.url (text_or_empty location))
    same ← same_site web original next
    _ ← guard same other_site
    _ ← guard (not (is_downgrade web resolved.scheme next)) downgrade
    ok next

  unfoldable pub check_length : Option String → Result {0} Unit
  check_length none = ok tt
  check_length (some value) = if str_eq value "" then ok tt else (do
    declared ← or_else bad_length (session.parse_int value)
    guard (not (ltb_ℤ (pos session.max_bytes) declared)) too_long)

  unfoldable pub read_page : List String → ResolvedWebsiteUrl → Response → Result FetchResult
  read_page accepted_types resolved response = do
    let content_type = web.lower (web.before_semicolon (text_or_empty response.content_type))
    _ ← guard (any (str_eq content_type) accepted_types) bad_content_type
    _ ← check_length response.content_length
    let body = take (session.max_bytes + 1) response.bytes
    _ ← guard (leb (length body) session.max_bytes) read_too_long
    ok (record {
      url = resolved.url;
      status = response.status;
      content_type = content_type;
      body = body;
    })

  unfoldable pub turn : List String → String → ℕ → ResolvedWebsiteUrl → Option Response → Turn
  turn accepted_types original redirect_count resolved none = finish (err transport_failed)
  turn accepted_types original redirect_count resolved (some response) =
      if is_redirect response.status
      then turn_of (next_url original redirect_count resolved response.location)
      else finish (read_page accepted_types resolved response)

  -- `for redirect_count in range(...)`: `left` rounds remain, `redirect_count` are done.
  unfoldable pub rounds : ℕ → List String → String → ℕ → String → Fetch
  rounds zero accepted_types original redirect_count current = stop (err redirects_exhausted)
  rounds (suc left) accepted_types original redirect_count current =
      elim (resolve_public_url web current) [
        | err e ↦ stop (err e)
        | ok resolved ↦
            log current resolved
              (elim (turn accepted_types original redirect_count resolved
                (session.respond redirect_count resolved)) [
                  | finish r ↦ stop r
                  | go next ↦ rounds left accepted_types original (redirect_count + 1) next
                ])
      ]

  unfoldable pub fetch_url : List String → String → Fetch
  fetch_url accepted_types value = rounds (session.max_redirects + 1) accepted_types value 0 value
