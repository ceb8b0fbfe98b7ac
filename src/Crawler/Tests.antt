-- ===== src/Crawler/Tests.antt =====
-- Concrete runs of the crawler: a site that redirects once, and a resolver.
use sniper_synapse.Base.{
  ◌≤◌, String, ◌≡◌, refl, false, none, some, List, [], ◌∷◌, if◌then◌else◌, All, length, str_eq,
  ◌&&◌,
}
use sniper_synapse.Base.Int.{pos}
use sniper_synapse.Crawler.Security.{
  Web, UrlParts, ok, resolve_public_url, same_site, canonicalize_url, canonical_parts,
  select_address, check_addresses, first_address, normalized_host,
}
use sniper_synapse.Crawler.Client.{
  Session, Response, FetchResult, Fetch, fetch_url, rounds, turn, next_url, read_page, check_length,
}
use sniper_synapse.Crawler.Pages.{Content}
use sniper_synapse.Crawler.Links.{
  discover_priority_urls, candidate_of, priority_of, priority_from, may_visit, ranked, entry_of,
  add_link, add_links, set_min, sort_entries, insert_entry,
}
use sniper_synapse.Crawler.Links.Visit.{Visitable, discover_priority_urls-Visitable}
use sniper_synapse.Crawler.Client.Bounds.{Pinned, NoDowngrade, fetch_url-Pinned}

abbrev parts : String → UrlParts
parts path = record {
  scheme = "https";
  hostname = some "acme.com";
  username = none;
  password = none;
  port = some none;
  path = path;
  query = "";
}

-- Two pages of one site: every other URL is malformed.
abbrev site : Web
site = record {
  strip = λ s. s;
  lower = λ s. s;
  rstrip_dot = λ s. s;
  remove_www = λ s. s;
  starts_with_http = λ s. false;
  has_control = λ s. false;
  has_colon = λ s. false;
  text_before = λ a b. false;
  before_semicolon = λ s. s;
  join_query = λ a b. a;
  brackets = λ s. s;
  idna = λ s. some s;
  urlsplit = λ s.
      if str_eq s "https://acme.com/"
      then some (parts "/")
      else if str_eq s "https://acme.com/about"
      then some (parts "/about")
      else none;
  urlunsplit =
      λ a b path d. if str_eq path "/" then "https://acme.com/" else "https://acme.com/about";
  urljoin = λ base location. some "https://acme.com/about";
  getaddrinfo = λ host port. some ("203.0.113.7" ∷ []);
  is_global = λ address. some (str_eq address "203.0.113.7");
}

abbrev page : Response
page = record {
  status = 200;
  location = none;
  content_type = some "text/html";
  content_length = some "3";
  bytes = 1 ∷ 2 ∷ 3 ∷ [];
}

abbrev server : Session
server = record {
  max_redirects = 1;
  max_bytes = 4;
  parse_int = λ s. some (pos 3);
  respond = λ n r.
      if str_eq r.request_target "/"
      then some (record page { status = 301; location = some "/about" })
      else some page;
}

abbrev html : List String
html = "text/html" ∷ []

abbrev run_of : String → Fetch
run_of = fetch_url site server html

abbrev about : FetchResult
about = record {
  url = "https://acme.com/about";
  status = 200;
  content_type = "text/html";
  body = 1 ∷ 2 ∷ 3 ∷ [];
}

fetched : (run_of "https://acme.com/").outcome ≡ ok about
unfolding fetch_url rounds resolve_public_url canonicalize_url canonical_parts select_address
    check_addresses first_address turn next_url same_site normalized_host read_page check_length
fetched = refl

connected_twice : length (run_of "https://acme.com/").connections ≡ 2
unfolding fetch_url rounds resolve_public_url canonicalize_url canonical_parts select_address
    check_addresses first_address turn next_url same_site normalized_host read_page check_length
connected_twice = refl

fetch_url-Pinned_example :
    All (Pinned site server html "https://acme.com/") (run_of "https://acme.com/").connections
    × (length (run_of "https://acme.com/").connections ≤ 2)
    × NoDowngrade site server html "https://acme.com/" (run_of "https://acme.com/").connections
fetch_url-Pinned_example = fetch_url-Pinned site server html "https://acme.com/"

abbrev texts : Content
texts = record {
  casefold_path = λ s. if str_eq s "https://acme.com/" then "/" else "/about";
  occurs = λ term path. str_eq term "about" && str_eq path "/about";
  sha256 = λ s. s;
}

discover_priority_urls-Visitable_example :
    (1 ≤ 2)
    × ((base : UrlParts) × (site.urlsplit "https://acme.com/" ≡ some base)
        × All
            (Visitable site texts (λ s. 1) "https://acme.com/" base.scheme)
            ("https://acme.com/about" ∷ []))
unfolding discover_priority_urls candidate_of priority_of priority_from may_visit ranked entry_of
    add_link add_links set_min sort_entries insert_entry canonicalize_url canonical_parts same_site
    normalized_host
discover_priority_urls-Visitable_example =
    discover_priority_urls-Visitable site texts (λ s. 1) "https://acme.com/"
      ("/about" ∷ "/about" ∷ []) (pos 2) ("https://acme.com/about" ∷ []) refl
