-- ===== src/Crawler/Links.antt =====
-- `discover_priority_urls` of apps/crawler/services.py: which links of a page are visited next.
pub mod Kept
pub mod Visit
use sniper_synapse.Base.{
  ℕ, ◌+◌, min, String, Bool, true, false, not, ◌&&◌, ◌||◌, Option, none, some, List, [], ◌∷◌, ◌==◌,
  map, arith, if◌then◌else◌, any, take, ltb, str_eq,
}
use sniper_synapse.Base.Int.{ℤ, pos_part}
use sniper_synapse.Crawler.Security.{
  Web, UrlParts, Result, ok, err, ◌>>=◌, or_else, value_error, canonicalize_url, same_site,
}
use sniper_synapse.Crawler.Pages.{Content}

abbrev pub priority_path_terms : List (List String)
priority_path_terms =
    ("sobre" ∷ "about" ∷ "empresa" ∷ [])
    ∷ ("solucao" ∷ "solution" ∷ "produto" ∷ "servico" ∷ [])
    ∷ ("case" ∷ "cliente" ∷ "industria" ∷ [])
    ∷ ("noticia" ∷ "news" ∷ "blog" ∷ [])
    ∷ ("carreira" ∷ "trabalhe" ∷ "vaga" ∷ "jobs" ∷ [])
    ∷ []

-- `candidates[candidate] = min(candidates.get(candidate, priority), priority)`
unfoldable pub set_min : String × ℕ → List (String × ℕ) → List (String × ℕ)
set_min (url, priority) [] = (url, priority) ∷ []
set_min (url, priority) ((known, least) ∷ rest) =
    let others = set_min (url, priority) rest in
    if str_eq known url then (known, min least priority) ∷ rest else (known, least) ∷ others

-- The path's rank: the first group with a term that occurs in it.
unfoldable pub priority_from : (String → Bool) → ℕ → List (List String) → Option ℕ
priority_from occurs index [] = none
priority_from occurs index (terms ∷ groups) =
    let later = priority_from occurs (index + 1) groups in
    if any occurs terms then some index else later

-- `size` is Python's `len` of a text.
module _ (web : Web) (content : Content) (size : String → ℕ) where
  -- A link that raises `UnsafeWebsiteUrl` or `ValueError` is skipped.
  unfoldable pub candidate_of : String → String → Option String
  candidate_of base_url link =
      elim (or_else value_error (web.urljoin base_url link) >>= canonicalize_url web) [
        | ok url ↦ some url
        | err e ↦ none
      ]

  unfoldable pub priority_of : String → Option ℕ
  priority_of url =
      priority_from (λ term. content.occurs term (content.casefold_path url)) 0 priority_path_terms

  -- `not parsed.query and same_site(...)`, and no step from https to another scheme.
  unfoldable pub may_visit : String → String → String → UrlParts → Result Bool
  may_visit base_url base_scheme candidate parsed = do
    same ← if str_eq parsed.query "" then same_site web base_url candidate else ok false
    ok (same && (not (str_eq base_scheme "https") || str_eq parsed.scheme "https"))

  unfoldable pub ranked : String → String → Option ℕ → Result (Option (String × ℕ))
  ranked base_url candidate none = ok none
  ranked base_url candidate (some priority) = do
    own ← canonicalize_url web base_url
    ok (if str_eq candidate own then none else some (candidate, priority))

  unfoldable pub entry_of : String → String → String → Result (Option (String × ℕ))
  entry_of base_url base_scheme candidate = do
    parsed ← or_else value_error (web.urlsplit candidate)
    visit ← may_visit base_url base_scheme candidate parsed
    if visit then ranked base_url candidate (priority_of candidate) else ok none

  abbrev pub add_entry : List (String × ℕ) → Option (String × ℕ) → List (String × ℕ)
  add_entry candidates none = candidates
  add_entry candidates (some entry) = set_min entry candidates

  unfoldable pub add_link :
      String → String → Option String → List (String × ℕ) → Result (List (String × ℕ))
  add_link base_url base_scheme none candidates = ok candidates
  add_link base_url base_scheme (some candidate) candidates = do
    entry ← entry_of base_url base_scheme candidate
    ok (add_entry candidates entry)

  unfoldable pub add_links :
      String → String → List String → List (String × ℕ) → Result (List (String × ℕ))
  add_links base_url base_scheme [] candidates = ok candidates
  add_links base_url base_scheme (link ∷ links) candidates = do
    more ← add_link base_url base_scheme (candidate_of base_url link) candidates
    add_links base_url base_scheme links more

  -- `key=lambda item: (item[1], len(item[0]), item[0])`
  abbrev pub entry_before : String × ℕ → String × ℕ → Bool
  entry_before (a, p) (b, q) =
      ltb p q || (p == q && (ltb (size a) (size b) || (size a == size b && web.text_before a b)))

  unfoldable pub insert_entry : String × ℕ → List (String × ℕ) → List (String × ℕ)
  insert_entry e [] = e ∷ []
  insert_entry e (f ∷ fs) =
      let rest = insert_entry e fs in if entry_before f e then f ∷ rest else e ∷ f ∷ fs

  unfoldable pub sort_entries : List (String × ℕ) → List (String × ℕ)
  sort_entries [] = []
  sort_entries (e ∷ es) = insert_entry e (sort_entries es)

  unfoldable pub discover_priority_urls : String → List String → ℤ → Result (List String)
  discover_priority_urls base_url links limit = do
    base ← or_else value_error (web.urlsplit base_url)
    candidates ← add_links base_url base.scheme links []
    ok (map (λ entry. entry.0) (take (pos_part limit) (sort_entries candidates)))
