-- ===== src/Crawler/Pages.antt =====
-- `persist_page` and `_page_type` of apps/crawler/services.py: the versions of a website's pages.
mod Tests
use sniper_synapse.Base.{
  ℕ, ◌+◌, String, ◌≡◌, refl, Bool, true, false, not, ◌&&◌, ◌||◌, Option, none, some, List, [], ◌∷◌,
  ◌++◌, ◌==◌, arith, if◌then◌else◌, any, first_where, update_where, All, All-append, Bool-cases,
  inl, inr, str_eq, eq_iff, is_some, ==_iff,
}
use sniper_synapse.Crawler.Security.{
  Web, FetchError, Result, ok, err, ◌>>=◌, bind-ok, canonicalize_url,
}

pub data PageType : Type 0 where
  home about product case news careers other : PageType

pub record WebsitePage : Type 0 where
  pub id : ℕ
  pub company : ℕ
  pub source_record : ℕ
  pub url : String
  pub page_type : PageType
  pub title : String
  pub extracted_text : String
  pub content_hash : String
  pub http_status : ℕ
  pub content_type : String
  pub observed_at : ℕ
  pub last_seen_at : ℕ
  pub current : Bool

-- The columns of a `SourceRecord` that `persist_page` writes; the payload repeats the arguments.
pub record SourceRecord : Type 0 where
  pub id : ℕ
  pub source : ℕ
  pub external_id : String
  pub company : ℕ
  pub payload_hash : String
  pub title : String
  pub content_type : String
  pub http_status : ℕ
  pub observed_at : ℕ

pub record PageTables : Type 0 where
  pub website_source : Option ℕ
  pub records : List SourceRecord
  pub pages : List WebsitePage

-- The arguments of `persist_page` after the company.
pub record Visit : Type 0 where
  pub url : String
  pub status : ℕ
  pub content_type : String
  pub title : String
  pub text : String

pub record CrawlOutcome : Type 0 where
  pub page : WebsitePage
  pub page_created : Bool
  pub content_changed : Bool

-- An error of the URL; `DoesNotExist` for the source; the text and URL of another company; and a
-- second page for one source record.
pub data PageError : Type 0 where
  bad_url : FetchError → PageError
  no_source linked_elsewhere duplicate_page : PageError

pub data Stored {ℓ} (A : Type ℓ) : Type ℓ where
  stored : A → Stored A
  failed : PageError → Stored A

-- `casefold_path` is the case-folded path of a URL, `occurs` Python's `in` on texts, and `sha256`
-- the digest of a text.
pub record Content : Type 0 where
  pub casefold_path : String → String
  pub occurs : String → String → Bool
  pub sha256 : String → String

module _ (content : Content) where
  abbrev pub has_term : String → List String → Bool
  has_term path = any (λ term. content.occurs term path)

  unfoldable pub page_type : String → PageType
  page_type url =
      let path = content.casefold_path url in
      if str_eq path "" || str_eq path "/"
      then home
      else if has_term path ("sobre" ∷ "about" ∷ "empresa" ∷ [])
      then about
      else if has_term path ("produto" ∷ "solucao" ∷ "solution" ∷ "servico" ∷ [])
      then product
      else if has_term path ("case" ∷ "cliente" ∷ [])
      then case
      else if has_term path ("blog" ∷ "noticia" ∷ "news" ∷ [])
      then news
      else if has_term path ("carreira" ∷ "trabalhe" ∷ "vaga" ∷ "jobs" ∷ [])
      then careers
      else other

  abbrev pub is_record : ℕ → String → String → SourceRecord → Bool
  is_record source url hash r =
      r.source == source && (str_eq r.external_id url && str_eq r.payload_hash hash)

  abbrev pub same_content : ℕ → String → String → WebsitePage → Bool
  same_content company url hash p =
      p.company == company && (str_eq p.url url && str_eq p.content_hash hash)

  abbrev pub is_current_of : ℕ → String → WebsitePage → Bool
  is_current_of company url p = p.company == company && (str_eq p.url url && p.current)

  abbrev pub seen : ℕ → WebsitePage → WebsitePage
  seen now p = record p { last_seen_at = now; current = true }

  abbrev pub outdated : WebsitePage → WebsitePage
  outdated p = record p { current = false }

  unfoldable pub new_page : ℕ → ℕ → ℕ → String → Visit → SourceRecord → WebsitePage
  new_page id now company url visit r = record {
    id = id;
    company = company;
    source_record = r.id;
    url = url;
    page_type = page_type url;
    title = visit.title;
    extracted_text = visit.text;
    content_hash = content.sha256 visit.text;
    http_status = visit.status;
    content_type = visit.content_type;
    observed_at = now;
    last_seen_at = now;
    current = true;
  }

  -- From the search for the page on: `records` is the table with the record.
  unfoldable pub store_page :
      ℕ
      → ℕ
      → ℕ
      → String
      → Visit
      → SourceRecord
      → PageTables
      → Option WebsitePage
      → Stored (PageTables × CrawlOutcome)
  store_page id now company url visit r t (some p) = stored (
    record t { pages = update_where (λ q. q.id == p.id) (seen now) t.pages },
    record { page = seen now p; page_created = false; content_changed = false },
  )
  store_page id now company url visit r t none =
      let page = new_page id now company url visit r in
      if any (λ p. p.source_record == r.id) t.pages
      then failed duplicate_page
      else stored (
        record t { pages = update_where (is_current_of company url) outdated t.pages ++ page ∷ [] },
        record {
          page = page;
          page_created = true;
          content_changed = any (is_current_of company url) t.pages;
        },
      )

  unfoldable pub with_record :
      ℕ → ℕ → ℕ → String → Visit → SourceRecord → PageTables → Stored (PageTables × CrawlOutcome)
  with_record id now company url visit r t =
      if r.company == company
      then store_page id now company url visit r t
          (first_where (same_content company url (content.sha256 visit.text)) t.pages)
      else failed linked_elsewhere

  unfoldable pub new_record : ℕ → ℕ → ℕ → ℕ → String → Visit → SourceRecord
  new_record id source now company url visit = record {
    id = id;
    source = source;
    external_id = url;
    company = company;
    payload_hash = content.sha256 visit.text;
    title = visit.title;
    content_type = visit.content_type;
    http_status = visit.status;
    observed_at = now;
  }

  -- `get_or_create` of the source record
  unfoldable pub find_record :
      ℕ
      → ℕ
      → ℕ
      → ℕ
      → String
      → Visit
      → PageTables
      → Option SourceRecord
      → Stored (PageTables × CrawlOutcome)
  find_record id source now company url visit t (some r) = with_record id now company url visit r t
  find_record id source now company url visit t none =
      let r = new_record id source now company url visit in
      with_record id now company url visit r (record t { records = t.records ++ r ∷ [] })

  unfoldable pub persist_at :
      ℕ → ℕ → ℕ → Visit → PageTables → Option ℕ → Result String → Stored (PageTables × CrawlOutcome)
  persist_at id now company visit t source (err e) = failed (bad_url e)
  persist_at id now company visit t none (ok url) = failed no_source
  persist_at id now company visit t (some source) (ok url) =
      find_record id source now company url visit t
        (first_where (is_record source url (content.sha256 visit.text)) t.records)

  -- `id` is a key for the new rows.
  unfoldable pub persist_page :
      Web → ℕ → ℕ → ℕ → Visit → PageTables → Stored (PageTables × CrawlOutcome)
  persist_page web id now company visit t =
      persist_at id now company visit t t.website_source (canonicalize_url web visit.url)

  -- No other page of the company and the URL is current.
  abbrev pub NoOther : WebsitePage → WebsitePage → Type 0
  NoOther page p = (is_current_of page.company page.url p && not (p.id == page.id)) ≡ false

  outdated-NoOther :
      (page : WebsitePage) (pages : List WebsitePage)
      → All (NoOther page) (update_where (is_current_of page.company page.url) outdated pages)
  outdated-NoOther page [] = tt
  outdated-NoOther page (p ∷ pages) = (ground arith, outdated-NoOther page pages)

  first-current :
      (company : ℕ) (url : String) (page : WebsitePage) (pages : List WebsitePage)
      → is_current_of company url page ≡ true
      → first_where
          (is_current_of company url)
          (update_where (is_current_of company url) outdated pages ++ page ∷ [])
        ≡ some page
  first-current company url page [] y = rw y refl
  first-current company url page (p ∷ pages) y = elim (Bool-cases (is_current_of company url p)) [
    | inl k ↦ ground (arith, first-current company url page pages y)
    | inr k ↦ rw (k, k) (first-current company url page pages y)
  ]

  -- A new version of a page replaces the current one: it is the current page of the company and
  -- the URL in the table, and no other page of them is current.
  pub store_page-NoOther :
      (id now company : ℕ) (url : String) (visit : Visit) (r : SourceRecord) (t t' : PageTables)
      (o : CrawlOutcome)
      → store_page id now company url visit r t none ≡ stored (t', o)
      → (first_where (is_current_of company url) t'.pages ≡ some o.page)
        × All (NoOther o.page) t'.pages
  unfolding store_page new_page
  store_page-NoOther id now company url visit r t t' o h =
      elim (Bool-cases (any (λ p. p.source_record == r.id) t.pages)) [
        | inl y ↦ ground (arith, rw y at h)
        | inr y ↦
            let page : WebsitePage = new_page id now company url visit r in
            let is_page : o.page ≡ page = ground (arith, rw y at h) in
            let rows : t'.pages
                ≡ update_where (is_current_of company url) outdated t.pages ++ page ∷ [] =
              ground (arith, rw y at h) in
            let now_current : is_current_of company url page ≡ true =
              rw ((==_iff company company).1 refl, (eq_iff url url).1 refl) refl in
            rw (is_page, rows)
              (
                first-current company url page t.pages now_current,
                All-append (NoOther page)
                    (update_where (is_current_of company url) outdated t.pages) (page ∷ [])
                    (outdated-NoOther page t.pages) (ground arith, tt),
              )
      ]

  -- A page that goes back to an earlier content leaves two current pages: the earlier version is
  -- marked current again, and the version that came after it stays current. (Stated for a table of
  -- these two versions, with different keys.)
  pub revisit_leaves_two_current :
      (id now company : ℕ) (url : String) (visit : Visit) (r : SourceRecord) (t : PageTables)
      (earlier later : WebsitePage)
      → t.pages ≡ earlier ∷ later ∷ []
      → (r.company == company) ≡ true
      → same_content company url (content.sha256 visit.text) earlier ≡ true
      → is_current_of company url later ≡ true
      → (later.id == earlier.id) ≡ false
      → (with_record id now company url visit r t
          ≡ stored (
            record t { pages = seen now earlier ∷ later ∷ [] },
            record { page = seen now earlier; page_created = false; content_changed = false },
          ))
        × (is_current_of company url (seen now earlier) ≡ true)
        × (is_current_of company url later ≡ true)
  unfolding with_record store_page
  revisit_leaves_two_current id now company url visit r t earlier later e m s c d =
      (rw (m, e, s, (==_iff earlier.id earlier.id).1 refl, d) refl, ground (arith, s), c)
