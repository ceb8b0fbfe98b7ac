-- ===== src/Crawler/Links/Visit.antt =====
-- Which URLs `discover_priority_urls` of apps/crawler/services.py lets through.
use sniper_synapse.Base.{
  ℕ, ◌≤◌, String, ◌≡◌, refl, sym, ◌∙◌, ap, Bool, true, false, not, ◌||◌, Option, none, some, List,
  [], ◌∷◌, arith, if◌then◌else◌, str_eq, All, Bool-cases, inl, inr, length, and-true, is_some,
}
use sniper_synapse.Base.Int.{ℤ, pos_part}
use sniper_synapse.Crawler.Security.{
  Web, UrlParts, Result, ok, err, or_else, value_error, canonicalize_url, same_site, bind-ok,
  FetchError,
}
use sniper_synapse.Crawler.Pages.{Content}
use sniper_synapse.Crawler.Links.{
  candidate_of, priority_of, may_visit, ranked, entry_of, add_entry, add_link, add_links,
  discover_priority_urls,
}
use sniper_synapse.Crawler.Links.Kept.{UrlsHold, set_min-UrlsHold, chosen-UrlsHold}

-- A URL without a query, on the site of the base, by https if the base is, with a priority, and
-- other than the base itself.
abbrev pub Visitable : Web → Content → (String → ℕ) → String → String → String → Type 0
Visitable web content size base_url base_scheme url =
    (parsed : UrlParts) × (own : String) × (web.urlsplit url ≡ some parsed)
    × (str_eq parsed.query "" ≡ true)
    × (same_site web base_url url ≡ ok true)
    × ((not (str_eq base_scheme "https") || str_eq parsed.scheme "https") ≡ true)
    × (is_some (priority_of web content size url) ≡ true)
    × (canonicalize_url web base_url ≡ ok own)
    × (str_eq url own ≡ false)

abbrev Held : (String → Type 0) → Option (String × ℕ) → Type 0
Held P none = Unit
Held P (some e) = P e.0

abbrev ok_value {ℓ} : {A : Type ℓ} → A → Result A → A
ok_value d (ok a) = a
ok_value d (err e) = d

same_value : {A : Type 0} (a b : A) → ◌≡◌ {A = Result A} (ok a) (ok b) → a ≡ b
same_value a b h = ap (ok_value a) h

or_else-some :
    {A : Type 0} (e : FetchError) (o : Option A) (a : A) → or_else e o ≡ ok a → o ≡ some a
or_else-some e none a h = ground (arith, h)
or_else-some e (some b) a h = ap some (same_value b a h)

module _ (web : Web) (content : Content) (size : String → ℕ) (base_url base_scheme : String) where
  may_visit-true :
      (url : String) (parsed : UrlParts)
      → may_visit web content size base_url base_scheme url parsed ≡ ok true
      → (str_eq parsed.query "" ≡ true)
        × (same_site web base_url url ≡ ok true)
        × ((not (str_eq base_scheme "https") || str_eq parsed.scheme "https") ≡ true)
  unfolding may_visit
  may_visit-true url parsed h =
      let (same, g, h1) =
        bind-ok (if str_eq parsed.query "" then same_site web base_url url else ok false) _ h in
      let both = and-true same _ (same_value _ true h1) in
      elim (Bool-cases (str_eq parsed.query "")) [
        | inl y ↦ (
          y,
          sym (ap (λ b. if b then same_site web base_url url else ok false) y) ∙ g ∙ ap ok both.0,
          both.1,
        )
        | inr n ↦
            let none_same =
              same_value false same
                (sym (ap (λ b. if b then same_site web base_url url else ok false) n) ∙ g) in
            ground (arith, none_same, both.0)
      ]

  own-Held :
      (url own : String) (parsed : UrlParts) (rank : ℕ) (entry : Option (String × ℕ))
      → web.urlsplit url ≡ some parsed
      → may_visit web content size base_url base_scheme url parsed ≡ ok true
      → priority_of web content size url ≡ some rank
      → canonicalize_url web base_url ≡ ok own
      → (if str_eq url own then none else some (url, rank)) ≡ entry
      → Held (Visitable web content size base_url base_scheme) entry
  own-Held url own parsed rank entry s m r c e =
      let (query, site, scheme) = may_visit-true url parsed m in
      elim (Bool-cases (str_eq url own)) [
        | inl y ↦ rw (sym e, y) tt
        | inr n ↦ rw (sym e, n) (parsed, own, s, query, site, scheme, ap is_some r, c, n)
      ]

  ranked-Held :
      (url : String) (parsed : UrlParts) (rank : Option ℕ) (entry : Option (String × ℕ))
      → web.urlsplit url ≡ some parsed
      → may_visit web content size base_url base_scheme url parsed ≡ ok true
      → priority_of web content size url ≡ rank
      → ranked web content size base_url url rank ≡ ok entry
      → Held (Visitable web content size base_url base_scheme) entry
  unfolding ranked
  ranked-Held url parsed none entry s m r h = rw (sym (same_value _ entry h)) tt
  ranked-Held url parsed (some rank) entry s m r h =
      let (own, c, h1) = bind-ok (canonicalize_url web base_url) _ h in
      own-Held url own parsed rank entry s m r c (same_value _ entry h1)

  visit-Held :
      (url : String) (parsed : UrlParts) (visit : Bool) (entry : Option (String × ℕ))
      → web.urlsplit url ≡ some parsed
      → may_visit web content size base_url base_scheme url parsed ≡ ok visit
      → (if visit
          then ranked web content size base_url url (priority_of web content size url)
          else ok none)
        ≡ ok entry
      → Held (Visitable web content size base_url base_scheme) entry
  visit-Held url parsed true entry s m h =
      ranked-Held url parsed (priority_of web content size url) entry s m refl h
  visit-Held url parsed false entry s m h = rw (sym (same_value none entry h)) tt

  entry_of-Held :
      (url : String) (entry : Option (String × ℕ))
      → entry_of web content size base_url base_scheme url ≡ ok entry
      → Held (Visitable web content size base_url base_scheme) entry
  unfolding entry_of
  entry_of-Held url entry h =
      let (parsed, s, h1) = bind-ok (or_else value_error (web.urlsplit url)) _ h in
      let (visit, m, h2) =
        bind-ok (may_visit web content size base_url base_scheme url parsed) _ h1 in
      visit-Held url parsed visit entry (or_else-some value_error (web.urlsplit url) parsed s) m h2

  abbrev Candidates : List (String × ℕ) → Type 0
  Candidates = UrlsHold (Visitable web content size base_url base_scheme)

  add_entry-Candidates :
      (entry : Option (String × ℕ)) (es : List (String × ℕ))
      → Held (Visitable web content size base_url base_scheme) entry
      → Candidates es
      → Candidates (add_entry web content size es entry)
  add_entry-Candidates none es v h = h
  add_entry-Candidates (some e) es v h = set_min-UrlsHold _ e.0 e.1 es v h

  add_link-Candidates :
      (link : Option String) (es more : List (String × ℕ))
      → add_link web content size base_url base_scheme link es ≡ ok more
      → Candidates es
      → Candidates more
  unfolding add_link
  add_link-Candidates none es more e h = rw (sym (same_value es more e)) h
  add_link-Candidates (some url) es more e h =
      let (entry, f, e1) = bind-ok (entry_of web content size base_url base_scheme url) _ e in
      rw (sym (same_value _ more e1)) (add_entry-Candidates entry es (entry_of-Held url entry f) h)

  add_links-Candidates :
      (links : List String) (es more : List (String × ℕ))
      → add_links web content size base_url base_scheme links es ≡ ok more
      → Candidates es
      → Candidates more
  unfolding add_links
  add_links-Candidates [] es more e h = rw (sym (same_value es more e)) h
  add_links-Candidates (link ∷ links) es more e h =
      let (step, f, e1) =
        bind-ok
          (add_link web content size base_url base_scheme
            (candidate_of web content size base_url link) es)
          _ e in
      add_links-Candidates links step more e1
        (add_link-Candidates (candidate_of web content size base_url link) es step f h)

module _ (web : Web) (content : Content) (size : String → ℕ) where
  -- The URLs that a page's links give are at most `limit`, none for a negative limit, and each has
  -- no query, is on the site of the base, is https if the base is, has a term of the priorities in
  -- its path, and is not the base.
  pub discover_priority_urls-Visitable :
      (base_url : String) (links : List String) (limit : ℤ) (urls : List String)
      → discover_priority_urls web content size base_url links limit ≡ ok urls
      → (length urls ≤ pos_part limit)
        × ((base : UrlParts) × (web.urlsplit base_url ≡ some base)
            × All (Visitable web content size base_url base.scheme) urls)
  unfolding discover_priority_urls
  discover_priority_urls-Visitable base_url links limit urls h =
      let (base, b, h1) = bind-ok (or_else value_error (web.urlsplit base_url)) _ h in
      let (candidates, c, h2) =
        bind-ok (add_links web content size base_url base.scheme links []) _ h1 in
      let (short, held) =
        chosen-UrlsHold web content size (Visitable web content size base_url base.scheme)
          (pos_part limit) candidates urls (same_value _ urls h2)
          (add_links-Candidates web content size base_url base.scheme links [] candidates c tt) in
      (short, (base, or_else-some value_error (web.urlsplit base_url) base b, held))
