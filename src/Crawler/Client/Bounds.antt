-- ===== src/Crawler/Client/Bounds.antt =====
-- What `fetch_url` connects to: public addresses of the same site, a bounded number of times,
-- without a downgrade.
use sniper_synapse.Base.{
  ℕ, zero, suc, ◌+◌, ◌≤◌, String, ◌≡◌, refl, sym, true, false, not, ◌&&◌, ◌⊎◌, Option, none, some,
  List, [], ◌∷◌, arith, ltb, Bool-cases, inl, inr, All, length,
}
use sniper_synapse.Crawler.Security.{
  Web, ResolvedWebsiteUrl, Result, ok, err, or_else, guard, truthy, text_or_empty, bad_redirect,
  other_site, downgrade, value_error, bind-ok, guard-ok, resolve_public_url, same_site,
}
use sniper_synapse.Crawler.Client.{
  Response, Session, Connection, Fetch, is_downgrade, next_url, read_page, turn_of, is_redirect, go,
  finish, turn, fetch_url,
}
use sniper_synapse.Crawler.Client.Rounds.{
  Result-cases, IsGlobal, resolve_public_url-IsGlobal, run, answer, run-unresolved, run-finish,
  run-go, Turn-cases, run-zero,
}

module _ (web : Web) (session : Session) (accepted_types : List String) (original : String) where
  -- A connection goes to a global address that the requested URL resolves to, and the URL is the
  -- first one or one of its site.
  abbrev pub Pinned : Connection → Type 0
  Pinned c =
      IsGlobal web c.resolved.ip_address
      × (resolve_public_url web c.requested ≡ ok c.resolved)
      × ((c.requested ≡ original) ⊎ (same_site web original c.requested ≡ ok true))

  abbrev pub Follows : Connection → List Connection → Type 0
  Follows c [] = Unit
  Follows c (d ∷ rest) = is_downgrade web c.resolved.scheme d.requested ≡ false

  abbrev pub NoDowngrade : List Connection → Type 0
  NoDowngrade [] = Unit
  NoDowngrade (c ∷ rest) = Follows c rest × NoDowngrade rest

  turn_of-go : (r : Result String) (next : String) → turn_of r ≡ go next → r ≡ ok next
  turn_of-go (ok n) next h = ground (arith, h)
  turn_of-go (err e) next h = ground (arith, h)

  next_url-ok :
      (redirect_count : ℕ) (resolved : ResolvedWebsiteUrl) (location : Option String)
      (next : String)
      → next_url web session original redirect_count resolved location ≡ ok next
      → (same_site web original next ≡ ok true) × (is_downgrade web resolved.scheme next ≡ false)
  unfolding next_url
  next_url-ok redirect_count resolved location next h =
      let (_, _, h1) =
        bind-ok (guard (truthy location && ltb redirect_count session.max_redirects) bad_redirect) _
          h in
      let (n, _, h2) =
        bind-ok (or_else value_error (web.urljoin resolved.url (text_or_empty location))) _ h1 in
      let (same, s, h3) = bind-ok (same_site web original n) _ h2 in
      let (_, g, h4) = bind-ok (guard same other_site) _ h3 in
      let (_, d, h5) = bind-ok (guard (not (is_downgrade web resolved.scheme n)) downgrade) _ h4 in
      let here : n ≡ next = ground (arith, h5) in
      (
        rw (sym here) (rw (sym (guard-ok same other_site g)) s),
        ground (arith, here, guard-ok (not (is_downgrade web resolved.scheme n)) downgrade d),
      )

  turn-go :
      (redirect_count : ℕ) (resolved : ResolvedWebsiteUrl) (o : Option Response) (next : String)
      → turn web session accepted_types original redirect_count resolved o ≡ go next
      → (same_site web original next ≡ ok true) × (is_downgrade web resolved.scheme next ≡ false)
  unfolding turn
  turn-go redirect_count resolved none next h = ground (arith, h)
  turn-go redirect_count resolved (some response) next h =
      elim (Bool-cases (is_redirect response.status)) [
        | inl y ↦
            next_url-ok redirect_count resolved response.location next
              (turn_of-go _ next (rw y at h))
        | inr y ↦
            let wrong : finish (read_page web session accepted_types resolved response) ≡ go next =
              rw y at h in
            ground (arith, wrong)
      ]

  abbrev Visits : ℕ → Fetch → Type 0
  Visits left f =
      All Pinned f.connections × (length f.connections ≤ left) × NoDowngrade f.connections

  run-Follows :
      (c : Connection) (left redirect_count : ℕ) (current : String)
      → is_downgrade web c.resolved.scheme current ≡ false
      → Follows c (run web session accepted_types original left redirect_count current).connections
  run-Follows c zero redirect_count current h =
      rw (run-zero web session accepted_types original redirect_count current) tt
  run-Follows c (suc left) redirect_count current h =
      elim (Result-cases (resolve_public_url web current)) [
        | inr e ↦
            rw
              (run-unresolved web session accepted_types original left redirect_count current e.0
                e.1)
              tt
        | inl r ↦
            elim (Turn-cases web session accepted_types original
              (answer web session accepted_types original redirect_count r.0)) [
                | inr f ↦
                    rw
                      (run-finish web session accepted_types original left redirect_count current
                        r.0 f.0 r.1 f.1)
                      h
                | inl n ↦
                    rw
                      (run-go web session accepted_types original left redirect_count current r.0
                        n.0 r.1 n.1)
                      h
              ]
      ]

  run-Visits :
      (left redirect_count : ℕ) (current : String)
      → (current ≡ original) ⊎ (same_site web original current ≡ ok true)
      → Visits left (run web session accepted_types original left redirect_count current)
  run-Visits zero redirect_count current site =
      rw (run-zero web session accepted_types original redirect_count current)
        (tt, ground arith, tt)
  run-Visits (suc left) redirect_count current site =
      elim (Result-cases (resolve_public_url web current)) [
        | inr e ↦
            rw
              (run-unresolved web session accepted_types original left redirect_count current e.0
                e.1)
              (tt, ground arith, tt)
        | inl r ↦
            let p : IsGlobal web r.0.ip_address = resolve_public_url-IsGlobal web current r.0 r.1 in
            elim (Turn-cases web session accepted_types original
              (answer web session accepted_types original redirect_count r.0)) [
                | inr f ↦
                    rw
                      (run-finish web session accepted_types original left redirect_count current
                        r.0 f.0 r.1 f.1)
                      (((p, r.1, site), tt), ground arith, (tt, tt))
                | inl n ↦
                    let t =
                      turn-go redirect_count r.0 (session.respond redirect_count r.0) n.0 n.1 in
                    let (a, b, c) = run-Visits left (redirect_count + 1) n.0 (inr t.0) in
                    let here : Connection = record { requested = current; resolved = r.0 } in
                    rw
                      (run-go web session accepted_types original left redirect_count current r.0
                        n.0 r.1 n.1)
                      (
                        ((p, r.1, site), a),
                        ground (arith, b),
                        (run-Follows here left (redirect_count + 1) n.0 t.1, c),
                      )
              ]
      ]

  -- A fetch connects at most `max_redirects + 1` times. Each connection goes to a global address
  -- that the requested URL resolves to; that URL is the one asked for or of the same site; and
  -- after a connection over https the next URL does not start with `http://`.
  pub fetch_url-Pinned :
      All Pinned (fetch_url web session accepted_types original).connections
      × (length (fetch_url web session accepted_types original).connections
          ≤ session.max_redirects + 1)
      × NoDowngrade (fetch_url web session accepted_types original).connections
  unfolding fetch_url run
  fetch_url-Pinned = run-Visits (session.max_redirects + 1) 0 original (inl refl)
