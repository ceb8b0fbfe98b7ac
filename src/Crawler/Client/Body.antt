-- ===== src/Crawler/Client/Body.antt =====
-- What `fetch_url` returns: a bounded body of an accepted type.
use sniper_synapse.Base.{
  ℕ, zero, suc, ◌+◌, ◌≤◌, String, ◌≡◌, ◌∙◌, sym, true, Option, none, some, List, arith, leb, leb→le,
  ap, Bool-cases, inl, inr, any, take, length, str_eq,
}
use sniper_synapse.Crawler.Security.{
  Web, ResolvedWebsiteUrl, Result, ok, err, guard, text_or_empty, bad_content_type, read_too_long,
  bind-ok, guard-ok, resolve_public_url,
}
use sniper_synapse.Crawler.Client.{
  Response, FetchResult, Session, next_url, read_page, turn_of, is_redirect, check_length, finish,
  turn, fetch_url,
}
use sniper_synapse.Crawler.Client.Rounds.{
  Result-cases, run, answer, run-unresolved, run-finish, run-go, Turn-cases, run-zero,
}

module _ (web : Web) (session : Session) (accepted_types : List String) (original : String) where
  abbrev pub Fits : FetchResult → Type 0
  Fits r = (length r.body ≤ session.max_bytes) × (any (str_eq r.content_type) accepted_types ≡ true)

  abbrev media_type : Response → String
  media_type response = web.lower (web.before_semicolon (text_or_empty response.content_type))

  abbrev body_or : List ℕ → Result FetchResult → List ℕ
  body_or b (ok r) = r.body
  body_or b (err e) = b

  abbrev type_or : String → Result FetchResult → String
  type_or t (ok r) = r.content_type
  type_or t (err e) = t

  read_page-Fits :
      (resolved : ResolvedWebsiteUrl) (response : Response) (r : FetchResult)
      → read_page web session accepted_types resolved response ≡ ok r
      → Fits r
  unfolding read_page
  read_page-Fits resolved response r h =
      let (_, typed, h1) =
        bind-ok (guard (any (str_eq (media_type response)) accepted_types) bad_content_type) _ h in
      let (_, _, h2) = bind-ok (check_length web session response.content_length) _ h1 in
      let (_, short, h3) =
        bind-ok
          (guard (leb (length (take (session.max_bytes + 1) response.bytes)) session.max_bytes)
            read_too_long)
          _ h2 in
      let body : r.body ≡ take (session.max_bytes + 1) response.bytes =
        ap (body_or r.body) (sym h3) in
      let kind : r.content_type ≡ media_type response = ap (type_or r.content_type) (sym h3) in
      let bound = leb→le _ _ (
        guard-ok (leb (length (take (session.max_bytes + 1) response.bytes)) session.max_bytes)
          read_too_long short) in
      (
        rw body bound,
        rw kind
            (guard-ok (any (str_eq (media_type response)) accepted_types) bad_content_type typed),
      )

  absurd_turn {ℓ} :
      {A : Type ℓ} (t : Result String) (r : FetchResult) → turn_of t ≡ finish (ok r) → A
  absurd_turn (ok next) r h = ground (arith, h)
  absurd_turn (err e) r h = ground (arith, h)

  finish_injective : (a b : Result FetchResult) → finish a ≡ finish b → a ≡ b
  finish_injective a b h = ground (arith, h)

  finish-Fits :
      (redirect_count : ℕ) (resolved : ResolvedWebsiteUrl) (o : Option Response) (r : FetchResult)
      → turn web session accepted_types original redirect_count resolved o ≡ finish (ok r)
      → Fits r
  unfolding turn
  finish-Fits redirect_count resolved none r h = ground (arith, h)
  finish-Fits redirect_count resolved (some response) r h =
      elim (Bool-cases (is_redirect response.status)) [
        | inl y ↦
            absurd_turn (next_url web session original redirect_count resolved response.location) r
              (rw y at h)
        | inr y ↦ read_page-Fits resolved response r (finish_injective _ _ (rw y at h))
      ]

  run-Fits :
      (left redirect_count : ℕ) (current : String) (r : FetchResult)
      → (run web session accepted_types original left redirect_count current).outcome ≡ ok r
      → Fits r
  run-Fits zero redirect_count current r h =
      ground (arith, rw (run-zero web session accepted_types original redirect_count current) at h)
  run-Fits (suc left) redirect_count current r h =
      elim (Result-cases (resolve_public_url web current)) [
        | inr e ↦ ground (
          arith,
          rw
              (run-unresolved web session accepted_types original left redirect_count current e.0
                e.1)
              at h,
        )
        | inl p ↦
            elim (Turn-cases web session accepted_types original
              (answer web session accepted_types original redirect_count p.0)) [
                | inr f ↦ finish-Fits redirect_count p.0 (session.respond redirect_count p.0) r (
                    f.1
                    ∙ ap finish (
                        rw
                          (run-finish web session accepted_types original left redirect_count
                            current p.0 f.0 p.1 f.1)
                          at h))
                | inl n ↦ run-Fits left (redirect_count + 1) n.0 r (
                    rw
                      (run-go web session accepted_types original left redirect_count current p.0
                        n.0 p.1 n.1)
                      at h)
              ]
      ]

  -- A page that a fetch returns is at most `max_bytes` long and of an accepted type.
  pub fetch_url-Fits :
      (r : FetchResult) → (fetch_url web session accepted_types original).outcome ≡ ok r → Fits r
  unfolding fetch_url run
  fetch_url-Fits r h = run-Fits (session.max_redirects + 1) 0 original r h
