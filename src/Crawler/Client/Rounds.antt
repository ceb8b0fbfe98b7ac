-- ===== src/Crawler/Client/Rounds.antt =====
-- The rounds of `fetch_url`: what resolving a host guarantees, and the cases of one round.
use sniper_synapse.Base.{
  ℕ, suc, ◌+◌, String, ◌≡◌, refl, true, ◌⊎◌, some, List, [], ◌∷◌, arith, Bool-cases, inl, inr, All,
}
use sniper_synapse.Crawler.Security.{
  Web, ResolvedWebsiteUrl, FetchError, redirects_exhausted, Result, ok, err, or_else, value_error,
  lookup, canonicalize_url, bind-ok, check_addresses, first_address, select_address,
  resolve_public_url, address_before,
}
use sniper_synapse.Crawler.Client.{
  FetchResult, Session, Fetch, Turn, go, finish, turn, stop, log, rounds,
}

pub Result-cases {ℓ} :
    {A : Type ℓ} (r : Result A) → ((a : A) × (r ≡ ok a)) ⊎ ((e : FetchError) × (r ≡ err e))
Result-cases (ok a) = inl (a, refl)
Result-cases (err e) = inr (e, refl)

module _ (web : Web) where
  abbrev pub IsGlobal : String → Type 0
  IsGlobal address = web.is_global address ≡ some true

  check_addresses-All :
      (addresses : List String) → check_addresses web addresses ≡ ok tt → All IsGlobal addresses
  unfolding check_addresses
  check_addresses-All [] h = tt
  check_addresses-All (a ∷ rest) h =
      (ground (arith, h), check_addresses-All rest (ground (arith, h)))

  first_address-Holds :
      (best : String) (rest : List String)
      → IsGlobal best
      → All IsGlobal rest
      → IsGlobal (first_address web best rest)
  unfolding first_address
  first_address-Holds best [] h k = h
  first_address-Holds best (a ∷ rest) h k = elim (Bool-cases (address_before web a best)) [
    | inl y ↦ rw y (first_address-Holds a rest k.0 k.1)
    | inr y ↦ rw y (first_address-Holds best rest h k.1)
  ]

  select_address-IsGlobal :
      (addresses : List String) (a : String) → select_address web addresses ≡ ok a → IsGlobal a
  unfolding select_address
  select_address-IsGlobal [] a h = ground (arith, h)
  select_address-IsGlobal (b ∷ rest) a h =
      let (u, checked, e) = bind-ok (check_addresses web (b ∷ rest)) _ h in
      let good : All IsGlobal (b ∷ rest) = check_addresses-All (b ∷ rest) checked in
      let same : a ≡ first_address web b rest = ground (arith, e) in
      rw same (first_address-Holds b rest good.0 good.1)

  pub resolve_public_url-IsGlobal :
      (value : String) (r : ResolvedWebsiteUrl)
      → resolve_public_url web value ≡ ok r
      → IsGlobal r.ip_address
  unfolding resolve_public_url
  resolve_public_url-IsGlobal value r h =
      let (url, _, h1) = bind-ok (canonicalize_url web value) _ h in
      let (parsed, _, h2) = bind-ok (or_else value_error (web.urlsplit url)) _ h1 in
      let (addresses, _, h3) = bind-ok (lookup web parsed) _ h2 in
      let (selected, s, h4) = bind-ok (select_address web addresses) _ h3 in
      let same : r.ip_address ≡ selected = ground (arith, h4) in
      rw same (select_address-IsGlobal addresses selected s)

module _ (web : Web) (session : Session) (accepted_types : List String) (original : String) where
  unfoldable pub run : ℕ → ℕ → String → Fetch
  run left redirect_count current =
      rounds web session left accepted_types original redirect_count current

  abbrev pub answer : ℕ → ResolvedWebsiteUrl → Turn
  answer redirect_count r =
      turn web session accepted_types original redirect_count r (session.respond redirect_count r)

  module _ (left redirect_count : ℕ) (current : String) where
    pub run-unresolved :
        (e : FetchError)
        → resolve_public_url web current ≡ err e
        → run (suc left) redirect_count current ≡ stop (err e)
    unfolding rounds run
    run-unresolved e h = rw (h, rounds) refl

    pub run-finish :
        (r : ResolvedWebsiteUrl) (f : Result FetchResult)
        → resolve_public_url web current ≡ ok r
        → answer redirect_count r ≡ finish f
        → run (suc left) redirect_count current ≡ log current r (stop f)
    unfolding rounds run
    run-finish r f h k = rw (h, rounds) (rw k refl)

    pub run-go :
        (r : ResolvedWebsiteUrl) (next : String)
        → resolve_public_url web current ≡ ok r
        → answer redirect_count r ≡ go next
        → run (suc left) redirect_count current ≡ log current r (run left (redirect_count + 1) next)
    unfolding rounds run
    run-go r next h k = rw (h, rounds) (rw k refl)

  pub Turn-cases :
      (t : Turn) → ((next : String) × (t ≡ go next)) ⊎ ((f : Result FetchResult) × (t ≡ finish f))
  Turn-cases (go next) = inl (next, refl)
  Turn-cases (finish f) = inr (f, refl)

  pub run-zero :
      (redirect_count : ℕ) (current : String)
      → run 0 redirect_count current ≡ stop (err redirects_exhausted)
  unfolding rounds run
  run-zero redirect_count current = refl
