-- ===== src/Crawler/Links/Kept.antt =====
-- The sorting and the limit of `discover_priority_urls` keep what holds for the collected URLs.
use sniper_synapse.Base.{
  ℕ, suc, zero, ◌≤◌, String, ◌≡◌, refl, sym, List, [], ◌∷◌, map, arith, take, str_eq, All,
  Bool-cases, inl, inr, length, length-take_le,
}
use sniper_synapse.Crawler.Security.{Web}
use sniper_synapse.Crawler.Pages.{Content}
use sniper_synapse.Crawler.Links.{set_min, entry_before, insert_entry, sort_entries}

-- Every entry of the dict has a URL with the property `P`.
abbrev pub UrlsHold : (String → Type 0) → List (String × ℕ) → Type 0
UrlsHold P entries = All (λ e. P e.0) entries

module _ (P : String → Type 0) where
  pub set_min-UrlsHold :
      (url : String) (priority : ℕ) (es : List (String × ℕ))
      → P url
      → UrlsHold P es
      → UrlsHold P (set_min (url, priority) es)
  unfolding set_min
  set_min-UrlsHold url priority [] p h = (p, tt)
  set_min-UrlsHold url priority ((known, least) ∷ es) p h = elim (Bool-cases (str_eq known url)) [
    | inl y ↦ rw y h
    | inr n ↦ rw n (h.0, set_min-UrlsHold url priority es p h.1)
  ]

  map-UrlsHold : (es : List (String × ℕ)) → UrlsHold P es → All P (map (λ e. e.0) es)
  map-UrlsHold [] h = tt
  map-UrlsHold (e ∷ es) h = (h.0, map-UrlsHold es h.1)

  take-UrlsHold : (n : ℕ) (es : List (String × ℕ)) → UrlsHold P es → UrlsHold P (take n es)
  take-UrlsHold zero es h = tt
  take-UrlsHold (suc n) [] h = tt
  take-UrlsHold (suc n) (e ∷ es) h = (h.0, take-UrlsHold n es h.1)

  module _ (web : Web) (content : Content) (size : String → ℕ) where
    insert-UrlsHold :
        (e : String × ℕ) (es : List (String × ℕ))
        → P e.0
        → UrlsHold P es
        → UrlsHold P (insert_entry web content size e es)
    unfolding insert_entry
    insert-UrlsHold e [] p h = (p, tt)
    insert-UrlsHold e (f ∷ fs) p h = elim (Bool-cases (entry_before web content size f e)) [
      | inl y ↦ rw y (h.0, insert-UrlsHold e fs p h.1)
      | inr n ↦ rw n (p, h)
    ]

    sort-UrlsHold :
        (es : List (String × ℕ)) → UrlsHold P es → UrlsHold P (sort_entries web content size es)
    unfolding sort_entries
    sort-UrlsHold [] h = tt
    sort-UrlsHold (e ∷ es) h =
        insert-UrlsHold e (sort_entries web content size es) h.0 (sort-UrlsHold es h.1)

map-length : {A B : Type 0} (f : A → B) (xs : List A) → length (map f xs) ≡ length xs
map-length f [] = refl
map-length f (x ∷ xs) = omega (arith, map-length f xs)

pub chosen-UrlsHold :
    (web : Web) (content : Content) (size : String → ℕ) (P : String → Type 0) (n : ℕ)
    (candidates : List (String × ℕ)) (urls : List String)
    → map (λ e. e.0) (take n (sort_entries web content size candidates)) ≡ urls
    → UrlsHold P candidates
    → (length urls ≤ n) × All P urls
chosen-UrlsHold web content size P n candidates urls e h =
    let sorted = sort_entries web content size candidates in
    (
      rw (sym e) (
          omega (
            arith,
            map-length {A = String × ℕ} {B = String} (λ x. x.0) (take n sorted),
            length-take_le n sorted,
          )),
      rw (sym e) (
          map-UrlsHold P (take n sorted)
            (take-UrlsHold P n sorted (sort-UrlsHold P web content size candidates h))),
    )
