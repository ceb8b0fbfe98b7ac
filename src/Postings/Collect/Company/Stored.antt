-- ===== src/Postings/Collect/Company/Stored.antt =====
-- Which fingerprints a full run of `collect_company_jobs` (apps/sources/jobs/services.py) has seen:
-- those of the postings that it stored.
use sniper_synapse.Base.{
  ◌+◌, String, ◌≡◌, refl, sym, ◌∙◌, ap, arith, Bool, true, false, ◌||◌, Option, none, some, List,
  [], ◌∷◌, update_where, if◌then◌else◌, Bool-cases, inl, inr, length, str_eq, eq_iff,
}
use sniper_synapse.Base.Results.{Result, ok, err}
use sniper_synapse.Crawler.Security.{Web}
use sniper_synapse.Cnpj.Models.{Source}
use sniper_synapse.Postings.Parse.{PostingError, Markup, is_text}
use sniper_synapse.Postings.Persist.{JobPosting, PostingTables, Moment, contains, add}
use sniper_synapse.Postings.Matching.{JobSourceItem, Employer, Texts, Reason, match_company}
use sniper_synapse.Postings.Collect.{JobTables, Digests, review_candidate, persist_source_item}
use sniper_synapse.Postings.Collect.Company.{
  Tally, persisted_one, take_item, take_items, is_missing,
}

-- A fingerprint that is not empty, before the others.
abbrev pub with_print : String → List String → List String
with_print print prints = if is_text print then print ∷ prints else prints

contains-add :
    (s print : String) (seen : List String)
    → contains s (add print seen) ≡ (str_eq s print || contains s seen)
contains-add s print seen = elim (Bool-cases (contains print seen)) [
  | inr n ↦ rw n refl
  | inl y ↦ elim (Bool-cases (str_eq s print)) [
    | inr k ↦ rw (y, k) refl
    | inl k ↦ rw (y, k) (ap (λ x. contains x seen) ((eq_iff s print).0 k) ∙ y)
  ]
]

or_shuffle : (p a b : Bool) → ((p || a) || b) ≡ (a || (p || b))
or_shuffle true true b = refl
or_shuffle true false b = refl
or_shuffle false a b = refl

or_false : (a : Bool) → a ≡ (a || false)
or_false true = refl
or_false false = refl

module _ (py : Texts) (markup : Markup) (web : Web) (digests : Digests) (m : Moment)
    (source : Source) (c : Employer) where
  -- The items of a full run, from tables to tables, with the fingerprints of the stored postings.
  pub data Stores : List JobSourceItem → JobTables → JobTables → List String → Type 0 where
    no_items : {t : JobTables} → Stores [] t t []
    reviewed :
        {item : JobSourceItem} {rest : List JobSourceItem} {t t' : JobTables} {prints : List String}
        → (match_company py t.companies c item).0 ≡ false
        → Stores rest
            (review_candidate py markup web digests m.observed_at source c item
              (match_company py t.companies c item).1
              t).0
            t'
            prints
        → Stores (item ∷ rest) t t' prints
    stored :
        {item : JobSourceItem} {rest : List JobSourceItem} {t t' : JobTables} {prints : List String}
        (postings : PostingTables) (print : String)
        → (match_company py t.companies c item).0 ≡ true
        → persist_source_item py markup web digests m source c item t.postings
          ≡ (postings, ok print)
        → Stores rest (record t { postings = postings }) t' prints
        → Stores (item ∷ rest) t t' (with_print print prints)

  -- What the loop has at its end, from a tally.
  abbrev pub Seen : List JobSourceItem → Tally → Tally → Type 0
  Seen items t t' =
      (prints : List String) × Stores items t.tables t'.tables prints
      × (t'.persisted ≡ t.persisted + length prints)
      × ((s : String) → contains s t'.seen ≡ (contains s t.seen || contains s prints))

  abbrev one : Tally → PostingTables × Result PostingError String → Tally × Option PostingError
  one = persisted_one py markup web digests m source c

  abbrev all_items : List JobSourceItem → Tally → Tally × Option PostingError
  all_items = take_items py markup web digests m source c true

  print-Seen :
      (item : JobSourceItem) (rest : List JobSourceItem) (t t' : Tally) (postings : PostingTables)
      (print : String)
      → (match_company py t.tables.companies c item).0 ≡ true
      → persist_source_item py markup web digests m source c item t.tables.postings
        ≡ (postings, ok print)
      → Seen rest (one (record t { matched = t.matched + 1 }) (postings, ok print)).0 t'
      → Seen (item ∷ rest) t t'
  print-Seen item rest t t' postings print mine saved (prints, stores, count, seen) = (
    with_print print prints,
    stored postings print mine saved stores,
    elim (Bool-cases (is_text print)) [
      | inl y ↦ rw y (omega (arith, rw y at count))
      | inr n ↦ rw n (omega (arith, rw n at count))
    ],
    λ s. elim (Bool-cases (is_text print)) [
      | inl y ↦ rw y (
          (rw y at (seen s))
          ∙ ap (λ b. b || contains s prints) (contains-add s print t.seen)
          ∙ or_shuffle (str_eq s print) (contains s t.seen) (contains s prints))
      | inr n ↦ rw n (rw n at (seen s))
    ],
  )

  abbrev continue : List JobSourceItem → Tally × Option PostingError → Tally × Option PostingError
  continue rest out = elim out.1 [ some e ↦ (out.0, some e) | none ↦ all_items rest out.0 ]

  matched-Seen :
      (item : JobSourceItem) (rest : List JobSourceItem) (t t' : Tally)
      (out : PostingTables × Result PostingError String)
      → (match_company py t.tables.companies c item).0 ≡ true
      → persist_source_item py markup web digests m source c item t.tables.postings ≡ out
      → ((u : Tally) → all_items rest u ≡ (t', none) → Seen rest u t')
      → continue rest (one (record t { matched = t.matched + 1 }) out) ≡ (t', none)
      → Seen (item ∷ rest) t t'
  matched-Seen item rest t t' (postings, err e) mine saved more h = ground (arith, h)
  matched-Seen item rest t t' (postings, ok print) mine saved more h =
      print-Seen item rest t t' postings print mine saved (more _ h)

  item-Seen :
      (item : JobSourceItem) (rest : List JobSourceItem) (t t' : Tally) (why : Bool × Reason)
      → match_company py t.tables.companies c item ≡ why
      → ((u : Tally) → all_items rest u ≡ (t', none) → Seen rest u t')
      → continue rest (take_item py markup web digests m source c true item why t) ≡ (t', none)
      → Seen (item ∷ rest) t t'
  unfolding take_item
  item-Seen item rest t t' (true, reason) e more h =
      matched-Seen item rest t t' _ (ap (λ w. w.0) e) refl more h
  item-Seen item rest t t' (false, reason) e more h =
      let (prints, stores, count, seen) = more _ h in
      (prints, reviewed (ap (λ w. w.0) e) (rw e stores), count, seen)

  pub take_items-Seen :
      (items : List JobSourceItem) (t t' : Tally) → all_items items t ≡ (t', none) → Seen items t t'
  unfolding take_items
  take_items-Seen [] t t' h =
      let same : t ≡ t' = ap (λ out. out.0) h in
      rw (sym same) ([], no_items, omega arith, λ s. or_false (contains s t.seen))
  take_items-Seen (item ∷ rest) t t' h =
      item-Seen item rest t t' (match_company py t.tables.companies c item) refl
        (λ u e. take_items-Seen rest u t' e) h

  -- The same rows are missing for two lists with the same fingerprints.
  pub same_missing :
      (t : PostingTables) (seen prints : List String) (rows : List JobPosting)
      → ((s : String) → contains s seen ≡ contains s prints)
      → update_where
          (is_missing py markup web digests m source c t seen)
          (λ p. record p { active = false })
          rows
        ≡ update_where
            (is_missing py markup web digests m source c t prints)
            (λ p. record p { active = false })
            rows
  same_missing t seen prints [] h = refl
  same_missing t seen prints (p ∷ rows) h =
      rw (h p.fingerprint, same_missing t seen prints rows h) refl
