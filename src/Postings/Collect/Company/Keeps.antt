-- ===== src/Postings/Collect/Company/Keeps.antt =====
-- What `collect_company_jobs` of apps/sources/jobs/services.py keeps, in both modes and when it
-- raises.
use sniper_synapse.Base.{
  ℕ, suc, ◌+◌, ◌≤◌, String, ◌≡◌, ◌⊎◌, refl, sym, ◌∙◌, ap, arith, Bool, true, false, Option, List,
  [], ◌∷◌, ◌++◌, any, update_where, Bool-cases, Option-cases, inl, inr, length,
}
use sniper_synapse.Base.Results.{Result, ok, err}
use sniper_synapse.Crawler.Security.{Web}
use sniper_synapse.Cnpj.Models.{Source}
use sniper_synapse.Postings.Parse.{PostingError, Markup, is_text}
use sniper_synapse.Postings.Persist.{PostingTables, Moment, add}
use sniper_synapse.Postings.Matching.{JobSourceItem, Employer, Texts, Reason, match_company}
use sniper_synapse.Postings.Collect.{
  JobPostingReview, is_pending, JobTables, Digests, is_candidate, refreshed, seen_again,
  review_candidate, persist_source_item,
}
use sniper_synapse.Postings.Collect.Company.{Tally, persisted_one, take_item, take_items}

-- A review after some operations: its status is the same, and one that is resolved has changed in
-- `last_seen_at` only.
abbrev pub Settled : JobPostingReview → JobPostingReview → Type 0
Settled r r' =
    (r'.status ≡ r.status)
    × ((is_pending r.status ≡ true) ⊎ (r' ≡ record r { last_seen_at = r'.last_seen_at }))

-- The reviews that were there are there, in their places, and settled.
abbrev pub AllSettled : List JobPostingReview → List JobPostingReview → Type 0
AllSettled [] rows = Unit
AllSettled (r ∷ rest) [] = r ≡ r × (true ≡ false)
AllSettled (r ∷ rest) (r' ∷ rest') = Settled r r' × AllSettled rest rest'

pub Settled-refl : (r : JobPostingReview) → Settled r r
Settled-refl r = (refl, inr refl)

Settled-trans : (r s t : JobPostingReview) → Settled r s → Settled s t → Settled r t
Settled-trans r s t (e, inl p) (f, _) = (f ∙ e, inl p)
Settled-trans r s t (e, inr k) (f, inl p) = (f ∙ e, inl (ap is_pending (sym e) ∙ p))
Settled-trans r s t (e, inr k) (f, inr l) =
    (f ∙ e, inr (l ∙ ap {A = JobPostingReview} (λ x. record x { last_seen_at = t.last_seen_at }) k))

pub AllSettled-refl : (rows : List JobPostingReview) → AllSettled rows rows
AllSettled-refl [] = tt
AllSettled-refl (r ∷ rows) = (Settled-refl r, AllSettled-refl rows)

AllSettled-trans :
    (a b c : List JobPostingReview) → AllSettled a b → AllSettled b c → AllSettled a c
AllSettled-trans [] b c h k = tt
AllSettled-trans (r ∷ a) [] c h k = ground (arith, h)
AllSettled-trans (r ∷ a) (s ∷ b) [] h k = ground (arith, k)
AllSettled-trans (r ∷ a) (s ∷ b) (t ∷ c) h k =
    (Settled-trans r s t h.0 k.0, AllSettled-trans a b c h.1 k.1)

AllSettled-append : (rows more : List JobPostingReview) → AllSettled rows (rows ++ more)
AllSettled-append [] more = tt
AllSettled-append (r ∷ rows) more = (Settled-refl r, AllSettled-append rows more)

AllSettled-update :
    (p : JobPostingReview → Bool) (f : JobPostingReview → JobPostingReview)
    (rows : List JobPostingReview)
    → ((r : JobPostingReview) → Settled r (f r))
    → AllSettled rows (update_where p f rows)
AllSettled-update p f [] h = tt
AllSettled-update p f (r ∷ rows) h = elim (Bool-cases (p r)) [
  | inl y ↦ rw y (h r, AllSettled-update p f rows h)
  | inr n ↦ rw n (Settled-refl r, AllSettled-update p f rows h)
]

module _ (py : Texts) (markup : Markup) (web : Web) (digests : Digests) where
  seen_again-Settled :
      (now : ℕ) (c : Employer) (item : JobSourceItem) (reason : Reason) (r : JobPostingReview)
      → Settled r (seen_again py markup web digests now c item reason r)
  unfolding seen_again refreshed
  seen_again-Settled now c item reason r = elim (Bool-cases (is_pending r.status)) [
    | inl y ↦ rw y (refl, inl refl)
    | inr n ↦ rw n (refl, inr refl)
  ]

  review_candidate-AllSettled :
      (now : ℕ) (source : Source) (c : Employer) (item : JobSourceItem) (reason : Reason)
      (t : JobTables)
      → AllSettled t.reviews
          (review_candidate py markup web digests now source c item reason t).0.reviews
  unfolding review_candidate
  review_candidate-AllSettled now source c item reason t =
      elim (Bool-cases (any (is_candidate py markup web digests source item) t.reviews)) [
        | inl y ↦ rw y (
            AllSettled-update (is_candidate py markup web digests source item)
              (seen_again py markup web digests now c item reason) t.reviews
              (seen_again-Settled now c item reason))
        | inr n ↦ rw n (AllSettled-append t.reviews _)
      ]

  module _ (m : Moment) (source : Source) (c : Employer) where
    abbrev pub take_one : Bool → JobSourceItem → Bool × Reason → Tally → Tally × Option PostingError
    take_one = take_item py markup web digests m source c

    abbrev pub take_all : Bool → List JobSourceItem → Tally → Tally × Option PostingError
    take_all = take_items py markup web digests m source c

    persisted-reviews :
        (t : Tally) (out : PostingTables × Result PostingError String)
        → (persisted_one py markup web digests m source c t out).0.tables.reviews ≡ t.tables.reviews
    persisted-reviews t (_, err e) = refl
    persisted-reviews t (_, ok s) = refl

    take_item-AllSettled :
        (full : Bool) (item : JobSourceItem) (why : Bool × Reason) (t : Tally)
        → AllSettled t.tables.reviews (take_one full item why t).0.tables.reviews
    unfolding take_item
    take_item-AllSettled false item (true, reason) t = AllSettled-refl t.tables.reviews
    take_item-AllSettled false item (false, reason) t = AllSettled-refl t.tables.reviews
    take_item-AllSettled true item (true, reason) t =
        rw
          (persisted-reviews (record t { matched = t.matched + 1 })
            (persist_source_item py markup web digests m source c item t.tables.postings))
          (AllSettled-refl t.tables.reviews)
    take_item-AllSettled true item (false, reason) t =
        review_candidate-AllSettled m.observed_at source c item reason t.tables

    pub take_items-AllSettled :
        (full : Bool) (items : List JobSourceItem) (t : Tally)
        → AllSettled t.tables.reviews (take_all full items t).0.tables.reviews
    unfolding take_items
    take_items-AllSettled full [] t = AllSettled-refl t.tables.reviews
    take_items-AllSettled full (item ∷ rest) t =
        let why : Bool × Reason = match_company py t.tables.companies c item in
        let first = take_item-AllSettled full item why t in
        elim (Option-cases (take_one full item why t).1) [
          | inr e ↦ rw (e.1, take_items) first
          | inl n ↦
              rw (n, take_items)
                (AllSettled-trans t.tables.reviews (take_one full item why t).0.tables.reviews _
                  first (take_items-AllSettled full rest (take_one full item why t).0))
        ]

    -- What an item adds to the counts.
    abbrev pub Counted : ℕ → Tally → Type 0
    Counted n t =
        (length t.seen ≤ t.persisted) × (t.persisted ≤ t.matched) × (t.matched + t.reviews ≤ n)

    length-add : (s : String) (seen : List String) → length (add s seen) ≤ suc (length seen)
    length-add s seen = ground arith

    persisted-Counted :
        (n : ℕ) (t : Tally) (out : PostingTables × Result PostingError String)
        → length t.seen ≤ t.persisted
        → t.persisted + 1 ≤ t.matched
        → t.matched + t.reviews ≤ n
        → Counted n (persisted_one py markup web digests m source c t out).0
    persisted-Counted n t (_, err e) h k l = (h, omega (arith, k), l)
    persisted-Counted n t (_, ok s) h k l = elim (Bool-cases (is_text s)) [
      | inl y ↦ rw y (omega (arith, h, length-add s t.seen), omega (arith, k), l)
      | inr y ↦ rw y (omega (arith, h), omega (arith, k), l)
    ]

    take_item-Counted :
        (n : ℕ) (full : Bool) (item : JobSourceItem) (why : Bool × Reason) (t : Tally)
        → Counted n t
        → Counted (suc n) (take_one full item why t).0
    unfolding take_item
    take_item-Counted n false item (true, reason) t (a, b, d) =
        (a, omega (arith, b), omega (arith, d))
    take_item-Counted n false item (false, reason) t (a, b, d) = (a, b, omega (arith, d))
    take_item-Counted n true item (true, reason) t (a, b, d) =
        persisted-Counted (suc n) (record t { matched = t.matched + 1 })
          (persist_source_item py markup web digests m source c item t.tables.postings) a
          (omega (arith, b)) (omega (arith, d))
    take_item-Counted n true item (false, reason) t (a, b, d) =
        let created : Bool =
          (review_candidate py markup web digests m.observed_at source c item reason t.tables).1 in
        elim (Bool-cases created) [
          | inl y ↦ (a, b, rw y (omega (arith, d)))
          | inr y ↦ (a, b, rw y (omega (arith, d)))
        ]

    pub take_items-Counted :
        (n : ℕ) (full : Bool) (items : List JobSourceItem) (t : Tally)
        → Counted n t
        → Counted (n + length items) (take_all full items t).0
    unfolding take_items
    take_items-Counted n full [] t (a, b, d) = (a, b, omega (arith, d))
    take_items-Counted n full (item ∷ rest) t h =
        let why : Bool × Reason = match_company py t.tables.companies c item in
        let (a, b, d) = take_item-Counted n full item why t h in
        let (a', b', d') =
          take_items-Counted (suc n) full rest (take_one full item why t).0 (a, b, d) in
        elim (Option-cases (take_one full item why t).1) [
          | inr e ↦ rw (e.1, take_items) (a, b, omega (arith, d))
          | inl k ↦ rw (k, take_items) (a', b', omega (arith, d'))
        ]
