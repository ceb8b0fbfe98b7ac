-- ===== src/Postings/Fixture.antt =====
-- The adapter of apps/sources/jobs/fixture.py, which reads the items of a source from a JSON file
-- under the limits of base.py, and `_bounded_positive` of jobs.py, which makes these limits.
use sniper_synapse.Base.{
  ℕ, zero, suc, ◌≤◌, String, ◌≡◌, ◌⊎◌, refl, sym, arith, true, not, ◌||◌, Option, some, List, [],
  ◌∷◌, ◌++◌, ◌==◌, ltb, if◌then◌else◌, length, length-take_le, take, Bool-cases, inl, inr,
}
use sniper_synapse.Base.Int.{ℤ}
use sniper_synapse.Base.Results.{
  Result, ok, err, ◌>>=◌, guard, or_raise, bound, guarded, ok_inj, raised_none,
}
use sniper_synapse.Scoring.Json.{Json, list, dict, Entries, get, to_list}
use sniper_synapse.Postings.Parse.{Markup, is_text, null_or, scalar}
use sniper_synapse.Postings.Matching.{JobSourceItem}
use sniper_synapse.Postings.Collect.Company.{
  JobsError, bad_limits, adapter_failed, JobCollectionBatch, bounded_positive,
}

pub record JobCollectionLimits : Type 0 where
  pub max_pages : ℕ
  pub max_results : ℕ
  pub max_bytes : ℕ

-- `JobCollectionLimits.__post_init__`
unfoldable pub check_limits : JobCollectionLimits → Result JobsError JobCollectionLimits
check_limits l =
    if l.max_pages == 0 || (l.max_results == 0 || l.max_bytes == 0) then err bad_limits else ok l

-- The limits of `execute_find_jobs`: the requested ones, within the settings.
unfoldable pub limits_of :
    Option ℤ → Option ℤ → JobCollectionLimits → Result JobsError JobCollectionLimits
limits_of pages results settings = do
  max_pages ← bounded_positive pages settings.max_pages
  max_results ← bounded_positive results settings.max_results
  check_limits (record settings { max_pages = max_pages; max_results = max_results })

-- `metadata` is the text of a dict, or of the empty one.
module _ (py : Markup) (metadata : Option Json → String) where
  -- `_text`
  abbrev text_of : ℕ → String → Entries → String
  text_of limit key d = py.cut limit (scalar py (null_or (get key d)))

  unfoldable pub item_of : Entries → JobSourceItem
  item_of d = record {
    external_id = text_of 500 "external_id" d;
    title = text_of 500 "title" d;
    company_name = text_of 500 "company_name" d;
    company_domain = py.casefold (text_of 255 "company_domain" d);
    company_cnpj = text_of 32 "company_cnpj" d;
    description = text_of 20000 "description" d;
    location = text_of 500 "location" d;
    url = text_of 1000 "url" d;
    published_on = text_of 40 "published_on" d;
    valid_through = text_of 40 "valid_through" d;
    employment_type = text_of 120 "employment_type" d;
    metadata = metadata (get "metadata" d);
  }

  -- The loop over the raw items: those that are dicts with a title.
  unfoldable pub items_of : List Json → List JobSourceItem
  items_of [] = []
  items_of (dict d ∷ rest) =
      let later = items_of rest in
      if is_text (text_of 500 "title" d) then item_of d ∷ later else later
  items_of (_ ∷ rest) = items_of rest

  abbrev items_in : Option Json → List Json
  items_in (some (list items)) = to_list items
  items_in _ = []

  abbrev page_items : Json → List Json
  page_items (dict d) = items_in (get "items" d)
  page_items v = items_in (some v)

  unfoldable pub raw_items : List Json → List Json
  raw_items [] = []
  raw_items (page ∷ pages) = page_items page ++ raw_items pages

  abbrev pages_or : Json → Option Json → List Json
  pages_or payload (some (list pages)) = to_list pages
  pages_or payload _ = payload ∷ []

  abbrev pub pages_of : Json → List Json
  pages_of (dict d) = pages_or (dict d) (get "pages" d)
  pages_of payload = payload ∷ []

  unfoldable pub read_pages : JobCollectionLimits → ℕ → Json → JobCollectionBatch
  read_pages l size payload =
      let pages = pages_of payload in
      let selected = take l.max_pages pages in
      let raw = raw_items selected in
      record {
        items = items_of (take l.max_results raw);
        pages_read = length selected;
        bytes_read = size;
        truncated = ltb (length selected) (length pages) || ltb l.max_results (length raw);
      }

  -- `FixtureJobsAdapter.collect`: the size of the file and its JSON value, absent for an exception.
  unfoldable pub collect :
      JobCollectionLimits → Option ℕ → Option Json → Result JobsError JobCollectionBatch
  collect l file_size content = do
    size ← or_raise adapter_failed file_size
    _ ← guard (not (ltb l.max_bytes size)) adapter_failed
    payload ← or_raise adapter_failed content
    ok (read_pages l size payload)

  length-items_of : (raw : List Json) → length (items_of raw) ≤ length raw
  unfolding items_of
  length-items_of [] = omega arith
  length-items_of (Json.null ∷ rest) = omega (arith, length-items_of rest)
  length-items_of (Json.bool b ∷ rest) = omega (arith, length-items_of rest)
  length-items_of (Json.num d ∷ rest) = omega (arith, length-items_of rest)
  length-items_of (Json.text s ∷ rest) = omega (arith, length-items_of rest)
  length-items_of (list i ∷ rest) = omega (arith, length-items_of rest)
  length-items_of (dict d ∷ rest) = elim (Bool-cases (is_text (text_of 500 "title" d))) [
    | inl y ↦ rw y (omega (arith, length-items_of rest))
    | inr n ↦ rw n (omega (arith, length-items_of rest))
  ]

  take-length : {A : Type 0} (n : ℕ) (xs : List A) → length (take n xs) ≤ length xs
  take-length zero xs = omega arith
  take-length (suc n) [] = omega arith
  take-length (suc n) (x ∷ xs) = omega (arith, take-length n xs)

  -- Every page was read, and no raw item is over the limit.
  abbrev pub WholeBatch : JobCollectionLimits → Json → JobCollectionBatch → Type 0
  WholeBatch l payload batch =
      (batch.pages_read ≡ length (pages_of payload))
      × (length (raw_items (take l.max_pages (pages_of payload))) ≤ l.max_results)

  read_pages-WholeBatch :
      (l : JobCollectionLimits) (size : ℕ) (payload : Json)
      → ((read_pages l size payload).truncated ≡ true)
        ⊎ WholeBatch l payload (read_pages l size payload)
  unfolding read_pages
  read_pages-WholeBatch l size payload =
      let pages : List Json = pages_of payload in
      let raw : List Json = raw_items (take l.max_pages pages) in
      elim (Bool-cases (ltb (length (take l.max_pages pages)) (length pages))) [
        | inl y ↦ inl (rw y refl)
        | inr n ↦ elim (Bool-cases (ltb l.max_results (length raw))) [
          | inl y ↦ inl (rw (n, y) refl)
          | inr k ↦ inr (ground (arith, n, take-length l.max_pages pages), ground (arith, k))
        ]
      ]

  read_pages-small :
      (l : JobCollectionLimits) (size : ℕ) (payload : Json)
      → ((read_pages l size payload).pages_read ≤ l.max_pages)
        × (length (read_pages l size payload).items ≤ l.max_results)
  unfolding read_pages
  read_pages-small l size payload =
      let raw : List Json = raw_items (take l.max_pages (pages_of payload)) in
      (
        length-take_le l.max_pages (pages_of payload),
        omega (arith, length-items_of (take l.max_results raw), length-take_le l.max_results raw),
      )

  read_pages-size :
      (l : JobCollectionLimits) (size : ℕ) (payload : Json)
      → (read_pages l size payload).bytes_read ≡ size
  unfolding read_pages
  read_pages-size l size payload = refl

  -- A batch of the adapter is within its limits: in pages, in items and in the bytes of the file.
  -- One that is not marked as truncated has read every page of the file, and had no more raw items
  -- than the limit.
  pub collect-Limited :
      (l : JobCollectionLimits) (file_size : Option ℕ) (content : Option Json)
      (batch : JobCollectionBatch)
      → collect l file_size content ≡ ok batch
      → (batch.pages_read ≤ l.max_pages)
        × (length batch.items ≤ l.max_results)
        × (batch.bytes_read ≤ l.max_bytes)
        × ((payload : Json) × (content ≡ some payload)
            × ((batch.truncated ≡ true) ⊎ WholeBatch l payload batch))
  unfolding collect
  collect-Limited l file_size content batch h =
      let (size, _, h1) = bound (or_raise adapter_failed file_size) _ h in
      let (_, fits, h2) = bound (guard (not (ltb l.max_bytes size)) adapter_failed) _ h1 in
      let (payload, found, h3) = bound (or_raise adapter_failed content) _ h2 in
      let small : not (ltb l.max_bytes size) ≡ true =
        guarded (not (ltb l.max_bytes size)) adapter_failed fits in
      let same : read_pages l size payload ≡ batch =
        ok_inj {E = JobsError} (read_pages l size payload) batch h3 in
      let (pages, items) = read_pages-small l size payload in
      rw (sym same) (
        pages,
        items,
        rw (read_pages-size l size payload) (ground (arith, small)),
        (
          payload,
          raised_none adapter_failed content payload found,
          read_pages-WholeBatch l size payload,
        ),
      )
