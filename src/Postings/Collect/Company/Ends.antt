-- ===== src/Postings/Collect/Company/Ends.antt =====
-- How `collect_company_jobs` of apps/sources/jobs/services.py ends.
use sniper_synapse.Base.{
  ◌+◌, ◌≤◌, String, ◌≡◌, ◌⊎◌, refl, sym, ap, ◌∙◌, arith, Bool, true, false, not, ◌&&◌, Option, none,
  some, List, [], ◌∷◌, update_where, Bool-cases, inl, inr, length, str_eq,
}
use sniper_synapse.Base.Results.{Result, ok, err}
use sniper_synapse.Crawler.Security.{Web}
use sniper_synapse.Cnpj.Models.{Source}
use sniper_synapse.Postings.Parse.{PostingError, Markup}
use sniper_synapse.Postings.Persist.{JobPosting, Moment}
use sniper_synapse.Postings.Matching.{JobSourceItem, Employer, Texts, Reason, match_company}
use sniper_synapse.Postings.Collect.{JobTables, Digests}
use sniper_synapse.Postings.Collect.Company.{
  JobsError, JobCollectionBatch, JobsCollectionOutcome, Tally, take_item, take_items, is_missing,
  deactivate_missing, finish_batch, collect_batch, collect_mode, collect_company_jobs, mode_of,
}
use sniper_synapse.Postings.Collect.Company.Stored.{Stores, take_items-Seen, same_missing}
use sniper_synapse.Postings.Collect.Company.Keeps.{
  AllSettled, AllSettled-refl, take_items-AllSettled, Counted, take_items-Counted,
}

module _ (py : Texts) (markup : Markup) (web : Web) (digests : Digests) (m : Moment)
    (source : Source) (c : Employer) where
  preview-item :
      (item : JobSourceItem) (why : Bool × Reason) (t : Tally)
      → ((take_item py markup web digests m source c false item why t).0.tables ≡ t.tables)
        × ((take_item py markup web digests m source c false item why t).1 ≡ none)
  unfolding take_item
  preview-item item (true, reason) t = (refl, refl)
  preview-item item (false, reason) t = (refl, refl)

  preview-items :
      (items : List JobSourceItem) (t : Tally)
      → ((take_items py markup web digests m source c false items t).0.tables ≡ t.tables)
        × ((take_items py markup web digests m source c false items t).1 ≡ none)
  unfolding take_items
  preview-items [] t = (refl, refl)
  preview-items (item ∷ rest) t =
      let (same, none_raised) = preview-item item (match_company py t.tables.companies c item) t in
      let (later, quiet) =
        preview-items rest
          (take_item py markup web digests m source c false item
            (match_company py t.tables.companies c item) t).0 in
      rw (none_raised, take_items) (later ∙ same, quiet)

  abbrev start : JobTables → Tally
  start t = record { tables = t; seen = []; matched = 0; persisted = 0; reviews = 0 }

  finish_preview :
      (batch : JobCollectionBatch) (out : Tally × Option PostingError)
      → (finish_batch py markup web digests m source c false batch out).0 ≡ out.0.tables
  unfolding finish_batch
  finish_preview batch (t, some e) = refl
  finish_preview batch (t, none) = refl

  preview_batch :
      (batch : Result JobsError JobCollectionBatch) (t : JobTables)
      → (collect_batch py markup web digests m source c false batch t).0 ≡ t
  unfolding collect_batch
  preview_batch (err e) t = refl
  preview_batch (ok batch) t =
      finish_preview batch (take_items py markup web digests m source c false batch.items (start t))
      ∙ (preview-items batch.items (start t)).0

  mode-cases :
      (mode : String)
      → str_eq mode "FULL" ≡ false
      → (mode_of py markup web digests m source c mode ≡ none)
        ⊎ (mode_of py markup web digests m source c mode ≡ some false)
  mode-cases mode n = elim (Bool-cases (str_eq mode "PREVIEW")) [
    | inl y ↦ inr (rw y refl)
    | inr z ↦ inl (rw (z, n) refl)
  ]

  preview_mode :
      (enabled : Bool) (batch : Result JobsError JobCollectionBatch) (t : JobTables)
      → (collect_mode py markup web digests m source c enabled (some false) batch t).0 ≡ t
  preview_mode enabled batch t = elim (Bool-cases (enabled && source.enabled)) [
    | inl y ↦ rw y (preview_batch batch t)
    | inr n ↦ rw n refl
  ]

  -- A collection in a mode other than FULL writes nothing, whatever the adapter answers.
  pub only_full_writes :
      (enabled : Bool) (mode : String) (batch : Result JobsError JobCollectionBatch) (t : JobTables)
      → str_eq mode "FULL" ≡ false
      → (collect_company_jobs py markup web digests m source c enabled mode batch t).0 ≡ t
  unfolding collect_company_jobs
  only_full_writes enabled mode batch t n = elim (mode-cases mode n) [
    | inl e ↦ rw e refl
    | inr e ↦ rw e (preview_mode enabled batch t)
  ]

  abbrev pub items_of : Result JobsError JobCollectionBatch → List JobSourceItem
  items_of (err e) = []
  items_of (ok batch) = batch.items

  -- The active postings of the company and the source with another fingerprint become inactive.
  abbrev pub without_others : JobTables → List String → JobTables
  without_others t prints = record t {
    postings = record t.postings {
      postings =
          update_where (is_missing py markup web digests m source c t.postings prints)
            (λ p. record p { active = false }) t.postings.postings;
    };
  }

  -- A full run stored the postings of the matched items, counted their fingerprints, and then, over
  -- a whole source, deactivated the others.
  abbrev pub FullRun : List JobSourceItem → JobTables → JobTables → JobsCollectionOutcome → Type 0
  FullRun items t t' o =
      (mid : JobTables) × (prints : List String) × Stores py markup web digests m source c items t
        mid prints
      × (o.jobs_persisted ≡ length prints)
      × (((o.truncated ≡ true) × (t' ≡ mid))
          ⊎ ((o.truncated ≡ false) × (t' ≡ without_others mid prints)))

  -- What a collection that returned says: no more postings than matched items, no more matched
  -- items and new reviews than items, and what it wrote.
  abbrev pub EndsWell :
      List JobSourceItem → JobTables → JobTables → Result JobsError JobsCollectionOutcome → Type 0
  EndsWell items t t' (err e) = Unit
  EndsWell items t t' (ok o) =
      (o.jobs_persisted ≤ o.items_matched)
      × (o.items_matched + o.reviews_created ≤ o.items_scanned)
      × (((o.is_full ≡ false) × (t' ≡ t)) ⊎ ((o.is_full ≡ true) × FullRun items t t' o))

  abbrev with_postings : JobTables → List JobPosting → JobTables
  with_postings t rows = record t { postings = record t.postings { postings = rows } }

  finish_full :
      (batch : JobCollectionBatch) (t : JobTables) (u : Tally)
      → take_items py markup web digests m source c true batch.items (start t) ≡ (u, none)
      → Counted py markup web digests m source c (length batch.items) u
      → let end = finish_batch py markup web digests m source c true batch (u, none) in
        EndsWell batch.items t end.0 end.1
  unfolding finish_batch deactivate_missing
  finish_full batch t u e (a, b, d) =
      let (prints, stores, count, seen) =
        take_items-Seen py markup web digests m source c batch.items (start t) u e in
      elim (Bool-cases batch.truncated) [
        | inl y ↦
            (b, d, inr (refl, (u.tables, prints, stores, omega (arith, count), inl (y, rw y refl))))
        | inr n ↦ (
          b,
          d,
          inr (
            refl,
            (
              u.tables,
              prints,
              stores,
              omega (arith, count),
              inr (
                n,
                rw n (
                    ap (with_postings u.tables) (
                      same_missing py markup web digests m source c u.tables.postings u.seen prints
                        u.tables.postings.postings seen)),
              ),
            ),
          ),
        )
      ]

  finish_batch-EndsWell :
      (full : Bool) (batch : JobCollectionBatch) (t : JobTables) (out : Tally × Option PostingError)
      → take_items py markup web digests m source c full batch.items (start t) ≡ out
      → Counted py markup web digests m source c (length batch.items) out.0
      → let end = finish_batch py markup web digests m source c full batch out in
        EndsWell batch.items t end.0 end.1
  unfolding finish_batch
  finish_batch-EndsWell full batch t (u, some e) ran h = tt
  finish_batch-EndsWell true batch t (u, none) ran h = finish_full batch t u ran h
  finish_batch-EndsWell false batch t (u, none) ran (a, b, d) =
      let same : u.tables ≡ t =
        ap (λ out. out.0.tables) (sym ran) ∙ (preview-items batch.items (start t)).0 in
      (b, d, inl (refl, same))

  abbrev Ends :
      List JobSourceItem → JobTables → JobTables × Result JobsError JobsCollectionOutcome → Type 0
  Ends items t out = AllSettled t.reviews out.0.reviews × EndsWell items t out.0 out.1

  finish_batch-reviews :
      (full : Bool) (batch : JobCollectionBatch) (out : Tally × Option PostingError)
      → (finish_batch py markup web digests m source c full batch out).0.reviews
        ≡ out.0.tables.reviews
  unfolding finish_batch deactivate_missing
  finish_batch-reviews full batch (t, some e) = refl
  finish_batch-reviews full batch (t, none) = elim (Bool-cases (full && not batch.truncated)) [
    | inl y ↦ rw y refl
    | inr n ↦ rw n refl
  ]

  collect_batch-Ends :
      (full : Bool) (batch : Result JobsError JobCollectionBatch) (t : JobTables)
      → Ends (items_of batch) t (collect_batch py markup web digests m source c full batch t)
  unfolding collect_batch
  collect_batch-Ends full (err e) t = (AllSettled-refl t.reviews, tt)
  collect_batch-Ends full (ok batch) t =
      let out : Tally × Option PostingError =
        take_items py markup web digests m source c full batch.items (start t) in
      let (a, b, d) =
        take_items-Counted py markup web digests m source c 0 full batch.items (start t)
          (omega arith, omega arith, omega arith) in
      (
        rw (finish_batch-reviews full batch out)
            (take_items-AllSettled py markup web digests m source c full batch.items (start t)),
        finish_batch-EndsWell full batch t out refl (a, b, omega (arith, d)),
      )

  collect_mode-Ends :
      (enabled : Bool) (mode : Option Bool) (batch : Result JobsError JobCollectionBatch)
      (t : JobTables)
      → Ends (items_of batch) t (collect_mode py markup web digests m source c enabled mode batch t)
  collect_mode-Ends enabled none batch t = (AllSettled-refl t.reviews, tt)
  collect_mode-Ends enabled (some full) batch t = elim (Bool-cases (enabled && source.enabled)) [
    | inl y ↦ rw y (collect_batch-Ends full batch t)
    | inr n ↦ rw n (AllSettled-refl t.reviews, tt)
  ]

  -- A collection, in any mode and also when it raises, keeps the status of every review, and of a
  -- resolved one everything but `last_seen_at`. When it returns, it stored no more postings than
  -- items matched, and items matched and reviews created together are no more than the items. In
  -- preview mode it wrote nothing. In full mode it went through the items in order: one that is not
  -- the company's to the reviews, one that is to the postings, with a fingerprint. It reports as
  -- many postings as there are fingerprints that are not empty, and if the source was not truncated
  -- exactly the active postings of the company and the source with none of these fingerprints
  -- became inactive after the loop; else nothing changed after it.
  pub collect_company_jobs-Ends :
      (enabled : Bool) (mode : String) (batch : Result JobsError JobCollectionBatch) (t : JobTables)
      → let out = collect_company_jobs py markup web digests m source c enabled mode batch t in
        AllSettled t.reviews out.0.reviews × EndsWell (items_of batch) t out.0 out.1
  unfolding collect_company_jobs
  collect_company_jobs-Ends enabled mode batch t =
      collect_mode-Ends enabled (mode_of py markup web digests m source c mode) batch t
