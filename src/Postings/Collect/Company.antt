-- ===== src/Postings/Collect/Company.antt =====
-- `collect_company_jobs` of apps/sources/jobs/services.py, with the limits of base.py, and the
-- resolution of a review in apps/crawler/reviews.py.
pub mod Keeps
pub mod Ends
pub mod Stored
use sniper_synapse.Base.{
  ℕ, zero, suc, ◌+◌, String, Bool, true, false, not, ◌&&◌, ◌||◌, Option, none, some, List, [], ◌∷◌,
  ◌==◌, if◌then◌else◌, any, first_where, update_where, length, str_eq, min,
}
use sniper_synapse.Base.Results.{Result, ok, err, ◌>>=◌, guard, or_raise}
use sniper_synapse.Base.Int.{ℤ, pos, negsuc}
use sniper_synapse.Crawler.Security.{Web}
use sniper_synapse.Cnpj.Models.{Source}
use sniper_synapse.Postings.Parse.{PostingError, Markup, is_text}
use sniper_synapse.Postings.Persist.{
  JobPosting, PostingRecord, PostingTables, Moment, contains, add, is_posting_of,
}
use sniper_synapse.Postings.Matching.{
  JobSourceItem, Employer, Texts, Reason, match_company, normalize_domain,
}
use sniper_synapse.Postings.Collect.{
  JobPostingReview, ReviewStatus, matched, dismissed, is_pending, JobTables, Digests,
  review_candidate, persist_source_item,
}

-- `JobsAdapterError` with its messages, and an exception of the storing of a posting.
pub data JobsError : Type 0 where
  bad_mode switched_off not_positive not_a_number bad_limits adapter_failed : JobsError
  posting_raised : PostingError → JobsError

pub record JobCollectionBatch : Type 0 where
  pub items : List JobSourceItem
  pub pages_read : ℕ
  pub bytes_read : ℕ
  pub truncated : Bool

pub record JobsCollectionOutcome : Type 0 where
  pub is_full : Bool
  pub items_scanned : ℕ
  pub items_matched : ℕ
  pub jobs_persisted : ℕ
  pub reviews_created : ℕ
  pub pages_read : ℕ
  pub bytes_read : ℕ
  pub truncated : Bool

-- `_bounded_positive`: `none` is a value that `int` refuses.
unfoldable pub bounded_positive : Option ℤ → ℕ → Result JobsError ℕ
bounded_positive none configured_max = err not_a_number
bounded_positive (some (negsuc n)) configured_max = err not_positive
bounded_positive (some (pos zero)) configured_max = err not_positive
bounded_positive (some (pos (suc n))) configured_max = ok (min (suc n) configured_max)

-- What the loop counts.
pub record Tally : Type 0 where
  pub tables : JobTables
  pub seen : List String
  pub matched : ℕ
  pub persisted : ℕ
  pub reviews : ℕ

abbrev pub one_if : Bool → ℕ
one_if true = 1
one_if false = 0

module _ (py : Texts) (markup : Markup) (web : Web) (digests : Digests) (m : Moment)
    (source : Source) (c : Employer) where
  abbrev pub persisted_one :
      Tally → PostingTables × Result PostingError String → Tally × Option PostingError
  persisted_one t (postings, err e) =
      (record t { tables = record t.tables { postings = postings } }, some e)
  persisted_one t (postings, ok fingerprint) = (
    record t {
      tables = record t.tables { postings = postings };
      seen = if is_text fingerprint then add fingerprint t.seen else t.seen;
      persisted = t.persisted + one_if (is_text fingerprint);
    },
    none,
  )

  abbrev pub reviewed_one : Tally → JobTables × Bool → Tally
  reviewed_one t (tables, created) = record t {
    tables = tables;
    reviews = t.reviews + one_if created;
  }

  -- One item: the mode is full or not, and the item is the company's or not.
  unfoldable pub take_item :
      Bool → JobSourceItem → Bool × Reason → Tally → Tally × Option PostingError
  take_item full item (true, reason) t =
      let counted : Tally = record t { matched = t.matched + 1 } in
      if full
      then persisted_one counted
          (persist_source_item py markup web digests m source c item t.tables.postings)
      else (counted, none)
  take_item full item (false, reason) t =
      if full
      then (
        reviewed_one t
            (review_candidate py markup web digests m.observed_at source c item reason t.tables),
        none,
      )
      else (t, none)

  -- The loop, and the exception that ended it.
  unfoldable pub take_items : Bool → List JobSourceItem → Tally → Tally × Option PostingError
  take_items full [] t = (t, none)
  take_items full (item ∷ rest) t =
      let (t', raised) = take_item full item (match_company py t.tables.companies c item) t in
      elim raised [ some e ↦ (t', some e) | none ↦ take_items full rest t' ]

  abbrev has_source : PostingTables → JobPosting → Bool
  has_source t p = any (λ r. r.id == p.source_record && r.source == source.id) t.records

  -- An active posting of the company and the source that is not among the seen ones.
  abbrev pub is_missing : PostingTables → List String → JobPosting → Bool
  is_missing t seen p =
      p.company == c.id && (has_source t p && (p.active && not (contains p.fingerprint seen)))

  unfoldable pub deactivate_missing : List String → JobTables → JobTables
  deactivate_missing seen t = record t {
    postings = record t.postings {
      postings =
          update_where (is_missing t.postings seen) (λ p. record p { active = false })
            t.postings.postings;
    };
  }

  abbrev outcome_of : Bool → JobCollectionBatch → Tally → JobsCollectionOutcome
  outcome_of full batch t = record {
    is_full = full;
    items_scanned = length batch.items;
    items_matched = t.matched;
    jobs_persisted = t.persisted;
    reviews_created = t.reviews;
    pages_read = batch.pages_read;
    bytes_read = batch.bytes_read;
    truncated = batch.truncated;
  }

  unfoldable pub finish_batch :
      Bool
      → JobCollectionBatch
      → Tally × Option PostingError
      → JobTables × Result JobsError JobsCollectionOutcome
  finish_batch full batch (t, some e) = (t.tables, err (posting_raised e))
  finish_batch full batch (t, none) = (
    (if full && not batch.truncated then deactivate_missing t.seen t.tables else t.tables),
    ok (outcome_of full batch t),
  )

  unfoldable pub collect_batch :
      Bool
      → Result JobsError JobCollectionBatch
      → JobTables
      → JobTables × Result JobsError JobsCollectionOutcome
  collect_batch full (err e) t = (t, err e)
  collect_batch full (ok batch) t = finish_batch full batch (
      take_items full batch.items
        (record { tables = t; seen = []; matched = 0; persisted = 0; reviews = 0 }))

  -- `mode.upper()` as a flag: `none` is another text.
  abbrev mode_of : String → Option Bool
  mode_of mode =
      if str_eq mode "PREVIEW" then some false else if str_eq mode "FULL" then some true else none

  abbrev collect_mode :
      Bool
      → Option Bool
      → Result JobsError JobCollectionBatch
      → JobTables
      → JobTables × Result JobsError JobsCollectionOutcome
  collect_mode enabled none batch t = (t, err bad_mode)
  collect_mode enabled (some full) batch t =
      if enabled && source.enabled then collect_batch full batch t else (t, err switched_off)

  -- `collect_company_jobs`: `enabled` is the setting, `batch` what the adapter answers.
  unfoldable pub collect_company_jobs :
      Bool
      → String
      → Result JobsError JobCollectionBatch
      → JobTables
      → JobTables × Result JobsError JobsCollectionOutcome
  collect_company_jobs enabled mode batch t = collect_mode enabled (mode_of mode) batch t
