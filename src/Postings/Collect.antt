-- ===== src/Postings/Collect.antt =====
-- apps/sources/jobs/services.py: an item of a job source is stored as a posting of the company, or
-- put to review; and the collection for one company.
pub mod Company
use sniper_synapse.Base.{
  ℕ, ◌+◌, String, Bool, true, false, not, ◌&&◌, ◌||◌, Option, none, some, List, [], ◌∷◌, ◌++◌, ◌==◌,
  if◌then◌else◌, any, filter_rows, first_where, update_where, length, str_eq,
}
use sniper_synapse.Base.Results.{Result, ok, err}
use sniper_synapse.Scoring.Json.{Json, text, dict, Entries, empty, entry}
use sniper_synapse.Crawler.Security.{Web, canonicalize_url}
use sniper_synapse.Crawler.Security as Security
use sniper_synapse.Cnpj.Models.{Source}
use sniper_synapse.Postings.Parse.{PostingError, Markup, is_text}
use sniper_synapse.Postings.Persist.{
  JobPosting, PostingRecord, PostingTables, Moment, contains, add, persist_job_postings,
}
use sniper_synapse.Postings.Matching.{
  JobSourceItem, Employer, Texts, Reason, match_company, normalize_domain,
}

pub data ReviewStatus : Type 0 where
  pending matched dismissed : ReviewStatus

pub record JobPostingReview : Type 0 where
  pub id : ℕ
  pub source : ℕ
  pub candidate_fingerprint : String
  pub external_id : String
  pub company_name : String
  pub company_domain : String
  pub title : String
  pub location : String
  pub employment_type : String
  pub url : String
  pub published_on : Option ℕ
  pub valid_through : Option ℕ
  pub reason : Reason
  pub status : ReviewStatus
  pub suggested_company : Option ℕ
  pub job_posting : Option ℕ
  pub reviewed_by : Option ℕ
  pub reviewed_at : Option ℕ
  pub resolution_note : String
  pub metadata : String
  pub first_seen_at : ℕ
  pub last_seen_at : ℕ

pub record JobTables : Type 0 where
  pub companies : List Employer
  pub postings : PostingTables
  pub reviews : List JobPostingReview

-- `candidate_fingerprint` is the digest of `_candidate_fingerprint`, `payload_hash` that of the
-- payload with the URL of `persist_source_item`, and `first_posting` the first of a query in the
-- order of the table.
pub record Digests : Type 0 where
  pub candidate_fingerprint : String → JobSourceItem → String
  pub payload_hash : JobSourceItem → String → String
  pub first_posting : List JobPosting → Option JobPosting

abbrev pub is_pending : ReviewStatus → Bool
is_pending pending = true
is_pending _ = false

module _ (py : Texts) (markup : Markup) (web : Web) (digests : Digests) where
  abbrev url_or_empty : Security.Result String → String
  url_or_empty (Security.ok url) = url
  url_or_empty (Security.err _) = ""

  -- `_safe_url`
  unfoldable pub safe_url : String → String
  safe_url value = if is_text value then url_or_empty (canonicalize_url web value) else ""

  abbrev day_or_none : Option (Option ℕ) → Option ℕ
  day_or_none none = none
  day_or_none (some d) = d

  -- `_safe_date`
  unfoldable pub safe_date : String → Option ℕ
  safe_date value = if is_text value then day_or_none (markup.parse_date value) else none

  -- The `defaults` of `_review_candidate`, on a row.
  unfoldable pub refreshed :
      ℕ → Employer → JobSourceItem → Reason → JobPostingReview → JobPostingReview
  refreshed now c item reason r = record r {
    external_id = item.external_id;
    company_name = item.company_name;
    company_domain = normalize_domain py item.company_domain;
    title = item.title;
    location = item.location;
    employment_type = item.employment_type;
    url = safe_url item.url;
    published_on = safe_date item.published_on;
    valid_through = safe_date item.valid_through;
    reason = reason;
    suggested_company = some c.id;
    metadata = item.metadata;
    last_seen_at = now;
  }

  unfoldable pub new_review : ℕ → ℕ → Source → Employer → JobSourceItem → Reason → JobPostingReview
  new_review id now source c item reason = record {
    id = id;
    source = source.id;
    candidate_fingerprint = digests.candidate_fingerprint source.key item;
    external_id = item.external_id;
    company_name = item.company_name;
    company_domain = normalize_domain py item.company_domain;
    title = item.title;
    location = item.location;
    employment_type = item.employment_type;
    url = safe_url item.url;
    published_on = safe_date item.published_on;
    valid_through = safe_date item.valid_through;
    reason = reason;
    status = pending;
    suggested_company = some c.id;
    job_posting = none;
    reviewed_by = none;
    reviewed_at = none;
    resolution_note = "";
    metadata = item.metadata;
    first_seen_at = now;
    last_seen_at = now;
  }

  abbrev pub is_candidate : Source → JobSourceItem → JobPostingReview → Bool
  is_candidate source item r =
      r.source == source.id
      && str_eq r.candidate_fingerprint (digests.candidate_fingerprint source.key item)

  -- A review that is there: a resolved one is only seen again.
  unfoldable pub seen_again :
      ℕ → Employer → JobSourceItem → Reason → JobPostingReview → JobPostingReview
  seen_again now c item reason r =
      if is_pending r.status then refreshed now c item reason r else record r { last_seen_at = now }

  -- `_review_candidate`: the tables, and whether a review was created.
  unfoldable pub review_candidate :
      ℕ → Source → Employer → JobSourceItem → Reason → JobTables → JobTables × Bool
  review_candidate now source c item reason t =
      if any (is_candidate source item) t.reviews
      then (
        record t {
          reviews =
              update_where (is_candidate source item) (seen_again now c item reason) t.reviews;
        },
        false,
      )
      else (
        record t {
          postings = record t.postings { next_id = t.postings.next_id + 1 };
          reviews = t.reviews ++ new_review t.postings.next_id now source c item reason ∷ [];
        },
        true,
      )

  -- The object that is handed to `persist_job_postings`.
  unfoldable pub structured : JobSourceItem → String → Entries
  structured item url = entry "@type" (text "JobPosting") (
      entry "identifier" (text item.external_id) (
        entry "title" (text item.title) (
          entry "description" (text item.description) (
            entry "jobLocation"
              (dict
                (entry "address" (dict (entry "addressLocality" (text item.location) empty)) empty))
              (entry "employmentType" (text item.employment_type) (
                entry "url" (text url) (
                  entry "datePosted" (text item.published_on)
                    (entry "validThrough" (text item.valid_through) empty))))))))

  abbrev external_id_of : Source → JobSourceItem → String
  external_id_of source item = markup.cut 255 (
      if is_text item.external_id
      then item.external_id
      else digests.candidate_fingerprint source.key item)

  abbrev is_record : Source → JobSourceItem → PostingRecord → Bool
  is_record source item r =
      r.source == source.id
      && (str_eq r.external_id (external_id_of source item)
          && str_eq r.payload_hash (digests.payload_hash item (safe_url item.url)))

  -- `get_or_create` of the source record
  unfoldable pub record_of :
      ℕ
      → Source
      → Employer
      → JobSourceItem
      → PostingTables
      → Option PostingRecord
      → PostingTables × PostingRecord
  record_of now source c item t (some r) = (t, r)
  record_of now source c item t none =
      let r : PostingRecord = record {
        id = t.next_id;
        source = source.id;
        external_id = external_id_of source item;
        company = c.id;
        payload_hash = digests.payload_hash item (safe_url item.url);
        source_url = safe_url item.url;
        observed_at = now;
      } in
      (record t { next_id = t.next_id + 1; records = t.records ++ r ∷ [] }, r)

  abbrev print_or_empty : Option JobPosting → String
  print_or_empty none = ""
  print_or_empty (some p) = p.fingerprint

  abbrev fingerprint_in : Employer → PostingRecord → PostingTables → String
  fingerprint_in c r t = print_or_empty (
      digests.first_posting
        (filter_rows (λ p. p.company == c.id && p.source_record == r.id) t.postings))

  abbrev stored :
      Employer
      → PostingRecord
      → PostingTables
      → Result PostingError (PostingTables × List String)
      → PostingTables × Result PostingError String
  stored c r t (err e) = (t, err e)
  stored c r t (ok (t', _)) = (t', ok (fingerprint_in c r t'))

  unfoldable pub persist_for :
      Moment
      → Employer
      → JobSourceItem
      → PostingTables × PostingRecord
      → PostingTables × Result PostingError String
  persist_for m c item (t, r) =
      if r.company == c.id
      then stored c r t
          (persist_job_postings markup web m c.id r (structured item (safe_url item.url) ∷ []) t)
      else (t, ok "")

  -- `persist_source_item`: the source record stays when the postings raise.
  unfoldable pub persist_source_item :
      Moment
      → Source
      → Employer
      → JobSourceItem
      → PostingTables
      → PostingTables × Result PostingError String
  persist_source_item m source c item t =
      persist_for m c item
        (record_of m.observed_at source c item t (first_where (is_record source item) t.records))
