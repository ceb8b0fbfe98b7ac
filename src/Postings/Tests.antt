-- ===== src/Postings/Tests.antt =====
-- Concrete postings: two objects of a page, a full collection, a fixture and a review.
use sniper_synapse.Base.{
  ℕ, ◌≤◌, String, ◌≡◌, ◌⊎◌, refl, Bool, true, false, Option, none, some, List, [], ◌∷◌, ◌++◌, All,
  inl, length, take, str_eq,
}
use sniper_synapse.Base.Results.{Result, ok, err}
use sniper_synapse.Scoring.Json.{Json, text, list, dict, nil, cons, Entries, empty, entry}
use sniper_synapse.Crawler.Security.{Web, UrlParts}
use sniper_synapse.Cnpj.Models.{Source}
use sniper_synapse.Postings.Parse.{
  Markup, PostingError, bad_date, is_text, scalar, job_posting_objects, job_date,
}
use sniper_synapse.Postings.Persist.{
  PostingRecord, PostingTables, Moment, title_of, read_draft, is_unseen, store_objects,
  persist_job_postings,
}
use sniper_synapse.Postings.Persist.Shown.{
  UniqueBy, same_key, persist_job_postings-Unique, RaisesAt, bad_date_stops_all,
}
use sniper_synapse.Postings.Matching.{
  JobSourceItem, Employer, Texts, Reason, match_company, match_domain, match_name, normalize_domain,
  Identified, match_company-Identified,
}
use sniper_synapse.Postings.Collect.{JobPostingReview, pending, JobTables, Digests}
use sniper_synapse.Postings.Collect.Company.{JobCollectionBatch, collect_company_jobs}
use sniper_synapse.Postings.Collect.Company.Keeps.{AllSettled}
use sniper_synapse.Postings.Collect.Company.Ends.{EndsWell, collect_company_jobs-Ends}
use sniper_synapse.Postings.Fixture.{
  JobCollectionLimits, collect, read_pages, WholeBatch, collect-Limited,
}
use sniper_synapse.Postings.Reviews.{
  Notes, dismiss_job_review, approve_job_review, dismissed_row, pending_review, already_resolved,
  Resolves, resolved_once,
}

-- Day 30 of February raises, and any other text is a day that is not old.
abbrev if_bad : Bool → Option (Option ℕ)
if_bad true = none
if_bad false = some (some 15)

abbrev if_posting : Bool → String → String
if_posting true s = "jobposting"
if_posting false s = s

abbrev day_of : String → Option (Option ℕ)
day_of s = if_bad (str_eq s "2024-02-30")

abbrev markup : Markup
markup = record {
  squeeze = λ s. s;
  cut = λ n s. s;
  str = λ v. "";
  casefold = λ s. if_posting (str_eq s "JobPosting") s;
  html_text = λ s. s;
  parse_date = day_of;
  parse_datetime = λ s. some none;
  identity = λ title place day. title;
  sha256 = λ s. s;
  iexact = λ s t. str_eq s t;
  text_before = λ s t. false;
}

abbrev plain : UrlParts
plain = record {
  scheme = "https";
  hostname = some "a.com";
  username = none;
  password = none;
  port = some none;
  path = "/";
  query = "";
}

abbrev web : Web
web = record {
  strip = λ s. s;
  lower = λ s. s;
  rstrip_dot = λ s. s;
  remove_www = λ s. s;
  starts_with_http = λ s. true;
  has_control = λ s. false;
  has_colon = λ s. false;
  text_before = λ s t. false;
  before_semicolon = λ s. s;
  join_query = λ s t. s;
  brackets = λ s. s;
  idna = λ s. some s;
  urlsplit = λ s. some plain;
  urlunsplit = λ s h p q. "https://a.com/";
  urljoin = λ s t. some t;
  getaddrinfo = λ h p. none;
  is_global = λ s. none;
}

abbrev object : String → String → Entries
object title day =
    entry "@type" (text "JobPosting")
      (entry "title" (text title) (entry "datePosted" (text day) empty))

abbrev moment : Moment
moment = record { observed_at = 50; today = 20; max_age_days = 10 }

abbrev shown : PostingRecord
shown = record {
  id = 1;
  source = 2;
  external_id = "https://a.com/";
  company = 5;
  payload_hash = "h";
  source_url = "https://a.com/";
  observed_at = 50;
}

abbrev no_postings : PostingTables
no_postings = record { next_id = 10; records = shown ∷ []; postings = [] }

abbrev objects : List Entries
objects = object "Soldador" "" ∷ object "Torneiro" "" ∷ []

abbrev match_out : Result PostingError (PostingTables × List String) → PostingTables × List String
match_out (ok o) = o
match_out (err e) = (no_postings, [])

abbrev out : PostingTables × List String
out = match_out (persist_job_postings markup web moment 5 shown objects no_postings)

nothing_twice : UniqueBy same_key no_postings.postings
nothing_twice = tt

is_persisted : persist_job_postings markup web moment 5 shown objects no_postings ≡ ok out
unfolding persist_job_postings store_objects job_posting_objects scalar read_draft job_date
is_persisted = refl

persist_job_postings-Unique_example :
    UniqueBy same_key out.0.postings
    × (length out.1 ≤ 100)
    × All (λ p. is_unseen markup web moment 5 shown out.0 out.1 p ≡ false) out.0.postings
persist_job_postings-Unique_example =
    persist_job_postings-Unique markup web moment 5 shown objects no_postings out nothing_twice
      is_persisted

abbrev with_bad : List Entries
with_bad = object "Soldador" "" ∷ object "Torneiro" "2024-02-30" ∷ []

is_split :
    take 100 (job_posting_objects markup with_bad)
    ≡ (object "Soldador" "" ∷ []) ++ object "Torneiro" "2024-02-30" ∷ []
unfolding job_posting_objects scalar
is_split = refl

has_title : is_text (title_of markup web (object "Torneiro" "2024-02-30")) ≡ true
unfolding scalar
has_title = refl

is_bad : RaisesAt markup web moment 5 shown "datePosted" (object "Torneiro" "2024-02-30")
unfolding scalar
is_bad = (refl, refl)

bad_date_stops_all_example :
    persist_job_postings markup web moment 5 shown with_bad no_postings ≡ err bad_date
bad_date_stops_all_example =
    bad_date_stops_all markup web moment 5 shown with_bad (object "Soldador" "" ∷ []) []
      (object "Torneiro" "2024-02-30") no_postings is_split has_title (inl is_bad)

abbrev texts : Texts
texts = record {
  fold_name = λ s. s;
  letters_and_digits = λ s. s;
  strip = λ s. s;
  casefold = λ s. s;
  has_scheme = λ s. false;
  hostname = λ s. s;
  remove_www = λ s. s;
  rstrip_dot = λ s. s;
  iexact = λ s t. str_eq s t;
}

abbrev employer : Employer
employer = record {
  id = 5;
  cnpj = "";
  legal_name = "Metal SA";
  trade_name = "Metal";
  website = "";
  website_domain = "";
  is_deleted = false;
}

abbrev item : String → JobSourceItem
item name = record {
  external_id = "x1";
  title = "Soldador";
  company_name = name;
  company_domain = "";
  company_cnpj = "";
  description = "";
  location = "";
  url = "";
  published_on = "";
  valid_through = "";
  employment_type = "";
  metadata = "{}";
}

is_metal : (match_company texts (employer ∷ []) employer (item "Metal")).0 ≡ true
unfolding match_company match_domain normalize_domain match_name
is_metal = refl

match_company-Identified_example : Identified texts (employer ∷ []) employer (item "Metal")
match_company-Identified_example =
    match_company-Identified texts (employer ∷ []) employer (item "Metal") is_metal

abbrev digests : Digests
digests = record {
  candidate_fingerprint = λ key i. i.title;
  payload_hash = λ i url. i.title;
  first_posting = λ ps. none;
}

abbrev source : Source
source = record {
  id = 2;
  key = "jobs-fixture";
  name = "Fixture";
  adapter_path = "";
  enabled = true;
  created_at = 0;
}

abbrev review : JobPostingReview
review = record {
  id = 7;
  source = 2;
  candidate_fingerprint = "Soldador";
  external_id = "";
  company_name = "Outra";
  company_domain = "";
  title = "Soldador";
  location = "";
  employment_type = "";
  url = "";
  published_on = none;
  valid_through = none;
  reason = Reason.no_identity;
  status = pending;
  suggested_company = some 5;
  job_posting = none;
  reviewed_by = none;
  reviewed_at = none;
  resolution_note = "";
  metadata = "{}";
  first_seen_at = 1;
  last_seen_at = 1;
}

abbrev tables : JobTables
tables = record { companies = employer ∷ []; postings = no_postings; reviews = review ∷ [] }

abbrev batch : JobCollectionBatch
batch = record {
  items = item "Metal" ∷ item "Outra" ∷ [];
  pages_read = 1;
  bytes_read = 9;
  truncated = false;
}

collect_company_jobs-Ends_example :
    AllSettled tables.reviews
      (collect_company_jobs texts markup web digests moment source employer true "FULL"
        (ok batch)
        tables).0.reviews
    × EndsWell texts markup web digests moment source employer batch.items tables
        (collect_company_jobs texts markup web digests moment source employer true "FULL"
          (ok batch)
          tables).0
        (collect_company_jobs texts markup web digests moment source employer true "FULL"
          (ok batch)
          tables).1
collect_company_jobs-Ends_example =
    collect_company_jobs-Ends texts markup web digests moment source employer true "FULL" (ok batch)
      tables

not_full : str_eq "PREVIEW" "FULL" ≡ false
not_full = refl

abbrev limits : JobCollectionLimits
limits = record { max_pages = 2; max_results = 1; max_bytes = 100 }

abbrev content : Json
content =
    dict (entry "items" (list (cons (dict (object "Soldador" "")) (cons (text "x") nil))) empty)

abbrev metadata_of : Option Json → String
metadata_of v = "{}"

abbrev fixture_batch : JobCollectionBatch
fixture_batch = read_pages markup metadata_of limits 9 content

is_collected : collect markup metadata_of limits (some 9) (some content) ≡ ok fixture_batch
unfolding collect
is_collected = refl

collect-Limited_example :
    (fixture_batch.pages_read ≤ 2)
    × (length fixture_batch.items ≤ 1)
    × (fixture_batch.bytes_read ≤ 100)
    × ((payload : Json) × (some content ≡ some payload)
        × ((fixture_batch.truncated ≡ true)
            ⊎ WholeBatch markup metadata_of limits payload fixture_batch))
collect-Limited_example =
    collect-Limited markup metadata_of limits (some 9) (some content) fixture_batch is_collected

abbrev notes : Notes
notes = record { isoformat = λ d. ""; approved_metadata = λ s n. s; strip = λ s. s }

abbrev after_dismissal : JobTables
after_dismissal = record tables { reviews = dismissed_row notes 1 60 "não é" review ∷ [] }

is_dismissed : dismiss_job_review notes 1 60 7 "não é" tables ≡ ok after_dismissal
unfolding dismiss_job_review pending_review dismissed_row
is_dismissed = refl

was_resolved :
    Resolves notes 1 60 texts markup web digests moment (source ∷ []) 7 tables after_dismissal
was_resolved = inl ("não é", is_dismissed)

resolved_once_example :
    ((user2 now2 : ℕ) (reason : String)
      → dismiss_job_review notes user2 now2 7 reason after_dismissal ≡ err already_resolved)
    × ((user2 now2 : ℕ) (m2 : Moment) (sources2 : List Source) (c : Employer) (note : String)
        → approve_job_review notes user2 now2 texts markup web digests m2 sources2 7 c note
            after_dismissal
          ≡ err already_resolved)
resolved_once_example =
    resolved_once notes 1 60 texts markup web digests moment (source ∷ []) 7 tables after_dismissal
      was_resolved
