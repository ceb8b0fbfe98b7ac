-- ===== src/Postings/Persist.antt =====
-- `persist_job_postings` of apps/crawler/services.py: the postings that a source record shows are
-- stored, and those that it no longer shows are deactivated.
pub mod Shown
use sniper_synapse.Base.{
  ℕ, suc, ◌+◌, ◌-◌, String, Bool, true, false, not, ◌&&◌, ◌||◌, Option, none, some, List, [], ◌∷◌,
  ◌==◌, ltb, leb, if◌then◌else◌, any, filter_rows, update_where, update_or_create, length, take,
  str_eq, max,
}
use sniper_synapse.Base.Results.{Result, ok, err, ◌>>=◌}
use sniper_synapse.Scoring.Json.{Json, null, text, Entries, get}
use sniper_synapse.Crawler.Security.{Web}
use sniper_synapse.Postings.Parse.{
  PostingError, Markup, is_text, null_or, get_or, scalar, job_posting_objects, job_location,
  job_date, job_identifier, job_url, employment_type,
}

pub record JobPosting : Type 0 where
  pub id : ℕ
  pub company : ℕ
  pub source_record : ℕ
  pub fingerprint : String
  pub external_id : String
  pub title : String
  pub description : String
  pub location : String
  pub employment_type : String
  pub url : String
  pub published_on : Option ℕ
  pub valid_through : Option ℕ
  pub first_seen_at : ℕ
  pub last_seen_at : ℕ
  pub active : Bool

-- The columns of a `SourceRecord` that the postings read and write.
pub record PostingRecord : Type 0 where
  pub id : ℕ
  pub source : ℕ
  pub external_id : String
  pub company : ℕ
  pub payload_hash : String
  pub source_url : String
  pub observed_at : ℕ

pub record PostingTables : Type 0 where
  pub next_id : ℕ
  pub records : List PostingRecord
  pub postings : List JobPosting

-- The moment of the call: its instant, its day, and the setting `JOB_POSTING_MAX_AGE_DAYS`.
pub record Moment : Type 0 where
  pub observed_at : ℕ
  pub today : ℕ
  pub max_age_days : ℕ

-- `today - timedelta(days=max(1, ...))`; a day before day 0 is no day that a posting has.
abbrev pub oldest_day : Moment → ℕ
oldest_day m = m.today - max 1 m.max_age_days

abbrev not_before : ℕ → Option ℕ → Bool
not_before day none = true
not_before day (some d) = leb day d

-- What the code reads of one object.
pub record Draft : Type 0 where
  pub title : String
  pub description : String
  pub location : String
  pub employment_type : String
  pub url : String
  pub external_id : String
  pub published_on : Option ℕ
  pub valid_through : Option ℕ

abbrev pub contains : String → List String → Bool
contains s = any (str_eq s)

-- `set.add`
abbrev pub add : String → List String → List String
add s seen = if contains s seen then seen else s ∷ seen

module _ (py : Markup) (web : Web) where
  abbrev pub title_of : Entries → String
  title_of d = py.cut 500 (scalar py (get_or "title" "name" d))

  -- The fields of an object that has a title.
  unfoldable pub read_draft : Entries → Result PostingError Draft
  read_draft d = do
    published_on ← job_date py (null_or (get "datePosted" d))
    valid_through ← job_date py (null_or (get "validThrough" d))
    ok (record {
      title = title_of d;
      description = py.cut 20000 (py.html_text (scalar py (null_or (get "description" d))));
      location = job_location py (null_or (get "jobLocation" d));
      employment_type = employment_type py (null_or (get "employmentType" d));
      url = job_url py web (null_or (get "url" d));
      external_id = job_identifier py (get_or "identifier" "@id" d);
      published_on = published_on;
      valid_through = valid_through;
    })

  -- `url or external_id or json.dumps(...)`
  unfoldable pub identity_of : Draft → String
  identity_of d =
      if is_text d.url
      then d.url
      else if is_text d.external_id
      then d.external_id
      else py.identity (py.casefold d.title) (py.casefold d.location) d.published_on

  abbrev same_day : ℕ → Option ℕ → Bool
  same_day day none = false
  same_day day (some d) = d == day

  abbrev is_equivalent : ℕ → Draft → ℕ → JobPosting → Bool
  is_equivalent company d day p =
      p.company == company
      && (py.iexact p.title d.title
          && (py.iexact p.location d.location && same_day day p.published_on))

  -- The order of the table, for postings of one day: `-last_seen_at`, then `title`.
  abbrev comes_before : JobPosting → JobPosting → Bool
  comes_before p q =
      ltb q.last_seen_at p.last_seen_at
      || (p.last_seen_at == q.last_seen_at && py.text_before p.title q.title)

  unfoldable pub first_posting : List JobPosting → Option JobPosting
  first_posting [] = none
  first_posting (p ∷ rest) = elim (first_posting rest) [
    | none ↦ some p
    | some q ↦ some (if comes_before q p then q else p)
  ]

  abbrev fingerprint_or : String → Option JobPosting → String
  fingerprint_or s none = s
  fingerprint_or s (some p) = p.fingerprint

  abbrev equivalent_print : ℕ → List JobPosting → Draft → Option ℕ → String → String
  equivalent_print company postings d none s = s
  equivalent_print company postings d (some day) s =
      if is_text d.location
      then fingerprint_or s (first_posting (filter_rows (is_equivalent company d day) postings))
      else s

  -- The fingerprint: that of an equivalent posting, if there is one.
  unfoldable pub fingerprint_of : ℕ → List JobPosting → Draft → String
  fingerprint_of company postings d =
      equivalent_print company postings d d.published_on (py.sha256 (identity_of d))

  abbrev pub is_posting_of : ℕ → String → JobPosting → Bool
  is_posting_of company fingerprint p = p.company == company && str_eq p.fingerprint fingerprint

  module _ (m : Moment) (company : ℕ) (r : PostingRecord) where
    -- `active` of an object
    unfoldable pub is_current : Draft → Bool
    is_current d = not_before m.today d.valid_through && not_before (oldest_day m) d.published_on

    -- `job_defaults` on a row.
    unfoldable pub write_draft : Draft → JobPosting → JobPosting
    write_draft d p = record p {
      source_record = r.id;
      external_id = d.external_id;
      title = d.title;
      description = d.description;
      location = d.location;
      employment_type = d.employment_type;
      url = d.url;
      published_on = d.published_on;
      valid_through = d.valid_through;
      last_seen_at = m.observed_at;
      active = is_current d;
    }

    unfoldable pub new_posting : ℕ → String → Draft → JobPosting
    new_posting id fingerprint d = record {
      id = id;
      company = company;
      source_record = r.id;
      fingerprint = fingerprint;
      external_id = d.external_id;
      title = d.title;
      description = d.description;
      location = d.location;
      employment_type = d.employment_type;
      url = d.url;
      published_on = d.published_on;
      valid_through = d.valid_through;
      first_seen_at = m.observed_at;
      last_seen_at = m.observed_at;
      active = is_current d;
    }

    -- `update_or_create` of one posting; the counter of keys may skip one.
    unfoldable pub store_draft : PostingTables → Draft → PostingTables
    store_draft t d =
        let fingerprint = fingerprint_of company t.postings d in
        record t {
          next_id = t.next_id + 1;
          postings =
              update_or_create (is_posting_of company fingerprint) (write_draft d)
                (new_posting t.next_id fingerprint d) t.postings;
        }

    -- The loop over the objects: the tables and `seen_fingerprints`.
    unfoldable pub store_objects :
        PostingTables
        → List String
        → List Entries
        → Result PostingError (PostingTables × List String)
    store_objects t seen [] = ok (t, seen)
    store_objects t seen (d ∷ rest) = elim (is_text (title_of d)) [
      | false ↦ store_objects t seen rest
      | true ↦ read_draft d >>= λ draft.
          store_objects (store_draft t draft) (add (fingerprint_of company t.postings draft) seen)
            rest
    ]

    abbrev pub has_record : PostingTables → JobPosting → Bool
    has_record t p =
        any
          (λ s.
            s.id == p.source_record && (s.source == r.source && str_eq s.external_id r.external_id))
          t.records

    -- An active posting of the record's source and identifier that is not among the seen ones.
    abbrev pub is_unseen : PostingTables → List String → JobPosting → Bool
    is_unseen t seen p =
        p.company == company && (has_record t p && (p.active && not (contains p.fingerprint seen)))

    unfoldable pub deactivate_unseen : PostingTables → List String → PostingTables
    deactivate_unseen t seen = record t {
      postings =
          update_where (is_unseen t seen)
            (λ p. record p { active = false; last_seen_at = m.observed_at }) t.postings;
    }

    -- `persist_job_postings`: the tables and `seen_fingerprints`, whose size the code returns. An
    -- exception leaves the tables as they were.
    unfoldable pub persist_job_postings :
        List Entries → PostingTables → Result PostingError (PostingTables × List String)
    persist_job_postings structured_data t = do
      out ← store_objects t [] (take 100 (job_posting_objects py structured_data))
      ok (deactivate_unseen out.0 out.1, out.1)
