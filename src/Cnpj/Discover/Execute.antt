-- ===== src/Cnpj/Discover/Execute.antt =====
-- `execute_discover_cnpj` of apps/sources/cnpj/jobs.py: the checks, the start of the run, the three
-- loops, the `except` block, and the end of the run with its coverage.
pub mod Ends
pub mod Runs
use sniper_synapse.Base.{
  ℕ, ◌+◌, String, Bool, true, false, not, ◌&&◌, ◌||◌, Option, none, some, List, [], ◌∷◌, ◌==◌,
  if◌then◌else◌, filter_rows, first_where, update_where, length,
}
use sniper_synapse.Base.Results.{Result, ok, err}
use sniper_synapse.Scoring.Json.{Json, Entries}
use sniper_synapse.Cnpj.Models.{Source, CnpjDataset, CnpjDatasetFile}
use sniper_synapse.Cnpj.Readers.{CnpjEstablishmentFilter, Texts, is_nonempty}
use sniper_synapse.Cnpj.Records.{Digits}
use sniper_synapse.Cnpj.Catalog.{Catalog, CnpjCandidate}
use sniper_synapse.Cnpj.Ingestion.{Hashing, Run}
use sniper_synapse.Cnpj.Ingestion.Complements.{Capital}
use sniper_synapse.Cnpj.Discover.Requests.{
  RequestError, Values, Settings, Mode, Registry, Requested,
}
use sniper_synapse.Cnpj.Discover.Requests.Accepted.{Accepted, is_preview, accept}
use sniper_synapse.Cnpj.Discover.Establishments.{Files, Progress, read_sources}
use sniper_synapse.Cnpj.Discover.Complements.{basics_of, Totals, company_sources, simples_sources}
use sniper_synapse.Discovery.Models.{
  DiscoveryQuery, QueryRun, SourceCoverage, Tables, RunStatus, running, succeeded, partial, failed,
  is_succeeded, RunNote, ComplementNote, ScanNote, from_scan,
}
use sniper_synapse.Discovery.Coverage.{Scope, record_source_coverage, query_of, in_scope}

-- The tables that the job writes, and those that it only reads.
pub record Store : Type 0 where
  pub catalog : Catalog
  pub queries : List DiscoveryQuery
  pub runs : List QueryRun
  pub coverages : List SourceCoverage
  pub sources : List Source
  pub datasets : List CnpjDataset
  pub files : List CnpjDatasetFile

-- The columns of the job that are written at the end.
pub record JobCounts : Type 0 where
  pub records_processed : ℕ
  pub records_success : ℕ
  pub records_failed : ℕ

-- An exception of the checks, which leaves the tables as they were; an exception after the start,
-- with the tables and the run it leaves; one of the recording of the coverage; and a return.
pub data Outcome : Type 0 where
  refused : RequestError → Outcome
  crashed unrecorded : Store → QueryRun → Outcome
  completed : Store → QueryRun → JobCounts → Outcome

abbrev pub registry : Store → Registry
registry s = record { sources = s.sources; datasets = s.datasets; files = s.files; runs = s.runs }

-- `query_run.save()`
abbrev pub save_run : QueryRun → Store → Store
save_run r s = record s { runs = update_where (λ q. q.id == r.id) (λ q. r) s.runs }

unfoldable pub started : ℕ → Accepted → QueryRun
started observed_at a = record a.query_run {
  status = running;
  dataset_reference = a.dataset_reference;
  started_at = some observed_at;
  finished_at = none;
}

-- The `except` block.
unfoldable pub fail_run : ℕ → QueryRun → Progress → Catalog → Store → Outcome
fail_run now r p catalog s =
    let failed_run : QueryRun = record r {
      status = failed;
      records_processed = p.rows;
      records_matched = p.matched;
      records_failed = p.invalid;
      finished_at = some now;
    } in
    crashed (save_run failed_run (record s { catalog = catalog })) failed_run

abbrev pub note_of : Totals → ComplementNote
note_of t = record {
  sources_processed = t.sources_processed;
  rows_scanned = t.rows;
  basics_matched = t.matched;
  basics_missing = length t.remaining;
}

-- `partial`, with `complement_incomplete`
unfoldable pub is_partial : Accepted → Progress → Totals → Totals → Bool
is_partial a p cs ss =
    is_preview a.mode
    || (p.limit_reached
        || ((is_nonempty a.requested.of_companies && is_nonempty cs.remaining)
            || (is_nonempty a.requested.of_simples && is_nonempty ss.remaining)))

-- The run after the loops.
unfoldable pub finished : ℕ → Accepted → QueryRun → ℕ → Progress → Totals → Totals → QueryRun
finished now a r staged p cs ss = record r {
  status = if is_partial a p cs ss then partial else succeeded;
  records_processed = p.rows + cs.rows + ss.rows;
  records_matched = p.matched;
  records_failed = p.invalid + cs.invalid + ss.invalid;
  coverage = some (
      from_scan (record {
        complete = not (is_partial a p cs ss);
        is_preview = is_preview a.mode;
        limit_reached = p.limit_reached;
        max_results = a.max_results;
        staged_candidates = staged;
        sources_processed = p.sources_processed;
        sources_expected = length a.requested.of_establishments;
        rows_scanned = p.rows;
        companies = note_of cs;
        simples = note_of ss;
        source_coverage_id = none;
      }));
  finished_at = some now;
}

abbrev pub counts_of : QueryRun → JobCounts
counts_of r = record {
  records_processed = r.records_processed;
  records_success = r.records_matched;
  records_failed = r.records_failed;
}

abbrev pub tables_of : Store → Tables
tables_of s = record {
  queries = s.queries;
  runs = s.runs;
  results = s.catalog.results;
  coverages = s.coverages;
}

-- `query_run.coverage["source_coverage_id"] = coverage.pk`
unfoldable pub noted : Option SourceCoverage → Option RunNote → Option RunNote
noted (some c) (some (from_scan n)) = some (from_scan (record n { source_coverage_id = some c.id }))
noted _ before = before

module _ (scope : Scope) (now : ℕ) where
  -- The coverage is the row of its source, dataset and scope.
  unfoldable pub with_coverages : ℕ → QueryRun → Store → DiscoveryQuery → Option Tables → Outcome
  with_coverages source r s query none = unrecorded s r
  with_coverages source r s query (some t) =
      let row =
        first_where (in_scope source r.dataset_reference (scope.scope_hash query)) t.coverages in
      let covered_run : QueryRun = record r { coverage = noted row r.coverage } in
      completed (save_run covered_run (record s { coverages = t.coverages })) covered_run
        (counts_of r)

  unfoldable pub for_query : ℕ → QueryRun → Store → Option DiscoveryQuery → Outcome
  for_query source r s none = unrecorded s r
  for_query source r s (some query) =
      with_coverages source r s query
        (record_source_coverage scope (tables_of s) now s.catalog.next_id source query r none)

  -- The end: the run is saved, and its coverage recorded.
  unfoldable pub end_run : Bool → ℕ → QueryRun → Store → Outcome
  end_run true source r s = for_query source r (save_run r s) (query_of r.query s.queries)
  end_run false source r s = completed (save_run r s) r (counts_of r)

module _ (py : Texts) (digits : Digits) (values : Values) (settings : Settings) (hashing : Hashing)
    (capital : Capital) (files : Files) (scope : Scope) (observed_at now : ℕ) where
  abbrev pub run_of : Accepted → Run
  run_of a = record {
    source = a.source.id;
    observed_at = observed_at;
    dataset_reference = a.dataset_reference;
    query_run = some a.query_run.id;
  }

  abbrev no_totals : Catalog → List String → Totals
  no_totals catalog basics = record {
    catalog = catalog;
    rows = 0;
    matched = 0;
    invalid = 0;
    sources_processed = 0;
    remaining = basics;
  }

  abbrev candidates_of : Accepted → Catalog → List CnpjCandidate
  candidates_of a db = filter_rows (λ c. c.query_run == a.query_run.id) db.candidates

  unfoldable pub after_simples :
      Accepted → QueryRun → ℕ → Progress → Totals → Totals × Bool → Store → Outcome
  after_simples a r staged p cs (ss, true) s = fail_run now r p ss.catalog s
  after_simples a r staged p cs (ss, false) s =
      let done = finished now a r staged p cs ss in
      end_run scope now (a.coverage_complete && is_succeeded done.status) a.source.id done
        (record s { catalog = ss.catalog })

  unfoldable pub after_companies :
      Accepted → QueryRun → List CnpjCandidate → Progress → Totals × Bool → Store → Outcome
  after_companies a r candidates p (cs, true) s = fail_run now r p cs.catalog s
  after_companies a r candidates p (cs, false) s =
      after_simples a r (length candidates) p cs
        (simples_sources py digits hashing capital (run_of a) files candidates
          (no_totals cs.catalog (basics_of candidates)) a.requested.of_simples)
        s

  unfoldable pub after_establishments : Accepted → QueryRun → Progress × Bool → Store → Outcome
  after_establishments a r (p, true) s = fail_run now r p p.catalog s
  after_establishments a r (p, false) s =
      let candidates = candidates_of a p.catalog in
      after_companies a r candidates p
        (company_sources py digits hashing capital (run_of a) files candidates
          (no_totals p.catalog (basics_of candidates)) a.requested.of_companies)
        s

  -- From `query_run.status = RUNNING` on.
  unfoldable pub run_accepted : Accepted → Store → Outcome
  run_accepted a s =
      let r = started observed_at a in
      after_establishments a r
        (read_sources py digits hashing (run_of a) a.query_run.id a.filters a.max_results files
          (record {
            catalog = s.catalog;
            rows = 0;
            matched = 0;
            invalid = 0;
            sources_processed = 0;
            limit_reached = false;
          })
          a.requested.of_establishments)
        (save_run r s)

  unfoldable pub run_request : Result RequestError Accepted → Store → Outcome
  run_request (err e) s = refused e
  run_request (ok a) s = run_accepted a s

  -- `execute_discover_cnpj`
  unfoldable pub execute_discover_cnpj :
      (Json → Option ℕ) → CnpjEstablishmentFilter → Entries → Store → Outcome
  execute_discover_cnpj key_of filters payload s =
      run_request (accept py digits values settings key_of filters payload (registry s)) s
