-- ===== src/Discovery/Coverage.antt =====
-- apps/discovery/coverage.py: which earlier run may answer a query, and how its results are reused.
use sniper_synapse.Base.{
  ℕ, ◌+◌, String, Bool, true, false, not, ◌&&◌, ◌||◌, Option, none, some, List, [], ◌∷◌, ◌++◌, ◌==◌,
  ltb, if◌then◌else◌, filter_rows, first_where, length, take, map, any, str_eq,
}
use sniper_synapse.Discovery.Models.{
  DiscoveryQuery, QueryRun, from_cache, QueryResult, SourceCoverage, Tables, succeeded, partial,
  is_succeeded,
}

-- `coverage_scope` as a JSON text and `coverage_scope_hash`, its SHA-256.
pub record Scope : Type 0 where
  pub scope : DiscoveryQuery → String
  pub scope_hash : DiscoveryQuery → String

abbrev pub not_expired : ℕ → Option ℕ → Bool
not_expired now none = true
not_expired now (some t) = ltb now t

abbrev pub run_succeeded : List QueryRun → Option ℕ → Bool
run_succeeded runs none = false
run_succeeded runs (some id) = any (λ r. r.id == id && is_succeeded r.status) runs

abbrev pub in_scope : ℕ → String → String → SourceCoverage → Bool
in_scope source dataset_reference hash c =
    c.source == source && (str_eq c.dataset_reference dataset_reference && str_eq c.scope_hash hash)

abbrev pub is_valid : Tables → ℕ → ℕ → String → String → SourceCoverage → Bool
is_valid db now source dataset_reference hash c =
    in_scope source dataset_reference hash c
    && (run_succeeded db.runs c.query_run && not_expired now c.expires_at)

-- At most one row has a source, a dataset and a scope, so that the order of `first` is not used.
unfoldable pub find_valid_coverage :
    Scope → Tables → ℕ → ℕ → String → DiscoveryQuery → Option SourceCoverage
find_valid_coverage scope db now source dataset_reference query =
    first_where (is_valid db now source dataset_reference (scope.scope_hash query)) db.coverages

abbrev pub results_of : ℕ → List QueryResult → List QueryResult
results_of run = filter_rows (λ r. r.query_run == run)

abbrev pub or_now : ℕ → Option ℕ → ℕ
or_now now none = now
or_now now (some t) = t

abbrev pub query_of : ℕ → List DiscoveryQuery → Option DiscoveryQuery
query_of id = first_where (λ q. q.id == id)

-- `update_or_create`: the row with the key gets the values, or a row with `id` is added.
unfoldable pub upsert :
    (SourceCoverage → Bool)
    → (SourceCoverage → SourceCoverage)
    → SourceCoverage
    → List SourceCoverage
    → List SourceCoverage
upsert p f row [] = row ∷ []
upsert p f row (c ∷ rest) = let later = upsert p f row rest in if p c then f c ∷ rest else c ∷ later

module _ (scope : Scope) (db : Tables) (now : ℕ) where
  -- The columns that `defaults` writes.
  unfoldable pub covered : DiscoveryQuery → QueryRun → Option ℕ → SourceCoverage → SourceCoverage
  covered query run expires_at c = record c {
    query_run = some run.id;
    scope = scope.scope query;
    record_count = length (results_of run.id db.results);
    completed_at = or_now now run.finished_at;
    expires_at = expires_at;
  }

  unfoldable pub new_coverage : ℕ → ℕ → DiscoveryQuery → QueryRun → Option ℕ → SourceCoverage
  new_coverage id source query run expires_at = record {
    id = id;
    source = source;
    query_run = some run.id;
    dataset_reference = run.dataset_reference;
    scope = scope.scope query;
    scope_hash = scope.scope_hash query;
    record_count = length (results_of run.id db.results);
    completed_at = or_now now run.finished_at;
    expires_at = expires_at;
  }

  -- `none` is the `ValueError`; `id` is the primary key of a new row.
  unfoldable pub record_source_coverage :
      ℕ → ℕ → DiscoveryQuery → QueryRun → Option ℕ → Option Tables
  record_source_coverage id source query run expires_at =
      if not (is_succeeded run.status) || str_eq run.dataset_reference ""
      then none
      else some (record db {
        coverages =
            upsert (in_scope source run.dataset_reference (scope.scope_hash query))
              (covered query run expires_at) (new_coverage id source query run expires_at)
              db.coverages;
      })

abbrev pub copied : ℕ → QueryResult → QueryResult
copied run r = record r { query_run = run; is_new_company = false }

-- A run whose results are those of the covering run, up to the limit; `id` is its primary key.
unfoldable pub cached_run :
    ℕ → ℕ → ℕ → DiscoveryQuery → ℕ → SourceCoverage → List QueryResult → QueryRun
cached_run id now created_by query max_results coverage source_results =
    let limit_reached = ltb max_results (length source_results) in
    record {
      id = id;
      query = query.id;
      status = if limit_reached then partial else succeeded;
      dataset_reference = coverage.dataset_reference;
      coverage = some (
          from_cache (record {
            complete = not limit_reached;
            source_coverage_id = coverage.id;
            source_record_count = coverage.record_count;
            max_results = max_results;
            limit_reached = limit_reached;
          }));
      records_processed = 0;
      records_matched = length (take max_results source_results);
      records_failed = 0;
      started_at = some now;
      finished_at = some now;
      created_by = created_by;
    }

-- `ordering = ("rank", "created_at")` of `QueryResult`, a missing rank last as in PostgreSQL. The
-- table has the rows in the order they were created, so equal ranks keep their order.
abbrev pub ranks_before : Option ℕ → Option ℕ → Bool
ranks_before (some a) (some b) = ltb a b
ranks_before (some a) none = true
ranks_before none r = false

unfoldable pub insert_result : QueryResult → List QueryResult → List QueryResult
insert_result r [] = r ∷ []
insert_result r (s ∷ rows) =
    let rest = insert_result r rows in if ranks_before s.rank r.rank then s ∷ rest else r ∷ s ∷ rows

unfoldable pub by_rank : List QueryResult → List QueryResult
by_rank [] = []
by_rank (r ∷ rows) = insert_result r (by_rank rows)

unfoldable pub materialize_from :
    Tables → ℕ → ℕ → ℕ → DiscoveryQuery → ℕ → SourceCoverage → Option ℕ → Option (Tables × QueryRun)
materialize_from db id now created_by query max_results coverage none = none
materialize_from db id now created_by query max_results coverage (some run) =
    let source_results = take (max_results + 1) (by_rank (results_of run db.results)) in
    let made = cached_run id now created_by query max_results coverage source_results in
    if ltb max_results 1
    then none
    else some (
      record db {
        runs = db.runs ++ made ∷ [];
        results = db.results ++ map (copied id) (take max_results source_results);
      },
      made,
    )

unfoldable pub materialize_cached_run :
    Tables → ℕ → ℕ → ℕ → DiscoveryQuery → ℕ → SourceCoverage → Option (Tables × QueryRun)
materialize_cached_run db id now created_by query max_results coverage =
    materialize_from db id now created_by query max_results coverage coverage.query_run
