-- ===== src/Discovery/Models.antt =====
-- The tables of apps/discovery/models.py that runs and their reuse read: `DiscoveryQuery`,
-- `QueryRun`, `QueryResult`, `SourceCoverage`. A JSON column is the text of its value; a moment is
-- a number of seconds.
use sniper_synapse.Base.{ℕ, String, Bool, true, false, Option, List}

pub record DiscoveryQuery : Type 0 where
  pub id : ℕ
  pub name : String
  pub entity_target : String
  pub normalized_filters : String
  pub schema_version : ℕ
  pub active : Bool
  pub created_by : ℕ

pub data RunStatus : Type 0 where
  pending running succeeded partial failed cancelled : RunStatus

-- The `coverage` column of a run made from the cache.
pub record CacheNote : Type 0 where
  pub complete : Bool
  pub source_coverage_id : ℕ
  pub source_record_count : ℕ
  pub max_results : ℕ
  pub limit_reached : Bool

-- What a run counted for one kind of complement.
pub record ComplementNote : Type 0 where
  pub sources_processed : ℕ
  pub rows_scanned : ℕ
  pub basics_matched : ℕ
  pub basics_missing : ℕ

-- The `coverage` column of a run that read the files of the Receita.
pub record ScanNote : Type 0 where
  pub complete : Bool
  pub is_preview : Bool
  pub limit_reached : Bool
  pub max_results : ℕ
  pub staged_candidates : ℕ
  pub sources_processed : ℕ
  pub sources_expected : ℕ
  pub rows_scanned : ℕ
  pub companies : ComplementNote
  pub simples : ComplementNote
  pub source_coverage_id : Option ℕ

pub data RunNote : Type 0 where
  from_cache : CacheNote → RunNote
  from_scan : ScanNote → RunNote

pub record QueryRun : Type 0 where
  pub id : ℕ
  pub query : ℕ
  pub status : RunStatus
  pub dataset_reference : String
  pub coverage : Option RunNote
  pub records_processed : ℕ
  pub records_matched : ℕ
  pub records_failed : ℕ
  pub started_at : Option ℕ
  pub finished_at : Option ℕ
  pub created_by : ℕ

pub record QueryResult : Type 0 where
  pub query_run : ℕ
  pub company : ℕ
  pub source : ℕ
  pub rank : Option ℕ
  pub matched_filters : String
  pub is_new_company : Bool

pub record SourceCoverage : Type 0 where
  pub id : ℕ
  pub source : ℕ
  pub query_run : Option ℕ
  pub dataset_reference : String
  pub scope : String
  pub scope_hash : String
  pub record_count : ℕ
  pub completed_at : ℕ
  pub expires_at : Option ℕ

pub record Tables : Type 0 where
  pub queries : List DiscoveryQuery
  pub runs : List QueryRun
  pub results : List QueryResult
  pub coverages : List SourceCoverage

abbrev pub is_succeeded : RunStatus → Bool
is_succeeded succeeded = true
is_succeeded _ = false
