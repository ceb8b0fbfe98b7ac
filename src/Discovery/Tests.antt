-- ===== src/Discovery/Tests.antt =====
-- Concrete runs of a recorded coverage, its reuse, and a full plan.
use sniper_synapse.Base.{ℕ, zero, suc, ◌≡◌, refl, true, none, some, List, [], ◌∷◌, ◌++◌}
use sniper_synapse.Base.Int.{◌-ℤ◌}
use sniper_synapse.Cnpj.Models.{
  CnpjDatasetFile, Kind, establishments, companies, simples, DatasetStatus,
}
use sniper_synapse.Cnpj.Storage.{assess_download_capacity, reason_for}
use sniper_synapse.Cnpj.Download.{Parsed, validated_url}
use sniper_synapse.Discovery.Models.{
  DiscoveryQuery, QueryRun, QueryResult, SourceCoverage, Tables, succeeded,
}
use sniper_synapse.Discovery.Coverage.{
  Scope, find_valid_coverage, upsert, new_coverage, record_source_coverage, cached_run, copied,
  materialize_from, by_rank, insert_result, materialize_cached_run,
}
use sniper_synapse.Discovery.Reuse.{
  Covers, recorded_is_found, Copies, materialize_cached_run-Copies,
}
use sniper_synapse.Discovery.Planning.{
  Site, first_bad_url, peak_bytes, full_of_parts, full_of_files, full_of_dataset, full_gate,
  build_full_plan, configured, current_dataset,
}
use sniper_synapse.Discovery.Plans.{Complete, build_full_plan-Complete}

abbrev scope : Scope
scope = record { scope = λ q. q.normalized_filters; scope_hash = λ q. q.normalized_filters }

abbrev query : DiscoveryQuery
query = record {
  id = 1;
  name = "SP";
  entity_target = "INDUSTRY";
  normalized_filters = "{}";
  schema_version = 1;
  active = true;
  created_by = 1;
}

abbrev run : QueryRun
run = record {
  id = 4;
  query = 1;
  status = succeeded;
  dataset_reference = "2026-01";
  coverage = none;
  records_processed = 2;
  records_matched = 2;
  records_failed = 0;
  started_at = some 1;
  finished_at = some 2;
  created_by = 1;
}

abbrev result : ℕ → QueryResult
result company = record {
  query_run = 4;
  company = company;
  source = 1;
  rank = none;
  matched_filters = "";
  is_new_company = true;
}

abbrev db : Tables
db = record {
  queries = query ∷ [];
  runs = run ∷ [];
  results = result 7 ∷ result 8 ∷ [];
  coverages = [];
}

abbrev coverage : SourceCoverage
coverage = new_coverage scope db 3 6 1 query run none

abbrev recorded_db : Tables
recorded_db = record db { coverages = coverage ∷ [] }

recorded : record_source_coverage scope db 3 6 1 query run none ≡ some recorded_db
unfolding record_source_coverage upsert
recorded = refl

recorded_is_found_example :
    (c : SourceCoverage) × (find_valid_coverage scope recorded_db 9 1 "2026-01" query ≡ some c)
    × Covers scope db 3 9 1 query run none c
recorded_is_found_example =
    recorded_is_found scope db 3 9 1 query run none 6 recorded_db recorded refl refl

abbrev made : QueryRun
made = cached_run 5 3 1 query 1 coverage (result 7 ∷ result 8 ∷ [])

abbrev reused_db : Tables
reused_db = record recorded_db {
  runs = run ∷ made ∷ [];
  results = result 7 ∷ result 8 ∷ copied 5 (result 7) ∷ [];
}

reused : materialize_cached_run recorded_db 5 3 1 query 1 coverage ≡ some (reused_db, made)
unfolding materialize_cached_run materialize_from by_rank insert_result new_coverage
reused = refl

covers_run : coverage.query_run ≡ some 4
unfolding new_coverage
covers_run = refl

materialize_cached_run-Copies_example : Copies recorded_db reused_db 5 3 1 query 1 coverage 4 made
materialize_cached_run-Copies_example =
    materialize_cached_run-Copies recorded_db reused_db 5 3 1 query 1 coverage 4 made covers_run
      (refl, (refl, tt)) reused

abbrev origin : Parsed
origin = record {
  scheme = "https";
  username = none;
  password = none;
  netloc = "receita.gov.br";
  path = "/cnpj/";
}

abbrev file : Kind → ℕ → CnpjDatasetFile
file kind n = record {
  id = n;
  dataset = 1;
  kind = kind;
  part_number = n;
  url = "u";
  size_bytes = 3;
  etag = "";
  checksum = "";
}

abbrev parts_below : Kind → ℕ → List CnpjDatasetFile
parts_below kind zero = []
parts_below kind (suc n) = file kind n ∷ parts_below kind n

abbrev site : Site
site = record {
  urls = record {
    base_value = "https://receita.gov.br/cnpj";
    urlparse = λ s. origin;
    base_path = λ s. "/cnpj/";
    starts_with = λ s t. true;
  };
  has_token = true;
  full_enabled = true;
  disk = record { max_temp_bytes = 10; min_free_bytes = 5; free_bytes = 12 };
  now = 9;
  scope = scope;
  tables = db;
  sources =
      record {
        id = 1;
        key = "receita-cnpj";
        name = "Receita";
        adapter_path = "";
        enabled = true;
        created_at = 0;
      }
      ∷ [];
  datasets =
      record {
        id = 1;
        source = 1;
        reference = "2026-01";
        status = DatasetStatus.ready;
        is_current = true;
        discovered_at = 0;
        verified_at = none;
      }
      ∷ [];
  files = parts_below establishments 10 ++ (parts_below companies 10 ++ file simples 0 ∷ []);
  by_part = λ files. files;
}

is_allowed : (build_full_plan site none).allowed ≡ true
unfolding build_full_plan full_gate full_of_dataset full_of_files full_of_parts first_bad_url
    peak_bytes current_dataset validated_url assess_download_capacity reason_for ◌-ℤ◌
is_allowed = refl

build_full_plan-Complete_example :
    (true ≡ true) × (configured site ≡ true) × Complete site (build_full_plan site none)
build_full_plan-Complete_example = build_full_plan-Complete site none is_allowed
