-- ===== src/Cnpj/Discover/Tests.antt =====
-- A concrete preview over one file of three rows, and the ingestion of its establishment.
use sniper_synapse.Base.{
  ℕ, zero, suc, ◌≤◌, ◌<◌, String, ◌≡◌, ◌⊎◌, refl, true, false, Option, none, some, List, [], ◌∷◌,
  arith, inr, str_eq,
}
use sniper_synapse.Base.Int.{pos}
use sniper_synapse.Base.Results.{ok}
use sniper_synapse.Scoring.Json.{Json, text, Entries, empty, entry}
use sniper_synapse.Cnpj.Models.{Source}
use sniper_synapse.Cnpj.Readers.{Texts, CnpjEstablishment, CnpjEstablishmentFilter}
use sniper_synapse.Cnpj.Records.{Digits, make_filter}
use sniper_synapse.Cnpj.Catalog.{Value, Company, Catalog}
use sniper_synapse.Cnpj.Ingestion.{Hashing, Run, cnpj, ingest_establishment}
use sniper_synapse.Cnpj.Ingestion.Cnaes.{OneMain, ingest_establishment-OneMain}
use sniper_synapse.Cnpj.Ingestion.Again.{ingest_establishment-again}
use sniper_synapse.Cnpj.Ingestion.Complements.{Capital}
use sniper_synapse.Cnpj.Discover.Requests.{
  Values, Settings, preview, establishment_sources, only_group, limited, optional_sources,
  optional_of, validate_manifest_urls, urls_of,
}
use sniper_synapse.Cnpj.Discover.Requests.Accepted.{
  Accepted, accept, read_mode, read_limit, read_int, in_range, accept_sources, check_mode,
  check_coverage, check_remote,
}
use sniper_synapse.Cnpj.Discover.Requests.Checked.{accept-IsChecked}
use sniper_synapse.Cnpj.Discover.Requests.Sound.{Limited, IsChecked}
use sniper_synapse.Cnpj.Discover.Establishments.{Files, Progress}
use sniper_synapse.Cnpj.Discover.Execute.{Store, registry, execute_discover_cnpj}
use sniper_synapse.Cnpj.Discover.Execute.Ends.{Ends}
use sniper_synapse.Cnpj.Discover.Execute.Runs.{execute_discover_cnpj-Ends}
use sniper_synapse.Discovery.Models.{QueryRun, pending}
use sniper_synapse.Discovery.Coverage.{Scope}

abbrev texts : Texts
texts = record {
  strip = λ s. s;
  upper = λ s. s;
  lower = λ s. s;
  join = λ s t. s;
  split_comma = λ s. s ∷ [];
  starts_with = λ s t. str_eq s t;
}

abbrev digits : Digits
digits = record { is_digits = λ s. true; size = λ s. 8 }

abbrev shown : Json → String
shown (text s) = s
shown _ = ""

abbrev values : Values
values = record { str = shown; int = λ v. some (pos 1) }

abbrev settings : Settings
settings = record { preview_max_results = 2; max_persisted_matches = 5; full_enabled = false }

abbrev hashing : Hashing
hashing = record { payload_hash = λ p. "hash"; str = λ v. "value" }

abbrev capital : Capital
capital = record { normalized = λ s. s; decimal_of = λ s. none }

abbrev columns : ℕ → String → List String
columns zero s = []
columns (suc n) s = s ∷ columns n s

abbrev rows : List (List String)
rows = [] ∷ columns 30 "SP" ∷ columns 30 "RJ" ∷ []

abbrev files : Files
files = record {
  temp_root = "/tmp";
  resolve = λ s. some s;
  is_inside = λ s t. true;
  suffix = λ s. ".zip";
  downloaded = λ s. none;
  zip_rows = λ s. some rows;
}

abbrev scope : Scope
scope = record { scope = λ q. q.normalized_filters; scope_hash = λ q. q.normalized_filters }

abbrev sao_paulo : CnpjEstablishmentFilter
sao_paulo = record {
  registration_statuses = [];
  states = "SP" ∷ [];
  municipality_codes = [];
  cnae_codes = [];
  cnae_prefixes = [];
  include_secondary_cnaes = false;
}

abbrev source : Source
source = record {
  id = 1;
  key = "receita-cnpj";
  name = "Receita";
  adapter_path = "";
  enabled = true;
  created_at = 0;
}

abbrev query_run : QueryRun
query_run = record {
  id = 4;
  query = 1;
  status = pending;
  dataset_reference = "";
  coverage = none;
  records_processed = 0;
  records_matched = 0;
  records_failed = 0;
  started_at = none;
  finished_at = none;
  created_by = 1;
}

abbrev no_rows : Catalog
no_rows = record {
  next_id = 10;
  companies = [];
  records = [];
  observations = [];
  cnaes = [];
  candidates = [];
  results = [];
}

abbrev store : Store
store = record {
  catalog = no_rows;
  queries = [];
  runs = query_run ∷ [];
  coverages = [];
  sources = source ∷ [];
  datasets = [];
  files = [];
}

abbrev payload : Entries
payload =
    entry "query_run_id" (text "4")
      (entry "dataset_reference" (text "2026-01") (entry "source_path" (text "/tmp/a.zip") empty))

abbrev accepted : Accepted
accepted = record {
  query_run = query_run;
  dataset_reference = "2026-01";
  mode = preview;
  max_results = 2;
  filters = sao_paulo;
  source = source;
  requested = record {
    of_establishments = ("/tmp/a.zip", false) ∷ [];
    of_companies = [];
    of_simples = [];
  };
  coverage_complete = false;
}

abbrev key_four : Json → Option ℕ
key_four v = some 4

is_accepted :
    accept texts digits values settings key_four sao_paulo payload (registry store) ≡ ok accepted
unfolding accept establishment_sources only_group limited read_mode read_limit read_int in_range
    make_filter accept_sources optional_sources optional_of check_mode check_coverage
    validate_manifest_urls urls_of check_remote
is_accepted = refl

accept-IsChecked_example : Limited settings accepted × IsChecked settings (registry store) accepted
accept-IsChecked_example =
    accept-IsChecked texts digits values settings key_four sao_paulo payload (registry store)
      accepted is_accepted

execute_discover_cnpj-Ends_example : Ends 9 accepted store (
    execute_discover_cnpj texts digits values settings hashing capital files scope 8 9 key_four
      sao_paulo payload store)
execute_discover_cnpj-Ends_example =
    execute_discover_cnpj-Ends texts digits values settings hashing capital files scope 8 9 accepted
      store key_four sao_paulo payload is_accepted

abbrev run : Run
run = record { source = 1; observed_at = 8; dataset_reference = "2026-01"; query_run = some 4 }

abbrev start : Progress
start = record {
  catalog = no_rows;
  rows = 0;
  matched = 0;
  invalid = 0;
  sources_processed = 0;
  limit_reached = false;
}

nothing_read : 0 ≤ 2
nothing_read = omega arith

not_reached : (start.limit_reached ≡ true) ⊎ (0 < 2)
not_reached = inr (omega arith)

abbrev sp : CnpjEstablishment
sp = record {
  cnpj_basico = "1";
  cnpj_ordem = "2";
  cnpj_dv = "3";
  branch_identifier = "1";
  trade_name = "Fábrica";
  registration_status = "02";
  registration_status_date = "";
  activity_started_on = "";
  primary_cnae = "25";
  secondary_cnaes = "26" ∷ "25" ∷ [];
  street_type = "";
  street = "";
  number = "";
  complement = "";
  district = "";
  postal_code = "";
  state = "SP";
  municipality_code = "";
  phone = "";
  secondary_phone = "";
  email = "";
}

abbrev known : Company
known = record { id = 5; cnpj = "123"; columns = λ n. Value.text "old" }

abbrev with_company : Catalog
with_company = record no_rows { companies = known ∷ [] }

ingest_establishment-OneMain_example :
    OneMain hashing run
      (ingest_establishment hashing run sp with_company).1.id
      "25"
      (ingest_establishment hashing run sp with_company).0.cnaes
ingest_establishment-OneMain_example = ingest_establishment-OneMain hashing run sp with_company

abbrev later : Run
later = record run { observed_at = 20; query_run = none }

same_source : run.source ≡ later.source
same_source = refl

abbrev once : Catalog
once = (ingest_establishment hashing run sp no_rows).0

abbrev twice : Catalog
twice = (ingest_establishment hashing later sp once).0

ingest_establishment-again_example :
    (twice.records ≡ once.records) × (twice.observations ≡ once.observations)
ingest_establishment-again_example =
    ingest_establishment-again hashing run later sp no_rows same_source
