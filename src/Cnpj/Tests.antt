-- ===== src/Cnpj/Tests.antt =====
-- Concrete runs on the CNPJ source: a disk, a download of three bytes, a scan and a manifest.
use sniper_synapse.Base.{
  ℕ, zero, suc, ◌+◌, ◌<◌, String, ◌≡◌, refl, true, false, Option, none, some, List, [], ◌∷◌, ◌++◌,
  arith, length, filter_rows, str_eq,
}
use sniper_synapse.Base.Int.{ℤ, pos, ◌-ℤ◌}
use sniper_synapse.Cnpj.Models.{
  Source, CnpjDataset, CnpjDatasetFile, Kind, establishments, companies, simples, DatasetStatus,
}
use sniper_synapse.Cnpj.Storage.{Disk, assess_download_capacity, reason_for, safe_capacity}
use sniper_synapse.Cnpj.Download.{
  Result, ok, err, incomplete, Urls, Parsed, Answer, JobDirectory, absent, validated_url,
  content_length, check_quota, copy_chunks, admit, finish_copy, receive, settle, part_left,
  start_download, download_validated, download, downloaded_cnpj_zip,
}
use sniper_synapse.Cnpj.Download.Quota.{FitsDisk, download_fits}
use sniper_synapse.Cnpj.Download.Cleanup.{Ends, downloaded_cnpj_zip-Ends}
use sniper_synapse.Cnpj.Readers.{
  Texts, CnpjEstablishmentFilter, no_stats, matches, scan_establishments, parse_row,
  scan_complements,
}
use sniper_synapse.Cnpj.Scan.{parsed, rows_of_text, scan_selects}
use sniper_synapse.Cnpj.Records.{
  CnpjCompany, Digits, parse_company, targets_accepted, read_companies,
}
use sniper_synapse.Cnpj.Readers.{Scan}
use sniper_synapse.Cnpj.Health.{
  dataset_health, is_complete, fits_storage, largest, is_stale, healthy,
}

abbrev disk : Disk
disk = record { max_temp_bytes = 10; min_free_bytes = 5; free_bytes = 12 }

seven_positive : 0 < 7
seven_positive = omega arith

abbrev origin : Parsed
origin = record {
  scheme = "https";
  username = none;
  password = none;
  netloc = "receita.gov.br";
  path = "/cnpj/";
}

abbrev urls : Urls
urls = record {
  base_value = "https://receita.gov.br/cnpj";
  urlparse = λ s. origin;
  base_path = λ s. "/cnpj/";
  starts_with = λ s t. true;
}

abbrev parse_three : String → Option ℤ
parse_three s = some (pos 3)

abbrev answer : Answer
answer = record {
  geturl = "u";
  length_header = some "3";
  chunks = (1 ∷ 2 ∷ []) ∷ (3 ∷ []) ∷ [];
  corrupt = λ bytes. false;
}

abbrev three_bytes : List ℕ
three_bytes = 1 ∷ 2 ∷ 3 ∷ []

abbrev after_download : JobDirectory
after_download = record { exists = true; part = none; ready = some three_bytes; others = 0 }

downloaded :
    download urls parse_three disk "u" true true absent (some answer)
    ≡ (after_download, ok three_bytes)
unfolding download download_validated start_download settle part_left receive finish_copy admit
    copy_chunks check_quota content_length validated_url assess_download_capacity reason_for ◌-ℤ◌
downloaded = refl

download_fits_example : FitsDisk urls parse_three disk 3
download_fits_example =
    download_fits urls parse_three disk "u" true true absent after_download (some answer)
      three_bytes downloaded

-- The caller's block leaves another file and raises.
abbrev leaves_file : List ℕ → JobDirectory → JobDirectory × Result ℕ
leaves_file bytes d = (record d { others = 1 }, err incomplete)

downloaded_cnpj_zip-Ends_example :
    let r =
      downloaded_cnpj_zip urls parse_three disk false "u" true true absent
        (some answer)
        leaves_file in
    (r.1 ≡ false)
    × Ends urls parse_three disk leaves_file
        (download urls parse_three disk "u" true true absent (some answer))
        r
downloaded_cnpj_zip-Ends_example =
    downloaded_cnpj_zip-Ends urls parse_three disk "u" true true (some answer) leaves_file

abbrev texts : Texts
texts = record {
  strip = λ s. s;
  upper = λ s. s;
  lower = λ s. s;
  join = λ s t. s;
  split_comma = λ s. s ∷ [];
  starts_with = λ s t. str_eq s t;
}

abbrev sao_paulo : CnpjEstablishmentFilter
sao_paulo = record {
  registration_statuses = [];
  states = "SP" ∷ [];
  municipality_codes = [];
  cnae_codes = [];
  cnae_prefixes = [];
  include_secondary_cnaes = false;
}

abbrev columns : ℕ → String → List String
columns zero s = []
columns (suc n) s = s ∷ columns n s

-- A blank line, a row of São Paulo, a short row and a row of another state.
abbrev rows : List (List String)
rows = [] ∷ columns 30 "SP" ∷ ("short" ∷ []) ∷ columns 30 "RJ" ∷ []

one_of_three : length (scan_establishments texts false sao_paulo no_stats rows).yielded ≡ 1
unfolding scan_establishments parse_row matches
one_of_three = refl

scan_selects_example :
    ((scan_establishments texts false sao_paulo no_stats rows).yielded
      ≡ filter_rows (matches texts sao_paulo) (parsed texts rows))
    × ((scan_establishments texts false sao_paulo no_stats rows).stats.rows_read
        ≡ rows_of_text texts rows)
    × ((scan_establishments texts false sao_paulo no_stats rows).stats.rows_matched
        ≡ length (scan_establishments texts false sao_paulo no_stats rows).yielded)
    × ((scan_establishments texts false sao_paulo no_stats rows).stats.rows_invalid
          + length (parsed texts rows)
        ≡ rows_of_text texts rows)
scan_selects_example = scan_selects texts sao_paulo rows

abbrev same_row : List String → List String
same_row row = row

abbrev targets : List String
targets = "A" ∷ []

abbrev source : Source
source = record {
  id = 1;
  key = "receita-cnpj";
  name = "Receita";
  adapter_path = "";
  enabled = true;
  created_at = 0;
}

abbrev dataset : CnpjDataset
dataset = record {
  id = 1;
  source = 1;
  reference = "2026-01";
  status = DatasetStatus.ready;
  is_current = true;
  discovered_at = 0;
  verified_at = none;
}

abbrev file : Kind → ℕ → CnpjDatasetFile
file kind n = record {
  id = n;
  dataset = 1;
  kind = kind;
  part_number = n;
  url = "u";
  size_bytes = 3;
  etag = "";
  checksum = "";
}

abbrev parts_below : Kind → ℕ → List CnpjDatasetFile
parts_below kind zero = []
parts_below kind (suc n) = file kind n ∷ parts_below kind n

abbrev files : List CnpjDatasetFile
files = parts_below establishments 10 ++ (parts_below companies 10 ++ file simples 0 ∷ [])

is_healthy : (dataset_health disk 45 100 source dataset files).state ≡ healthy
unfolding dataset_health is_complete fits_storage largest is_stale safe_capacity ◌-ℤ◌
is_healthy = refl

abbrev digits : Digits
digits = record { is_digits = λ s. true; size = λ s. 8 }

abbrev company_rows : List (List String)
company_rows = columns 7 "A" ∷ columns 7 "A" ∷ []

abbrev company_scan : Scan CnpjCompany
company_scan = record {
  yielded = parse_company texts digits (columns 7 "A") ∷ [];
  stats = record { rows_read = 1; rows_matched = 1; rows_invalid = 0 };
  raised = false;
}

read_one_company : read_companies texts digits true targets company_rows ≡ some company_scan
unfolding read_companies targets_accepted scan_complements parse_company
read_one_company = refl
