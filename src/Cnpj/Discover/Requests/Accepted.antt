-- ===== src/Cnpj/Discover/Requests/Accepted.antt =====
-- The whole of the checks of `execute_discover_cnpj` (apps/sources/cnpj/jobs.py), and what they
-- guarantee of a request that is accepted.
use sniper_synapse.Base.{
  ℕ, zero, suc, String, Bool, true, false, not, ◌&&◌, ◌||◌, Option, none, some, [], ◌==◌, ltb,
  if◌then◌else◌, any, first_where, length, str_eq,
}
use sniper_synapse.Base.Int.{ℤ, pos, negsuc}
use sniper_synapse.Base.Results.{Result, ok, err, ◌>>=◌, guard, or_raise}
use sniper_synapse.Scoring.Json.{Json, bool, Entries, get}
use sniper_synapse.Cnpj.Models.{Source, CnpjDataset}
use sniper_synapse.Cnpj.Readers.{CnpjEstablishmentFilter, Texts, is_nonempty}
use sniper_synapse.Cnpj.Records.{Digits, make_filter}
use sniper_synapse.Discovery.Models.{QueryRun}
use sniper_synapse.Cnpj.Discover.Requests.{
  RequestError, missing_key, bad_number, no_row, no_reference, bad_mode, bad_limit, bad_prefix,
  one_preview_source, preview_complements, kill_switch, bad_coverage, missing_parts, Values,
  Settings, Mode, preview, full, optional_sources, establishment_sources, Registry, Requested,
  all_sources, validate_manifest_urls, check_every_file,
}

-- What the checks leave for the run.
pub record Accepted : Type 0 where
  pub query_run : QueryRun
  pub dataset_reference : String
  pub mode : Mode
  pub max_results : ℕ
  pub filters : CnpjEstablishmentFilter
  pub source : Source
  pub requested : Requested
  pub coverage_complete : Bool

abbrev pub is_preview : Mode → Bool
is_preview preview = true
is_preview full = false

abbrev pub configured_limit : Settings → Mode → ℕ
configured_limit settings preview = settings.preview_max_results
configured_limit settings full = settings.max_persisted_matches

-- `payload.get("coverage_complete") is True`
abbrev pub is_the_true : Option Json → Bool
is_the_true (some (bool b)) = b
is_the_true _ = false

-- `value < 1 or value > limit`
unfoldable pub in_range : RequestError → ℕ → ℤ → Result RequestError ℕ
in_range e limit (negsuc n) = err e
in_range e limit (pos zero) = err e
in_range e limit (pos (suc n)) = if ltb limit (suc n) then err e else ok (suc n)

abbrev pub is_receita : Source → Bool
is_receita s = str_eq s.key "receita-cnpj" && s.enabled

unfoldable pub check_remote :
    Bool → Registry → Requested → Option CnpjDataset → Result {0} RequestError Unit
check_remote false db r dataset = ok tt
check_remote true db r dataset = check_every_file db r dataset

-- The tests on the mode and the sources.
unfoldable pub check_mode : Settings → Mode → Requested → Result {0} RequestError Unit
check_mode settings preview r = do
  _ ← guard (length r.of_establishments == 1) one_preview_source
  guard (not (is_nonempty r.of_companies || is_nonempty r.of_simples)) preview_complements
check_mode settings full r =
    guard (not (any (λ s. s.1) (all_sources r)) || settings.full_enabled) kill_switch

module _ (values : Values) where
  -- `int(payload.get(key, default))`
  unfoldable pub read_int : ℕ → Option Json → Result RequestError ℤ
  read_int default none = ok (pos default)
  read_int default (some v) = or_raise bad_number (values.int v)

  unfoldable pub check_parts : Mode → Requested → Option Json → Result {0} RequestError Unit
  check_parts mode r expected = do
    n ← read_int 10 expected
    _ ← guard (not (is_preview mode)) bad_coverage
    parts ← in_range bad_coverage 10 n
    guard (length r.of_establishments == parts) missing_parts

  unfoldable pub check_coverage :
      Bool → Mode → Requested → Option Json → Result {0} RequestError Unit
  check_coverage false mode r expected = ok tt
  check_coverage true mode r expected = check_parts mode r expected

module _ (py : Texts) (digits : Digits) (values : Values) (settings : Settings) where
  abbrev pub mode_of : String → Result RequestError Mode
  mode_of name =
      if str_eq name "PREVIEW"
      then ok preview
      else if str_eq name "FULL"
      then ok full
      else err bad_mode

  unfoldable pub read_mode : Option Json → Result RequestError Mode
  read_mode none = mode_of (py.upper "PREVIEW")
  read_mode (some v) = mode_of (py.upper (values.str v))

  unfoldable pub read_limit : Mode → Option Json → Result RequestError ℕ
  read_limit mode v = do
    n ← read_int values (configured_limit settings mode) v
    in_range bad_limit (configured_limit settings mode) n

  -- From the search for the source on.
  unfoldable pub accept_sources : Entries → Registry → Accepted → Result RequestError Accepted
  accept_sources payload db a = do
    companies ← optional_sources values payload "company_source_paths" "company_source_urls" 10
    simples ← optional_sources values payload "simples_source_paths" "simples_source_urls" 1
    let r : Requested = record a.requested { of_companies = companies; of_simples = simples }
    _ ← check_mode settings a.mode r
    _ ←
        check_coverage values a.coverage_complete a.mode r
          (get "expected_establishment_parts" payload)
    dataset ← validate_manifest_urls db a.source.id a.dataset_reference r
    _ ← check_remote (a.coverage_complete && any (λ s. s.1) (all_sources r)) db r dataset
    ok (record a { requested = r })

  -- The lines of `execute_discover_cnpj` before the run starts. The lists of `filters` hold texts.
  unfoldable pub accept :
      (Json → Option ℕ)
      → CnpjEstablishmentFilter
      → Entries
      → Registry
      → Result RequestError Accepted
  accept key_of filter_payload payload db = do
    run_key ← or_raise missing_key (get "query_run_id" payload)
    key ← or_raise no_row (key_of run_key)
    query_run ← or_raise no_row (first_where (λ r. r.id == key) db.runs)
    reference ← or_raise missing_key (get "dataset_reference" payload)
    let dataset_reference = py.strip (values.str reference)
    _ ← guard (not (str_eq dataset_reference "")) no_reference
    sources ← establishment_sources values payload
    mode ← read_mode (get "mode" payload)
    max_results ← read_limit mode (get "max_results" payload)
    filters ← or_raise bad_prefix (make_filter py digits filter_payload)
    source ← or_raise no_row (first_where is_receita db.sources)
    accept_sources payload db (record {
      query_run = query_run;
      dataset_reference = dataset_reference;
      mode = mode;
      max_results = max_results;
      filters = filters;
      source = source;
      requested = record { of_establishments = sources; of_companies = []; of_simples = [] };
      coverage_complete = is_the_true (get "coverage_complete" payload);
    })
