-- ===== src/Cnpj/Discover/Requests/Checked.antt =====
-- What the checks of `execute_discover_cnpj` (apps/sources/cnpj/jobs.py) guarantee together.
use sniper_synapse.Base.{
  ℕ, ◌≤◌, ◌≡◌, sym, arith, true, not, ◌&&◌, Option, [], ◌==◌, any, first_where, str_eq,
}
use sniper_synapse.Base.Results.{ok, guard, or_raise, bound, guarded, ok_inj}
use sniper_synapse.Scoring.Json.{Json, Entries, get}
use sniper_synapse.Cnpj.Readers.{CnpjEstablishmentFilter, Texts}
use sniper_synapse.Cnpj.Records.{Digits, make_filter}
use sniper_synapse.Cnpj.Discover.Requests.{
  RequestError, Values, Settings, Mode, Registry, Requested, all_sources, validate_manifest_urls,
  optional_sources, bad_limit, no_reference, bad_prefix, establishment_sources, missing_key, no_row,
}
use sniper_synapse.Cnpj.Discover.Requests.Accepted.{
  Accepted, is_receita, is_the_true, read_mode, configured_limit, read_int, read_limit, check_mode,
  check_coverage, check_remote, accept_sources, accept,
}
use sniper_synapse.Cnpj.Discover.Requests.Sound.{
  Validated, validate-Validated, Validated-InManifest, in_range-bounds, check_mode-ModeAllows,
  check_remote-EveryFile, check_coverage-FullParts, Limited, IsChecked,
}

module _ (py : Texts) (digits : Digits) (values : Values) (settings : Settings) where
  accept_sources-IsChecked :
      (payload : Entries) (db : Registry) (a b : Accepted)
      → accept_sources py digits values settings payload db a ≡ ok b
      → Limited settings a
      → Limited settings b × IsChecked settings db b
  unfolding accept_sources
  accept_sources-IsChecked payload db a b h l =
      let (cs, _, h1) =
        bound (optional_sources values payload "company_source_paths" "company_source_urls" 10) _
          h in
      let (ss, _, h2) =
        bound (optional_sources values payload "simples_source_paths" "simples_source_urls" 1) _
          h1 in
      let r : Requested = record a.requested { of_companies = cs; of_simples = ss } in
      let (_, mode, h3) = bound (check_mode settings a.mode r) _ h2 in
      let (_, parts, h4) =
        bound
          (check_coverage values a.coverage_complete a.mode r
            (get "expected_establishment_parts" payload))
          _ h3 in
      let (o, manifest, h5) =
        bound (validate_manifest_urls db a.source.id a.dataset_reference r) _ h4 in
      let (_, every, h6) =
        bound (check_remote (a.coverage_complete && any (λ s. s.1) (all_sources r)) db r o) _ h5 in
      let same : record a { requested = r } ≡ b =
        ok_inj {E = RequestError} (record a { requested = r }) b h6 in
      let v : Validated db a.source.id a.dataset_reference r o =
        validate-Validated db a.source.id a.dataset_reference r o manifest in
      rw (sym same) (
        l,
        (
          Validated-InManifest db a.source.id a.dataset_reference r o v,
          check_mode-ModeAllows settings a.mode r mode,
          check_coverage-FullParts values a.coverage_complete a.mode r
              (get "expected_establishment_parts" payload) parts,
          check_remote-EveryFile (a.coverage_complete && any (λ s. s.1) (all_sources r)) db
              a.source.id a.dataset_reference r o v every,
        ),
      )

  read_limit-Limited :
      (mode : Mode) (v : Option Json) (n : ℕ)
      → read_limit py digits values settings mode v ≡ ok n
      → (1 ≤ n) × (n ≤ configured_limit settings mode)
  unfolding read_limit
  read_limit-Limited mode v n h =
      let (m, _, r) = bound (read_int values (configured_limit settings mode) v) _ h in
      in_range-bounds bad_limit (configured_limit settings mode) m n r

  -- A request that is accepted has a positive `max_results` within the limit of its mode and a
  -- reference that is not empty, and its remote URLs are all in the ready manifest of the competence, each under its kind. A preview has
  -- one establishment source and no complement; a full run has no remote source unless it is
  -- enabled. A complete coverage is a full run of one to ten parts, and one with a remote source
  -- requests every file of the ready manifest, of each kind, exactly once.
  pub accept-IsChecked :
      (key_of : Json → Option ℕ) (filters : CnpjEstablishmentFilter) (payload : Entries)
      (db : Registry) (a : Accepted)
      → accept py digits values settings key_of filters payload db ≡ ok a
      → Limited settings a × IsChecked settings db a
  unfolding accept
  accept-IsChecked key_of filters payload db a h =
      let (run_key, _, h1) = bound (or_raise missing_key (get "query_run_id" payload)) _ h in
      let (key, _, h2) = bound (or_raise no_row (key_of run_key)) _ h1 in
      let (run, _, h3) = bound (or_raise no_row (first_where (λ r. r.id == key) db.runs)) _ h2 in
      let (ref, _, h4) = bound (or_raise missing_key (get "dataset_reference" payload)) _ h3 in
      let (_, referred, h5) =
        bound (guard (not (str_eq (py.strip (values.str ref)) "")) no_reference) _ h4 in
      let has_reference : not (str_eq (py.strip (values.str ref)) "") ≡ true =
        guarded (not (str_eq (py.strip (values.str ref)) "")) no_reference referred in
      let (sources, _, h6) = bound (establishment_sources values payload) _ h5 in
      let (mode, _, h7) = bound (read_mode py digits values settings (get "mode" payload)) _ h6 in
      let (n, limit, h8) =
        bound (read_limit py digits values settings mode (get "max_results" payload)) _ h7 in
      let (low, high) = read_limit-Limited mode (get "max_results" payload) n limit in
      let (f, _, h9) = bound (or_raise bad_prefix (make_filter py digits filters)) _ h8 in
      let (source, _, h10) = bound (or_raise no_row (first_where is_receita db.sources)) _ h9 in
      accept_sources-IsChecked payload db
        (record {
          query_run = run;
          dataset_reference = py.strip (values.str ref);
          mode = mode;
          max_results = n;
          filters = f;
          source = source;
          requested = record { of_establishments = sources; of_companies = []; of_simples = [] };
          coverage_complete = is_the_true (get "coverage_complete" payload);
        })
        a h10 (low, high, ground (arith, has_reference))
