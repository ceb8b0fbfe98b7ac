-- ===== src/Cnpj/Discover/Establishments.antt =====
-- The loop of `execute_discover_cnpj` over the establishment sources (apps/sources/cnpj/jobs.py),
-- with the reader of establishments.py, which it drives and stops at the limit.
pub mod Stored
pub mod Within
use sniper_synapse.Base.{
  ℕ, ◌+◌, String, Bool, true, false, not, ◌&&◌, ◌||◌, Option, none, some, List, [], ◌∷◌, leb,
  if◌then◌else◌, update_where, str_eq,
}
use sniper_synapse.Cnpj.Readers.{
  Texts, CnpjEstablishment, CnpjEstablishmentFilter, CnpjScanStats, no_stats, read_one, match_one,
  invalid_one, matches, parse_row,
}
use sniper_synapse.Cnpj.Records.{Digits, is_selective}
use sniper_synapse.Cnpj.Catalog.{Catalog, CnpjCandidate}
use sniper_synapse.Cnpj.Ingestion.{
  Hashing, Run, is_candidate, cnpj, stage_establishment, ingest_establishment,
}
use sniper_synapse.Cnpj.Discover.Requests.{SourceRef}

-- The paths of Python: `resolve` is strict, so that it may fail, and `suffix` is lower case.
-- `downloaded` gives the rows of a URL's ZIP inside `downloaded_cnpj_zip`, and `zip_rows` those of
-- a file; both are absent for an exception.
pub record Files : Type 0 where
  pub temp_root : String
  pub resolve : String → Option String
  pub is_inside : String → String → Bool
  pub suffix : String → String
  pub downloaded : String → Option (List (List String))
  pub zip_rows : String → Option (List (List String))

module _ (files : Files) where
  unfoldable pub safe_path_of : Option String → Option String
  safe_path_of none = none
  safe_path_of (some path) =
      if files.is_inside path files.temp_root && str_eq (files.suffix path) ".zip"
      then some path
      else none

  -- `_safe_source_path`: absent for an exception.
  unfoldable pub safe_source_path : String → Option String
  safe_source_path value = safe_path_of (files.resolve value)

  abbrev rows_at : Option String → Option (List (List String))
  rows_at none = none
  rows_at (some path) = files.zip_rows path

  -- `_source_context` and the opening of the file.
  unfoldable pub source_rows : SourceRef → Option (List (List String))
  source_rows (value, true) = files.downloaded value
  source_rows (value, false) = rows_at (safe_source_path value)

-- How reading one source ended: at the end of the file, at the limit, or with an exception.
pub data Ending : Type 0 where
  exhausted stopped raised : Ending

pub record Loop : Type 0 where
  pub catalog : Catalog
  pub stats : CnpjScanStats
  pub ending : Ending

pub record Progress : Type 0 where
  pub catalog : Catalog
  pub rows : ℕ
  pub matched : ℕ
  pub invalid : ℕ
  pub sources_processed : ℕ
  pub limit_reached : Bool

abbrev pub is_stopped : Ending → Bool
is_stopped stopped = true
is_stopped _ = false

module _ (py : Texts) (digits : Digits) (hashing : Hashing) (run : Run) (run_key : ℕ) where
  -- The transaction for one establishment.
  unfoldable pub ingest_row : CnpjEstablishment → Catalog → Catalog
  ingest_row e db =
      let (ingested, c, _, _) =
        ingest_establishment hashing run e (stage_establishment e run_key db) in
      record ingested {
        candidates =
            update_where (is_candidate run_key (cnpj e))
              (λ candidate. record candidate { company = some c.id }) ingested.candidates;
      }

  module _ (filters : CnpjEstablishmentFilter) (max_results : ℕ) where
    -- The rows of one source after `before` matches: the reader raises at a row of another layout.
    unfoldable pub read_source : ℕ → Catalog → CnpjScanStats → List (List String) → Loop
    read_source before db stats [] = record { catalog = db; stats = stats; ending = exhausted }
    read_source before db stats ([] ∷ rows) = read_source before db stats rows
    read_source before db stats ((c ∷ row) ∷ rows) = elim (parse_row py (c ∷ row)) [
      | none ↦ record { catalog = db; stats = invalid_one (read_one stats); ending = raised }
      | some e ↦ elim (matches py filters e) [
        | false ↦ read_source before db (read_one stats) rows
        | true ↦
            let limited = leb max_results (before + (stats.rows_matched + 1)) in
            elim limited [
              | true ↦ record {
                catalog = ingest_row e db;
                stats = match_one (read_one stats);
                ending = stopped;
              }
              | false ↦ read_source before (ingest_row e db) (match_one (read_one stats)) rows
            ]
      ]
    ]

    -- The sums after a source, or in the `except` block.
    abbrev pub after_source : Progress → Loop → Progress
    after_source p l = record p {
      catalog = l.catalog;
      rows = p.rows + l.stats.rows_read;
      matched = p.matched + l.stats.rows_matched;
      invalid = p.invalid + l.stats.rows_invalid;
      sources_processed = p.sources_processed + 1;
      limit_reached = p.limit_reached || is_stopped l.ending;
    }

    -- What reading one source gives: `none` is an exception before its first row.
    unfoldable pub read_opened : Progress → Option (List (List String)) → Option Loop
    read_opened p none = none
    read_opened p (some rows) =
        if is_selective py digits filters
        then some (read_source p.matched p.catalog no_stats rows)
        else none

    -- The loop, and whether an exception ended it.
    unfoldable pub read_sources : Files → Progress → List SourceRef → Progress × Bool
    read_sources files p [] = (p, false)
    read_sources files p (source ∷ rest) =
        let full = leb max_results p.matched in
        elim full [
          | true ↦ (record p { limit_reached = true }, false)
          | false ↦ elim (read_opened p (source_rows files source)) [
            | none ↦ (p, true)
            | some l ↦ elim l.ending [
              | raised ↦ (after_source p l, true)
              | _ ↦ read_sources files (after_source p l) rest
            ]
          ]
        ]
