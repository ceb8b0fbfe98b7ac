-- ===== src/Cnpj/Discover/Complements.antt =====
-- The loops of `execute_discover_cnpj` over the sources of companies and of Simples
-- (apps/sources/cnpj/jobs.py). The two are alike, and are one function of the reader and of the
-- ingestion.
use sniper_synapse.Base.{
  ℕ, ◌+◌, String, Bool, true, false, Option, none, some, List, [], ◌∷◌, if◌then◌else◌, filter_rows,
  str_eq,
}
use sniper_synapse.Base.Results.{Result, ok, err}
use sniper_synapse.Cnpj.Readers.{Texts, Scan, contains, is_nonempty, without}
use sniper_synapse.Cnpj.Records.{Digits, read_companies, read_simples}
use sniper_synapse.Cnpj.Catalog.{Catalog, CnpjCandidate}
use sniper_synapse.Cnpj.Ingestion.{Hashing, Run}
use sniper_synapse.Cnpj.Ingestion.Complements.{
  Capital, ComplementError, ingest_company_complement, ingest_simples_complement,
}
use sniper_synapse.Cnpj.Discover.Requests.{SourceRef}
use sniper_synapse.Cnpj.Discover.Establishments.{Files, source_rows}

-- `candidates_by_basic`: its keys, and the candidates of a key.
unfoldable pub basics_of : List CnpjCandidate → List String
basics_of [] = []
basics_of (c ∷ rest) =
    let later = basics_of rest in
    if contains c.cnpj_basico later then later else c.cnpj_basico ∷ later

abbrev pub with_basic : String → List CnpjCandidate → List CnpjCandidate
with_basic basic = filter_rows (λ c. str_eq c.cnpj_basico basic)

-- What a loop sums; `remaining` are the basics that no record was found for.
pub record Totals : Type 0 where
  pub catalog : Catalog
  pub rows : ℕ
  pub matched : ℕ
  pub invalid : ℕ
  pub sources_processed : ℕ
  pub remaining : List String

module _ {A : Type 0} (py : Texts) (basic_of : A → String)
    (ingest : CnpjCandidate → A → Catalog → Result ComplementError Catalog) where
  -- The candidates of one record; the tables, and whether an exception ended it.
  unfoldable pub ingest_each : A → List CnpjCandidate → Catalog → Catalog × Bool
  ingest_each r [] db = (db, false)
  ingest_each r (c ∷ rest) db = elim (ingest c r db) [
    | err _ ↦ (db, true)
    | ok db' ↦ ingest_each r rest db'
  ]

  -- The records that a reader yields.
  unfoldable pub ingest_records : List CnpjCandidate → List A → Catalog → Catalog × Bool
  ingest_records candidates [] db = (db, false)
  ingest_records candidates (r ∷ rest) db =
      let (db', failed) = ingest_each r (with_basic (basic_of r) candidates) db in
      elim failed [ true ↦ (db', true) | false ↦ ingest_records candidates rest db' ]

  -- `company_remaining.discard(...)` for each record
  unfoldable pub discard : List A → List String → List String
  discard [] remaining = remaining
  discard (r ∷ rest) remaining = discard rest (without py (basic_of r) remaining)

  -- One source: the records of the scan are ingested as they are read, and the exception of the
  -- reader comes after them. The statistics of a source that fails are not used.
  unfoldable pub read_scan : List CnpjCandidate → Totals → Option (Scan A) → Totals × Bool
  read_scan candidates t none = (t, true)
  read_scan candidates t (some scan) =
      let (db, failed) = ingest_records candidates scan.yielded t.catalog in
      elim failed [
        | true ↦ (record t { catalog = db }, true)
        | false ↦ elim scan.raised [
          | true ↦ (record t { catalog = db }, true)
          | false ↦ (
            record t {
              catalog = db;
              rows = t.rows + scan.stats.rows_read;
              matched = t.matched + scan.stats.rows_matched;
              invalid = t.invalid + scan.stats.rows_invalid;
              sources_processed = t.sources_processed + 1;
              remaining = discard scan.yielded t.remaining;
            },
            false,
          )
        ]
      ]

  module _ (read : List String → List (List String) → Option (Scan A)) where
    abbrev scan_of : List String → Option (List (List String)) → Option (Scan A)
    scan_of remaining none = none
    scan_of remaining (some rows) = read remaining rows

    -- The loop, and whether an exception ended it.
    unfoldable pub complement_sources :
        Files → List CnpjCandidate → Totals → List SourceRef → Totals × Bool
    complement_sources files candidates t [] = (t, false)
    complement_sources files candidates t (source ∷ rest) = elim (is_nonempty t.remaining) [
      | false ↦ (t, false)
      | true ↦
          let (t', failed) =
            read_scan candidates t (scan_of t.remaining (source_rows files source)) in
          elim failed [ true ↦ (t', true) | false ↦ complement_sources files candidates t' rest ]
    ]

module _ (py : Texts) (digits : Digits) (hashing : Hashing) (capital : Capital) (run : Run) where
  -- The readers are strict.
  unfoldable pub company_sources :
      Files → List CnpjCandidate → Totals → List SourceRef → Totals × Bool
  company_sources =
      complement_sources py (λ r. r.cnpj_basico)
        (λ c r. ingest_company_complement hashing capital run c r)
        (λ targets rows. read_companies py digits true targets rows)

  unfoldable pub simples_sources :
      Files → List CnpjCandidate → Totals → List SourceRef → Totals × Bool
  simples_sources =
      complement_sources py (λ r. r.cnpj_basico) (λ c r. ingest_simples_complement hashing run c r)
        (λ targets rows. read_simples py digits true targets rows)
