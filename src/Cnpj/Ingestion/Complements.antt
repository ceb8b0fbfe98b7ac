-- ===== src/Cnpj/Ingestion/Complements.antt =====
-- The complements of apps/sources/cnpj/ingestion.py: what the files of companies and of Simples add
-- to the candidates of a run.
use sniper_synapse.Base.{
  ℕ, String, Bool, true, Option, some, List, [], ◌∷◌, ◌++◌, ◌==◌, ◌&&◌, if◌then◌else◌, first_where,
  update_where, str_eq, map, is_some,
}
use sniper_synapse.Base.Results.{Result, ok, ◌>>=◌, guard, or_raise}
use sniper_synapse.Scoring.Decimal.{Decimal}
use sniper_synapse.Cnpj.Records.{CnpjCompany, CnpjSimples}
use sniper_synapse.Cnpj.Catalog.{
  Value, absent, text, decimal, Fields, Company, company_complement, simples_complement,
  CnpjCandidate, Catalog,
}
use sniper_synapse.Cnpj.Ingestion.{Hashing, Run, fill, is_candidate, persist_record}

-- The `ValueError` of a wrong candidate, `Company.DoesNotExist`, and the `ValueError` of a share
-- capital that is no number.
pub data ComplementError : Type 0 where
  other_candidate no_company bad_share_capital : ComplementError

-- `normalized` is `value.strip().replace(".", "").replace(",", ".")`, and `decimal_of` is
-- `Decimal(...)`, absent for an `InvalidOperation`.
pub record Capital : Type 0 where
  pub normalized : String → String
  pub decimal_of : String → Option Decimal

-- `_decimal_from_receita`
unfoldable pub decimal_from_receita : Capital → String → Result ComplementError Value
decimal_from_receita py value =
    if str_eq (py.normalized value) ""
    then ok absent
    else (do d ← or_raise bad_share_capital (py.decimal_of (py.normalized value)); ok (decimal d))

-- The `canonical_fields` of `ingest_company_complement`.
abbrev pub company_fields : CnpjCompany → Value → Fields
company_fields r share_capital =
    ("legal_name", text r.legal_name)
    ∷ ("legal_nature_code", text r.legal_nature_code)
    ∷ ("size_code", text r.size_code)
    ∷ ("share_capital", share_capital)
    ∷ []

abbrev pub simples_fields : CnpjSimples → Fields
simples_fields r =
    ("simples_option", text r.simples_option)
    ∷ ("simples_option_on", text r.simples_option_on)
    ∷ ("simples_excluded_on", text r.simples_excluded_on)
    ∷ ("mei_option", text r.mei_option)
    ∷ ("mei_option_on", text r.mei_option_on)
    ∷ ("mei_excluded_on", text r.mei_excluded_on)
    ∷ []

abbrev pub has_id : ℕ → Company → Bool
has_id id c = c.id == id

-- The company that a candidate names.
unfoldable pub company_of : CnpjCandidate → String → Catalog → Result ComplementError Company
company_of candidate basico db = do
  _ ← guard (str_eq candidate.cnpj_basico basico && is_some candidate.company) other_candidate
  id ← or_raise other_candidate candidate.company
  or_raise no_company (first_where (has_id id) db.companies)

abbrev pub for_candidate : CnpjCandidate → Run → Run
for_candidate candidate run = record run { query_run = some candidate.query_run }

-- `candidate.save(update_fields=...)`
abbrev pub save_candidate :
    CnpjCandidate → (CnpjCandidate → CnpjCandidate) → List CnpjCandidate → List CnpjCandidate
save_candidate candidate = update_where (is_candidate candidate.query_run candidate.cnpj)

module _ (hashing : Hashing) where
  -- `str(value) if isinstance(value, Decimal) else value`
  abbrev pub as_text : String × Value → String × Value
  as_text (name, decimal d) = (name, text (hashing.str (decimal d)))
  as_text (name, value) = (name, value)

  abbrev pub company_observations : CnpjCompany → Value → Fields
  company_observations r share_capital = map as_text (
      company_fields r share_capital
      ++ ("responsible_qualification", text r.responsible_qualification)
        ∷ ("responsible_federative_entity", text r.responsible_federative_entity)
        ∷ [])

  unfoldable pub write_company :
      Run → CnpjCandidate → CnpjCompany → Value → Company → Catalog → Catalog
  write_company run candidate r share_capital c db =
      let db' = record db {
        companies =
            update_where (has_id c.id) (λ row. fill (company_fields r share_capital) c)
              db.companies;
      } in
      let saved =
        (persist_record hashing (for_candidate candidate run) c.id c.cnpj (company_complement r)
          (company_observations r share_capital) db').0 in
      record saved {
        candidates =
            save_candidate candidate
              (λ row. record row { company_payload = some r; company_matched = true })
              saved.candidates;
      }

  -- `ingest_company_complement`
  unfoldable pub ingest_company_complement :
      Capital → Run → CnpjCandidate → CnpjCompany → Catalog → Result ComplementError Catalog
  ingest_company_complement py run candidate r db = do
    c ← company_of candidate r.cnpj_basico db
    share_capital ← decimal_from_receita py r.share_capital
    ok (write_company run candidate r share_capital c db)

  unfoldable pub write_simples : Run → CnpjCandidate → CnpjSimples → Company → Catalog → Catalog
  write_simples run candidate r c db =
      let saved =
        (persist_record hashing (for_candidate candidate run) c.id c.cnpj (simples_complement r)
          (simples_fields r) db).0 in
      record saved {
        candidates =
            save_candidate candidate
              (λ row. record row { simples_payload = some r; simples_matched = true })
              saved.candidates;
      }

  -- `ingest_simples_complement`
  unfoldable pub ingest_simples_complement :
      Run → CnpjCandidate → CnpjSimples → Catalog → Result ComplementError Catalog
  ingest_simples_complement run candidate r db = do
    c ← company_of candidate r.cnpj_basico db
    ok (write_simples run candidate r c db)
