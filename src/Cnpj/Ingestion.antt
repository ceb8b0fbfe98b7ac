-- ===== src/Cnpj/Ingestion.antt =====
-- apps/sources/cnpj/ingestion.py: an establishment becomes a candidate of the run, a company, a
-- source record with observations, and CNAEs.
pub mod Complements
pub mod Keeps
pub mod Cnaes
pub mod Again
use Prim.Native.String.{◌++◌ as str_append}
use sniper_synapse.Base.{
  ℕ, ◌+◌, String, Bool, true, false, not, ◌&&◌, Option, none, some, List, [], ◌∷◌, ◌++◌, ◌==◌,
  if◌then◌else◌, any, first_where, update_where, update_or_create, str_eq,
}
use sniper_synapse.Scoring.Decimal.{Decimal, leb_decimal}
use sniper_synapse.Cnpj.Readers.{CnpjEstablishment}
use sniper_synapse.Cnpj.Records.{CnpjCompany, CnpjSimples}
use sniper_synapse.Discovery.Models.{QueryResult}
use sniper_synapse.Cnpj.Catalog.{
  Value, is_given, same, Fields, Company, Payload, ReceitaRecord, FieldObservation, CompanyCnae,
  CnpjCandidate, Catalog, absent, text, decimal, establishment, company_complement,
  simples_complement,
}

-- `payload_hash` is `_payload_hash`, a SHA-256 of the JSON text, and `str` Python's.
pub record Hashing : Type 0 where
  pub payload_hash : Payload → String
  pub str : Value → String

-- What each call of the run passes: `source`, `observed_at`, `dataset_reference`, `query_run`.
pub record Run : Type 0 where
  pub source : ℕ
  pub observed_at : ℕ
  pub dataset_reference : String
  pub query_run : Option ℕ

-- `CnpjEstablishment.cnpj`
abbrev pub cnpj : CnpjEstablishment → String
cnpj e = str_append e.cnpj_basico (str_append e.cnpj_ordem e.cnpj_dv)

unfoldable pub status_from_receita : String → String
status_from_receita value =
    if str_eq value "02" then "ACTIVE" else if str_eq value "03" then "SUSPENDED" else "INACTIVE"

-- The `canonical_fields` of `ingest_establishment`.
unfoldable pub canonical_fields : CnpjEstablishment → Fields
canonical_fields e =
    ("trade_name", text e.trade_name)
    ∷ ("company_type", text "INDUSTRY")
    ∷ ("registration_status", text (status_from_receita e.registration_status))
    ∷ ("street_type", text e.street_type)
    ∷ ("street", text e.street)
    ∷ ("number", text e.number)
    ∷ ("complement", text e.complement)
    ∷ ("district", text e.district)
    ∷ ("municipality_code", text e.municipality_code)
    ∷ ("state", text e.state)
    ∷ ("postal_code", text e.postal_code)
    ∷ ("phone", text e.phone)
    ∷ ("email", text e.email)
    ∷ []

abbrev pub setattr : String → Value → Company → Company
setattr name value c = record c { columns = λ n. if str_eq n name then value else c.columns n }

-- The loop that sets the given values that differ.
unfoldable pub fill : Fields → Company → Company
fill [] c = c
fill ((name, value) ∷ fields) c =
    fill fields
      (if is_given value && not (same (c.columns name) value) then setattr name value c else c)

-- The row of `create`: each field as it is, over the defaults of the model.
unfoldable pub assign : Fields → Company → Company
assign [] c = c
assign ((name, value) ∷ fields) c = assign fields (setattr name value c)

-- The defaults of `apps.companies.models.Company`.
unfoldable pub default_columns : String → Value
default_columns n =
    if str_eq n "company_type"
    then text "OTHER"
    else if str_eq n "registration_status"
    then text "UNKNOWN"
    else if str_eq n "commercial_status"
    then text "NEW"
    else if str_eq n "share_capital"
    then absent
    else text ""

abbrev pub blank_company : ℕ → String → Company
blank_company id cnpj = record { id = id; cnpj = cnpj; columns = default_columns }

abbrev pub is_candidate : ℕ → String → CnpjCandidate → Bool
is_candidate run number c = c.query_run == run && str_eq c.cnpj number

-- `stage_establishment`
unfoldable pub stage_establishment : CnpjEstablishment → ℕ → Catalog → Catalog
stage_establishment e run db = record db {
  candidates =
      update_or_create (is_candidate run (cnpj e))
        (λ c. record c { cnpj_basico = e.cnpj_basico; establishment_payload = e })
        (record {
          query_run = run;
          company = none;
          cnpj = cnpj e;
          cnpj_basico = e.cnpj_basico;
          establishment_payload = e;
          company_payload = none;
          simples_payload = none;
          company_matched = false;
          simples_matched = false;
        })
        db.candidates;
}

abbrev pub has_cnpj : String → Company → Bool
has_cnpj number c = str_eq c.cnpj number

-- `get_or_create` of the company and the update of one that was there: the tables, the company,
-- and whether it was created.
unfoldable pub upsert_company :
    CnpjEstablishment → Catalog → Option Company → Catalog × Company × Bool
upsert_company e db none =
    let c = assign (canonical_fields e) (blank_company db.next_id (cnpj e)) in
    (record db { next_id = db.next_id + 1; companies = db.companies ++ c ∷ [] }, c, true)
upsert_company e db (some c) =
    let filled = fill (canonical_fields e) c in
    (
      record db { companies = update_where (λ r. r.id == c.id) (λ r. filled) db.companies },
      filled,
      false,
    )

abbrev pub is_record : ℕ → String → String → ReceitaRecord → Bool
is_record source external_id hash r =
    r.source == source && (str_eq r.external_id external_id && str_eq r.payload_hash hash)

module _ (hashing : Hashing) (run : Run) where
  -- `bulk_create` of the observations of the given values.
  unfoldable pub observe : ℕ → ℕ → Fields → List FieldObservation
  observe company source_record [] = []
  observe company source_record ((name, value) ∷ fields) =
      let rest = observe company source_record fields in
      if is_given value
      then record {
        company = company;
        source_record = source_record;
        field_name = name;
        value = value;
        normalized_value = hashing.str value;
        confidence = none;
        observed_at = run.observed_at;
        is_current = true;
        selected_at = none;
      }
        ∷ rest
      else rest

  -- `get_or_create` of the source record, with the observations of a new one: the tables and the
  -- key of the record.
  unfoldable pub record_for :
      ℕ → String → Payload → Fields → Catalog → Option ReceitaRecord → Catalog × ℕ
  record_for company external_id payload fields db (some r) = (db, r.id)
  record_for company external_id payload fields db none = (
    record db {
      next_id = db.next_id + 1;
      records =
          db.records
          ++ record {
            id = db.next_id;
            source = run.source;
            external_id = external_id;
            company = company;
            query_run = run.query_run;
            payload = payload;
            payload_hash = hashing.payload_hash payload;
            dataset_reference = run.dataset_reference;
            observed_at = run.observed_at;
          }
            ∷ [];
      observations = db.observations ++ observe company db.next_id fields;
    },
    db.next_id,
  )

  unfoldable pub persist_record : ℕ → String → Payload → Fields → Catalog → Catalog × ℕ
  persist_record company external_id payload fields db =
      record_for company external_id payload fields db
        (first_where (is_record run.source external_id (hashing.payload_hash payload)) db.records)

  abbrev pub is_cnae : ℕ → String → CompanyCnae → Bool
  is_cnae company code c = c.company == company && str_eq c.code code

  -- `update_or_create` of a CNAE
  unfoldable pub put_cnae : ℕ → ℕ → Bool → String → List CompanyCnae → List CompanyCnae
  put_cnae company source_record is_primary code =
      update_or_create (is_cnae company code)
        (λ c. record c {
          is_primary = is_primary;
          source_record = source_record;
          observed_at = run.observed_at;
        })
        (record {
          company = company;
          code = code;
          is_primary = is_primary;
          source_record = source_record;
          observed_at = run.observed_at;
        })

  abbrev pub other_primary : ℕ → String → CompanyCnae → Bool
  other_primary company code c = c.company == company && (c.is_primary && not (str_eq c.code code))

  -- The loop over `secondary_cnaes`
  unfoldable pub put_secondary : ℕ → ℕ → String → List String → List CompanyCnae → List CompanyCnae
  put_secondary company source_record primary [] rows = rows
  put_secondary company source_record primary (code ∷ codes) rows =
      put_secondary company source_record primary codes
        (if str_eq code primary then rows else put_cnae company source_record false code rows)

  unfoldable pub put_cnaes : ℕ → ℕ → CnpjEstablishment → List CompanyCnae → List CompanyCnae
  put_cnaes company source_record e rows =
      put_secondary company source_record e.primary_cnae e.secondary_cnaes (
        put_cnae company source_record true e.primary_cnae (
          update_where (other_primary company e.primary_cnae) (λ c. record c { is_primary = false })
            rows))

  -- `QueryResult.objects.get_or_create`, for a run
  unfoldable pub put_result : Option ℕ → ℕ → Bool → List QueryResult → List QueryResult
  put_result none company created rows = rows
  put_result (some query_run) company created rows =
      if any (λ r. r.query_run == query_run && r.company == company) rows
      then rows
      else rows
        ++ record {
          query_run = query_run;
          company = company;
          source = run.source;
          rank = none;
          matched_filters = "{}";
          is_new_company = created;
        }
          ∷ []

  unfoldable pub ingest_company :
      CnpjEstablishment → Catalog × Company × Bool → Catalog × Company × ℕ × Bool
  ingest_company e (db, c, created) =
      let (db', r) = persist_record c.id (cnpj e) (establishment e) (canonical_fields e) db in
      (
        record db' {
          cnaes = put_cnaes c.id r e db'.cnaes;
          results = put_result run.query_run c.id created db'.results;
        },
        c,
        r,
        created,
      )

  -- `ingest_establishment`: the tables, and the outcome's company, key of the record and
  -- `company_created`.
  unfoldable pub ingest_establishment : CnpjEstablishment → Catalog → Catalog × Company × ℕ × Bool
  ingest_establishment e db =
      ingest_company e (upsert_company e db (first_where (has_cnpj (cnpj e)) db.companies))
