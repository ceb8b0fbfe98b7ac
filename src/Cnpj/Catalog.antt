-- ===== src/Cnpj/Catalog.antt =====
-- The tables that the ingestion of the Receita files writes: apps/companies/models.py and
-- apps/sources/models.py. The columns of a company are read and set by name, as `getattr` and
-- `setattr` do; a key of a new row is a counter of the tables.
use sniper_synapse.Base.{ℕ, String, Bool, true, false, not, ◌&&◌, Option, List, str_eq}
use sniper_synapse.Scoring.Decimal.{Decimal, leb_decimal}
use sniper_synapse.Cnpj.Readers.{CnpjEstablishment}
use sniper_synapse.Cnpj.Records.{CnpjCompany, CnpjSimples}
use sniper_synapse.Discovery.Models.{QueryResult}

-- The value of a column: `None`, a text or a `Decimal`.
pub data Value : Type 0 where
  absent : Value
  text : String → Value
  decimal : Decimal → Value

-- `value not in (None, "")`
abbrev pub is_given : Value → Bool
is_given absent = false
is_given (text s) = not (str_eq s "")
is_given (decimal d) = true

-- `==`
abbrev pub same : Value → Value → Bool
same absent absent = true
same (text s) (text t) = str_eq s t
same (decimal a) (decimal b) = leb_decimal a b && leb_decimal b a
same _ _ = false

abbrev pub Fields : Type 0
Fields = List (String × Value)

pub record Company : Type 0 where
  pub id : ℕ
  pub cnpj : String
  pub columns : String → Value

-- `asdict` of the record, and `"record_type"` for the complements.
pub data Payload : Type 0 where
  establishment : CnpjEstablishment → Payload
  company_complement : CnpjCompany → Payload
  simples_complement : CnpjSimples → Payload

pub record ReceitaRecord : Type 0 where
  pub id : ℕ
  pub source : ℕ
  pub external_id : String
  pub company : ℕ
  pub query_run : Option ℕ
  pub payload : Payload
  pub payload_hash : String
  pub dataset_reference : String
  pub observed_at : ℕ

pub record FieldObservation : Type 0 where
  pub company : ℕ
  pub source_record : ℕ
  pub field_name : String
  pub value : Value
  pub normalized_value : String
  pub confidence : Option Decimal
  pub observed_at : ℕ
  pub is_current : Bool
  pub selected_at : Option ℕ

pub record CompanyCnae : Type 0 where
  pub company : ℕ
  pub code : String
  pub is_primary : Bool
  pub source_record : ℕ
  pub observed_at : ℕ

pub record CnpjCandidate : Type 0 where
  pub query_run : ℕ
  pub company : Option ℕ
  pub cnpj : String
  pub cnpj_basico : String
  pub establishment_payload : CnpjEstablishment
  pub company_payload : Option CnpjCompany
  pub simples_payload : Option CnpjSimples
  pub company_matched : Bool
  pub simples_matched : Bool

pub record Catalog : Type 0 where
  pub next_id : ℕ
  pub companies : List Company
  pub records : List ReceitaRecord
  pub observations : List FieldObservation
  pub cnaes : List CompanyCnae
  pub candidates : List CnpjCandidate
  pub results : List QueryResult
