-- ===== src/Cnpj/Models.antt =====
-- The tables of the source in apps/sources/models.py: `Source`, `CnpjDataset`, `CnpjDatasetFile`.
-- A moment is a number of seconds; the columns that no operation here reads keep their place.
use sniper_synapse.Base.{ℕ, ◌+◌, String, Bool, true, false, Option, List, [], ◌∷◌, filter_rows}

pub record Source : Type 0 where
  pub id : ℕ
  pub key : String
  pub name : String
  pub adapter_path : String
  pub enabled : Bool
  pub created_at : ℕ

pub data DatasetStatus : Type 0 where
  discovered ready invalid : DatasetStatus

pub record CnpjDataset : Type 0 where
  pub id : ℕ
  pub source : ℕ
  pub reference : String
  pub status : DatasetStatus
  pub is_current : Bool
  pub discovered_at : ℕ
  pub verified_at : Option ℕ

pub data Kind : Type 0 where
  establishments companies simples : Kind

pub record CnpjDatasetFile : Type 0 where
  pub id : ℕ
  pub dataset : ℕ
  pub kind : Kind
  pub part_number : ℕ
  pub url : String
  pub size_bytes : ℕ
  pub etag : String
  pub checksum : String

abbrev pub is_ready : DatasetStatus → Bool
is_ready ready = true
is_ready _ = false

abbrev pub same_kind : Kind → Kind → Bool
same_kind establishments establishments = true
same_kind companies companies = true
same_kind simples simples = true
same_kind _ _ = false

-- `dataset.files.filter(kind=...)`
abbrev pub files_of : Kind → List CnpjDatasetFile → List CnpjDatasetFile
files_of k = filter_rows (λ f. same_kind f.kind k)

-- `sum(source_file.size_bytes for ...)`
abbrev pub total_bytes : List CnpjDatasetFile → ℕ
total_bytes [] = 0
total_bytes (f ∷ files) = f.size_bytes + total_bytes files
