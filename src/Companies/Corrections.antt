-- ===== src/Companies/Corrections.antt =====
-- `correct_company` of apps/companies/corrections.py: the changed columns of a company, with a
-- correction, a source record and a current observation for each.
pub mod Audit
pub mod Current
pub mod History
pub mod Row
use sniper_synapse.Base.{
  ℕ, ◌+◌, String, Bool, true, false, not, ◌&&◌, Option, none, some, List, [], ◌∷◌, ◌++◌, ◌==◌, ltb,
  if◌then◌else◌, any, all, filter_rows, first_where, update_where, str_eq,
}
use sniper_synapse.Base.Int.{pos}
use sniper_synapse.Base.Results.{Result, ok, err, ◌>>=◌, guard, or_raise}
use sniper_synapse.Scoring.Decimal.{Decimal}
use sniper_synapse.Cnpj.Catalog.{
  Value, absent, text, decimal, Fields, Company, FieldObservation, same,
}
use sniper_synapse.Cnpj.Ingestion.{setattr, assign}

-- `PermissionError`, the three `ValueError`s, and `DoesNotExist`.
pub data CorrectionError : Type 0 where
  not_staff short_justification field_not_allowed no_company no_change : CorrectionError

-- The payload of a correction's source record.
pub record CorrectionPayload : Type 0 where
  pub correction_id : ℕ
  pub field : String
  pub old_value : Value
  pub new_value : Value
  pub justification : String
  pub corrected_by : String

-- A date is the text of its `isoformat`, as `_json_value` writes it. `str` is Python's on a
-- decimal, `hostname` the host of `urlsplit`, empty for none, and `digest` the hash of the payload
-- as JSON text, and `username` the name of a user.
pub record Texts : Type 0 where
  pub strip : String → String
  pub size : String → ℕ
  pub str : Decimal → String
  pub hostname : String → String
  pub lower : String → String
  pub remove_www : String → String
  pub username : ℕ → String
  pub digest : CorrectionPayload → String

pub record CompanyCorrection : Type 0 where
  pub id : ℕ
  pub company : ℕ
  pub field_name : String
  pub old_value : Value
  pub new_value : Value
  pub justification : String
  pub corrected_by : ℕ
  pub source_record : Option ℕ

-- A `SourceRecord` of a correction; `external_id` is the key after `correction:`.
pub record CorrectionRecord : Type 0 where
  pub id : ℕ
  pub source : ℕ
  pub external_id : ℕ
  pub company : ℕ
  pub payload : CorrectionPayload
  pub payload_hash : String
  pub dataset_reference : String
  pub observed_at : ℕ

-- The tables that a correction writes. `manual_source` is the source `manual-correction`.
pub record Register : Type 0 where
  pub next_id : ℕ
  pub manual_source : Option ℕ
  pub companies : List Company
  pub corrections : List CompanyCorrection
  pub records : List CorrectionRecord
  pub observations : List FieldObservation

abbrev pub correctable_fields : List String
correctable_fields =
    "legal_name" ∷ "trade_name" ∷ "company_type" ∷ "registration_status" ∷ "size_code"
    ∷ "legal_nature_code" ∷ "share_capital" ∷ "opened_on" ∷ "segment" ∷ "street_type" ∷ "street"
    ∷ "number" ∷ "complement" ∷ "district" ∷ "municipality" ∷ "municipality_code" ∷ "state"
    ∷ "postal_code" ∷ "phone" ∷ "email" ∷ "website" ∷ "commercial_status" ∷ []

abbrev pub is_correctable : String × Value → Bool
is_correctable (name, value) = any (str_eq name) correctable_fields

-- `effective_changes`
unfoldable pub effective_changes : Company → Fields → Fields
effective_changes c = filter_rows (λ change. not (same (c.columns change.0) change.1))

abbrev pub some_change : Fields → Bool
some_change [] = false
some_change (_ ∷ _) = true

module _ (py : Texts) where
  -- `_json_value`
  unfoldable pub json_value : Value → Value
  json_value (decimal d) = text (py.str d)
  json_value value = value

  -- `_normalized_value` of a JSON value.
  unfoldable pub normalized_value : Value → String
  normalized_value absent = ""
  normalized_value (text s) = s
  normalized_value (decimal d) = py.str d

  -- `_website_domain`
  unfoldable pub website_domain : Value → Value
  website_domain (text s) =
      if str_eq s "" then text "" else text (py.remove_www (py.lower (py.hostname s)))
  website_domain _ = text ""

  abbrev pub has_website : Fields → Bool
  has_website = any (λ change. str_eq change.0 "website")

  unfoldable pub with_domain : Bool → Company → Company
  with_domain true c = setattr "website_domain" (website_domain (c.columns "website")) c
  with_domain false c = c

  -- The company with the changes.
  unfoldable pub changed_company : Fields → Company → Company
  changed_company changes c = with_domain (has_website changes) (assign changes c)

  -- `"" if new_value is None else new_value`
  abbrev observed_value : Value → Value
  observed_value absent = text ""
  observed_value value = value

  abbrev pub is_current_field : ℕ → String → FieldObservation → Bool
  is_current_field company name o =
      o.company == company && (str_eq o.field_name name && o.is_current)

  abbrev pub no_longer_current : FieldObservation → FieldObservation
  no_longer_current o = record o { is_current = false }

  module _ (old : Company) (justification : String) (user now source : ℕ) where
    abbrev new_observation : ℕ → String → Value → FieldObservation
    new_observation record_key name value = record {
      company = old.id;
      source_record = record_key;
      field_name = name;
      value = observed_value (json_value value);
      normalized_value = normalized_value (json_value value);
      confidence = some (record { mantissa = pos 10000; places = 4 });
      observed_at = now;
      is_current = true;
      selected_at = some now;
    }

    abbrev payload_of : ℕ → String → Value → CorrectionPayload
    payload_of correction_key name value = record {
      correction_id = correction_key;
      field = name;
      old_value = json_value (old.columns name);
      new_value = json_value value;
      justification = justification;
      corrected_by = py.username user;
    }

    -- The body of the loop over the changes: the correction has the key `next_id`, and its record
    -- the next one.
    unfoldable pub record_change : String → Value → Register → Register
    record_change name value t = record t {
      next_id = t.next_id + 2;
      corrections =
          t.corrections
          ++ record {
            id = t.next_id;
            company = old.id;
            field_name = name;
            old_value = json_value (old.columns name);
            new_value = json_value value;
            justification = justification;
            corrected_by = user;
            source_record = some (t.next_id + 1);
          }
            ∷ [];
      records =
          t.records
          ++ record {
            id = t.next_id + 1;
            source = source;
            external_id = t.next_id;
            company = old.id;
            payload = payload_of t.next_id name value;
            payload_hash = py.digest (payload_of t.next_id name value);
            dataset_reference = "manual";
            observed_at = now;
          }
            ∷ [];
      observations =
          update_where (is_current_field old.id name) no_longer_current t.observations
          ++ new_observation (t.next_id + 1) name value ∷ [];
    }

    unfoldable pub record_changes : Fields → Register → Register
    record_changes [] t = t
    record_changes ((name, value) ∷ changes) t = record_changes changes (record_change name value t)

  -- `get_or_create` of the source: the tables and its key.
  unfoldable pub manual_source_of : Register → Option ℕ → Register × ℕ
  manual_source_of t (some source) = (t, source)
  manual_source_of t none =
      (record t { next_id = t.next_id + 1; manual_source = some t.next_id }, t.next_id)

  abbrev pub is_company : ℕ → Company → Bool
  is_company id c = c.id == id

  unfoldable pub write_changes : Company → Fields → String → ℕ → ℕ → Register × ℕ → Register
  write_changes c changes justification user now (t, source) =
      record_changes c justification user now source changes (record t {
        companies = update_where (is_company c.id) (λ row. changed_company changes c) t.companies;
      })

  -- `correct_company`: an exception leaves the tables as they were.
  unfoldable pub correct_company :
      ℕ → Fields → String → Bool → ℕ → ℕ → Register → Result CorrectionError Register
  correct_company company changes justification is_staff user now t = do
    _ ← guard is_staff not_staff
    _ ← guard (not (ltb (py.size (py.strip justification)) 10)) short_justification
    _ ← guard (all is_correctable changes) field_not_allowed
    c ← or_raise no_company (first_where (is_company company) t.companies)
    _ ← guard (some_change (effective_changes c changes)) no_change
    ok (
        write_changes c (effective_changes c changes) (py.strip justification) user now
          (manual_source_of t t.manual_source))
