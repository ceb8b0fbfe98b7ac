-- ===== src/Companies/Tests.antt =====
-- A correction of the site of a company, on concrete tables.
use sniper_synapse.Base.{true, none, some, [], ◌∷◌, str_eq, if◌then◌else◌}
use sniper_synapse.Base.Results.{ok}
use sniper_synapse.Cnpj.Catalog.{Company, FieldObservation, Fields, Value}
use sniper_synapse.Companies.Corrections.{Texts, Register, correct_company}

abbrev texts : Texts
texts = record {
  strip = λ s. s;
  size = λ s. if str_eq s "" then 0 else 20;
  str = λ d. "1000";
  hostname = λ s. "www.acme.com.br";
  lower = λ s. s;
  remove_www = λ s. "acme.com.br";
  username = λ user. "ana";
  digest = λ payload. payload.field;
}

abbrev acme : Company
acme = record { id = 5; cnpj = "123"; columns = λ name. Value.text "old" }

abbrev old_site : FieldObservation
old_site = record {
  company = 5;
  source_record = 3;
  field_name = "website";
  value = Value.text "old";
  normalized_value = "old";
  confidence = none;
  observed_at = 1;
  is_current = true;
  selected_at = some 1;
}

abbrev tables : Register
tables = record {
  next_id = 10;
  manual_source = none;
  companies = acme ∷ [];
  corrections = [];
  records = [];
  observations = old_site ∷ [];
}

abbrev changes : Fields
changes = ("website", Value.text "https://www.acme.com.br") ∷ ("segment", Value.text "old") ∷ []

abbrev after : Register
after = elim (correct_company texts 5 changes "confirmed by phone" true 2 100 tables) [
  | ok t ↦ t
  | _ ↦ tables
]
