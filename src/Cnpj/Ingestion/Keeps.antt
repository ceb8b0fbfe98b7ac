-- ===== src/Cnpj/Ingestion/Keeps.antt =====
-- What ingesting an establishment keeps: apps/sources/cnpj/ingestion.py.
use sniper_synapse.Base.{
  String, ◌≡◌, Bool, true, false, not, ◌&&◌, ◌||◌, [], ◌∷◌, if◌then◌else◌, str_eq,
}
use sniper_synapse.Cnpj.Catalog.{Value, is_given, same, Fields, Company, Catalog}
use sniper_synapse.Cnpj.Ingestion.{setattr}

abbrev step : String → Value → Company → Company
step name value c =
    if is_given value && not (same (c.columns name) value) then setattr name value c else c

abbrev pub names : String → Fields → Bool
names n [] = false
names n ((name, value) ∷ fields) = str_eq n name || names n fields

abbrev pub distinct : Fields → Bool
distinct [] = true
distinct ((name, value) ∷ fields) = not (names name fields) && distinct fields

-- A given value is in the company's column.
abbrev pub Filled : Company → String × Value → Type 0
Filled c field = (not (is_given field.1) || same (c.columns field.0) field.1) ≡ true
