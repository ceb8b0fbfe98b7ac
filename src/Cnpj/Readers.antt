-- ===== src/Cnpj/Readers.antt =====
-- The rows of the Receita files: apps/sources/cnpj/establishments.py and
-- apps/sources/cnpj/complements.py. The text functions of Python are parameters; the rows are what
-- `csv.reader` yields, and a row of no field is a blank line.
use sniper_synapse.Base.{
  ℕ, zero, suc, ◌+◌, String, Bool, true, false, not, ◌&&◌, ◌||◌, Option, none, some, List, [], ◌∷◌,
  ◌==◌, if◌then◌else◌, any, filter_rows, map, length, str_eq,
}

pub record Texts : Type 0 where
  pub strip : String → String
  pub upper : String → String
  pub lower : String → String
  pub join : String → String → String
  pub split_comma : String → List String
  pub starts_with : String → String → Bool

pub record CnpjEstablishment : Type 0 where
  pub cnpj_basico : String
  pub cnpj_ordem : String
  pub cnpj_dv : String
  pub branch_identifier : String
  pub trade_name : String
  pub registration_status : String
  pub registration_status_date : String
  pub activity_started_on : String
  pub primary_cnae : String
  pub secondary_cnaes : List String
  pub street_type : String
  pub street : String
  pub number : String
  pub complement : String
  pub district : String
  pub postal_code : String
  pub state : String
  pub municipality_code : String
  pub phone : String
  pub secondary_phone : String
  pub email : String

-- The sets of a filter, as `__post_init__` leaves them.
pub record CnpjEstablishmentFilter : Type 0 where
  pub registration_statuses : List String
  pub states : List String
  pub municipality_codes : List String
  pub cnae_codes : List String
  pub cnae_prefixes : List String
  pub include_secondary_cnaes : Bool

pub record CnpjScanStats : Type 0 where
  pub rows_read : ℕ
  pub rows_matched : ℕ
  pub rows_invalid : ℕ

abbrev pub is_nonempty {ℓ} : {A : Type ℓ} → List A → Bool
is_nonempty [] = false
is_nonempty (_ ∷ _) = true

abbrev pub contains : String → List String → Bool
contains s = any (str_eq s)

-- `row[n]`, for a row that is long enough.
abbrev pub column : ℕ → List String → String
column n [] = ""
column zero (c ∷ row) = c
column (suc n) (c ∷ row) = column n row

abbrev pub no_stats : CnpjScanStats
no_stats = record { rows_read = 0; rows_matched = 0; rows_invalid = 0 }

abbrev pub read_one : CnpjScanStats → CnpjScanStats
read_one s = record s { rows_read = s.rows_read + 1 }

abbrev pub match_one : CnpjScanStats → CnpjScanStats
match_one s = record s { rows_matched = s.rows_matched + 1 }

abbrev pub invalid_one : CnpjScanStats → CnpjScanStats
invalid_one s = record s { rows_invalid = s.rows_invalid + 1 }

-- What iterating a reader gives: the records, the statistics, and whether a `CnpjLayoutError`
-- ended it.
pub record Scan {ℓ} (A : Type ℓ) : Type ℓ where
  pub yielded : List A
  pub stats : CnpjScanStats
  pub raised : Bool

abbrev pub scan_end {ℓ} : {A : Type ℓ} → CnpjScanStats → Bool → Scan A
scan_end stats raised = record { yielded = []; stats = stats; raised = raised }

abbrev pub yield_one {ℓ} : {A : Type ℓ} → A → Scan A → Scan A
yield_one a s = record s { yielded = a ∷ s.yielded }

module _ (py : Texts) where
  abbrev pub allows : List String → String → Bool
  allows wanted value = not (is_nonempty wanted) || contains value wanted

  abbrev pub cnae_matches : CnpjEstablishmentFilter → String → Bool
  cnae_matches f cnae = contains cnae f.cnae_codes || any (py.starts_with cnae) f.cnae_prefixes

  abbrev pub cnaes_of : CnpjEstablishmentFilter → CnpjEstablishment → List String
  cnaes_of f e = e.primary_cnae ∷ (if f.include_secondary_cnaes then e.secondary_cnaes else [])

  -- `CnpjEstablishmentFilter.matches`
  unfoldable pub matches : CnpjEstablishmentFilter → CnpjEstablishment → Bool
  matches f e =
      if not (allows f.registration_statuses e.registration_status)
      then false
      else if not (allows f.states e.state)
      then false
      else if not (allows f.municipality_codes e.municipality_code)
      then false
      else if not (is_nonempty f.cnae_codes) && not (is_nonempty f.cnae_prefixes)
      then true
      else any (cnae_matches f) (cnaes_of f e)

  -- `CnpjEstablishmentReader._parse_row`; `none` is the `CnpjLayoutError`.
  unfoldable pub parse_row : List String → Option CnpjEstablishment
  parse_row row =
      if length row == 30
      then some (record {
        cnpj_basico = py.strip (column 0 row);
        cnpj_ordem = py.strip (column 1 row);
        cnpj_dv = py.strip (column 2 row);
        branch_identifier = py.strip (column 3 row);
        trade_name = py.strip (column 4 row);
        registration_status = py.strip (column 5 row);
        registration_status_date = py.strip (column 6 row);
        activity_started_on = py.strip (column 10 row);
        primary_cnae = py.strip (column 11 row);
        secondary_cnaes =
            filter_rows (λ c. not (str_eq c "")) (map py.strip (py.split_comma (column 12 row)));
        street_type = py.strip (column 13 row);
        street = py.strip (column 14 row);
        number = py.strip (column 15 row);
        complement = py.strip (column 16 row);
        district = py.strip (column 17 row);
        postal_code = py.strip (column 18 row);
        state = py.upper (py.strip (column 19 row));
        municipality_code = py.strip (column 20 row);
        phone = py.join (py.strip (column 21 row)) (py.strip (column 22 row));
        secondary_phone = py.join (py.strip (column 23 row)) (py.strip (column 24 row));
        email = py.lower (py.strip (column 27 row));
      })
      else none

  -- `CnpjEstablishmentReader.__iter__`
  unfoldable pub scan_establishments :
      Bool → CnpjEstablishmentFilter → CnpjScanStats → List (List String) → Scan CnpjEstablishment
  scan_establishments strict f stats [] = scan_end stats false
  scan_establishments strict f stats ([] ∷ rows) = scan_establishments strict f stats rows
  scan_establishments strict f stats ((c ∷ row) ∷ rows) = elim (parse_row (c ∷ row)) [
    | none ↦
        if strict
        then scan_end (invalid_one (read_one stats)) true
        else scan_establishments strict f (invalid_one (read_one stats)) rows
    | some e ↦
        if matches f e
        then yield_one e (scan_establishments strict f (match_one (read_one stats)) rows)
        else scan_establishments strict f (read_one stats) rows
  ]

  abbrev pub without : String → List String → List String
  without s = filter_rows (λ t. not (str_eq t s))

  -- `_SelectiveComplementReader.__iter__`: `parse` is the subclass's `_parse_row`.
  unfoldable pub scan_complements {ℓ} :
      {A : Type ℓ}
      → (List String → A)
      → ℕ
      → Bool
      → List String
      → CnpjScanStats
      → List (List String)
      → Scan A
  scan_complements parse column_count strict remaining stats [] = scan_end stats false
  scan_complements parse column_count strict remaining stats ([] ∷ rows) =
      scan_complements parse column_count strict remaining stats rows
  scan_complements parse column_count strict remaining stats ((c ∷ row) ∷ rows) =
      let basico = py.strip c in
      if not (length (c ∷ row) == column_count)
      then (if strict
          then scan_end (invalid_one (read_one stats)) true
          else scan_complements parse column_count strict remaining (invalid_one (read_one stats))
              rows)
      else if not (contains basico remaining)
      then scan_complements parse column_count strict remaining (read_one stats) rows
      else if is_nonempty (without basico remaining)
      then yield_one (parse (c ∷ row)) (
          scan_complements parse column_count strict (without basico remaining)
            (match_one (read_one stats)) rows)
      else yield_one (parse (c ∷ row)) (scan_end (match_one (read_one stats)) false)
