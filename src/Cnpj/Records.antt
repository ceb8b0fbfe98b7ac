-- ===== src/Cnpj/Records.antt =====
-- The two records of apps/sources/cnpj/complements.py, and what the constructors of the filter and
-- of the complement readers check and normalize.
use sniper_synapse.Base.{
  ℕ, ◌≤◌, String, ◌≡◌, sym, Bool, true, not, ◌&&◌, ◌||◌, Option, none, some, List, [], ◌∷◌, ◌==◌,
  arith, leb, if◌then◌else◌, all, filter_rows, map, length, str_eq, All, Bool-cases, inl, inr,
}
use sniper_synapse.Cnpj.Readers.{
  Texts, CnpjEstablishmentFilter, is_nonempty, column, no_stats, Scan, scan_complements,
}
use sniper_synapse.Cnpj.Scan.{scan_complements-length}

pub record CnpjCompany : Type 0 where
  pub cnpj_basico : String
  pub legal_name : String
  pub legal_nature_code : String
  pub responsible_qualification : String
  pub share_capital : String
  pub size_code : String
  pub responsible_federative_entity : String

pub record CnpjSimples : Type 0 where
  pub cnpj_basico : String
  pub simples_option : String
  pub simples_option_on : String
  pub simples_excluded_on : String
  pub mei_option : String
  pub mei_option_on : String
  pub mei_excluded_on : String

-- `is_digits` is `str.isdigit` and `size` is `len`.
pub record Digits : Type 0 where
  pub is_digits : String → Bool
  pub size : String → ℕ

module _ (py : Texts) (digits : Digits) where
  unfoldable pub parse_company : List String → CnpjCompany
  parse_company row = record {
    cnpj_basico = py.strip (column 0 row);
    legal_name = py.strip (column 1 row);
    legal_nature_code = py.strip (column 2 row);
    responsible_qualification = py.strip (column 3 row);
    share_capital = py.strip (column 4 row);
    size_code = py.strip (column 5 row);
    responsible_federative_entity = py.strip (column 6 row);
  }

  unfoldable pub parse_simples : List String → CnpjSimples
  parse_simples row = record {
    cnpj_basico = py.strip (column 0 row);
    simples_option = py.strip (column 1 row);
    simples_option_on = py.strip (column 2 row);
    simples_excluded_on = py.strip (column 3 row);
    mei_option = py.strip (column 4 row);
    mei_option_on = py.strip (column 5 row);
    mei_excluded_on = py.strip (column 6 row);
  }

  abbrev pub is_basico : String → Bool
  is_basico value = digits.size value == 8 && digits.is_digits value

  -- `_SelectiveComplementReader.__post_init__`; false is a `ValueError`.
  unfoldable pub targets_accepted : List String → Bool
  targets_accepted targets = is_nonempty targets && all is_basico targets

  -- A reader of companies or of Simples from its construction on: `none` is the `ValueError`.
  unfoldable pub read_companies :
      Bool → List String → List (List String) → Option (Scan CnpjCompany)
  read_companies strict targets rows =
      if targets_accepted targets
      then some (scan_complements py parse_company 7 strict targets no_stats rows)
      else none

  unfoldable pub read_simples : Bool → List String → List (List String) → Option (Scan CnpjSimples)
  read_simples strict targets rows =
      if targets_accepted targets
      then some (scan_complements py parse_simples 7 strict targets no_stats rows)
      else none

  abbrev pub stripped : List String → List String
  stripped values = filter_rows (λ s. not (str_eq s "")) (map py.strip values)

  abbrev pub is_prefix_valid : String → Bool
  is_prefix_valid prefix = digits.is_digits prefix && leb (digits.size prefix) 7

  -- `CnpjEstablishmentFilter.__post_init__`: `none` is the `ValueError`.
  unfoldable pub make_filter : CnpjEstablishmentFilter → Option CnpjEstablishmentFilter
  make_filter f =
      if all is_prefix_valid (stripped f.cnae_prefixes)
      then some (record f {
        states = map py.upper (stripped f.states);
        cnae_prefixes = stripped f.cnae_prefixes;
      })
      else none

  -- `is_selective`
  unfoldable pub is_selective : CnpjEstablishmentFilter → Bool
  is_selective f =
      is_nonempty f.states
      || (is_nonempty f.municipality_codes
          || (is_nonempty f.cnae_codes || is_nonempty f.cnae_prefixes))

  all-All : (p : String → Bool) (xs : List String) → all p xs ≡ true → All (λ x. p x ≡ true) xs
  all-All p [] h = tt
  all-All p (x ∷ xs) h = (ground (arith, h), all-All p xs (ground (arith, h)))

  -- A reader of companies exists only for targets of eight digits, at least one, and yields at most
  -- as many records as there are targets.
  pub read_companies-Bounded :
      (strict : Bool) (targets : List String) (rows : List (List String)) (s : Scan CnpjCompany)
      → read_companies strict targets rows ≡ some s
      → (is_nonempty targets ≡ true)
        × All (λ t. is_basico t ≡ true) targets
        × (length s.yielded ≤ length targets)
  unfolding read_companies targets_accepted
  read_companies-Bounded strict targets rows s h =
      elim (Bool-cases (is_nonempty targets && all is_basico targets)) [
        | inr n ↦ ground (arith, rw n at h)
        | inl y ↦
            let same : scan_complements py parse_company 7 strict targets no_stats rows ≡ s =
              ground (arith, rw y at h) in
            (
              ground (arith, y),
              all-All is_basico targets (ground (arith, y)),
              rw (sym same)
                  (scan_complements-length py parse_company 7 strict targets no_stats rows),
            )
      ]
