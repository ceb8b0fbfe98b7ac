-- ===== src/Cnpj/Scan.antt =====
-- What the readers of apps/sources/cnpj/establishments.py and complements.py yield and count.
use sniper_synapse.Base.{
  ℕ, suc, ◌+◌, ◌≤◌, ◌<◌, String, ◌≡◌, refl, sym, ap, Bool, true, false, none, some, List, [], ◌∷◌,
  arith, ◌==◌, Bool-cases, Option-cases, inl, inr, filter_rows, length, str_eq, eq_iff,
}
use sniper_synapse.Cnpj.Readers.{
  Texts, CnpjEstablishment, CnpjEstablishmentFilter, CnpjScanStats, is_nonempty, contains, no_stats,
  read_one, match_one, invalid_one, Scan, matches, parse_row, scan_establishments, without,
  scan_complements,
}

module _ (py : Texts) where
  -- The establishments of the rows that have the layout's columns, blank lines left out.
  abbrev pub parsed : List (List String) → List CnpjEstablishment
  parsed [] = []
  parsed ([] ∷ rows) = parsed rows
  parsed ((c ∷ row) ∷ rows) =
      let rest = parsed rows in elim (parse_row py (c ∷ row)) [ none ↦ rest | some e ↦ e ∷ rest ]

  abbrev pub rows_of_text : List (List String) → ℕ
  rows_of_text [] = 0
  rows_of_text ([] ∷ rows) = rows_of_text rows
  rows_of_text ((c ∷ row) ∷ rows) = suc (rows_of_text rows)

  module _ (f : CnpjEstablishmentFilter) where
    abbrev Selects : CnpjScanStats → List (List String) → Scan CnpjEstablishment → Type 0
    Selects stats rows s =
        (s.yielded ≡ filter_rows (matches py f) (parsed rows))
        × (s.raised ≡ false)
        × (s.stats.rows_read ≡ stats.rows_read + rows_of_text rows)
        × (s.stats.rows_matched ≡ stats.rows_matched + length s.yielded)
        × (s.stats.rows_invalid + length (parsed rows) ≡ stats.rows_invalid + rows_of_text rows)

    scan-Selects :
        (stats : CnpjScanStats) (rows : List (List String))
        → Selects stats rows (scan_establishments py false f stats rows)
    unfolding scan_establishments
    scan-Selects stats [] = (refl, refl, omega arith, omega arith, omega arith)
    scan-Selects stats ([] ∷ rows) = scan-Selects stats rows
    scan-Selects stats ((c ∷ row) ∷ rows) = elim (Option-cases (parse_row py (c ∷ row))) [
      | inl n ↦
          let (y, r, a, b, d) = scan-Selects (invalid_one (read_one stats)) rows in
          rw (n, scan_establishments, parsed)
            (y, r, omega (arith, a), omega (arith, b), omega (arith, d))
      | inr e ↦ elim (Bool-cases (matches py f e.0)) [
        | inl m ↦
            let (y, r, a, b, d) = scan-Selects (match_one (read_one stats)) rows in
            rw (e.1, m, scan_establishments, parsed)
              (ap (λ t. e.0 ∷ t) y, r, omega (arith, a), omega (arith, b), omega (arith, d))
        | inr m ↦
            let (y, r, a, b, d) = scan-Selects (read_one stats) rows in
            rw (e.1, m, scan_establishments, parsed)
              (y, r, omega (arith, a), omega (arith, b), omega (arith, d))
      ]
    ]

    -- A scan that is not strict yields, in order, exactly the establishments of the well-formed
    -- rows that the filter matches. It counts the rows that are not blank, the establishments it
    -- yields, and the malformed rows.
    pub scan_selects :
        (rows : List (List String))
        → ((scan_establishments py false f no_stats rows).yielded
            ≡ filter_rows (matches py f) (parsed rows))
          × ((scan_establishments py false f no_stats rows).stats.rows_read ≡ rows_of_text rows)
          × ((scan_establishments py false f no_stats rows).stats.rows_matched
              ≡ length (scan_establishments py false f no_stats rows).yielded)
          × ((scan_establishments py false f no_stats rows).stats.rows_invalid
                + length (parsed rows)
              ≡ rows_of_text rows)
    scan_selects rows =
        let (y, _, a, b, d) = scan-Selects no_stats rows in
        (y, omega (arith, a), omega (arith, b), omega (arith, d))

  length-without : (s : String) (xs : List String) → length (without py s xs) ≤ length xs
  length-without s [] = omega arith
  length-without s (x ∷ xs) = ground (arith, length-without s xs)

  contains-tail :
      (s x : String) (xs : List String)
      → str_eq x s ≡ false
      → contains s (x ∷ xs) ≡ true
      → contains s xs ≡ true
  contains-tail s x xs n h = elim (Bool-cases (str_eq s x)) [
    | inl y ↦ ground (arith, n, (eq_iff x s).1 (sym ((eq_iff s x).0 y)))
    | inr y ↦ rw y at h
  ]

  length-without_lt :
      (s : String) (xs : List String) → contains s xs ≡ true → length (without py s xs) < length xs
  length-without_lt s [] h = ground (arith, h)
  length-without_lt s (x ∷ xs) h = elim (Bool-cases (str_eq x s)) [
    | inl y ↦ rw y (omega (arith, length-without s xs))
    | inr y ↦ rw y (omega (arith, length-without_lt s xs (contains-tail s x xs y h)))
  ]

  module _ {A : Type 0} (parse : List String → A) (column_count : ℕ) (strict : Bool) where
    -- However long the file is, a complement reader yields at most as many records as there are
    -- targets.
    pub scan_complements-length :
        (remaining : List String) (stats : CnpjScanStats) (rows : List (List String))
        → length (scan_complements py parse column_count strict remaining stats rows).yielded
          ≤ length remaining
    unfolding scan_complements
    scan_complements-length remaining stats [] = omega arith
    scan_complements-length remaining stats ([] ∷ rows) =
        scan_complements-length remaining stats rows
    scan_complements-length remaining stats ((c ∷ row) ∷ rows) =
        let left = without py (py.strip c) remaining in
        let later = scan_complements-length left (match_one (read_one stats)) rows in
        let skipped = scan_complements-length remaining (read_one stats) rows in
        let invalid = scan_complements-length remaining (invalid_one (read_one stats)) rows in
        elim (Bool-cases (length (c ∷ row) == column_count)) [
          | inr n ↦ elim (Bool-cases strict) [
            | inl t ↦ rw (n, t) (omega arith)
            | inr t ↦ rw (n, t) invalid
          ]
          | inl n ↦ elim (Bool-cases (contains (py.strip c) remaining)) [
            | inr k ↦ rw (n, k) skipped
            | inl k ↦
                let fewer = length-without_lt (py.strip c) remaining k in
                elim (Bool-cases (is_nonempty left)) [
                  | inl e ↦ rw (n, k, e) (omega (arith, fewer, later))
                  | inr e ↦ rw (n, k, e) (omega (arith, fewer))
                ]
          ]
        ]
