-- ===== src/Companies/Corrections/Audit.antt =====
-- What a successful `correct_company` of apps/companies/corrections.py implies and leaves.
use sniper_synapse.Base.{
  ℕ, ◌≤◌, String, ◌≡◌, arith, true, not, some, ltb, first_where, All, map, ◌++◌,
}
use sniper_synapse.Cnpj.Catalog.{Fields, Company}
use sniper_synapse.Companies.Corrections.{Texts, Register, is_company}
use sniper_synapse.Companies.Corrections.History.{
  entry_of, record_entry_of, entries, record_entries,
}
use sniper_synapse.Companies.Corrections.Row.{Corrected}
use sniper_synapse.Companies.Corrections.Current.{OneCurrent}

-- The row of the company is corrected, for each change a correction and a source record are added,
-- and each changed column has one current observation.
abbrev pub Audited : Texts → String → ℕ → Register → Register → Company → Fields → Type 0
Audited py justification user t t' c changes =
    ((row : Company) × (first_where (is_company py c.id) t'.companies ≡ some row)
      × Corrected py c changes row)
    × (map entry_of t'.corrections
        ≡ map entry_of t.corrections ++ entries py c justification user changes)
    × (map record_entry_of t'.records
        ≡ map record_entry_of t.records ++ record_entries py c justification user changes)
    × All (OneCurrent py c.id t'.observations) changes

at_least : (n m : ℕ) → not (ltb n m) ≡ true → m ≤ n
at_least n m h = ground (arith, h)
