-- ===== src/Companies/Corrections/History.antt =====
-- The history that `correct_company` of apps/companies/corrections.py writes.
use sniper_synapse.Base.{ℕ, String, ◌≡◌, refl, sym, ◌∙◌, ap, List, [], ◌∷◌, ◌++◌, map}
use sniper_synapse.Cnpj.Catalog.{Value, Fields, Company}
use sniper_synapse.Companies.Corrections.{
  Texts, CompanyCorrection, CorrectionRecord, Register, json_value, record_change, record_changes,
}

-- Company, column, old value, new value, justification and user of a correction.
abbrev pub Entry : Type 0
Entry = ℕ × String × Value × Value × String × ℕ

abbrev pub entry_of : CompanyCorrection → Entry
entry_of k = (k.company, k.field_name, k.old_value, k.new_value, k.justification, k.corrected_by)

-- Company, column, old value, new value, justification and user name of a source record.
abbrev pub RecordEntry : Type 0
RecordEntry = ℕ × String × Value × Value × String × String

abbrev pub record_entry_of : CorrectionRecord → RecordEntry
record_entry_of r = (
  r.company, r.payload.field, r.payload.old_value, r.payload.new_value, r.payload.justification,
  r.payload.corrected_by,
)

module _ (py : Texts) (old : Company) (justification : String) (user : ℕ) where
  -- What the changes of the company are to leave.
  abbrev pub entries : Fields → List Entry
  entries = map (λ change. (
    old.id,
    change.0,
    json_value py (old.columns change.0),
    json_value py change.1,
    justification,
    user,
  ))

  abbrev pub record_entries : Fields → List RecordEntry
  record_entries = map (λ change. (
    old.id,
    change.0,
    json_value py (old.columns change.0),
    json_value py change.1,
    justification,
    py.username user,
  ))

map-snoc :
    {A B : Type 0} (f : A → B) (xs : List A) (y : A) (zs : List B)
    → map f (xs ++ y ∷ []) ++ zs ≡ map f xs ++ f y ∷ zs
map-snoc f [] y zs = refl
map-snoc f (x ∷ xs) y zs = ap (λ rest. f x ∷ rest) (map-snoc f xs y zs)

append_nil : {A : Type 0} (xs : List A) → xs ++ [] ≡ xs
append_nil [] = refl
append_nil (x ∷ xs) = ap (λ rest. x ∷ rest) (append_nil xs)

module _ (py : Texts) (old : Company) (justification : String) (user now source : ℕ) where
  -- The corrections and the source records of the changes are added in order, and no others.
  pub record_all-entries :
      (changes : Fields) (t : Register)
      → (map entry_of (record_changes py old justification user now source changes t).corrections
          ≡ map entry_of t.corrections ++ entries py old justification user changes)
        × (map record_entry_of
              (record_changes py old justification user now source changes t).records
            ≡ map record_entry_of t.records ++ record_entries py old justification user changes)
  unfolding record_changes record_change
  record_all-entries [] t = (
    sym (append_nil (map entry_of t.corrections)),
    sym (append_nil (map record_entry_of t.records)),
  )
  record_all-entries ((name, value) ∷ changes) t =
      let (corrections, records) =
        record_all-entries changes
          (record_change py old justification user now source name value t) in
      (
        corrections ∙ map-snoc entry_of t.corrections _ _,
        records ∙ map-snoc record_entry_of t.records _ _,
      )
