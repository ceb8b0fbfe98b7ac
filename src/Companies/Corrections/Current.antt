-- ===== src/Companies/Corrections/Current.antt =====
-- What `correct_company` of apps/companies/corrections.py leaves for each changed column.
use sniper_synapse.Base.{
  ℕ, ◌+◌, String, ◌≡◌, refl, sym, ◌∙◌, arith, Bool, true, false, not, List, [], ◌∷◌, ◌++◌,
  if◌then◌else◌, filter_rows, update_where, All, Bool-cases, inl, inr, str_eq, eq_iff, ==_iff,
  and-true,
}
use sniper_synapse.Cnpj.Catalog.{Value, Fields, Company, FieldObservation}
use sniper_synapse.Cnpj.Ingestion.Keeps.{names, distinct}
use sniper_synapse.Companies.Corrections.{
  Texts, Register, is_current_field, no_longer_current, record_change, record_changes,
}

abbrev pub count {ℓ} : {A : Type ℓ} → (A → Bool) → List A → ℕ
count p [] = 0
count p (x ∷ xs) = (if p x then 1 else 0) + count p xs

count-append :
    {A : Type 0} (p : A → Bool) (xs ys : List A) → count p (xs ++ ys) ≡ count p xs + count p ys
count-append p [] ys = omega arith
count-append p (x ∷ xs) ys = omega (arith, count-append p xs ys)

names-filter :
    (p : String × Value → Bool) (n : String) (changes : Fields)
    → names n changes ≡ false
    → names n (filter_rows p changes) ≡ false
names-filter p n [] h = refl
names-filter p n ((name, value) ∷ changes) h = elim (Bool-cases (p (name, value))) [
  | inl y ↦ rw y (ground (arith, h, names-filter p n changes (ground (arith, h))))
  | inr k ↦ rw k (names-filter p n changes (ground (arith, h)))
]

pub distinct-filter :
    (p : String × Value → Bool) (changes : Fields)
    → distinct changes ≡ true
    → distinct (filter_rows p changes) ≡ true
distinct-filter p [] h = refl
distinct-filter p ((name, value) ∷ changes) h =
    let (fresh, rest) = and-true (not (names name changes)) (distinct changes) h in
    elim (Bool-cases (p (name, value))) [
      | inl y ↦ rw y (
          ground (
            arith,
            names-filter p name changes (ground (arith, fresh)),
            distinct-filter p changes rest,
          ))
      | inr k ↦ rw k (distinct-filter p changes rest)
    ]

eq_swap : (a b : String) → str_eq b a ≡ false → str_eq a b ≡ false
eq_swap a b n = elim (Bool-cases (str_eq a b)) [
  | inr k ↦ k
  | inl y ↦ ground (arith, n, (eq_iff b a).1 (sym ((eq_iff a b).0 y)))
]

module _ (py : Texts) (company : ℕ) where
  abbrev current : String → FieldObservation → Bool
  current = is_current_field py company

  count-outdated :
      (name : String) (rows : List FieldObservation)
      → count (current name) (update_where (current name) (no_longer_current py) rows) ≡ 0
  count-outdated name [] = refl
  count-outdated name (o ∷ rows) = elim (Bool-cases (current name o)) [
    | inl y ↦ rw y (ground (arith, count-outdated name rows))
    | inr n ↦ rw (n, n) (omega (arith, count-outdated name rows))
  ]

  other-field :
      (name g : String) (o : FieldObservation)
      → str_eq g name ≡ false
      → current name o ≡ true
      → current g o ≡ false
  other-field name g o n h = elim (Bool-cases (str_eq o.field_name g)) [
    | inr k ↦ ground (arith, k)
    | inl k ↦
        let same_name : g ≡ name =
          sym ((eq_iff o.field_name g).0 k) ∙ (eq_iff o.field_name name).0 (ground (arith, h)) in
        ground (arith, n, (eq_iff g name).1 same_name)
  ]

  count-other :
      (name g : String) (rows : List FieldObservation)
      → str_eq g name ≡ false
      → count (current g) (update_where (current name) (no_longer_current py) rows)
        ≡ count (current g) rows
  count-other name g [] n = refl
  count-other name g (o ∷ rows) n = elim (Bool-cases (current name o)) [
    | inl y ↦ rw (y, other-field name g o n y) (ground (arith, count-other name g rows n))
    | inr k ↦ rw k (omega (arith, count-other name g rows n))
  ]

-- Exactly one observation of the column is current.
abbrev pub OneCurrent : Texts → ℕ → List FieldObservation → String × Value → Type 0
OneCurrent py company rows change = count (is_current_field py company change.0) rows ≡ 1

module _ (py : Texts) (old : Company) (justification : String) (user now source : ℕ) where
  abbrev record_one : String → Value → Register → Register
  record_one = record_change py old justification user now source

  abbrev pub record_all : Fields → Register → Register
  record_all = record_changes py old justification user now source

  record_one-current :
      (name : String) (value : Value) (t : Register)
      → count (is_current_field py old.id name) (record_one name value t).observations ≡ 1
  unfolding record_change
  record_one-current name value t =
      count-append (is_current_field py old.id name)
        (update_where (is_current_field py old.id name) (no_longer_current py) t.observations) _
      ∙ rw
          (
            count-outdated py old.id name t.observations,
            (==_iff old.id old.id).1 refl,
            (eq_iff name name).1 refl,
          )
          refl

  record_one-other :
      (name g : String) (value : Value) (t : Register)
      → str_eq g name ≡ false
      → count (is_current_field py old.id g) (record_one name value t).observations
        ≡ count (is_current_field py old.id g) t.observations
  unfolding record_change
  record_one-other name g value t n =
      count-append (is_current_field py old.id g)
        (update_where (is_current_field py old.id name) (no_longer_current py) t.observations) _
      ∙ rw
          (
            count-other py old.id name g t.observations n,
            (==_iff old.id old.id).1 refl,
            eq_swap name g n,
          )
          (omega arith)

  record_all-other :
      (g : String) (changes : Fields) (t : Register)
      → names g changes ≡ false
      → count (is_current_field py old.id g) (record_all changes t).observations
        ≡ count (is_current_field py old.id g) t.observations
  unfolding record_changes
  record_all-other g [] t h = refl
  record_all-other g ((name, value) ∷ changes) t h =
      record_all-other g changes (record_one name value t) (ground (arith, h))
      ∙ record_one-other name g value t (ground (arith, h))

  pub record_all-current :
      (changes : Fields) (t : Register)
      → distinct changes ≡ true
      → All (OneCurrent py old.id (record_all changes t).observations) changes
  unfolding record_changes
  record_all-current [] t h = tt
  record_all-current ((name, value) ∷ changes) t h =
      let (fresh, rest) = and-true (not (names name changes)) (distinct changes) h in
      (
        record_all-other name changes (record_one name value t) (ground (arith, fresh))
            ∙ record_one-current name value t,
        record_all-current changes (record_one name value t) rest,
      )

  pub record_all-companies :
      (changes : Fields) (t : Register) → (record_all changes t).companies ≡ t.companies
  unfolding record_changes record_change
  record_all-companies [] t = refl
  record_all-companies ((name, value) ∷ changes) t =
      record_all-companies changes (record_one name value t)
