-- ===== src/Postings/Matching.antt =====
-- Which company an item of a job source belongs to: `_match_company` of
-- apps/sources/jobs/services.py, and the items of apps/sources/jobs/base.py.
use sniper_synapse.Base.{
  ℕ, String, ◌≡◌, ◌⊎◌, arith, Bool, true, false, not, ◌&&◌, ◌||◌, List, [], ◌∷◌, ◌==◌,
  if◌then◌else◌, filter_rows, map, take, str_eq, Bool-cases, inl, inr, All, refl,
}
use sniper_synapse.Postings.Parse.{is_text}

-- `metadata` is the text of `_bounded_metadata`.
pub record JobSourceItem : Type 0 where
  pub external_id : String
  pub title : String
  pub company_name : String
  pub company_domain : String
  pub company_cnpj : String
  pub description : String
  pub location : String
  pub url : String
  pub published_on : String
  pub valid_through : String
  pub employment_type : String
  pub metadata : String

-- The columns of a company that the matching reads; an absent CNPJ is empty.
pub record Employer : Type 0 where
  pub id : ℕ
  pub cnpj : String
  pub legal_name : String
  pub trade_name : String
  pub website : String
  pub website_domain : String
  pub is_deleted : Bool

-- The text functions. `fold_name` is the chain of `_normalize_name`, `letters_and_digits` that of
-- `_normalize_cnpj`, `hostname` the host of `urlsplit`, empty for none, and `iexact` the comparison
-- of the database without case.
pub record Texts : Type 0 where
  pub fold_name : String → String
  pub letters_and_digits : String → String
  pub strip : String → String
  pub casefold : String → String
  pub has_scheme : String → Bool
  pub hostname : String → String
  pub remove_www : String → String
  pub rstrip_dot : String → String
  pub iexact : String → String → Bool

pub data Reason : Type 0 where
  exact_cnpj other_cnpj exact_domain other_domain exact_name ambiguous_name no_identity : Reason

module _ (py : Texts) where
  -- `_normalize_domain`
  unfoldable pub normalize_domain : String → String
  normalize_domain value =
      let domain = py.casefold (py.strip value) in
      py.rstrip_dot (py.remove_www (if py.has_scheme domain then py.hostname domain else domain))

  abbrev pub expected_domain : Employer → String
  expected_domain c =
      normalize_domain
        (if is_text c.website_domain then c.website_domain else py.hostname c.website)

  -- `company_names`, a set without the empty name.
  abbrev pub has_name : Employer → String → Bool
  has_name c name =
      is_text name
      && (str_eq (py.fold_name c.legal_name) name || str_eq (py.fold_name c.trade_name) name)

  abbrev pub named : String → Employer → Bool
  named name c = not c.is_deleted && (py.iexact c.legal_name name || py.iexact c.trade_name name)

  -- `matches == [company.pk]`, of at most two keys.
  abbrev pub is_only : ℕ → List ℕ → Bool
  is_only id (k ∷ []) = k == id
  is_only id _ = false

  abbrev is_nil : List ℕ → Bool
  is_nil [] = true
  is_nil (k ∷ ks) = false

  is_only-cons :
      (id k : ℕ) (ks : List ℕ)
      → is_only id (k ∷ ks) ≡ true
      → ((k == id) ≡ true) × (is_nil ks ≡ true)
  is_only-cons id k [] h = (h, refl)
  is_only-cons id k (j ∷ ks) h = ground (arith, h)

  abbrev pub name_matches : List Employer → String → List ℕ
  name_matches companies name = take 2 (map (λ c. c.id) (filter_rows (named name) companies))

  unfoldable pub match_name : List Employer → Employer → JobSourceItem → Bool × Reason
  match_name companies c item =
      if has_name c (py.fold_name item.company_name)
      then (if is_only c.id (name_matches companies item.company_name)
          then (true, exact_name)
          else (false, ambiguous_name))
      else (false, no_identity)

  unfoldable pub match_domain : List Employer → Employer → JobSourceItem → Bool × Reason
  match_domain companies c item =
      let candidate = normalize_domain item.company_domain in
      if is_text candidate && is_text (expected_domain c)
      then (if str_eq candidate (expected_domain c)
          then (true, exact_domain)
          else (false, other_domain))
      else match_name companies c item

  -- `_match_company`
  unfoldable pub match_company : List Employer → Employer → JobSourceItem → Bool × Reason
  match_company companies c item =
      if is_text item.company_cnpj && is_text c.cnpj
      then (if str_eq (py.letters_and_digits item.company_cnpj) (py.letters_and_digits c.cnpj)
          then (true, exact_cnpj)
          else (false, other_cnpj))
      else match_domain companies c item

  -- Every company in the table that the database finds by the name has the key.
  abbrev pub AllNamed : ℕ → String → List Employer → Type 0
  AllNamed id name companies = All (λ d. (not (named name d) || d.id == id) ≡ true) companies

  none-AllNamed :
      (id : ℕ) (name : String) (companies : List Employer)
      → is_nil (take 1 (map (λ d. d.id) (filter_rows (named name) companies))) ≡ true
      → AllNamed id name companies
  none-AllNamed id name [] h = tt
  none-AllNamed id name (d ∷ companies) h = elim (Bool-cases (named name d)) [
    | inl y ↦ ground (arith, rw y at h)
    | inr n ↦ (rw n refl, none-AllNamed id name companies (rw n at h))
  ]

  is_only-AllNamed :
      (id : ℕ) (name : String) (companies : List Employer)
      → is_only id (name_matches companies name) ≡ true
      → AllNamed id name companies
  is_only-AllNamed id name [] h = tt
  is_only-AllNamed id name (d ∷ companies) h = elim (Bool-cases (named name d)) [
    | inr n ↦ (rw n refl, is_only-AllNamed id name companies (rw n at h))
    | inl y ↦
        let (found, rest) =
          is_only-cons id d.id (take 1 (map (λ d. d.id) (filter_rows (named name) companies)))
            (rw y at h) in
        (rw (y, found) refl, none-AllNamed id name companies rest)
  ]

  -- Why an item may be given to a company: the same CNPJ; or no two CNPJs to compare, and the same
  -- domain; or neither to compare, and its folded name, and no other company by the name.
  abbrev pub Identified : List Employer → Employer → JobSourceItem → Type 0
  Identified companies c item =
      (((is_text item.company_cnpj && is_text c.cnpj) ≡ true)
        × (str_eq (py.letters_and_digits item.company_cnpj) (py.letters_and_digits c.cnpj) ≡ true))
      ⊎ (((is_text item.company_cnpj && is_text c.cnpj) ≡ false)
          × (((is_text (normalize_domain item.company_domain) && is_text (expected_domain c))
                  ≡ true)
                × (str_eq (normalize_domain item.company_domain) (expected_domain c) ≡ true)
              ⊎ ((is_text (normalize_domain item.company_domain) && is_text (expected_domain c))
                  ≡ false)
                × (has_name c (py.fold_name item.company_name) ≡ true)
                × AllNamed c.id item.company_name companies))

  match_name-only :
      (companies : List Employer) (c : Employer) (item : JobSourceItem)
      → (match_name companies c item).0 ≡ true
      → (has_name c (py.fold_name item.company_name) ≡ true)
        × AllNamed c.id item.company_name companies
  unfolding match_name
  match_name-only companies c item h =
      elim (Bool-cases (has_name c (py.fold_name item.company_name))) [
        | inr n ↦ ground (arith, rw n at h)
        | inl y ↦ elim (Bool-cases (is_only c.id (name_matches companies item.company_name))) [
          | inr n ↦ ground (arith, rw (y, n) at h)
          | inl z ↦ (y, is_only-AllNamed c.id item.company_name companies z)
        ]
      ]

  match_domain-Identified :
      (companies : List Employer) (c : Employer) (item : JobSourceItem)
      → (is_text item.company_cnpj && is_text c.cnpj) ≡ false
      → (match_domain companies c item).0 ≡ true
      → Identified companies c item
  unfolding match_domain
  match_domain-Identified companies c item m h =
      let candidate : String = normalize_domain item.company_domain in
      let expected : String = expected_domain c in
      elim (Bool-cases (is_text candidate && is_text expected)) [
        | inr n ↦
            let (name, only) = match_name-only companies c item (rw n at h) in
            inr (m, inr (n, name, only))
        | inl y ↦ elim (Bool-cases (str_eq candidate expected)) [
          | inr n ↦ ground (arith, rw (y, n) at h)
          | inl z ↦ inr (m, inl (y, z))
        ]
      ]

  -- An item is given to a company only when the CNPJs of both are given and agree in letters and
  -- digits; or, when one of them has none, both domains are given and equal; or, when one of the
  -- domains is not given either, the folded name of the item is a folded name of the company, and
  -- every company that is not deleted and whose name equals the item's unfolded name without regard
  -- to case is this one.
  pub match_company-Identified :
      (companies : List Employer) (c : Employer) (item : JobSourceItem)
      → (match_company companies c item).0 ≡ true
      → Identified companies c item
  unfolding match_company
  match_company-Identified companies c item h =
      elim (Bool-cases (is_text item.company_cnpj && is_text c.cnpj)) [
        | inr n ↦ match_domain-Identified companies c item n (rw n at h)
        | inl y ↦
            elim (Bool-cases
              (str_eq (py.letters_and_digits item.company_cnpj) (py.letters_and_digits c.cnpj))) [
                | inr n ↦ ground (arith, rw (y, n) at h)
                | inl z ↦ inl (y, z)
              ]
      ]
