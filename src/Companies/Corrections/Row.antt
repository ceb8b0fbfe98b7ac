-- ===== src/Companies/Corrections/Row.antt =====
-- The row that `correct_company` of apps/companies/corrections.py leaves.
use sniper_synapse.Base.{
  String, ◌≡◌, ◌⊎◌, refl, sym, ◌∙◌, ap, arith, Bool, true, false, not, [], ◌∷◌, any, all,
  filter_rows, All, Bool-cases, inl, inr, str_eq, eq_iff, and-true,
}
use sniper_synapse.Cnpj.Catalog.{Value, Fields, Company}
use sniper_synapse.Cnpj.Ingestion.{setattr, assign}
use sniper_synapse.Cnpj.Ingestion.Keeps.{names, distinct}
use sniper_synapse.Companies.Corrections.{
  Texts, correctable_fields, is_correctable, has_website, website_domain, with_domain,
  changed_company,
}

assign-other :
    (changes : Fields) (c : Company) (n : String)
    → names n changes ≡ false
    → (assign changes c).columns n ≡ c.columns n
unfolding assign
assign-other [] c n h = refl
assign-other ((name, value) ∷ changes) c n h =
    let differs : str_eq n name ≡ false = ground (arith, h) in
    assign-other changes (setattr name value c) n (ground (arith, h)) ∙ rw differs refl

abbrev pub Holds : Company → String × Value → Type 0
Holds row change = row.columns change.0 ≡ change.1

assign-Holds :
    (changes : Fields) (c : Company)
    → distinct changes ≡ true
    → All (Holds (assign changes c)) changes
unfolding assign
assign-Holds [] c d = tt
assign-Holds ((name, value) ∷ changes) c d =
    let (fresh, rest) = and-true (not (names name changes)) (distinct changes) d in
    (
      assign-other changes (setattr name value c) name (ground (arith, fresh))
          ∙ rw ((eq_iff name name).1 refl) refl,
      assign-Holds changes (setattr name value c) rest,
    )

-- The domain is no column that can be corrected.
not_domain :
    (n : String) → any (str_eq n) correctable_fields ≡ true → str_eq n "website_domain" ≡ false
not_domain n h = elim (Bool-cases (str_eq n "website_domain")) [
  | inr k ↦ k
  | inl y ↦
      let absurd : false ≡ true =
        sym (ap (λ x. any (str_eq x) correctable_fields) ((eq_iff n "website_domain").0 y)) ∙ h in
      ground (arith, absurd)
]

with_domain-other :
    (py : Texts) (b : Bool) (c : Company) (n : String)
    → str_eq n "website_domain" ≡ false
    → (with_domain py b c).columns n ≡ c.columns n
unfolding with_domain
with_domain-other py true c n h = rw h refl
with_domain-other py false c n h = refl

with_domain-Holds :
    (py : Texts) (b : Bool) (c : Company) (changes : Fields)
    → all is_correctable changes ≡ true
    → All (Holds c) changes
    → All (Holds (with_domain py b c)) changes
with_domain-Holds py b c [] k h = tt
with_domain-Holds py b c ((name, value) ∷ changes) k h =
    let (one, rest) = and-true (is_correctable (name, value)) (all is_correctable changes) k in
    (
      with_domain-other py b c name (not_domain name one) ∙ h.0,
      with_domain-Holds py b c changes rest h.1,
    )

pub all-filter :
    (p : String × Value → Bool) (changes : Fields)
    → all is_correctable changes ≡ true
    → all is_correctable (filter_rows p changes) ≡ true
all-filter p [] h = refl
all-filter p ((name, value) ∷ changes) h =
    let (one, rest) = and-true (is_correctable (name, value)) (all is_correctable changes) h in
    elim (Bool-cases (p (name, value))) [
      | inl y ↦ rw (y, one) (all-filter p changes rest)
      | inr n ↦ rw n (all-filter p changes rest)
    ]

domain_set :
    (py : Texts) (b : Bool) (c : Company)
    → (b ≡ false)
      ⊎ ((with_domain py b c).columns "website_domain"
          ≡ website_domain py ((with_domain py b c).columns "website"))
unfolding with_domain
domain_set py true c = inr refl
domain_set py false c = inl refl

-- A row with the changes: each changed column has its new value, any other column its value of
-- before, and the domain is that of the website if the website has changed.
abbrev pub Corrected : Texts → Company → Fields → Company → Type 0
Corrected py c changes row =
    All (Holds row) changes
    × ((n : String)
        → names n changes ≡ false
        → str_eq n "website_domain" ≡ false
        → row.columns n ≡ c.columns n)
    × ((has_website py changes ≡ false)
        ⊎ (row.columns "website_domain" ≡ website_domain py (row.columns "website")))

pub changed-Corrected :
    (py : Texts) (changes : Fields) (c : Company)
    → distinct changes ≡ true
    → all is_correctable changes ≡ true
    → Corrected py c changes (changed_company py changes c)
unfolding changed_company
changed-Corrected py changes c d k = (
  with_domain-Holds py _ (assign changes c) changes k (assign-Holds changes c d),
  λ n fresh other.
      with_domain-other py _ (assign changes c) n other ∙ assign-other changes c n fresh,
  domain_set py (has_website py changes) (assign changes c),
)
