-- ===== src/Cnpj/Ingestion/Cnaes.antt =====
-- The CNAEs and the source records after `ingest_establishment` of apps/sources/cnpj/ingestion.py.
use sniper_synapse.Base.{
  ℕ, String, ◌≡◌, refl, sym, ◌∙◌, Bool, true, false, ◌&&◌, List, [], ◌∷◌, ◌++◌, arith,
  if◌then◌else◌, any, first_where, update_where, All, All-update_or_create, Bool-cases, inl, inr,
  str_eq, eq_iff, ==_iff,
}
use sniper_synapse.Cnpj.Readers.{CnpjEstablishment}
use sniper_synapse.Cnpj.Catalog.{establishment, CompanyCnae, Catalog}
use sniper_synapse.Cnpj.Ingestion.{
  Hashing, Run, cnpj, canonical_fields, has_cnpj, upsert_company, persist_record, is_cnae, put_cnae,
  other_primary, put_secondary, put_cnaes, ingest_company, ingest_establishment,
}

module _ {A : Type 0} (q p : A → Bool) (f : A → A) where
  any-kept :
      (rows : List A)
      → ((a : A) → q a ≡ true → q (if p a then f a else a) ≡ true)
      → any q rows ≡ true
      → any q (update_where p f rows) ≡ true
  any-kept [] keep h = h
  any-kept (a ∷ rows) keep h = elim (Bool-cases (q a)) [
    | inl y ↦ ground (arith, keep a y)
    | inr n ↦ ground (arith, any-kept rows keep (ground (arith, h, n)))
  ]

  any-updated :
      (rows : List A)
      → ((a : A) → p a ≡ true → q (f a) ≡ true)
      → any p rows ≡ true
      → any q (update_where p f rows) ≡ true
  any-updated [] make h = ground (arith, h)
  any-updated (a ∷ rows) make h = elim (Bool-cases (p a)) [
    | inl y ↦ rw y (ground (arith, make a y))
    | inr n ↦ rw n (ground (arith, any-updated rows make (ground (arith, h, n))))
  ]

module _ {A : Type 0} (q : A → Bool) where
  any-append : (rows more : List A) → any q rows ≡ true → any q (rows ++ more) ≡ true
  any-append [] more h = ground (arith, h)
  any-append (a ∷ rows) more h = elim (Bool-cases (q a)) [
    | inl y ↦ ground (arith, y)
    | inr n ↦ ground (arith, any-append rows more (ground (arith, h, n)))
  ]

  any-added : (rows : List A) (a : A) → q a ≡ true → any q (rows ++ a ∷ []) ≡ true
  any-added [] a h = ground (arith, h)
  any-added (b ∷ rows) a h = ground (arith, any-added rows a h)

module _ (hashing : Hashing) (run : Run) where
  abbrev pub OnlyPrimary : ℕ → String → CompanyCnae → Type 0
  OnlyPrimary company code c = other_primary hashing run company code c ≡ false

  module _ (company source_record : ℕ) (primary : String) where
    abbrev Only : CompanyCnae → Type 0
    Only = OnlyPrimary company primary

    demoted-OnlyPrimary :
        (rows : List CompanyCnae)
        → All Only (
            update_where
              (other_primary hashing run company primary)
              (λ c. record c { is_primary = false })
              rows)
    demoted-OnlyPrimary [] = tt
    demoted-OnlyPrimary (c ∷ rows) = (ground arith, demoted-OnlyPrimary rows)

    abbrev written : Bool → CompanyCnae → CompanyCnae
    written b c = record c {
      is_primary = b;
      source_record = source_record;
      observed_at = run.observed_at;
    }

    abbrev row : Bool → String → CompanyCnae
    row b code = record {
      company = company;
      code = code;
      is_primary = b;
      source_record = source_record;
      observed_at = run.observed_at;
    }

    promoted-OnlyPrimary :
        (rows : List CompanyCnae)
        → All Only rows
        → All Only (put_cnae hashing run company source_record true primary rows)
    unfolding put_cnae
    promoted-OnlyPrimary rows h =
        All-update_or_create Only (is_cnae hashing run company primary) (written true)
          (row true primary) rows (λ c k. ground (arith, k))
          (ground (arith, (eq_iff primary primary).1 refl)) h

    secondary-OnlyPrimary :
        (code : String) (rows : List CompanyCnae)
        → All Only rows
        → All Only (put_cnae hashing run company source_record false code rows)
    unfolding put_cnae
    secondary-OnlyPrimary code rows h =
        All-update_or_create Only (is_cnae hashing run company code) (written false)
          (row false code) rows (λ c k. ground (arith, k)) (ground arith) h

    put_secondary-OnlyPrimary :
        (codes : List String) (rows : List CompanyCnae)
        → All Only rows
        → All Only (put_secondary hashing run company source_record primary codes rows)
    unfolding put_secondary
    put_secondary-OnlyPrimary [] rows h = h
    put_secondary-OnlyPrimary (code ∷ codes) rows h = elim (Bool-cases (str_eq code primary)) [
      | inl y ↦ rw y (put_secondary-OnlyPrimary codes rows h)
      | inr n ↦ rw n (
          put_secondary-OnlyPrimary codes
            (put_cnae hashing run company source_record false code rows)
            (secondary-OnlyPrimary code rows h))
    ]

    -- The row that `update_or_create` leaves for the primary CNAE.
    abbrev is_main : CompanyCnae → Bool
    is_main c = is_cnae hashing run company primary c && c.is_primary

    promoted-main :
        (rows : List CompanyCnae)
        → any is_main (put_cnae hashing run company source_record true primary rows) ≡ true
    unfolding put_cnae
    promoted-main rows = elim (Bool-cases (any (is_cnae hashing run company primary) rows)) [
      | inl y ↦ rw y (
          any-updated is_main (is_cnae hashing run company primary) (written true) rows
            (λ c k. ground (arith, k)) y)
      | inr n ↦ rw n (
          any-added is_main rows (row true primary)
            (ground (arith, (==_iff company company).1 refl, (eq_iff primary primary).1 refl)))
    ]

    other-main :
        (code : String) (c : CompanyCnae)
        → str_eq code primary ≡ false
        → is_main c ≡ true
        → is_main (if is_cnae hashing run company code c then written false c else c) ≡ true
    other-main code c n h = elim (Bool-cases (str_eq c.code code)) [
      | inr k ↦ ground (arith, h, k)
      | inl k ↦
          let same : code ≡ primary =
            sym ((eq_iff c.code code).0 k) ∙ (eq_iff c.code primary).0 (ground (arith, h)) in
          ground (arith, n, (eq_iff code primary).1 same)
    ]

    secondary-main :
        (code : String) (rows : List CompanyCnae)
        → str_eq code primary ≡ false
        → any is_main rows ≡ true
        → any is_main (put_cnae hashing run company source_record false code rows) ≡ true
    unfolding put_cnae
    secondary-main code rows n h = elim (Bool-cases (any (is_cnae hashing run company code) rows)) [
      | inl y ↦ rw y (
          any-kept is_main (is_cnae hashing run company code) (written false) rows
            (λ c k. other-main code c n k) h)
      | inr z ↦ rw z (any-append is_main rows (row false code ∷ []) h)
    ]

    put_secondary-main :
        (codes : List String) (rows : List CompanyCnae)
        → any is_main rows ≡ true
        → any is_main (put_secondary hashing run company source_record primary codes rows) ≡ true
    unfolding put_secondary
    put_secondary-main [] rows h = h
    put_secondary-main (code ∷ codes) rows h = elim (Bool-cases (str_eq code primary)) [
      | inl y ↦ rw y (put_secondary-main codes rows h)
      | inr n ↦ rw n (
          put_secondary-main codes (put_cnae hashing run company source_record false code rows)
            (secondary-main code rows n h))
    ]

  abbrev pub OneMain : ℕ → String → List CompanyCnae → Type 0
  OneMain company code rows =
      All (OnlyPrimary company code) rows
      × (any (λ c. is_cnae hashing run company code c && c.is_primary) rows ≡ true)

  put_cnaes-OneMain :
      (company source_record : ℕ) (e : CnpjEstablishment) (rows : List CompanyCnae)
      → OneMain company e.primary_cnae (put_cnaes hashing run company source_record e rows)
  unfolding put_cnaes
  put_cnaes-OneMain company source_record e rows =
      let demoted : List CompanyCnae =
        update_where (other_primary hashing run company e.primary_cnae)
          (λ k. record k { is_primary = false }) rows in
      let promoted : List CompanyCnae =
        put_cnae hashing run company source_record true e.primary_cnae demoted in
      (
        put_secondary-OnlyPrimary company source_record e.primary_cnae e.secondary_cnaes promoted (
            promoted-OnlyPrimary company source_record e.primary_cnae demoted
              (demoted-OnlyPrimary company source_record e.primary_cnae rows)),
        put_secondary-main company source_record e.primary_cnae e.secondary_cnaes promoted
            (promoted-main company source_record e.primary_cnae demoted),
      )

  -- After an establishment is ingested, its company has the main CNAE of the establishment as a
  -- primary CNAE, and no other primary CNAE.
  pub ingest_establishment-OneMain :
      (e : CnpjEstablishment) (db : Catalog)
      → OneMain
          (ingest_establishment hashing run e db).1.id
          e.primary_cnae
          (ingest_establishment hashing run e db).0.cnaes
  unfolding ingest_establishment ingest_company
  ingest_establishment-OneMain e db =
      let (db', c, created) = upsert_company e db (first_where (has_cnpj (cnpj e)) db.companies) in
      let (saved, r) =
        persist_record hashing run c.id (cnpj e) (establishment e) (canonical_fields e) db' in
      put_cnaes-OneMain c.id r e saved.cnaes
