-- ===== src/Cnpj/Discover/Establishments/Stored.antt =====
-- What the transaction of `execute_discover_cnpj` (apps/sources/cnpj/jobs.py) for an establishment
-- stores, and that the later ones keep it.
use sniper_synapse.Base.{
  ℕ, ◌≡◌, refl, ◌∙◌, ap, arith, Bool, true, false, ◌&&◌, ◌||◌, Option, none, some, List, [], ◌∷◌,
  ◌++◌, ==_iff, any, first_where, update_where, All, Bool-cases, inl, inr, eq_iff, is_some,
  if◌then◌else◌, and-true,
}
use sniper_synapse.Cnpj.Readers.{CnpjEstablishment, Texts}
use sniper_synapse.Cnpj.Records.{Digits}
use sniper_synapse.Cnpj.Catalog.{
  Catalog, Company, CnpjCandidate, ReceitaRecord, Fields, establishment,
}
use sniper_synapse.Cnpj.Ingestion.{
  Hashing, Run, is_candidate, is_record, has_cnpj, cnpj, canonical_fields, stage_establishment,
  upsert_company, record_for, persist_record, ingest_company, ingest_establishment,
}
use sniper_synapse.Cnpj.Discover.Establishments.{ingest_row}

or_right : (a : Bool) {b : Bool} → b ≡ true → (a || b) ≡ true
or_right true h = refl
or_right false h = h

module _ {A : Type 0} (p q : A → Bool) where
  any-updated :
      (f : A → A) (rows : List A)
      → ((x : A) → p x ≡ true → q (f x) ≡ true)
      → any p rows ≡ true
      → any q (update_where p f rows) ≡ true
  any-updated f [] h a = ground (arith, a)
  any-updated f (x ∷ rows) h a = elim (Bool-cases (p x)) [
    | inl y ↦ rw (y, h x y) refl
    | inr n ↦ rw n (or_right (q x) (any-updated f rows h (rw n at a)))
  ]

  any-kept :
      (f : A → A) (rows : List A)
      → ((x : A) → q x ≡ true → q (f x) ≡ true)
      → any q rows ≡ true
      → any q (update_where p f rows) ≡ true
  any-kept f [] h a = ground (arith, a)
  any-kept f (x ∷ rows) h a = elim (Bool-cases (q x)) [
    | inl y ↦ elim (Bool-cases (p x)) [ inl k ↦ rw (k, h x y) refl | inr k ↦ rw (k, y) refl ]
    | inr n ↦ or_right (q (if p x then f x else x)) (any-kept f rows h (rw n at a))
  ]

module _ {A : Type 0} (q : A → Bool) where
  any-append : (rows more : List A) → any q rows ≡ true → any q (rows ++ more) ≡ true
  any-append [] more a = ground (arith, a)
  any-append (x ∷ rows) more a = elim (Bool-cases (q x)) [
    | inl y ↦ rw y refl
    | inr n ↦ or_right (q x) (any-append rows more (rw n at a))
  ]

  any-last : (rows : List A) (row : A) → q row ≡ true → any q (rows ++ row ∷ []) ≡ true
  any-last [] row y = rw y refl
  any-last (x ∷ rows) row y = or_right (q x) (any-last rows row y)

  any-first : (rows : List A) (x : A) → first_where q rows ≡ some x → any q rows ≡ true
  any-first [] x h = ground (arith, h)
  any-first (r ∷ rows) x h = elim (Bool-cases (q r)) [
    | inl y ↦ rw y refl
    | inr n ↦ or_right (q r) (any-first rows x (rw n at h))
  ]

module _ (hashing : Hashing) (run : Run) (run_key : ℕ) where
  abbrev linked : CnpjEstablishment → CnpjCandidate → Bool
  linked e k = is_candidate run_key (cnpj e) k && is_some k.company

  abbrev recorded : CnpjEstablishment → ReceitaRecord → Bool
  recorded e = is_record run.source (cnpj e) (hashing.payload_hash (establishment e))

  -- The run has a candidate with the CNPJ that is linked to a company, and the source has a record
  -- of the CNPJ with the hash of the establishment.
  abbrev pub IsStored : Catalog → CnpjEstablishment → Type 0
  IsStored db e = (any (linked e) db.candidates ≡ true) × (any (recorded e) db.records ≡ true)

  upsert-rest :
      (e : CnpjEstablishment) (db : Catalog) (found : Option Company)
      → ((upsert_company e db found).0.candidates ≡ db.candidates)
        × ((upsert_company e db found).0.records ≡ db.records)
  unfolding upsert_company
  upsert-rest e db none = (refl, refl)
  upsert-rest e db (some c) = (refl, refl)

  record_for-rest :
      (company : ℕ) (e : CnpjEstablishment) (fields : Fields) (db : Catalog)
      (found : Option ReceitaRecord)
      → first_where (recorded e) db.records ≡ found
      → ((record_for hashing run company (cnpj e) (establishment e) fields db found).0.candidates
          ≡ db.candidates)
        × (any
              (recorded e)
              (record_for hashing run company (cnpj e) (establishment e) fields db found).0.records
            ≡ true)
  unfolding record_for
  record_for-rest company e fields db (some r) f = (refl, any-first (recorded e) db.records r f)
  record_for-rest company e fields db none f = (
    refl,
    any-last (recorded e) db.records _ (
        rw ((==_iff run.source run.source).1 refl, (eq_iff (cnpj e) (cnpj e)).1 refl)
          ((eq_iff (hashing.payload_hash (establishment e)) _).1 refl)),
  )

  record_for-keeps :
      (company : ℕ) (e d : CnpjEstablishment) (fields : Fields) (db : Catalog)
      (found : Option ReceitaRecord)
      → any (recorded d) db.records ≡ true
      → any
          (recorded d)
          (record_for hashing run company (cnpj e) (establishment e) fields db found).0.records
        ≡ true
  unfolding record_for
  record_for-keeps company e d fields db (some r) a = a
  record_for-keeps company e d fields db none a = any-append (recorded d) db.records _ a

  ingest_establishment-rest :
      (e : CnpjEstablishment) (db : Catalog)
      → ((ingest_establishment hashing run e db).0.candidates ≡ db.candidates)
        × (any (recorded e) (ingest_establishment hashing run e db).0.records ≡ true)
  unfolding ingest_establishment ingest_company persist_record
  ingest_establishment-rest e db =
      let found : Option Company = first_where (has_cnpj (cnpj e)) db.companies in
      let up = upsert_company e db found in
      let (same, stored) =
        record_for-rest up.1.id e (canonical_fields e) up.0 (first_where (recorded e) up.0.records)
          refl in
      (same ∙ (upsert-rest e db found).0, stored)

  ingest_establishment-keeps :
      (e d : CnpjEstablishment) (db : Catalog)
      → any (recorded d) db.records ≡ true
      → any (recorded d) (ingest_establishment hashing run e db).0.records ≡ true
  unfolding ingest_establishment ingest_company persist_record
  ingest_establishment-keeps e d db a =
      let found : Option Company = first_where (has_cnpj (cnpj e)) db.companies in
      let up = upsert_company e db found in
      record_for-keeps up.1.id e d (canonical_fields e) up.0 (first_where (recorded e) up.0.records)
        (ap (any (recorded d)) (upsert-rest e db found).1 ∙ a)

  staged :
      (e : CnpjEstablishment) (db : Catalog)
      → any (is_candidate run_key (cnpj e)) (stage_establishment e run_key db).candidates ≡ true
  unfolding stage_establishment
  staged e db = elim (Bool-cases (any (is_candidate run_key (cnpj e)) db.candidates)) [
    | inl y ↦ rw y (
        any-updated (is_candidate run_key (cnpj e)) (is_candidate run_key (cnpj e)) _ db.candidates
          (λ k h. h) y)
    | inr n ↦ rw n (
        any-last (is_candidate run_key (cnpj e)) db.candidates _
          (rw ((==_iff run_key run_key).1 refl) ((eq_iff (cnpj e) (cnpj e)).1 refl)))
  ]

  stage-keeps :
      (e d : CnpjEstablishment) (db : Catalog)
      → any (linked d) db.candidates ≡ true
      → any (linked d) (stage_establishment e run_key db).candidates ≡ true
  unfolding stage_establishment
  stage-keeps e d db a = elim (Bool-cases (any (is_candidate run_key (cnpj e)) db.candidates)) [
    | inl y ↦
        rw y (any-kept (is_candidate run_key (cnpj e)) (linked d) _ db.candidates (λ k h. h) a)
    | inr n ↦ rw n (any-append (linked d) db.candidates _ a)
  ]

  module _ (py : Texts) (digits : Digits) where
    abbrev pub ingest : CnpjEstablishment → Catalog → Catalog
    ingest = ingest_row py digits hashing run run_key

    ingest-IsStored : (e : CnpjEstablishment) (db : Catalog) → IsStored (ingest e db) e
    unfolding ingest_row
    ingest-IsStored e db =
        let db1 = stage_establishment e run_key db in
        let (same, stored) = ingest_establishment-rest e db1 in
        (
          any-updated (is_candidate run_key (cnpj e)) (linked e) _
              (ingest_establishment hashing run e db1).0.candidates (λ k h. rw h refl)
              (ap (any (is_candidate run_key (cnpj e))) same ∙ staged e db),
          stored,
        )

    ingest-keeps :
        (e d : CnpjEstablishment) (db : Catalog) → IsStored db d → IsStored (ingest e db) d
    unfolding ingest_row stage_establishment
    ingest-keeps e d db (candidate, row) =
        let db1 = stage_establishment e run_key db in
        let (same, _) = ingest_establishment-rest e db1 in
        (
          any-kept (is_candidate run_key (cnpj e)) (linked d) _
              (ingest_establishment hashing run e db1).0.candidates
              (λ k h.
                rw ((and-true (is_candidate run_key (cnpj d) k) (is_some k.company) h).0) refl)
              (ap (any (linked d)) same ∙ stage-keeps e d db candidate),
          ingest_establishment-keeps e d db1 row,
        )

    -- The transactions of the establishments, in order.
    abbrev pub ingest_rows : List CnpjEstablishment → Catalog → Catalog
    ingest_rows [] db = db
    ingest_rows (e ∷ es) db = ingest_rows es (ingest e db)

    ingest_rows-keeps :
        (es : List CnpjEstablishment) (d : CnpjEstablishment) (db : Catalog)
        → IsStored db d
        → IsStored (ingest_rows es db) d
    ingest_rows-keeps [] d db h = h
    ingest_rows-keeps (e ∷ es) d db h = ingest_rows-keeps es d (ingest e db) (ingest-keeps e d db h)

    pub ingest_rows-IsStored :
        (es : List CnpjEstablishment) (db : Catalog) → All (IsStored (ingest_rows es db)) es
    ingest_rows-IsStored [] db = tt
    ingest_rows-IsStored (e ∷ es) db = (
      ingest_rows-keeps es e (ingest e db) (ingest-IsStored e db),
      ingest_rows-IsStored es (ingest e db),
    )
