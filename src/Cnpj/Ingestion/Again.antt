-- ===== src/Cnpj/Ingestion/Again.antt =====
-- Ingesting the same payload again: the `get_or_create` of the source record in
-- apps/sources/cnpj/ingestion.py.
use sniper_synapse.Base.{
  ℕ, String, ◌≡◌, refl, sym, ◌∙◌, Bool, true, Option, none, some, List, [], ◌∷◌, ◌++◌, arith,
  first_where, Bool-cases, inl, inr, eq_iff, ==_iff, ap,
}
use sniper_synapse.Cnpj.Readers.{CnpjEstablishment}
use sniper_synapse.Cnpj.Catalog.{Fields, Company, Payload, establishment, ReceitaRecord, Catalog}
use sniper_synapse.Cnpj.Ingestion.{
  Hashing, Run, cnpj, canonical_fields, has_cnpj, upsert_company, is_record, record_for,
  persist_record, ingest_company, ingest_establishment,
}

first-added :
    (p : ReceitaRecord → Bool) (rows : List ReceitaRecord) (r : ReceitaRecord)
    → p r ≡ true
    → (x : ReceitaRecord) × (first_where p (rows ++ r ∷ []) ≡ some x)
first-added p [] r h = (r, rw h refl)
first-added p (a ∷ rows) r h = elim (Bool-cases (p a)) [
  | inl y ↦ (a, rw y refl)
  | inr n ↦ let (x, k) = first-added p rows r h in (x, rw n k)
]

upsert_company-keeps :
    (e : CnpjEstablishment) (db : Catalog) (found : Option Company)
    → ((upsert_company e db found).0.records ≡ db.records)
      × ((upsert_company e db found).0.observations ≡ db.observations)
unfolding upsert_company
upsert_company-keeps e db none = (refl, refl)
upsert_company-keeps e db (some c) = (refl, refl)

module _ (hashing : Hashing) (run : Run) where
  module _ (external_id : String) (payload : Payload) (fields : Fields) where
    abbrev wanted : ReceitaRecord → Bool
    wanted = is_record run.source external_id (hashing.payload_hash payload)

    abbrev Found : List ReceitaRecord → Type 0
    Found rows = (x : ReceitaRecord) × (first_where wanted rows ≡ some x)

    record_for-Found :
        (company : ℕ) (db : Catalog) (found : Option ReceitaRecord)
        → first_where wanted db.records ≡ found
        → Found (record_for hashing run company external_id payload fields db found).0.records
    unfolding record_for
    record_for-Found company db (some r) h = (r, h)
    record_for-Found company db none h = first-added wanted db.records _ (
        ground (
          arith,
          (==_iff run.source run.source).1 refl,
          (eq_iff external_id external_id).1 refl,
          (eq_iff (hashing.payload_hash payload) (hashing.payload_hash payload)).1 refl,
        ))

    persist_record_again :
        (company : ℕ) (db : Catalog)
        → Found db.records
        → (persist_record hashing run company external_id payload fields db).0 ≡ db
    unfolding persist_record record_for
    persist_record_again company db (x, h) = rw h refl

  abbrev FoundFor : CnpjEstablishment → List ReceitaRecord → Type 0
  FoundFor e = Found (cnpj e) (establishment e) (canonical_fields e)

  ingest_company-keeps :
      (e : CnpjEstablishment) (t : Catalog × Company × Bool)
      → FoundFor e t.0.records
      → ((ingest_company hashing run e t).0.records ≡ t.0.records)
        × ((ingest_company hashing run e t).0.observations ≡ t.0.observations)
  unfolding ingest_company
  ingest_company-keeps e (db, c, created) f =
      let same : (persist_record hashing run c.id (cnpj e) (establishment e) (canonical_fields e)
            db).0
          ≡ db =
        persist_record_again (cnpj e) (establishment e) (canonical_fields e) c.id db f in
      (ap (λ d. d.records) same, ap (λ d. d.observations) same)

  ingest_company-Found :
      (e : CnpjEstablishment) (t : Catalog × Company × Bool)
      → FoundFor e (ingest_company hashing run e t).0.records
  unfolding ingest_company persist_record
  ingest_company-Found e (db, c, created) =
      record_for-Found (cnpj e) (establishment e) (canonical_fields e) c.id db
        (first_where (wanted (cnpj e) (establishment e) (canonical_fields e)) db.records) refl

-- Ingesting an establishment again, for the same source and in any run, adds no source record and
-- no observation.
pub ingest_establishment-again :
    (hashing : Hashing) (run later : Run) (e : CnpjEstablishment) (db : Catalog)
    → run.source ≡ later.source
    → let once = (ingest_establishment hashing run e db).0 in
      let twice = (ingest_establishment hashing later e once).0 in
      (twice.records ≡ once.records) × (twice.observations ≡ once.observations)
unfolding ingest_establishment
ingest_establishment-again hashing run later e db same =
    let once : Catalog = (ingest_establishment hashing run e db).0 in
    let found : Option Company = first_where (has_cnpj (cnpj e)) once.companies in
    let (r, o) = upsert_company-keeps e once found in
    let there : FoundFor hashing run e once.records =
      ingest_company-Found hashing run e
        (upsert_company e db (first_where (has_cnpj (cnpj e)) db.companies)) in
    let (r', o') =
      ingest_company-keeps hashing later e (upsert_company e once found) (rw (r, sym same) there) in
    (r' ∙ r, o' ∙ o)
