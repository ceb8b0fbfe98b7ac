-- ===== src/Cnpj/Discover/Establishments/Within.antt =====
-- The limit of `execute_discover_cnpj` (apps/sources/cnpj/jobs.py), and what its loop over a source
-- has to do with the reader of establishments.py.
use sniper_synapse.Base.{
  ℕ, ◌+◌, ◌≤◌, ◌<◌, String, ◌≡◌, ◌⊎◌, refl, sym, ap, arith, Bool, true, false, Option, none, some,
  List, [], ◌∷◌, leb, length, Bool-cases, Option-cases, inl, inr, All,
}
use sniper_synapse.Cnpj.Readers.{
  Texts, CnpjEstablishmentFilter, CnpjScanStats, no_stats, read_one, match_one, matches, parse_row,
  scan_establishments,
}
use sniper_synapse.Cnpj.Records.{Digits, is_selective}
use sniper_synapse.Cnpj.Catalog.{Catalog}
use sniper_synapse.Cnpj.Ingestion.{Hashing, Run}
use sniper_synapse.Cnpj.Discover.Requests.{SourceRef}
use sniper_synapse.Cnpj.Discover.Establishments.Stored.{IsStored, ingest_rows}
use sniper_synapse.Cnpj.Discover.Establishments.{
  Files, Ending, exhausted, stopped, raised, Loop, Progress, ingest_row, read_source, after_source,
  read_opened, source_rows, read_sources, is_stopped,
}

some_inj {ℓ} : {A : Type ℓ} (a b : A) → some a ≡ some b → a ≡ b
some_inj a b h = ap (λ o. elim o [ none ↦ a | some x ↦ x ]) h

Ending-cases : (e : Ending) → (e ≡ raised) ⊎ ((e ≡ exhausted) ⊎ (e ≡ stopped))
Ending-cases exhausted = inr (inl refl)
Ending-cases stopped = inr (inr refl)
Ending-cases raised = inl refl

module _ (py : Texts) (digits : Digits) (hashing : Hashing) (run : Run) (run_key : ℕ)
    (filters : CnpjEstablishmentFilter) (max_results : ℕ) where
  abbrev read : ℕ → Catalog → CnpjScanStats → List (List String) → Loop
  read = read_source py digits hashing run run_key filters max_results

  -- Below the limit unless the limit ended the source.
  abbrev WithinLimit : ℕ → Loop → Type 0
  WithinLimit before l =
      (before + l.stats.rows_matched ≤ max_results)
      × ((is_stopped l.ending ≡ true) ⊎ (before + l.stats.rows_matched < max_results))

  read-WithinLimit :
      (before : ℕ) (db : Catalog) (stats : CnpjScanStats) (rows : List (List String))
      → before + stats.rows_matched < max_results
      → WithinLimit before (read before db stats rows)
  unfolding read_source
  read-WithinLimit before db stats [] h = (omega (arith, h), inr h)
  read-WithinLimit before db stats ([] ∷ rows) h = read-WithinLimit before db stats rows h
  read-WithinLimit before db stats ((c ∷ row) ∷ rows) h =
      elim (Option-cases (parse_row py (c ∷ row))) [
        | inl n ↦ rw (n, read_source) (omega (arith, h), inr h)
        | inr e ↦ elim (Bool-cases (matches py filters e.0)) [
          | inr m ↦ rw (e.1, m, read_source) (read-WithinLimit before db (read_one stats) rows h)
          | inl m ↦ elim (Bool-cases (leb max_results (before + (stats.rows_matched + 1)))) [
            | inl f ↦ rw (e.1, m, f, read_source) (omega (arith, h), inl refl)
            | inr f ↦
                rw (e.1, m, f, read_source)
                  (read-WithinLimit before (ingest_row py digits hashing run run_key e.0 db)
                    (match_one (read_one stats)) rows (ground (arith, f)))
          ]
        ]
      ]

  abbrev pub is_raised : Ending → Bool
  is_raised raised = true
  is_raised _ = false

  -- The loop is the reader, whose establishments are then ingested.
  abbrev Scans : Catalog → CnpjScanStats → List (List String) → Loop → Type 0
  Scans db stats rows l =
      let scan = scan_establishments py true filters stats rows in
      (l.stats ≡ scan.stats)
      × (l.catalog ≡ ingest_rows hashing run run_key py digits scan.yielded db)
      × (scan.raised ≡ is_raised l.ending)

  -- The loop agrees with the reader, and all that the reader yields is stored.
  abbrev pub IsScan : CnpjScanStats → List (List String) → Loop → Type 0
  IsScan stats rows l =
      let scan = scan_establishments py true filters stats rows in
      (l.stats ≡ scan.stats)
      × All (IsStored hashing run run_key l.catalog) scan.yielded
      × (scan.raised ≡ is_raised l.ending)

  abbrev loop : Files → Progress → List SourceRef → Progress × Bool
  loop = read_sources py digits hashing run run_key filters max_results

  -- After the loop: never more matches than the limit; without the limit and an exception, fewer,
  -- and every source was read.
  abbrev pub Bounded : Progress → List SourceRef → Progress × Bool → Type 0
  Bounded p sources q =
      (q.0.matched ≤ max_results)
      × ((q.1 ≡ true)
          ⊎ ((q.0.limit_reached ≡ true)
              ⊎ ((q.0.matched < max_results)
                  × (q.0.sources_processed ≡ p.sources_processed + length sources))))

  read_opened-WithinLimit :
      (p : Progress) (o : Option (List (List String))) (l : Loop)
      → p.matched < max_results
      → read_opened py digits hashing run run_key filters max_results p o ≡ some l
      → WithinLimit p.matched l
  unfolding read_opened
  read_opened-WithinLimit p none l h e = ground (arith, e)
  read_opened-WithinLimit p (some rows) l h e = elim (Bool-cases (is_selective py digits filters)) [
    | inr n ↦ ground (arith, rw n at e)
    | inl y ↦
        let same : read p.matched p.catalog no_stats rows ≡ l = some_inj _ l (rw y at e) in
        rw (sym same) (read-WithinLimit p.matched p.catalog no_stats rows (omega (arith, h)))
  ]

  abbrev Reached : Progress → Type 0
  Reached p = (p.matched ≤ max_results) × ((p.limit_reached ≡ true) ⊎ (p.matched < max_results))

  abbrev after : Progress → Loop → Progress
  after = after_source py digits hashing run run_key filters max_results

  after-Reached : (p : Progress) (l : Loop) → WithinLimit p.matched l → Reached (after p l)
  after-Reached p l (low, inl s) = (low, inl (ground (arith, s)))
  after-Reached p l (low, inr s) = (low, inr s)

  one_more :
      (p : Progress) (l : Loop) (source : SourceRef) (rest : List SourceRef) (q : Progress × Bool)
      → Bounded (after p l) rest q
      → Bounded p (source ∷ rest) q
  one_more p l source rest q (low, inl r) = (low, inl r)
  one_more p l source rest q (low, inr (inl r)) = (low, inr (inl r))
  one_more p l source rest q (low, inr (inr (m, n))) = (low, inr (inr (m, omega (arith, n))))

  -- The loop over the sources never has more matches than the limit. When no exception and no
  -- limit ended it, it has fewer, and it has read every source.
  pub read_sources-Bounded :
      (files : Files) (p : Progress) (sources : List SourceRef)
      → p.matched ≤ max_results
      → (p.limit_reached ≡ true) ⊎ (p.matched < max_results)
      → Bounded p sources (loop files p sources)
  unfolding read_sources
  read_sources-Bounded files p [] h (inl r) = (h, inr (inl r))
  read_sources-Bounded files p [] h (inr m) = (h, inr (inr (m, omega arith)))
  read_sources-Bounded files p (source ∷ rest) h reached =
      elim (Bool-cases (leb max_results p.matched)) [
        | inl f ↦ rw (f, read_sources) (h, inr (inl refl))
        | inr f ↦
            elim (Option-cases (
              read_opened py digits hashing run run_key filters max_results p
                (source_rows files source))) [
                  | inl n ↦ rw (f, n, read_sources) (h, inl refl)
                  | inr l ↦
                      let within : WithinLimit p.matched l.0 =
                        read_opened-WithinLimit p (source_rows files source) l.0 (ground (arith, f))
                          l.1 in
                      let (low, more) = after-Reached p l.0 within in
                      let later : Bounded p (source ∷ rest) (loop files (after p l.0) rest) =
                        one_more p l.0 source rest (loop files (after p l.0) rest)
                          (read_sources-Bounded files (after p l.0) rest low more) in
                      elim (Ending-cases l.0.ending) [
                        | inl r ↦ rw (f, l.1, r, read_sources) (low, inl refl)
                        | inr (inl r) ↦ rw (f, l.1, r, read_sources) later
                        | inr (inr r) ↦ rw (f, l.1, r, read_sources) later
                      ]
                ]
      ]
