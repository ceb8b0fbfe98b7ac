-- ===== src/Discovery/Reuse.antt =====
-- What recording a run's coverage and reusing it give: apps/discovery/coverage.py.
use sniper_synapse.Base.{
  ℕ, zero, suc, ◌+◌, ◌≤◌, String, ◌≡◌, ◌⊎◌, refl, sym, ◌∙◌, ap, Bool, true, false, not, Option,
  some, List, [], ◌∷◌, ◌++◌, ◌==◌, arith, ltb, Bool-cases, inl, inr, first_where, length,
  length-take_le, take, map, All, str_eq, eq_iff, ==_iff,
}
use sniper_synapse.Discovery.Models.{
  DiscoveryQuery, QueryRun, QueryResult, SourceCoverage, Tables, is_succeeded,
}
use sniper_synapse.Discovery.Coverage.{
  Scope, not_expired, run_succeeded, in_scope, is_valid, find_valid_coverage, results_of, upsert,
  covered, new_coverage, record_source_coverage, copied, cached_run, materialize_from,
  materialize_cached_run, ranks_before, insert_result, by_rank,
}

str_eq_refl : (s : String) → str_eq s s ≡ true
str_eq_refl s = (eq_iff s s).1 refl

abbrev Written : (SourceCoverage → SourceCoverage) → SourceCoverage → SourceCoverage → Type 0
Written f fresh c = ((c ≡ fresh) ⊎ ((d : SourceCoverage) × (c ≡ f d)))

-- The first valid row after an upsert is the row written, if only rows with the key are valid.
module _ (p valid : SourceCoverage → Bool) (f : SourceCoverage → SourceCoverage)
    (fresh : SourceCoverage) (only : (c : SourceCoverage) → p c ≡ false → valid c ≡ false)
    (written : (c : SourceCoverage) → p c ≡ true → valid (f c) ≡ true)
    (added : valid fresh ≡ true) where
  upsert-first :
      (rows : List SourceCoverage)
      → (c : SourceCoverage) × (first_where valid (upsert p f fresh rows) ≡ some c)
        × Written f fresh c
  unfolding upsert
  upsert-first [] = (fresh, rw added refl, inl refl)
  upsert-first (c ∷ rows) = elim (Bool-cases (p c)) [
    | inl y ↦ (f c, rw (y, written c y) refl, inr (c, refl))
    | inr y ↦ let (d, e, w) = upsert-first rows in (d, rw (y, only c y) e, w)
  ]

module _ (scope : Scope) (db : Tables) (now at : ℕ) (source : ℕ) (query : DiscoveryQuery)
    (run : QueryRun) (expires_at : Option ℕ) where
  abbrev in_key : SourceCoverage → Bool
  in_key = in_scope source run.dataset_reference (scope.scope_hash query)

  abbrev valid_now : SourceCoverage → Bool
  valid_now = is_valid db at source run.dataset_reference (scope.scope_hash query)

  abbrev write : SourceCoverage → SourceCoverage
  write = covered scope db now query run expires_at

  -- What a reuse reads of a row: the run, and how many results it has.
  abbrev pub Covers : SourceCoverage → Type 0
  Covers c = (c.query_run ≡ some run.id) × (c.record_count ≡ length (results_of run.id db.results))

  write-Covers : (c : SourceCoverage) → Covers (write c)
  unfolding covered
  write-Covers c = (refl, refl)

  write-valid :
      (c : SourceCoverage)
      → in_key c ≡ true
      → run_succeeded db.runs (some run.id) ≡ true
      → not_expired at expires_at ≡ true
      → valid_now (write c) ≡ true
  unfolding covered
  write-valid c k r e = rw (k, r, e) refl

  new_coverage-valid :
      (id : ℕ)
      → run_succeeded db.runs (some run.id) ≡ true
      → not_expired at expires_at ≡ true
      → valid_now (new_coverage scope db now id source query run expires_at) ≡ true
  unfolding new_coverage
  new_coverage-valid id r e =
      rw
        (
          (==_iff source source).1 refl,
          str_eq_refl run.dataset_reference,
          str_eq_refl (scope.scope_hash query),
          r,
          e,
        )
        refl

  Written-Covers :
      (id : ℕ) (c : SourceCoverage)
      → Written write (new_coverage scope db now id source query run expires_at) c
      → Covers c
  unfolding new_coverage
  Written-Covers id c (inl same) = rw same (refl, refl)
  Written-Covers id c (inr (d, same)) = rw same (write-Covers d)

  recorded-tables :
      (id : ℕ) (db' : Tables)
      → record_source_coverage scope db now id source query run expires_at ≡ some db'
      → (db'.runs ≡ db.runs)
        × (db'.coverages
            ≡ upsert in_key write
                (new_coverage scope db now id source query run expires_at)
                db.coverages)
  unfolding record_source_coverage
  recorded-tables id db' h = ground (arith, h)

  -- A run that is recorded as coverage is found by a later search for its dataset and query, as
  -- long as the coverage has not expired and the run counts as succeeded in the table of runs.
  pub recorded_is_found :
      (id : ℕ) (db' : Tables)
      → record_source_coverage scope db now id source query run expires_at ≡ some db'
      → run_succeeded db.runs (some run.id) ≡ true
      → not_expired at expires_at ≡ true
      → (c : SourceCoverage) × (find_valid_coverage scope db' at source run.dataset_reference query
          ≡ some c)
        × Covers c
  unfolding find_valid_coverage
  recorded_is_found id db' h r e =
      let row : SourceCoverage = new_coverage scope db now id source query run expires_at in
      let added : valid_now row ≡ true = new_coverage-valid id r e in
      let (c, found, w) =
        upsert-first in_key valid_now write row (λ c k. rw k refl) (λ c k. write-valid c k r e)
          added db.coverages in
      let (runs, rows) = recorded-tables id db' h in
      (c, rw (runs, rows) found, Written-Covers id c w)

module _ (id : ℕ) where
  abbrev pub NotOf : QueryResult → Type 0
  NotOf r = (r.query_run == id) ≡ false

  results_of-append :
      (rows more : List QueryResult)
      → All NotOf rows
      → results_of id (rows ++ map (copied id) more) ≡ map (copied id) more
  results_of-append [] [] h = refl
  results_of-append [] (r ∷ more) h =
      rw ((==_iff id id).1 refl) (ap (λ rest. copied id r ∷ rest) (results_of-append [] more tt))
  results_of-append (r ∷ rows) more h = rw (h.0) (results_of-append rows more h.1)

map-length {ℓ κ} :
    {A : Type ℓ} {B : Type κ} (f : A → B) (xs : List A) → length (map f xs) ≡ length xs
map-length f [] = refl
map-length f (x ∷ xs) = ap suc (map-length f xs)

length-insert_result :
    (r : QueryResult) (rows : List QueryResult) → length (insert_result r rows) ≡ suc (length rows)
unfolding insert_result
length-insert_result r [] = refl
length-insert_result r (s ∷ rows) = elim (Bool-cases (ranks_before s.rank r.rank)) [
  | inl y ↦ rw y (ap suc (length-insert_result r rows))
  | inr n ↦ rw n refl
]

length-by_rank : (rows : List QueryResult) → length (by_rank rows) ≡ length rows
unfolding by_rank
length-by_rank [] = refl
length-by_rank (r ∷ rows) = length-insert_result r (by_rank rows) ∙ ap suc (length-by_rank rows)

plus_one : (n : ℕ) → n + 1 ≡ suc n
plus_one n = omega arith

length-take_more :
    {A : Type 0} (n : ℕ) (xs : List A) → ltb n (length (take (suc n) xs)) ≡ ltb n (length xs)
length-take_more n [] = refl
length-take_more zero (x ∷ xs) = ground arith
length-take_more (suc n) (x ∷ xs) = ground (arith, length-take_more n xs)

module _ (db db' : Tables) (id now created_by : ℕ) (query : DiscoveryQuery) (max_results : ℕ)
    (coverage : SourceCoverage) (run : ℕ) (made : QueryRun) where
  -- A run with copies of the covering run's results, complete exactly when all of them fit.
  abbrev pub Copies : Type 0
  Copies =
      (1 ≤ max_results)
      × (db'.runs ≡ db.runs ++ made ∷ [])
      × (made.records_matched ≡ length (results_of id db'.results))
      × (made.records_matched ≤ max_results)
      × (ltb max_results (length (results_of run db.results)) ≡ not (is_succeeded made.status))

  abbrev source_results : List QueryResult
  source_results = take (max_results + 1) (by_rank (results_of run db.results))

  abbrev row : QueryRun
  row = cached_run id now created_by query max_results coverage source_results

  materialize_from-row :
      materialize_from db id now created_by query max_results coverage (some run) ≡ some (db', made)
      → (1 ≤ max_results)
        × (made ≡ row)
        × (db'.runs ≡ db.runs ++ row ∷ [])
        × (db'.results ≡ db.results ++ map (copied id) (take max_results source_results))
  unfolding materialize_from
  materialize_from-row h = ground (arith, h)

  row-matched : row.records_matched ≡ length (take max_results source_results)
  unfolding cached_run
  row-matched = refl

  row-status : not (is_succeeded row.status) ≡ ltb max_results (length source_results)
  unfolding cached_run
  row-status = ground arith

  -- A run made from the cache has a positive limit, is added to the table, and owns exactly as
  -- many results as it reports, at most the limit. It counts as succeeded exactly when the covering
  -- run had no more results than the limit. The new run's key must not be in the table of results.
  pub materialize_cached_run-Copies :
      coverage.query_run ≡ some run
      → All (NotOf id) db.results
      → materialize_cached_run db id now created_by query max_results coverage ≡ some (db', made)
      → Copies
  unfolding materialize_cached_run
  materialize_cached_run-Copies c fresh h =
      let (limit, is_row, runs, results) =
        materialize_from-row
          (sym (ap (materialize_from db id now created_by query max_results coverage) c) ∙ h) in
      rw (is_row, runs, results)
        (
          limit,
          refl,
          row-matched
              ∙ sym (
                  ap length
                    (results_of-append id db.results (take max_results source_results) fresh)
                  ∙ map-length (copied id) (take max_results source_results)),
          rw row-matched (length-take_le max_results source_results),
          sym (
              row-status
              ∙ ap (λ n. ltb max_results (length (take n (by_rank (results_of run db.results)))))
                  (plus_one max_results)
              ∙ length-take_more max_results (by_rank (results_of run db.results))
              ∙ ap (ltb max_results) (length-by_rank (results_of run db.results))),
        )
