-- ===== src/Cnpj/Discover/Execute/Ends.antt =====
-- What the end of a run writes: the end of `execute_discover_cnpj` in apps/sources/cnpj/jobs.py.
use sniper_synapse.Base.{
  ℕ, ◌≤◌, ◌<◌, String, ◌≡◌, ◌⊎◌, refl, sym, ap, arith, Bool, true, false, ◌&&◌, Option, none, some,
  List, [], ◌∷◌, length, Bool-cases, inl, inr, str_eq, is_some, ◌∙◌, ◌==◌, ==_iff, update_where,
}
use sniper_synapse.Cnpj.Readers.{is_nonempty}
use sniper_synapse.Cnpj.Catalog.{Catalog}
use sniper_synapse.Cnpj.Discover.Requests.Accepted.{Accepted, is_preview}
use sniper_synapse.Cnpj.Discover.Establishments.{Progress}
use sniper_synapse.Cnpj.Discover.Complements.{Totals}
use sniper_synapse.Cnpj.Discover.Execute.{
  Store, Outcome, refused, crashed, unrecorded, completed, tables_of, save_run, fail_run,
  is_partial, finished, counts_of, noted, with_coverages, for_query, end_run,
}
use sniper_synapse.Discovery.Models.{
  DiscoveryQuery, QueryRun, SourceCoverage, Tables, succeeded, partial, failed, RunNote,
  is_succeeded, ScanNote, from_scan,
}
use sniper_synapse.Discovery.Coverage.{Scope, query_of, record_source_coverage}

-- What the note of a run says when it is whole: the mode is full, every source of establishments
-- was read, and no complement that was asked is missing.
abbrev pub WholeNote : Accepted → Option RunNote → Type 0
WholeNote a note =
    (n : ScanNote) × (note ≡ some (from_scan n))
    × (n.sources_processed ≡ length a.requested.of_establishments)
    × ((is_nonempty a.requested.of_companies ≡ false) ⊎ (n.companies.basics_missing ≡ 0))
    × ((is_nonempty a.requested.of_simples ≡ false) ⊎ (n.simples.basics_missing ≡ 0))

abbrev pub WholeRun : Accepted → QueryRun → Type 0
WholeRun a r =
    (is_preview a.mode ≡ false) × (r.records_matched < a.max_results) × WholeNote a r.coverage

-- A run that returned is partial, without a coverage, or succeeded and whole.
abbrev pub EndsWell : Accepted → Store → Store → QueryRun → Type 0
EndsWell a s s' r =
    ((r.status ≡ partial) × (s'.coverages ≡ s.coverages))
    ⊎ ((r.status ≡ succeeded)
        × WholeRun a r
        × ((a.coverage_complete ≡ true) ⊎ (s'.coverages ≡ s.coverages)))

-- The run is the one of the request, and it is in the place of its row in the table.
abbrev pub Saved : Accepted → Store → Store → QueryRun → Type 0
Saved a s s' r =
    (r.id ≡ a.query_run.id) × (s'.runs ≡ update_where (λ q. q.id == a.query_run.id) (λ q. r) s.runs)

-- Some version of the run is in the table.
abbrev pub Touched : Accepted → Store → Store → Type 0
Touched a s s' = (r : QueryRun) × Saved a s s' r

abbrev pub Ends : ℕ → Accepted → Store → Outcome → Type 0
Ends now a s (refused e) = Unit
Ends now a s (crashed s' r) =
    (r.status ≡ failed)
    × (r.finished_at ≡ some now)
    × (r.records_matched ≤ a.max_results)
    × (s'.coverages ≡ s.coverages)
    × Saved a s s' r
Ends now a s (unrecorded s' r) =
    (query_of r.query s.queries ≡ none) × (r.records_matched ≤ a.max_results) × Saved a s s' r
Ends now a s (completed s' r counts) =
    Saved a s s' r
    × (r.records_matched ≤ a.max_results)
    × (counts ≡ counts_of r)
    × EndsWell a s s' r

not_nonempty {ℓ} : {A : Type ℓ} (xs : List A) → is_nonempty xs ≡ false → length xs ≡ 0
not_nonempty [] h = refl
not_nonempty (x ∷ xs) h = ground (arith, h)

-- A complement that was asked misses nothing.
both-false :
    (xs : Bool) (ys : List String) → (xs && is_nonempty ys) ≡ false → (xs ≡ false) ⊎ (length ys ≡ 0)
both-false false ys h = inl refl
both-false true ys h = inr (not_nonempty ys h)

saved_twice :
    (id : ℕ) (r r' : QueryRun) (rows : List QueryRun)
    → r.id ≡ id
    → update_where (λ q. q.id == id) (λ q. r') (update_where (λ q. q.id == id) (λ q. r) rows)
      ≡ update_where (λ q. q.id == id) (λ q. r') rows
saved_twice id r r' [] e = refl
saved_twice id r r' (q ∷ rows) e = elim (Bool-cases (q.id == id)) [
  | inl y ↦ rw (y, (==_iff r.id id).1 e, saved_twice id r r' rows e) refl
  | inr n ↦ rw (n, n, saved_twice id r r' rows e) refl
]

-- Saving a version of the run puts it in the place of the one before.
pub save_run-Saved :
    (a : Accepted) (s s' : Store) (r : QueryRun)
    → r.id ≡ a.query_run.id
    → Touched a s s'
    → Saved a s (save_run r s') r
save_run-Saved a s s' r e (before, (is_run, rows)) = (
  e,
  ap (λ id. update_where (λ q. q.id == id) (λ q. r) s'.runs) e
      ∙ ap (update_where (λ q. q.id == a.query_run.id) (λ q. r)) rows
      ∙ saved_twice a.query_run.id before r s.runs is_run,
)

pub fail_run-Ends :
    (now : ℕ) (a : Accepted) (s s' : Store) (r : QueryRun) (p : Progress) (catalog : Catalog)
    → p.matched ≤ a.max_results
    → s'.coverages ≡ s.coverages
    → r.id ≡ a.query_run.id
    → Touched a s s'
    → Ends now a s (fail_run now r p catalog s')
unfolding fail_run
fail_run-Ends now a s s' r p catalog h c e t = (
  refl,
  refl,
  h,
  c,
  save_run-Saved a s s'
      (record r {
        status = failed;
        records_processed = p.rows;
        records_matched = p.matched;
        records_failed = p.invalid;
        finished_at = some now;
      })
      e t,
)

-- The establishments were read without an exception.
abbrev pub Read : Accepted → Progress → Type 0
Read a p =
    (p.matched ≤ a.max_results)
    × ((p.limit_reached ≡ true)
        ⊎ ((p.matched < a.max_results)
            × (p.sources_processed ≡ length a.requested.of_establishments)))

-- A run with no note of its coverage yet, which is not partial.
finished-WholeRun :
    (now : ℕ) (a : Accepted) (r : QueryRun) (staged : ℕ) (p : Progress) (cs ss : Totals)
    → Read a p
    → is_partial a p cs ss ≡ false
    → WholeRun a (finished now a r staged p cs ss)
unfolding finished is_partial
finished-WholeRun now a r staged p cs ss (_, inl l) h = ground (arith, l, h)
finished-WholeRun now a r staged p cs ss (_, inr (m, n)) h = (
  ground (arith, h),
  m,
  (
    _,
    refl,
    n,
    both-false (is_nonempty a.requested.of_companies) cs.remaining (ground (arith, h)),
    both-false (is_nonempty a.requested.of_simples) ss.remaining (ground (arith, h)),
  ),
)

-- The key of a coverage changes nothing else of the note.
noted-WholeNote :
    (a : Accepted) (c : Option SourceCoverage) (before : Option RunNote)
    → WholeNote a before
    → WholeNote a (noted c before)
unfolding noted
noted-WholeNote a none before h = h
noted-WholeNote a (some c) before (n, e, read, cs, ss) =
    rw e (record n { source_coverage_id = some c.id }, refl, read, cs, ss)

some_of : (o : Option Tables) → is_some o ≡ true → (t : Tables) × (o ≡ some t)
some_of none h = ground (arith, h)
some_of (some t) h = (t, refl)

record-succeeds :
    (scope : Scope) (now : ℕ) (t : Tables) (id source : ℕ) (query : DiscoveryQuery) (r : QueryRun)
    → is_succeeded r.status ≡ true
    → str_eq r.dataset_reference "" ≡ false
    → (t' : Tables) × (record_source_coverage scope t now id source query r none ≡ some t')
unfolding record_source_coverage
record-succeeds scope now t id source query r e d =
    some_of (record_source_coverage scope t now id source query r none) (rw (e, d) refl)

module _ (scope : Scope) (now : ℕ) (a : Accepted) (s : Store) where
  abbrev Covers : QueryRun → Type 0
  Covers r =
      (r.records_matched ≤ a.max_results)
      × (a.coverage_complete ≡ true)
      × (r.status ≡ succeeded)
      × (str_eq r.dataset_reference "" ≡ false)
      × WholeRun a r
      × (r.id ≡ a.query_run.id)

  with_coverages-Ends :
      (source : ℕ) (r : QueryRun) (s' : Store) (query : DiscoveryQuery) (t : Tables)
      → Covers r
      → Touched a s s'
      → Ends now a s (with_coverages scope now source r s' query (some t))
  unfolding with_coverages
  with_coverages-Ends source r s' query t (low, asked, st, _, (full, less, note), key) k = (
    save_run-Saved a s (record s' { coverages = t.coverages }) _ key k,
    low,
    refl,
    inr (st, (full, less, noted-WholeNote a _ r.coverage note), inl asked),
  )

  for_query-Ends :
      (source : ℕ) (r : QueryRun) (s' : Store) (q : Option DiscoveryQuery)
      → query_of r.query s.queries ≡ q
      → Covers r
      → Saved a s s' r
      → Ends now a s (for_query scope now source r s' q)
  unfolding for_query
  for_query-Ends source r s' none h c k = (h, c.0, k)
  for_query-Ends source r s' (some query) h (low, asked, st, d, whole, key) k =
      let (t, e) =
        record-succeeds scope now (tables_of s') s'.catalog.next_id source query r
          (ap is_succeeded st) d in
      rw e (with_coverages-Ends source r s' query t (low, asked, st, d, whole, key) (r, k))

  -- What the end of the run finds: it is partial, or succeeded and whole; `b` tells whether its
  -- coverage is to be recorded.
  abbrev pub CanEnd : Bool → QueryRun → Type 0
  CanEnd b r =
      ((r.status ≡ partial) × (b ≡ false))
      ⊎ ((r.status ≡ succeeded) × WholeRun a r × ((b ≡ false) ⊎ (a.coverage_complete ≡ true)))

  pub end_run-Ends :
      (b : Bool) (source : ℕ) (r : QueryRun) (s' : Store)
      → s'.queries ≡ s.queries
      → s'.coverages ≡ s.coverages
      → str_eq r.dataset_reference "" ≡ false
      → r.records_matched ≤ a.max_results
      → CanEnd b r
      → r.id ≡ a.query_run.id
      → Touched a s s'
      → Ends now a s (end_run scope now b source r s')
  unfolding end_run
  end_run-Ends false source r s' q c d low (inl (st, _)) key k =
      (save_run-Saved a s s' r key k, low, refl, inl (st, c))
  end_run-Ends false source r s' q c d low (inr (st, whole, _)) key k =
      (save_run-Saved a s s' r key k, low, refl, inr (st, whole, inr c))
  end_run-Ends true source r s' q c d low (inl (_, n)) key k = ground (arith, n)
  end_run-Ends true source r s' q c d low (inr (st, whole, inl n)) key k = ground (arith, n)
  end_run-Ends true source r s' q c d low (inr (st, whole, inr asked)) key k =
      for_query-Ends source r (save_run r s') (query_of r.query s'.queries)
        (ap (query_of r.query) (sym q)) (low, asked, st, d, whole, key)
        (save_run-Saved a s s' r key k)

  pub finished-CanEnd :
      (r : QueryRun) (staged : ℕ) (p : Progress) (cs ss : Totals)
      → Read a p
      → CanEnd
          (a.coverage_complete && is_succeeded (finished now a r staged p cs ss).status)
          (finished now a r staged p cs ss)
  unfolding finished
  finished-CanEnd r staged p cs ss read = elim (Bool-cases (is_partial a p cs ss)) [
    | inl y ↦ inl (rw y refl, rw y (ground arith))
    | inr n ↦ inr (
      rw n refl,
      finished-WholeRun now a r staged p cs ss read n,
      elim (Bool-cases a.coverage_complete) [ inl k ↦ inr k | inr k ↦ inl (rw k refl) ],
    )
  ]
