-- ===== src/Cnpj/Discover/Execute/Runs.antt =====
-- How a run of `execute_discover_cnpj` ends: apps/sources/cnpj/jobs.py.
use sniper_synapse.Base.{
  ℕ, ◌+◌, ◌≤◌, ◌<◌, ◌≡◌, ◌⊎◌, refl, arith, Bool, true, false, ◌&&◌, Option, List, length, inl, inr,
  str_eq, ap, update_where, ◌==◌,
}
use sniper_synapse.Base.Results.{ok}
use sniper_synapse.Scoring.Json.{Json, Entries}
use sniper_synapse.Cnpj.Readers.{CnpjEstablishmentFilter, Texts}
use sniper_synapse.Cnpj.Records.{Digits}
use sniper_synapse.Cnpj.Catalog.{CnpjCandidate}
use sniper_synapse.Cnpj.Ingestion.{Hashing}
use sniper_synapse.Cnpj.Ingestion.Complements.{Capital}
use sniper_synapse.Cnpj.Discover.Requests.{Values, Settings}
use sniper_synapse.Cnpj.Discover.Requests.Accepted.{Accepted, accept}
use sniper_synapse.Cnpj.Discover.Requests.Checked.{accept-IsChecked}
use sniper_synapse.Cnpj.Discover.Establishments.{Files, Progress}
use sniper_synapse.Cnpj.Discover.Establishments.Within.{read_sources-Bounded}
use sniper_synapse.Cnpj.Discover.Complements.{Totals}
use sniper_synapse.Cnpj.Discover.Execute.{
  Store, registry, save_run, started, finished, run_of, after_simples, after_companies,
  after_establishments, run_accepted, run_request, execute_discover_cnpj,
}
use sniper_synapse.Discovery.Models.{QueryRun, is_succeeded}
use sniper_synapse.Discovery.Coverage.{Scope}
use sniper_synapse.Cnpj.Discover.Execute.Ends.{
  Read, Ends, Touched, fail_run-Ends, end_run-Ends, finished-CanEnd,
}

module _ (py : Texts) (digits : Digits) (values : Values) (settings : Settings) (hashing : Hashing)
    (capital : Capital) (files : Files) (scope : Scope) (observed_at now : ℕ) (a : Accepted)
    (s : Store) where
  abbrev begun : QueryRun
  begun = started observed_at a

  -- The tables of the queries and of the coverages are as they were, and the run is saved.
  abbrev Kept : Store → Type 0
  Kept s' = (s'.queries ≡ s.queries) × (s'.coverages ≡ s.coverages) × Touched a s s'

  begun-id : begun.id ≡ a.query_run.id
  unfolding started
  begun-id = refl

  finished-id :
      (staged : ℕ) (p : Progress) (cs ss : Totals)
      → (finished now a begun staged p cs ss).id ≡ a.query_run.id
  unfolding finished started
  finished-id staged p cs ss = refl

  finished-reference :
      (staged : ℕ) (p : Progress) (cs ss : Totals)
      → str_eq a.dataset_reference "" ≡ false
      → str_eq (finished now a begun staged p cs ss).dataset_reference "" ≡ false
  unfolding finished started
  finished-reference staged p cs ss d = d

  finished-low :
      (staged : ℕ) (p : Progress) (cs ss : Totals)
      → p.matched ≤ a.max_results
      → (finished now a begun staged p cs ss).records_matched ≤ a.max_results
  unfolding finished
  finished-low staged p cs ss h = h

  after_simples-Ends :
      (staged : ℕ) (p : Progress) (cs : Totals) (q : Totals × Bool) (s' : Store)
      → str_eq a.dataset_reference "" ≡ false
      → Read a p
      → Kept s'
      → Ends now a s (
          after_simples py digits values settings hashing capital files scope observed_at now a
            begun staged p cs q s')
  unfolding after_simples
  after_simples-Ends staged p cs (ss, true) s' d read k =
      fail_run-Ends now a s s' begun p ss.catalog read.0 k.1 begun-id k.2
  after_simples-Ends staged p cs (ss, false) s' d read k =
      end_run-Ends scope now a s
        (a.coverage_complete && is_succeeded (finished now a begun staged p cs ss).status)
        a.source.id (finished now a begun staged p cs ss) (record s' { catalog = ss.catalog }) k.0
        k.1 (finished-reference staged p cs ss d) (finished-low staged p cs ss read.0)
        (finished-CanEnd scope now a s begun staged p cs ss read) (finished-id staged p cs ss) k.2

  after_companies-Ends :
      (candidates : List CnpjCandidate) (p : Progress) (q : Totals × Bool) (s' : Store)
      → str_eq a.dataset_reference "" ≡ false
      → Read a p
      → Kept s'
      → Ends now a s (
          after_companies py digits values settings hashing capital files scope observed_at now a
            begun candidates p q s')
  unfolding after_companies
  after_companies-Ends candidates p (cs, true) s' d read k =
      fail_run-Ends now a s s' begun p cs.catalog read.0 k.1 begun-id k.2
  after_companies-Ends candidates p (cs, false) s' d read k =
      after_simples-Ends (length candidates) p cs _ s' d read k

  after_establishments-Ends :
      (q : Progress × Bool) (s' : Store)
      → str_eq a.dataset_reference "" ≡ false
      → (q.0.matched ≤ a.max_results)
        × ((q.1 ≡ true)
            ⊎ ((q.0.limit_reached ≡ true)
                ⊎ ((q.0.matched < a.max_results)
                    × (q.0.sources_processed ≡ 0 + length a.requested.of_establishments))))
      → Kept s'
      → Ends now a s (
          after_establishments py digits values settings hashing capital files scope observed_at now
            a begun q s')
  unfolding after_establishments
  after_establishments-Ends (p, true) s' d (low, _) k =
      fail_run-Ends now a s s' begun p p.catalog low k.1 begun-id k.2
  after_establishments-Ends (p, false) s' d (low, inl f) k = ground (arith, f)
  after_establishments-Ends (p, false) s' d (low, inr (inl l)) k =
      after_companies-Ends _ p _ s' d (low, inl l) k
  after_establishments-Ends (p, false) s' d (low, inr (inr (m, n))) k =
      after_companies-Ends _ p _ s' d (low, inr (m, omega (arith, n))) k

  -- A request that is accepted ends in one of these ways, and in each the table of runs is the one
  -- before with the run at its end in the place of its row. After an exception in a loop the run is
  -- failed, with the time of its end. A run that returns is partial, and no coverage was written,
  -- or it succeeded: then it was a full run with fewer matches than its limit, every establishment
  -- source was read, no complement that was asked is missing, and a coverage was written only if it
  -- was asked for. Only a query that is not in the table can stop the recording of a coverage. In
  -- every case the run has at most `max_results` matches.
  pub execute_discover_cnpj-Ends :
      (key_of : Json → Option ℕ) (filters : CnpjEstablishmentFilter) (payload : Entries)
      → accept py digits values settings key_of filters payload (registry s) ≡ ok a
      → Ends now a s (
          execute_discover_cnpj py digits values settings hashing capital files scope observed_at
            now key_of filters payload s)
  unfolding execute_discover_cnpj run_request run_accepted
  execute_discover_cnpj-Ends key_of filters payload h =
      let ((low, _, d), _) =
        accept-IsChecked py digits values settings key_of filters payload (registry s) a h in
      rw h (
        after_establishments-Ends _ (save_run begun s) d
          (read_sources-Bounded py digits hashing
            (run_of py digits values settings hashing capital files scope observed_at now a)
            a.query_run.id a.filters a.max_results files _ a.requested.of_establishments
            (omega arith) (inr (omega (arith, low))))
          (
            refl,
            refl,
            (
              begun,
              (begun-id, ap (λ id. update_where (λ q. q.id == id) (λ q. begun) s.runs) begun-id),
            ),
          ))
