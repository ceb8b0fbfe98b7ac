-- ===== src/Jobs/Traces/Excludes.antt =====
-- A claimed job and the other workers: what their transactions leave of it while the lease runs.
use mathlib.Core.Path.{subst}
use sniper_synapse.Base.{
  ℕ, ◌+◌, ◌≤◌, String, ◌≡◌, ◌≢◌, refl, sym, ◌∙◌, Bool, true, Option, none, some, List, arith,
  if◌then◌else◌, first_where, Bool-cases, inl, inr, and-true, eq_iff, update_where,
}
use sniper_synapse.Jobs.Models.{running, Job, Queue}
use sniper_synapse.Jobs.Order.{IsFirst, first_in_order-IsFirst}
use sniper_synapse.Jobs.Invariant.{
  Distinct, IsValid, Distinct-update_where, find-update_where, find-of_mem,
}
use sniper_synapse.Jobs.Keeps.{recover-keeps-id}
use sniper_synapse.Jobs.Lease.{available, take_job-none, take_job-some, claim-find, refused}
use sniper_synapse.Jobs.Services.{
  ok, err, lease_lost, has_id, save, recover, is_claimable, claimed, claim_next_job,
  renew_job_lease, mark_succeeded, mark_failed, renewed, succeeded_row, failed_row, report_counts,
  counted_row, take_job, owned_running_job, check_owner, owns, first_in_order,
}
use sniper_synapse.Jobs.Traces.{
  Step, claim, renew, succeed, fail, report, counted-keeps-id, Step-IsValid,
}
use sniper_synapse.Jobs.Traces.Becomes.{
  find-id, save-find, recovered, recover-find, bind-ok, renewed-keeps-id,
}

-- A transaction that the lease of `worker` until `until` must withstand: a claim of any worker up
-- to that instant, a renewal or a report of another worker, and any update of the counters.
abbrev pub Foreign : String → ℕ → {q q' : Queue} → Step q q' → Type 0
Foreign worker until (claim locked now lock w o e) = now ≤ until
Foreign worker until (renew now id lock w done e) = worker ≢ w
Foreign worker until (succeed now id w e) = worker ≢ w
Foreign worker until (fail now id w message e) = worker ≢ w
Foreign worker until (report id processed successes failures e) = Unit

-- A sequence of such transactions.
pub data Others (worker : String) (until : ℕ) (q : Queue) : Queue → Type 0 where
  none_yet : Others worker until q q
  and_then :
      {r s : Queue}
      → Others worker until q r
      → (step : Step r s) → Foreign worker until step
      → Others worker until q s

-- The row runs under the lease of `worker` until `until`.
abbrev Holds : String → ℕ → Job → Type 0
Holds worker until j =
    (j.status ≡ running) × (j.lock_owner ≡ worker) × (j.lock_expires_at ≡ some until)

abbrev Held : String → ℕ → ℕ → List Job → Type 0
Held worker until id js = (k : Job) × (first_where (has_id id) js ≡ some k) × Holds worker until k

module _ (worker : String) (until id : ℕ) (j : Job) (q : Queue)
    (e : first_where (has_id id) q.jobs ≡ some j) (h : Holds worker until j) where
  not_recovered : (now : ℕ) → now ≤ until → recovered now j ≡ j
  not_recovered now le = let (state, owner, lease) = h in ground (arith, state, lease, le)

  claim-Held :
      (locked : ℕ → Bool) (now lock_seconds : ℕ) (w : String)
      → now ≤ until
      → Distinct (recover now q.jobs)
      → (found : Option Job)
      → IsFirst (available locked now lock_seconds w q) (recover now q.jobs) found
      → (q' : Queue) (o : Option Job)
      → take_job now w lock_seconds found (recover now q.jobs) q.attempts ≡ ok (q', o)
      → Held worker until id q'.jobs
  unfolding is_claimable
  claim-Held locked now lock_seconds w le d none f q' o t =
      rw (take_job-none now lock_seconds w (recover now q.jobs) q.attempts q' o t).1
        (j, recover-find id j q e now ∙ rw (not_recovered now le) refl, h)
  claim-Held locked now lock_seconds w le d (some row) f q' o t =
      let js = recover now q.jobs in
      let k = claimed now w lock_seconds row in
      let c : is_claimable now row ≡ true = (and-true _ _ f.1).0 in
      let found : first_where (has_id id) js ≡ some j =
        recover-find id j q e now ∙ rw (not_recovered now le) refl in
      rw (take_job-some now lock_seconds w js q.attempts row q' o t).1
        (elim (save-find id js j row k found (unfold claimed in refl) (find-of_mem row js d f.0)) [
          | inl other ↦ (j, other, h)
          | inr (same, is_row) ↦
              let state : row.status ≡ running = rw is_row (h.0) in ground (arith, state, c)
        ])

  -- Another worker closes a row of its own, so not this one.
  close-Held :
      (job_id : ℕ) (w : String) (row k : Job)
      → worker ≢ w
      → owned_running_job job_id w q ≡ ok row
      → k.id ≡ row.id
      → Held worker until id (save k q.jobs)
  unfolding owned_running_job check_owner
  close-Held job_id w row k ne o ki =
      let found : first_where (has_id job_id) q.jobs ≡ some row = ground arith in
      let same_id = find-id job_id q.jobs row found in
      let owner : row.lock_owner ≡ w = ground (arith, eq_iff row.lock_owner w) in
      let f : first_where (has_id row.id) q.jobs ≡ some row =
        subst (λ i. first_where (has_id i) q.jobs ≡ some row) (sym same_id) found in
      elim (save-find id q.jobs j row k e ki f) [
        | inl other ↦ (j, other, h)
        | inr (saved, is_row) ↦
            let mine : row.lock_owner ≡ worker = rw is_row (h.1) in elim (ne (sym mine ∙ owner)) [ ]
      ]

  renewed-Holds :
      (now job_id lock_seconds : ℕ) (w : String)
      → worker ≢ w
      → Holds worker until (if owns job_id w j then renewed now lock_seconds j else j)
  renewed-Holds now job_id lock_seconds w ne = elim (Bool-cases (owns job_id w j)) [
    | inr n ↦ rw n h
    | inl y ↦
        let owner : j.lock_owner ≡ w = ground (arith, y, eq_iff j.lock_owner w) in
        elim (ne (sym (h.1) ∙ owner)) [ ]
  ]

  counted-Holds :
      (job_id : ℕ) (processed successes failures : Option ℕ)
      → Holds worker until
          (if has_id job_id j then counted_row processed successes failures j else j)
  unfolding counted_row
  counted-Holds job_id processed successes failures = elim (Bool-cases (has_id job_id j)) [
    | inr n ↦ rw n h
    | inl y ↦ rw y h
  ]

  Step-Held :
      {q' : Queue}
      → IsValid q
      → (s : Step q q') → Foreign worker until s
      → Held worker until id q'.jobs
  unfolding claim_next_job renew_job_lease mark_succeeded mark_failed report_counts
  Step-Held {q'} v (claim locked now lock w o t) le =
      claim-Held locked now lock w le
        (unfold recover in Distinct-update_where _ _ q.jobs (recover-keeps-id now) v.distinct)
        (first_in_order _ (recover now q.jobs))
        (first_in_order-IsFirst (available locked now lock w q) (recover now q.jobs)) q' o t
  Step-Held {q'} v (renew now job lock w done t) ne =
      let jobs' : q'.jobs ≡ update_where (owns job w) (renewed now lock) q.jobs = ground arith in
      rw jobs' (
        (if owns job w j then renewed now lock j else j),
        find-update_where (owns job w) (renewed now lock) id q.jobs j
            (renewed-keeps-id now job lock w) e,
        renewed-Holds now job lock w ne,
      )
  Step-Held {q'} v (succeed now job w t) ne =
      let (row, o, _) = bind-ok (owned_running_job job w q) _ t in
      let jobs' : q'.jobs ≡ save (succeeded_row now row) q.jobs = ground arith in
      rw jobs' (close-Held job w row (succeeded_row now row) ne o (unfold succeeded_row in refl))
  Step-Held {q'} v (fail now job w message t) ne =
      let (row, o, _) = bind-ok (owned_running_job job w q) _ t in
      let jobs' : q'.jobs ≡ save (failed_row now message row) q.jobs = ground arith in
      rw jobs' (close-Held job w row (failed_row now message row) ne o (unfold failed_row in refl))
  Step-Held {q'} v (report job processed successes failures t) u = rw (sym t) (
    (if has_id job j then counted_row processed successes failures j else j),
    find-update_where (has_id job) (counted_row processed successes failures) id q.jobs j
        (counted-keeps-id job processed successes failures) e,
    counted-Holds job processed successes failures,
  )

Others-Held :
    (worker : String) (until id : ℕ) {q q' : Queue}
    → IsValid q
    → Held worker until id q.jobs
    → Others worker until q q'
    → IsValid q' × Held worker until id q'.jobs
Others-Held worker until id v held none_yet = (v, held)
Others-Held worker until id v held (and_then {r} earlier step foreign) =
    let (w, (k, e, h)) = Others-Held worker until id v held earlier in
    (Step-IsValid step w, Step-Held worker until id k r e h w step foreign)

-- After a worker has claimed a job, let other workers renew, succeed and fail jobs, any worker
-- claim jobs up to the instant when the lease of this claim ends, and handlers write counters, in
-- any number and order. Then every worker but the one that claimed, also one that ran this job
-- before, is refused with `JobLeaseLost` when it reports the job's success or failure.
pub claim_excludes :
    (locked : ℕ → Bool) (now lock_seconds : ℕ) (worker_id other : String) (q q' later : Queue)
    (job : Job)
    → IsValid q
    → claim_next_job locked now worker_id lock_seconds q ≡ ok (q', some job)
    → Others worker_id (now + lock_seconds) q' later
    → worker_id ≢ other
    → (at : ℕ) (message : String)
    → (mark_succeeded at job.id other later ≡ err lease_lost)
      × (mark_failed at job.id other message later ≡ err lease_lost)
unfolding mark_succeeded mark_failed
claim_excludes locked now lock_seconds worker_id other q q' later job v e others ne at message =
    let (found, owner, state, lease) = claim-find locked now lock_seconds worker_id q q' job v e in
    let valid = Step-IsValid (claim locked now lock_seconds worker_id (some job) e) v in
    let (_, (k, at_id, holds)) =
      Others-Held worker_id (now + lock_seconds) job.id valid (job, found, (state, owner, lease))
        others in
    let r = refused later job.id other k at_id (λ p. ne (sym (holds.1) ∙ p)) in (rw r, rw r)
