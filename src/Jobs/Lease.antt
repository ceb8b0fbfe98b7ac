-- ===== src/Jobs/Lease.antt =====
-- The lease: what a claim picks and leaves, who is refused, and when a failed job runs again.
use native.Mathlib.Nat.{one-le-pow}
use sniper_synapse.Base.{
  ℕ, ◌+◌, ◌≤◌, ◌<◌, String, ◌≡◌, ◌≢◌, refl, Bool, false, not, ◌&&◌, Option, none, some, List, arith,
  eq_iff, first_where, update_where, All,
}
use sniper_synapse.Jobs.Models.{Job, JobAttempt, Queue, running, retry_scheduled, failed}
use sniper_synapse.Jobs.Order.{IsFirst, first_in_order-IsFirst}
use sniper_synapse.Jobs.Invariant.{
  IsValid, Distinct, find-of_mem, find-update_where, Distinct-update_where,
}
use sniper_synapse.Jobs.Keeps.{save-keeps-id, recover-keeps-id}
use sniper_synapse.Jobs.Services.{
  ok, err, lease_lost, has_id, save, recover, is_claimable, first_in_order, claimed, create_attempt,
  take_job, claim_next_job, check_owner, owned_running_job, mark_failed, failed_row, is_attempt,
  take_text,
}

module _ (now lock_seconds : ℕ) (worker_id : String) (js : List Job)
    (attempts : List JobAttempt) where
  pub take_job-none :
      (q' : Queue) (o : Option Job)
      → take_job now worker_id lock_seconds none js attempts ≡ ok (q', o)
      → (o ≡ none) × (q'.jobs ≡ js)
  unfolding take_job
  take_job-none q' o e = ground arith

  pub take_job-some :
      (row : Job) (q' : Queue) (o : Option Job)
      → take_job now worker_id lock_seconds (some row) js attempts ≡ ok (q', o)
      → (o ≡ some (claimed now worker_id lock_seconds row))
        × (q'.jobs ≡ save (claimed now worker_id lock_seconds row) js)
  unfolding take_job create_attempt
  take_job-some row q' o e = ground arith

module _ (locked : ℕ → Bool) (now lock_seconds : ℕ) (worker_id : String) (q : Queue) where
  abbrev pub available : Job → Bool
  available j = is_claimable now j && not (locked j.id)

  -- What a claim returns, seen from the rows after the expired leases are released.
  abbrev pub Selects : Option Job → Type 0
  Selects none = All (λ k. available k ≡ false) (recover now q.jobs)
  Selects (some job) =
      (row : Job) × IsFirst available (recover now q.jobs) (some row)
      × (job ≡ claimed now worker_id lock_seconds row)

  Selects-found :
      (found : Option Job)
      → IsFirst available (recover now q.jobs) found
      → (q' : Queue) (o : Option Job)
      → take_job now worker_id lock_seconds found (recover now q.jobs) q.attempts ≡ ok (q', o)
      → Selects o
  Selects-found none f q' o e =
      rw ((take_job-none now lock_seconds worker_id (recover now q.jobs) q.attempts q' o e).0) f
  Selects-found (some row) f q' o e =
      rw ((take_job-some now lock_seconds worker_id (recover now q.jobs) q.attempts row q' o e).0)
        (row, f, refl)

  -- A claim returns the first available row, with this worker's lease, and returns nothing only
  -- if no row is available.
  pub claim-Selects :
      (q' : Queue) (o : Option Job)
      → claim_next_job locked now worker_id lock_seconds q ≡ ok (q', o)
      → Selects o
  unfolding claim_next_job
  claim-Selects q' o e =
      Selects-found (first_in_order available (recover now q.jobs))
        (first_in_order-IsFirst available (recover now q.jobs)) q' o e

  found_after :
      (found : Option Job)
      → IsFirst available (recover now q.jobs) found
      → Distinct (recover now q.jobs)
      → (q' : Queue) (job : Job)
      → take_job now worker_id lock_seconds found (recover now q.jobs) q.attempts
        ≡ ok (q', some job)
      → (first_where (has_id job.id) q'.jobs ≡ some job)
        × (job.lock_owner ≡ worker_id)
        × (job.status ≡ running)
        × (job.lock_expires_at ≡ some (now + lock_seconds))
  unfolding claimed
  found_after none f d q' job e =
      cc
        (take_job-none now lock_seconds worker_id (recover now q.jobs) q.attempts q' (some job) e).0
  found_after (some row) f d q' job e =
      let js = recover now q.jobs in
      let k = claimed now worker_id lock_seconds row in
      let t = take_job-some now lock_seconds worker_id js q.attempts row q' (some job) e in
      let found = find-of_mem row js d f.0 in
      let saved = find-update_where (has_id k.id) (λ _. k) row.id js row (save-keeps-id k) found in
      ground (arith, t.0, t.1, saved)

  -- The claimed row is what its key finds, running under the lease of this worker.
  pub claim-find :
      (q' : Queue) (job : Job)
      → IsValid q
      → claim_next_job locked now worker_id lock_seconds q ≡ ok (q', some job)
      → (first_where (has_id job.id) q'.jobs ≡ some job)
        × (job.lock_owner ≡ worker_id)
        × (job.status ≡ running)
        × (job.lock_expires_at ≡ some (now + lock_seconds))
  unfolding claim_next_job recover
  claim-find q' job v e =
      found_after (first_in_order available (recover now q.jobs))
        (first_in_order-IsFirst available (recover now q.jobs))
        (Distinct-update_where _ _ q.jobs (recover-keeps-id now) v.distinct) q' job e

-- A worker that does not hold the lease of the row is refused.
pub refused :
    (q : Queue) (job_id : ℕ) (other : String) (job : Job)
    → first_where (has_id job_id) q.jobs ≡ some job
    → job.lock_owner ≢ other
    → owned_running_job job_id other q ≡ err lease_lost
unfolding owned_running_job check_owner
refused q job_id other job e ne = ground (arith, eq_iff job.lock_owner other)

failed_row_backoff :
    (now : ℕ) (message : String) (job : Job)
    → let row = failed_row now message job in
      (now + 1 ≤ row.run_after)
      × (row.run_after ≤ now + 300)
      × (job.attempt_count < job.max_attempts → row.status ≡ retry_scheduled)
      × (job.max_attempts ≤ job.attempt_count → row.status ≡ failed)
unfolding failed_row
failed_row_backoff now message job =
    let some_delay = one-le-pow job.attempt_count 2 (omega arith) in
    (omega (arith, some_delay), omega arith, (λ h. ground arith), (λ h. ground arith))

-- When the worker that holds the lease reports a failure, the row is saved with a next run between
-- 1 and 300 seconds ahead; it is scheduled again exactly if attempts are left, and failed if not.
pub mark_failed_backoff :
    (now job_id : ℕ) (worker_id message : String) (q : Queue) (job : Job)
    → first_where (has_id job_id) q.jobs ≡ some job
    → job.status ≡ running
    → job.lock_owner ≡ worker_id
    → (q' : Queue) × (row : Job) × (mark_failed now job_id worker_id message q ≡ ok q')
      × (first_where (has_id job_id) q'.jobs ≡ some row)
      × (now + 1 ≤ row.run_after)
      × (row.run_after ≤ now + 300)
      × (job.attempt_count < job.max_attempts → row.status ≡ retry_scheduled)
      × (job.max_attempts ≤ job.attempt_count → row.status ≡ failed)
unfolding mark_failed owned_running_job check_owner failed_row
mark_failed_backoff now job_id worker_id message q job e st ow =
    let row = failed_row now message job in
    let (low, high, again, over) = failed_row_backoff now message job in
    let saved =
      find-update_where (has_id row.id) (λ _. row) job_id q.jobs job (save-keeps-id row) e in
    (
      record {
        jobs = save row q.jobs;
        attempts =
            update_where (is_attempt job.id job.attempt_count)
              (λ a. record a {
                finished_at = some now;
                succeeded = some false;
                error_detail = take_text 10000 message;
              })
              q.attempts;
      },
      row,
      ground (arith, eq_iff job.lock_owner worker_id),
      rw saved (ground arith),
      low,
      high,
      again,
      over,
    )
