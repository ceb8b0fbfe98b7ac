-- ===== src/Jobs/Worker/Rounds.antt =====
-- How one iteration of the worker's loop ends, by what happened to the lease and to the handler.
use sniper_synapse.Base.{
  ℕ, ◌≤◌, ◌<◌, String, ◌≡◌, ◌≢◌, refl, Bool, true, false, Option, none, some, arith, first_where,
  ◌⊎◌, inl, inr, eq_iff,
}
use sniper_synapse.Jobs.Models.{running, succeeded, failed, retry_scheduled, Job, Queue}
use sniper_synapse.Jobs.Invariant.{find-update_where}
use sniper_synapse.Jobs.Keeps.{save-keeps-id}
use sniper_synapse.Jobs.Lease.{refused, mark_failed_backoff}
use sniper_synapse.Jobs.Services.{
  ok, has_id, claim_next_job, mark_succeeded, mark_failed, owned_running_job, check_owner,
  succeeded_row,
}
use sniper_synapse.Jobs.Worker.{
  Execution, returned, raised, Round, Report, succeeded_report, failed_report, discarded, failure,
  close_job, after_claim, iteration,
}

failure-some :
    (id : String) (e : Execution) (lost : Bool)
    → (lost ≡ true) ⊎ ((m : String) × (e ≡ raised m))
    → (message : String) × (failure id e lost ≡ some message)
unfolding failure
failure-some id (raised m) lost h = (m, refl)
failure-some id returned true h = (_, refl)
failure-some id returned false (inl h) = ground (arith, h)
failure-some id returned false (inr h) = ground (arith, h.1)

-- The row of a reported success.
abbrev pub Succeeds : ℕ → Queue × Report → Type 0
Succeeds id out =
    (out.1 ≡ succeeded_report)
    × ((after : Job) × (first_where (has_id id) out.0.jobs ≡ some after)
        × (after.status ≡ succeeded))

-- The row of a reported failure: scheduled again if attempts are left.
abbrev pub Fails : ℕ → Job → Queue × Report → Type 0
Fails id row out =
    (out.1 ≡ failed_report)
    × ((after : Job) × (first_where (has_id id) out.0.jobs ≡ some after)
        × (row.attempt_count < row.max_attempts → after.status ≡ retry_scheduled)
        × (row.max_attempts ≤ row.attempt_count → after.status ≡ failed))

module _ (now : ℕ) (worker_id : String) (job : Job) (q : Queue) (row : Job)
    (found : first_where (has_id job.id) q.jobs ≡ some row) where
  close_job-lost :
      (f : Option String)
      → row.lock_owner ≢ worker_id
      → close_job now worker_id job f q ≡ (q, discarded)
  unfolding close_job mark_succeeded mark_failed
  close_job-lost none ne = rw (refused q job.id worker_id row found ne) refl
  close_job-lost (some message) ne = rw (refused q job.id worker_id row found ne) refl

  close_job-Fails :
      (message : String)
      → row.status ≡ running
      → row.lock_owner ≡ worker_id
      → Fails job.id row (close_job now worker_id job (some message) q)
  unfolding close_job
  close_job-Fails message state owner =
      let (q', after, done, at, _, _, again, over) =
        mark_failed_backoff now job.id worker_id message q row found state owner in
      rw done (refl, (after, at, again, over))

  close_job-Succeeds :
      row.status ≡ running
      → row.lock_owner ≡ worker_id
      → Succeeds job.id (close_job now worker_id job none q)
  unfolding close_job mark_succeeded owned_running_job check_owner succeeded_row
  close_job-Succeeds state owner =
      let after = succeeded_row now row in
      let saved =
        find-update_where (has_id after.id) (λ _. after) job.id q.jobs row (save-keeps-id after)
          found in
      rw (found, state, (eq_iff row.lock_owner worker_id).1 owner)
        (refl, (after, rw saved (ground arith), refl))

-- A worker that has claimed a job closes it by the row that is there when the handler has ended. If
-- the owner of that row is not this worker, the iteration writes nothing more and discards the
-- outcome. If the row runs under this worker's lease, a handler that returned with the lease kept
-- makes it succeeded, and one that raised, or that returned after a renewal was refused, makes it
-- scheduled again if attempts are left and failed if not.
pub iteration-Closes :
    (id_text : ℕ → String) (worker_id : String) (lock_seconds : ℕ) (round : Round) (q q' : Queue)
    (job row : Job)
    → claim_next_job round.locked round.claimed_at worker_id lock_seconds q ≡ ok (q', some job)
    → first_where (has_id job.id) (round.during job q').jobs ≡ some row
    → let out = iteration id_text worker_id lock_seconds round q in
      (row.lock_owner ≢ worker_id → out ≡ (round.during job q', discarded))
      × (row.status ≡ running
          → row.lock_owner ≡ worker_id
          → (round.execution ≡ returned → round.lost ≡ false → Succeeds job.id out)
            × ((round.lost ≡ true) ⊎ ((m : String) × (round.execution ≡ raised m))
                → Fails job.id row out))
unfolding iteration after_claim failure
iteration-Closes id_text worker_id lock_seconds round q q' job row e found =
    let left = round.during job q' in
    let now = round.closed_at in
    rw e (
      (λ ne. close_job-lost now worker_id job left row found _ ne),
      (λ state owner. (
        (λ ran kept.
            rw (ran, kept) (close_job-Succeeds now worker_id job left row found state owner)),
        (λ h.
            let (message, f) = failure-some (id_text job.id) round.execution round.lost h in
            rw f (close_job-Fails now worker_id job left row found message state owner)),
      )),
    )
