-- ===== src/Jobs/Recovery.antt =====
-- What happens to a job whose worker died: `claim_next_job` takes it back by its expired lease.
use sniper_synapse.Base.{ℕ, ◌≤◌, ◌<◌, String, ◌≡◌, Bool, false, some, List, [], ◌∷◌, ◌++◌, arith}
use sniper_synapse.Jobs.Models.{Job, JobAttempt, Queue, running}
use sniper_synapse.Jobs.Invariant.{Counts}
use sniper_synapse.Jobs.Keeps.{attempt_free}
use sniper_synapse.Jobs.Services.{
  ok, release, recover, claimed, is_claimable, pick, first_in_order, create_attempt, new_attempt,
  take_job, claim_next_job,
}

-- A job whose lease ran out is claimed again although it has used up its attempts: the limit
-- `max_attempts` is read by `mark_failed` alone. (Stated for a queue that holds this one job, due
-- and not locked elsewhere, with its attempts numbered up to its count.)
pub recovery_passes_max_attempts :
    (locked : ℕ → Bool) (now lock_seconds t : ℕ) (worker_id : String) (job : Job)
    (attempts : List JobAttempt)
    → job.status ≡ running
    → job.lock_expires_at ≡ some t
    → t < now
    → job.run_after ≤ now
    → locked job.id ≡ false
    → Counts attempts job
    → job.max_attempts ≤ job.attempt_count
    → (q' : Queue) × (job' : Job) × (claim_next_job locked now worker_id lock_seconds
          (record { jobs = job ∷ []; attempts = attempts })
        ≡ ok (q', some job'))
      × (job'.status ≡ running)
      × (job'.max_attempts < job'.attempt_count)
unfolding claim_next_job recover first_in_order pick is_claimable take_job create_attempt claimed
recovery_passes_max_attempts locked now lock_seconds t worker_id job attempts st ex lt due un c mx =
    let k = claimed now worker_id lock_seconds (release job) in
    (
      record { jobs = k ∷ []; attempts = attempts ++ new_attempt k worker_id now ∷ [] },
      k,
      ground (arith, attempt_free job attempts c),
      ground arith,
      ground arith,
    )
