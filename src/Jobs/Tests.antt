-- ===== src/Jobs/Tests.antt =====
-- Concrete queues: tests of the operations, and the theorems at inputs that meet their hypotheses.
use mathlib.Core.Bool.{false≢true}
use sniper_synapse.Base.{
  ℕ, ◌≤◌, ◌<◌, String, ◌≡◌, ◌≢◌, refl, Bool, true, false, none, some, [], ◌∷◌, arith, eq_iff,
  first_where,
}
use sniper_synapse.Base.Int.{pos}
use sniper_synapse.Jobs.Models.{
  Job, JobAttempt, Queue, noop, pending, running, retry_scheduled, succeeded, failed,
}
use sniper_synapse.Jobs.Services.{
  lease_lost, bad_lock_seconds, ok, err, has_id, recover, is_claimable, before, first_in_order,
  pick, claimed, take_text, create_attempt, new_attempt, take_job, claim_next_job, renew_job_lease,
  check_owner, owned_running_job, succeeded_row, failed_row, mark_succeeded, mark_failed,
}
use sniper_synapse.Base.{◌⊎◌}
use sniper_synapse.Jobs.Worker.Rounds.{Succeeds, Fails, iteration-Closes}
use sniper_synapse.Jobs.Worker.{
  raised, discarded, Round, returned, succeeded_report, failed_report, idle, handle, iteration,
  close_job, failure, after_claim,
}
use sniper_synapse.Jobs.Invariant.{IsValid}
use sniper_synapse.Jobs.Lease.{Selects, claim-Selects, mark_failed_backoff}
use sniper_synapse.Jobs.Traces.{Step, here, next, claim, report, Reach-IsValid}
use sniper_synapse.Jobs.Traces.Excludes.{none_yet, and_then, claim_excludes}
use sniper_synapse.Jobs.Services.{report_counts}
use sniper_synapse.Jobs.Traces.Becomes.{Becomes, SameButCounters, Step-Becomes, Reach-frozen}
use sniper_synapse.Jobs.Recovery.{recovery_passes_max_attempts}

abbrev blank : Job
blank = record {
  id = 1;
  type = noop;
  status = pending;
  payload = [];
  idempotency_key = none;
  priority = pos 0;
  attempt_count = 0;
  max_attempts = 3;
  run_after = 10;
  lock_owner = "";
  lock_expires_at = none;
  heartbeat_at = none;
  started_at = none;
  finished_at = none;
  records_processed = 0;
  records_success = 0;
  records_failed = 0;
  error_summary = "";
  created_at = 5;
  updated_at = 5;
}

abbrev urgent : Job
urgent = record blank { id = 2; priority = pos 30; run_after = 15 }

abbrev done : Job
done = record blank { id = 3; status = succeeded; priority = pos 90 }

abbrev queue : Queue
queue = record { jobs = blank ∷ urgent ∷ done ∷ []; attempts = [] }

abbrev free : ℕ → Bool
free _ = false

abbrev urgent_claimed : Job
urgent_claimed = record urgent {
  status = running;
  attempt_count = 1;
  lock_owner = "a";
  lock_expires_at = some 320;
  heartbeat_at = some 20;
  started_at = some 20;
  updated_at = 20;
}

abbrev attempt : JobAttempt
attempt = record {
  job = 2;
  attempt_number = 1;
  worker_id = "a";
  started_at = 20;
  finished_at = none;
  succeeded = none;
  error_detail = "";
}

abbrev queue_claimed : Queue
queue_claimed = record { jobs = blank ∷ urgent_claimed ∷ done ∷ []; attempts = attempt ∷ [] }

claims_urgent : claim_next_job free 20 "a" 300 queue ≡ ok (queue_claimed, some urgent_claimed)
unfolding claim_next_job recover first_in_order pick before is_claimable take_job create_attempt
    claimed new_attempt
claims_urgent = refl

queue-IsValid : IsValid queue
queue-IsValid = ground arith

claim-Selects_example : Selects free 20 300 "a" queue (some urgent_claimed)
claim-Selects_example =
    claim-Selects free 20 300 "a" queue queue_claimed (some urgent_claimed) claims_urgent

a-ne-b : ◌≢◌ {A = String} "a" "b"
a-ne-b e = false≢true ((eq_iff "a" "b").1 e)

abbrev blank_claimed : Job
blank_claimed = record blank {
  status = running;
  attempt_count = 1;
  lock_owner = "b";
  lock_expires_at = some 350;
  heartbeat_at = some 50;
  started_at = some 50;
  updated_at = 50;
}

abbrev both_claimed : Queue
both_claimed = record {
  jobs = blank_claimed ∷ urgent_claimed ∷ done ∷ [];
  attempts = attempt ∷ record attempt { job = 1; worker_id = "b"; started_at = 50 } ∷ [];
}

claims_blank : claim_next_job free 50 "b" 300 queue_claimed ≡ ok (both_claimed, some blank_claimed)
unfolding claim_next_job recover first_in_order pick before is_claimable take_job create_attempt
    claimed new_attempt
claims_blank = refl

-- Another worker claims the other job, and a handler counts a record of this one.
claim_excludes_example :
    let later = report_counts 2 (some 1) none none both_claimed in
    (mark_succeeded 75 2 "b" later ≡ err lease_lost)
    × (mark_failed 75 2 "b" "late" later ≡ err lease_lost)
claim_excludes_example =
    claim_excludes free 20 300 "a" "b" queue queue_claimed
      (report_counts 2 (some 1) none none both_claimed) urgent_claimed queue-IsValid claims_urgent
      (and_then
        (and_then none_yet (claim free 50 300 "b" (some blank_claimed) claims_blank) (omega arith))
        (report 2 (some 1) none none refl) tt)
      a-ne-b 75 "late"

mark_failed_backoff_example :
    (q' : Queue) × (row : Job) × (mark_failed 30 2 "a" "oops" queue_claimed ≡ ok q')
    × (first_where (has_id 2) q'.jobs ≡ some row)
    × (31 ≤ row.run_after)
    × (row.run_after ≤ 330)
    × (1 < 3 → row.status ≡ retry_scheduled)
    × (3 ≤ 1 → row.status ≡ failed)
mark_failed_backoff_example =
    mark_failed_backoff 30 2 "a" "oops" queue_claimed urgent_claimed refl refl refl

claim-Step : Step queue queue_claimed
claim-Step = claim free 20 300 "a" (some urgent_claimed) claims_urgent

Reach-IsValid_example : IsValid queue_claimed
Reach-IsValid_example = Reach-IsValid (next here claim-Step) queue-IsValid

Step-Becomes_example : Becomes 2 urgent queue_claimed.jobs
Step-Becomes_example = Step-Becomes 2 urgent queue-IsValid refl claim-Step

Reach-frozen_example :
    (k : Job) × (first_where (has_id 3) queue_claimed.jobs ≡ some k) × SameButCounters done k
Reach-frozen_example = Reach-frozen 3 done queue-IsValid refl refl (next here claim-Step)

-- A third attempt of three whose worker died.
abbrev orphan : Job
orphan = record blank {
  status = running;
  attempt_count = 3;
  lock_owner = "dead";
  lock_expires_at = some 15;
}

recovery_passes_max_attempts_example :
    (q' : Queue) × (job' : Job) × (claim_next_job free 20 "a" 300
        (record { jobs = orphan ∷ []; attempts = [] })
      ≡ ok (q', some job'))
    × (job'.status ≡ running)
    × (job'.max_attempts < job'.attempt_count)
recovery_passes_max_attempts_example =
    recovery_passes_max_attempts free 20 300 15 "a" orphan [] refl refl (omega arith) (omega arith)
      refl tt (omega arith)

renew_too_short : renew_job_lease 25 2 "a" 0 queue_claimed ≡ err bad_lock_seconds
unfolding renew_job_lease
renew_too_short = refl

abbrev lost_round : Round
lost_round = record {
  locked = free;
  claimed_at = 20;
  during = λ job q. q;
  execution = returned;
  lost = true;
  closed_at = 30;
}

abbrev quiet_round : Round
quiet_round = record lost_round { lost = false }

abbrev id_text : ℕ → String
id_text _ = "id"

-- The urgent job first, then the other; a lost lease turns the second into a failure.
two_rounds :
    (handle id_text false "a" 300 (quiet_round ∷ lost_round ∷ quiet_round ∷ []) queue).1
    ≡ succeeded_report ∷ failed_report ∷ idle ∷ []
unfolding handle iteration after_claim close_job failure claim_next_job recover first_in_order pick
    before is_claimable take_job create_attempt claimed new_attempt mark_succeeded mark_failed
    owned_running_job check_owner succeeded_row failed_row take_text
two_rounds = refl

iteration-Closes_example :
    let out = iteration id_text "a" 300 lost_round queue in
    (urgent_claimed.lock_owner ≢ "a" → out ≡ (queue_claimed, discarded))
    × (urgent_claimed.status ≡ running
        → urgent_claimed.lock_owner ≡ "a"
        → (lost_round.execution ≡ returned → lost_round.lost ≡ false → Succeeds 2 out)
          × ((lost_round.lost ≡ true) ⊎ ((m : String) × (lost_round.execution ≡ raised m))
              → Fails 2 urgent_claimed out))
iteration-Closes_example =
    iteration-Closes id_text "a" 300 lost_round queue queue_claimed urgent_claimed urgent_claimed
      claims_urgent refl
