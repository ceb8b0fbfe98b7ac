-- ===== src/Jobs/Worker.antt =====
-- The loop of apps/jobs/management/commands/run_worker.py. What the program does not decide (the
-- clock, rows locked elsewhere, the handler's outcome, the writes of others while it runs) is
-- given for each iteration.
pub mod Rounds
use Prim.Native.String.{◌++◌}
use sniper_synapse.Base.{ℕ, String, Bool, true, false, Option, none, some, List, [], ◌∷◌}
use sniper_synapse.Jobs.Models.{Job, Queue}
use sniper_synapse.Jobs.Services.{
  QueueError, lease_lost, Result, ok, err, claim_next_job, mark_failed, mark_succeeded,
}

-- How `execute_job` ended; a raised exception is its formatted `type: text`.
pub data Execution : Type 0 where
  returned : Execution
  raised : String → Execution

pub record Round : Type 0 where
  pub locked : ℕ → Bool
  pub claimed_at : ℕ
  pub during : Job → Queue → Queue
  pub execution : Execution
  pub lost : Bool
  pub closed_at : ℕ

-- What an iteration reports; `crashed` is an exception that leaves the loop.
pub data Report : Type 0 where
  idle succeeded_report failed_report discarded : Report
  crashed : QueueError → Report

-- `str(job.id)` is given, since a primary key is a number here.
abbrev pub lost_message : String → String
lost_message id = "JobLeaseLost: Worker lease was lost for job " ++ id

-- `if lease.lost: raise JobLeaseLost(...)` is reached only if the handler returned.
unfoldable pub failure : String → Execution → Bool → Option String
failure id (raised message) lost = some message
failure id returned true = some (lost_message id)
failure id returned false = none

abbrev pub closed : Result Queue → Queue → Report → Queue × Report
closed (ok q') q report = (q', report)
closed (err lease_lost) q report = (q, discarded)
closed (err e) q report = (q, crashed e)

unfoldable pub close_job : ℕ → String → Job → Option String → Queue → Queue × Report
close_job now worker_id job (some message) q =
    closed (mark_failed now job.id worker_id message q) q failed_report
close_job now worker_id job none q =
    closed (mark_succeeded now job.id worker_id q) q succeeded_report

unfoldable pub after_claim :
    (ℕ → String) → String → Round → Queue → Result (Queue × Option Job) → Queue × Report
after_claim id_text worker_id round q (err e) = (q, crashed e)
after_claim id_text worker_id round q (ok (q', none)) = (q', idle)
after_claim id_text worker_id round q (ok (q', some job)) =
    close_job round.closed_at worker_id job (failure (id_text job.id) round.execution round.lost)
      (round.during job q')

unfoldable pub iteration : (ℕ → String) → String → ℕ → Round → Queue → Queue × Report
iteration id_text worker_id lock_seconds round q =
    after_claim id_text worker_id round q
      (claim_next_job round.locked round.claimed_at worker_id lock_seconds q)

abbrev pub stops : Bool → Report → Bool
stops once (crashed e) = true
stops once _ = once

-- `while True`, over the rounds that the environment gives.
unfoldable pub handle : (ℕ → String) → Bool → String → ℕ → List Round → Queue → Queue × List Report
handle id_text once worker_id lock_seconds [] q = (q, [])
handle id_text once worker_id lock_seconds (round ∷ rounds) q =
    let (q', report) = iteration id_text worker_id lock_seconds round q in
    elim (stops once report) [
      | true ↦ (q', report ∷ [])
      | false ↦
          let (q'', reports) = handle id_text once worker_id lock_seconds rounds q' in
          (q'', report ∷ reports)
    ]
