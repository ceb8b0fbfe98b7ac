-- ===== src/Jobs/Traces.antt =====
-- Any interleaving of the transactions of any workers, as a step relation on the queue.
pub mod Becomes
pub mod Excludes
use mathlib.Core.Path.{subst}
use sniper_synapse.Base.{
  ℕ, ◌≤◌, String, ◌≡◌, refl, sym, Bool, true, false, Option, none, some, List, arith, if◌then◌else◌,
  first_where, Bool-cases, inl, inr, and-true, ◌⊎◌, ltb, update_where, All-update_where, [], ◌∷◌,
}
use sniper_synapse.Jobs.Models.{
  Status, pending, running, retry_scheduled, succeeded, failed, cancelled, Job, Queue,
}
use sniper_synapse.Jobs.Order.{IsFirst, first_in_order-IsFirst}
use sniper_synapse.Jobs.Invariant.{
  Distinct, IsValid, IsConsistent, Counts, KeepsId, Distinct-update_where, find-update_where,
  find-of_mem,
}
use sniper_synapse.Jobs.Lease.{available, take_job-none, take_job-some}
use sniper_synapse.Jobs.Keeps.{
  OnOk, claim-IsValid, renew-IsValid, succeeded-IsValid, failed-IsValid, save-keeps-id,
  recover-keeps-id,
}
use sniper_synapse.Jobs.Services.{
  Result, ok, err, has_id, save, recover, release, is_recoverable, claimed, claim_next_job,
  renew_job_lease, mark_succeeded, mark_failed, renewed, succeeded_row, failed_row, is_running,
  is_waiting, is_claimable, report_counts, counted_row, take_job, owned_running_job, check_owner,
  ◌>>=◌, owns, first_in_order,
}

-- One transaction, of any worker at any instant; `report` is the counters' update of a handler.
pub data Step (q : Queue) (q' : Queue) : Type 0 where
  claim :
      (locked : ℕ → Bool) (now lock_seconds : ℕ) (worker_id : String) (o : Option Job)
      → claim_next_job locked now worker_id lock_seconds q ≡ ok (q', o)
      → Step q q'
  renew :
      (now job_id lock_seconds : ℕ) (worker_id : String) (done : Bool)
      → renew_job_lease now job_id worker_id lock_seconds q ≡ ok (q', done)
      → Step q q'
  succeed :
      (now job_id : ℕ) (worker_id : String)
      → mark_succeeded now job_id worker_id q ≡ ok q'
      → Step q q'
  fail :
      (now job_id : ℕ) (worker_id message : String)
      → mark_failed now job_id worker_id message q ≡ ok q'
      → Step q q'
  report :
      (job_id : ℕ) (processed successes failures : Option ℕ)
      → report_counts job_id processed successes failures q ≡ q'
      → Step q q'

pub data Reach (q : Queue) : Queue → Type 0 where
  here : Reach q q
  next : {r s : Queue} → Reach q r → Step r s → Reach q s

pub counted-keeps-id :
    (id : ℕ) (processed successes failures : Option ℕ)
    → KeepsId (has_id id) (counted_row processed successes failures)
unfolding counted_row
counted-keeps-id id processed successes failures x h = refl

report-IsValid :
    (id : ℕ) (processed successes failures : Option ℕ) (q : Queue)
    → IsValid q
    → IsValid (report_counts id processed successes failures q)
unfolding report_counts counted_row
report-IsValid id processed successes failures q v = record {
  consistent =
      All-update_where IsConsistent IsConsistent (has_id id)
        (counted_row processed successes failures) q.jobs
        (λ j c. elim (Bool-cases (has_id id j)) [
          | inl y ↦ rw y (record {
            running_leased = c.running_leased;
            idle_owner = c.idle_owner;
            idle_lease = c.idle_lease;
          })
          | inr n ↦ rw n c
        ])
        v.consistent;
  counted =
      All-update_where (Counts q.attempts) (Counts q.attempts) (has_id id)
        (counted_row processed successes failures) q.jobs
        (λ j c. elim (Bool-cases (has_id id j)) [ inl y ↦ rw y c | inr n ↦ rw n c ]) v.counted;
  distinct =
      Distinct-update_where (has_id id) (counted_row processed successes failures) q.jobs
        (counted-keeps-id id processed successes failures) v.distinct;
}

pub OnOk-eq {κ} : {A : Type 0} (P : A → Type κ) (r : Result A) (a : A) → OnOk P r → r ≡ ok a → P a
OnOk-eq P r a h e = rw e at h

pub Step-IsValid : {q q' : Queue} → Step q q' → IsValid q → IsValid q'
Step-IsValid {q} {q'} (claim locked now lock worker o e) v =
    let (out, f, w) = claim-IsValid locked now lock worker q v in
    let same : out.0 ≡ q' = ground arith in rw same at w
Step-IsValid {q} {q'} (renew now id lock worker done e) v =
    OnOk-eq (λ out. IsValid out.0) _ (q', done) (renew-IsValid now id worker lock q v) e
Step-IsValid {q} {q'} (succeed now id worker e) v =
    OnOk-eq IsValid _ q' (succeeded-IsValid now id worker q v) e
Step-IsValid {q} {q'} (fail now id worker message e) v =
    OnOk-eq IsValid _ q' (failed-IsValid now id worker message q v) e
Step-IsValid {q} {q'} (report id processed successes failures e) v =
    rw (sym e) (report-IsValid id processed successes failures q v)

-- From a valid queue every interleaving of transactions leads to valid queues.
pub Reach-IsValid : {q q' : Queue} → Reach q q' → IsValid q → IsValid q'
Reach-IsValid here v = v
Reach-IsValid (next r s) v = Step-IsValid s (Reach-IsValid r v)
