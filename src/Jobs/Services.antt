-- ===== src/Jobs/Services.antt =====
-- apps/jobs/services.py: claiming, renewing and closing a job. Each function is one database
-- transaction: a raised exception rolls it back, so an error carries no queue. The clock's value
-- is the argument `now`.
use Prim.Native.String.{[] as nil, ◌∷◌ as cons}
use sniper_synapse.Base.{
  ℕ, zero, suc, ◌+◌, ◌^◌, min, String, Bool, true, false, ◌&&◌, ◌||◌, not, Option, none, some, List,
  [], ◌∷◌, ◌++◌, ltb, leb, ◌==◌, str_eq, if◌then◌else◌, any, update_where, first_where,
}
use sniper_synapse.Base.Int.{ltb_ℤ}
use sniper_synapse.Jobs.Models.{
  Status, pending, running, retry_scheduled, succeeded, failed, Job, JobAttempt, Queue,
}

pub data QueueError : Type 0 where
  lease_lost does_not_exist integrity_error bad_lock_seconds : QueueError

pub data Result {ℓ} (A : Type ℓ) : Type ℓ where
  ok : A → Result A
  err : QueueError → Result A

infixl 5 ◌>>=◌
abbrev pub ◌>>=◌ {ℓ κ} : {A : Type ℓ} {B : Type κ} → Result A → (A → Result B) → Result B
ok a >>= f = f a
err e >>= f = err e

abbrev pub is_running : Status → Bool
is_running running = true
is_running _ = false

-- `lock_expires_at__lt=now`: a null never compares.
abbrev pub expired : Option ℕ → ℕ → Bool
expired none now = false
expired (some t) now = ltb t now

abbrev pub is_recoverable : ℕ → Job → Bool
is_recoverable now job = is_running job.status && expired job.lock_expires_at now

abbrev pub release : Job → Job
release job = record job { status = retry_scheduled; lock_owner = ""; lock_expires_at = none }

unfoldable pub recover : ℕ → List Job → List Job
recover now jobs = update_where (is_recoverable now) release jobs

abbrev pub is_waiting : Status → Bool
is_waiting pending = true
is_waiting retry_scheduled = true
is_waiting _ = false

unfoldable pub is_claimable : ℕ → Job → Bool
is_claimable now job = is_waiting job.status && leb job.run_after now

-- `.order_by("-priority", "run_after", "created_at")`, read as a strict order.
unfoldable pub before : Job → Job → Bool
before j k =
    ltb_ℤ k.priority j.priority
    || (not (ltb_ℤ j.priority k.priority)
        && (ltb j.run_after k.run_after
            || (j.run_after == k.run_after && ltb j.created_at k.created_at)))

unfoldable pub pick : Job → Option Job → Job
pick j none = j
pick j (some k) = if before k j then k else j

-- `.order_by(...).first()` over the rows that pass the filter.
unfoldable pub first_in_order : (Job → Bool) → List Job → Option Job
first_in_order p [] = none
first_in_order p (j ∷ js) =
    let rest = first_in_order p js in if p j then some (pick j rest) else rest

-- The claimed row, as `job.save(update_fields=...)` writes it.
unfoldable pub claimed : ℕ → String → ℕ → Job → Job
claimed now worker_id lock_seconds job = record job {
  status = running;
  attempt_count = job.attempt_count + 1;
  lock_owner = worker_id;
  lock_expires_at = some (now + lock_seconds);
  heartbeat_at = some now;
  started_at = elim job.started_at [ none ↦ some now | some t ↦ some t ];
  updated_at = now;
}

abbrev pub has_id : ℕ → Job → Bool
has_id id job = job.id == id

abbrev pub save : Job → List Job → List Job
save job = update_where (has_id job.id) (λ _. job)

abbrev pub is_attempt : ℕ → ℕ → JobAttempt → Bool
is_attempt job number a = a.job == job && a.attempt_number == number

unfoldable pub new_attempt : Job → String → ℕ → JobAttempt
new_attempt job worker_id now = record {
  job = job.id;
  attempt_number = job.attempt_count;
  worker_id = worker_id;
  started_at = now;
  finished_at = none;
  succeeded = none;
  error_detail = "";
}

-- `JobAttempt.objects.create(...)` under the constraint `unique_job_attempt_number`.
unfoldable pub create_attempt : Job → String → ℕ → List JobAttempt → Result (List JobAttempt)
unfolding new_attempt
create_attempt job worker_id now attempts =
    if any (is_attempt job.id job.attempt_count) attempts
    then err integrity_error
    else ok (attempts ++ new_attempt job worker_id now ∷ [])

-- What follows the selection of `job`.
unfoldable pub take_job :
    ℕ → String → ℕ → Option Job → List Job → List JobAttempt → Result (Queue × Option Job)
take_job now worker_id lock_seconds none jobs attempts =
    ok (record { jobs = jobs; attempts = attempts }, none)
take_job now worker_id lock_seconds (some job) jobs attempts = do
  let job' = claimed now worker_id lock_seconds job
  attempts' ← create_attempt job' worker_id now attempts
  ok (record { jobs = save job' jobs; attempts = attempts' }, some job')

-- `locked` are the rows that other transactions hold, which `skip_locked=True` passes over.
unfoldable pub claim_next_job : (ℕ → Bool) → ℕ → String → ℕ → Queue → Result (Queue × Option Job)
unfolding take_job
claim_next_job locked now worker_id lock_seconds q =
    let jobs = recover now q.jobs in
    let job = first_in_order (λ j. is_claimable now j && not (locked j.id)) jobs in
    take_job now worker_id lock_seconds job jobs q.attempts

abbrev pub owns : ℕ → String → Job → Bool
owns job_id worker_id job =
    has_id job_id job && is_running job.status && str_eq job.lock_owner worker_id

unfoldable pub renewed : ℕ → ℕ → Job → Job
renewed now lock_seconds job = record job {
  heartbeat_at = some now;
  lock_expires_at = some (now + lock_seconds);
}

unfoldable pub renew_job_lease : ℕ → ℕ → String → ℕ → Queue → Result (Queue × Bool)
renew_job_lease now job_id worker_id lock_seconds q =
    if ltb lock_seconds 1
    then err bad_lock_seconds
    else ok (
      record q { jobs = update_where (owns job_id worker_id) (renewed now lock_seconds) q.jobs },
      any (owns job_id worker_id) q.jobs,
    )

unfoldable pub check_owner : String → Option Job → Result Job
check_owner worker_id none = err does_not_exist
check_owner worker_id (some job) =
    if not (is_running job.status) || not (str_eq job.lock_owner worker_id)
    then err lease_lost
    else ok job

unfoldable pub owned_running_job : ℕ → String → Queue → Result Job
unfolding check_owner
owned_running_job job_id worker_id q = check_owner worker_id (first_where (has_id job_id) q.jobs)

-- `text[:n]`, by characters.
unfoldable pub take_text : ℕ → String → String
take_text zero s = nil
take_text (suc n) nil = nil
take_text (suc n) (cons c s) = cons c (take_text n s)

-- The row that `mark_succeeded` saves.
unfoldable pub succeeded_row : ℕ → Job → Job
succeeded_row now job = record job {
  status = succeeded;
  finished_at = some now;
  lock_owner = "";
  lock_expires_at = none;
  error_summary = "";
  updated_at = now;
}

unfoldable pub mark_succeeded : ℕ → ℕ → String → Queue → Result Queue
mark_succeeded now job_id worker_id q = do
  job ← owned_running_job job_id worker_id q
  ok (record {
    jobs = save (succeeded_row now job) q.jobs;
    attempts =
        update_where (is_attempt job.id job.attempt_count)
          (λ a. record a { finished_at = some now; succeeded = some true }) q.attempts;
  })

-- The row that `mark_failed` saves.
unfoldable pub failed_row : ℕ → String → Job → Job
failed_row now message job =
    let retry = ltb job.attempt_count job.max_attempts in
    record job {
      status = if retry then retry_scheduled else failed;
      run_after = now + min 300 (2 ^ job.attempt_count);
      finished_at = if retry then none else some now;
      lock_owner = "";
      lock_expires_at = none;
      error_summary = take_text 2000 message;
      updated_at = now;
    }

unfoldable pub mark_failed : ℕ → ℕ → String → String → Queue → Result Queue
mark_failed now job_id worker_id message q = do
  job ← owned_running_job job_id worker_id q
  ok (record {
    jobs = save (failed_row now message job) q.jobs;
    attempts =
        update_where (is_attempt job.id job.attempt_count)
          (λ a. record a {
            finished_at = some now;
            succeeded = some false;
            error_detail = take_text 10000 message;
          })
          q.attempts;
  })

-- `Job.objects.filter(pk=job.pk).update(...)` of `execute_job` and of the handlers: the counters
-- that are given are written, whatever the status and the owner of the row.
abbrev pub or_before : ℕ → Option ℕ → ℕ
or_before old none = old
or_before old (some n) = n

unfoldable pub counted_row : Option ℕ → Option ℕ → Option ℕ → Job → Job
counted_row processed successes failures job = record job {
  records_processed = or_before job.records_processed processed;
  records_success = or_before job.records_success successes;
  records_failed = or_before job.records_failed failures;
}

unfoldable pub report_counts : ℕ → Option ℕ → Option ℕ → Option ℕ → Queue → Queue
report_counts job_id processed successes failures q = record q {
  jobs = update_where (has_id job_id) (counted_row processed successes failures) q.jobs;
}
