-- ===== src/Jobs/Traces/Becomes.antt =====
-- What the interleaved transactions do to each row: the state diagram and the finished jobs.
use mathlib.Core.Path.{subst}
use sniper_synapse.Base.{
  ℕ, ◌≤◌, String, ◌≡◌, refl, sym, Bool, true, false, Option, none, some, List, arith, if◌then◌else◌,
  first_where, Bool-cases, inl, inr, and-true, ◌⊎◌, ltb, update_where, [], ◌∷◌, ap, ◌∙◌,
}
use sniper_synapse.Jobs.Models.{
  Status, pending, running, retry_scheduled, succeeded, failed, cancelled, Job, Queue,
}
use sniper_synapse.Jobs.Order.{IsFirst, first_in_order-IsFirst}
use sniper_synapse.Jobs.Invariant.{
  Distinct, IsValid, KeepsId, Distinct-update_where, find-update_where, find-of_mem,
}
use sniper_synapse.Jobs.Lease.{available, take_job-none, take_job-some}
use sniper_synapse.Jobs.Keeps.{save-keeps-id, recover-keeps-id}
use sniper_synapse.Jobs.Services.{
  Result, ok, err, has_id, save, recover, release, is_recoverable, claimed, claim_next_job,
  renew_job_lease, mark_succeeded, mark_failed, renewed, succeeded_row, failed_row, is_running,
  is_waiting, is_claimable, report_counts, counted_row, take_job, owned_running_job, check_owner,
  ◌>>=◌, owns, first_in_order,
}
use sniper_synapse.Jobs.Traces.{
  Step, Reach, claim, renew, succeed, fail, report, counted-keeps-id, here, next, Reach-IsValid,
}

-- The state diagram of a job, with a step that changes no status left in.
pub data Edge : Status → Status → Type 0 where
  stay : {s : Status} → Edge s s
  start : Edge pending running
  restart : Edge retry_scheduled running
  expire : Edge running retry_scheduled
  finish : Edge running succeeded
  give_up : Edge running failed

abbrev pub is_terminal : Status → Bool
is_terminal succeeded = true
is_terminal failed = true
is_terminal cancelled = true
is_terminal _ = false

-- The row as it was, but for its three counters of records.
abbrev pub SameButCounters : Job → Job → Type 0
SameButCounters j k = k ≡ record j {
  records_processed = k.records_processed;
  records_success = k.records_success;
  records_failed = k.records_failed;
}

SameButCounters-trans :
    (i j k : Job) → SameButCounters i j → SameButCounters j k → SameButCounters i k
SameButCounters-trans i j k p q =
    q
    ∙ ap {A = Job}
        (λ x. record x {
          records_processed = k.records_processed;
          records_success = k.records_success;
          records_failed = k.records_failed;
        })
        p

-- What a transaction may do to a row.
pub record Change (j k : Job) : Type 0 where
  pub edge : Edge j.status k.status
  pub counted : j.attempt_count ≤ k.attempt_count
  pub frozen : is_terminal j.status ≡ true → SameButCounters j k

Change-refl : (j : Job) → Change j j
Change-refl j = record { edge = stay; counted = omega arith; frozen = λ h. refl }

waiting-Edge : (s : Status) → is_waiting s ≡ true → Edge s running
waiting-Edge pending h = start
waiting-Edge retry_scheduled h = restart
waiting-Edge running h = cc
waiting-Edge succeeded h = cc
waiting-Edge failed h = cc
waiting-Edge cancelled h = cc

running-Edge : (s t : Status) → is_running s ≡ true → Edge running t → Edge s t
running-Edge running t h e = e
running-Edge pending t h e = cc
running-Edge retry_scheduled t h e = cc
running-Edge succeeded t h e = cc
running-Edge failed t h e = cc
running-Edge cancelled t h e = cc

abbrev pub recovered : ℕ → Job → Job
recovered now j = if is_recoverable now j then release j else j

-- A row whose lease ran out, or any other.
Change-recovered : (now : ℕ) (j : Job) → Change j (recovered now j)
Change-recovered now j = elim (Bool-cases (is_recoverable now j)) [
  | inr n ↦ rw n (Change-refl j)
  | inl y ↦ rw y (record {
    edge = running-Edge j.status retry_scheduled (and-true _ _ y).0 expire;
    counted = omega arith;
    frozen = λ h. ground arith;
  })
]

Change-claimed :
    (now lock_seconds : ℕ) (worker_id : String) (j : Job)
    → is_claimable now (recovered now j) ≡ true
    → Change j (claimed now worker_id lock_seconds (recovered now j))
unfolding claimed is_claimable
Change-claimed now lock_seconds worker_id j c = elim (Bool-cases (is_recoverable now j)) [
  | inr n ↦ record {
    edge = waiting-Edge j.status (ground arith);
    counted = ground arith;
    frozen = λ h. ground arith;
  }
  | inl y ↦ record {
    edge = running-Edge j.status running (and-true _ _ y).0 stay;
    counted = ground arith;
    frozen = λ h. ground arith;
  }
]

pub find-id : (id : ℕ) (js : List Job) (j : Job) → first_where (has_id id) js ≡ some j → j.id ≡ id
find-id id [] j e = cc
find-id id (k ∷ js) j e = ground (arith, find-id id js j)

-- Saving another version of a row leaves each key its row, but for the key of that row.
pub save-find :
    (id : ℕ) (js : List Job) (r row k : Job)
    → first_where (has_id id) js ≡ some r
    → k.id ≡ row.id
    → first_where (has_id row.id) js ≡ some row
    → (first_where (has_id id) (save k js) ≡ some r)
      ⊎ ((first_where (has_id id) (save k js) ≡ some k) × (row ≡ r))
save-find id js r row k e ki f =
    let saved = find-update_where (has_id k.id) (λ _. k) id js r (save-keeps-id k) e in
    elim (Bool-cases (has_id k.id r)) [
      | inr n ↦ inl (rw saved (rw n))
      | inl y ↦
          let at_id : row.id ≡ id = ground (arith, find-id id js r e) in
          let f' : first_where (has_id id) js ≡ some row =
            subst (λ i. first_where (has_id i) js ≡ some row) at_id f in
          inr (rw saved (rw y), ground arith)
    ]

-- What a write leaves at a primary key.
abbrev pub Becomes : ℕ → Job → List Job → Type 0
Becomes id j js = (k : Job) × (first_where (has_id id) js ≡ some k) × Change j k

module _ (id : ℕ) (j : Job) (q : Queue) (e : first_where (has_id id) q.jobs ≡ some j) where
  pub recover-find :
      (now : ℕ) → first_where (has_id id) (recover now q.jobs) ≡ some (recovered now j)
  unfolding recover
  recover-find now =
      find-update_where (is_recoverable now) release id q.jobs j (recover-keeps-id now) e

  claim-Becomes :
      (locked : ℕ → Bool) (now lock_seconds : ℕ) (worker_id : String)
      → Distinct (recover now q.jobs)
      → (found : Option Job)
      → IsFirst (available locked now lock_seconds worker_id q) (recover now q.jobs) found
      → (q' : Queue) (o : Option Job)
      → take_job now worker_id lock_seconds found (recover now q.jobs) q.attempts ≡ ok (q', o)
      → Becomes id j q'.jobs
  claim-Becomes locked now lock_seconds worker_id d none f q' o t =
      rw (take_job-none now lock_seconds worker_id (recover now q.jobs) q.attempts q' o t).1
        (recovered now j, recover-find now, Change-recovered now j)
  claim-Becomes locked now lock_seconds worker_id d (some row) f q' o t =
      let js = recover now q.jobs in
      let k = claimed now worker_id lock_seconds row in
      let c : is_claimable now row ≡ true = (and-true _ _ f.1).0 in
      rw (take_job-some now lock_seconds worker_id js q.attempts row q' o t).1
        (elim (save-find id js (recovered now j) row k (recover-find now) (unfold claimed in refl)
          (find-of_mem row js d f.0)) [
            | inl other ↦ (recovered now j, other, Change-recovered now j)
            | inr (same, is_row) ↦
                let c' : is_claimable now (recovered now j) ≡ true = rw is_row at c in
                (
                  k,
                  same,
                  subst (λ r. Change j (claimed now worker_id lock_seconds r)) (sym is_row)
                      (Change-claimed now lock_seconds worker_id j c'),
                )
          ])

  -- The row that a worker closes, in its new version.
  close-Becomes :
      (job_id : ℕ) (worker_id : String) (row k : Job)
      → owned_running_job job_id worker_id q ≡ ok row
      → k.id ≡ row.id
      → Change row k
      → Becomes id j (save k q.jobs)
  unfolding owned_running_job check_owner
  close-Becomes job_id worker_id row k o ki c =
      let found : first_where (has_id job_id) q.jobs ≡ some row = ground arith in
      let same_id = find-id job_id q.jobs row found in
      let f : first_where (has_id row.id) q.jobs ≡ some row =
        subst (λ i. first_where (has_id i) q.jobs ≡ some row) (sym same_id) found in
      elim (save-find id q.jobs j row k e ki f) [
        | inl other ↦ (j, other, Change-refl j)
        | inr (saved, is_row) ↦ (k, saved, subst (λ r. Change r k) is_row c)
      ]

pub bind-ok {ℓ κ} :
    {A : Type ℓ} {B : Type κ} (first : Result A) (rest : A → Result B) {end : B}
    → (first >>= rest) ≡ ok end
    → (value : A) × (first ≡ ok value) × (rest value ≡ ok end)
bind-ok (ok value) rest h = (value, refl, h)
bind-ok (err e) f h = cc

owned-running :
    (job_id : ℕ) (worker_id : String) (q : Queue) (row : Job)
    → owned_running_job job_id worker_id q ≡ ok row
    → is_running row.status ≡ true
unfolding owned_running_job check_owner
owned-running job_id worker_id q row o = ground arith

Change-succeeded : (now : ℕ) (j : Job) → is_running j.status ≡ true → Change j (succeeded_row now j)
unfolding succeeded_row
Change-succeeded now j r = record {
  edge = running-Edge j.status succeeded r finish;
  counted = omega arith;
  frozen = λ h. ground arith;
}

Change-failed :
    (now : ℕ) (message : String) (j : Job)
    → is_running j.status ≡ true
    → Change j (failed_row now message j)
unfolding failed_row
Change-failed now message j r = record {
  edge = elim (Bool-cases (ltb j.attempt_count j.max_attempts)) [
    | inl y ↦ rw y (running-Edge j.status retry_scheduled r expire)
    | inr n ↦ rw n (running-Edge j.status failed r give_up)
  ];
  counted = omega arith;
  frozen = λ h. ground arith;
}

pub renewed-keeps-id :
    (now job_id lock_seconds : ℕ) (worker_id : String)
    → KeepsId (owns job_id worker_id) (renewed now lock_seconds)
unfolding renewed
renewed-keeps-id now job_id lock_seconds worker_id x h = refl

Change-renewed :
    (now job_id lock_seconds : ℕ) (worker_id : String) (j : Job)
    → Change j (if owns job_id worker_id j then renewed now lock_seconds j else j)
unfolding renewed
Change-renewed now job_id lock_seconds worker_id j = elim (Bool-cases (owns job_id worker_id j)) [
  | inr n ↦ rw n (Change-refl j)
  | inl y ↦ rw y (record { edge = stay; counted = omega arith; frozen = λ h. ground arith })
]

Change-counted :
    (id : ℕ) (processed successes failures : Option ℕ) (j : Job)
    → Change j (if has_id id j then counted_row processed successes failures j else j)
unfolding counted_row
Change-counted id processed successes failures j = elim (Bool-cases (has_id id j)) [
  | inr n ↦ rw n (Change-refl j)
  | inl y ↦ rw y (record { edge = stay; counted = omega arith; frozen = λ h. refl })
]

-- Every transaction of every worker, the counters' updates of the handlers included, moves each job
-- along the state diagram, never lowers its count of attempts, and changes nothing in a succeeded,
-- failed or cancelled job but its three counters of records.
pub Step-Becomes :
    (id : ℕ) (j : Job) {q q' : Queue}
    → IsValid q
    → first_where (has_id id) q.jobs ≡ some j
    → Step q q'
    → Becomes id j q'.jobs
unfolding claim_next_job renew_job_lease mark_succeeded mark_failed report_counts
Step-Becomes id j {q} {q'} v e (claim locked now lock worker o t) =
    claim-Becomes id j q e locked now lock worker
      (unfold recover in Distinct-update_where _ _ q.jobs (recover-keeps-id now) v.distinct)
      (first_in_order _ (recover now q.jobs))
      (first_in_order-IsFirst (available locked now lock worker q) (recover now q.jobs)) q' o t
Step-Becomes id j {q} {q'} v e (renew now job lock worker done t) =
    let jobs' : q'.jobs ≡ update_where (owns job worker) (renewed now lock) q.jobs = ground arith in
    rw jobs' (
      (if owns job worker j then renewed now lock j else j),
      find-update_where (owns job worker) (renewed now lock) id q.jobs j
          (renewed-keeps-id now job lock worker) e,
      Change-renewed now job lock worker j,
    )
Step-Becomes id j {q} {q'} v e (succeed now job worker t) =
    let (row, o, w) = bind-ok (owned_running_job job worker q) _ t in
    let jobs' : q'.jobs ≡ save (succeeded_row now row) q.jobs = ground arith in
    rw jobs' (
      close-Becomes id j q e job worker row (succeeded_row now row) o (unfold succeeded_row in refl)
        (Change-succeeded now row (owned-running job worker q row o)))
Step-Becomes id j {q} {q'} v e (fail now job worker message t) =
    let (row, o, w) = bind-ok (owned_running_job job worker q) _ t in
    let jobs' : q'.jobs ≡ save (failed_row now message row) q.jobs = ground arith in
    rw jobs' (
      close-Becomes id j q e job worker row (failed_row now message row) o
        (unfold failed_row in refl)
        (Change-failed now message row (owned-running job worker q row o)))
Step-Becomes id j {q} {q'} v e (report job processed successes failures t) = rw (sym t) (
  (if has_id job j then counted_row processed successes failures j else j),
  find-update_where (has_id job) (counted_row processed successes failures) id q.jobs j
      (counted-keeps-id job processed successes failures) e,
  Change-counted job processed successes failures j,
)

-- Along any interleaving a finished job stays in the table, and nothing changes in it but its three
-- counters of records.
pub Reach-frozen :
    (id : ℕ) (j : Job) {q q' : Queue}
    → IsValid q
    → first_where (has_id id) q.jobs ≡ some j
    → is_terminal j.status ≡ true
    → Reach q q'
    → (k : Job) × (first_where (has_id id) q'.jobs ≡ some k) × SameButCounters j k
Reach-frozen id j v e f here = (j, e, refl)
Reach-frozen id j {q} {q'} v e f (next r s) =
    let (k, found, same) = Reach-frozen id j v e f r in
    let (l, found', change) = Step-Becomes id k (Reach-IsValid r v) found s in
    let ended : is_terminal k.status ≡ true = ap (λ x. is_terminal x.status) same ∙ f in
    (l, found', SameButCounters-trans j k l same (change.frozen ended))
