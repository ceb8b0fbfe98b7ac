-- ===== src/Jobs/Keeps.antt =====
-- Every transaction of the queue keeps `IsValid`, and a claim never meets an integrity error.
use mathlib.Core.List.{Memᴰ}
use mathlib.Core.Path.{subst}
use sniper_synapse.Base.{
  ℕ, ◌+◌, ◌≤◌, String, ◌≡◌, refl, Bool, true, false, not, ◌&&◌, Option, none, some, List, [], ◌∷◌,
  ◌++◌, arith, if◌then◌else◌, any, update_where, first_where, All, All-mono, All-update_where,
  All-append, ltb, Bool-cases, inl, inr,
}
use sniper_synapse.Jobs.Models.{Job, JobAttempt, Queue}
use sniper_synapse.Jobs.Order.{IsFirst, first_in_order-IsFirst}
use sniper_synapse.Jobs.Invariant.{
  IsConsistent, Counts, Distinct, IsValid, KeepsId, KeepsNumber, Distinct-update_where,
  recover-IsConsistent, claimed-IsConsistent, failed_row-IsConsistent, succeeded_row-IsConsistent,
  save-IsConsistent, Counts-update_where, Counts-mono,
}
use sniper_synapse.Jobs.Services.{
  Result, ok, err, ◌>>=◌, is_recoverable, release, recover, is_claimable, first_in_order, claimed,
  has_id, save, is_attempt, new_attempt, create_attempt, take_job, claim_next_job, owns, renewed,
  renew_job_lease, check_owner, owned_running_job, succeeded_row, mark_succeeded, failed_row,
  mark_failed, take_text,
}

-- A property of what a transaction returns; one that raises leaves nothing.
abbrev pub OnOk {ℓ κ} : {A : Type ℓ} → (A → Type κ) → Result A → Type κ
OnOk P (ok a) = P a
OnOk P (err e) = Unit

pub All-get {ℓ κ} : {A : Type ℓ} (P : A → Type κ) {a : A} (xs : List A) → All P xs → Memᴰ a xs → P a
All-get P [] h m = elim m [ ]
All-get P (x ∷ xs) h (Memᴰ.head e) = rw e h.0
All-get P (x ∷ xs) h (Memᴰ.tail m) = All-get P xs h.1 m

-- What every row satisfies, the row that a primary key finds satisfies.
pub All-find {κ} :
    (P : Job → Type κ) (p : Job → Bool) (js : List Job) (j : Job)
    → All P js
    → first_where p js ≡ some j
    → P j
All-find P p [] j h e = cc
All-find P p (k ∷ js) j h e = elim (Bool-cases (p k)) [
  | inl y ↦ let found : k ≡ j = ground arith in subst P found h.0
  | inr n ↦ All-find P p js j h.1 (rw n at e)
]

pub save-keeps-id : (j : Job) → KeepsId (has_id j.id) (λ _. j)
save-keeps-id j x h = ground arith

pub recover-keeps-id : (now : ℕ) → KeepsId (is_recoverable now) release
recover-keeps-id now x h = refl

save-counted :
    (k : Job) (attempts : List JobAttempt) (js : List Job)
    → Counts attempts k
    → All (Counts attempts) js
    → All (Counts attempts) (save k js)
save-counted k attempts js c =
    All-update_where _ _ (has_id k.id) (λ _. k) js
      (λ x h. elim (Bool-cases (has_id k.id x)) [ inl y ↦ rw y c | inr n ↦ rw n h ])

recover-counted :
    (now : ℕ) (attempts : List JobAttempt) (js : List Job)
    → All (Counts attempts) js
    → All (Counts attempts) (recover now js)
unfolding recover
recover-counted now attempts js =
    All-update_where _ _ (is_recoverable now) release js
      (λ x h. elim (Bool-cases (is_recoverable now x)) [ inl y ↦ rw y h | inr n ↦ rw n h ])

-- The number of the next attempt is free.
pub attempt_free :
    (j : Job) (attempts : List JobAttempt)
    → Counts attempts j
    → any (is_attempt j.id (j.attempt_count + 1)) attempts ≡ false
attempt_free j [] c = refl
attempt_free j (a ∷ attempts) c = ground (arith, attempt_free j attempts c.1, c.0)

-- The attempts of the other rows are not those of the claimed one.
claimed-counted :
    (k : Job) (a : JobAttempt) (attempts : List JobAttempt) (x : Job)
    → a.job ≡ k.id
    → a.attempt_number ≤ k.attempt_count
    → Counts attempts k
    → Counts attempts x
    → Counts (attempts ++ a ∷ []) (if has_id k.id x then k else x)
claimed-counted k a attempts x e le ck cx = elim (Bool-cases (has_id k.id x)) [
  | inl y ↦ rw y (All-append _ attempts (a ∷ []) ck (ground arith))
  | inr n ↦ rw n (All-append _ attempts (a ∷ []) cx (ground arith))
]

module _ (locked : ℕ → Bool) (now lock_seconds : ℕ) (worker_id : String) where
  take_job-IsValid :
      (j : Job) (js : List Job) (attempts : List JobAttempt)
      → All IsConsistent js
      → All (Counts attempts) js
      → Distinct js
      → Memᴰ j js
      → let k = claimed now worker_id lock_seconds j in
        let q' : Queue = record {
          jobs = save k js;
          attempts = attempts ++ new_attempt k worker_id now ∷ [];
        } in
        (take_job now worker_id lock_seconds (some j) js attempts ≡ ok (q', some k)) × IsValid q'
  unfolding take_job create_attempt claimed new_attempt
  take_job-IsValid j js attempts c n d m =
      let k : Job = claimed now worker_id lock_seconds j in
      let cj : Counts attempts j = All-get _ js n m in
      let ck : Counts attempts k = Counts-mono j k attempts refl (omega arith) cj in
      (
        rw (attempt_free j attempts cj),
        record {
          consistent = save-IsConsistent k js (claimed-IsConsistent now lock_seconds worker_id j) c;
          counted =
              All-update_where _ _ (has_id k.id) (λ _. k) js
                (λ x h.
                  claimed-counted k (new_attempt k worker_id now) attempts x refl (omega arith) ck
                    h)
                n;
          distinct = Distinct-update_where _ _ js (save-keeps-id k) d;
        },
      )

  -- From a valid queue a claim returns, and the queue that it leaves is valid.
  pub claim-IsValid :
      (q : Queue)
      → IsValid q
      → (out : Queue × Option Job) × (claim_next_job locked now worker_id lock_seconds q ≡ ok out)
        × IsValid out.0
  unfolding claim_next_job
  claim-IsValid q v = go (first_in_order test js) (first_in_order-IsFirst test js)
    where
      js : List Job
      js = recover now q.jobs

      test : Job → Bool
      test j = is_claimable now j && not (locked j.id)

      c : All IsConsistent js
      c = recover-IsConsistent now q.jobs v.consistent

      n : All (Counts q.attempts) js
      n = recover-counted now q.attempts q.jobs v.counted

      d : Distinct js
      d = unfold recover in Distinct-update_where _ _ q.jobs (recover-keeps-id now) v.distinct

      go :
          (o : Option Job)
          → IsFirst test js o
          → (out : Queue × Option Job) × (take_job now worker_id lock_seconds o js q.attempts
              ≡ ok out)
            × IsValid out.0
      go none f = (
        (record { jobs = js; attempts = q.attempts }, none),
        (unfold take_job in refl),
        record { consistent = c; counted = n; distinct = d },
      )
      go (some j) f = let t = take_job-IsValid j js q.attempts c n d f.0 in (_, t.0, t.1)

module _ (now job_id : ℕ) (worker_id : String) where
  renewed-IsConsistent :
      (lock_seconds : ℕ) (x : Job)
      → IsConsistent x
      → IsConsistent (if owns job_id worker_id x then renewed now lock_seconds x else x)
  unfolding renewed
  renewed-IsConsistent lock_seconds x h = ground (arith, h)

  -- A renewal keeps the queue valid.
  pub renew-IsValid :
      (lock_seconds : ℕ) (q : Queue)
      → IsValid q
      → OnOk (λ out. IsValid out.0) (renew_job_lease now job_id worker_id lock_seconds q)
  unfolding renew_job_lease renewed
  renew-IsValid lock_seconds q v = elim (Bool-cases (ltb lock_seconds 1)) [
    | inl short ↦ rw short tt
    | inr long ↦ rw long (record {
      consistent =
          All-update_where _ _ (owns job_id worker_id) (renewed now lock_seconds) q.jobs
            (λ x h. renewed-IsConsistent lock_seconds x h) v.consistent;
      counted =
          All-update_where _ _ (owns job_id worker_id) (renewed now lock_seconds) q.jobs
            (λ x h. elim (Bool-cases (owns job_id worker_id x)) [ inl y ↦ rw y h | inr n ↦ rw n h ])
            v.counted;
      distinct = Distinct-update_where _ _ q.jobs (λ x h. refl) v.distinct;
    })
  ]

  -- What closing a job writes: a row with the same key and count, and marks on its attempts.
  closing-IsValid :
      (j k : Job) (p : JobAttempt → Bool) (f : JobAttempt → JobAttempt) (q : Queue)
      → k.id ≡ j.id
      → k.attempt_count ≡ j.attempt_count
      → IsConsistent k
      → KeepsNumber p f
      → Counts q.attempts j
      → IsValid q
      → IsValid (record { jobs = save k q.jobs; attempts = update_where p f q.attempts })
  closing-IsValid j k p f q ei en ck keep cj v = record {
    consistent = save-IsConsistent k q.jobs ck v.consistent;
    counted =
        save-counted k _ q.jobs
          (Counts-update_where p f q.attempts k keep
            (Counts-mono j k q.attempts ei (omega arith) cj))
          (All-mono _ _ q.jobs (λ x. Counts-update_where p f q.attempts x keep) v.counted);
    distinct = Distinct-update_where _ _ q.jobs (save-keeps-id k) v.distinct;
  }

  -- The row that a worker may close is in the table.
  owned-Counts :
      (q : Queue) {j : Job}
      → owned_running_job job_id worker_id q ≡ ok j
      → IsValid q
      → Counts q.attempts j
  unfolding owned_running_job check_owner
  owned-Counts q {j} e v =
      All-find (Counts q.attempts) (has_id job_id) q.jobs j v.counted (ground arith)

  pub succeeded-IsValid :
      (q : Queue) → IsValid q → OnOk IsValid (mark_succeeded now job_id worker_id q)
  unfolding mark_succeeded
  succeeded-IsValid q v = go (owned_running_job job_id worker_id q) refl
    where
      go :
          (r : Result Job)
          → owned_running_job job_id worker_id q ≡ r
          → OnOk IsValid (
              r >>= λ job. ok (record {
                jobs = save (succeeded_row now job) q.jobs;
                attempts =
                    update_where
                      (is_attempt job.id job.attempt_count)
                      (λ a. record a { finished_at = some now; succeeded = some true })
                      q.attempts;
              }))
      go (err x) e = tt
      go (ok j) e =
          unfold succeeded_row in
          closing-IsValid j (succeeded_row now j) _ _ q refl refl (succeeded_row-IsConsistent now j)
            (λ a h. (refl, refl)) (owned-Counts q e v) v

  pub failed-IsValid :
      (message : String) (q : Queue)
      → IsValid q
      → OnOk IsValid (mark_failed now job_id worker_id message q)
  unfolding mark_failed
  failed-IsValid message q v = go (owned_running_job job_id worker_id q) refl
    where
      go :
          (r : Result Job)
          → owned_running_job job_id worker_id q ≡ r
          → OnOk IsValid (
              r >>= λ job. ok (record {
                jobs = save (failed_row now message job) q.jobs;
                attempts =
                    update_where
                      (is_attempt job.id job.attempt_count)
                      (λ a. record a {
                        finished_at = some now;
                        succeeded = some false;
                        error_detail = take_text 10000 message;
                      })
                      q.attempts;
              }))
      go (err x) e = tt
      go (ok j) e =
          unfold failed_row in
          closing-IsValid j (failed_row now message j) _ _ q refl refl
            (failed_row-IsConsistent now message j) (λ a h. (refl, refl)) (owned-Counts q e v) v
