-- ===== src/Jobs/Enqueue/Once.antt =====
-- A job that apps/scoring/services.py and apps/signals/services.py queue is queued once.
use sniper_synapse.Base.{
  ℕ, String, ◌≡◌, ◌≢◌, refl, sym, ◌∙◌, ap, arith, Bool, true, false, Option, none, some, List, [],
  ◌∷◌, ◌++◌, if◌then◌else◌, first_where, All, All-mono, All-append, Bool-cases, inl, inr, str_eq,
  eq_iff,
}
use sniper_synapse.Base.Int.{ℤ}
use sniper_synapse.Jobs.Models.{Job, JobType, Queue}
use sniper_synapse.Jobs.Invariant.{IsValid, IsConsistent, Counts, Distinct}
use sniper_synapse.Scoring.Models.{RuleSet}
use sniper_synapse.Scoring.RuleSets.{the_active}
use sniper_synapse.Jobs.Enqueue.{
  KeyTexts, Versions, has_idempotency_key, new_job, get_or_create, score_job_key, signals_job_key,
  enqueue_signal_detection, enqueue_for, enqueue_company_score,
}

first-appended :
    {A : Type 0} (p : A → Bool) (row : A) (rows : List A)
    → first_where p rows ≡ none
    → p row ≡ true
    → first_where p (rows ++ row ∷ []) ≡ some row
first-appended p row [] n y = rw y refl
first-appended p row (r ∷ rows) n y = elim (Bool-cases (p r)) [
  | inl k ↦
      let absurd = sym (ap (λ b. if b then some r else first_where p rows) k) ∙ n in
      ground (arith, absurd)
  | inr k ↦
      rw k (
        first-appended p row rows (sym (ap (λ b. if b then some r else first_where p rows) k) ∙ n)
          y)
]

-- No row and no attempt has the primary key.
abbrev pub Fresh : ℕ → Queue → Type 0
Fresh id q = All (λ j. j.id ≢ id) q.jobs × All (λ a. a.job ≢ id) q.attempts

Distinct-append :
    (row : Job) (jobs : List Job)
    → All (λ j. j.id ≢ row.id) jobs
    → Distinct jobs
    → Distinct (jobs ++ row ∷ [])
Distinct-append row [] f d = (tt, tt)
Distinct-append row (j ∷ jobs) f d = (
  All-append (λ k. k.id ≢ j.id) jobs (row ∷ []) d.0 (λ e. f.0 (sym e), tt),
  Distinct-append row jobs f.1 d.1,
)

created-IsValid :
    (now id : ℕ) (type : JobType) (payload : List (String × String)) (key : String) (priority : ℤ)
    (q : Queue) (found : Option Job)
    → Fresh id q
    → IsValid q
    → IsValid (get_or_create (new_job now id type payload key priority) q found).0
unfolding get_or_create
created-IsValid now id type payload key priority q (some job) f v = v
created-IsValid now id type payload key priority q none f v = record {
  consistent = All-append IsConsistent q.jobs _ v.consistent (
    record {
      running_leased = λ h. ground (arith, h);
      idle_owner = λ h. refl;
      idle_lease = λ h. refl;
    },
    tt,
  );
  counted =
      All-append (Counts q.attempts) q.jobs _ v.counted
        (All-mono _ _ q.attempts (λ a h e. elim (h e) [ ]) f.1, tt);
  distinct = Distinct-append (new_job now id type payload key priority) q.jobs f.0 v.distinct;
}

created-again :
    (p : Job → Bool) (row later : Job) (q : Queue) (found : Option Job)
    → first_where p q.jobs ≡ found
    → p row ≡ true
    → get_or_create later
        (get_or_create row q found).0
        (first_where p (get_or_create row q found).0.jobs)
      ≡ ((get_or_create row q found).0, (get_or_create row q found).1, false)
unfolding get_or_create
created-again p row later q (some job) e y = rw e refl
created-again p row later q none e y = rw (first-appended p row q.jobs e y) refl

has_own_key : (key : String) → str_eq key key ≡ true
has_own_key key = (eq_iff key key).1 refl

some_value : {A : Type 0} (a b : A) → ◌≡◌ {A = Option A} (some a) (some b) → a ≡ b
some_value a b h = ap (λ o. elim o [ none ↦ a | some x ↦ x ]) h

enqueue_for-Once :
    (texts : KeyTexts) (now id later other : ℕ) (v : Versions) (as_of as_of2 : ℕ)
    (active : Option RuleSet) (q : Queue) (r : Queue × Job × Bool)
    → IsValid q
    → Fresh id q
    → texts.date as_of ≡ texts.date as_of2
    → enqueue_for texts now id v as_of active q ≡ some r
    → IsValid r.0 × (enqueue_for texts later other v as_of2 active r.0 ≡ some (r.0, r.1, false))
unfolding enqueue_for
enqueue_for-Once texts now id later other v as_of as_of2 none q r valid fresh day h =
    ground (arith, h)
enqueue_for-Once texts now id later other v as_of as_of2 (some set) q r valid fresh day h =
    let key = score_job_key texts v set.id as_of in
    let found = first_where (has_idempotency_key key) q.jobs in
    let same = some_value _ r h in
    rw (sym same) (
      created-IsValid now id _ _ key _ q found fresh valid,
      rw (sym day, score_job_key)
          (ap some (created-again (has_idempotency_key key) _ _ q found refl (has_own_key key))),
    )

-- When `enqueue_company_score` succeeds on a valid queue with a new primary key, the queue stays
-- valid, and a second call for the same data and an instant of the same day, at any time and with
-- any key, gives the same job, creates none and leaves the queue as it is.
pub enqueue-Once :
    (texts : KeyTexts) (now id later other : ℕ) (v : Versions) (as_of as_of2 : ℕ)
    (sets : List RuleSet) (q : Queue) (r : Queue × Job × Bool)
    → IsValid q
    → Fresh id q
    → texts.date as_of ≡ texts.date as_of2
    → enqueue_company_score texts now id v as_of sets q ≡ some r
    → IsValid r.0
      × (enqueue_company_score texts later other v as_of2 sets r.0 ≡ some (r.0, r.1, false))
unfolding enqueue_company_score
enqueue-Once texts now id later other v as_of as_of2 sets q r =
    enqueue_for-Once texts now id later other v as_of as_of2 (the_active v.target sets) q r

-- The same of `enqueue_signal_detection`, which always succeeds.
pub detection-Once :
    (texts : KeyTexts) (now id later other : ℕ) (v : Versions) (q : Queue)
    → IsValid q
    → Fresh id q
    → IsValid (enqueue_signal_detection texts now id v q).0
      × (enqueue_signal_detection texts later other v (enqueue_signal_detection texts now id v q).0
          ≡ (
            (enqueue_signal_detection texts now id v q).0,
            (enqueue_signal_detection texts now id v q).1,
            false,
          ))
unfolding enqueue_signal_detection
detection-Once texts now id later other v q valid fresh =
    let key = signals_job_key texts v in
    let found = first_where (has_idempotency_key key) q.jobs in
    (
      created-IsValid now id _ _ key _ q found fresh valid,
      created-again (has_idempotency_key key) _ _ q found refl (has_own_key key),
    )
