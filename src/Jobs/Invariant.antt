-- ===== src/Jobs/Invariant.antt =====
-- What holds of the queue between two transactions, and that each of them keeps it.
use mathlib.Core.List.{Memᴰ}
use sniper_synapse.Base.{
  ℕ, ◌≤◌, String, ◌≡◌, ◌≢◌, Bool, true, false, none, some, List, [], ◌∷◌, arith, if◌then◌else◌,
  is_some, update_where, first_where, All, All-mono, All-update_where,
}
use sniper_synapse.Jobs.Models.{Job, JobAttempt, Queue}
use sniper_synapse.Jobs.Services.{
  is_running, is_recoverable, release, recover, claimed, has_id, save, succeeded_row, failed_row,
}

-- A running job has a lease, and any other job has neither an owner nor a lease.
pub record IsConsistent (j : Job) : Type 0 where
  pub running_leased : is_running j.status ≡ true → is_some j.lock_expires_at ≡ true
  pub idle_owner : is_running j.status ≡ false → j.lock_owner ≡ ""
  pub idle_lease : is_running j.status ≡ false → j.lock_expires_at ≡ none

-- The attempts of `j` are numbered up to its count.
abbrev pub Counts : List JobAttempt → Job → Type 0
Counts attempts j = All (λ a. a.job ≡ j.id → a.attempt_number ≤ j.attempt_count) attempts

-- No two rows share a primary key.
abbrev pub Distinct : List Job → Type 0
Distinct [] = Unit
Distinct (j ∷ js) = All (λ k. k.id ≢ j.id) js × Distinct js

pub record IsValid (q : Queue) : Type 0 where
  pub consistent : All IsConsistent q.jobs
  pub counted : All (Counts q.attempts) q.jobs
  pub distinct : Distinct q.jobs

-- A write that leaves the primary keys alone.
abbrev pub KeepsId : (Job → Bool) → (Job → Job) → Type 0
KeepsId p f = (x : Job) → p x ≡ true → (f x).id ≡ x.id

pub row_id :
    (p : Job → Bool) (f : Job → Job) (x : Job) → KeepsId p f → (if p x then f x else x).id ≡ x.id
row_id p f x keep = ground (arith, keep x)

All-ids :
    (p : Job → Bool) (f : Job → Job) (i : ℕ) (js : List Job)
    → KeepsId p f
    → All (λ k. k.id ≢ i) js
    → All (λ k. k.id ≢ i) (update_where p f js)
All-ids p f i js keep = All-update_where _ _ p f js (λ x h. ground (arith, row_id p f x keep))

pub Distinct-update_where :
    (p : Job → Bool) (f : Job → Job) (js : List Job)
    → KeepsId p f
    → Distinct js
    → Distinct (update_where p f js)
Distinct-update_where p f [] keep d = tt
Distinct-update_where p f (j ∷ js) keep d =
    (rw (row_id p f j keep) (All-ids p f j.id js keep d.0), Distinct-update_where p f js keep d.1)

-- The row with a primary key, before and after a write.
pub find-update_where :
    (p : Job → Bool) (f : Job → Job) (i : ℕ) (js : List Job) (j : Job)
    → KeepsId p f
    → first_where (has_id i) js ≡ some j
    → first_where (has_id i) (update_where p f js) ≡ some (if p j then f j else j)
find-update_where p f i [] j keep h = cc
find-update_where p f i (k ∷ js) j keep h =
    ground (arith, row_id p f k keep, find-update_where p f i js j keep)

find_of_mem : (j k : Job) (js : List Job) → All (λ x. x.id ≢ k.id) js → Memᴰ j js → j.id ≢ k.id
find_of_mem j k [] h m = elim m [ ]
find_of_mem j k (x ∷ js) h (Memᴰ.head e) = rw e h.0
find_of_mem j k (x ∷ js) h (Memᴰ.tail m) = find_of_mem j k js h.1 m

-- A row of the table is the one that its primary key finds.
pub find-of_mem :
    (j : Job) (js : List Job) → Distinct js → Memᴰ j js → first_where (has_id j.id) js ≡ some j
find-of_mem j [] d m = elim m [ ]
find-of_mem j (k ∷ js) d (Memᴰ.head e) = rw e (ground arith)
find-of_mem j (k ∷ js) d (Memᴰ.tail m) =
    ground (arith, find_of_mem j k js d.0 m, find-of_mem j js d.1 m)

pub released-IsConsistent : (j : Job) → IsConsistent (release j)
released-IsConsistent j = ground arith

pub recover-IsConsistent :
    (now : ℕ) (js : List Job) → All IsConsistent js → All IsConsistent (recover now js)
unfolding recover
recover-IsConsistent now js =
    All-update_where _ _ (is_recoverable now) release js (λ x h. ground (arith, h))

pub claimed-IsConsistent :
    (now lock : ℕ) (worker : String) (j : Job) → IsConsistent (claimed now worker lock j)
unfolding claimed
claimed-IsConsistent now lock worker j = ground arith

pub failed_row-IsConsistent :
    (now : ℕ) (message : String) (j : Job) → IsConsistent (failed_row now message j)
unfolding failed_row
failed_row-IsConsistent now message j = ground arith

pub succeeded_row-IsConsistent : (now : ℕ) (j : Job) → IsConsistent (succeeded_row now j)
unfolding succeeded_row
succeeded_row-IsConsistent now j = ground arith

pub save-IsConsistent :
    (j : Job) (js : List Job) → IsConsistent j → All IsConsistent js → All IsConsistent (save j js)
save-IsConsistent j js c =
    All-update_where _ _ (has_id j.id) (λ _. j) js (λ x h. ground (arith, c, h))

-- Attempts are only added for the claimed job, and only changed in other fields.
abbrev pub KeepsNumber : (JobAttempt → Bool) → (JobAttempt → JobAttempt) → Type 0
KeepsNumber p f =
    (a : JobAttempt) → p a ≡ true → ((f a).job ≡ a.job) × ((f a).attempt_number ≡ a.attempt_number)

pub Counts-update_where :
    (p : JobAttempt → Bool) (f : JobAttempt → JobAttempt) (attempts : List JobAttempt) (j : Job)
    → KeepsNumber p f
    → Counts attempts j
    → Counts (update_where p f attempts) j
Counts-update_where p f attempts j keep =
    All-update_where _ _ p f attempts (λ a h. ground (arith, h, keep a))

-- Attempts of `j` are attempts of a row with its key and no smaller count.
pub Counts-mono :
    (j k : Job) (attempts : List JobAttempt)
    → k.id ≡ j.id
    → j.attempt_count ≤ k.attempt_count
    → Counts attempts j
    → Counts attempts k
Counts-mono j k attempts e le = All-mono _ _ attempts (λ a h. ground (arith, h))
