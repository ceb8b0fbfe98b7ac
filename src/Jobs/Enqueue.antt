-- ===== src/Jobs/Enqueue.antt =====
-- `enqueue_company_score` of apps/scoring/services.py and `enqueue_signal_detection` of
-- apps/signals/services.py: a job for a company, once for each version of its data.
pub mod Once
mod Tests
use sniper_synapse.Base.{
  ℕ, max, String, Bool, true, false, Option, none, some, List, [], ◌∷◌, ◌++◌, ◌==◌, if◌then◌else◌,
  first_where, str_eq,
}
use sniper_synapse.Base.Int.{ℤ, pos}
use sniper_synapse.Jobs.Models.{Job, JobType, Queue, pending, detect_signals, calculate_score}
use sniper_synapse.Scoring.Models.{RuleSet, Target}
use sniper_synapse.Scoring.RuleSets.{the_active}

-- The texts of the keys, the identifiers and the instants; `score_key` takes the date of `as_of`.
pub record KeyTexts : Type 0 where
  pub str : ℕ → String
  pub isoformat : ℕ → String
  pub date : ℕ → String
  pub score_key : String → String → String → String → String
  pub signals_key : String → String → String

-- The columns of the company and of its rows that the two read.
pub record Versions : Type 0 where
  pub company : ℕ
  pub target : Target
  pub updated_at : ℕ
  pub signals_updated_at : List ℕ
  pub records_collected_at : List ℕ
  pub active_rules_updated_at : List ℕ

-- `max` of an instant and the latest of some rows, if there are any.
unfoldable pub latest_of : ℕ → List ℕ → ℕ
latest_of instant [] = instant
latest_of instant (other ∷ others) = latest_of (max instant other) others

abbrev pub has_idempotency_key : String → Job → Bool
has_idempotency_key key job = elim job.idempotency_key [ none ↦ false | some own ↦ str_eq own key ]

-- The row of `create`, with the defaults of the model.
abbrev pub new_job : ℕ → ℕ → JobType → List (String × String) → String → ℤ → Job
new_job now id type payload key priority = record {
  id = id;
  type = type;
  status = pending;
  payload = payload;
  idempotency_key = some key;
  priority = priority;
  attempt_count = 0;
  max_attempts = 3;
  run_after = now;
  lock_owner = "";
  lock_expires_at = none;
  heartbeat_at = none;
  started_at = none;
  finished_at = none;
  records_processed = 0;
  records_success = 0;
  records_failed = 0;
  error_summary = "";
  created_at = now;
  updated_at = now;
}

-- `get_or_create`: the tables, the job, and whether it is new.
unfoldable pub get_or_create : Job → Queue → Option Job → Queue × Job × Bool
get_or_create row q (some job) = (q, job, false)
get_or_create row q none = (record q { jobs = q.jobs ++ row ∷ [] }, row, true)

abbrev pub get_or_create_job :
    ℕ → ℕ → JobType → List (String × String) → String → ℤ → Queue → Queue × Job × Bool
get_or_create_job now id type payload key priority q =
    get_or_create (new_job now id type payload key priority) q
      (first_where (has_idempotency_key key) q.jobs)

-- `now` and `id`, the new primary key, are those of the row if one is created.
module _ (texts : KeyTexts) where
  abbrev pub signals_job_key : Versions → String
  signals_job_key v =
      let data_version =
        latest_of (latest_of v.updated_at v.records_collected_at) v.active_rules_updated_at in
      texts.signals_key (texts.str v.company) (texts.isoformat data_version)

  unfoldable pub enqueue_signal_detection : ℕ → ℕ → Versions → Queue → Queue × Job × Bool
  enqueue_signal_detection now id v q =
      get_or_create_job now id detect_signals (("company_id", texts.str v.company) ∷ [])
        (signals_job_key v) (pos 20) q

  abbrev pub score_payload : ℕ → ℕ → ℕ → List (String × String)
  score_payload company rule_set as_of =
      ("company_id", texts.str company)
      ∷ ("rule_set_id", texts.str rule_set)
      ∷ ("as_of", texts.isoformat as_of)
      ∷ []

  abbrev pub score_job_key : Versions → ℕ → ℕ → String
  score_job_key v rule_set as_of =
      texts.score_key (texts.str v.company) (texts.str rule_set)
        (texts.isoformat (latest_of v.updated_at v.signals_updated_at)) (texts.date as_of)

  -- `none` is the exception of `get` when not one rule set is active.
  unfoldable pub enqueue_for :
      ℕ → ℕ → Versions → ℕ → Option RuleSet → Queue → Option (Queue × Job × Bool)
  enqueue_for now id v as_of none q = none
  enqueue_for now id v as_of (some set) q = some (
      get_or_create_job now id calculate_score (score_payload v.company set.id as_of)
        (score_job_key v set.id as_of) (pos 10) q)

  unfoldable pub enqueue_company_score :
      ℕ → ℕ → Versions → ℕ → List RuleSet → Queue → Option (Queue × Job × Bool)
  enqueue_company_score now id v as_of sets q =
      enqueue_for now id v as_of (the_active v.target sets) q
