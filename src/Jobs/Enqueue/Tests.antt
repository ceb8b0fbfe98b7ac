-- ===== src/Jobs/Enqueue/Tests.antt =====
-- A score is queued behind a waiting job.
use sniper_synapse.Base.{◌≡◌, refl, true, false, none, some, [], ◌∷◌, arith}
use sniper_synapse.Base.Int.{pos}
use sniper_synapse.Jobs.Models.{Job, Queue, noop, calculate_score}
use sniper_synapse.Jobs.Invariant.{IsValid}
use sniper_synapse.Scoring.Models.{RuleSet, industry, published}
use sniper_synapse.Scoring.RuleSets.{the_active, only}
use sniper_synapse.Jobs.Enqueue.{
  KeyTexts, Versions, new_job, score_payload, score_job_key, get_or_create, enqueue_for,
  enqueue_company_score, latest_of,
}
use sniper_synapse.Jobs.Enqueue.Once.{Fresh, enqueue-Once}

abbrev texts : KeyTexts
texts = record {
  str = λ n. "id";
  isoformat = λ n. "instant";
  date = λ n. "day";
  score_key = λ company rule_set version day. "score";
  signals_key = λ company version. "signals";
}

abbrev acme : Versions
acme = record {
  company = 5;
  target = industry;
  updated_at = 3;
  signals_updated_at = 9 ∷ [];
  records_collected_at = [];
  active_rules_updated_at = [];
}

abbrev rule_set : RuleSet
rule_set = record {
  id = 1;
  name = "industry";
  target = industry;
  version = 1;
  status = published;
  active = true;
  formula = [];
  thresholds = [];
  tie_order = [];
  description = "";
  created_by = none;
  published_at = some 1;
  rules = [];
}

abbrev waiting : Job
waiting = new_job 1 2 noop [] "noop" (pos 0)

abbrev queue : Queue
queue = record { jobs = waiting ∷ []; attempts = [] }

abbrev scored : Job
scored =
    new_job 20 7 calculate_score (score_payload texts 5 1 20) (score_job_key texts acme 1 20)
      (pos 10)

abbrev queue_scored : Queue
queue_scored = record { jobs = waiting ∷ scored ∷ []; attempts = [] }

queue-IsValid : IsValid queue
queue-IsValid = ground arith

queue-Fresh : Fresh 7 queue
queue-Fresh = ground arith

enqueue-Once_example :
    IsValid queue_scored
    × (enqueue_company_score texts 30 8 acme 25 (rule_set ∷ []) queue_scored
        ≡ some (queue_scored, scored, false))
unfolding enqueue_company_score enqueue_for get_or_create the_active latest_of only
enqueue-Once_example =
    enqueue-Once texts 20 7 30 8 acme 20 25 (rule_set ∷ []) queue (queue_scored, scored, true)
      queue-IsValid queue-Fresh refl refl
