-- ===== src/Jobs/Models.antt =====
-- apps/jobs/models.py: the rows of the queue. Instants are numbers of seconds, and a primary key
-- (a UUID in the source) is a number.
use sniper_synapse.Base.{ℕ, String, Bool, Option, List}
use sniper_synapse.Base.Int.{ℤ}

pub data Status : Type 0 where
  pending running retry_scheduled succeeded failed cancelled : Status

pub data JobType : Type 0 where
  noop sync_cnpj_source discover_cnpj discover_maps enrich_maps crawl_website find_jobs : JobType
  detect_signals calculate_score refresh_company : JobType

pub record Job : Type 0 where
  pub id : ℕ
  pub type : JobType
  pub status : Status
  pub payload : List (String × String)
  pub idempotency_key : Option String
  pub priority : ℤ
  pub attempt_count : ℕ
  pub max_attempts : ℕ
  pub run_after : ℕ
  pub lock_owner : String
  pub lock_expires_at : Option ℕ
  pub heartbeat_at : Option ℕ
  pub started_at : Option ℕ
  pub finished_at : Option ℕ
  pub records_processed : ℕ
  pub records_success : ℕ
  pub records_failed : ℕ
  pub error_summary : String
  pub created_at : ℕ
  pub updated_at : ℕ

pub record JobAttempt : Type 0 where
  pub job : ℕ
  pub attempt_number : ℕ
  pub worker_id : String
  pub started_at : ℕ
  pub finished_at : Option ℕ
  pub succeeded : Option Bool
  pub error_detail : String

-- The two tables. A queryset without an order reads a table in this order.
pub record Queue : Type 0 where
  pub jobs : List Job
  pub attempts : List JobAttempt
