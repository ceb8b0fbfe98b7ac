-- ===== src/Scoring/Models.antt =====
-- apps/scoring/models.py, and the rows of the other apps that the engine reads. A primary key is a
-- number and an instant a number of seconds.
use sniper_synapse.Base.{ℕ, String, Bool, Option, List}
use sniper_synapse.Scoring.Json.{Json}
use sniper_synapse.Scoring.Decimal.{Decimal, Milli}

pub data Target : Type 0 where
  industry partner : Target

pub data SetStatus : Type 0 where
  draft published retired : SetStatus

pub data Dimension : Type 0 where
  icp mes cmms pulse intent partner_fit channel activity conflict : Dimension

pub data DecayPolicy : Type 0 where
  no_decay age_buckets : DecayPolicy

pub record ScoringRule : Type 0 where
  pub key : String
  pub name : String
  pub description : String
  pub dimension : Dimension
  pub condition : Json
  pub points : Milli
  pub decay_policy : DecayPolicy
  pub decay_curve : List Json
  pub critical_outcome : String
  pub group_key : String
  pub group_cap : Option Milli
  pub max_occurrences : ℕ
  pub active : Bool
  pub order : ℕ

-- The JSON columns `formula` (an object), `thresholds` and `tie_order` (lists) are read as their
-- entries; `rules` are the rows that refer to the set, in their order.
pub record RuleSet : Type 0 where
  pub id : ℕ
  pub name : String
  pub target : Target
  pub version : ℕ
  pub status : SetStatus
  pub formula : List (String × Json)
  pub thresholds : List Json
  pub tie_order : List String
  pub active : Bool
  pub description : String
  pub created_by : Option ℕ
  pub published_at : Option ℕ
  pub rules : List ScoringRule

-- apps/signals/models.py, the columns that the engine reads.
pub record Signal : Type 0 where
  pub id : ℕ
  pub signal_type : String
  pub active : Bool
  pub observed_at : ℕ
  pub expires_at : Option ℕ
  pub title : String
  pub source_url : String
  pub evidence_excerpt : String

-- The columns of a company that the engine reads; `cnaes` are the codes with the primary ones
-- first.
pub record Company : Type 0 where
  pub id : ℕ
  pub company_type : String
  pub registration_status : String
  pub commercial_status : String
  pub state : String
  pub municipality_code : String
  pub size_code : String
  pub segment : String
  pub cnaes : List String
  pub signals : List Signal

-- A `ScoreContribution`.
pub record Contribution : Type 0 where
  pub rule : ScoringRule
  pub multiplier : Decimal
  pub effective : Milli
  pub evidence : Option Signal
  pub observed_at : Option ℕ

pub record FormulaTerm : Type 0 where
  pub dimension : String
  pub score : Milli
  pub coefficient : Decimal
  pub weighted : Milli

-- A `ScoreSnapshot` with its contributions.
pub record Snapshot : Type 0 where
  pub company : ℕ
  pub rule_set : ℕ
  pub as_of : ℕ
  pub dimensions : Dimension → Milli
  pub priority : Milli
  pub classification : String
  pub best_product : String
  pub tied_products : List String
  pub formula_detail : List FormulaTerm
  pub contributions : List Contribution
