-- ===== src/Scoring/Tests.antt =====
-- A small rule set scored by hand: tests of the engine, and the theorems at inputs that meet their
-- hypotheses.
use sniper_synapse.Base.{
  inr, ℕ, String, ◌≡◌, refl, true, false, Option, none, some, List, [], ◌∷◌, arith, inl,
}
use sniper_synapse.Base.Int.{ℤ, pos, ◌≤ℤ◌, ◌+ℤ◌, ◌-ℤ◌, ◌*ℤ◌}
use sniper_synapse.Scoring.Decimal.{
  Decimal, round_half_even, round_parts, scaled, clamp, at_least, ltb_decimal,
}
use sniper_synapse.Scoring.Json.{
  Json, num, text, list, dict, nil, cons, empty, entry, ok, err, configuration,
}
use sniper_synapse.Scoring.Models.{
  industry, published, draft, Dimension, mes, no_decay, ScoringRule, RuleSet, Company, Contribution,
  Snapshot,
}
use sniper_synapse.Scoring.Condition.Leaf.{Python, Facts, leaf_matches, decimal_json, str_value}
use sniper_synapse.Scoring.Condition.{condition_matches}
use sniper_synapse.Scoring.Condition.Sound.{Succeeds, leaves, validated-Succeeds}
use sniper_synapse.Scoring.Condition.Presence.{simple, exists_on_collections}
use sniper_synapse.Scoring.Validate.{validate_condition}
use sniper_synapse.Scoring.Decay.{decay_multiplier}
use sniper_synapse.Scoring.Engine.{
  get_active, is_allowed, target_of, live_signals, facts_of, signal_types, evidence_signal,
  count_rule, apply_rule, apply_rules,
}
use sniper_synapse.Scoring.Engine.Groups.{group_points}
use sniper_synapse.Scoring.Group.{cap_group, granted}
use sniper_synapse.Scoring.Score.{
  dimension_scores, choose_product, tied_products, is_best, best_value, product_score,
  apply_formula, minimums, classification, calculate_score,
}
use sniper_synapse.Scoring.Score.Bounds.{score_in_range, group_within_cap}
use sniper_synapse.Scoring.Score.Product.{classification-Succeeds}

abbrev python : Python
python = record {
  decimal_of = λ _. none;
  casefold = λ s. s;
  str_json = λ _. "";
  str_texts = λ _. "";
  str_set = λ _. "";
  search = λ _ _. some false;
}

abbrev no_int : Json → Option ℤ
no_int _ = none

abbrev number : ℕ → ℕ → Json
number n k = num (record { mantissa = pos n; places = k })

abbrev has_cnaes : Json
has_cnaes = simple "cnaes" "EXISTS" (text "")

abbrev in_state : Json
in_state =
    dict (entry "all" (list (cons (simple "state" "EQ" (text "SP")) (cons has_cnaes nil))) empty)

abbrev rule_a : ScoringRule
rule_a = record {
  key = "a";
  name = "A";
  description = "";
  dimension = mes;
  condition = in_state;
  points = pos 30000;
  decay_policy = no_decay;
  decay_curve = [];
  critical_outcome = "";
  group_key = "region";
  group_cap = some (pos 50000);
  max_occurrences = 1;
  active = true;
  order = 0;
}

abbrev rule_b : ScoringRule
rule_b = record rule_a { key = "b"; condition = has_cnaes }

abbrev threshold : ℕ → String → Json
threshold n label = dict (entry "min" (number n 0) (entry "classification" (text label) empty))

abbrev set : RuleSet
set = record {
  id = 1;
  name = "S";
  target = industry;
  version = 1;
  status = published;
  formula = ("ICP", number 4 1) ∷ ("BEST_PRODUCT", number 6 1) ∷ [];
  thresholds = threshold 0 "LOW" ∷ threshold 25 "HIGH" ∷ [];
  tie_order = "MES" ∷ "CMMS" ∷ "PULSE" ∷ [];
  active = true;
  description = "";
  created_by = none;
  published_at = none;
  rules = rule_a ∷ rule_b ∷ [];
}

abbrev company : Company
company = record {
  id = 7;
  company_type = "INDUSTRY";
  registration_status = "ACTIVE";
  commercial_status = "NEW";
  state = "SP";
  municipality_code = "";
  size_code = "";
  segment = "";
  cnaes = "2512800" ∷ [];
  signals = [];
}

abbrev contribution : ScoringRule → ℕ → Contribution
contribution rule n = record {
  rule = rule;
  multiplier = record { mantissa = pos 1; places = 0 };
  effective = pos n;
  evidence = none;
  observed_at = none;
}

abbrev contributions : List Contribution
contributions = contribution rule_a 30000 ∷ contribution rule_b 20000 ∷ []

abbrev half : ℕ → Decimal
half n = record { mantissa = pos n; places = 1 }

-- The second rule is cut to what is left of the group's cap.
abbrev snapshot : Snapshot
snapshot = record {
  company = 7;
  rule_set = 1;
  as_of = 0;
  dimensions = dimension_scores contributions;
  priority = pos 30000;
  classification = "HIGH";
  best_product = "MES";
  tied_products = "MES" ∷ [];
  formula_detail =
      record { dimension = "ICP"; score = pos 0; coefficient = half 4; weighted = pos 0 }
      ∷ record {
        dimension = "BEST_PRODUCT";
        score = pos 50000;
        coefficient = half 6;
        weighted = pos 30000;
      }
      ∷ [];
  contributions = contributions;
}

scores_snapshot : calculate_score python no_int [] company 0 (some set) false ≡ ok snapshot
unfolding calculate_score get_active is_allowed target_of live_signals facts_of signal_types
    evidence_signal count_rule apply_rule apply_rules cap_group granted dimension_scores
    choose_product tied_products is_best best_value product_score apply_formula scaled clamp
    classification at_least condition_matches leaf_matches decay_multiplier ◌+ℤ◌ ◌-ℤ◌ ◌*ℤ◌
    ltb_decimal
scores_snapshot = refl

score_in_range_example :
    (pos 0 ≤ℤ pos 30000)
    × (pos 30000 ≤ℤ pos 100000)
    × ((d : Dimension)
        → (pos 0 ≤ℤ dimension_scores contributions d)
          × (dimension_scores contributions d ≤ℤ pos 100000))
score_in_range_example =
    score_in_range python no_int [] company 0 (some set) false snapshot scores_snapshot

group_within_cap_example : group_points "region" contributions ≤ℤ pos 50000
group_within_cap_example =
    group_within_cap python no_int [] company 0 set false snapshot "region" (pos 50000)
      scores_snapshot refl (omega arith)
      (inr (_, refl, omega arith), (inr (_, refl, omega arith), tt))

abbrev zero_decimal : Decimal
zero_decimal = record { mantissa = pos 0; places = 0 }

classification-Succeeds_example :
    Succeeds (classification python (threshold 0 "LOW" ∷ []) (pos 500))
unfolding minimums decimal_json str_value
classification-Succeeds_example =
    classification-Succeeds python (pos 500) (omega arith) (threshold 0 "LOW" ∷ [])
      ((zero_decimal, threshold 0 "LOW") ∷ []) refl (("LOW", refl), tt) (inl refl)

abbrev facts : Facts
facts = record {
  company_type = "INDUSTRY";
  registration_status = "ACTIVE";
  commercial_status = "NEW";
  state = "SP";
  municipality_code = "";
  size_code = "";
  segment = "";
  cnaes = [];
  signal_types = [];
}

validated-Succeeds_example : Succeeds (condition_matches python facts 6 in_state)
unfolding validate_condition leaves leaf_matches
validated-Succeeds_example =
    validated-Succeeds python (λ _. true) facts 6 in_state ((true, refl), ((false, refl), tt)) refl

exists_on_collections_example :
    (condition_matches python facts 6 (simple "cnaes" "EXISTS" (text "")) ≡ ok false)
    × (condition_matches python facts 6 (simple "signal_types" "EXISTS" (text "")) ≡ ok true)
    × (condition_matches python facts 6 (simple "signal_types" "NOT_EXISTS" (text "")) ≡ ok false)
exists_on_collections_example = exists_on_collections python facts 5 (text "")

-- Ties go to the even neighbour.
rounds_ties : (round_half_even 5 2 ≡ 2) × (round_half_even 7 2 ≡ 4) × (round_half_even 9 4 ≡ 2)
unfolding round_half_even round_parts
rounds_ties = (refl, refl, refl)

-- A draft is not used unless it is asked for.
draft_refused :
    calculate_score python no_int [] company 0 (some (record set { status = draft })) false
    ≡ err configuration
unfolding calculate_score is_allowed target_of
draft_refused = refl
