-- ===== src/Scoring/Engine.antt =====
-- `calculate_score` of apps/scoring/engine.py, part by part. It is one transaction: on an exception
-- nothing is stored.
pub mod Groups
use sniper_synapse.Base.{
  ℕ, zero, suc, ◌+◌, String, Bool, true, false, not, ◌&&◌, ◌||◌, Option, none, some, List, [], ◌∷◌,
  ◌++◌, str_eq, if◌then◌else◌, ltb, leb, any, first_where, filter_rows, map,
}
use sniper_synapse.Base.Int.{ℤ, pos, ◌+ℤ◌, leb_ℤ, max_ℤ}
use sniper_synapse.Scoring.Decimal.{Decimal, Milli, scaled, clamp, at_least, ltb_decimal}
use sniper_synapse.Scoring.Json.{
  Json, text, list, dict, Items, nil, cons, Entries, Result, ok, err, configuration, uncaught,
  ◌>>=◌, ◌>>◌, guard, get, to_list,
}
use sniper_synapse.Scoring.Models.{
  Target, industry, partner, SetStatus, draft, published, retired, Dimension, icp, mes, cmms, pulse,
  intent, partner_fit, channel, activity, conflict, ScoringRule, RuleSet, Signal, Company,
  Contribution, FormulaTerm, Snapshot,
}
use sniper_synapse.Scoring.Condition.Leaf.{Python, Facts, decimal_json, str_value}
use sniper_synapse.Scoring.Condition.{condition_matches}
use sniper_synapse.Scoring.Decay.{decay_multiplier}
use sniper_synapse.Scoring.Group.{Totals, cap_group}

abbrev pub is_industry : Target → Bool
is_industry industry = true
is_industry partner = false

abbrev pub same_target : Target → Target → Bool
same_target industry industry = true
same_target partner partner = true
same_target _ _ = false

abbrev pub is_published : SetStatus → Bool
is_published published = true
is_published _ = false

abbrev pub is_draft : SetStatus → Bool
is_draft draft = true
is_draft _ = false

unfoldable pub target_of : Company → Target
target_of company = if str_eq company.company_type "INDUSTRY" then industry else partner

-- `RuleSet.objects.get(target=..., active=True, status=PUBLISHED)`
unfoldable pub get_active : Target → List RuleSet → Result RuleSet
get_active target sets =
    elim (filter_rows (λ s. same_target s.target target && s.active && is_published s.status)
      sets) [ [] ↦ err uncaught | s ∷ more ↦ elim more [ [] ↦ ok s | _ ∷ _ ↦ err uncaught ] ]

-- `rule_set.target != target or not allowed_status`
unfoldable pub is_allowed : Bool → Target → RuleSet → Bool
is_allowed allow_draft target set =
    same_target set.target target
    && (is_published set.status || (allow_draft && is_draft set.status))

is_live : ℕ → Signal → Bool
is_live as_of s =
    s.active && leb s.observed_at as_of && elim s.expires_at [ none ↦ true | some t ↦ ltb as_of t ]

-- `.order_by("-observed_at")`
insert_signal : Signal → List Signal → List Signal
insert_signal s [] = s ∷ []
insert_signal s (t ∷ ts) =
    if ltb s.observed_at t.observed_at then t ∷ insert_signal s ts else s ∷ t ∷ ts

sort_signals : List Signal → List Signal
sort_signals [] = []
sort_signals (s ∷ ss) = insert_signal s (sort_signals ss)

unfoldable pub live_signals : ℕ → Company → List Signal
unfolding is_live insert_signal sort_signals
live_signals as_of company = sort_signals (filter_rows (is_live as_of) company.signals)

unfoldable pub facts_of : Company → List Signal → Facts
facts_of company signals = record {
  company_type = company.company_type;
  registration_status = company.registration_status;
  commercial_status = company.commercial_status;
  state = company.state;
  municipality_code = company.municipality_code;
  size_code = company.size_code;
  segment = company.segment;
  cnaes = company.cnaes;
  signal_types = map (λ (s : Signal). s.signal_type) signals;
}

-- The texts among the values of a `HAS_SIGNAL`; a type equals nothing else.
abbrev texts_of : List Json → List String
texts_of [] = []
texts_of (text t ∷ js) = t ∷ texts_of js
texts_of (_ ∷ js) = texts_of js

abbrev value_types : Option Json → List String
value_types none = []
value_types (some (list xs)) = texts_of (to_list xs)
value_types (some j) = texts_of (j ∷ [])

abbrev is_has_signal : Option Json → Bool
is_has_signal (some (text t)) = str_eq t "HAS_SIGNAL"
is_has_signal _ = false

unfoldable pub each_type : (Json → List String) → Items → List String
each_type f nil = []
each_type f (cons x xs) = f x ++ each_type f xs

unfoldable pub children_types : (Json → List String) → Option Json → List String
unfolding each_type
children_types f (some (list xs)) = each_type f xs
children_types f _ = []

-- `_signal_types`, on a condition that has been matched: six levels hold all of it.
unfoldable pub signal_types : ℕ → Json → List String
unfolding children_types
signal_types zero condition = []
signal_types (suc levels) (dict d) =
    let below : List String =
      children_types (signal_types levels) (get "all" d)
      ++ (children_types (signal_types levels) (get "any" d)
          ++ elim (get "not" d) [ none ↦ [] | some j ↦ signal_types levels j ]) in
    if is_has_signal (get "op" d) then value_types (get "value" d) else below
signal_types (suc levels) _ = []

-- `next((signal for signal in signals if signal.signal_type in relevant_types), None)`
unfoldable pub evidence_signal : List String → List Signal → Option Signal
evidence_signal relevant signals = first_where (λ s. any (str_eq s.signal_type) relevant) signals

-- The variables of the loop over the rules.
pub record Tally : Type 0 where
  pub matches : List Contribution
  pub group_totals : Totals
  pub critical_outcome : String

abbrev pub empty_tally : Tally
empty_tally = record { matches = []; group_totals = []; critical_outcome = "" }

-- `rule.critical_outcome or critical_outcome`
abbrev pub or_text : String → String → String
or_text a b = if str_eq a "" then b else a

module _ (py : Python) (int_of : Json → Option ℤ) where
  -- A rule whose condition holds.
  unfoldable pub count_rule : ScoringRule → Option Signal → Decimal → Tally → Tally
  count_rule rule evidence multiplier tally =
      let (effective, totals) = cap_group rule (scaled rule.points multiplier) tally.group_totals in
      record {
        matches =
            tally.matches
            ++ record {
              rule = rule;
              multiplier = multiplier;
              effective = effective;
              evidence = evidence;
              observed_at = elim evidence [ none ↦ none | some s ↦ some s.observed_at ];
            }
              ∷ [];
        group_totals = totals;
        critical_outcome = or_text rule.critical_outcome tally.critical_outcome;
      }

  -- The body of the loop.
  unfoldable pub apply_rule : ℕ → Facts → List Signal → ScoringRule → Tally → Result Tally
  apply_rule as_of facts signals rule tally = do
    matched ← condition_matches py facts 6 rule.condition
    if matched
        then (do
          let evidence = evidence_signal (signal_types 6 rule.condition) signals
          multiplier ←
              decay_multiplier py int_of rule
                (elim evidence [ none ↦ none | some s ↦ some s.observed_at ]) as_of
          ok (count_rule rule evidence multiplier tally))
        else ok tally

  unfoldable pub apply_rules : ℕ → Facts → List Signal → List ScoringRule → Tally → Result Tally
  apply_rules as_of facts signals [] tally = ok tally
  apply_rules as_of facts signals (rule ∷ rules) tally = do
    tally' ← apply_rule as_of facts signals rule tally
    apply_rules as_of facts signals rules tally'
