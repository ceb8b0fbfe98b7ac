-- ===== src/Scoring/Score/Bounds.antt =====
-- What a snapshot holds: scores in range, the best product, and a classification.
use mathlib.Core.Path.{subst}
use sniper_synapse.Base.{
  arith, ℕ, String, ◌≡◌, sym, ap, Bool, true, false, Option, some, List, filter_rows, All, str_eq,
}
use sniper_synapse.Base.Int.{ℤ, pos, ◌≤ℤ◌}
use sniper_synapse.Scoring.Decimal.{Milli, clamp, clamp_bounds}
use sniper_synapse.Scoring.Json.{Json, ok, configuration, guard, guard-ok, bind-ok, ok-injective}
use sniper_synapse.Scoring.Models.{Target, Dimension, RuleSet, Company, Snapshot}
use sniper_synapse.Scoring.Condition.Leaf.{Python}
use sniper_synapse.Scoring.Engine.{
  Tally, empty_tally, apply_rules, target_of, is_allowed, live_signals, facts_of,
}
use sniper_synapse.Scoring.Engine.Groups.{CapWithin, Within, group_points, apply_rules-Within}
use sniper_synapse.Scoring.Score.{
  add_points, dimension_scores, choose_product, apply_formula, outcome, make_snapshot, choose_set,
  calculate_score,
}

-- A snapshot of a run, and the tally that it was made from.
abbrev pub MadeFrom : Python → Company → Target → RuleSet → ℕ → Tally → Snapshot → Type 0
MadeFrom py company target set as_of tally s =
    make_snapshot py company target set as_of tally ≡ ok s

-- The parts of a snapshot, from its tally.
pub snapshot-parts :
    (py : Python) (company : Company) (target : Target) (set : RuleSet) (as_of : ℕ) (tally : Tally)
    (s : Snapshot)
    → MadeFrom py company target set as_of tally s
    → let scores = dimension_scores tally.matches in
      let (best, tied, value) = choose_product target scores set.tie_order in
      (total : Milli) × (s.priority ≡ clamp total)
      × (s.dimensions ≡ scores)
      × (s.contributions ≡ tally.matches)
      × (s.best_product ≡ best)
      × (s.tied_products ≡ tied)
      × (outcome py tally.critical_outcome set.thresholds s.priority ≡ ok s.classification)
unfolding make_snapshot
snapshot-parts py company target set as_of tally s e =
    let scores = dimension_scores tally.matches in
    let value = (choose_product target scores set.tie_order).2 in
    let (total, et, rest) = bind-ok (apply_formula py scores value set.formula (pos 0)) _ e in
    let priority = clamp total.0 in
    let (label, el, done) =
      bind-ok (outcome py tally.critical_outcome set.thresholds priority) _ rest in
    let same = ok-injective _ s done in
    (
      total.0,
      ap (λ (r : Snapshot). r.priority) (sym same),
      ap (λ (r : Snapshot). r.dimensions) (sym same),
      ap (λ (r : Snapshot). r.contributions) (sym same),
      ap (λ (r : Snapshot). r.best_product) (sym same),
      ap (λ (r : Snapshot). r.tied_products) (sym same),
      subst
          (λ (r : Snapshot).
            outcome py tally.critical_outcome set.thresholds r.priority ≡ ok r.classification)
          same el,
    )

snapshot_in_range :
    (py : Python) (company : Company) (target : Target) (set : RuleSet) (as_of : ℕ) (tally : Tally)
    (s : Snapshot)
    → MadeFrom py company target set as_of tally s
    → (pos 0 ≤ℤ s.priority)
      × (s.priority ≤ℤ pos 100000)
      × ((d : Dimension) → (pos 0 ≤ℤ s.dimensions d) × (s.dimensions d ≤ℤ pos 100000))
unfolding dimension_scores
snapshot_in_range py company target set as_of tally s e =
    let p = snapshot-parts py company target set as_of tally s e in
    let bounds = clamp_bounds p.0 in
    (
      rw p.1 bounds.0,
      rw p.1 bounds.1,
      λ d. rw p.2 (clamp_bounds (add_points d (pos 0) tally.matches)),
    )

module _ (py : Python) (int_of : Json → Option ℤ) (sets : List RuleSet) (company : Company)
    (as_of : ℕ) where
  -- The steps that a returned score went through.
  pub score-steps :
      (rule_set : Option RuleSet) (allow_draft : Bool) (s : Snapshot)
      → calculate_score py int_of sets company as_of rule_set allow_draft ≡ ok s
      → (set : RuleSet) × (tally : Tally) × (choose_set py (target_of company) rule_set sets
          ≡ ok set)
        × (is_allowed allow_draft (target_of company) set ≡ true)
        × (apply_rules py int_of as_of
              (facts_of company (live_signals as_of company))
              (live_signals as_of company)
              (filter_rows (λ r. r.active) set.rules)
              empty_tally
            ≡ ok tally)
        × MadeFrom py company (target_of company) set as_of tally s
  unfolding calculate_score
  score-steps rule_set allow_draft s e =
      let (set, chosen, e1) = bind-ok (choose_set py (target_of company) rule_set sets) _ e in
      let (u, allowed, e2) =
        bind-ok (guard (is_allowed allow_draft (target_of company) set) configuration) _ e1 in
      let (tally, ran, made) = bind-ok _ _ e2 in
      (
        set,
        tally,
        chosen,
        guard-ok (is_allowed allow_draft (target_of company) set) configuration allowed,
        ran,
        made,
      )

  -- A returned score has its priority, and each of its dimensions, between 0 and 100.
  pub score_in_range :
      (rule_set : Option RuleSet) (allow_draft : Bool) (s : Snapshot)
      → calculate_score py int_of sets company as_of rule_set allow_draft ≡ ok s
      → (pos 0 ≤ℤ s.priority)
        × (s.priority ≤ℤ pos 100000)
        × ((d : Dimension) → (pos 0 ≤ℤ s.dimensions d) × (s.dimensions d ≤ℤ pos 100000))
  score_in_range rule_set allow_draft s e =
      let (set, tally, chosen, allowed, ran, made) = score-steps rule_set allow_draft s e in
      snapshot_in_range py company (target_of company) set as_of tally s made

  -- The explanation adds up: each dimension is the clamped sum of the contributions to it.
  pub score_explained :
      (rule_set : Option RuleSet) (allow_draft : Bool) (s : Snapshot)
      → calculate_score py int_of sets company as_of rule_set allow_draft ≡ ok s
      → (d : Dimension) → s.dimensions d ≡ clamp (add_points d (pos 0) s.contributions)
  unfolding dimension_scores
  score_explained rule_set allow_draft s e d =
      let (set, tally, chosen, allowed, ran, made) = score-steps rule_set allow_draft s e in
      let p = snapshot-parts py company (target_of company) set as_of tally s made in rw (p.2, p.3)

  -- In the snapshot of a given rule set all the contributions of a named group of rules, summed,
  -- are at most any bound that is not negative and that is at least the cap of each active rule of
  -- the group, if each of these has a cap.
  pub group_within_cap :
      (set : RuleSet) (allow_draft : Bool) (s : Snapshot) (g : String) (bound : Milli)
      → calculate_score py int_of sets company as_of (some set) allow_draft ≡ ok s
      → str_eq g "" ≡ false
      → pos 0 ≤ℤ bound
      → All (CapWithin g bound) (filter_rows (λ r. r.active) set.rules)
      → group_points g s.contributions ≤ℤ bound
  group_within_cap set allow_draft s g bound e named nonneg caps =
      let (set', tally, chosen, allowed, ran, made) = score-steps (some set) allow_draft s e in
      let same : set ≡ set' = ok-injective set set' chosen in
      let p = snapshot-parts py company (target_of company) set' as_of tally s made in
      let start : Within g bound empty_tally =
        unfold group_points in record { covered = omega arith; within = nonneg } in
      let w =
        apply_rules-Within g bound named py int_of as_of
          (facts_of company (live_signals as_of company)) (live_signals as_of company)
          (filter_rows (λ r. r.active) set'.rules) empty_tally tally
          (subst (λ (r : RuleSet). All (CapWithin g bound) (filter_rows (λ r. r.active) r.rules))
            same caps)
          start ran in
      rw p.3 (omega (arith, w.covered, w.within))
