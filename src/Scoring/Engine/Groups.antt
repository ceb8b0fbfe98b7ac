-- ===== src/Scoring/Engine/Groups.antt =====
-- The cap of a group over a whole run of the rules.
use sniper_synapse.Base.{
  ℕ, String, ◌≡◌, ◌⊎◌, Bool, false, Option, none, some, List, [], ◌∷◌, ◌++◌, arith, if◌then◌else◌,
  str_eq, All, Bool-cases, inl, inr,
}
use sniper_synapse.Base.Int.{ℤ, pos, ◌+ℤ◌, ◌≤ℤ◌, ltb_ℤ, int_laws, +ℤ_parts}
use sniper_synapse.Scoring.Decimal.{Decimal, Milli, scaled}
use sniper_synapse.Scoring.Json.{Json, ok, bind-ok}
use sniper_synapse.Scoring.Models.{ScoringRule, Signal, Contribution}
use sniper_synapse.Scoring.Condition.Leaf.{Python, Facts}
use sniper_synapse.Scoring.Group.{Totals, used, cap_group, capped, used-capped, used-grows}
use sniper_synapse.Scoring.Condition.{condition_matches}
use sniper_synapse.Scoring.Decay.{decay_multiplier}
use sniper_synapse.Scoring.Engine.{
  evidence_signal, signal_types, Tally, count_rule, apply_rule, apply_rules,
}

-- A contribution of a rule of the group.
abbrev pub counts : String → Contribution → Bool
counts g m = str_eq m.rule.group_key g

-- The points of a group: the sum of all the contributions of its rules, with their signs.
unfoldable pub group_points : String → List Contribution → Milli
group_points g [] = pos 0
group_points g (m ∷ ms) =
    let rest = group_points g ms in if counts g m then m.effective +ℤ rest else rest

add_swap : (a b c : Milli) → a +ℤ (b +ℤ c) ≡ a +ℤ b +ℤ c
add_swap a b c = omega int_laws

add_zero : (a : Milli) → a +ℤ pos 0 ≡ pos 0 +ℤ a
add_zero a = omega int_laws

group_points-append :
    (g : String) (ms : List Contribution) (m : Contribution)
    → group_points g (ms ++ m ∷ [])
      ≡ (if counts g m then group_points g ms +ℤ m.effective else group_points g ms)
unfolding group_points
group_points-append g [] m = elim (Bool-cases (counts g m)) [
  | inl y ↦ rw y (add_zero m.effective)
  | inr n ↦ rw n
]
group_points-append g (x ∷ ms) m = elim (Bool-cases (counts g x)) [
  | inr n ↦ rw n (group_points-append g ms m)
  | inl y ↦ rw y (
      rw (group_points-append g ms m) (elim (Bool-cases (counts g m)) [
        | inl c ↦ rw c (add_swap x.effective (group_points g ms) m.effective)
        | inr c ↦ rw c
      ]))
]

-- A rule of another group, or one with a cap that is at most a bound.
abbrev pub CapWithin : String → Milli → ScoringRule → Type 0
CapWithin g bound rule =
    (str_eq rule.group_key g ≡ false)
    ⊎ ((cap : Milli) × (rule.group_cap ≡ some cap) × (cap ≤ℤ bound))

-- What holds of the loop's variables: the kept total of the group is at least its points, and it
-- is within the bound.
pub record Within (g : String) (bound : Milli) (tally : Tally) : Type 0 where
  pub covered : group_points g tally.matches ≤ℤ used g tally.group_totals
  pub within : used g tally.group_totals ≤ℤ bound

grown_by :
    (points effective total later : Milli)
    → points ≤ℤ total
    → later ≡ (if ltb_ℤ (pos 0) effective then total +ℤ effective else total)
    → points +ℤ effective ≤ℤ later
grown_by points effective total later h e = elim (Bool-cases (ltb_ℤ (pos 0) effective)) [
  | inl y ↦ rw (e, y) (ground (arith, h, y, +ℤ_parts points effective, +ℤ_parts total effective))
  | inr n ↦ rw (e, n) (ground (arith, h, n, +ℤ_parts points effective))
]

module _ (g : String) (bound : Milli) (named : str_eq g "" ≡ false) where
  other-same :
      (key : String) (cap : Option Milli) (effective : Milli) (totals : Totals)
      → str_eq key g ≡ false
      → used g (capped key cap effective totals).1 ≡ used g totals
  other-same key cap effective totals n = rw n at (used-grows key g cap effective totals named)

  count_rule-Within :
      (py : Python) (int_of : Json → Option ℤ) (rule : ScoringRule) (e : Option Signal)
      (m : Decimal) (t : Tally)
      → CapWithin g bound rule
      → Within g bound t
      → Within g bound (count_rule py int_of rule e m t)
  unfolding count_rule cap_group
  count_rule-Within py int_of rule e m t c w = elim (Bool-cases (str_eq rule.group_key g)) [
    | inr n ↦
        let kept : used g
              (capped rule.group_key rule.group_cap (scaled rule.points m) t.group_totals).1
            ≡ used g t.group_totals =
          other-same rule.group_key rule.group_cap (scaled rule.points m) t.group_totals n in
        record {
          covered = rw (group_points-append g t.matches _) (rw (n, kept) w.covered);
          within = rw kept w.within;
        }
    | inl y ↦ elim c [
      | inl n ↦ ground (arith, y, n)
      | inr (cap, is_cap, low) ↦
          let grows =
            used-grows rule.group_key g (some cap) (scaled rule.points m) t.group_totals named in
          record {
            covered = rw (group_points-append g t.matches _) (
                rw (y, is_cap)
                  (grown_by (group_points g t.matches)
                    (capped rule.group_key (some cap) (scaled rule.points m) t.group_totals).0
                    (used g t.group_totals) _ w.covered (rw y at grows)));
            within = rw is_cap (
                used-capped rule.group_key g cap bound (scaled rule.points m) t.group_totals
                  w.within low);
          }
    ]
  ]

  apply_rule-Within :
      (py : Python) (int_of : Json → Option ℤ) (as_of : ℕ) (facts : Facts) (signals : List Signal)
      (rule : ScoringRule) (t t' : Tally)
      → CapWithin g bound rule
      → Within g bound t
      → apply_rule py int_of as_of facts signals rule t ≡ ok t'
      → Within g bound t'
  unfolding apply_rule
  apply_rule-Within py int_of as_of facts signals rule t t' c w e =
      let (matched, em, rest) = bind-ok (condition_matches py facts 6 rule.condition) _ e in
      elim (Bool-cases matched) [
        | inr n ↦ let same : t ≡ t' = ground arith in rw same at w
        | inl y ↦
            let evidence = evidence_signal (signal_types 6 rule.condition) signals in
            let (m, ed, done) =
              bind-ok
                (decay_multiplier py int_of rule
                  (elim evidence [ none ↦ none | some s ↦ some s.observed_at ]) as_of)
                (λ m. ok (count_rule py int_of rule evidence m t)) (rw y at rest) in
            let same : count_rule py int_of rule evidence m t ≡ t' = ground arith in
            rw same at (count_rule-Within py int_of rule evidence m t c w)
      ]

  -- Over a whole run of the rules the points of a named group stay within any bound that each of
  -- its rules has a cap for.
  pub apply_rules-Within :
      (py : Python) (int_of : Json → Option ℤ) (as_of : ℕ) (facts : Facts) (signals : List Signal)
      (rules : List ScoringRule) (t t' : Tally)
      → All (CapWithin g bound) rules
      → Within g bound t
      → apply_rules py int_of as_of facts signals rules t ≡ ok t'
      → Within g bound t'
  unfolding apply_rules
  apply_rules-Within py int_of as_of facts signals [] t t' c w e =
      let same : t ≡ t' = ground arith in rw same at w
  apply_rules-Within py int_of as_of facts signals (rule ∷ rules) t t' c w e =
      let (u, eu, rest) = bind-ok (apply_rule py int_of as_of facts signals rule t) _ e in
      apply_rules-Within py int_of as_of facts signals rules u t' c.1
        (apply_rule-Within py int_of as_of facts signals rule t u c.0 w eu) rest
