-- ===== src/Scoring/Group.antt =====
-- The cap of a group of rules in `calculate_score` (apps/scoring/engine.py).
use sniper_synapse.Base.{
  String, ◌≡◌, false, not, ◌&&◌, Option, none, some, List, [], ◌∷◌, arith, str_eq, eq_iff,
  if◌then◌else◌, is_some,
}
use sniper_synapse.Base.Int.{pos, ◌+ℤ◌, ◌-ℤ◌, ◌≤ℤ◌, ltb_ℤ, min_ℤ, max_ℤ, +ℤ_parts, -ℤ_parts}
use sniper_synapse.Scoring.Decimal.{Milli}
use sniper_synapse.Scoring.Models.{ScoringRule}

abbrev pub Totals : Type 0
Totals = List (String × Milli)

-- `group_totals.get(key, ZERO)`
abbrev pub used : String → Totals → Milli
used key [] = pos 0
used key ((k, v) ∷ t) = if str_eq k key then v else used key t

-- `group_totals[key] = value`
abbrev pub put : String → Milli → Totals → Totals
put key v t = (key, v) ∷ t

-- `max(ZERO, min(effective, cap - used))`
unfoldable pub granted : Milli → Milli → Milli → Milli
granted cap effective used_before = max_ℤ (pos 0) (min_ℤ effective (cap -ℤ used_before))

granted_lem :
    (cap effective used_before bound : Milli)
    → used_before ≤ℤ bound
    → cap ≤ℤ bound
    → used_before +ℤ granted cap effective used_before ≤ℤ bound
unfolding granted
granted_lem cap effective used_before bound h c =
    ground
      (arith, +ℤ_parts used_before (granted cap effective used_before), -ℤ_parts cap used_before)

unfoldable pub capped : String → Option Milli → Milli → Totals → Milli × Totals
capped key none effective totals = (effective, totals)
capped key (some cap) effective totals =
    if not (str_eq key "") && ltb_ℤ (pos 0) effective
    then (let g = granted cap effective (used key totals) in
        (g, put key (used key totals +ℤ g) totals))
    else (effective, totals)

-- What a rule adds to its dimension, and the totals after it.
unfoldable pub cap_group : ScoringRule → Milli → Totals → Milli × Totals
unfolding capped
cap_group rule effective totals = capped rule.group_key rule.group_cap effective totals

-- A group's total stays at or below a bound that every cap of the group respects.
pub used-capped :
    (key g : String) (cap bound effective : Milli) (totals : Totals)
    → used g totals ≤ℤ bound
    → cap ≤ℤ bound
    → used g (capped key (some cap) effective totals).1 ≤ℤ bound
unfolding capped
used-capped key g cap bound effective totals h c =
    ground (arith, granted_lem cap effective (used key totals) bound, eq_iff key g)

granted_nonneg : (cap effective used_before : Milli) → pos 0 ≤ℤ granted cap effective used_before
unfolding granted
granted_nonneg cap effective used_before = ground arith

nothing_more : (a b : Milli) → pos 0 ≤ℤ b → ltb_ℤ (pos 0) b ≡ false → a +ℤ b ≡ a
unfolding ◌+ℤ◌
nothing_more a b h n = ground arith

-- The total of a named group grows by what a capped rule of the group is granted, and by nothing
-- else.
pub used-grows :
    (key g : String) (cap : Option Milli) (effective : Milli) (totals : Totals)
    → str_eq g "" ≡ false
    → let (e, totals') = capped key cap effective totals in
      used g totals' ≡ (
        if str_eq key g && is_some cap && ltb_ℤ (pos 0) e
        then used g totals +ℤ e
        else used g totals)
unfolding capped
used-grows key g none effective totals h = ground arith
used-grows key g (some cap) effective totals h = ground (
  arith,
  eq_iff key g,
  eq_iff key "",
  eq_iff g "",
  granted_nonneg cap effective (used key totals),
  nothing_more (used key totals) (granted cap effective (used key totals)),
)
