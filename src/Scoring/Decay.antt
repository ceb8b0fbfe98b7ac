-- ===== src/Scoring/Decay.antt =====
-- `decay_multiplier` of apps/scoring/engine.py.
use sniper_synapse.Base.{ℕ, ◌-◌, ◌/◌, Option, none, some, List, [], ◌∷◌, if◌then◌else◌}
use sniper_synapse.Base.Int.{ℤ, pos, leb_ℤ}
use sniper_synapse.Scoring.Decimal.{Decimal}
use sniper_synapse.Scoring.Json.{
  Json, null, num, text, dict, Entries, empty, entry, Result, ok, err, uncaught, ◌>>=◌, get,
}
use sniper_synapse.Scoring.Condition.Leaf.{Python, decimal_json}
use sniper_synapse.Scoring.Models.{DecayPolicy, no_decay, age_buckets, ScoringRule}

abbrev pub one : Decimal
one = record { mantissa = pos 1; places = 0 }

abbrev pub zero_decimal : Decimal
zero_decimal = record { mantissa = pos 0; places = 0 }

abbrev days : ℕ → Json
days n = num (record { mantissa = pos n; places = 0 })

abbrev pub bucket : Json → Json → Json
bucket limit multiplier = dict (entry "max_days" limit (entry "multiplier" multiplier empty))

-- `DEFAULT_DECAY_CURVE`
abbrev pub default_decay_curve : List Json
default_decay_curve =
    bucket (days 30) (text "1.00")
    ∷ bucket (days 60) (text "0.80")
    ∷ bucket (days 90) (text "0.60")
    ∷ bucket (days 180) (text "0.30")
    ∷ bucket null (text "0.10")
    ∷ []

abbrev pub or_default : List Json → List Json
or_default [] = default_decay_curve
or_default (b ∷ bs) = b ∷ bs

-- `max(0, (as_of.date() - observed_at.date()).days)`
unfoldable pub age_days : ℕ → ℕ → ℕ
age_days as_of observed_at = as_of / 86400 - observed_at / 86400

module _ (py : Python) (int_of : Json → Option ℤ) where
  -- `_decimal(bucket["multiplier"])`; a missing key raises `KeyError`.
  abbrev pub multiplier_of : Entries → Result Decimal
  multiplier_of d = elim (get "multiplier" d) [
    | none ↦ err uncaught
    | some j ↦ decimal_json py (some j)
  ]

  -- `int(maximum)`
  abbrev pub limit_of : Json → Result ℤ
  limit_of j = elim (int_of j) [ none ↦ err uncaught | some n ↦ ok n ]

  unfoldable pub find_bucket : ℕ → List Json → Result Decimal
  find_bucket age [] = ok zero_decimal
  find_bucket age (dict d ∷ rest) =
      let later = find_bucket age rest in
      elim (get "max_days" d) [
        | none ↦ multiplier_of d
        | some null ↦ multiplier_of d
        | some j ↦ (do n ← limit_of j; if leb_ℤ (pos age) n then multiplier_of d else later)
      ]
  find_bucket age (_ ∷ rest) = err uncaught

  decay_of : DecayPolicy → List Json → Option ℕ → ℕ → Result Decimal
  decay_of no_decay curve observed_at as_of = ok one
  decay_of age_buckets curve none as_of = ok one
  decay_of age_buckets curve (some t) as_of = find_bucket (age_days as_of t) (or_default curve)

  unfoldable pub decay_multiplier : ScoringRule → Option ℕ → ℕ → Result Decimal
  unfolding decay_of
  decay_multiplier rule observed_at as_of =
      decay_of rule.decay_policy rule.decay_curve observed_at as_of
