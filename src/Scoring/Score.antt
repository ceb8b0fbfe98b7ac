-- ===== src/Scoring/Score.antt =====
-- The second half of `calculate_score` (apps/scoring/engine.py): dimensions, product, priority,
-- classification and the snapshot.
pub mod Bounds
pub mod Product
use sniper_synapse.Base.{
  ℕ, String, Bool, true, false, not, Option, none, some, List, [], ◌∷◌, str_eq, if◌then◌else◌,
  filter_rows,
}
use sniper_synapse.Base.Int.{ℤ, pos, ◌+ℤ◌, leb_ℤ, max_ℤ}
use sniper_synapse.Scoring.Decimal.{Decimal, Milli, scaled, clamp, at_least, ltb_decimal}
use sniper_synapse.Scoring.Json.{
  Json, text, dict, Entries, Result, ok, err, configuration, uncaught, ◌>>=◌, ◌>>◌, guard, get,
}
use sniper_synapse.Scoring.Models.{
  Target, industry, partner, Dimension, icp, mes, cmms, pulse, intent, partner_fit, channel,
  activity, conflict, RuleSet, Company, Contribution, FormulaTerm, Snapshot,
}
use sniper_synapse.Scoring.Condition.Leaf.{Python, decimal_json, str_value}
use sniper_synapse.Scoring.Engine.{
  Tally, empty_tally, apply_rules, target_of, get_active, is_allowed, live_signals, facts_of,
}

abbrev pub dimension_eq : Dimension → Dimension → Bool
dimension_eq icp icp = true
dimension_eq mes mes = true
dimension_eq cmms cmms = true
dimension_eq pulse pulse = true
dimension_eq intent intent = true
dimension_eq partner_fit partner_fit = true
dimension_eq channel channel = true
dimension_eq activity activity = true
dimension_eq conflict conflict = true
dimension_eq _ _ = false

abbrev dimension_names : List (String × Dimension)
dimension_names =
    ("ICP", icp)
    ∷ ("MES", mes)
    ∷ ("CMMS", cmms)
    ∷ ("PULSE", pulse)
    ∷ ("INTENT", intent)
    ∷ ("PARTNER_FIT", partner_fit)
    ∷ ("CHANNEL", channel)
    ∷ ("ACTIVITY", activity)
    ∷ ("CONFLICT", conflict)
    ∷ []

abbrev find_dimension : String → List (String × Dimension) → Option Dimension
find_dimension name [] = none
find_dimension name ((n, d) ∷ rest) = if str_eq n name then some d else find_dimension name rest

-- The sum of the effective points of one dimension, from `total` on.
unfoldable pub add_points : Dimension → Milli → List Contribution → Milli
add_points d total [] = total
add_points d total (m ∷ ms) =
    add_points d (if dimension_eq m.rule.dimension d then total +ℤ m.effective else total) ms

-- `dimensions`, summed and clamped.
unfoldable pub dimension_scores : List Contribution → Dimension → Milli
unfolding add_points
dimension_scores matches d = clamp (add_points d (pos 0) matches)

-- The entry of `products` for a key; a key of `tie_order` that is no product has none.
unfoldable pub product_score : (Dimension → Milli) → String → Option Milli
product_score scores key =
    if str_eq key "MES"
    then some (scores mes)
    else if str_eq key "CMMS"
    then some (scores cmms)
    else if str_eq key "PULSE"
    then some (scores pulse)
    else none

unfoldable pub best_value : (Dimension → Milli) → Milli
best_value scores = max_ℤ (scores mes) (max_ℤ (scores cmms) (scores pulse))

abbrev pub eq_ℤ : Milli → Milli → Bool
eq_ℤ a b = if leb_ℤ a b then leb_ℤ b a else false

unfoldable pub is_best : (Dimension → Milli) → String → Bool
is_best scores key = elim (product_score scores key) [
  | none ↦ false
  | some v ↦ eq_ℤ v (best_value scores)
]

abbrev pub product_keys : List String
product_keys = "MES" ∷ "CMMS" ∷ "PULSE" ∷ []

abbrev pub or_keys : List String → List String → List String
or_keys [] ys = ys
or_keys (x ∷ xs) ys = x ∷ xs

-- The products that share the best score, in the order of `tie_order`.
unfoldable pub tied_products : (Dimension → Milli) → List String → List String
unfolding is_best
tied_products scores tie_order =
    or_keys (filter_rows (is_best scores) tie_order) (filter_rows (is_best scores) product_keys)

abbrev pub first_key : List String → String
first_key [] = ""
first_key (x ∷ xs) = x

-- `(best_product, tied_products, best_value)`
unfoldable pub choose_product :
    Target → (Dimension → Milli) → List String → String × List String × Milli
choose_product industry scores tie_order =
    let tied = tied_products scores tie_order in (first_key tied, tied, best_value scores)
choose_product partner scores tie_order = ("", [], pos 0)

-- `best_value if dimension == "BEST_PRODUCT" else dimensions.get(dimension, ZERO)`
unfoldable pub formula_value : (Dimension → Milli) → Milli → String → Milli
formula_value scores best name =
    if str_eq name "BEST_PRODUCT"
    then best
    else elim (find_dimension name dimension_names) [ none ↦ pos 0 | some d ↦ scores d ]

module _ (py : Python) where
  -- The loop over `rule_set.formula.items()`, with the priority before the clamp.
  unfoldable pub apply_formula :
      (Dimension → Milli) → Milli → List (String × Json) → Milli → Result (Milli × List FormulaTerm)
  unfolding formula_value
  apply_formula scores best [] priority = ok (priority, [])
  apply_formula scores best ((name, j) ∷ rest) priority = do
    coefficient ← decimal_json py (some j)
    let value = formula_value scores best name
    let weighted = scaled value coefficient
    more ← apply_formula scores best rest (priority +ℤ weighted)
    ok (
      more.0,
      record { dimension = name; score = value; coefficient = coefficient; weighted = weighted }
          ∷ more.1,
    )

  -- `_decimal(item["min"])`
  abbrev pub minimum_of : Json → Result Decimal
  minimum_of (dict d) = elim (get "min" d) [
    | none ↦ err uncaught
    | some j ↦ decimal_json py (some j)
  ]
  minimum_of _ = err uncaught

  unfoldable pub minimums : List Json → Result (List (Decimal × Json))
  minimums [] = ok []
  minimums (t ∷ ts) = do m ← minimum_of t; ms ← minimums ts; ok ((m, t) ∷ ms)

  -- `sorted(..., reverse=True)`, which keeps the order of equal keys.
  unfoldable pub insert_threshold : Decimal × Json → List (Decimal × Json) → List (Decimal × Json)
  insert_threshold t [] = t ∷ []
  insert_threshold t (u ∷ us) =
      if ltb_decimal t.0 u.0 then u ∷ insert_threshold t us else t ∷ u ∷ us

  unfoldable pub sort_thresholds : List (Decimal × Json) → List (Decimal × Json)
  unfolding insert_threshold
  sort_thresholds [] = []
  sort_thresholds (t ∷ ts) = insert_threshold t (sort_thresholds ts)

  -- `threshold["classification"]`
  abbrev pub classification_of : Json → Result String
  classification_of (dict d) = elim (get "classification" d) [
    | none ↦ err uncaught
    | some j ↦ ok (str_value py (some j))
  ]
  classification_of _ = err uncaught

  unfoldable pub first_reached : Milli → List (Decimal × Json) → Result String
  first_reached priority [] = err configuration
  first_reached priority ((m, t) ∷ rest) =
      let later = first_reached priority rest in
      if at_least priority m then classification_of t else later

  -- `_classification`
  unfoldable pub classification : List Json → Milli → Result String
  unfolding minimums sort_thresholds first_reached
  classification thresholds priority = do
    pairs ← minimums thresholds
    first_reached priority (sort_thresholds pairs)

  -- `critical_outcome or _classification(rule_set, priority)`
  abbrev pub outcome : String → List Json → Milli → Result String
  outcome critical thresholds priority =
      if str_eq critical "" then classification thresholds priority else ok critical

  -- From the matched rules to the snapshot.
  unfoldable pub make_snapshot : Company → Target → RuleSet → ℕ → Tally → Result Snapshot
  unfolding dimension_scores choose_product apply_formula classification
  make_snapshot company target set as_of tally = do
    let scores = dimension_scores tally.matches
    let (best, tied, value) = choose_product target scores set.tie_order
    total ← apply_formula scores value set.formula (pos 0)
    let priority = clamp total.0
    label ← outcome tally.critical_outcome set.thresholds priority
    ok (record {
      company = company.id;
      rule_set = set.id;
      as_of = as_of;
      dimensions = scores;
      priority = priority;
      classification = label;
      best_product = best;
      tied_products = tied;
      formula_detail = total.1;
      contributions = tally.matches;
    })

  -- The rule set given, or the active one of the target.
  abbrev pub choose_set : Target → Option RuleSet → List RuleSet → Result RuleSet
  choose_set target none sets = get_active target sets
  choose_set target (some set) sets = ok set

  unfoldable pub calculate_score :
      (Json → Option ℤ) → List RuleSet → Company → ℕ → Option RuleSet → Bool → Result Snapshot
  unfolding make_snapshot
  calculate_score int_of sets company as_of rule_set allow_draft = do
    let target = target_of company
    set ← choose_set target rule_set sets
    guard (is_allowed allow_draft target set) configuration
    let signals = live_signals as_of company
    tally ←
        apply_rules py int_of as_of (facts_of company signals) signals
          (filter_rows (λ r. r.active) set.rules) empty_tally
    make_snapshot company target set as_of tally
