-- ===== src/Scoring/Validate.antt =====
-- `_validate_condition` of apps/scoring/services.py. `remaining` counts the levels that are left,
-- as in `condition_matches`.
use sniper_synapse.Base.{
  ℕ, zero, suc, String, Bool, true, false, not, ◌&&◌, ◌||◌, Option, none, some, str_eq,
  if◌then◌else◌, ◌==◌, ltb,
}
use sniper_synapse.Scoring.Json.{
  Json, list, dict, Items, nil, cons, Entries, empty, entry, Result, ok, err, configuration, ◌>>=◌,
  ◌>>◌, guard, get, has_key, size, count,
}
use sniper_synapse.Scoring.Condition.Leaf.{
  Python, Operator, op_in, op_not_in, op_between, op_regex, operator_of, name_of, str_value,
  text_length,
}
use sniper_synapse.Scoring.Condition.{Compound, all_of, any_of, not_of, compound_count, compound_of}

unfoldable pub is_allowed_field : String → Bool
is_allowed_field name =
    str_eq name "company_type"
    || str_eq name "registration_status"
    || str_eq name "commercial_status"
    || str_eq name "state"
    || str_eq name "municipality_code"
    || str_eq name "size_code"
    || str_eq name "segment"
    || str_eq name "primary_cnae"
    || str_eq name "cnaes"
    || str_eq name "signal_types"

abbrev pub is_list : Option Json → Bool
is_list (some (list _)) = true
is_list _ = false

abbrev pub is_pair : Option Json → Bool
is_pair (some (list xs)) = count xs == 2
is_pair _ = false

-- The pattern compiles (`re.compile`), given for each pattern.
unfoldable pub validate_value :
    Python → (String → Bool) → Operator → Option Json → Result (Unit {0})
validate_value py compiles op_between value = guard (is_pair value) configuration
validate_value py compiles op_in value = guard (is_list value) configuration
validate_value py compiles op_not_in value = guard (is_list value) configuration
validate_value py compiles op_regex value =
    let pattern = str_value py value in
    guard (not (ltb 200 (text_length pattern))) configuration
    >> guard (compiles pattern) configuration
validate_value py compiles _ value = ok tt

-- `set(condition) == {"field", "op", "value"}`
unfoldable pub is_simple : Entries → Bool
is_simple d = size d == 3 && has_key "field" d && has_key "op" d && has_key "value" d

unfoldable pub validate_leaf : Python → (String → Bool) → Entries → Result (Unit {0})
unfolding is_simple validate_value is_allowed_field
validate_leaf py compiles d = do
  guard (is_simple d) configuration
  field ← name_of py (get "field" d)
  guard (is_allowed_field field) configuration
  op ← name_of py (get "op" d)
  elim (operator_of op) [
    | none ↦ err configuration
    | some o ↦ validate_value py compiles o (get "value" d)
  ]

-- `for child in children: _validate_condition(child, ...)`
unfoldable pub validate_each : (Json → Result (Unit {0})) → Items → Result (Unit {0})
validate_each f nil = ok tt
validate_each f (cons x xs) = f x >> validate_each f xs

unfoldable pub validate_compound : (Json → Result (Unit {0})) → Compound → Json → Result (Unit {0})
unfolding validate_each
validate_compound f not_of child = f child
validate_compound f key (list nil) = err configuration
validate_compound f all_of (list (cons x xs)) = validate_each f (cons x xs)
validate_compound f any_of (list (cons x xs)) = validate_each f (cons x xs)
validate_compound f key _ = err configuration

module _ (py : Python) (compiles : String → Bool) where
  unfoldable pub validate_condition : ℕ → Json → Result (Unit {0})
  unfolding compound_count compound_of validate_compound validate_leaf
  validate_condition zero condition = err configuration
  validate_condition (suc remaining) (dict empty) = err configuration
  validate_condition (suc remaining) (dict (entry k v d)) =
      let condition = entry k v d in
      let compound : Result (Unit {0}) = (do
        p ← compound_of condition
        validate_compound (validate_condition remaining) p.0 p.1) in
      if compound_count condition == 0 then validate_leaf py compiles condition else compound
  validate_condition (suc remaining) _ = err configuration
