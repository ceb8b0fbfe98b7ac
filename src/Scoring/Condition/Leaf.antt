-- ===== src/Scoring/Condition/Leaf.antt =====
-- The comparison of one field in `condition_matches` (apps/scoring/engine.py).
use package.text.Mathlib.Text.{starts_with}
use Prim.Native.String.{[] as nil_text, ◌∷◌ as cons_text}
use sniper_synapse.Base.{
  ℕ, suc, String, Bool, true, false, not, ◌||◌, ◌&&◌, Option, none, some, List, [], ◌∷◌, str_eq,
  if◌then◌else◌, ltb, any, all,
}
use sniper_synapse.Scoring.Decimal.{Decimal, ltb_decimal, leb_decimal}
use sniper_synapse.Scoring.Json.{
  Json, num, text, list, dict, Items, nil, cons, Entries, configuration, uncaught, Result, ok, err,
  ◌>>=◌, get, has_key, to_list,
}

-- What the code takes from Python: `Decimal(str)` on a text (none: it raises), `str.casefold`,
-- `str` of the values that are no text, and `re.search(..., re.IGNORECASE)` (none: `re.error`).
pub record Python : Type 0 where
  pub decimal_of : String → Option Decimal
  pub casefold : String → String
  pub str_json : Option Json → String
  pub str_texts : List String → String
  pub str_set : List String → String
  pub search : String → String → Option Bool

-- `len(s)`
abbrev pub text_length : String → ℕ
text_length nil_text = 0
text_length (cons_text c s) = suc (text_length s)

-- `needle in haystack`
unfoldable pub is_in : String → String → Bool
is_in needle nil_text = starts_with "" needle
is_in needle (cons_text c s) = starts_with (cons_text c s) needle || is_in needle s

-- A field of a company is a text, its CNAEs are a list of texts, and the types of its signals a
-- set of texts.
pub data Fact : Type 0 where
  word : String → Fact
  words : List String → Fact
  word_set : List String → Fact

pub record Facts : Type 0 where
  pub company_type : String
  pub registration_status : String
  pub commercial_status : String
  pub state : String
  pub municipality_code : String
  pub size_code : String
  pub segment : String
  pub cnaes : List String
  pub signal_types : List String

-- `cnaes[0] if cnaes else ""`
abbrev pub primary_cnae : List String → String
primary_cnae [] = ""
primary_cnae (c ∷ cs) = c

-- `facts.get(field)`; none is a field outside `ALLOWED_FIELDS`.
unfoldable pub fact : Facts → String → Option Fact
fact f name =
    if str_eq name "company_type"
    then some (word f.company_type)
    else if str_eq name "registration_status"
    then some (word f.registration_status)
    else if str_eq name "commercial_status"
    then some (word f.commercial_status)
    else if str_eq name "state"
    then some (word f.state)
    else if str_eq name "municipality_code"
    then some (word f.municipality_code)
    else if str_eq name "size_code"
    then some (word f.size_code)
    else if str_eq name "segment"
    then some (word f.segment)
    else if str_eq name "primary_cnae"
    then some (word (primary_cnae f.cnaes))
    else if str_eq name "cnaes"
    then some (words f.cnaes)
    else if str_eq name "signal_types"
    then some (word_set f.signal_types)
    else none

pub data Operator : Type 0 where
  op_eq op_ne op_gt op_gte op_lt op_lte op_in op_not_in op_between op_exists op_not_exists :
      Operator
  op_contains_keyword op_contains_any op_contains_all op_regex op_has_cnae_prefix : Operator
  op_has_signal : Operator

abbrev operators : List (String × Operator)
operators =
    ("EQ", op_eq)
    ∷ ("NE", op_ne)
    ∷ ("GT", op_gt)
    ∷ ("GTE", op_gte)
    ∷ ("LT", op_lt)
    ∷ ("LTE", op_lte)
    ∷ ("IN", op_in)
    ∷ ("NOT_IN", op_not_in)
    ∷ ("BETWEEN", op_between)
    ∷ ("EXISTS", op_exists)
    ∷ ("NOT_EXISTS", op_not_exists)
    ∷ ("CONTAINS_KEYWORD", op_contains_keyword)
    ∷ ("CONTAINS_ANY", op_contains_any)
    ∷ ("CONTAINS_ALL", op_contains_all)
    ∷ ("REGEX", op_regex)
    ∷ ("HAS_CNAE_PREFIX", op_has_cnae_prefix)
    ∷ ("HAS_SIGNAL", op_has_signal)
    ∷ []

abbrev find_operator : String → List (String × Operator) → Option Operator
find_operator name [] = none
find_operator name ((n, o) ∷ rest) = if str_eq n name then some o else find_operator name rest

unfoldable pub operator_of : String → Option Operator
operator_of name = find_operator name operators

-- `actual == expected`, with `None` for a missing value.
abbrev same_words : List String → Items → Bool
same_words [] nil = true
same_words (w ∷ ws) (cons (text t) xs) = str_eq w t && same_words ws xs
same_words _ _ = false

unfoldable pub same : Fact → Option Json → Bool
same (word w) (some (text t)) = str_eq w t
same (words ws) (some (list xs)) = same_words ws xs
same _ _ = false

abbrev pub options : Items → List (Option Json)
options nil = []
options (cons x xs) = some x ∷ options xs

-- `expected if isinstance(expected, list) else [expected]`
unfoldable pub as_list : Option Json → List (Option Json)
as_list (some (list xs)) = options xs
as_list e = e ∷ []

-- `actual not in (None, "", [], {})`: a set, empty or not, equals none of the four.
unfoldable pub present : Fact → Bool
present (word w) = not (str_eq w "")
present (words []) = false
present (words (w ∷ ws)) = true
present (word_set ws) = true

module _ (py : Python) where
  -- `_decimal`
  unfoldable pub decimal_fact : Fact → Result Decimal
  decimal_fact (word w) = elim (py.decimal_of w) [ none ↦ err configuration | some d ↦ ok d ]
  decimal_fact (words ws) = err configuration
  decimal_fact (word_set ws) = err configuration

  unfoldable pub decimal_json : Option Json → Result Decimal
  decimal_json (some (num d)) = ok d
  decimal_json (some (text t)) = elim (py.decimal_of t) [ none ↦ err configuration | some d ↦ ok d ]
  decimal_json _ = err configuration

  -- `actual in expected`
  unfoldable pub member : Fact → Option Json → Result Bool
  member f (some (list xs)) = ok (any (λ x. same f (some x)) (to_list xs))
  member (word w) (some (text t)) = ok (is_in w t)
  member (word w) (some (dict d)) = ok (has_key w d)
  member _ _ = err uncaught

  -- `_decimal(low) <= _decimal(actual) <= _decimal(high)`, which reads `high` last.
  unfoldable pub between : Fact → Option Json → Result Bool
  unfolding decimal_fact decimal_json
  between f (some (list (cons low (cons high nil)))) = do
    l ← decimal_json (some low)
    a ← decimal_fact f
    if leb_decimal l a then (do h ← decimal_json (some high); ok (leb_decimal a h)) else ok false
  between f _ = err configuration

  -- `str(actual or "")`
  unfoldable pub str_fact : Fact → String
  str_fact (word w) = w
  str_fact (words []) = ""
  str_fact (words (w ∷ ws)) = py.str_texts (w ∷ ws)
  str_fact (word_set []) = ""
  str_fact (word_set (w ∷ ws)) = py.str_set (w ∷ ws)

  -- `str(item)`
  unfoldable pub str_value : Option Json → String
  str_value (some (text t)) = t
  str_value e = py.str_json e

  abbrev found_in : Fact → Option Json → Bool
  found_in f item = is_in (py.casefold (str_value item)) (py.casefold (str_fact f))

  abbrev has_prefix : Option Json → String → Bool
  has_prefix e code = any (λ item. starts_with code (str_value item)) (as_list e)

  -- `item in facts["signal_types"]`, which raises on a list or a dict.
  unfoldable pub any_signal : List String → List (Option Json) → Result Bool
  any_signal types [] = ok false
  any_signal types (some (text t) ∷ rest) =
      let later = any_signal types rest in if any (str_eq t) types then ok true else later
  any_signal types (some (list _) ∷ rest) = err uncaught
  any_signal types (some (dict _) ∷ rest) = err uncaught
  any_signal types (_ ∷ rest) = any_signal types rest

  compare_decimals : (Decimal → Decimal → Bool) → Fact → Option Json → Result Bool
  compare_decimals test f e = do a ← decimal_fact f; b ← decimal_json e; ok (test a b)

  unfoldable pub search : Fact → Option Json → Result Bool
  unfolding str_fact str_value
  search f e =
      let pattern = str_value e in
      if ltb 200 (text_length pattern) || ltb 5000 (text_length (str_fact f))
      then err configuration
      else elim (py.search pattern (str_fact f)) [ none ↦ err uncaught | some b ↦ ok b ]

  -- The chain of `if operator ...`.
  unfoldable pub apply_operator : Facts → Operator → Fact → Option Json → Result Bool
  unfolding compare_decimals member between search any_signal present same
  apply_operator facts op_eq f e = ok (same f e)
  apply_operator facts op_ne f e = ok (not (same f e))
  apply_operator facts op_gt f e = compare_decimals (λ a b. ltb_decimal b a) f e
  apply_operator facts op_gte f e = compare_decimals (λ a b. leb_decimal b a) f e
  apply_operator facts op_lt f e = compare_decimals ltb_decimal f e
  apply_operator facts op_lte f e = compare_decimals leb_decimal f e
  apply_operator facts op_in f e = member f e
  apply_operator facts op_not_in f e = do b ← member f e; ok (not b)
  apply_operator facts op_between f e = between f e
  apply_operator facts op_exists f e = ok (present f)
  apply_operator facts op_not_exists f e = ok (not (present f))
  apply_operator facts op_contains_keyword f e = ok (any (found_in f) (as_list e))
  apply_operator facts op_contains_any f e = ok (any (found_in f) (as_list e))
  apply_operator facts op_contains_all f e = ok (all (found_in f) (as_list e))
  apply_operator facts op_regex f e = search f e
  apply_operator facts op_has_cnae_prefix f e = ok (any (has_prefix e) facts.cnaes)
  apply_operator facts op_has_signal f e = any_signal facts.signal_types (as_list e)

  -- A name that is a list or a dict cannot be looked up in the set of allowed names.
  unfoldable pub name_of : Option Json → Result String
  name_of (some (text t)) = ok t
  name_of (some (list _)) = err uncaught
  name_of (some (dict _)) = err uncaught
  name_of _ = err configuration

  unfoldable pub leaf_matches : Facts → Entries → Result Bool
  unfolding name_of fact operator_of apply_operator
  leaf_matches facts condition = do
    field ← name_of (get "field" condition)
    elim (fact facts field) [
      | none ↦ err configuration
      | some actual ↦ do
        op ← name_of (get "op" condition)
        elim (operator_of op) [
          | none ↦ err configuration
          | some o ↦ apply_operator facts o actual (get "value" condition)
        ]
    ]
