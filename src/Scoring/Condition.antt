-- ===== src/Scoring/Condition.antt =====
-- `condition_matches` of apps/scoring/engine.py. `remaining` counts the levels that are left: the
-- call at depth d has 6 - d of them, so `depth > 5` is none left.
pub mod Leaf
pub mod Sound
pub mod Presence
use sniper_synapse.Base.{
  ℕ, zero, suc, ◌+◌, String, Bool, true, false, not, ◌||◌, ◌&&◌, Option, none, some, List, [], ◌∷◌,
  str_eq, if◌then◌else◌, ◌==◌, any, all,
}
use sniper_synapse.Scoring.Json.{
  Json, null, bool, num, text, list, dict, Items, nil, cons, Entries, empty, entry, Failure,
  configuration, uncaught, Result, ok, err, ◌>>=◌, ◌>>◌, guard, get, has_key, size, to_list,
}
use sniper_synapse.Scoring.Condition.Leaf.{Python, Facts, leaf_matches}

-- The keys of a compound condition.
pub data Compound : Type 0 where
  all_of any_of not_of : Compound

abbrev flag : Bool → ℕ
flag true = 1
flag false = 0

-- `[key for key in ("all", "any", "not") if key in condition]`
unfoldable pub compound_count : Entries → ℕ
compound_count d = flag (has_key "all" d) + flag (has_key "any" d) + flag (has_key "not" d)

-- The operation and the children of a dict with exactly one compound key and no other.
unfoldable pub compound_of : Entries → Result (Compound × Json)
compound_of (entry k v empty) =
    if str_eq k "all"
    then ok (all_of, v)
    else if str_eq k "any"
    then ok (any_of, v)
    else if str_eq k "not"
    then ok (not_of, v)
    else err configuration
compound_of _ = err configuration

-- `[condition_matches(child, ...) for child in children]`
-- `[condition_matches(child, ...) for child in children]`
unfoldable pub each : (Json → Result Bool) → Items → Result (List Bool)
each f nil = ok []
each f (cons x xs) = do b ← f x; bs ← each f xs; ok (b ∷ bs)

abbrev pub holds : Bool → Bool
holds b = b

-- The branch of a compound condition, over the recursive call.
unfoldable pub compound_matches : (Json → Result Bool) → Compound → Json → Result Bool
unfolding each
compound_matches f not_of child = do b ← f child; ok (not b)
compound_matches f key (list nil) = err configuration
compound_matches f all_of (list (cons x xs)) = do bs ← each f (cons x xs); ok (all holds bs)
compound_matches f any_of (list (cons x xs)) = do bs ← each f (cons x xs); ok (any holds bs)
compound_matches f key _ = err configuration

module _ (py : Python) (facts : Facts) where
  unfoldable pub condition_matches : ℕ → Json → Result Bool
  unfolding compound_count compound_of compound_matches
  condition_matches zero condition = err configuration
  condition_matches (suc remaining) (dict empty) = err configuration
  condition_matches (suc remaining) (dict (entry k v d)) =
      let condition = entry k v d in
      let compound : Result Bool = (do
        p ← compound_of condition
        compound_matches (condition_matches remaining) p.0 p.1) in
      if compound_count condition == 0 then leaf_matches py facts condition else compound
  condition_matches (suc remaining) _ = err configuration
