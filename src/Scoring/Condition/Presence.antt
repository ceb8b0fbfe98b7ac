-- ===== src/Scoring/Condition/Presence.antt =====
-- `EXISTS` and `NOT_EXISTS` of `condition_matches`, on the two facts that are collections.
use sniper_synapse.Base.{ℕ, suc, String, ◌≡◌, refl, Bool, true, false, List, [], ◌∷◌}
use sniper_synapse.Scoring.Json.{Json, text, dict, entry, empty, ok}
use sniper_synapse.Scoring.Condition.Leaf.{Python, Facts, words, leaf_matches, present}
use sniper_synapse.Scoring.Condition.{condition_matches}

-- {"field": field, "op": op, "value": value}
abbrev pub simple : String → String → Json → Json
simple field op value =
    dict (entry "field" (text field) (entry "op" (text op) (entry "value" value empty)))

abbrev pub is_nonempty : List String → Bool
is_nonempty [] = false
is_nonempty (x ∷ xs) = true

cnaes_present : (cs : List String) → present (words cs) ≡ is_nonempty cs
unfolding present
cnaes_present [] = refl
cnaes_present (c ∷ cs) = refl

-- `EXISTS` on the CNAEs of a company holds exactly if there are any. On the types of its signals it
-- holds for every company, also one without a signal, and `NOT_EXISTS` for none, since the empty set
-- is not among the values that the code takes for absent.
pub exists_on_collections :
    (py : Python) (facts : Facts) (levels : ℕ) (value : Json)
    → (condition_matches py facts (suc levels) (simple "cnaes" "EXISTS" value)
        ≡ ok (is_nonempty facts.cnaes))
      × (condition_matches py facts (suc levels) (simple "signal_types" "EXISTS" value) ≡ ok true)
      × (condition_matches py facts (suc levels) (simple "signal_types" "NOT_EXISTS" value)
          ≡ ok false)
unfolding condition_matches leaf_matches
exists_on_collections py facts levels value = (rw (cnaes_present facts.cnaes), refl, refl)
