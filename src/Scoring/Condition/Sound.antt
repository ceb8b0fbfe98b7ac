-- ===== src/Scoring/Condition/Sound.antt =====
-- What validation gives the engine: a validated condition fails only in one of its comparisons.
use sniper_synapse.Base.{
  ℕ, zero, suc, ◌≡◌, refl, Bool, ◌==◌, Bool-cases, inl, inr, String, not, List, [], ◌∷◌, ◌++◌, All,
  if◌then◌else◌, all, any,
}
use sniper_synapse.Scoring.Json.{
  Json, list, dict, Items, nil, cons, Entries, empty, entry, Result, ok, err, bind-ok,
}
use sniper_synapse.Scoring.Condition.Leaf.{Python, Facts, leaf_matches}
use sniper_synapse.Scoring.Condition.{
  Compound, all_of, any_of, not_of, compound_count, compound_of, each, holds, compound_matches,
  condition_matches,
}
use sniper_synapse.Scoring.Validate.{validate_each, validate_compound, validate_condition}

abbrev pub Succeeds {ℓ} : {A : Type ℓ} → Result A → Type ℓ
Succeeds {A = A} r = (a : A) × (r ≡ ok a)

unfoldable pub each_leaves : (Json → List Entries) → Items → List Entries
each_leaves f nil = []
each_leaves f (cons x xs) = f x ++ each_leaves f xs

unfoldable pub compound_leaves : (Json → List Entries) → Compound → Json → List Entries
compound_leaves f not_of j = f j
compound_leaves f key (list xs) = each_leaves f xs
compound_leaves f key _ = []

-- The comparisons of a condition, down to a level.
unfoldable pub leaves : ℕ → Json → List Entries
unfolding compound_leaves each_leaves
leaves zero condition = []
leaves (suc n) (dict d) =
    let below : List Entries = elim (compound_of d) [
      | err e ↦ []
      | ok p ↦ compound_leaves (leaves n) p.0 p.1
    ] in
    if compound_count d == 0 then d ∷ [] else below
leaves (suc n) _ = []

All-left {ℓ κ} :
    {A : Type ℓ} (P : A → Type κ) (xs ys : List A) → All P (xs ++ ys) → All P xs × All P ys
All-left P [] ys h = (tt, h)
All-left P (x ∷ xs) ys h = let (a, b) = All-left P xs ys h.1 in ((h.0, a), b)

module _ (py : Python) (compiles : String → Bool) (facts : Facts) where
  abbrev LeafSucceeds : Entries → Type 0
  LeafSucceeds d = Succeeds (leaf_matches py facts d)

  module _ (f : Json → Result (Unit {0})) (g : Json → Result Bool) (l : Json → List Entries) where
    each-Succeeds :
        (xs : Items)
        → ((j : Json) → All LeafSucceeds (l j) → f j ≡ ok tt → Succeeds (g j))
        → All LeafSucceeds (each_leaves l xs)
        → validate_each f xs ≡ ok tt
        → Succeeds (each g xs)
    unfolding validate_each each each_leaves
    each-Succeeds nil h ls v = (_, refl)
    each-Succeeds (cons x xs) h ls v =
        let (lx, lxs) = All-left LeafSucceeds (l x) (each_leaves l xs) ls in
        let (u, ex, rest) = bind-ok (f x) (λ _. validate_each f xs) v in
        let (b, eb) = h x lx ex in
        let (bs, ebs) = each-Succeeds xs h lxs rest in (b ∷ bs, rw (eb, ebs))

    compound-Succeeds :
        (key : Compound) (j : Json)
        → ((j : Json) → All LeafSucceeds (l j) → f j ≡ ok tt → Succeeds (g j))
        → All LeafSucceeds (compound_leaves l key j)
        → validate_compound f key j ≡ ok tt
        → Succeeds (compound_matches g key j)
    unfolding validate_compound compound_matches compound_leaves
    compound-Succeeds not_of j h ls v = let (b, e) = h j ls v in (not b, rw e)
    compound-Succeeds all_of (list (cons x xs)) h ls v =
        let (bs, e) = each-Succeeds (cons x xs) h ls v in (all holds bs, rw e)
    compound-Succeeds any_of (list (cons x xs)) h ls v =
        let (bs, e) = each-Succeeds (cons x xs) h ls v in (any holds bs, rw e)
    compound-Succeeds all_of (list nil) h ls v = cc
    compound-Succeeds any_of (list nil) h ls v = cc
    compound-Succeeds all_of _ h ls v = cc
    compound-Succeeds any_of _ h ls v = cc

  -- A validated condition is matched without an exception, to a definite truth value, whenever each
  -- of its comparisons gives a result on the facts: validation leaves no other way to fail.
  pub validated-Succeeds :
      (remaining : ℕ) (condition : Json)
      → All (λ d. Succeeds (leaf_matches py facts d)) (leaves remaining condition)
      → validate_condition py compiles remaining condition ≡ ok tt
      → Succeeds (condition_matches py facts remaining condition)
  unfolding validate_condition condition_matches leaves
  validated-Succeeds zero condition ls v = cc
  validated-Succeeds (suc n) (dict (entry k w d)) ls v =
      elim (Bool-cases (compound_count (entry k w d) == 0)) [
        | inl y ↦ let own : All LeafSucceeds (entry k w d ∷ []) = rw y at ls in rw y own.0
        | inr m ↦
            let (p, e, r) =
              bind-ok (compound_of (entry k w d))
                (λ p. validate_compound (validate_condition py compiles n) p.0 p.1) (rw m at v) in
            let (b, eb) =
              compound-Succeeds (validate_condition py compiles n) (condition_matches py facts n)
                (leaves n) p.0 p.1 (λ j. validated-Succeeds n j) (rw (m, e) at ls) r in
            (b, rw (m, e, eb))
      ]
  validated-Succeeds (suc n) (dict empty) ls v = cc
  validated-Succeeds (suc n) _ ls v = cc
