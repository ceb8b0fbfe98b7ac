-- ===== src/Scoring/Score/Product.antt =====
-- The product and the classification of a snapshot.
use sniper_synapse.Base.{
  ℕ, ◌^◌, String, ◌≡◌, ◌≢◌, refl, true, false, some, List, [], ◌∷◌, arith, Bool-cases, inl, inr,
  Option-cases, filter_rows, All, ◌⊎◌,
}
use sniper_synapse.Base.Int.{pos, negsuc, ◌≤ℤ◌, leb_ℤ, ◌*ℤ◌}
use sniper_synapse.Scoring.Decimal.{Decimal, Milli, at_least, ltb_decimal}
use sniper_synapse.Scoring.Json.{Json, ok}
use sniper_synapse.Scoring.Models.{Dimension, mes, cmms, pulse}
use sniper_synapse.Scoring.Condition.Leaf.{Python}
use sniper_synapse.Scoring.Condition.Sound.{Succeeds}
use sniper_synapse.Scoring.Score.{
  product_score, best_value, eq_ℤ, is_best, product_keys, or_keys, tied_products, first_key,
  minimums, insert_threshold, sort_thresholds, classification_of, first_reached, classification,
}

module _ (scores : Dimension → Milli) where
  -- A key whose score is at least each of the three product scores.
  abbrev pub IsTop : String → Type 0
  IsTop key =
      (v : Milli) × (product_score scores key ≡ some v)
      × (scores mes ≤ℤ v)
      × (scores cmms ≤ℤ v)
      × (scores pulse ≤ℤ v)

  eq_ℤ-sound : (a b : Milli) → eq_ℤ a b ≡ true → (a ≤ℤ b) × (b ≤ℤ a)
  eq_ℤ-sound a b h = ground arith

  best_value-top :
      (scores mes ≤ℤ best_value scores)
      × (scores cmms ≤ℤ best_value scores)
      × (scores pulse ≤ℤ best_value scores)
  unfolding best_value
  best_value-top = (ground arith, ground arith, ground arith)

  is_best-IsTop : (key : String) → is_best scores key ≡ true → IsTop key
  unfolding is_best
  is_best-IsTop key h = elim (Option-cases (product_score scores key)) [
    | inl e ↦ let wrong : false ≡ true = rw (e, is_best) at h in cc
    | inr (v, e) ↦
        let top : eq_ℤ v (best_value scores) ≡ true = rw (e, is_best) at h in
        let (a, b) = eq_ℤ-sound v (best_value scores) top in
        let (p, q, r) = best_value-top in (v, e, omega arith, omega arith, omega arith)
  ]

  some_best :
      (is_best scores "MES" ≡ true)
      ⊎ (is_best scores "CMMS" ≡ true)
      ⊎ (is_best scores "PULSE" ≡ true)
  unfolding is_best product_score best_value
  some_best = ground arith

  head-of-filter :
      (xs : List String)
      → filter_rows (is_best scores) xs ≢ []
      → is_best scores (first_key (filter_rows (is_best scores) xs)) ≡ true
  head-of-filter [] h = absurd (h refl)
  head-of-filter (x ∷ xs) h = elim (Bool-cases (is_best scores x)) [
    | inl y ↦ rw (y) y
    | inr n ↦ rw n (head-of-filter xs (rw n at h))
  ]

  product_keys-best : filter_rows (is_best scores) product_keys ≢ []
  product_keys-best e = elim some_best [
    | inl m ↦ ground arith
    | inr (inl c) ↦ ground arith
    | inr (inr p) ↦ ground arith
  ]

  or_keys-first :
      (xs ys : List String)
      → (xs ≢ [] → is_best scores (first_key xs) ≡ true)
      → is_best scores (first_key ys) ≡ true
      → is_best scores (first_key (or_keys xs ys)) ≡ true
  or_keys-first [] ys h k = k
  or_keys-first (x ∷ xs) ys h k = h cc

  -- The product that is chosen has the highest of the three product scores, whatever `tie_order`
  -- holds: also if it is empty or names no product.
  pub tied_products-IsTop :
      (tie_order : List String) → IsTop (first_key (tied_products scores tie_order))
  unfolding tied_products
  tied_products-IsTop tie_order = is_best-IsTop _ (
      or_keys-first (filter_rows (is_best scores) tie_order)
        (filter_rows (is_best scores) product_keys) (head-of-filter tie_order)
        (head-of-filter product_keys product_keys-best))

-- A threshold that every score reaches.
abbrev pub CoversZero : Decimal × Json → Type 0
CoversZero t = t.0.mantissa ≡ pos 0

abbrev pub Contains {ℓ} : {A : Type ℓ} → (A → Type 0) → List A → Type 0
Contains P [] = ⊥
Contains P (x ∷ xs) = P x ⊎ Contains P xs

nonneg_product : (a : Milli) (k : ℕ) → pos 0 ≤ℤ a → leb_ℤ (pos 0 *ℤ pos 1000) (a *ℤ pos k) ≡ true
unfolding ◌*ℤ◌
nonneg_product (pos n) k h = ground arith
nonneg_product (negsuc n) k h = absurd (omega arith)

module _ (py : Python) (priority : Milli) (reached : pos 0 ≤ℤ priority) where
  zero-reached : (t : Decimal × Json) → CoversZero t → at_least priority t.0 ≡ true
  unfolding at_least
  zero-reached t z = rw z (nonneg_product priority (10 ^ t.0.places) reached)

  insert-All :
      (P : Decimal × Json → Type 0) (t : Decimal × Json) (ts : List (Decimal × Json))
      → P t
      → All P ts
      → All P (insert_threshold py t ts)
  unfolding insert_threshold
  insert-All P t [] h hs = (h, tt)
  insert-All P t (u ∷ us) h hs = elim (Bool-cases (ltb_decimal t.0 u.0)) [
    | inl y ↦ rw y (hs.0, insert-All P t us h hs.1)
    | inr n ↦ rw n (h, hs)
  ]

  insert-Contains :
      (t : Decimal × Json) (ts : List (Decimal × Json))
      → CoversZero t ⊎ Contains CoversZero ts
      → Contains CoversZero (insert_threshold py t ts)
  unfolding insert_threshold
  insert-Contains t [] h = h
  insert-Contains t (u ∷ us) h = elim (Bool-cases (ltb_decimal t.0 u.0)) [
    | inr n ↦ rw n h
    | inl y ↦ rw y (elim h [
      | inl own ↦ inr (insert-Contains t us (inl own))
      | inr (inl first) ↦ inl first
      | inr (inr later) ↦ inr (insert-Contains t us (inr later))
    ])
  ]

  sort-All :
      (P : Decimal × Json → Type 0) (ts : List (Decimal × Json))
      → All P ts
      → All P (sort_thresholds py ts)
  unfolding sort_thresholds
  sort-All P [] h = tt
  sort-All P (t ∷ ts) h = insert-All P t (sort_thresholds py ts) h.0 (sort-All P ts h.1)

  sort-Contains :
      (ts : List (Decimal × Json))
      → Contains CoversZero ts
      → Contains CoversZero (sort_thresholds py ts)
  unfolding sort_thresholds
  sort-Contains [] h = h
  sort-Contains (t ∷ ts) (inl own) = insert-Contains t (sort_thresholds py ts) (inl own)
  sort-Contains (t ∷ ts) (inr h) =
      insert-Contains t (sort_thresholds py ts) (inr (sort-Contains ts h))

  abbrev Labelled : Decimal × Json → Type 0
  Labelled t = Succeeds (classification_of py t.1)

  first_reached-Succeeds :
      (ts : List (Decimal × Json))
      → All Labelled ts
      → Contains CoversZero ts
      → Succeeds (first_reached py priority ts)
  unfolding first_reached
  first_reached-Succeeds [] l c = absurd c
  first_reached-Succeeds (t ∷ ts) l c = elim (Bool-cases (at_least priority t.0)) [
    | inl y ↦ rw y l.0
    | inr n ↦ rw n (elim c [
      | inl z ↦ let wrong : true ≡ false = rw (zero-reached t z) at n in cc
      | inr later ↦ first_reached-Succeeds ts l.1 later
    ])
  ]

  -- A priority that is not negative is always classified when the thresholds are readable, each
  -- with a classification, and one of them begins at zero.
  pub classification-Succeeds :
      (thresholds : List Json) (pairs : List (Decimal × Json))
      → minimums py thresholds ≡ ok pairs
      → All (λ t. Succeeds (classification_of py t.1)) pairs
      → Contains CoversZero pairs
      → Succeeds (classification py thresholds priority)
  unfolding classification
  classification-Succeeds thresholds pairs e l c = rw e (
      first_reached-Succeeds (sort_thresholds py pairs) (sort-All Labelled pairs l)
        (sort-Contains pairs c))
