-- ===== src/Scoring/Decimal.antt =====
-- The decimal arithmetic of apps/scoring/engine.py. A `DecimalField` with three places is an
-- integer of thousandths; a number of a JSON column is a mantissa and a count of decimal places.
-- Products are rounded once, by `quantize`: the 28 digits of Python's context are not reached by
-- points of at most seven digits and weights of at most twenty.
use native.Mathlib.Nat.{mod-lt, div-add-mod}
use sniper_synapse.Base.{
  ◌⊎◌, inl, inr, refl, Bool-cases, ℕ, suc, ◌+◌, ◌*◌, ◌/◌, ◌%◌, ◌^◌, ◌≤◌, ◌<◌, Bool, ◌≡◌, arith, ltb,
  ◌==◌, if◌then◌else◌,
}
use sniper_synapse.Base.Int.{ℤ, pos, negsuc, sub_ℕ, ◌*ℤ◌, ◌≤ℤ◌, leb_ℤ, ltb_ℤ, min_ℤ, max_ℤ}

-- mantissa / 10 ^ places
pub record Decimal : Type 0 where
  pub mantissa : ℤ
  pub places : ℕ

-- Thousandths.
abbrev pub Milli : Type 0
Milli = ℤ

-- a / k rounded half to even, the default of `quantize`.
unfoldable pub round_parts : ℕ → ℕ → ℕ → ℕ
round_parts q r k =
    if ltb (2 * r) k then q else if ltb k (2 * r) then q + 1 else if q % 2 == 0 then q else q + 1

unfoldable pub round_half_even : ℕ → ℕ → ℕ
round_half_even a k = round_parts (a / k) (a % k) k

-- The same on integers: half to even has no preferred sign.
unfoldable pub round_ℤ : ℤ → ℕ → ℤ
unfolding round_half_even round_parts
round_ℤ (pos a) k = pos (round_half_even a k)
round_ℤ (negsuc a) k = sub_ℕ 0 (round_half_even (suc a) k)

-- `(points * multiplier).quantize(SCORE_QUANTUM)`
unfoldable pub scaled : Milli → Decimal → Milli
unfolding round_ℤ ◌*ℤ◌
scaled points d = round_ℤ (points *ℤ d.mantissa) (10 ^ d.places)

-- `value >= Decimal(...)` for thousandths on the left.
unfoldable pub at_least : Milli → Decimal → Bool
unfolding ◌*ℤ◌
at_least m d = leb_ℤ (d.mantissa *ℤ pos 1000) (m *ℤ pos (10 ^ d.places))

unfoldable pub ltb_decimal : Decimal → Decimal → Bool
unfolding ◌*ℤ◌
ltb_decimal a b = ltb_ℤ (a.mantissa *ℤ pos (10 ^ b.places)) (b.mantissa *ℤ pos (10 ^ a.places))

unfoldable pub leb_decimal : Decimal → Decimal → Bool
unfolding ◌*ℤ◌
leb_decimal a b = leb_ℤ (a.mantissa *ℤ pos (10 ^ b.places)) (b.mantissa *ℤ pos (10 ^ a.places))

-- `_clamp`
unfoldable pub clamp : Milli → Milli
clamp value = min_ℤ (pos 100000) (max_ℤ (pos 0) value)

pub clamp_bounds : (m : Milli) → (pos 0 ≤ℤ clamp m) × (clamp m ≤ℤ pos 100000)
unfolding clamp
clamp_bounds m = ground arith

round_parts-cases :
    (q r k : ℕ)
    → ((round_parts q r k ≡ q) × (2 * r ≤ k)) ⊎ ((round_parts q r k ≡ q + 1) × (k ≤ 2 * r))
unfolding round_parts
round_parts-cases q r k = elim (Bool-cases (ltb (2 * r) k)) [
  | inl down ↦ rw down (inl (refl, ground arith))
  | inr n ↦ rw n (elim (Bool-cases (ltb k (2 * r))) [
    | inl up ↦ rw up (inr (refl, ground arith))
    | inr m ↦ rw m (elim (Bool-cases (q % 2 == 0)) [
      | inl even ↦ rw even (inl (refl, ground arith))
      | inr odd ↦ rw odd (inr (refl, ground arith))
    ])
  ])
]

near :
    (q r k a : ℕ)
    → r < k
    → k * q + r ≡ a
    → (2 * a ≤ 2 * (k * round_parts q r k) + k) × (2 * (k * round_parts q r k) ≤ 2 * a + k)
near q r k a h e = elim (round_parts-cases q r k) [
  | inl (down, low) ↦ rw down (omega arith, omega arith)
  | inr (up, high) ↦ rw up (omega arith, omega arith)
]

-- A rounded quotient is within half a unit of the exact one.
pub round_half_even_near :
    (a k : ℕ)
    → 0 < k
    → (2 * a ≤ 2 * (k * round_half_even a k) + k) × (2 * (k * round_half_even a k) ≤ 2 * a + k)
round_half_even_near a k h =
    unfold round_half_even in near (a / k) (a % k) k a (mod-lt a h) (div-add-mod a k)
