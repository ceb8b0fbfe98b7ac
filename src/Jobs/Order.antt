-- ===== src/Jobs/Order.antt =====
-- Which row `first_in_order` selects.
use mathlib.Core.List.{Memᴰ}
use mathlib.Core.Path.{subst}
use sniper_synapse.Base.{
  Bool, true, false, Option, none, some, List, [], ◌∷◌, ◌≡◌, refl, sym, inl, inr, arith, All,
  All-mono, Bool-cases, if◌then◌else◌,
}
use sniper_synapse.Jobs.Models.{Job}
use sniper_synapse.Jobs.Services.{before, pick, first_in_order}

before_asym : (j k : Job) → before j k ≡ true → before k j ≡ false
unfolding before
before_asym j k h = ground arith

before_cotrans : (j k m : Job) → before k m ≡ false → before m j ≡ false → before k j ≡ false
unfolding before
before_cotrans j k m h g = ground arith

-- What `first_in_order` promises: nothing passes the filter, or the row found is in the table,
-- passes it, and no row that passes it comes before.
abbrev pub IsFirst : (Job → Bool) → List Job → Option Job → Type 0
IsFirst p js none = All (λ k. p k ≡ false) js
IsFirst p js (some j) = Memᴰ j js × (p j ≡ true) × All (λ k. p k ≡ true → before k j ≡ false) js

before_irrefl : (j : Job) → before j j ≡ false
unfolding before
before_irrefl j = ground arith

pick_later : (j k : Job) → before k j ≡ true → pick j (some k) ≡ k
unfolding pick
pick_later j k h = rw h

pick_keep : (j k : Job) → before k j ≡ false → pick j (some k) ≡ j
unfolding pick
pick_keep j k h = rw h

pick_alone : (j : Job) → pick j none ≡ j
unfolding pick
pick_alone j = refl

module _ (p : Job → Bool) where
  rest-IsFirst :
      (j : Job) (js : List Job) (o : Option Job)
      → p j ≡ false
      → IsFirst p js o
      → IsFirst p (j ∷ js) o
  rest-IsFirst j js none n h = (n, h)
  rest-IsFirst j js (some k) n h = (Memᴰ.tail h.0, h.1, ((λ q. cc), h.2))

  none-IsFirst :
      (j : Job) (js : List Job) → p j ≡ true → IsFirst p js none → IsFirst p (j ∷ js) (some j)
  none-IsFirst j js y h =
      (Memᴰ.head refl, y, ((λ q. before_irrefl j), All-mono _ _ js (λ k n q. cc) h))

  later-IsFirst :
      (j k : Job) (js : List Job)
      → p j ≡ true
      → before k j ≡ true
      → IsFirst p js (some k)
      → IsFirst p (j ∷ js) (some k)
  later-IsFirst j k js y b h = (Memᴰ.tail h.0, h.1, ((λ q. before_asym k j b), h.2))

  keep-IsFirst :
      (j k : Job) (js : List Job)
      → p j ≡ true
      → before k j ≡ false
      → IsFirst p js (some k)
      → IsFirst p (j ∷ js) (some j)
  keep-IsFirst j k js y b h = (
    Memᴰ.head refl,
    y,
    ((λ q. before_irrefl j), All-mono _ _ js (λ m f q. before_cotrans j m k (f q) b) h.2),
  )

  pub first_in_order-IsFirst : (js : List Job) → IsFirst p js (first_in_order p js)
  unfolding first_in_order
  first_in_order-IsFirst [] = tt
  first_in_order-IsFirst (j ∷ js) = step (first_in_order p js) (first_in_order-IsFirst js)
    where
      to : {a b : Job} → a ≡ b → IsFirst p (j ∷ js) (some b) → IsFirst p (j ∷ js) (some a)
      to e h = subst (λ r. IsFirst p (j ∷ js) (some r)) (sym e) h

      step :
          (o : Option Job)
          → IsFirst p js o
          → IsFirst p (j ∷ js) (if p j then some (pick j o) else o)
      step none h = elim (Bool-cases (p j)) [
        | inl y ↦ rw y (to (pick_alone j) (none-IsFirst j js y h))
        | inr n ↦ rw n (rest-IsFirst j js none n h)
      ]
      step (some k) h = elim (Bool-cases (p j)) [
        | inr n ↦ rw n (rest-IsFirst j js (some k) n h)
        | inl y ↦ elim (Bool-cases (before k j)) [
          | inl b ↦ rw y (to (pick_later j k b) (later-IsFirst j k js y b h))
          | inr b ↦ rw y (to (pick_keep j k b) (keep-IsFirst j k js y b h))
        ]
      ]
