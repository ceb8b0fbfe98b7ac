-- ===== src/Scoring/Json.antt =====
-- The JSON values of the rule columns, with Python's `dict.get`, and the outcomes of code that may
-- raise.
use sniper_synapse.Base.{
  ◌≡◌, refl, ap, ℕ, zero, suc, not, String, Bool, true, false, Option, none, some, List, [], ◌∷◌,
  str_eq, if◌then◌else◌,
}
use sniper_synapse.Base.Int.{ℤ, pos}
use sniper_synapse.Scoring.Decimal.{Decimal}

mutual
  pub data Json : Type 0 where
    null : Json
    bool : Bool → Json
    num : Decimal → Json
    text : String → Json
    list : Items → Json
    dict : Entries → Json

  pub data Items : Type 0 where
    nil : Items
    cons : Json → Items → Items

  pub data Entries : Type 0 where
    empty : Entries
    entry : String → Json → Entries → Entries

-- `ScoringConfigurationError`, and any other exception.
pub data Failure : Type 0 where
  configuration uncaught : Failure

pub data Result {ℓ} (A : Type ℓ) : Type ℓ where
  ok : A → Result A
  err : Failure → Result A

infixl 5 ◌>>=◌ ◌>>◌
abbrev pub ◌>>=◌ {ℓ κ} : {A : Type ℓ} {B : Type κ} → Result A → (A → Result B) → Result B
err failure >>= rest = err failure
ok value >>= rest = rest value

abbrev pub ◌>>◌ {ℓ} : {A : Type ℓ} → Result (Unit {0}) → Result A → Result A
check >> rest = check >>= λ _. rest

abbrev pub guard : Bool → Failure → Result (Unit {0})
guard true e = ok tt
guard false e = err e

-- `d.get(key)`
abbrev pub get : String → Entries → Option Json
get key empty = none
get key (entry k v d) = if str_eq k key then some v else get key d

abbrev pub has_key : String → Entries → Bool
has_key key d = elim (get key d) [ none ↦ false | some _ ↦ true ]

abbrev is_zero : ℤ → Bool
is_zero (pos zero) = true
is_zero _ = false

-- The truth of a value.
abbrev pub is_true : Json → Bool
is_true null = false
is_true (bool b) = b
is_true (num d) = not (is_zero d.mantissa)
is_true (text s) = not (str_eq s "")
is_true (list nil) = false
is_true (list (cons _ _)) = true
is_true (dict empty) = false
is_true (dict (entry _ _ _)) = true

abbrev pub size : Entries → ℕ
size empty = 0
size (entry k v d) = suc (size d)

abbrev pub count : Items → ℕ
count nil = 0
count (cons x xs) = suc (count xs)

abbrev pub to_list : Items → List Json
to_list nil = []
to_list (cons x xs) = x ∷ to_list xs

-- Whether a value can be looked up in a set: lists and dicts raise `TypeError`.
abbrev pub is_hashable : Json → Bool
is_hashable (list _) = false
is_hashable (dict _) = false
is_hashable _ = true

abbrev value_or {ℓ} : {A : Type ℓ} → A → Result A → A
value_or d (ok a) = a
value_or d (err e) = d

-- Inversion of a chain that returned.
pub bind-ok {ℓ κ} :
    {A : Type ℓ} {B : Type κ} (first : Result A) (rest : A → Result B) {end : B}
    → (first >>= rest) ≡ ok end
    → (value : A) × (first ≡ ok value) × (rest value ≡ ok end)
bind-ok (ok value) rest h = (value, refl, h)
bind-ok (err e) f h = cc

pub guard-ok : (b : Bool) (e : Failure) {u : Unit {0}} → guard b e ≡ ok u → b ≡ true
guard-ok true e h = refl
guard-ok false e h = cc

pub ok-injective {ℓ} : {A : Type ℓ} (a b : A) → ok a ≡ ok b → a ≡ b
ok-injective a b h = ap (value_or a) h
