-- ===== src/Scoring/RuleSets/Keeps.antt =====
-- What cloning and publishing keep: one active set for each target, fresh versions, and one draft.
use sniper_synapse.Base.{
  ℕ, String, ◌≡◌, refl, Bool, true, false, some, List, [], ◌∷◌, arith, if◌then◌else◌, Bool-cases,
  Option-cases, inl, inr, All, All-mono, All-update_where, first_where, update_where,
}
use sniper_synapse.Scoring.Models.{Target, RuleSet}
use sniper_synapse.Scoring.Engine.{same_target, is_draft}
use sniper_synapse.Scoring.RuleSets.{
  not_staff, not_one, Outcome, done, failed, is_active_of, retire, publish, has_set_id, is_empty,
  publish_draft, publish_rule_set,
}

-- Two active sets of one target are one set.
abbrev pub Agree : RuleSet → RuleSet → Type 0
Agree s t = s.active ≡ true → t.active ≡ true → same_target s.target t.target ≡ true → s.id ≡ t.id

abbrev pub OneActive : List RuleSet → Type 0
OneActive sets = All (λ s. All (Agree s) sets) sets

abbrev Idle : Target → RuleSet → Type 0
Idle target s = same_target s.target target ≡ true → s.active ≡ false

same_target-sym : (a b : Target) → same_target a b ≡ true → same_target b a ≡ true
same_target-sym a b h = ground arith

absurd {ℓ} : {A : Type ℓ} {x : Bool} → x ≡ false → x ≡ true → A
absurd h k = ground (arith, h, k)

All-both {ℓ κ μ} :
    {A : Type ℓ} (P : A → Type κ) (Q : A → Type μ) (xs : List A)
    → All P xs
    → All Q xs
    → All (λ x. P x × Q x) xs
All-both P Q [] h k = tt
All-both P Q (x ∷ xs) h k = ((h.0, k.0), All-both P Q xs h.1 k.1)

module _ (p : RuleSet → Bool) (f : RuleSet → RuleSet) where
  abbrev written : RuleSet → RuleSet
  written s = if p s then f s else s

  OneActive-update :
      (Q : RuleSet → Type 0) (sets : List RuleSet)
      → ((s t : RuleSet) → Q s → Q t → Agree s t → Agree (written s) (written t))
      → All Q sets
      → OneActive sets
      → OneActive (update_where p f sets)
  OneActive-update Q sets keep q one =
      All-update_where (λ s. Q s × All (λ t. Q t × Agree s t) sets) _ p f sets
        (λ s h.
          All-update_where (λ t. Q t × Agree s t) _ p f sets (λ t k. keep s t h.0 k.0 k.1) h.1)
        (All-both Q _ sets q (All-mono _ _ sets (λ s h. All-both Q (Agree s) sets q h) one))

retire-Agree :
    (target : Target) (s t : RuleSet)
    → Agree s t
    → Agree (written (is_active_of target) retire s) (written (is_active_of target) retire t)
retire-Agree target s t h = ground (arith, h)

retire-Idle :
    (target : Target) (sets : List RuleSet)
    → All (Idle target) (update_where (is_active_of target) retire sets)
retire-Idle target [] = tt
retire-Idle target (s ∷ sets) = (ground arith, retire-Idle target sets)

publish-Agree :
    (id : ℕ) (p s t : RuleSet)
    → Idle p.target s
    → Idle p.target t
    → Agree s t
    → Agree (written (has_set_id id) (λ _. p) s) (written (has_set_id id) (λ _. p) t)
publish-Agree id p s t is it h = elim (Bool-cases (has_set_id id s)) [
  | inl y ↦ elim (Bool-cases (has_set_id id t)) [
    | inl z ↦ rw (y, z) (λ _ _ _. refl)
    | inr z ↦ rw (y, z) (λ _ b e. absurd (it (same_target-sym p.target t.target e)) b)
  ]
  | inr y ↦ elim (Bool-cases (has_set_id id t)) [
    | inl z ↦ rw (y, z) (λ a _ e. absurd (is e) a)
    | inr z ↦ rw (y, z) h
  ]
]

any_set : (sets : List RuleSet) → All {0, 0} (λ _. Unit) sets
any_set [] = tt
any_set (s ∷ sets) = (tt, any_set sets)

module _ (validate : RuleSet → List String) (now : ℕ) (is_staff : Bool) (id : ℕ)
    (sets sets' : List RuleSet) (p : RuleSet) where
  -- A draft of the table that staff publish, and what publishing writes.
  abbrev pub Published : Type 0
  Published =
      (d : RuleSet) × (is_staff ≡ true)
      × (first_where (has_set_id id) sets ≡ some d)
      × (is_draft d.status ≡ true)
      × (is_empty (validate d) ≡ true)
      × (p ≡ publish now d)
      × (sets'
          ≡ update_where (has_set_id id) (λ _. p)
              (update_where (is_active_of d.target) retire sets))

  publish_draft-Published :
      (d : RuleSet)
      → is_staff ≡ true
      → first_where (has_set_id id) sets ≡ some d
      → publish_draft validate now id sets d ≡ done (sets', p)
      → Published
  unfolding publish_draft
  publish_draft-Published d st f e =
      (d, st, f, ground (arith, e), ground (arith, e), ground (arith, e), ground (arith, e))

  staff_publish-Published :
      (b : Bool)
      → is_staff ≡ b
      → publish_rule_set validate now is_staff id sets ≡ done (sets', p)
      → Published
  unfolding publish_rule_set
  staff_publish-Published false st e =
      let wrong : ◌≡◌ {A = Outcome (List RuleSet × RuleSet)} (failed not_staff) (done (sets', p)) =
        rw st at e in
      ground arith
  staff_publish-Published true st e = elim (Option-cases (first_where (has_set_id id) sets)) [
    | inl f ↦
        let wrong : ◌≡◌ {A = Outcome (List RuleSet × RuleSet)} (failed not_one) (done (sets', p)) =
          rw (st, f) at e in
        ground arith
    | inr f ↦ publish_draft-Published f.0 st f.1 (rw (st, f.1) at e)
  ]

  retarget : (d : RuleSet) → p ≡ publish now d → (s : RuleSet) → Idle d.target s → Idle p.target s
  unfolding publish
  retarget d e s h = rw e h

  -- Publishing succeeds only for staff, on a draft in the table that validates, and keeps at
  -- most one active set for each target.
  pub publish-OneActive :
      OneActive sets
      → publish_rule_set validate now is_staff id sets ≡ done (sets', p)
      → Published × OneActive sets'
  publish-OneActive one e =
      let shape = staff_publish-Published is_staff refl e in
      let (d, _, _, _, _, is_p, is_sets) = shape in
      let tidied : List RuleSet = update_where (is_active_of d.target) retire sets in
      let tidy : OneActive tidied =
        OneActive-update (is_active_of d.target) retire (λ _. Unit) sets
          (λ s t _ _. retire-Agree d.target s t) (any_set sets) one in
      let idle : All (Idle p.target) tidied =
        All-mono (Idle d.target) (Idle p.target) tidied (λ s h. retarget d is_p s h)
          (retire-Idle d.target sets) in
      (
        shape,
        rw is_sets (
            OneActive-update (has_set_id id) (λ _. p) (Idle p.target) tidied (publish-Agree id p)
              idle tidy),
      )
