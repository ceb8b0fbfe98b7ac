-- ===== src/Scoring/RuleSets/Clone.antt =====
-- What `clone_active_rule_set` of apps/scoring/services.py returns.
use mathlib.Core.List.{Memᴰ}
use mathlib.Core.Path.{subst}
use sniper_synapse.Base.{
  ℕ, ◌+◌, ◌<◌, ◌≡◌, refl, Bool, true, false, Option, none, some, List, [], ◌∷◌, ◌++◌, ◌&&◌, arith,
  Bool-cases, Option-cases, inl, inr, All, All-mono, All-append, filter_rows, ◌≤◌, ltb,
}
use sniper_synapse.Scoring.Models.{Target, RuleSet}
use sniper_synapse.Scoring.Engine.{same_target, is_published}
use sniper_synapse.Scoring.RuleSets.{
  Outcome, done, max_version, draft_of, only, the_active, is_draft_of, newer_set, newest_draft,
  clone_active_rule_set, clone_into,
}
use sniper_synapse.Scoring.RuleSets.Keeps.{Agree, OneActive}

absurd_some {ℓ} : {A : Type ℓ} (s : RuleSet) → some s ≡ none → A
absurd_some s h = ground (arith, h)

module _ (target : Target) where
  abbrev Older : ℕ → RuleSet → Type 0
  Older n s = same_target s.target target ≡ true → s.version < n + 1

  max_version-Older : (sets : List RuleSet) → All (Older (max_version target sets)) sets
  unfolding max_version
  max_version-Older [] = tt
  max_version-Older (s ∷ sets) =
      (ground arith, All-mono _ _ sets (λ t h. ground (arith, h)) (max_version-Older sets))

  newest_draft-append :
      (sets : List RuleSet) (d : RuleSet)
      → newest_draft target sets ≡ none
      → is_draft_of target d ≡ true
      → newest_draft target (sets ++ d ∷ []) ≡ some d
  unfolding newest_draft newer_set
  newest_draft-append [] d f h = rw h refl
  newest_draft-append (s ∷ sets) d f h = elim (Bool-cases (is_draft_of target s)) [
    | inl y ↦ absurd_some (newer_set s (newest_draft target sets)) (rw y at f)
    | inr y ↦ rw y (newest_draft-append sets d (rw y at f) h)
  ]

  -- The draft of the target with the greatest version in the table.
  abbrev pub IsNewest : List RuleSet → RuleSet → Type 0
  IsNewest sets d =
      Memᴰ d sets
      × (is_draft_of target d ≡ true)
      × All (λ s. is_draft_of target s ≡ true → s.version ≤ d.version) sets

  none-All :
      (sets : List RuleSet)
      → newest_draft target sets ≡ none
      → All (λ s. is_draft_of target s ≡ false) sets
  unfolding newest_draft
  none-All [] h = tt
  none-All (s ∷ sets) h = elim (Bool-cases (is_draft_of target s)) [
    | inl y ↦ absurd_some (newer_set s (newest_draft target sets)) (rw y at h)
    | inr y ↦ (y, none-All sets (rw y at h))
  ]

  newer_set-IsNewest :
      (s d : RuleSet) (sets : List RuleSet) (rest : Option RuleSet)
      → newest_draft target sets ≡ rest
      → ((t : RuleSet) → rest ≡ some t → IsNewest sets t)
      → is_draft_of target s ≡ true
      → newer_set s rest ≡ d
      → IsNewest (s ∷ sets) d
  unfolding newer_set
  newer_set-IsNewest s d sets none n f y e = subst (IsNewest (s ∷ sets)) e (
    Memᴰ.head refl,
    y,
    ((λ _. omega arith), All-mono _ _ sets (λ t a b. ground (arith, a, b)) (none-All sets n)),
  )
  newer_set-IsNewest s d sets (some t) n f y e =
      let (m, draft, top) = f t refl in
      elim (Bool-cases (ltb s.version t.version)) [
        | inl less ↦
            let is_t : t ≡ d = rw less at e in
            subst (IsNewest (s ∷ sets)) is_t
              (Memᴰ.tail m, draft, ((λ _. ground (arith, less)), top))
        | inr more ↦
            let is_s : s ≡ d = rw more at e in
            subst (IsNewest (s ∷ sets)) is_s (
              Memᴰ.head refl,
              y,
              (
                (λ _. omega arith),
                All-mono _ _ sets (λ u a b. let c = a b in ground (arith, c, more)) top,
              ),
            )
      ]

  newest_draft-IsNewest :
      (sets : List RuleSet) (d : RuleSet) → newest_draft target sets ≡ some d → IsNewest sets d
  unfolding newest_draft
  newest_draft-IsNewest [] d h = ground (arith, h)
  newest_draft-IsNewest (s ∷ sets) d h = elim (Bool-cases (is_draft_of target s)) [
    | inl y ↦
        newer_set-IsNewest s d sets (newest_draft target sets) refl (newest_draft-IsNewest sets) y
          (ground (arith, rw y at h))
    | inr y ↦
        let (m, draft, top) = newest_draft-IsNewest sets d (rw y at h) in
        (Memᴰ.tail m, draft, ((λ z. ground (arith, y, z)), top))
  ]

  abbrev is_the_active : RuleSet → Bool
  is_the_active s = same_target s.target target && (s.active && is_published s.status)

  filter_rows-Holds :
      (sets : List RuleSet) → All (λ s. is_the_active s ≡ true) (filter_rows is_the_active sets)
  filter_rows-Holds [] = tt
  filter_rows-Holds (s ∷ sets) = elim (Bool-cases (is_the_active s)) [
    | inl y ↦ rw y (y, filter_rows-Holds sets)
    | inr y ↦ rw y (filter_rows-Holds sets)
  ]

  only-Holds :
      (rows : List RuleSet) (s : RuleSet)
      → All (λ t. is_the_active t ≡ true) rows
      → only rows ≡ some s
      → same_target s.target target ≡ true
  unfolding only
  only-Holds [] s h e = ground (arith, e)
  only-Holds (t ∷ []) s h e = ground (arith, h, e)
  only-Holds (t ∷ u ∷ rows) s h e = ground (arith, e)

  the_active-target :
      (sets : List RuleSet) (s : RuleSet)
      → the_active target sets ≡ some s
      → same_target s.target target ≡ true
  unfolding the_active
  the_active-target sets s e =
      only-Holds (filter_rows is_the_active sets) s (filter_rows-Holds sets) e

  draft_of-target :
      (id version user : ℕ) (s : RuleSet)
      → same_target s.target target ≡ true
      → is_draft_of target (draft_of id version user s) ≡ true
  unfolding draft_of
  draft_of-target id version user s h = ground (arith, h)

draft_of-version :
    (id version user : ℕ) (s : RuleSet) → (draft_of id version user s).version ≡ version
unfolding draft_of
draft_of-version id version user s = refl

draft-Agree :
    (id version user : ℕ) (s t : RuleSet)
    → Agree (draft_of id version user s) t × Agree t (draft_of id version user s)
unfolding draft_of
draft-Agree id version user s t = (λ a. ground (arith, a), λ _ a. ground (arith, a))

any_draft-Agree :
    (id version user : ℕ) (s : RuleSet) (sets : List RuleSet)
    → All (Agree (draft_of id version user s)) sets
any_draft-Agree id version user s [] = tt
any_draft-Agree id version user s (t ∷ sets) =
    ((draft-Agree id version user s t).0, any_draft-Agree id version user s sets)

append-OneActive :
    (id version user : ℕ) (s : RuleSet) (sets : List RuleSet)
    → OneActive sets
    → OneActive (sets ++ draft_of id version user s ∷ [])
append-OneActive id version user s sets one =
    let d = draft_of id version user s in
    All-append (λ t. All (Agree t) (sets ++ d ∷ [])) sets (d ∷ [])
      (All-mono _ _ sets
        (λ t h. All-append (Agree t) sets (d ∷ []) h ((draft-Agree id version user s t).1, tt)) one)
      (any_draft-Agree id version user s (sets ++ d ∷ []), tt)

module _ (user id : ℕ) (target : Target) (sets sets' : List RuleSet) (d : RuleSet)
    (fresh : Bool) where
  -- A new draft's version is above each version of the target; no new draft leaves the table.
  abbrev pub NewOrSame : Bool → Type 0
  NewOrSame true = All (λ s. same_target s.target target ≡ true → s.version < d.version) sets
  NewOrSame false = sets' ≡ sets

  -- A draft that is the target's only one in use, in a table that keeps one active set a target.
  abbrev pub Cloned : Type 0
  Cloned =
      (newest_draft target sets' ≡ some d)
      × IsNewest target sets' d
      × OneActive sets'
      × NewOrSame fresh

  clone_into-Cloned :
      (active : Option RuleSet)
      → the_active target sets ≡ active
      → OneActive sets
      → newest_draft target sets ≡ none
      → clone_into user id target sets active ≡ done (sets', d, fresh)
      → Cloned
  unfolding clone_into
  clone_into-Cloned none f one n e = ground (arith, e)
  clone_into-Cloned (some s) f one n e =
      let row : RuleSet = draft_of id (max_version target sets + 1) user s in
      let is_d : d ≡ row = ground (arith, e) in
      let is_sets : sets' ≡ sets ++ row ∷ [] = ground (arith, e) in
      let is_fresh : fresh ≡ true = ground (arith, e) in
      let held : same_target s.target target ≡ true = the_active-target target sets s f in
      let appended : newest_draft target (sets ++ row ∷ []) ≡ some row =
        newest_draft-append target sets row n
          (draft_of-target target id (max_version target sets + 1) user s held) in
      rw (is_d, is_sets, is_fresh)
        (
          appended,
          newest_draft-IsNewest target (sets ++ row ∷ []) row appended,
          append-OneActive id (max_version target sets + 1) user s sets one,
          rw (draft_of-version id (max_version target sets + 1) user s)
              (max_version-Older target sets),
        )

  found-Cloned :
      (row : RuleSet)
      → newest_draft target sets ≡ some row
      → OneActive sets
      → ◌≡◌ {A = Outcome (List RuleSet × RuleSet × Bool)}
          (done (sets, row, false))
          (done (sets', d, fresh))
      → Cloned
  found-Cloned row f one e =
      let is_d : d ≡ row = ground (arith, e) in
      let is_sets : sets' ≡ sets = ground (arith, e) in
      let is_fresh : fresh ≡ false = ground (arith, e) in
      rw (is_d, is_sets, is_fresh) (f, newest_draft-IsNewest target sets row f, one, refl)

  -- A clone that staff ask for, in a table with at most one active set for each target, returns
  -- the target's draft of the greatest version in the table it leaves, which again has at most one
  -- active set for each target. A new draft's version is above each version of the target; no new draft means
  -- the same table.
  pub clone-Cloned :
      (is_staff : Bool)
      → OneActive sets
      → clone_active_rule_set is_staff user id target sets ≡ done (sets', d, fresh)
      → (is_staff ≡ true) × Cloned
  unfolding clone_active_rule_set
  clone-Cloned false one e = ground (arith, e)
  clone-Cloned true one e = elim (Option-cases (newest_draft target sets)) [
    | inl n ↦ (refl, clone_into-Cloned (the_active target sets) refl one n (rw n at e))
    | inr f ↦ (refl, found-Cloned f.0 f.1 one (rw (f.1) at e))
  ]

-- After a clone that staff asked for, another clone for the target returns the same draft and
-- leaves the table unchanged.
pub clone-again :
    (is_staff : Bool) (user id user2 id2 : ℕ) (target : Target) (sets sets' : List RuleSet)
    (d : RuleSet) (fresh : Bool)
    → OneActive sets
    → clone_active_rule_set is_staff user id target sets ≡ done (sets', d, fresh)
    → clone_active_rule_set true user2 id2 target sets' ≡ done (sets', d, false)
unfolding clone_active_rule_set
clone-again is_staff user id user2 id2 target sets sets' d fresh one e =
    rw ((clone-Cloned user id target sets sets' d fresh is_staff one e).1.0) refl
