-- ===== src/Scoring/RuleSets.antt =====
-- The life of a rule set: `clone_active_rule_set`, `publish_rule_set` and `simulate_rule_set` of
-- apps/scoring/services.py, over the table of rule sets. Each of the first two is one transaction,
-- so an exception leaves the table as it was.
pub mod Keeps
pub mod Clone
mod Tests
use sniper_synapse.Base.{
  ℕ, ◌+◌, String, Bool, true, false, not, ◌&&◌, ◌||◌, Option, none, some, List, [], ◌∷◌, ◌++◌, ◌==◌,
  ltb, if◌then◌else◌, filter_rows, first_where, update_where, map,
}
use sniper_synapse.Base.Int.{ℤ}
use sniper_synapse.Scoring.Json.{Json}
use sniper_synapse.Scoring.Models.{Target, draft, published, retired, RuleSet, Company, Snapshot}
use sniper_synapse.Scoring.Engine.{same_target, is_draft, is_published}

-- `PermissionError`, `DoesNotExist` or `MultipleObjectsReturned`, `ValueError`,
-- `ScoringConfigurationError` with its messages, and a violated constraint.
pub data RuleSetError : Type 0 where
  not_staff not_one not_draft constraint_violated : RuleSetError
  invalid : List String → RuleSetError

pub data Outcome {ℓ} (A : Type ℓ) : Type ℓ where
  done : A → Outcome A
  failed : RuleSetError → Outcome A

-- The newest version of a target, or 0: `Max("version") or 0`.
unfoldable pub max_version : Target → List RuleSet → ℕ
max_version target [] = 0
max_version target (s ∷ sets) =
    let rest = max_version target sets in
    if same_target s.target target && ltb rest s.version then s.version else rest

-- The copy of the active set; its rules are copied with all their columns.
unfoldable pub draft_of : ℕ → ℕ → ℕ → RuleSet → RuleSet
draft_of id version user active = record active {
  id = id;
  version = version;
  status = draft;
  active = false;
  created_by = some user;
  published_at = none;
}

-- `get` on the rows of a query: exactly one, or an exception.
unfoldable pub only : List RuleSet → Option RuleSet
only [] = none
only (s ∷ []) = some s
only (s ∷ t ∷ more) = none

-- `sets.get(active=True, status=PUBLISHED)`
unfoldable pub the_active : Target → List RuleSet → Option RuleSet
the_active target sets =
    only
      (filter_rows (λ s. same_target s.target target && (s.active && is_published s.status)) sets)

abbrev pub is_draft_of : Target → RuleSet → Bool
is_draft_of target s = same_target s.target target && is_draft s.status

unfoldable pub newer_set : RuleSet → Option RuleSet → RuleSet
newer_set s none = s
newer_set s (some t) = if ltb s.version t.version then t else s

-- `.first()` of the drafts, in the order of the model's `Meta`: the newest version comes first.
unfoldable pub newest_draft : Target → List RuleSet → Option RuleSet
newest_draft target [] = none
newest_draft target (s ∷ sets) =
    let rest = newest_draft target sets in
    if is_draft_of target s then some (newer_set s rest) else rest

-- `id` is the primary key of the new row. The result is the table, the draft and whether it is new.
unfoldable pub clone_into :
    ℕ → ℕ → Target → List RuleSet → Option RuleSet → Outcome (List RuleSet × RuleSet × Bool)
clone_into user id target sets none = failed not_one
clone_into user id target sets (some active) =
    let d = draft_of id (max_version target sets + 1) user active in done (sets ++ d ∷ [], d, true)

unfoldable pub clone_active_rule_set :
    Bool → ℕ → ℕ → Target → List RuleSet → Outcome (List RuleSet × RuleSet × Bool)
clone_active_rule_set is_staff user id target sets =
    if not is_staff then failed not_staff else elim (newest_draft target sets) [
      | some d ↦ done (sets, d, false)
      | none ↦ clone_into user id target sets (the_active target sets)
    ]

abbrev pub is_active_of : Target → RuleSet → Bool
is_active_of target s = same_target s.target target && s.active

abbrev pub retire : RuleSet → RuleSet
retire s = record s { active = false; status = retired }

unfoldable pub publish : ℕ → RuleSet → RuleSet
publish now s = record s { status = published; active = true; published_at = some now }

abbrev pub has_set_id : ℕ → RuleSet → Bool
has_set_id id s = s.id == id

abbrev pub is_empty {ℓ} : {A : Type ℓ} → List A → Bool
is_empty [] = true
is_empty (x ∷ xs) = false

-- `validate` is `validate_rule_set`, which returns its messages.
unfoldable pub publish_draft :
    (RuleSet → List String) → ℕ → ℕ → List RuleSet → RuleSet → Outcome (List RuleSet × RuleSet)
publish_draft validate now id sets d =
    let p = publish now d in
    if not (is_draft d.status)
    then failed not_draft
    else if not (is_empty (validate d))
    then failed (invalid (validate d))
    else done (
      update_where (has_set_id id) (λ _. p) (update_where (is_active_of d.target) retire sets),
      p,
    )

unfoldable pub publish_rule_set :
    (RuleSet → List String) → ℕ → Bool → ℕ → List RuleSet → Outcome (List RuleSet × RuleSet)
publish_rule_set validate now is_staff id sets =
    if not is_staff then failed not_staff else elim (first_where (has_set_id id) sets) [
      | none ↦ failed not_one
      | some d ↦ publish_draft validate now id sets d
    ]
