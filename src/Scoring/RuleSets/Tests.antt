-- ===== src/Scoring/RuleSets/Tests.antt =====
-- Concrete runs of cloning and publishing on a table of one published set.
use sniper_synapse.Base.{String, ◌≡◌, refl, true, false, none, some, List, [], ◌∷◌, arith}
use sniper_synapse.Scoring.Models.{industry, draft, published, RuleSet}
use sniper_synapse.Scoring.RuleSets.{
  done, max_version, draft_of, only, the_active, newest_draft, clone_into, clone_active_rule_set,
  publish, publish_draft, publish_rule_set, retire,
}
use sniper_synapse.Scoring.RuleSets.Keeps.{OneActive, Published, publish-OneActive}
use sniper_synapse.Scoring.RuleSets.Clone.{Cloned, clone-Cloned}

abbrev first_set : RuleSet
first_set = record {
  id = 1;
  name = "industry";
  target = industry;
  version = 1;
  status = published;
  active = true;
  formula = [];
  thresholds = [];
  tie_order = [];
  description = "";
  created_by = none;
  published_at = some 1;
  rules = [];
}

abbrev table : List RuleSet
table = first_set ∷ []

abbrev second_set : RuleSet
second_set = record first_set {
  id = 2;
  version = 2;
  status = draft;
  active = false;
  created_by = some 9;
  published_at = none;
}

abbrev cloned_table : List RuleSet
cloned_table = first_set ∷ second_set ∷ []

abbrev second_published : RuleSet
second_published = record second_set { status = published; active = true; published_at = some 5 }

abbrev published_table : List RuleSet
published_table = retire first_set ∷ second_published ∷ []

table-OneActive : OneActive table
table-OneActive = (((λ _ _ _. refl), tt), tt)

cloned_table-OneActive : OneActive cloned_table
cloned_table-OneActive = (
  ((λ _ _ _. refl), ((λ _ b _. ground (arith, b)), tt)),
  (((λ a _ _. ground (arith, a)), ((λ _ _ _. refl), tt)), tt),
)

cloned : clone_active_rule_set true 9 2 industry table ≡ done (cloned_table, second_set, true)
unfolding clone_active_rule_set newest_draft clone_into the_active only draft_of max_version
cloned = refl

clone-Cloned_example : (true ≡ true) × Cloned 9 2 industry table cloned_table second_set true
clone-Cloned_example =
    clone-Cloned 9 2 industry table cloned_table second_set true true table-OneActive cloned

abbrev no_errors : RuleSet → List String
no_errors s = []

was_published :
    publish_rule_set no_errors 5 true 2 cloned_table ≡ done (published_table, second_published)
unfolding publish_rule_set publish_draft publish
was_published = refl

publish-OneActive_example :
    Published no_errors 5 true 2 cloned_table published_table second_published
    × OneActive published_table
publish-OneActive_example =
    publish-OneActive no_errors 5 true 2 cloned_table published_table second_published
      cloned_table-OneActive was_published
