-- ===== src/Workflows/Store.antt =====
-- internal/workflows/store.go: the rules that the webhook works with, and ListEnabledWorkflowRules of
-- internal/db/rules.go. `by_name` is ORDER BY name; a query may fail (`reads`).
pub mod Refresh
pub mod Latest
use alertory.Prelude.{Bool, List, [], ◌∷◌, map, keep, if◌then◌else◌}
use alertory.Db.Rules.{WorkflowRule}
use alertory.Db.Rules.Table.{RuleRow, RuleTable}

unfoldable pub list_enabled_workflow_rules :
    (List RuleRow → List RuleRow) → RuleTable → List WorkflowRule
list_enabled_workflow_rules by_name t =
    map (λ r. r.rule) (by_name (keep (λ r. r.rule.enabled) t.rows))

-- The cached rules; a new store has none.
pub record RuleStore : Type 0 where
  pub rules : List WorkflowRule

abbrev pub new_rule_store : RuleStore
new_rule_store = record { rules = [] }

-- An error keeps the rules that were cached.
unfoldable pub refresh : (List RuleRow → List RuleRow) → Bool → RuleTable → RuleStore → RuleStore
unfolding list_enabled_workflow_rules
refresh by_name reads t s =
    if reads then record { rules = list_enabled_workflow_rules by_name t } else s

-- What a refresh meets: the table, and whether the query succeeds.
pub record Reading : Type 0 where
  pub table : RuleTable
  pub reads : Bool

-- `Run`: the first refresh, then one at each tick until the context is done.
unfoldable pub run_rule_store : (List RuleRow → List RuleRow) → List Reading → RuleStore → RuleStore
unfolding refresh
run_rule_store by_name [] s = s
run_rule_store by_name (r ∷ readings) s =
    run_rule_store by_name readings (refresh by_name r.reads r.table s)
