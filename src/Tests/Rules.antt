-- ===== src/Tests/Rules.antt =====
-- The table of rules on concrete data.
use mathlib.Core.List.Perm
use alertory.Prelude.{List, List, arith, refl, Bool, true, false, [], ◌∷◌, ◌++◌, some, ◌≡◌, ◌≢◌}
use alertory.Text.{Str, str, ◌==◌}
use alertory.Db.Rules.{WorkflowRule}
use alertory.Db.Rules.Unique.{IsRuleTable}
use alertory.Db.Rules.Refines.{named, without, upserted}
use alertory.Workflows.Store.{Reading, new_rule_store, run_rule_store}
use alertory.Workflows.Store.Refresh.{works_with, is_on}
use alertory.Workflows.Store.Latest.{upsert_workflow_rule-run_rule_store}
use alertory.Db.Rules.Table.{
  get_workflow_rule, upsert_workflow_rule, delete_workflow_rule, RuleRow, RuleTable, find_rule,
  count_workflow_rules, seed_workflow_rules, seed_workflow_rules_lem,
}

abbrev rule : WorkflowRule
rule = record {
  name = str "disk";
  match_labels = [];
  channel = str "C1";
  team = [];
  target_label = [];
  group_by = [];
  extra_fields = [];
  enrichments = [];
  enabled = true;
  display_title = [];
  notification_only = false;
}

abbrev no_rules : RuleTable
no_rules = record { rows = []; next_id = 1 }

abbrev writable : Str → Bool
writable name = true

seed_workflow_rules_lem_example :
    let seeded = seed_workflow_rules true writable ([] ++ (rule ∷ [])) no_rules in
    (count_workflow_rules no_rules ≢ 0 → seeded ≡ no_rules)
    × (true ≡ false → seeded ≡ no_rules)
    × (true ≡ true
        → count_workflow_rules no_rules ≡ 0
        → (r : RuleRow) × (find_rule (str "disk") seeded.rows ≡ some r) × (r.rule ≡ rule))
seed_workflow_rules_lem_example =
    seed_workflow_rules_lem true writable [] [] rule no_rules tt refl tt

abbrev kept : List RuleRow → List RuleRow
kept rows = rows

abbrev one_rule : RuleTable
one_rule = record { rows = record { id = 1; rule = rule } ∷ []; next_id = 2 }

abbrev renamed : WorkflowRule
renamed = record rule { name = str "disks" }

abbrev renamed_table : RuleTable
renamed_table = record { rows = record { id = 1; rule = renamed } ∷ []; next_id = 2 }

one_rule-IsRuleTable : IsRuleTable one_rule
one_rule-IsRuleTable = record {
  apart = (tt, tt);
  from = ((omega arith, omega arith), tt);
  counts = omega arith;
}

-- The rule was cached as it was before; the last refresh fails.
abbrev readings : List Reading
readings =
    (record { table = one_rule; reads = true } ∷ [])
    ++ (record { table = renamed_table; reads = true }
        ∷ record { table = no_rules; reads = false }
        ∷ [])

abbrev on_c1 : WorkflowRule → Bool
on_c1 r = r.channel == str "C1"

upsert_workflow_rule-run_rule_store_example :
    (named renamed_table.rows (str "disks") ≡ upserted 1 renamed one_rule (str "disks"))
    × (named (delete_workflow_rule 1 renamed_table).rows (str "disks")
        ≡ without
            (get_workflow_rule 1 renamed_table.rows)
            (upserted 1 renamed one_rule)
            (str "disks"))
    × (works_with (str "disks") on_c1 (run_rule_store kept readings new_rule_store)
        ≡ is_on on_c1 (upserted 1 renamed one_rule (str "disks")))
unfolding upsert_workflow_rule
upsert_workflow_rule-run_rule_store_example =
    upsert_workflow_rule-run_rule_store kept 1 1 renamed one_rule renamed_table
      (record { table = one_rule; reads = true } ∷ [])
      (record { table = no_rules; reads = false } ∷ []) new_rule_store (str "disks") on_c1 Perm.refl
      one_rule-IsRuleTable refl (refl, tt)
