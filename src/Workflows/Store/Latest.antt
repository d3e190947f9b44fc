-- ===== src/Workflows/Store/Latest.antt =====
-- What the rule store holds in a run of refreshes, some of which fail.
use alertory.Prelude.{ℕ, some, true, false, List, [], ◌∷◌, ◌++◌, Bool, All, ◌≡◌, refl, ◌∙◌, ap}
use alertory.Text.{Str}
use alertory.Db.Rules.{WorkflowRule}
use alertory.Db.Rules.Table.{
  RuleRow, RuleTable, get_workflow_rule, upsert_workflow_rule, delete_workflow_rule,
}
use alertory.Db.Rules.Unique.{IsRuleTable}
use alertory.Db.Rules.Refines.{named, without, upserted}
use alertory.Workflows.Batching.Partition.{IsShuffle}
use alertory.Workflows.Store.Refresh.{is_on, works_with, upsert_workflow_rule-refresh}
use alertory.Workflows.Store.{RuleStore, Reading, refresh, run_rule_store}

module _ (by_name : List RuleRow → List RuleRow) where
  run_rule_store-append :
      (before later : List Reading) (s : RuleStore)
      → run_rule_store by_name (before ++ later) s
        ≡ run_rule_store by_name later (run_rule_store by_name before s)
  unfolding run_rule_store
  run_rule_store-append [] later s = refl
  run_rule_store-append (r ∷ before) later s = run_rule_store-append before later _

  run_fails :
      (readings : List Reading) (s : RuleStore)
      → All (λ r. r.reads ≡ false) readings
      → run_rule_store by_name readings s ≡ s
  unfolding run_rule_store refresh
  run_fails [] s h = refl
  run_fails (r ∷ readings) s h =
      ap (λ reads. run_rule_store by_name readings (refresh by_name reads r.table s)) h.0
      ∙ run_fails readings s h.1

  -- The store is as the latest refresh that succeeded leaves any store.
  run_latest :
      (before later : List Reading) (t : RuleTable) (s : RuleStore)
      → All (λ q. q.reads ≡ false) later
      → run_rule_store by_name (before ++ (record { table = t; reads = true } ∷ later)) s
        ≡ refresh by_name true t s
  unfolding run_rule_store refresh
  run_latest before later t s fail =
      run_rule_store-append before (record { table = t; reads = true } ∷ later) s
      ∙ run_fails later _ fail

-- The table of rules is a map from names to rules. An upsert that succeeds puts a new rule, whose
-- id is 0, under its name; it puts the rule in place of the one that had its id; and where no rule
-- has its id, which is not 0, it changes nothing. A deletion takes the rule of the id out. Once a
-- refresh of the rule store has read the table after the upsert, the webhook works with a rule of a
-- name that passes a test exactly if the map has one under the name that is enabled and passes it,
-- for every test; whatever was read before and however many refreshes fail later.
pub upsert_workflow_rule-run_rule_store :
    (by_name : List RuleRow → List RuleRow) (id gone : ℕ) (rule : WorkflowRule) (t t' : RuleTable)
    (before later : List Reading) (s : RuleStore) (n : Str) (p : WorkflowRule → Bool)
    → IsShuffle by_name
    → IsRuleTable t
    → upsert_workflow_rule id rule t ≡ some t'
    → All (λ q. q.reads ≡ false) later
    → (named t'.rows n ≡ upserted id rule t n)
      × (named (delete_workflow_rule gone t').rows n
          ≡ without (get_workflow_rule gone t'.rows) (upserted id rule t) n)
      × (works_with n p
            (run_rule_store by_name (before ++ (record { table = t'; reads = true } ∷ later)) s)
          ≡ is_on p (upserted id rule t n))
upsert_workflow_rule-run_rule_store by_name id gone rule t t' before later s n p fair v ran fail =
    let (shows, deleted, refreshed) =
      upsert_workflow_rule-refresh by_name id gone rule t t' s n p fair v ran in
    (shows, deleted, ap (works_with n p) (run_latest by_name before later t' s fail) ∙ refreshed)
