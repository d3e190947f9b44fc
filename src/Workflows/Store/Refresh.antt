-- ===== src/Workflows/Store/Refresh.antt =====
-- How the edits of rules reach the rules that the webhook works with.
use alertory.Prelude.{
  ℕ, Bool, true, false, ◌||◌, ◌&&◌, List, [], ◌∷◌, map, any, keep, Option, none, some, ◌≡◌, refl,
  ◌∙◌, ap, arith, All, Bool-cases, inl, inr, if◌then◌else◌,
}
use alertory.Prelude.Orders.{any-perm}
use alertory.Text.{Str, ◌==◌, eq_iff}
use alertory.Db.Rules.{WorkflowRule}
use alertory.Db.Rules.Table.{
  RuleRow, RuleTable, get_workflow_rule, upsert_workflow_rule, delete_workflow_rule,
}
use alertory.Db.Rules.Unique.{Apart, AreApart, IsRuleTable}
use alertory.Db.Rules.Kept.{upsert_workflow_rule-IsRuleTable}
use alertory.Db.Rules.Refines.{
  named, without, upserted, named-upsert_workflow_rule, named-delete_workflow_rule,
}
use alertory.Workflows.Batching.Partition.{IsShuffle}
use alertory.Workflows.Store.{RuleStore, list_enabled_workflow_rules, refresh}

-- There is a rule, it is enabled and it passes the test.
abbrev pub is_on : (WorkflowRule → Bool) → Option WorkflowRule → Bool
is_on p none = false
is_on p (some rule) = rule.enabled && p rule

-- The store works with a rule of the name that passes the test.
abbrev pub works_with : Str → (WorkflowRule → Bool) → RuleStore → Bool
works_with n p s = any (λ rule. rule.name == n && p rule) s.rules

any-map :
    (p : WorkflowRule → Bool) (rows : List RuleRow)
    → any p (map (λ r. r.rule) rows) ≡ any (λ r. p r.rule) rows
any-map p [] = refl
any-map p (r ∷ rows) = ap (λ b. p r.rule || b) (any-map p rows)

none_enabled :
    (r : RuleRow) (n : Str) (p : WorkflowRule → Bool) (rows : List RuleRow)
    → r.rule.name ≡ n
    → All (Apart r) rows
    → any (λ q. q.rule.name == n && p q.rule) (keep (λ q. q.rule.enabled) rows) ≡ false
none_enabled r n p [] e h = refl
none_enabled r n p (q ∷ rows) e h =
    ground (arith, eq_iff q.rule.name n, h.0.1, none_enabled r n p rows e h.1)

any-keep_enabled :
    (n : Str) (p : WorkflowRule → Bool) (rows : List RuleRow)
    → AreApart rows
    → any (λ r. r.rule.name == n && p r.rule) (keep (λ r. r.rule.enabled) rows)
      ≡ is_on p (named rows n)
unfolding named
any-keep_enabled n p [] h = refl
any-keep_enabled n p (r ∷ rows) h = elim (Bool-cases (r.rule.name == n)) [
  | inl here ↦
      rw here (ground (arith, here, none_enabled r n p rows ((eq_iff r.rule.name n).0 here) h.0))
  | inr there ↦ rw there (ground (arith, there, any-keep_enabled n p rows h.1))
]

works_with-refresh :
    (by_name : List RuleRow → List RuleRow) (n : Str) (p : WorkflowRule → Bool) (t : RuleTable)
    (s : RuleStore)
    → IsShuffle by_name
    → IsRuleTable t
    → works_with n p (refresh by_name true t s) ≡ is_on p (named t.rows n)
unfolding refresh list_enabled_workflow_rules
works_with-refresh by_name n p t s fair v =
    any-map (λ rule. rule.name == n && p rule) (by_name (keep (λ r. r.rule.enabled) t.rows))
    ∙ (any-perm (λ r. r.rule.name == n && p r.rule) (fair (keep (λ r. r.rule.enabled) t.rows))
        ∙ any-keep_enabled n p t.rows v.apart)

-- The table after an upsert as a map from names to rules, and the store after a refresh of it.
pub upsert_workflow_rule-refresh :
    (by_name : List RuleRow → List RuleRow) (id gone : ℕ) (rule : WorkflowRule) (t t' : RuleTable)
    (s : RuleStore) (n : Str) (p : WorkflowRule → Bool)
    → IsShuffle by_name
    → IsRuleTable t
    → upsert_workflow_rule id rule t ≡ some t'
    → (named t'.rows n ≡ upserted id rule t n)
      × (named (delete_workflow_rule gone t').rows n
          ≡ without (get_workflow_rule gone t'.rows) (upserted id rule t) n)
      × (works_with n p (refresh by_name true t' s) ≡ is_on p (upserted id rule t n))
upsert_workflow_rule-refresh by_name id gone rule t t' s n p fair v ran =
    let v' = upsert_workflow_rule-IsRuleTable id rule t ran v in
    let shows = named-upsert_workflow_rule id rule t t' n ran v in
    (
      shows,
      named-delete_workflow_rule gone t' n v' ∙ without_same (get_workflow_rule gone t'.rows) shows,
      works_with-refresh by_name n p t' s fair v' ∙ ap (is_on p) shows,
    )
  where
    without_same :
        (o : Option WorkflowRule)
        → named t'.rows n ≡ upserted id rule t n
        → without o (named t'.rows) n ≡ without o (upserted id rule t) n
    without_same none e = e
    without_same (some old) e = ap (λ x. if old.name == n then none else x) e
