-- ===== src/Http/Rules/Reach.antt =====
-- The table of rules as the program leaves it: the seeding at the start, then any sequence of
-- requests that save or delete rules.
use alertory.Prelude.{
  ℕ, Bool, true, false, ◌||◌, List, [], Option, none, some, ◌≡◌, arith, Bool-cases, Option-cases,
  inl, inr,
}
use mathlib.Core.Path.{subst}
use alertory.Text.{Str}
use alertory.Slack.{is_empty}
use alertory.Db.Rules.{Enrichment, WorkflowRule}
use alertory.Db.Rules.Table.{RuleTable, seed_workflow_rules}
use alertory.Db.Rules.Unique.{
  IsRuleTable, delete_workflow_rule-IsRuleTable, seed_workflow_rules-IsRuleTable,
}
use alertory.Db.Rules.Kept.{upsert_workflow_rule-IsRuleTable}
use alertory.Text.Numbers.{Parsed, malformed, out_of_range, number, parse_int}
use alertory.Auth.{Session, check_csrf}
use alertory.Http.Rules.{
  RuleForm, row_id, saved_id, rule_of, save_rule, delete_rule, delete_rule_handler,
  read_enrichments, save_rule_handler, upsert_at, delete_at,
}

upsert_at-IsRuleTable :
    (id : Option ℕ) (rule : WorkflowRule) (t : RuleTable) {t' : RuleTable}
    → upsert_at id rule t ≡ some t'
    → IsRuleTable t
    → IsRuleTable t'
upsert_at-IsRuleTable none rule t ran v = subst IsRuleTable (ground arith) v
upsert_at-IsRuleTable (some id) rule t ran v = upsert_workflow_rule-IsRuleTable id rule t ran v

save_rule-IsRuleTable :
    (id : Option ℕ) (rule : WorkflowRule) (writes : Bool) (t : RuleTable)
    → IsRuleTable t
    → IsRuleTable (save_rule id rule writes t).1
unfolding save_rule
save_rule-IsRuleTable id rule writes t v =
    elim (Bool-cases (is_empty rule.name || is_empty rule.channel)) [
      | inl lacks ↦ rw lacks v
      | inr complete ↦ rw complete (elim (Bool-cases writes) [
        | inr fails ↦ rw fails v
        | inl runs ↦ rw runs (elim (Option-cases (upsert_at id rule t)) [
          | inl refused ↦ rw (refused, save_rule) v
          | inr (t', ran) ↦ rw (ran, save_rule) (upsert_at-IsRuleTable id rule t ran v)
        ])
      ])
    ]

delete_at-IsRuleTable :
    (id : Option ℕ) (t : RuleTable) → IsRuleTable t → IsRuleTable (delete_at id t)
delete_at-IsRuleTable none t v = v
delete_at-IsRuleTable (some id) t v = delete_workflow_rule-IsRuleTable id t v

delete_rule-IsRuleTable :
    (id : Parsed) (writes : Bool) (t : RuleTable)
    → IsRuleTable t
    → IsRuleTable (delete_rule id writes t).1
unfolding delete_rule
delete_rule-IsRuleTable malformed writes t v = v
delete_rule-IsRuleTable (out_of_range negative) writes t v = v
delete_rule-IsRuleTable (number negative n) true t v = delete_at-IsRuleTable (row_id negative n) t v
delete_rule-IsRuleTable (number negative n) false t v = v

pub delete_rule_handler-IsRuleTable :
    (parsed : Bool) (session : Option Session) (csrf id : Str) (writes : Bool) (t : RuleTable)
    → IsRuleTable t
    → IsRuleTable (delete_rule_handler parsed session csrf id writes t).1
unfolding delete_rule_handler
delete_rule_handler-IsRuleTable false session csrf id writes t v = v
delete_rule_handler-IsRuleTable true session csrf id writes t v =
    elim (Bool-cases (check_csrf session csrf)) [
      | inl checked ↦ rw checked (delete_rule-IsRuleTable (parse_int id) writes t v)
      | inr unchecked ↦ rw unchecked v
    ]

module _ (unmarshal : Str → Option (List Enrichment)) where
  pub save_rule_handler-IsRuleTable :
      (parsed : Bool) (session : Option Session) (id : Str) (f : RuleForm) (writes : Bool)
      (t : RuleTable)
      → IsRuleTable t
      → IsRuleTable (save_rule_handler unmarshal parsed session id f writes t).1
  unfolding save_rule_handler
  save_rule_handler-IsRuleTable false session id f writes t v = v
  save_rule_handler-IsRuleTable true session id f writes t v =
      elim (Bool-cases (check_csrf session f.csrf_token)) [
        | inr unchecked ↦ rw unchecked v
        | inl checked ↦ rw checked (elim (Option-cases (read_enrichments unmarshal f.enrichments)) [
          | inl broken ↦ rw (broken, save_rule_handler) v
          | inr (es, read) ↦
              rw (read, save_rule_handler)
                (save_rule-IsRuleTable (saved_id id) (rule_of f es) writes t v)
        ])
      ]

  -- What can become of the table.
  pub data Reached : RuleTable → Type 0 where
    created : Reached (record { rows = []; next_id = 1 })
    seeded :
        (counts : Bool) (saves : Str → Bool) (rules : List WorkflowRule) {t : RuleTable}
        → Reached t
        → Reached (seed_workflow_rules counts saves rules t)
    saved :
        (parsed : Bool) (session : Option Session) (id : Str) (f : RuleForm) (writes : Bool)
        {t : RuleTable}
        → Reached t
        → Reached (save_rule_handler unmarshal parsed session id f writes t).1
    deleted :
        (parsed : Bool) (session : Option Session) (csrf id : Str) (writes : Bool) {t : RuleTable}
        → Reached t
        → Reached (delete_rule_handler parsed session csrf id writes t).1

  -- Whatever rules are seeded, saved and deleted, in whatever order and with whatever failures,
  -- no two rules of the table have one id or one name, and each id is positive and below the next
  -- one.
  pub Reached-IsRuleTable : {t : RuleTable} → Reached t → IsRuleTable t
  Reached-IsRuleTable created = record { apart = tt; from = tt; counts = omega arith }
  Reached-IsRuleTable (seeded counts saves rules r) =
      seed_workflow_rules-IsRuleTable counts saves rules _ (Reached-IsRuleTable r)
  Reached-IsRuleTable (saved parsed session id f writes r) =
      save_rule_handler-IsRuleTable parsed session id f writes _ (Reached-IsRuleTable r)
  Reached-IsRuleTable (deleted parsed session csrf id writes r) =
      delete_rule_handler-IsRuleTable parsed session csrf id writes _ (Reached-IsRuleTable r)
