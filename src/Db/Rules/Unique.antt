-- ===== src/Db/Rules/Unique.antt =====
-- The keys of the table `workflow_rules`: PRIMARY KEY (id) and UNIQUE (name).
use alertory.Prelude.{
  ℕ, ◌+◌, ◌<◌, Bool, List, [], ◌∷◌, keep, eqb, ◌≡◌, ◌≢◌, arith, All, All-imp, Bool-cases, inl, inr,
}
use alertory.Text.{Str, ◌==◌, eq_iff}
use alertory.Db.Rules.{WorkflowRule}
use alertory.Db.Rules.Table.{
  RuleRow, RuleTable, insert_rule, delete_workflow_rule, seed_rules, seed_workflow_rules,
  count_workflow_rules,
}

-- No other row has the id or the name of the row.
abbrev pub Apart : RuleRow → RuleRow → Type 0
Apart r q = (q.id ≢ r.id) × (q.rule.name ≢ r.rule.name)

abbrev pub AreApart : List RuleRow → Type 0
AreApart [] = Unit
AreApart (r ∷ rows) = All (Apart r) rows × AreApart rows

-- Ids come from the sequence, which starts at 1.
abbrev pub IsFrom : ℕ → RuleRow → Type 0
IsFrom next_id r = (0 < r.id) × (r.id < next_id)

pub record IsRuleTable (t : RuleTable) : Type 0 where
  pub apart : AreApart t.rows
  pub from : All (IsFrom t.next_id) t.rows
  pub counts : 0 < t.next_id

All-keep :
    (P : RuleRow → Type 0) (p : RuleRow → Bool) (rows : List RuleRow)
    → All P rows
    → All P (keep p rows)
All-keep P p [] h = tt
All-keep P p (r ∷ rows) h = elim (Bool-cases (p r)) [
  | inl kept ↦ rw kept (h.0, All-keep P p rows h.1)
  | inr dropped ↦ rw dropped (All-keep P p rows h.1)
]

AreApart-keep : (p : RuleRow → Bool) (rows : List RuleRow) → AreApart rows → AreApart (keep p rows)
AreApart-keep p [] h = tt
AreApart-keep p (r ∷ rows) h = elim (Bool-cases (p r)) [
  | inl kept ↦ rw kept (All-keep (Apart r) p rows h.0, AreApart-keep p rows h.1)
  | inr dropped ↦ rw dropped (AreApart-keep p rows h.1)
]

pub delete_workflow_rule-IsRuleTable :
    (id : ℕ) (t : RuleTable) → IsRuleTable t → IsRuleTable (delete_workflow_rule id t)
unfolding delete_workflow_rule
delete_workflow_rule-IsRuleTable id t v = record {
  apart = AreApart-keep _ t.rows v.apart;
  from = All-keep _ _ t.rows v.from;
  counts = v.counts;
}

-- A row of another name and of another id than the statement's stays apart from the others.
Apart-insert_rule :
    (r : RuleRow) (id : ℕ) (rule : WorkflowRule) (rows : List RuleRow)
    → id ≢ r.id
    → rule.name ≢ r.rule.name
    → All (Apart r) rows
    → All (Apart r) (insert_rule id rule rows)
unfolding insert_rule
Apart-insert_rule r id rule [] i n h = ((i, n), tt)
Apart-insert_rule r id rule (q ∷ rows) i n h = elim (Bool-cases (q.rule.name == rule.name)) [
  | inl same ↦ rw same ((h.0.0, n), h.1)
  | inr other ↦ rw other (h.0, Apart-insert_rule r id rule rows i n h.1)
]

-- A row that gets a name which it had is as far from the others as before.
Apart-renamed :
    (r : RuleRow) (rule : WorkflowRule) (rows : List RuleRow)
    → r.rule.name ≡ rule.name
    → All (Apart r) rows
    → All (Apart (record r { rule = rule })) rows
Apart-renamed r rule [] e h = tt
Apart-renamed r rule (q ∷ rows) e h = ((h.0.0, rw (← e) h.0.1), Apart-renamed r rule rows e h.1)

AreApart-insert_rule :
    (id : ℕ) (rule : WorkflowRule) (rows : List RuleRow)
    → AreApart rows
    → All (IsFrom id) rows
    → AreApart (insert_rule id rule rows)
unfolding insert_rule
AreApart-insert_rule id rule [] h k = (tt, tt)
AreApart-insert_rule id rule (q ∷ rows) h k = elim (Bool-cases (q.rule.name == rule.name)) [
  | inl same ↦ rw same (Apart-renamed q rule rows ((eq_iff _ _).0 same) h.0, h.1)
  | inr other ↦ rw other (
    Apart-insert_rule q id rule rows (omega arith) (ground (arith, eq_iff q.rule.name rule.name))
        h.0,
    AreApart-insert_rule id rule rows h.1 k.1,
  )
]

IsFrom-insert_rule :
    (id : ℕ) (rule : WorkflowRule) (rows : List RuleRow)
    → 0 < id
    → All (IsFrom id) rows
    → All (IsFrom (id + 1)) (insert_rule id rule rows)
unfolding insert_rule
IsFrom-insert_rule id rule [] pos h = ((pos, omega arith), tt)
IsFrom-insert_rule id rule (q ∷ rows) pos h = elim (Bool-cases (q.rule.name == rule.name)) [
  | inl same ↦ rw same (
    (h.0.0, omega arith),
    All-imp (IsFrom id) (IsFrom (id + 1)) rows (λ r k. (k.0, omega arith)) h.1,
  )
  | inr other ↦ rw other ((h.0.0, omega arith), IsFrom-insert_rule id rule rows pos h.1)
]

pub insert_rule-IsRuleTable :
    (rule : WorkflowRule) (t : RuleTable)
    → IsRuleTable t
    → IsRuleTable (record { rows = insert_rule t.next_id rule t.rows; next_id = t.next_id + 1 })
insert_rule-IsRuleTable rule t v = record {
  apart = AreApart-insert_rule t.next_id rule t.rows v.apart v.from;
  from = IsFrom-insert_rule t.next_id rule t.rows v.counts v.from;
  counts = omega arith;
}

pub seed_rules-IsRuleTable :
    (saves : Str → Bool) (rules : List WorkflowRule) (t : RuleTable)
    → IsRuleTable t
    → IsRuleTable (seed_rules saves rules t)
unfolding seed_rules
seed_rules-IsRuleTable saves [] t v = v
seed_rules-IsRuleTable saves (rule ∷ rules) t v = elim (Bool-cases (saves rule.name)) [
  | inl succeeds ↦
      rw succeeds (seed_rules-IsRuleTable saves rules _ (insert_rule-IsRuleTable rule t v))
  | inr fails ↦ rw fails v
]

pub seed_workflow_rules-IsRuleTable :
    (counts : Bool) (saves : Str → Bool) (rules : List WorkflowRule) (t : RuleTable)
    → IsRuleTable t
    → IsRuleTable (seed_workflow_rules counts saves rules t)
unfolding seed_workflow_rules
seed_workflow_rules-IsRuleTable counts saves rules t v = elim (Bool-cases counts) [
  | inl counted ↦ rw counted (elim (Bool-cases (eqb (count_workflow_rules t) 0)) [
    | inl no_rule ↦ rw no_rule (seed_rules-IsRuleTable saves rules t v)
    | inr some_rule ↦ rw some_rule v
  ])
  | inr uncounted ↦ rw uncounted v
]
