-- ===== src/Db/Rules/Table.antt =====
-- internal/db/rules.go: the table `workflow_rules`. A rule of the table keeps its JSON columns as
-- the values that they encode; `next_id` is the column's sequence, which an INSERT advances even
-- where the name is taken.
use alertory.Prelude.{
  ℕ, ◌+◌, Bool, true, false, not, ◌&&◌, List, [], ◌∷◌, ◌++◌, any, keep, length, eqb, Option, none,
  some, ◌≡◌, ◌≢◌, refl, ◌∙◌, arith, All, eqb_iff, Bool-cases, inl, inr, if◌then◌else◌,
}
use alertory.Text.{Str, ◌==◌, eq_iff, eq_refl}
use alertory.Db.Rules.{WorkflowRule}

pub record RuleRow : Type 0 where
  pub id : ℕ
  pub rule : WorkflowRule

pub record RuleTable : Type 0 where
  pub rows : List RuleRow
  pub next_id : ℕ

-- WHERE name = $1
unfoldable pub find_rule : Str → List RuleRow → Option RuleRow
find_rule name [] = none
find_rule name (r ∷ rows) = if r.rule.name == name then some r else find_rule name rows

unfoldable pub get_workflow_rule : ℕ → List RuleRow → Option WorkflowRule
get_workflow_rule id [] = none
get_workflow_rule id (r ∷ rows) = if eqb r.id id then some r.rule else get_workflow_rule id rows

unfoldable pub count_workflow_rules : RuleTable → ℕ
count_workflow_rules t = length t.rows

-- INSERT … ON CONFLICT (name) DO UPDATE
unfoldable pub insert_rule : ℕ → WorkflowRule → List RuleRow → List RuleRow
insert_rule id rule [] = record { id = id; rule = rule } ∷ []
insert_rule id rule (r ∷ rows) =
    if r.rule.name == rule.name
    then record r { rule = rule } ∷ rows
    else r ∷ insert_rule id rule rows

-- UPDATE … WHERE id = $1
unfoldable pub update_rule : ℕ → WorkflowRule → List RuleRow → List RuleRow
update_rule id rule [] = []
update_rule id rule (r ∷ rows) =
    (if eqb r.id id then record r { rule = rule } else r) ∷ update_rule id rule rows

-- Another row has the name, and the row that is updated exists: the UPDATE violates UNIQUE (name).
unfoldable pub name_taken : ℕ → Str → List RuleRow → Bool
name_taken id name rows =
    any (λ r. eqb r.id id) rows && any (λ r. not (eqb r.id id) && r.rule.name == name) rows

-- `none` is an error. The id 0 is that of a new rule.
unfoldable pub upsert_workflow_rule : ℕ → WorkflowRule → RuleTable → Option RuleTable
unfolding insert_rule update_rule name_taken
upsert_workflow_rule id rule t =
    if eqb id 0
    then some (record { rows = insert_rule t.next_id rule t.rows; next_id = t.next_id + 1 })
    else if name_taken id rule.name t.rows
    then none
    else some (record t { rows = update_rule id rule t.rows })

unfoldable pub delete_workflow_rule : ℕ → RuleTable → RuleTable
delete_workflow_rule id t = record t { rows = keep (λ r. not (eqb r.id id)) t.rows }

-- The loop of the seeding, which stops at the first statement that fails (`saves`, by the name).
unfoldable pub seed_rules : (Str → Bool) → List WorkflowRule → RuleTable → RuleTable
unfolding insert_rule
seed_rules saves [] t = t
seed_rules saves (rule ∷ rules) t =
    let rest =
      seed_rules saves rules
        (record { rows = insert_rule t.next_id rule t.rows; next_id = t.next_id + 1 }) in
    if saves rule.name then rest else t

-- `counts` says whether the rows can be counted; an error ends the seeding.
unfoldable pub seed_workflow_rules : Bool → (Str → Bool) → List WorkflowRule → RuleTable → RuleTable
unfolding seed_rules count_workflow_rules
seed_workflow_rules counts saves rules t =
    let seeded = seed_rules saves rules t in
    if counts then (if eqb (count_workflow_rules t) 0 then seeded else t) else t

inserted_row : ℕ → WorkflowRule → Option RuleRow → RuleRow
inserted_row id rule none = record { id = id; rule = rule }
inserted_row id rule (some r) = record r { rule = rule }

find_rule-insert_rule :
    (id : ℕ) (rule : WorkflowRule) (name : Str) (rows : List RuleRow)
    → find_rule name (insert_rule id rule rows) ≡ (
        if rule.name == name
        then some (inserted_row id rule (find_rule rule.name rows))
        else find_rule name rows)
unfolding find_rule insert_rule inserted_row
find_rule-insert_rule id rule name [] = refl
find_rule-insert_rule id rule name (r ∷ rows) = ground (
  arith,
  eq_iff r.rule.name rule.name,
  eq_iff r.rule.name name,
  eq_iff rule.name name,
  find_rule-insert_rule id rule name rows,
)

find_rule-seed_rules_other :
    (saves : Str → Bool) (rules : List WorkflowRule) (name : Str) (t : RuleTable)
    → All (λ rule. rule.name ≢ name) rules
    → find_rule name (seed_rules saves rules t).rows ≡ find_rule name t.rows
unfolding seed_rules
find_rule-seed_rules_other saves [] name t h = refl
find_rule-seed_rules_other saves (rule ∷ rules) name t h = elim (Bool-cases (saves rule.name)) [
  | inl succeeds ↦ rw succeeds (
      find_rule-seed_rules_other saves rules name _ h.1
      ∙ (find_rule-insert_rule t.next_id rule name t.rows
          ∙ ground (arith, eq_iff rule.name name, h.0)))
  | inr fails ↦ rw fails refl
]

inserted_row-rule :
    (id : ℕ) (rule : WorkflowRule) (o : Option RuleRow) → (inserted_row id rule o).rule ≡ rule
unfolding inserted_row
inserted_row-rule id rule none = refl
inserted_row-rule id rule (some r) = refl

find_rule-seed_rules :
    (saves : Str → Bool) (before after : List WorkflowRule) (rule : WorkflowRule) (t : RuleTable)
    → All (λ q. saves q.name ≡ true) before
    → saves rule.name ≡ true
    → All (λ q. q.name ≢ rule.name) after
    → (r : RuleRow) × (find_rule rule.name (seed_rules saves (before ++ (rule ∷ after)) t).rows
        ≡ some r)
      × (r.rule ≡ rule)
unfolding seed_rules
find_rule-seed_rules saves [] after rule t earlier succeeds h = (
  inserted_row t.next_id rule (find_rule rule.name t.rows),
  rw succeeds (
      find_rule-seed_rules_other saves after rule.name _ h
      ∙ (find_rule-insert_rule t.next_id rule rule.name t.rows ∙ rw (eq_refl rule.name) refl)),
  inserted_row-rule t.next_id rule (find_rule rule.name t.rows),
)
find_rule-seed_rules saves (b ∷ before) after rule t earlier succeeds h =
    rw earlier.0 (find_rule-seed_rules saves before after rule _ earlier.1 succeeds h)

-- The seeding leaves a table that holds rules as it is, and any table that it cannot count. Into an
-- empty table it brings a rule as it was given, if no later rule has its name, and the count, its
-- statement and those before it succeed.
pub seed_workflow_rules_lem :
    (counts : Bool) (saves : Str → Bool) (before after : List WorkflowRule) (rule : WorkflowRule)
    (t : RuleTable)
    → All (λ q. saves q.name ≡ true) before
    → saves rule.name ≡ true
    → All (λ q. q.name ≢ rule.name) after
    → let seeded = seed_workflow_rules counts saves (before ++ (rule ∷ after)) t in
      (count_workflow_rules t ≢ 0 → seeded ≡ t)
      × (counts ≡ false → seeded ≡ t)
      × (counts ≡ true
          → count_workflow_rules t ≡ 0
          → (r : RuleRow) × (find_rule rule.name seeded.rows ≡ some r) × (r.rule ≡ rule))
unfolding seed_workflow_rules
seed_workflow_rules_lem counts saves before after rule t earlier succeeds h = (
  λ some_rule. ground arith,
  λ uncounted. ground arith,
  λ counted no_rule.
      rw (counted, (eqb_iff (count_workflow_rules t) 0).1 no_rule)
        (find_rule-seed_rules saves before after rule t earlier succeeds h),
)
