-- ===== src/Db/Rules/Kept.antt =====
-- `UpsertWorkflowRule` of internal/db/rules.go keeps the keys of the table.
use alertory.Prelude.{
  ℕ, Bool, false, not, ◌&&◌, List, [], ◌∷◌, any, eqb, Option, none, some, ◌≡◌, ◌≢◌, refl, sym,
  arith, All, All-imp, Bool-cases, eqb_iff, inl, inr,
}
use mathlib.Core.Path.{subst}
use alertory.Text.{Str, ◌==◌, eq_iff}
use alertory.Db.Rules.{WorkflowRule}
use alertory.Db.Rules.Table.{RuleRow, RuleTable, update_rule, name_taken, upsert_workflow_rule}
use alertory.Db.Rules.Unique.{Apart, AreApart, IsFrom, IsRuleTable, insert_rule-IsRuleTable}

IsFrom-update_rule :
    (id : ℕ) (rule : WorkflowRule) (next_id : ℕ) (rows : List RuleRow)
    → All (IsFrom next_id) rows
    → All (IsFrom next_id) (update_rule id rule rows)
unfolding update_rule
IsFrom-update_rule id rule next_id [] h = tt
IsFrom-update_rule id rule next_id (r ∷ rows) h =
    (ground (arith, h.0), IsFrom-update_rule id rule next_id rows h.1)

Apart-update_rule :
    (r : RuleRow) (id : ℕ) (rule : WorkflowRule) (rows : List RuleRow)
    → rule.name ≢ r.rule.name
    → All (Apart r) rows
    → All (Apart r) (update_rule id rule rows)
unfolding update_rule
Apart-update_rule r id rule [] n h = tt
Apart-update_rule r id rule (q ∷ rows) n h =
    (ground (arith, h.0), Apart-update_rule r id rule rows n h.1)

-- No row that has another id has the name.
abbrev pub IsFree : ℕ → Str → RuleRow → Type 0
IsFree id name r = r.id ≢ id → r.rule.name ≢ name

pub update_rule-absent :
    (id : ℕ) (rule : WorkflowRule) (rows : List RuleRow)
    → All (λ r. r.id ≢ id) rows
    → update_rule id rule rows ≡ rows
unfolding update_rule
update_rule-absent id rule [] h = refl
update_rule-absent id rule (r ∷ rows) h =
    ground (arith, eqb_iff r.id id, h.0, update_rule-absent id rule rows h.1)

-- The row of the statement, with a name that is free.
Apart-updated :
    (r : RuleRow) (rule : WorkflowRule) (rows : List RuleRow)
    → All (Apart r) rows
    → All (IsFree r.id rule.name) rows
    → All (Apart (record r { rule = rule })) rows
Apart-updated r rule [] h k = tt
Apart-updated r rule (q ∷ rows) h k = ((h.0.0, k.0 h.0.0), Apart-updated r rule rows h.1 k.1)

AreApart-update_rule :
    (id : ℕ) (rule : WorkflowRule) (rows : List RuleRow)
    → AreApart rows
    → All (IsFree id rule.name) rows
    → AreApart (update_rule id rule rows)
unfolding update_rule
AreApart-update_rule id rule [] h k = tt
AreApart-update_rule id rule (r ∷ rows) h k = elim (Bool-cases (eqb r.id id)) [
  | inl here ↦
      let same : r.id ≡ id = (eqb_iff r.id id).0 here in
      let absent =
        update_rule-absent id rule rows
          (All-imp (Apart r) (λ q. q.id ≢ id) rows (λ q a e. a.0 (ground (arith, same, e))) h.0) in
      rw (here, absent) (Apart-updated r rule rows h.0 (rw same k.1), h.1)
  | inr there ↦ rw there (
    Apart-update_rule r id rule rows (λ e. k.0 (ground (arith, eqb_iff r.id id)) (sym e)) h.0,
    AreApart-update_rule id rule rows h.1 k.1,
  )
]

pub any-none :
    (p : RuleRow → Bool) (rows : List RuleRow) → any p rows ≡ false → All (λ r. p r ≡ false) rows
any-none p [] h = tt
any-none p (r ∷ rows) h = (ground arith, any-none p rows (ground arith))

-- Where no other row has the name, the name is free.
pub name_taken-IsFree :
    (id : ℕ) (name : Str) (rows : List RuleRow)
    → any (λ r. not (eqb r.id id) && r.rule.name == name) rows ≡ false
    → All (IsFree id name) rows
name_taken-IsFree id name rows free =
    All-imp _ (IsFree id name) rows
      (λ r other i e. ground (arith, eqb_iff r.id id, eq_iff r.rule.name name, other, i, e))
      (any-none (λ r. not (eqb r.id id) && r.rule.name == name) rows free)

update_rule-AreApart :
    (id : ℕ) (rule : WorkflowRule) (rows : List RuleRow)
    → name_taken id rule.name rows ≡ false
    → AreApart rows
    → AreApart (update_rule id rule rows)
unfolding name_taken
update_rule-AreApart id rule rows free v = elim (Bool-cases (any (λ r. eqb r.id id) rows)) [
  | inl there ↦
      AreApart-update_rule id rule rows v (name_taken-IsFree id rule.name rows (ground arith))
  | inr absent ↦
      rw
        (update_rule-absent id rule rows (
          All-imp _ (λ r. r.id ≢ id) rows (λ r other e. ground (arith, eqb_iff r.id id, other, e))
            (any-none _ rows absent)))
        v
]

-- `none` is an error, which changes nothing.
abbrev IsLeft : Option RuleTable → Type 0
IsLeft none = Unit {0}
IsLeft (some t) = IsRuleTable t

upsert_workflow_rule-IsLeft :
    (id : ℕ) (rule : WorkflowRule) (t : RuleTable)
    → IsRuleTable t
    → IsLeft (upsert_workflow_rule id rule t)
unfolding upsert_workflow_rule
upsert_workflow_rule-IsLeft id rule t v = elim (Bool-cases (eqb id 0)) [
  | inl new ↦ rw new (insert_rule-IsRuleTable rule t v)
  | inr old ↦ rw old (elim (Bool-cases (name_taken id rule.name t.rows)) [
    | inl taken ↦ rw taken tt
    | inr free ↦ rw free (record {
      apart = update_rule-AreApart id rule t.rows free v.apart;
      from = IsFrom-update_rule id rule t.next_id t.rows v.from;
      counts = v.counts;
    })
  ])
]

pub upsert_workflow_rule-IsRuleTable :
    (id : ℕ) (rule : WorkflowRule) (t : RuleTable) {t' : RuleTable}
    → upsert_workflow_rule id rule t ≡ some t'
    → IsRuleTable t
    → IsRuleTable t'
upsert_workflow_rule-IsRuleTable id rule t ran v =
    subst IsLeft ran (upsert_workflow_rule-IsLeft id rule t v)
