-- ===== src/Db/Rules/Refines.antt =====
-- The table `workflow_rules` as a map from names to rules, which forgets ids and order.
use mathlib.Core.Path.{subst}
use alertory.Prelude.{
  ℕ, false, not, List, [], ◌∷◌, any, keep, eqb, Option, none, some, ◌≡◌, ◌≢◌, refl, ◌∙◌, sym, ap,
  arith, All, All-imp, Bool-cases, Option-cases, eqb_iff, inl, inr, if◌then◌else◌,
}
use alertory.Text.{Str, ◌==◌, eq_iff}
use alertory.Db.Rules.{WorkflowRule}
use alertory.Db.Rules.Table.{
  RuleRow, RuleTable, get_workflow_rule, insert_rule, update_rule, name_taken, upsert_workflow_rule,
  delete_workflow_rule,
}
use alertory.Db.Rules.Unique.{Apart, AreApart, IsRuleTable}
use alertory.Db.Rules.Kept.{IsFree, update_rule-absent, any-none, name_taken-IsFree}

abbrev pub RuleMap : Type 0
RuleMap = Str → Option WorkflowRule

unfoldable pub named : List RuleRow → RuleMap
named [] n = none
named (r ∷ rows) n = if r.rule.name == n then some r.rule else named rows n

-- The map with a rule under its name.
abbrev pub with_rule : WorkflowRule → RuleMap → RuleMap
with_rule rule m n = if rule.name == n then some rule else m n

-- The map without the rule of an id, if there is one.
abbrev pub without : Option WorkflowRule → RuleMap → RuleMap
without none m n = m n
without (some old) m n = if old.name == n then none else m n

-- The map after an upsert: a new rule, or a rule in place of the one that had the id.
abbrev replaced : WorkflowRule → Option WorkflowRule → RuleMap → RuleMap
replaced rule none m = m
replaced rule (some old) m = with_rule rule (without (some old) m)

abbrev pub upserted : ℕ → WorkflowRule → RuleTable → RuleMap
upserted id rule t =
    if eqb id 0
    then with_rule rule (named t.rows)
    else replaced rule (get_workflow_rule id t.rows) (named t.rows)

named-insert_rule :
    (id : ℕ) (rule : WorkflowRule) (n : Str) (rows : List RuleRow)
    → named (insert_rule id rule rows) n ≡ with_rule rule (named rows) n
unfolding named insert_rule
named-insert_rule id rule n [] = refl
named-insert_rule id rule n (r ∷ rows) = ground (
  arith,
  eq_iff r.rule.name rule.name,
  eq_iff r.rule.name n,
  eq_iff rule.name n,
  named-insert_rule id rule n rows,
)

-- A name that no row has names no rule.
named-none :
    (r : RuleRow) (n : Str) (rows : List RuleRow)
    → r.rule.name ≡ n
    → All (Apart r) rows
    → named rows n ≡ none
unfolding named
named-none r n [] e h = refl
named-none r n (q ∷ rows) e h =
    ground (arith, eq_iff q.rule.name n, h.0.1, named-none r n rows e h.1)

-- The rule of an id that the row does not have has another name than the row.
get_workflow_rule-ne :
    (r : RuleRow) (id : ℕ) (old : WorkflowRule) (rows : List RuleRow)
    → All (Apart r) rows
    → get_workflow_rule id rows ≡ some old
    → old.name ≢ r.rule.name
unfolding get_workflow_rule
get_workflow_rule-ne r id old [] h e same = absurd cc
get_workflow_rule-ne r id old (q ∷ rows) h e same = elim (Bool-cases (eqb q.id id)) [
  | inl here ↦ h.0.1 (ground (arith, here))
  | inr there ↦ get_workflow_rule-ne r id old rows h.1 (ground (arith, there)) same
]

get_workflow_rule-absent :
    (id : ℕ) (rows : List RuleRow) → All (λ r. r.id ≢ id) rows → get_workflow_rule id rows ≡ none
unfolding get_workflow_rule
get_workflow_rule-absent id [] h = refl
get_workflow_rule-absent id (r ∷ rows) h =
    ground (arith, eqb_iff r.id id, h.0, get_workflow_rule-absent id rows h.1)

ids_ne :
    (r : RuleRow) (id : ℕ) (rows : List RuleRow)
    → r.id ≡ id
    → All (Apart r) rows
    → All (λ q. q.id ≢ id) rows
ids_ne r id rows e h = All-imp (Apart r) (λ q. q.id ≢ id) rows (λ q a f. a.0 (f ∙ sym e)) h

named-update_rule :
    (id : ℕ) (rule : WorkflowRule) (n : Str) (rows : List RuleRow)
    → AreApart rows
    → All (IsFree id rule.name) rows
    → named (update_rule id rule rows) n ≡ replaced rule (get_workflow_rule id rows) (named rows) n
unfolding named update_rule get_workflow_rule
named-update_rule id rule n [] h k = refl
named-update_rule id rule n (r ∷ rows) h k = elim (Bool-cases (eqb r.id id)) [
  | inl here ↦
      let e = (eqb_iff r.id id).0 here in
      rw (here, update_rule-absent id rule rows (ids_ne r id rows e h.0))
        (elim (Bool-cases (r.rule.name == n)) [
          | inl same ↦ ground (arith, same, named-none r n rows ((eq_iff r.rule.name n).0 same) h.0)
          | inr other ↦ ground (arith, other)
        ])
  | inr there ↦ rw there (elim (Option-cases (get_workflow_rule id rows)) [
    | inl absent ↦
        ap (λ x. if r.rule.name == n then some r.rule else x)
          (named-update_rule id rule n rows h.1 k.1
            ∙ ap (λ o. replaced rule o (named rows) n) absent)
        ∙ sym (ap (λ o. replaced rule o (named (r ∷ rows)) n) absent)
    | inr (old, found) ↦
        let taken : r.rule.name ≢ rule.name = k.0 (λ e. ground (arith, eqb_iff r.id id)) in
        let apart = get_workflow_rule-ne r id old rows h.0 found in
        ap (λ x. if r.rule.name == n then some r.rule else x)
          (named-update_rule id rule n rows h.1 k.1
            ∙ ap (λ o. replaced rule o (named rows) n) found)
        ∙ (ground (arith, eq_iff r.rule.name n, eq_iff rule.name n, eq_iff old.name n, taken, apart)
            ∙ sym (ap (λ o. replaced rule o (named (r ∷ rows)) n) found))
  ])
]

keep_absent :
    (id : ℕ) (rows : List RuleRow)
    → All (λ r. r.id ≢ id) rows
    → keep (λ r. not (eqb r.id id)) rows ≡ rows
keep_absent id [] h = refl
keep_absent id (r ∷ rows) h = ground (arith, eqb_iff r.id id, h.0, keep_absent id rows h.1)

named-delete :
    (id : ℕ) (n : Str) (rows : List RuleRow)
    → AreApart rows
    → named (keep (λ r. not (eqb r.id id)) rows) n
      ≡ without (get_workflow_rule id rows) (named rows) n
unfolding named get_workflow_rule
named-delete id n [] h = refl
named-delete id n (r ∷ rows) h = elim (Bool-cases (eqb r.id id)) [
  | inl here ↦
      rw (here, keep_absent id rows (ids_ne r id rows ((eqb_iff r.id id).0 here) h.0))
        (elim (Bool-cases (r.rule.name == n)) [
          | inl same ↦ ground (arith, same, named-none r n rows ((eq_iff r.rule.name n).0 same) h.0)
          | inr other ↦ ground (arith, other)
        ])
  | inr there ↦ rw there (elim (Option-cases (get_workflow_rule id rows)) [
    | inl absent ↦
        ap (λ x. if r.rule.name == n then some r.rule else x)
          (named-delete id n rows h.1 ∙ ap (λ o. without o (named rows) n) absent)
        ∙ sym (ap (λ o. without o (named (r ∷ rows)) n) absent)
    | inr (old, found) ↦
        let apart = get_workflow_rule-ne r id old rows h.0 found in
        ap (λ x. if r.rule.name == n then some r.rule else x)
          (named-delete id n rows h.1 ∙ ap (λ o. without o (named rows) n) found)
        ∙ (ground (arith, eq_iff r.rule.name n, eq_iff old.name n, apart)
            ∙ sym (ap (λ o. without o (named (r ∷ rows)) n) found))
  ])
]

named-update_rule_free :
    (id : ℕ) (rule : WorkflowRule) (n : Str) (rows : List RuleRow)
    → AreApart rows
    → name_taken id rule.name rows ≡ false
    → named (update_rule id rule rows) n ≡ replaced rule (get_workflow_rule id rows) (named rows) n
unfolding name_taken
named-update_rule_free id rule n rows h free = elim (Bool-cases (any (λ r. eqb r.id id) rows)) [
  | inl there ↦
      named-update_rule id rule n rows h (name_taken-IsFree id rule.name rows (ground arith))
  | inr absent ↦
      let gone =
        All-imp _ (λ r. r.id ≢ id) rows (λ r other e. ground (arith, eqb_iff r.id id, other, e))
          (any-none (λ r. eqb r.id id) rows absent) in
      ap (λ x. named x n) (update_rule-absent id rule rows gone)
      ∙ sym (ap (λ o. replaced rule o (named rows) n) (get_workflow_rule-absent id rows gone))
]

-- An error leaves no map.
abbrev Shows : Option RuleTable → Str → Option WorkflowRule → Type 0
Shows none n o = Unit {0}
Shows (some t) n o = named t.rows n ≡ o

upsert_workflow_rule-Shows :
    (id : ℕ) (rule : WorkflowRule) (t : RuleTable) (n : Str)
    → IsRuleTable t
    → Shows (upsert_workflow_rule id rule t) n (upserted id rule t n)
unfolding upsert_workflow_rule
upsert_workflow_rule-Shows id rule t n v = elim (Bool-cases (eqb id 0)) [
  | inl new ↦ rw new (named-insert_rule t.next_id rule n t.rows)
  | inr old ↦ rw old (elim (Bool-cases (name_taken id rule.name t.rows)) [
    | inl taken ↦ rw taken tt
    | inr free ↦ rw free (named-update_rule_free id rule n t.rows v.apart free)
  ])
]

pub named-upsert_workflow_rule :
    (id : ℕ) (rule : WorkflowRule) (t t' : RuleTable) (n : Str)
    → upsert_workflow_rule id rule t ≡ some t'
    → IsRuleTable t
    → named t'.rows n ≡ upserted id rule t n
named-upsert_workflow_rule id rule t t' n ran v =
    subst (λ o. Shows o n (upserted id rule t n)) ran (upsert_workflow_rule-Shows id rule t n v)

pub named-delete_workflow_rule :
    (id : ℕ) (t : RuleTable) (n : Str)
    → IsRuleTable t
    → named (delete_workflow_rule id t).rows n
      ≡ without (get_workflow_rule id t.rows) (named t.rows) n
unfolding delete_workflow_rule
named-delete_workflow_rule id t n v = named-delete id n t.rows v.apart
