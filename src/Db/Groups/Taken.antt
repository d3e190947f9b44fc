-- ===== src/Db/Groups/Taken.antt =====
-- A claim takes every free row, where these are not more than its limit.
use mathlib.Core.Path.{subst}
use alertory.Prelude.{
  ℕ, ◌≤◌, ◌∷◌, Bool, true, List, [], keep, take, length, leb, some, ◌≡◌, ◌⊎◌, inl, inr, refl, sym,
  ◌∙◌, ap, arith, Bool-cases, In, In-keep, In-map, take_all, suc,
}
use alertory.Text.{Str, ◌==◌}
use alertory.Clock.{Time, Duration}
use alertory.Db.Groups.{
  Row, Table, find_row, insert_by_flush_after, order_by_flush_after, scan_group, due_rows,
  claim_due_groups,
}
use alertory.Db.Groups.Claim.{is_free}

pub find_row-In : (k : Str) (t : Table) {r : Row} → find_row k t ≡ some r → In r t
unfolding find_row
find_row-In k [] h = cc
find_row-In k (s ∷ t) {r} h = elim (Bool-cases (s.group_key == k)) [
  | inl here ↦ inl (ground (arith, here))
  | inr there ↦ inr (find_row-In k t (ground (arith, there)))
]

In-insert :
    (r s : Row) (rows : List Row) → (r ≡ s) ⊎ In r rows → In r (insert_by_flush_after s rows)
unfolding insert_by_flush_after
In-insert r s [] h = h
In-insert r s (q ∷ rows) h = elim (Bool-cases (leb s.flush_after q.flush_after)) [
  | inl early ↦ rw early h
  | inr late ↦ rw late (elim h [
    | inl e ↦ inr (In-insert r s rows (inl e))
    | inr (inl e) ↦ inl e
    | inr (inr k) ↦ inr (In-insert r s rows (inr k))
  ])
]

In-order : (r : Row) (rows : List Row) → In r rows → In r (order_by_flush_after rows)
unfolding order_by_flush_after
In-order r (s ∷ rows) (inl e) = In-insert r s (order_by_flush_after rows) (inl e)
In-order r (s ∷ rows) (inr h) = In-insert r s (order_by_flush_after rows) (inr (In-order r rows h))
In-order r [] h = absurd h

length-insert :
    (s : Row) (rows : List Row) → length (insert_by_flush_after s rows) ≡ suc (length rows)
unfolding insert_by_flush_after
length-insert s [] = refl
length-insert s (q ∷ rows) = ground (arith, length-insert s rows)

length-order : (rows : List Row) → length (order_by_flush_after rows) ≡ length rows
unfolding order_by_flush_after
length-order [] = refl
length-order (s ∷ rows) = length-insert s (order_by_flush_after rows) ∙ ap suc (length-order rows)

-- A claim takes each free row, where there are not more than its limit.
pub claim_due_groups-In :
    (locked : Str → Bool) (limit : ℕ) (lease : Duration) (now : Time) (t : Table) (r : Row)
    → In r t
    → is_free locked now r ≡ true
    → length (keep (is_free locked now) t) ≤ limit
    → In (scan_group r) (claim_due_groups locked limit lease now t).0
unfolding claim_due_groups due_rows
claim_due_groups-In locked limit lease now t r there free few =
    let rows = order_by_flush_after (keep (is_free locked now) t) in
    In-map scan_group r (take limit rows) (
      subst (In r)
        (sym (take_all limit rows (omega (arith, length-order (keep (is_free locked now) t)))))
        (In-order r (keep (is_free locked now) t) (In-keep (is_free locked now) r t free there)))
