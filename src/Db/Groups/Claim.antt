-- ===== src/Db/Groups/Claim.antt =====
-- What `ClaimDueGroups` claims, and that a claimed row is not claimed again.
use mathlib.Core.List.{Perm}
use mathlib.Core.List.Perm
use alertory.Prelude.{
  ℕ, zero, suc, ◌≤◌, Bool, not, ◌&&◌, List, [], ◌∷◌, ◌++◌, map, ◌≡◌, ◌≢◌, refl, arith, leb, keep,
  take, drop, length, All, take-append-drop, length-take_le, length-take_full, inl, inr, Bool-cases,
}
use alertory.Text.{Str}
use alertory.Clock.{Time, Duration}
use alertory.Db.Groups.{
  Row, Table, is_due, insert_by_flush_after, order_by_flush_after, scan_group, due_rows,
  claim_due_groups,
}

-- `r` is due no later than each of the rows.
abbrev pub IsFirst : Row → List Row → Type 0
IsFirst r = All (λ s. r.flush_after ≤ s.flush_after)

abbrev IsOrdered : List Row → Type 0
IsOrdered [] = Unit
IsOrdered (r ∷ rows) = IsFirst r rows × IsOrdered rows

IsFirst-insert :
    (q r : Row) (rows : List Row)
    → q.flush_after ≤ r.flush_after
    → IsFirst q rows
    → IsFirst q (insert_by_flush_after r rows)
unfolding insert_by_flush_after
IsFirst-insert q r [] h k = (h, tt)
IsFirst-insert q r (s ∷ rows) h k = ground (arith, IsFirst-insert q r rows h k.1)

IsFirst-le :
    (q r : Row) (rows : List Row) → q.flush_after ≤ r.flush_after → IsFirst r rows → IsFirst q rows
IsFirst-le q r [] h k = tt
IsFirst-le q r (s ∷ rows) h k = (omega arith, IsFirst-le q r rows h k.1)

insert-IsOrdered :
    (r : Row) (rows : List Row) → IsOrdered rows → IsOrdered (insert_by_flush_after r rows)
unfolding insert_by_flush_after
insert-IsOrdered r [] h = (tt, tt)
insert-IsOrdered r (s ∷ rows) h = ground (
  arith,
  insert-IsOrdered r rows h.1,
  λ (le : s.flush_after ≤ r.flush_after). IsFirst-insert s r rows le h.0,
  λ (le : r.flush_after ≤ s.flush_after). IsFirst-le r s rows le h.0,
)

order-IsOrdered : (rows : List Row) → IsOrdered (order_by_flush_after rows)
unfolding order_by_flush_after
order-IsOrdered [] = tt
order-IsOrdered (r ∷ rows) = insert-IsOrdered r _ (order-IsOrdered rows)

insert-perm : (r : Row) (rows : List Row) → Perm (insert_by_flush_after r rows) (r ∷ rows)
unfolding insert_by_flush_after
insert-perm r [] = Perm.refl _
insert-perm r (s ∷ rows) = elim (Bool-cases (leb r.flush_after s.flush_after)) [
  | inl before ↦ rw before (Perm.refl _)
  | inr after ↦ rw after (Perm.trans (Perm.cons s (insert-perm r rows)) (Perm.swap r s rows))
]

order-perm : (rows : List Row) → Perm (order_by_flush_after rows) rows
unfolding order_by_flush_after
order-perm [] = Perm.refl []
order-perm (r ∷ rows) =
    Perm.trans (insert-perm r (order_by_flush_after rows)) (Perm.cons r (order-perm rows))

-- `r` is due no earlier than each of the rows.
abbrev pub IsLast : List Row → Row → Type 0
IsLast rows r = All (λ s. s.flush_after ≤ r.flush_after) rows

IsLast-nil : (rows : List Row) → All (IsLast []) rows
IsLast-nil [] = tt
IsLast-nil (r ∷ rows) = (tt, IsLast-nil rows)

IsFirst-drop : (q : Row) (n : ℕ) (rows : List Row) → IsFirst q rows → IsFirst q (drop n rows)
IsFirst-drop q zero rows k = k
IsFirst-drop q (suc n) [] k = tt
IsFirst-drop q (suc n) (r ∷ rows) k = IsFirst-drop q n rows k.1

IsLast-cons :
    (q : Row) (early rows : List Row)
    → IsFirst q rows
    → All (IsLast early) rows
    → All (IsLast (q ∷ early)) rows
IsLast-cons q early [] k l = tt
IsLast-cons q early (r ∷ rows) k l = ((k.0, l.0), IsLast-cons q early rows k.1 l.1)

-- The ordered rows split at any place into rows that come first and rows that are due later.
IsOrdered-split :
    (n : ℕ) (rows : List Row) → IsOrdered rows → All (IsLast (take n rows)) (drop n rows)
IsOrdered-split zero rows h = IsLast-nil rows
IsOrdered-split (suc n) [] h = tt
IsOrdered-split (suc n) (q ∷ rows) h =
    IsLast-cons q (take n rows) (drop n rows) (IsFirst-drop q n rows h.0)
      (IsOrdered-split n rows h.1)

-- A row that a claim may take.
abbrev pub is_free : (Str → Bool) → Time → Row → Bool
is_free locked now r = is_due now r && not (locked r.group_key)

-- A claim takes at most `limit` rows. The rows that it takes and those that it leaves are together
-- the due rows that nobody else holds; it leaves some only if it has taken `limit`; and what it
-- takes was due no later than anything that it leaves. It returns the groups of what it takes.
pub claim_due_groups_lem :
    (locked : Str → Bool) (limit : ℕ) (lease : Duration) (now : Time) (t : Table)
    → (claimed left : List Row) × ((claim_due_groups locked limit lease now t).0
        ≡ map scan_group claimed)
      × (length claimed ≤ limit)
      × (left ≢ [] → length claimed ≡ limit)
      × Perm (claimed ++ left) (keep (is_free locked now) t)
      × All (IsLast claimed) left
unfolding claim_due_groups due_rows
claim_due_groups_lem locked limit lease now t =
    let free = order_by_flush_after (keep (is_free locked now) t) in
    (
      take limit free,
      drop limit free,
      refl,
      length-take_le limit free,
      length-take_full limit free,
      rw (take-append-drop limit free) (order-perm (keep (is_free locked now) t)),
      IsOrdered-split limit free (order-IsOrdered (keep (is_free locked now) t)),
    )
