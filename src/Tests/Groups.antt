-- ===== src/Tests/Groups.antt =====
-- The table `alert_groups` on concrete data.
use mathlib.Core.List.{Perm}
use alertory.Prelude.{
  ◌+◌, ◌*◌, ◌≤◌, ◌<◌, In, Bool, true, false, List, [], ◌∷◌, ◌++◌, none, some, ◌≡◌, ◌≢◌, refl,
  length, map, All, keep, arith,
}
use alertory.Text.{Str, str, ◌==◌}
use alertory.Map.{get}
use alertory.Clock.{Duration, second}
use alertory.Db.Member.{GroupMember, MemberJson, marshal, unmarshal}
use alertory.Db.Groups.{
  Row, Table, find_row, inserted_row, upsert_group_member, is_due, claim_due_groups, scan_group,
  save_group_progress, save_group_progress_failed, least, cleanup_resolved_groups, due_rows,
  order_by_flush_after, insert_by_flush_after,
}
use alertory.Db.Groups.Upsert.{upsert_group_member_keeps_bookkeeping}
use alertory.Db.Groups.Claim.{IsLast, is_free, claim_due_groups_lem}
use alertory.Db.Groups.Races.{ClaimCall, claim, has_group, run_claims, claim_once, lost_update}
use alertory.Db.Groups.Schedule.{Step, Reach, storm_is_bounded}
use alertory.Db.Groups.Cleanup.{
  IsResolved, find_row-cleanup_resolved_groups, save_group_progress_failed_lem,
}
use alertory.Tests.Data.{info, second_firing, sent, alert}

abbrev eight : Duration
eight = 8 * second

abbrev cap : Duration
cap = 45 * second

-- The row that the first event of `sent` inserts at time 100.
abbrev row : Row
row = inserted_row info sent eight cap 100

abbrev table : Table
table = row ∷ []

abbrev resolved : GroupMember
resolved = alert (str "f1") (str "resolved")

abbrev key : Str
key = str "disk:0"

upsert_group_member_keeps_bookkeeping_example :
    (r' : Row) × (j' : MemberJson) × (find_row key
        (upsert_group_member info resolved eight cap 200 table)
      ≡ some r')
    × (get (str "f1") r'.members ≡ some j')
    × ((unmarshal j').status ≡ str "resolved")
    × ((unmarshal j').notified_targets ≡ (unmarshal (marshal sent)).notified_targets)
    × ((unmarshal j').notified_status ≡ (unmarshal (marshal sent)).notified_status)
    × ((k : Str) → k ≢ str "f1" → get k r'.members ≡ get k row.members)
    × (r'.dirty ≡ true)
unfolding find_row get inserted_row str ◌==◌
upsert_group_member_keeps_bookkeeping_example =
    upsert_group_member_keeps_bookkeeping info resolved eight cap 200 table row (marshal sent) refl
      refl refl refl

abbrev nobody : Str → Bool
nobody k = false

claim_due_groups_lem_example :
    (claimed left : List Row) × ((claim_due_groups nobody 25 eight 9000000000 table).0
      ≡ map scan_group claimed)
    × (length claimed ≤ 25)
    × (left ≢ [] → length claimed ≡ 25)
    × Perm (claimed ++ left) (keep (is_free nobody 9000000000) table)
    × All (IsLast claimed) left
claim_due_groups_lem_example = claim_due_groups_lem nobody 25 eight 9000000000 table

abbrev first_claim : ClaimCall
first_claim = record { locked = nobody; limit = 25; lease = eight; now = 9000000000 }

abbrev late_claim : ClaimCall
late_claim = record { locked = nobody; limit = 25; lease = eight; now = 90000000000 }

claim_once_example :
    All
      (λ groups. has_group key groups ≡ false)
      (run_claims (late_claim ∷ []) (claim first_claim table).1)
unfolding claim_due_groups has_group due_rows order_by_flush_after is_due inserted_row
    insert_by_flush_after ◌==◌ scan_group str
claim_once_example = claim_once first_claim table key (late_claim ∷ []) refl

storm_is_bounded_example : is_due 90000000000 row ≡ true
unfolding upsert_group_member find_row inserted_row str ◌==◌
storm_is_bounded_example =
    storm_is_bounded eight cap table key row 90000000000 (omega arith)
      (Reach.next Reach.start (Step.upsert info sent 100 [])) refl refl refl (omega arith)

lost_update_example :
    (r' : Row) × (find_row key (
        save_group_progress key
          ((str "f1", sent) ∷ [])
          300
          (upsert_group_member info second_firing eight cap 200 table))
      ≡ some r')
    × (get (str "f2") r'.members ≡ none)
    × (r'.dirty ≡ false)
unfolding find_row get str ◌==◌ inserted_row
lost_update_example =
    lost_update info second_firing eight cap 200 300 table row ((str "f1", sent) ∷ []) refl refl

find_row-cleanup_resolved_groups_example :
    let t' = (cleanup_resolved_groups 5000 table).1 in
    (row.updated_at < 5000 → All (λ e. IsResolved e.1) row.members → find_row key t' ≡ none)
    × (5000 ≤ row.updated_at → find_row key t' ≡ some row)
    × ((e : Str × MemberJson) (s : Str)
        → In e row.members
        → e.1.status ≡ some s
        → s ≢ str "resolved"
        → find_row key t' ≡ some row)
unfolding find_row str ◌==◌ inserted_row
find_row-cleanup_resolved_groups_example =
    find_row-cleanup_resolved_groups 5000 key table row (refl, tt) refl

save_group_progress_failed_lem_example :
    (r' : Row) × (find_row key (save_group_progress_failed key [] 40 (str "x") 500 table) ≡ some r')
    × (r'.dirty ≡ true)
    × (r'.attempts ≡ row.attempts + 1)
    × (r'.flush_after ≡ 500 + least ((40 + 1) * 10) 300 * second)
unfolding find_row str ◌==◌ inserted_row
save_group_progress_failed_lem_example =
    save_group_progress_failed_lem key [] 40 (str "x") 500 table row refl (omega arith)
