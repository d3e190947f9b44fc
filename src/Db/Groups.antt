-- ===== src/Db/Groups.antt =====
-- internal/db/groups.go: the table `alert_groups` and the statements on it. A statement runs at a
-- time `now`, and one that fails changes nothing. The order of `ORDER BY` is that of a stable sort.
pub mod Upsert
pub mod Claim
pub mod Taken
pub mod Schedule
pub mod Races
pub mod Cleanup
use alertory.Prelude.{
  ℕ, zero, suc, ◌+◌, ◌-◌, ◌*◌, ◌/◌, ◌%◌, ◌^◌, Bool, true, false, not, ◌&&◌, ◌||◌, List, [], ◌∷◌,
  map, Option, none, some, ltb, leb, keep, all, any, take, length, if◌then◌else◌,
}
use alertory.Text.{Str, str, ◌==◌}
use alertory.Map.{Map, get, put}
use alertory.Clock.{Time, Duration, second, interval}
use alertory.Db.Member.{GroupMember, MemberJson, empty_object, marshal, unmarshal, concat}

-- A row of `alert_groups`.
pub record Row : Type 0 where
  pub group_key : Str
  pub rule_name : Str
  pub channel : Str
  pub team : Str
  pub notification_only : Bool
  pub members : Map MemberJson
  pub dirty : Bool
  pub attempts : ℕ
  pub last_error : Option Str
  pub first_event_at : Time
  pub flush_after : Time
  pub max_flush_by : Time
  pub last_flushed_at : Option Time
  pub updated_at : Time

abbrev pub Table : Type 0
Table = List Row

pub record AlertGroup : Type 0 where
  pub group_key : Str
  pub rule_name : Str
  pub channel : Str
  pub team : Str
  pub notification_only : Bool
  pub members : Map GroupMember
  pub attempts : ℕ

pub record GroupInfo : Type 0 where
  pub group_key : Str
  pub rule_name : Str
  pub channel : Str
  pub team : Str
  pub notification_only : Bool

-- WHERE group_key = $1
unfoldable pub find_row : Str → Table → Option Row
find_row k [] = none
find_row k (r ∷ t) = if r.group_key == k then some r else find_row k t

-- LEAST
abbrev pub least : ℕ → ℕ → ℕ
least a b = if leb a b then a else b

-- COALESCE(members -> fp, '{}') || member
unfoldable pub merge_member : Option MemberJson → MemberJson → MemberJson
merge_member none new = concat empty_object new
merge_member (some old) new = concat old new

unfoldable pub inserted_row : GroupInfo → GroupMember → Duration → Duration → Time → Row
inserted_row info member debounce max_window now = record {
  group_key = info.group_key;
  rule_name = info.rule_name;
  channel = info.channel;
  team = info.team;
  notification_only = info.notification_only;
  members = (member.fingerprint, marshal member) ∷ [];
  dirty = true;
  attempts = 0;
  last_error = none;
  first_event_at = now;
  flush_after = now + interval debounce;
  max_flush_by = now + interval max_window;
  last_flushed_at = none;
  updated_at = now;
}

-- ON CONFLICT (group_key) DO UPDATE
unfoldable pub updated_row : GroupInfo → GroupMember → Duration → Time → Row → Row
updated_row info member debounce now r = record r {
  members =
      put member.fingerprint (merge_member (get member.fingerprint r.members) (marshal member))
        r.members;
  team = info.team;
  notification_only = info.notification_only;
  dirty = true;
  attempts = 0;
  last_error = none;
  flush_after = least (now + interval debounce) r.max_flush_by;
  updated_at = now;
}

unfoldable pub upsert_group_member :
    GroupInfo → GroupMember → Duration → Duration → Time → Table → Table
upsert_group_member info member debounce max_window now [] =
    inserted_row info member debounce max_window now ∷ []
upsert_group_member info member debounce max_window now (r ∷ t) =
    if r.group_key == info.group_key
    then updated_row info member debounce now r ∷ t
    else r ∷ upsert_group_member info member debounce max_window now t

-- dirty AND flush_after <= now()
unfoldable pub is_due : Time → Row → Bool
is_due now r = r.dirty && leb r.flush_after now

-- ORDER BY flush_after
unfoldable pub insert_by_flush_after : Row → List Row → List Row
insert_by_flush_after r [] = r ∷ []
insert_by_flush_after r (s ∷ rows) =
    if leb r.flush_after s.flush_after then r ∷ s ∷ rows else s ∷ insert_by_flush_after r rows

unfoldable pub order_by_flush_after : List Row → List Row
order_by_flush_after [] = []
order_by_flush_after (r ∷ rows) = insert_by_flush_after r (order_by_flush_after rows)

unfoldable pub unmarshal_members : Map MemberJson → Map GroupMember
unmarshal_members [] = []
unmarshal_members ((k, j) ∷ m) = (k, unmarshal j) ∷ unmarshal_members m

unfoldable pub marshal_members : Map GroupMember → Map MemberJson
marshal_members [] = []
marshal_members ((k, v) ∷ m) = (k, marshal v) ∷ marshal_members m

unfoldable pub scan_group : Row → AlertGroup
scan_group r = record {
  group_key = r.group_key;
  rule_name = r.rule_name;
  channel = r.channel;
  team = r.team;
  notification_only = r.notification_only;
  members = unmarshal_members r.members;
  attempts = r.attempts;
}

-- The rows of the SELECT. `locked` says which rows another transaction holds.
unfoldable pub due_rows : (Str → Bool) → ℕ → Time → Table → List Row
due_rows locked limit now t =
    take limit (order_by_flush_after (keep (λ r. is_due now r && not (locked r.group_key)) t))

-- group_key = ANY(keys)
unfoldable pub is_listed : Str → List Row → Bool
is_listed k rows = any (λ r. r.group_key == k) rows

unfoldable pub leased_row : Duration → Time → Row → Row
leased_row lease now r = record r { dirty = false; flush_after = now + interval lease }

unfoldable pub lease_rows : List Row → Duration → Time → Table → Table
lease_rows claimed lease now [] = []
lease_rows claimed lease now (r ∷ t) =
    (if is_listed r.group_key claimed then leased_row lease now r else r)
    ∷ lease_rows claimed lease now t

-- The groups that are claimed, and the table after the commit.
unfoldable pub claim_due_groups :
    (Str → Bool) → ℕ → Duration → Time → Table → List AlertGroup × Table
claim_due_groups locked limit lease now t =
    let claimed = due_rows locked limit now t in
    (map scan_group claimed, lease_rows claimed lease now t)

-- UPDATE alert_groups SET … WHERE group_key = k
unfoldable pub update_row : Str → (Row → Row) → Table → Table
update_row k f [] = []
update_row k f (r ∷ t) = (if r.group_key == k then f r else r) ∷ update_row k f t

unfoldable pub saved_row : Map GroupMember → Time → Row → Row
saved_row members now r = record r {
  members = marshal_members members;
  dirty = false;
  attempts = 0;
  last_error = none;
  last_flushed_at = some now;
  updated_at = now;
}

unfoldable pub save_group_progress : Str → Map GroupMember → Time → Table → Table
save_group_progress k members now = update_row k (saved_row members now)

-- A count of seconds that may be negative.
pub data Seconds : Type 0 where
  plus : ℕ → Seconds
  minus : ℕ → Seconds

-- `time.Duration(attempts+1) * 10 * time.Second`, an int64, capped at five minutes; then
-- `int(backoff.Seconds())`, which truncates towards 0.
unfoldable pub backoff_seconds : ℕ → Seconds
backoff_seconds attempts =
    let nanos = (attempts + 1) * (10 * second) % 2 ^ 64 in
    if ltb nanos (2 ^ 63)
    then plus ((if ltb (300 * second) nanos then 300 * second else nanos) / second)
    else minus ((2 ^ 64 - nanos) / second)

unfoldable pub add_seconds : Time → Seconds → Time
add_seconds now (plus s) = now + s * second
add_seconds now (minus s) = now - s * second

unfoldable pub failed_row : Map GroupMember → ℕ → Str → Time → Row → Row
failed_row members attempts error now r = record r {
  members = marshal_members members;
  dirty = true;
  attempts = r.attempts + 1;
  last_error = some error;
  flush_after = add_seconds now (backoff_seconds attempts);
  updated_at = now;
}

unfoldable pub save_group_progress_failed : Str → Map GroupMember → ℕ → Str → Time → Table → Table
save_group_progress_failed k members attempts error now =
    update_row k (failed_row members attempts error now)

-- m.value ->> 'status' <> 'resolved', where NULL is not true
unfoldable pub is_unresolved : MemberJson → Bool
is_unresolved j = elim j.status [ none ↦ false | some s ↦ not (s == str "resolved") ]

-- EXISTS (SELECT 1 FROM jsonb_each(members) …)
unfoldable pub has_unresolved : Map MemberJson → Bool
has_unresolved m = any (λ (k, j). is_unresolved j) m

unfoldable pub is_stale : Time → Row → Bool
is_stale cutoff r = ltb r.updated_at cutoff && not (has_unresolved r.members)

-- `cutoff` is `time.Now().Add(-olderThan)`. The number of rows that were deleted, and the table.
unfoldable pub cleanup_resolved_groups : Time → Table → ℕ × Table
cleanup_resolved_groups cutoff t =
    (length (keep (is_stale cutoff) t), keep (λ r. not (is_stale cutoff r)) t)

unfoldable pub count_open_alert_groups : Table → ℕ
count_open_alert_groups t = length (keep (λ r. has_unresolved r.members) t)
