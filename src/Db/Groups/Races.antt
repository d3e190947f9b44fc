-- ===== src/Db/Groups/Races.antt =====
-- Interleavings of the statements of several workers and of the webhook.
use alertory.Prelude.{
  ℕ, zero, suc, Bool, true, false, not, ◌&&◌, List, [], ◌∷◌, map, none, some, ◌≡◌, refl, arith,
  keep, any, take, All, ◌∙◌, sym,
}
use alertory.Text.{Str, ◌==◌, eq_iff, eq_refl}
use alertory.Map.{Map, get}
use alertory.Clock.{Time, Duration}
use alertory.Db.Member.{GroupMember}
use alertory.Db.Groups.{
  Row, Table, AlertGroup, GroupInfo, find_row, is_due, insert_by_flush_after, order_by_flush_after,
  scan_group, due_rows, is_listed, leased_row, lease_rows, claim_due_groups, upsert_group_member,
  marshal_members, saved_row, update_row, save_group_progress,
}
use alertory.Db.Groups.Upsert.{upserted_row, find_row-upsert_group_member}

-- The group of the key is among these.
unfoldable pub has_group : Str → List AlertGroup → Bool
has_group k groups = any (λ g. g.group_key == k) groups

-- Each row of the key waits for an event: it is not dirty.
abbrev IsIdle : Str → Table → Type 0
IsIdle k = All (λ r. (r.group_key == k) ≡ true → r.dirty ≡ false)

has_group-scan : (k : Str) (rows : List Row) → has_group k (map scan_group rows) ≡ is_listed k rows
unfolding has_group is_listed scan_group
has_group-scan k [] = refl
has_group-scan k (r ∷ rows) = ground (arith, has_group-scan k rows)

is_listed-insert :
    (k : Str) (r : Row) (rows : List Row)
    → is_listed k (insert_by_flush_after r rows) ≡ is_listed k (r ∷ rows)
unfolding is_listed insert_by_flush_after
is_listed-insert k r [] = refl
is_listed-insert k r (s ∷ rows) = ground (arith, is_listed-insert k r rows)

is_listed-cons :
    (k : Str) (r : Row) (rows rows' : List Row)
    → is_listed k rows ≡ is_listed k rows'
    → is_listed k (r ∷ rows) ≡ is_listed k (r ∷ rows')
unfolding is_listed
is_listed-cons k r rows rows' h = ground arith

is_listed-order :
    (k : Str) (rows : List Row) → is_listed k (order_by_flush_after rows) ≡ is_listed k rows
unfolding order_by_flush_after
is_listed-order k [] = refl
is_listed-order k (r ∷ rows) =
    is_listed-insert k r (order_by_flush_after rows)
    ∙ is_listed-cons k r _ _ (is_listed-order k rows)

is_listed-take :
    (k : Str) (n : ℕ) (rows : List Row)
    → is_listed k rows ≡ false
    → is_listed k (take n rows) ≡ false
unfolding is_listed
is_listed-take k zero rows h = refl
is_listed-take k (suc n) [] h = refl
is_listed-take k (suc n) (r ∷ rows) h = ground (arith, is_listed-take k n rows)

is_listed-due :
    (locked : Str → Bool) (now : Time) (k : Str) (t : Table)
    → IsIdle k t
    → is_listed k (keep (λ r. is_due now r && not (locked r.group_key)) t) ≡ false
unfolding is_listed is_due
is_listed-due locked now k [] h = refl
is_listed-due locked now k (r ∷ t) h = ground (arith, is_listed-due locked now k t h.1, h.0)

is_listed-due_rows :
    (locked : Str → Bool) (limit : ℕ) (now : Time) (k : Str) (t : Table)
    → IsIdle k t
    → is_listed k (due_rows locked limit now t) ≡ false
unfolding due_rows
is_listed-due_rows locked limit now k t h =
    is_listed-take k limit _ (is_listed-order k _ ∙ is_listed-due locked now k t h)

lease_rows-IsIdle :
    (k : Str) (claimed : List Row) (lease : Duration) (now : Time) (t : Table)
    → IsIdle k t
    → IsIdle k (lease_rows claimed lease now t)
unfolding lease_rows leased_row
lease_rows-IsIdle k claimed lease now [] h = tt
lease_rows-IsIdle k claimed lease now (r ∷ t) h =
    (ground (arith, h.0), lease_rows-IsIdle k claimed lease now t h.1)

lease_rows-IsIdle_claimed :
    (k : Str) (claimed : List Row) (lease : Duration) (now : Time) (t : Table)
    → is_listed k claimed ≡ true
    → IsIdle k (lease_rows claimed lease now t)
unfolding lease_rows leased_row
lease_rows-IsIdle_claimed k claimed lease now [] h = tt
lease_rows-IsIdle_claimed k claimed lease now (r ∷ t) h =
    (ground (arith, eq_iff r.group_key k), lease_rows-IsIdle_claimed k claimed lease now t h)

-- The arguments of one claim.
pub record ClaimCall : Type 0 where
  pub locked : Str → Bool
  pub limit : ℕ
  pub lease : Duration
  pub now : Time

abbrev pub claim : ClaimCall → Table → List AlertGroup × Table
claim c t = claim_due_groups c.locked c.limit c.lease c.now t

-- What each of a sequence of claims returns.
unfoldable pub run_claims : List ClaimCall → Table → List (List AlertGroup)
run_claims [] t = []
run_claims (c ∷ calls) t = let (groups, t') = claim c t in groups ∷ run_claims calls t'

run_claims_idle :
    (k : Str) (calls : List ClaimCall) (t : Table)
    → IsIdle k t
    → All (λ groups. has_group k groups ≡ false) (run_claims calls t)
unfolding run_claims claim_due_groups
run_claims_idle k [] t h = tt
run_claims_idle k (c ∷ calls) t h = (
  has_group-scan k (due_rows c.locked c.limit c.now t)
      ∙ is_listed-due_rows c.locked c.limit c.now k t h,
  run_claims_idle k calls _ (lease_rows-IsIdle k _ c.lease c.now t h),
)

-- Once a claim has returned a group, no later claim returns it, by whichever worker and at
-- whatever time, as long as no other statement runs: no group is sent twice, and no group whose
-- worker has died is taken up again when its lease expires.
pub claim_once :
    (c : ClaimCall) (t : Table) (k : Str) (calls : List ClaimCall)
    → has_group k (claim c t).0 ≡ true
    → All (λ groups. has_group k groups ≡ false) (run_claims calls (claim c t).1)
unfolding claim_due_groups
claim_once c t k calls h = run_claims_idle k calls _ (
    lease_rows-IsIdle_claimed k _ c.lease c.now t
      (sym (has_group-scan k (due_rows c.locked c.limit c.now t)) ∙ h))

pub find_row-update_row :
    (k : Str) (f : Row → Row)
    → ((r : Row) → (f r).group_key ≡ r.group_key)
    → (t : Table) (r : Row) → find_row k t ≡ some r
    → find_row k (update_row k f t) ≡ some (f r)
unfolding find_row update_row
find_row-update_row k f same [] r h = cc
find_row-update_row k f same (s ∷ t) r h = ground (arith, same s, find_row-update_row k f same t r)

saved_row-group_key :
    (members : Map GroupMember) (now : Time) (r : Row)
    → (saved_row members now r).group_key ≡ r.group_key
unfolding saved_row
saved_row-group_key members now r = refl

get-marshal_members-none :
    (k : Str) (m : Map GroupMember) → get k m ≡ none → get k (marshal_members m) ≡ none
unfolding get marshal_members
get-marshal_members-none k [] h = refl
get-marshal_members-none k ((j, v) ∷ m) h = ground (arith, get-marshal_members-none k m)

-- A worker has claimed the group and read its members; an alert that is not one of these members
-- is upserted into the group; then the worker saves. The alert is not in the row any more, and the
-- row is not dirty.
pub lost_update :
    (info : GroupInfo) (member : GroupMember) (debounce max_window : Duration) (now saved : Time)
    (t : Table) (r : Row) (members : Map GroupMember)
    → find_row info.group_key t ≡ some r
    → get member.fingerprint members ≡ none
    → (r' : Row) × (find_row info.group_key (
          save_group_progress info.group_key members saved
            (upsert_group_member info member debounce max_window now t))
        ≡ some r')
      × (get member.fingerprint r'.members ≡ none)
      × (r'.dirty ≡ false)
unfolding save_group_progress
lost_update info member debounce max_window now saved t r members found unknown =
    let r' = upserted_row info member debounce max_window now (some r) in
    (
      saved_row members saved r',
      find_row-update_row info.group_key (saved_row members saved)
          (saved_row-group_key members saved)
          (upsert_group_member info member debounce max_window now t) r'
          (rw
            (
              find_row-upsert_group_member info member debounce max_window now info.group_key t,
              eq_refl info.group_key,
              found,
            )
            refl),
      unfold saved_row in get-marshal_members-none member.fingerprint members unknown,
      unfold saved_row in refl,
    )
