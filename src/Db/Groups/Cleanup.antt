-- ===== src/Db/Groups/Cleanup.antt =====
-- What `CleanupResolvedGroups` deletes, and the delay of `SaveGroupProgressFailed`.
use alertory.Prelude.{
  ℕ, ◌+◌, ◌*◌, ◌<◌, ◌≤◌, ◌≢◌, ◌∙◌, ap, In, All, any, inl, inr, lt→ltb, Option-cases, false, Bool,
  true, not, List, [], ◌∷◌, Option, none, some, ◌≡◌, refl, sym, arith, keep, length, if◌then◌else◌,
}
use alertory.Text.{Str, str, eq_iff, eq_refl}
use alertory.Map.{Map}
use alertory.Clock.{Time, second}
use alertory.Db.Member.{GroupMember, MemberJson}
use alertory.Db.Groups.{
  Row, Table, find_row, least, is_unresolved, is_stale, has_unresolved, cleanup_resolved_groups,
  backoff_seconds, add_seconds, failed_row, save_group_progress_failed,
}
use alertory.Db.Groups.Schedule.{IsUnique, find_row-keep-none, failed_row-group_key}
use alertory.Db.Groups.Races.{find_row-update_row}

pub keep_counts :
    {A : Type 0}
    → (p : A → Bool) (t : List A) → length (keep p t) + length (keep (λ r. not (p r)) t) ≡ length t
keep_counts p [] = refl
keep_counts p (r ∷ t) = ground (arith, keep_counts p t)

keep-open :
    (cutoff : Time) (t : Table)
    → keep (λ r. has_unresolved r.members) (keep (λ r. not (is_stale cutoff r)) t)
      ≡ keep (λ r. has_unresolved r.members) t
unfolding is_stale
keep-open cutoff [] = refl
keep-open cutoff (r ∷ t) = ground (arith, keep-open cutoff t)

abbrev if_fresh : Time → Option Row → Option Row
if_fresh cutoff none = none
if_fresh cutoff (some r) = if is_stale cutoff r then none else some r

find_row-fresh :
    (cutoff : Time) (k : Str) (t : Table)
    → IsUnique t
    → find_row k (keep (λ r. not (is_stale cutoff r)) t) ≡ if_fresh cutoff (find_row k t)
unfolding find_row
find_row-fresh cutoff k [] u = refl
find_row-fresh cutoff k (r ∷ t) u = ground (
  arith,
  eq_iff r.group_key k,
  find_row-fresh cutoff k t u.1,
  find_row-keep-none r.group_key (λ s. not (is_stale cutoff s)) t u.0,
)

-- Every status that the member has is "resolved".
abbrev pub IsResolved : MemberJson → Type 0
IsResolved j = (s : Str) → j.status ≡ some s → s ≡ str "resolved"

any_unresolved :
    (m : Map MemberJson) → All (λ e. IsResolved e.1) m → any (λ e. is_unresolved e.1) m ≡ false
unfolding is_unresolved
any_unresolved [] h = refl
any_unresolved ((k, j) ∷ m) h = elim (Option-cases j.status) [
  | inl absent ↦ rw absent (any_unresolved m h.1)
  | inr (s, has) ↦ rw (has, h.0 s has, eq_refl (str "resolved")) (any_unresolved m h.1)
]

some_unresolved :
    (m : Map MemberJson) (e : Str × MemberJson) (s : Str)
    → In e m
    → e.1.status ≡ some s
    → s ≢ str "resolved"
    → any (λ e. is_unresolved e.1) m ≡ true
unfolding is_unresolved
some_unresolved [] e s here has other = absurd here
some_unresolved (x ∷ m) e s (inl same) has other =
    rw (ap (λ y. y.1.status) (sym same) ∙ has) (ground (arith, eq_iff s (str "resolved"), other))
some_unresolved (x ∷ m) e s (inr there) has other =
    ground (arith, some_unresolved m e s there has other)

-- In a table with unique keys, a cleanup deletes a group that was updated before the cutoff and has
-- only resolved members; it leaves a group as it is that was updated since, or that has a member of
-- another status.
pub find_row-cleanup_resolved_groups :
    (cutoff : Time) (k : Str) (t : Table) (r : Row)
    → IsUnique t
    → find_row k t ≡ some r
    → let t' = (cleanup_resolved_groups cutoff t).1 in
      (r.updated_at < cutoff → All (λ e. IsResolved e.1) r.members → find_row k t' ≡ none)
      × (cutoff ≤ r.updated_at → find_row k t' ≡ some r)
      × ((e : Str × MemberJson) (s : Str)
          → In e r.members
          → e.1.status ≡ some s
          → s ≢ str "resolved"
          → find_row k t' ≡ some r)
unfolding cleanup_resolved_groups is_stale has_unresolved
find_row-cleanup_resolved_groups cutoff k t r u found =
    let shown = find_row-fresh cutoff k t u ∙ ap (if_fresh cutoff) found in
    (
      λ old resolved. shown ∙ rw (any_unresolved r.members resolved, lt→ltb _ _ old) refl,
      λ recent. shown ∙ ground arith,
      λ e s there has other. shown ∙ ground (arith, some_unresolved r.members e s there has other),
    )

-- The groups that are open, as they are.
abbrev pub open_groups : Table → Table
open_groups t = keep (λ r. has_unresolved r.members) t

-- A cleanup reports as many rows as it deletes, and leaves the open groups as they were.
pub cleanup_resolved_groups_counts :
    (cutoff : Time) (t : Table)
    → ((cleanup_resolved_groups cutoff t).0 + length (cleanup_resolved_groups cutoff t).1
        ≡ length t)
      × (open_groups (cleanup_resolved_groups cutoff t).1 ≡ open_groups t)
unfolding cleanup_resolved_groups
cleanup_resolved_groups_counts cutoff t = (keep_counts (is_stale cutoff) t, keep-open cutoff t)

-- Below the overflow of an int64, a failed flush is retried after ten seconds for each attempt so
-- far and this one, and after five minutes at most: the group is dirty, has one more attempt, and
-- is due exactly then.
pub save_group_progress_failed_lem :
    (k : Str) (members : Map GroupMember) (attempts : ℕ) (error : Str) (now : Time) (t : Table)
    (r : Row)
    → find_row k t ≡ some r
    → attempts < 922337203
    → (r' : Row) × (find_row k (save_group_progress_failed k members attempts error now t)
        ≡ some r')
      × (r'.dirty ≡ true)
      × (r'.attempts ≡ r.attempts + 1)
      × (r'.flush_after ≡ now + least ((attempts + 1) * 10) 300 * second)
unfolding save_group_progress_failed
save_group_progress_failed_lem k members attempts error now t r found few = (
  failed_row members attempts error now r,
  find_row-update_row k _ (failed_row-group_key members attempts error now) t r found,
  unfold failed_row in refl,
  unfold failed_row in refl,
  unfold failed_row backoff_seconds add_seconds in ground arith,
)
