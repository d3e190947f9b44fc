-- ===== src/Db/Groups/Schedule.antt =====
-- The schedule that the statements keep: unique keys, and a bound on the debounce.
use alertory.Prelude.{
  ℕ, ◌≤◌, Bool, true, List, [], ◌∷◌, none, some, inl, inr, Bool-cases, ◌≡◌, refl, arith, keep, All,
}
use alertory.Text.{Str, ◌==◌, eq_iff}
use alertory.Map.{Map}
use alertory.Clock.{Time, Duration}
use alertory.Db.Member.{GroupMember}
use mathlib.Core.Path.{subst}
use mathlib.Core.Option.{some-injective}
use alertory.Db.Groups.Upsert.{find_row-upsert_group_member}
use alertory.Db.Groups.{
  Row, Table, GroupInfo, find_row, inserted_row, updated_row, upsert_group_member, is_due,
  leased_row, lease_rows, claim_due_groups, due_rows, update_row, saved_row, save_group_progress,
  failed_row, save_group_progress_failed, cleanup_resolved_groups,
}

-- A dirty row that has not failed since its last event is due by `max_flush_by`.
pub record IsTimely (r : Row) : Type 0 where
  pub by : r.dirty ≡ true → r.attempts ≡ 0 → r.flush_after ≤ r.max_flush_by

abbrev pub IsUnique : Table → Type 0
IsUnique [] = Unit
IsUnique (r ∷ t) = (find_row r.group_key t ≡ none) × IsUnique t

pub record IsScheduled (t : Table) : Type 0 where
  pub unique : IsUnique t
  pub timely : All IsTimely t

-- What the service does to the table, at any times and in any order, under settings with
-- `debounce` at most `max_window`.
module _ (debounce max_window : Duration) where
  pub data Step : Table → Table → Type 0 where
    upsert :
        (info : GroupInfo) (member : GroupMember) (now : Time) (t : Table)
        → Step t (upsert_group_member info member debounce max_window now t)
    claim :
        (locked : Str → Bool) (limit : ℕ) (lease : Duration) (now : Time) (t : Table)
        → Step t (claim_due_groups locked limit lease now t).1
    save :
        (k : Str) (members : Map GroupMember) (now : Time) (t : Table)
        → Step t (save_group_progress k members now t)
    save_failed :
        (k : Str) (members : Map GroupMember) (attempts : ℕ) (error : Str) (now : Time) (t : Table)
        → Step t (save_group_progress_failed k members attempts error now t)
    cleanup : (cutoff : Time) (t : Table) → Step t (cleanup_resolved_groups cutoff t).1

  pub data Reach : Table → Type 0 where
    start : Reach []
    next : {t u : Table} → Reach t → Step t u → Reach u

find_row-update_row-none :
    (j k : Str) (f : Row → Row)
    → ((r : Row) → (f r).group_key ≡ r.group_key)
    → (t : Table) → find_row j t ≡ none
    → find_row j (update_row k f t) ≡ none
unfolding find_row update_row
find_row-update_row-none j k f same [] h = refl
find_row-update_row-none j k f same (r ∷ t) h =
    ground (arith, same r, find_row-update_row-none j k f same t)

find_row-lease_rows-none :
    (j : Str) (claimed : List Row) (lease : Duration) (now : Time) (t : Table)
    → find_row j t ≡ none
    → find_row j (lease_rows claimed lease now t) ≡ none
unfolding find_row lease_rows leased_row
find_row-lease_rows-none j claimed lease now [] h = refl
find_row-lease_rows-none j claimed lease now (r ∷ t) h =
    ground (arith, find_row-lease_rows-none j claimed lease now t)

pub find_row-keep-none :
    (j : Str) (p : Row → Bool) (t : Table) → find_row j t ≡ none → find_row j (keep p t) ≡ none
unfolding find_row
find_row-keep-none j p [] h = refl
find_row-keep-none j p (r ∷ t) h = ground (arith, find_row-keep-none j p t)

-- A change of some rows that keeps their keys and their timeliness keeps the schedule.
update_row-IsScheduled :
    (k : Str) (f : Row → Row)
    → ((r : Row) → (f r).group_key ≡ r.group_key)
    → ((r : Row) → IsTimely (f r))
    → (t : Table) → IsScheduled t
    → IsScheduled (update_row k f t)
unfolding update_row
update_row-IsScheduled k f same fine [] h = h
update_row-IsScheduled k f same fine (r ∷ t) h =
    let ih : IsScheduled (update_row k f t) =
      update_row-IsScheduled k f same fine t
        (record { unique = h.unique.1; timely = h.timely.1 }) in
    record {
      unique =
          ground
            (arith, same r, find_row-update_row-none r.group_key k f same t h.unique.0, ih.unique);
      timely = ground (arith, fine r, h.timely.0, ih.timely);
    }

lease_rows-IsScheduled :
    (claimed : List Row) (lease : Duration) (now : Time) (t : Table)
    → IsScheduled t
    → IsScheduled (lease_rows claimed lease now t)
unfolding lease_rows leased_row
lease_rows-IsScheduled claimed lease now [] h = h
lease_rows-IsScheduled claimed lease now (r ∷ t) h =
    let ih : IsScheduled (lease_rows claimed lease now t) =
      lease_rows-IsScheduled claimed lease now t
        (record { unique = h.unique.1; timely = h.timely.1 }) in
    record {
      unique =
          ground
            (arith, find_row-lease_rows-none r.group_key claimed lease now t h.unique.0, ih.unique);
      timely = ground (arith, h.timely.0, ih.timely);
    }

keep-IsScheduled : (p : Row → Bool) (t : Table) → IsScheduled t → IsScheduled (keep p t)
keep-IsScheduled p [] h = h
keep-IsScheduled p (r ∷ t) h =
    let ih : IsScheduled (keep p t) =
      keep-IsScheduled p t (record { unique = h.unique.1; timely = h.timely.1 }) in
    record {
      unique = ground (arith, find_row-keep-none r.group_key p t h.unique.0, ih.unique);
      timely = ground (arith, h.timely.0, ih.timely);
    }

saved_row-IsTimely :
    (members : Map GroupMember) (now : Time) (r : Row) → IsTimely (saved_row members now r)
unfolding saved_row
saved_row-IsTimely members now r = record { by = λ d a. cc }

failed_row-IsTimely :
    (members : Map GroupMember) (attempts : ℕ) (error : Str) (now : Time) (r : Row)
    → IsTimely (failed_row members attempts error now r)
unfolding failed_row
failed_row-IsTimely members attempts error now r = record { by = λ d a. absurd (omega arith) }

pub failed_row-group_key :
    (members : Map GroupMember) (attempts : ℕ) (error : Str) (now : Time) (r : Row)
    → (failed_row members attempts error now r).group_key ≡ r.group_key
unfolding failed_row
failed_row-group_key members attempts error now r = refl

saved_row-group_key :
    (members : Map GroupMember) (now : Time) (r : Row)
    → (saved_row members now r).group_key ≡ r.group_key
unfolding saved_row
saved_row-group_key members now r = refl

module _ (info : GroupInfo) (member : GroupMember) (debounce max_window : Duration)
    (now : Time) where
  inserted_row-IsTimely :
      debounce ≤ max_window → IsTimely (inserted_row info member debounce max_window now)
  unfolding inserted_row
  inserted_row-IsTimely h = record { by = λ _ _. omega arith }

  updated_row-IsTimely : (r : Row) → IsTimely (updated_row info member debounce now r)
  unfolding updated_row
  updated_row-IsTimely r = record { by = λ _ _. ground arith }

  updated_row-group_key :
      (r : Row) → (updated_row info member debounce now r).group_key ≡ r.group_key
  unfolding updated_row
  updated_row-group_key r = refl

  upsert-IsScheduled :
      (t : Table)
      → debounce ≤ max_window
      → IsScheduled t
      → IsScheduled (upsert_group_member info member debounce max_window now t)
  unfolding upsert_group_member
  upsert-IsScheduled [] w h = record {
    unique = (unfold find_row in refl, tt);
    timely = (inserted_row-IsTimely w, tt);
  }
  upsert-IsScheduled (r ∷ t) w h =
      let ih : IsScheduled (upsert_group_member info member debounce max_window now t) =
        upsert-IsScheduled t w (record { unique = h.unique.1; timely = h.timely.1 }) in
      record {
        unique = ground (
          arith,
          eq_iff r.group_key info.group_key,
          eq_iff info.group_key r.group_key,
          updated_row-group_key r,
          find_row-upsert_group_member info member debounce max_window now r.group_key t,
          h.unique,
          ih.unique,
        );
        timely = ground (arith, updated_row-IsTimely r, h.timely, ih.timely);
      }

module _ {debounce max_window : Duration} (narrow : debounce ≤ max_window) where
  Step-IsScheduled : {t u : Table} → Step debounce max_window t u → IsScheduled t → IsScheduled u
  unfolding claim_due_groups save_group_progress save_group_progress_failed cleanup_resolved_groups
  Step-IsScheduled (upsert info member now t) h =
      upsert-IsScheduled info member debounce max_window now t narrow h
  Step-IsScheduled (claim locked limit lease now t) h =
      lease_rows-IsScheduled (due_rows locked limit now t) lease now t h
  Step-IsScheduled (save k members now t) h =
      update_row-IsScheduled k _ (saved_row-group_key members now) (saved_row-IsTimely members now)
        t h
  Step-IsScheduled (save_failed k members attempts error now t) h =
      update_row-IsScheduled k _ (failed_row-group_key members attempts error now)
        (failed_row-IsTimely members attempts error now) t h
  Step-IsScheduled (cleanup cutoff t) h = keep-IsScheduled _ t h

  pub Reach-IsScheduled : {t : Table} → Reach debounce max_window t → IsScheduled t
  Reach-IsScheduled start = record { unique = tt; timely = tt }
  Reach-IsScheduled (next r s) = Step-IsScheduled s (Reach-IsScheduled r)

find_row-All :
    (P : Row → Type 0) (k : Str) (t : Table) (r : Row) → All P t → find_row k t ≡ some r → P r
unfolding find_row
find_row-All P k [] r h e = cc
find_row-All P k (s ∷ t) r h e = elim (Bool-cases (s.group_key == k)) [
  | inl here ↦ subst P (some-injective s r (rw here at e)) h.0
  | inr there ↦ find_row-All P k t r h.1 (rw there at e)
]

-- However long events keep arriving, a dirty group with no failed attempt is due from
-- `max_flush_by` on: in every table that the service reaches from the empty one, under settings
-- with `debounce` at most `max_window`.
pub storm_is_bounded :
    (debounce max_window : Duration) (t : Table) (k : Str) (r : Row) (now : Time)
    → debounce ≤ max_window
    → Reach debounce max_window t
    → find_row k t ≡ some r
    → r.dirty ≡ true
    → r.attempts ≡ 0
    → r.max_flush_by ≤ now
    → is_due now r ≡ true
unfolding is_due
storm_is_bounded debounce max_window t k r now narrow reached found d a late =
    let timely : IsTimely r =
      find_row-All IsTimely k t r (Reach-IsScheduled narrow reached).timely found in
    ground (arith, timely.by d a)
