-- ===== src/Db/Alerts/Retention.antt =====
-- `DeleteOldAlerts` of internal/db/alerts.go.
use alertory.Prelude.{
  ℕ, suc, ◌+◌, Bool, true, List, Option, none, some, length, ltb, ◌≡◌, ◌⊎◌, refl, arith,
  if◌then◌else◌, Bool-cases, inl, inr,
}
use alertory.Clock.{Time}
use alertory.Db.Alerts.{ActiveAlert, AlertEvent, Alerts}
use alertory.Db.Alerts.Batches.{
  Deleted, delete_first, delete_in_batches, fresh, Trims, delete_in_batches_lem,
}

abbrev pub batch_size : ℕ
batch_size = 5000

abbrev pub is_old_alert : Time → ActiveAlert → Bool
is_old_alert cutoff a = ltb a.last_seen cutoff

abbrev pub is_old_event : Time → AlertEvent → Bool
is_old_event cutoff e = ltb e.received_at cutoff

-- The two counts, the tables, and whether an error came back.
pub record Trimmed : Type 0 where
  pub active_deleted : ℕ
  pub events_deleted : ℕ
  pub alerts : Alerts
  pub failed : Bool

-- Each loop has more fuel than its table has rows.
unfoldable pub trim_active : (ℕ → Bool) → Time → Alerts → Option (Deleted ActiveAlert)
unfolding delete_in_batches delete_first
trim_active fails cutoff t =
    delete_in_batches (delete_first (is_old_alert cutoff) batch_size) fails (suc (length t.active))
      0 0 t.active

unfoldable pub trim_events : (ℕ → Bool) → Time → Alerts → Option (Deleted AlertEvent)
unfolding delete_in_batches delete_first
trim_events fails cutoff t =
    delete_in_batches (delete_first (is_old_event cutoff) batch_size) fails (suc (length t.events))
      0 0 t.events

-- The events are left alone where the first loop failed.
unfoldable pub delete_old_events : (ℕ → Bool) → Time → Alerts → Deleted ActiveAlert → Option Trimmed
unfolding trim_events
delete_old_events fails cutoff t d =
    let left = record t { active = d.rows } in
    if d.failed
    then some
        (record { active_deleted = d.total; events_deleted = 0; alerts = left; failed = true })
    else elim (trim_events fails cutoff t) [
      | none ↦ none
      | some e ↦ some (record {
        active_deleted = d.total;
        events_deleted = e.total;
        alerts = record left { events = e.rows };
        failed = e.failed;
      })
    ]

-- `cutoff` is `time.Now().Add(-olderThan)`; the first argument says which batches of active alerts
-- fail, the second which of events.
unfoldable pub delete_old_alerts : (ℕ → Bool) → (ℕ → Bool) → Time → Alerts → Option Trimmed
unfolding trim_active delete_old_events
delete_old_alerts active_fails events_fail cutoff t = elim (trim_active active_fails cutoff t) [
  | none ↦ none
  | some d ↦ delete_old_events events_fail cutoff t d
]

-- The rows that a retention keeps.
abbrev pub kept_alerts : Time → Alerts → Alerts
kept_alerts cutoff t = record {
  active = fresh (is_old_alert cutoff) t.active;
  events = fresh (is_old_event cutoff) t.events;
}

trim_active_lem :
    (fails : ℕ → Bool) (cutoff : Time) (t : Alerts)
    → (d : Deleted ActiveAlert) × (trim_active fails cutoff t ≡ some d)
      × Trims (is_old_alert cutoff) 0 t.active d
unfolding trim_active
trim_active_lem fails cutoff t =
    delete_in_batches_lem (is_old_alert cutoff) 4999 fails (suc (length t.active)) 0 0 t.active
      (omega arith)

trim_events_lem :
    (fails : ℕ → Bool) (cutoff : Time) (t : Alerts)
    → (e : Deleted AlertEvent) × (trim_events fails cutoff t ≡ some e)
      × Trims (is_old_event cutoff) 0 t.events e
unfolding trim_events
trim_events_lem fails cutoff t =
    delete_in_batches_lem (is_old_event cutoff) 4999 fails (suc (length t.events)) 0 0 t.events
      (omega arith)

-- What a pass tells of the tables that it met.
abbrev pub Retains : Time → Alerts → Trimmed → Type 0
Retains cutoff t r =
    (kept_alerts cutoff r.alerts ≡ kept_alerts cutoff t)
    × (r.active_deleted + length r.alerts.active ≡ length t.active)
    × (r.events_deleted + length r.alerts.events ≡ length t.events)
    × ((r.failed ≡ true) ⊎ (r.alerts ≡ kept_alerts cutoff t))

tables_equal :
    (a b : List ActiveAlert) (e f : List AlertEvent)
    → a ≡ b
    → e ≡ f
    → ◌≡◌ {A = Alerts} (record { active = a; events = e }) (record { active = b; events = f })
tables_equal a b e f p q = cc

delete_old_events_lem :
    (fails : ℕ → Bool) (cutoff : Time) (t : Alerts) (d : Deleted ActiveAlert)
    → Trims (is_old_alert cutoff) 0 t.active d
    → (r : Trimmed) × (delete_old_events fails cutoff t d ≡ some r) × Retains cutoff t r
unfolding delete_old_events
delete_old_events_lem fails cutoff t d (counts, keeps, trims) = elim (Bool-cases d.failed) [
  | inl failed ↦ (
    record {
      active_deleted = d.total;
      events_deleted = 0;
      alerts = record t { active = d.rows };
      failed = true;
    },
    rw failed refl,
    (tables_equal _ _ _ _ keeps refl, omega arith, omega arith, inl refl),
  )
  | inr passed ↦
      let (e, ends, (counts', keeps', trims')) = trim_events_lem fails cutoff t in
      (
        record {
          active_deleted = d.total;
          events_deleted = e.total;
          alerts = record { active = d.rows; events = e.rows };
          failed = e.failed;
        },
        rw (passed, ends) refl,
        (
          tables_equal _ _ _ _ keeps keeps',
          omega arith,
          omega arith,
          elim (Bool-cases e.failed) [
            | inl broke ↦ inl broke
            | inr ran ↦ inr (tables_equal _ _ _ _ (trims passed) (trims' ran))
          ],
        ),
      )
]

-- The deletion always ends, in fewer batches than there are rows. Whatever batch fails, no row of
-- the retention is deleted, the counts are those of the rows that are gone, and where no error
-- comes back exactly the rows of the retention are left.
pub delete_old_alerts_lem :
    (active_fails events_fail : ℕ → Bool) (cutoff : Time) (t : Alerts)
    → (r : Trimmed) × (delete_old_alerts active_fails events_fail cutoff t ≡ some r)
      × Retains cutoff t r
unfolding delete_old_alerts
delete_old_alerts_lem active_fails events_fail cutoff t =
    let (d, ends, trims) = trim_active_lem active_fails cutoff t in
    rw (ends, delete_old_alerts) (delete_old_events_lem events_fail cutoff t d trims)
