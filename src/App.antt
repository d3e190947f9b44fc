-- ===== src/App.antt =====
-- cmd/app/main.go: the cleanup. Its statements read the clock one after the other, and any
-- of them may fail.
pub mod Cleanup
pub mod Passes
use alertory.Prelude.{
  ℕ, ◌-◌, ◌*◌, Bool, true, false, ◌||◌, List, [], ◌∷◌, Option, none, some, ltb, if◌then◌else◌,
}
use mathlib.Core.Option
use alertory.Clock.{Time, Duration, second}
use alertory.Db.Alerts.{Alerts}
use alertory.Db.Alerts.Retention.{Trimmed, delete_old_alerts}
use alertory.Db.Groups.{Table, cleanup_resolved_groups}
use alertory.Db.Sessions.{Sessions, cleanup_expired_sessions}

-- The tables that a pass trims.
pub record Tables : Type 0 where
  pub alerts : Alerts
  pub groups : Table
  pub sessions : Sessions

-- What a pass meets: the batches that fail, whether the other statements run, and the clock at the
-- start, at the deletion of groups and at that of sessions.
pub record Pass : Type 0 where
  pub active_fails : ℕ → Bool
  pub events_fail : ℕ → Bool
  pub groups_run : Bool
  pub sessions_run : Bool
  pub start : Time
  pub groups_at : Time
  pub sessions_at : Time

-- The counts, the tables, and whether the tables are then vacuumed.
pub record Cleaned : Type 0 where
  pub active : ℕ
  pub events : ℕ
  pub groups : ℕ
  pub sessions : ℕ
  pub tables : Tables
  pub vacuums : Bool

abbrev pub hour : Duration
hour = 60 * (60 * second)

abbrev pub groups_cutoff : Pass → Time
groups_cutoff p = p.groups_at - hour

unfoldable pub clean_groups : Pass → Table → ℕ × Table
unfolding cleanup_resolved_groups
clean_groups p t = if p.groups_run then cleanup_resolved_groups (groups_cutoff p) t else (0, t)

unfoldable pub clean_sessions : Pass → Sessions → ℕ × Sessions
unfolding cleanup_expired_sessions
clean_sessions p t = if p.sessions_run then cleanup_expired_sessions p.sessions_at t else (0, t)

-- What follows the deletion of alerts, which ends the pass where it failed.
unfoldable pub clean_rest : Pass → Tables → Trimmed → Cleaned
unfolding clean_groups clean_sessions
clean_rest p t r =
    if r.failed
    then record {
      active = r.active_deleted;
      events = r.events_deleted;
      groups = 0;
      sessions = 0;
      tables = record t { alerts = r.alerts };
      vacuums = false;
    }
    else (let (closed, groups) = clean_groups p t.groups in
        let (expired, sessions) = clean_sessions p t.sessions in
        record {
          active = r.active_deleted;
          events = r.events_deleted;
          groups = closed;
          sessions = expired;
          tables = record { alerts = r.alerts; groups = groups; sessions = sessions };
          vacuums =
              ltb 0 r.active_deleted || ltb 0 r.events_deleted || ltb 0 closed || ltb 0 expired;
        })

-- `none` means that a loop of the deletion ran out of fuel.
unfoldable pub run_cleanup : Duration → Pass → Tables → Option Cleaned
unfolding clean_rest delete_old_alerts
run_cleanup retention p t =
    elim (delete_old_alerts p.active_fails p.events_fail (p.start - retention) t.alerts) [
      | none ↦ none
      | some r ↦ some (clean_rest p t r)
    ]

-- The passes at the ticks.
unfoldable pub run_passes : Duration → List Pass → Tables → Option Tables
unfolding run_cleanup
run_passes retention [] t = some t
run_passes retention (p ∷ passes) t = elim (run_cleanup retention p t) [
  | none ↦ none
  | some r ↦ run_passes retention passes r.tables
]

-- The context is done, or NewTicker panics since the interval is not above 0.
pub data Loop : Type 0 where
  ended panicked : Tables → Loop

-- A pass at the start, and one at each tick.
unfoldable pub run_cleanup_loop : Duration → Duration → Pass → List Pass → Tables → Option Loop
unfolding run_passes run_cleanup
run_cleanup_loop retention interval p passes t = elim (run_cleanup retention p t) [
  | none ↦ none
  | some r ↦
      if ltb 0 interval
      then Option.map ended (run_passes retention passes r.tables)
      else some (panicked r.tables)
]
