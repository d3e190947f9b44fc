-- ===== src/Workflows/Worker.antt =====
-- `RunFlushWorker` of internal/workflows/flush.go: the ticks one after the other.
pub mod Posts
use alertory.Prelude.{ℕ, Bool, List, [], ◌∷◌}
use alertory.Text.{Str}
use alertory.Clock.{Time}
use alertory.Slack.{Respond, Log}
use alertory.Db.Groups.{Table}
use alertory.Workflows.Batching.{Bucket}
use alertory.Workflows.Flush.{flush_due_groups}

-- What a tick meets: the token in the settings, the groups that others have locked, whether the
-- claim runs and when, and whether each group is saved and when.
pub record Tick : Type 0 where
  pub token : Str
  pub locked : Str → Bool
  pub claims : Bool
  pub now : Time
  pub saves : Str → Bool
  pub save_time : Str → Time

-- The loop waits for a tick; meanwhile webhooks, the cleanup and other instances write the table.
pub data Event : Type 0 where
  tick : Tick → Event
  written : Table → Event

module _ (respond : Respond) (format_time : Time → Str) (shuffle : List Bucket → List Bucket)
    (mass_threshold : ℕ) where
  unfoldable pub on_event : Event → Log → Table → Log × Table
  unfolding flush_due_groups
  on_event (tick w) log t =
      flush_due_groups respond w.token format_time shuffle mass_threshold w.locked w.claims w.now
        w.saves w.save_time log t
  on_event (written t') log t = (log, t')

  -- The events until the context is done.
  unfoldable pub run_flush_worker : List Event → Log → Table → Log × Table
  unfolding on_event
  run_flush_worker [] log t = (log, t)
  run_flush_worker (e ∷ events) log t =
      let (log', t') = on_event e log t in run_flush_worker events log' t'
