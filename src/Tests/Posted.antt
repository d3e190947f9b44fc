-- ===== src/Tests/Posted.antt =====
-- An alert on its way from the webhook to Slack, on concrete data.
use mathlib.Core.List.Perm
use alertory.Prelude.{◌*◌, Bool, true, false, [], ◌∷◌, ◌++◌, inl, inr, refl, arith, length-keep_le}
use alertory.Text.{Str, str, ◌==◌}
use alertory.Text.Parts.{split, trim_space, is_space}
use alertory.Map.{values}
use alertory.Clock.{Time, second}
use alertory.Slack.{is_empty}
use alertory.Db.Member.{marshal, unmarshal}
use alertory.Db.Groups.{Table, Row, inserted_row, find_row, is_due, unmarshal_members, scan_group}
use alertory.Db.Groups.Claim.{is_free}
use alertory.Workflows.Channels.{split_channels}
use alertory.Workflows.Ingest.{process_alert}
use alertory.Workflows.Flush.Calls.{IsPosted}
use alertory.Workflows.Worker.{Tick, tick, written, on_event, run_flush_worker}
use alertory.Workflows.Worker.Posts.{run_flush_worker_posts}
use alertory.Tests.Data.{accepting, in_order, no_time, info, firing}
use alertory.Tests.Ingest.{rule, same, saving, before_alert, unrendered, no_object, answering}

abbrev unlocked : Str → Bool
unlocked k = false

abbrev saved : Str → Bool
saved k = true

abbrev late : Str → Time
late k = 60000000000

abbrev table : Table
table =
    (process_alert ◌==◌ same unrendered (8 * second) (45 * second) same [] no_object answering
      ([] ++ (rule ∷ [])) true saving before_alert).table

abbrev row : Row
row = inserted_row info firing (8 * second) (45 * second) 5

abbrev tick_of : Str → Tick
tick_of token = record {
  token = token;
  locked = unlocked;
  claims = true;
  now = 50000000000;
  saves = saved;
  save_time = late;
}

-- The row comes after the start, and a tick without a token after the one that posts.
run_flush_worker_posts_example :
    IsPosted
      (str "t")
      no_time
      (scan_group row)
      firing
      (str "U2")
      (run_flush_worker accepting no_time in_order 5
        ((written (row ∷ []) ∷ []) ++ (tick (tick_of (str "t")) ∷ tick (tick_of []) ∷ []))
        []
        []).0
unfolding is_empty find_row split_channels split trim_space is_space str ◌==◌ inserted_row is_due
    unmarshal_members values unmarshal marshal run_flush_worker on_event
run_flush_worker_posts_example =
    run_flush_worker_posts accepting no_time in_order 5 (written (row ∷ []) ∷ [])
      (tick (tick_of []) ∷ []) (tick_of (str "t")) [] [] (str "disk:0") row firing (str "U2")
      Perm.refl refl refl refl refl
      (omega (arith, length-keep_le (is_free unlocked 50000000000) (row ∷ []))) (inl refl) refl
      (inr (inl refl))
