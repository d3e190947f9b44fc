-- ===== src/Workflows/Flush.antt =====
-- internal/workflows/flush.go: the messages of one group, and one round of the flush worker.
-- Slack is `respond`, `shuffle` the order of Go's map of buckets, `format_time` RFC 3339.
pub mod Deliver
pub mod Quiet
pub mod Stands
pub mod Success
pub mod Fine
pub mod Frame
pub mod Repeat
pub mod Calls
pub mod Requests
pub mod Posts
use alertory.Prelude.{
  ℕ, Bool, true, false, not, ◌||◌, List, [], ◌∷◌, ◌++◌, Option, none, some, ◌*◌, if◌then◌else◌,
}
use alertory.Text.{Str, str, ◌==◌}
use alertory.Map.{Map, get, put}
use alertory.Clock.{Time, Duration, second}
use alertory.Slack.{
  Attachment, PostResult, Sent, delivered, failed, Log, Respond, is_empty, post, update,
}
use alertory.Db.Member.{NotifiedTarget, GroupMember}
use alertory.Db.Groups.{
  Table, AlertGroup, claim_due_groups, save_group_progress, save_group_progress_failed,
}
use alertory.Workflows.Message.{GroupStyle, render_bucket_message, rendered_order}
use alertory.Workflows.Batching.{Bucket, build_buckets, bucket_changed}
use alertory.Workflows.Channels.{split_channels}

abbrev pub flush_batch : ℕ
flush_batch = 25

abbrev pub claim_lease : Duration
claim_lease = 30 * second

-- `existingByChannel`; a later target of a channel replaces an earlier one.
unfoldable pub by_channel : List NotifiedTarget → Map NotifiedTarget → Map NotifiedTarget
by_channel [] m = m
by_channel (t ∷ targets) m = by_channel targets (put t.channel t m)

-- The zero value of a missing key.
unfoldable pub member_or_zero : Option GroupMember → GroupMember
member_or_zero none = record {
  fingerprint = [];
  alertname = [];
  status = [];
  target = [];
  starts_at = 0;
  ends_at = none;
  updated_at = 0;
  display_title = [];
  display_fields = [];
  notified_targets = [];
  notified_status = [];
}
member_or_zero (some m) = m

-- The variables of the loop over the channels.
pub record Delivery : Type 0 where
  pub new_targets : List NotifiedTarget
  pub bucket_error : Option Str
  pub log : Log

-- The variables of the loop over the buckets.
pub record Flush : Type 0 where
  pub members : Map GroupMember
  pub send_error : Option Str
  pub log : Log

-- The latest error wins.
abbrev pub or_earlier : Option Str → Option Str → Option Str
or_earlier earlier none = earlier
or_earlier earlier (some error) = some error

abbrev pub api_channel_of : NotifiedTarget → Str
api_channel_of t = if is_empty t.api_channel then t.channel else t.api_channel

-- The target of a message that was posted to `ch`.
abbrev pub posted_target : Str → PostResult → NotifiedTarget
posted_target ch res = record {
  channel = ch;
  api_channel = if res.channel == ch then [] else res.channel;
  ts = res.ts;
}

unfoldable pub mark_member : List NotifiedTarget → Option Str → GroupMember → GroupMember
mark_member targets none m = record m { notified_targets = targets; notified_status = m.status }
mark_member targets (some error) m = record m { notified_targets = targets }

-- The loop over the members of a bucket that was sent.
unfoldable pub mark_members :
    List NotifiedTarget → Option Str → List GroupMember → Map GroupMember → Map GroupMember
unfolding mark_member member_or_zero
mark_members targets error [] members = members
mark_members targets error (m ∷ sent) members = mark_members targets error sent (
    put m.fingerprint (mark_member targets error (member_or_zero (get m.fingerprint members)))
      members)

module _ (respond : Respond) (token : Str) where
  -- What the round for a channel does with the answer to `Post`.
  abbrev pub after_post : Str → Sent → Log → Delivery → Delivery
  after_post ch (delivered res) log d = record d {
    new_targets = d.new_targets ++ (posted_target ch res ∷ []);
    log = log;
  }
  after_post ch (failed error) log d = record d { bucket_error = some error; log = log }

  -- One channel: update the message that it has, or post a new one.
  unfoldable pub deliver_to :
      Str → List Attachment → Option NotifiedTarget → Str → Delivery → Delivery
  unfolding is_empty
  deliver_to text attachments (some t) ch d =
      let (error, log) = update respond token (api_channel_of t) t.ts text attachments d.log in
      record {
        new_targets =
            d.new_targets ++ (record { channel = ch; api_channel = t.api_channel; ts = t.ts } ∷ []);
        bucket_error = or_earlier d.bucket_error error;
        log = log;
      }
  deliver_to text attachments none ch d =
      let (sent, log) = post respond token ch text attachments d.log in after_post ch sent log d

  unfoldable pub deliver :
      Str → List Attachment → Map NotifiedTarget → List Str → Delivery → Delivery
  unfolding deliver_to
  deliver text attachments existing [] d = d
  deliver text attachments existing (ch ∷ channels) d =
      deliver text attachments existing channels
        (deliver_to text attachments (get ch existing) ch d)

  module _ (format_time : Time → Str) where
    -- What the loop over the channels does for one bucket.
    unfoldable pub bucket_delivery : GroupStyle → List Str → Bucket → Log → Delivery
    unfolding by_channel
    bucket_delivery style channels b log =
        let (text, attachments) = render_bucket_message format_time style b.members in
        deliver text attachments (by_channel b.targets []) channels
          (record { new_targets = []; bucket_error = none; log = log })

    unfoldable pub process_bucket : GroupStyle → List Str → Bucket → Flush → Flush
    unfolding bucket_delivery
    process_bucket style channels b f =
        let d = bucket_delivery style channels b f.log in
        if bucket_changed b
        then record {
          members = mark_members d.new_targets d.bucket_error (rendered_order b.members) f.members;
          send_error = or_earlier f.send_error d.bucket_error;
          log = d.log;
        }
        else f

    unfoldable pub process_buckets : GroupStyle → List Str → List Bucket → Flush → Flush
    unfolding process_bucket
    process_buckets style channels [] f = f
    process_buckets style channels (b ∷ buckets) f =
        process_buckets style channels buckets (process_bucket style channels b f)

    module _ (shuffle : List Bucket → List Bucket) (mass_threshold : ℕ) where
      -- `processGroup` up to the save.
      unfoldable pub send_group : AlertGroup → Log → Flush
      send_group g log =
          process_buckets (record { team = g.team; notification_only = g.notification_only })
            (split_channels g.channel) (build_buckets shuffle g.members mass_threshold)
            (record { members = g.members; send_error = none; log = log })

      -- The save runs at `now`; `saves` says whether the statement succeeds.
      abbrev save_flush : AlertGroup → Flush → Bool → Time → Table → Table
      save_flush g f saves now t =
          if saves
          then elim f.send_error [
            | none ↦ save_group_progress g.group_key f.members now t
            | some error ↦ save_group_progress_failed g.group_key f.members g.attempts error now t
          ]
          else t

      unfoldable pub process_group : AlertGroup → Bool → Time → Log → Table → Log × Table
      unfolding send_group
      process_group g saves now log t =
          let f = send_group g log in (f.log, save_flush g f saves now t)

      -- The groups one after the other; `saves` and `save_time` tell of each group's save.
      unfoldable pub process_groups :
          (Str → Bool) → (Str → Time) → List AlertGroup → Log → Table → Log × Table
      unfolding process_group
      process_groups saves save_time [] log t = (log, t)
      process_groups saves save_time (g ∷ groups) log t =
          let (log', t') = process_group g (saves g.group_key) (save_time g.group_key) log t in
          process_groups saves save_time groups log' t'

      -- One tick. `claims` says whether the claim's transaction succeeds.
      unfoldable pub flush_due_groups :
          (Str → Bool) → Bool → Time → (Str → Bool) → (Str → Time) → Log → Table → Log × Table
      unfolding process_groups claim_due_groups
      flush_due_groups locked claims now saves save_time log t =
          if claims
          then (let (groups, t') = claim_due_groups locked flush_batch claim_lease now t in
              process_groups saves save_time groups log t')
          else (log, t)
