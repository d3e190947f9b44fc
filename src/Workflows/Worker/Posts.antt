-- ===== src/Workflows/Worker/Posts.antt =====
-- No call of Slack is forgotten, so what one tick posts a run of the worker has posted.
use mathlib.Core.Path.{subst}
use alertory.Prelude.{
  ℕ, ◌≤◌, ◌∷◌, ◌++◌, Bool, true, false, List, [], keep, length, some, none, Option, ◌≡◌, inl, inr,
  refl, sym, Bool-cases, In,
}
use alertory.Text.{Str}
use alertory.Map.{Map, get, values}
use alertory.Clock.{Time}
use alertory.Slack.{
  Attachment, Respond, Request, Log, Sent, delivered, failed, is_empty, send, post, update,
}
use alertory.Db.Member.{NotifiedTarget, GroupMember}
use alertory.Db.Groups.{
  Row, Table, AlertGroup, find_row, scan_group, unmarshal_members, claim_due_groups,
}
use alertory.Db.Groups.Claim.{is_free}
use alertory.Workflows.Message.{GroupStyle}
use alertory.Workflows.Batching.{Bucket, bucket_changed}
use alertory.Workflows.Batching.Partition.{IsShuffle}
use alertory.Workflows.Batching.Threshold.{is_unsent}
use alertory.Workflows.Channels.{split_channels}
use alertory.Workflows.Flush.{
  Flush, Delivery, after_post, deliver_to, deliver, bucket_delivery, process_bucket,
  process_buckets, send_group, process_group, process_groups, flush_due_groups, flush_batch,
  claim_lease,
}
use alertory.Workflows.Flush.Calls.{IsPosted, new_message, style_of}
use alertory.Workflows.Flush.Posts.{flush_due_groups_posts}
use alertory.Workflows.Worker.{Tick, Event, tick, written, on_event, run_flush_worker}

module _ (respond : Respond) (token : Str) (q : Request) where
  send-In :
      (url ch ts text : Str) (attachments : List Attachment) (log : Log)
      → In q log
      → In q (send respond token url ch ts text attachments log).1
  unfolding send
  send-In url ch ts text attachments log h = elim (Bool-cases (is_empty token)) [
    | inl no_token ↦ rw no_token h
    | inr some_token ↦ rw some_token (inr h)
  ]

  after_post-log :
      (ch : Str) (sent : Sent) (log : Log) (d : Delivery)
      → (after_post respond token ch sent log d).log ≡ log
  after_post-log ch (delivered res) log d = refl
  after_post-log ch (failed error) log d = refl

  deliver_to-In :
      (text : Str) (attachments : List Attachment) (o : Option NotifiedTarget) (ch : Str)
      (d : Delivery)
      → In q d.log
      → In q (deliver_to respond token text attachments o ch d).log
  unfolding deliver_to post update
  deliver_to-In text attachments (some t) ch d h = send-In _ _ _ text attachments d.log h
  deliver_to-In text attachments none ch d h =
      subst (In q) (sym (after_post-log ch _ _ d)) (send-In _ _ _ text attachments d.log h)

  deliver-In :
      (text : Str) (attachments : List Attachment) (existing : Map NotifiedTarget)
      (channels : List Str) (d : Delivery)
      → In q d.log
      → In q (deliver respond token text attachments existing channels d).log
  unfolding deliver
  deliver-In text attachments existing [] d h = h
  deliver-In text attachments existing (ch ∷ channels) d h =
      deliver-In text attachments existing channels _
        (deliver_to-In text attachments (get ch existing) ch d h)

  module _ (format_time : Time → Str) where
    process_bucket-In :
        (style : GroupStyle) (channels : List Str) (b : Bucket) (f : Flush)
        → In q f.log
        → In q (process_bucket respond token format_time style channels b f).log
    unfolding process_bucket bucket_delivery
    process_bucket-In style channels b f h = elim (Bool-cases (bucket_changed b)) [
      | inl changed ↦ rw changed (deliver-In _ _ _ channels _ h)
      | inr same ↦ rw same h
    ]

    process_buckets-In :
        (style : GroupStyle) (channels : List Str) (bs : List Bucket) (f : Flush)
        → In q f.log
        → In q (process_buckets respond token format_time style channels bs f).log
    unfolding process_buckets
    process_buckets-In style channels [] f h = h
    process_buckets-In style channels (b ∷ bs) f h =
        process_buckets-In style channels bs _ (process_bucket-In style channels b f h)

    module _ (shuffle : List Bucket → List Bucket) (mass_threshold : ℕ) (saves : Str → Bool)
        (save_time : Str → Time) where
      pub process_groups-In :
          (gs : List AlertGroup) (log : Log) (t : Table)
          → In q log
          → In q
              (process_groups respond token format_time shuffle mass_threshold saves save_time gs
                log t).0
      unfolding process_groups process_group send_group
      process_groups-In [] log t h = h
      process_groups-In (g ∷ gs) log t h =
          process_groups-In gs _ _ (process_buckets-In _ (split_channels g.channel) _ _ h)

module _ (respond : Respond) (format_time : Time → Str) (shuffle : List Bucket → List Bucket)
    (mass_threshold : ℕ) where
  on_event-In :
      (q : Request) (e : Event) (log : Log) (t : Table)
      → In q log
      → In q (on_event respond format_time shuffle mass_threshold e log t).0
  unfolding on_event flush_due_groups
  on_event-In q (tick w) log t h =
      let (groups, t') = claim_due_groups w.locked flush_batch claim_lease w.now t in
      elim (Bool-cases w.claims) [
        | inl claims ↦ rw claims (
            process_groups-In respond w.token q format_time shuffle mass_threshold w.saves
              w.save_time groups log t' h)
        | inr fails ↦ rw fails h
      ]
  on_event-In q (written t') log t h = h

  -- The log and the table after the events.
  abbrev pub after : List Event → Log → Table → Log × Table
  after = run_flush_worker respond format_time shuffle mass_threshold

  after-In :
      (q : Request) (events : List Event) (log : Log) (t : Table)
      → In q log
      → In q (after events log t).0
  unfolding run_flush_worker
  after-In q [] log t h = h
  after-In q (e ∷ events) log t h = after-In q events _ _ (on_event-In q e log t h)

  after-append :
      (before events : List Event) (log : Log) (t : Table)
      → after (before ++ events) log t ≡ after events (after before log t).0 (after before log t).1
  unfolding run_flush_worker
  after-append [] events log t = refl
  after-append (e ∷ before) events log t = after-append before events _ _

  -- In a run of the worker, each alert without a message of a group that is due at a tick and that
  -- nobody else holds is posted to each channel of its group, in a message made from a bucket that
  -- holds it, whatever happens before and after; where the tick has a token, its claim runs and
  -- not more groups are due than it takes.
  pub run_flush_worker_posts :
      (before later : List Event) (w : Tick) (log : Log) (t : Table) (k : Str) (r : Row)
      (m : GroupMember) (ch : Str)
      → IsShuffle shuffle
      → is_empty w.token ≡ false
      → w.claims ≡ true
      → find_row k (after before log t).1 ≡ some r
      → is_free w.locked w.now r ≡ true
      → length (keep (is_free w.locked w.now) (after before log t).1) ≤ flush_batch
      → In m (values (unmarshal_members r.members))
      → is_unsent m ≡ true
      → In ch (split_channels r.channel)
      → IsPosted w.token format_time
          (scan_group r)
          m
          ch
          (after (before ++ (tick w ∷ later)) log t).0
  unfolding run_flush_worker on_event
  run_flush_worker_posts before later w log t k r m ch fair some_token claims found free few there
        unsent wanted =
      let (log', t') = after before log t in
      let (b, holds, posted) =
        flush_due_groups_posts respond w.token format_time some_token shuffle mass_threshold fair
          w.saves w.save_time w.locked w.now log' t' k r m ch found free few there unsent wanted in
      (
        b,
        holds,
        rw (after-append before (tick w ∷ later) log t) (
            after-In _ later _ _ (
              subst
                (λ c.
                  In
                    (new_message w.token format_time (style_of w.token format_time (scan_group r)) b
                      ch)
                    (flush_due_groups respond w.token format_time shuffle mass_threshold w.locked c
                      w.now w.saves w.save_time log' t').0)
                (sym claims) posted)),
      )
