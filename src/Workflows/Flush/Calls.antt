-- ===== src/Workflows/Flush/Calls.antt =====
-- The calls of Slack that the buckets of a group make.
use mathlib.Core.Path.{subst}
use alertory.Prelude.{
  ◌∷◌, true, false, List, [], none, ◌≡◌, inl, inr, refl, sym, ◌∙◌, ap, Bool-cases, In,
}
use alertory.Text.{Str}
use alertory.Map.{Map, get}
use alertory.Clock.{Time}
use alertory.Slack.{Attachment, Respond, Request, Log, is_empty, make_request, post_url}
use alertory.Db.Member.{NotifiedTarget, GroupMember}
use alertory.Db.Groups.{AlertGroup}
use alertory.Workflows.Message.{GroupStyle, render_bucket_message}
use alertory.Workflows.Batching.{Bucket, bucket_changed}
use alertory.Workflows.Flush.{Flush, by_channel, bucket_delivery, process_bucket, process_buckets}
use alertory.Workflows.Flush.Deliver.{call_for, calls_for, deliver_log}

-- Calls stay in the log.
calls_for-In :
    (q : Request) (token text : Str) (attachments : List Attachment) (existing : Map NotifiedTarget)
    (channels : List Str) (log : Log)
    → In q log
    → In q (calls_for token text attachments existing channels log)
calls_for-In q token text attachments existing [] log h = h
calls_for-In q token text attachments existing (ch ∷ channels) log h =
    calls_for-In q token text attachments existing channels _ (inr h)

calls_for-In_channel :
    (token text : Str) (attachments : List Attachment) (existing : Map NotifiedTarget) (ch : Str)
    (channels : List Str) (log : Log)
    → In ch channels
    → In
        (call_for token text attachments (get ch existing) ch)
        (calls_for token text attachments existing channels log)
calls_for-In_channel token text attachments existing ch (c ∷ channels) log (inl e) =
    calls_for-In _ token text attachments existing channels _
      (inl (ap (λ x. call_for token text attachments (get x existing) x) e))
calls_for-In_channel token text attachments existing ch (c ∷ channels) log (inr h) =
    calls_for-In_channel token text attachments existing ch channels _ h
calls_for-In_channel token text attachments existing ch [] log h = absurd h

bucket_changed_new : (b : Bucket) → b.targets ≡ [] → bucket_changed b ≡ true
unfolding bucket_changed is_empty
bucket_changed_new b new = rw new refl

no_target : (ch : Str) → get ch (by_channel [] []) ≡ none
unfolding get by_channel
no_target ch = refl

module _ (token : Str) (format_time : Time → Str) where
  -- The new message of a bucket for a channel.
  abbrev pub new_message : GroupStyle → Bucket → Str → Request
  new_message style b ch =
      let (text, attachments) = render_bucket_message format_time style b.members in
      make_request token post_url ch [] text attachments

  abbrev pub style_of : AlertGroup → GroupStyle
  style_of g = record { team = g.team; notification_only = g.notification_only }

  -- A new message to the channel, made from a bucket that holds the alert.
  abbrev pub IsPosted : AlertGroup → GroupMember → Str → Log → Type 0
  IsPosted g m ch log = (b : Bucket) × In m b.members × In (new_message (style_of g) b ch) log

module _ (respond : Respond) (token : Str) (format_time : Time → Str)
    (some_token : is_empty token ≡ false) where
  bucket_delivery_log :
      (style : GroupStyle) (channels : List Str) (b : Bucket) (log : Log)
      → (bucket_delivery respond token format_time style channels b log).log
        ≡ calls_for token
            (render_bucket_message format_time style b.members).0
            (render_bucket_message format_time style b.members).1
            (by_channel b.targets [])
            channels
            log
  unfolding bucket_delivery
  bucket_delivery_log style channels b log =
      deliver_log respond token _ _ (by_channel b.targets []) channels _ some_token

  process_bucket-In :
      (q : Request) (style : GroupStyle) (channels : List Str) (b : Bucket) (f : Flush)
      → In q f.log
      → In q (process_bucket respond token format_time style channels b f).log
  unfolding process_bucket
  process_bucket-In q style channels b f h = elim (Bool-cases (bucket_changed b)) [
    | inl changed ↦ rw changed (
        subst (In q) (sym (bucket_delivery_log style channels b f.log))
          (calls_for-In q token _ _ (by_channel b.targets []) channels f.log h))
    | inr same ↦ rw same h
  ]

  pub process_buckets-In :
      (q : Request) (style : GroupStyle) (channels : List Str) (bs : List Bucket) (f : Flush)
      → In q f.log
      → In q (process_buckets respond token format_time style channels bs f).log
  unfolding process_buckets
  process_buckets-In q style channels [] f h = h
  process_buckets-In q style channels (b ∷ bs) f h =
      process_buckets-In q style channels bs _ (process_bucket-In q style channels b f h)

  -- A bucket without a message is posted to each channel.
  process_bucket_posts :
      (style : GroupStyle) (channels : List Str) (b : Bucket) (f : Flush) (ch : Str)
      → b.targets ≡ []
      → In ch channels
      → In
          (new_message token format_time style b ch)
          (process_bucket respond token format_time style channels b f).log
  unfolding process_bucket
  process_bucket_posts style channels b f ch new there =
      let (text, attachments) = render_bucket_message format_time style b.members in
      let existing = by_channel b.targets [] in
      let posted =
        subst
          (λ o.
            In (call_for token text attachments o ch)
              (calls_for token text attachments existing channels f.log))
          (ap (λ ts. get ch (by_channel ts [])) new ∙ no_target ch)
          (calls_for-In_channel token text attachments existing ch channels f.log there) in
      rw (bucket_changed_new b new) (
        subst (In (new_message token format_time style b ch))
          (sym (bucket_delivery_log style channels b f.log)) posted)

  pub process_buckets_posts :
      (style : GroupStyle) (channels : List Str) (bs : List Bucket) (f : Flush) (b : Bucket)
      (ch : Str)
      → In b bs
      → b.targets ≡ []
      → In ch channels
      → In
          (new_message token format_time style b ch)
          (process_buckets respond token format_time style channels bs f).log
  unfolding process_buckets
  process_buckets_posts style channels [] f b ch here new there = absurd here
  process_buckets_posts style channels (c ∷ bs) f b ch (inl e) new there =
      process_buckets-In _ style channels bs _ (
        subst
          (λ x.
            In (new_message token format_time style b ch)
              (process_bucket respond token format_time style channels x f).log)
          e (process_bucket_posts style channels b f ch new there))
  process_buckets_posts style channels (c ∷ bs) f b ch (inr later) new there =
      process_buckets_posts style channels bs _ b ch later new there
