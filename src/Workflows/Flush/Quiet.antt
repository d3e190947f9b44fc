-- ===== src/Workflows/Flush/Quiet.antt =====
-- A group in which nothing has changed makes no call to Slack.
use mathlib.Core.List.{append-nil}
use alertory.Prelude.{
  ℕ, Bool, false, List, [], ◌∷◌, none, ◌≡◌, refl, ◌∙◌, ap, arith, if◌then◌else◌, any, keep, ltb,
}
use alertory.Prelude.Orders.{any-append, any-perm}
use alertory.Text.{Str}
use alertory.Map.{Map, values}
use alertory.Clock.{Time}
use alertory.Slack.{Log, Respond}
use alertory.Db.Member.{GroupMember}
use alertory.Db.Groups.{AlertGroup}
use alertory.Workflows.Message.{GroupStyle}
use alertory.Workflows.Batching.{Bucket, build_buckets, bucket_changed, is_behind}
use alertory.Workflows.Batching.Partition.{IsShuffle, all_members, build_buckets_partition}
use alertory.Workflows.Batching.Threshold.{is_unsent, is_new, build_buckets_lem}
use alertory.Workflows.Channels.{split_channels}
use alertory.Workflows.Flush.{Flush, process_bucket, process_buckets, send_group}

any-bucket_changed :
    (bs : List Bucket)
    → any is_new bs ≡ false
    → any is_behind (all_members bs) ≡ false
    → any bucket_changed bs ≡ false
unfolding all_members bucket_changed
any-bucket_changed [] h k = refl
any-bucket_changed (b ∷ bs) h k =
    ground (arith, any-append is_behind b.members (all_members bs), any-bucket_changed bs)

keep_none {ℓ} : {A : Type ℓ} (p : A → Bool) (xs : List A) → any p xs ≡ false → keep p xs ≡ []
keep_none p [] h = refl
keep_none p (x ∷ xs) h = ground (arith, keep_none p xs)

if_below_none : (n : ℕ) (bs : List Bucket) → (if ltb n 0 then bs else []) ≡ []
if_below_none n bs = ground arith

quiet_buckets :
    (shuffle : List Bucket → List Bucket) (members : Map GroupMember) (threshold : ℕ)
    → IsShuffle shuffle
    → any is_unsent (values members) ≡ false
    → any is_behind (values members) ≡ false
    → any bucket_changed (build_buckets shuffle members threshold) ≡ false
quiet_buckets shuffle members threshold fair sent level =
    any-bucket_changed _ none_new
      (any-perm is_behind (build_buckets_partition shuffle members threshold fair) ∙ level)
  where
    none_new : any is_new (build_buckets shuffle members threshold) ≡ false
    none_new =
        let (old, sent_before, e) = build_buckets_lem shuffle members threshold fair in
        ap (any is_new) e
        ∙ rw (keep_none is_unsent (values members) sent)
            (rw (if_below_none threshold _, append-nil old) sent_before)

module _ (respond : Respond) (token : Str) (format_time : Time → Str) (style : GroupStyle)
    (channels : List Str) where
  pub process_bucket_unchanged :
      (b : Bucket) (f : Flush)
      → bucket_changed b ≡ false
      → process_bucket respond token format_time style channels b f ≡ f
  unfolding process_bucket
  process_bucket_unchanged b f h = rw h refl

  process_buckets_unchanged :
      (bs : List Bucket) (f : Flush)
      → any bucket_changed bs ≡ false
      → process_buckets respond token format_time style channels bs f ≡ f
  unfolding process_buckets
  process_buckets_unchanged [] f h = refl
  process_buckets_unchanged (b ∷ bs) f h =
      ap (process_buckets respond token format_time style channels bs)
        (process_bucket_unchanged b f (ground arith))
      ∙ process_buckets_unchanged bs f (ground arith)

module _ (respond : Respond) (token : Str) (format_time : Time → Str)
    (shuffle : List Bucket → List Bucket) (threshold : ℕ) where
  -- If every member of the group has a message and its status is the one that was last sent, the
  -- flush makes no call to Slack, reports no error and changes no member.
  pub send_group_quiet :
      (g : AlertGroup) (log : Log)
      → IsShuffle shuffle
      → any is_unsent (values g.members) ≡ false
      → any is_behind (values g.members) ≡ false
      → send_group respond token format_time shuffle threshold g log
        ≡ record { members = g.members; send_error = none; log = log }
  unfolding send_group
  send_group_quiet g log fair sent level =
      process_buckets_unchanged respond token format_time _ (split_channels g.channel) _ _
        (quiet_buckets shuffle g.members threshold fair sent level)
