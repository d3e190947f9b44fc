-- ===== src/Workflows/Flush/Frame.antt =====
-- What a flush leaves alone: the keys, the alerts of other buckets, and Slack where a group has
-- no channel.
use alertory.Prelude.{
  false, List, [], ◌∷◌, Option, ◌≡◌, refl, ◌∙◌, arith, any, Bool-cases, inl, inr,
}
use alertory.Prelude.Orders.{any-append}
use alertory.Text.{Str}
use alertory.Map.{Map, get, get-put, IsKeyed, put-IsKeyed}
use alertory.Clock.{Time}
use alertory.Slack.{Respond}
use alertory.Db.Member.{NotifiedTarget, GroupMember}
use alertory.Workflows.Batching.{Bucket, bucket_changed}
use alertory.Workflows.Batching.Partition.{all_members}
use alertory.Workflows.Message.{GroupStyle, rendered_order}
use alertory.Workflows.Flush.{
  Flush, process_bucket, process_buckets, mark_members, bucket_delivery, deliver,
}
use alertory.Workflows.Flush.Stands.{IsFiled, is_of, any-rendered_order}

pub IsFiled-IsKeyed : (members : Map GroupMember) → IsFiled members → IsKeyed members
IsFiled-IsKeyed [] f = tt
IsFiled-IsKeyed (e ∷ members) f = (f.1, IsFiled-IsKeyed members f.2)

module _ (targets : List NotifiedTarget) (error : Option Str) where
  mark_members-IsKeyed :
      (sent : List GroupMember) (members : Map GroupMember)
      → IsKeyed members
      → IsKeyed (mark_members targets error sent members)
  unfolding mark_members
  mark_members-IsKeyed [] members u = u
  mark_members-IsKeyed (n ∷ sent) members u =
      mark_members-IsKeyed sent _ (put-IsKeyed n.fingerprint _ members u)

  get-mark_members :
      (k : Str) (sent : List GroupMember) (members : Map GroupMember)
      → any (is_of k) sent ≡ false
      → get k (mark_members targets error sent members) ≡ get k members
  unfolding mark_members
  get-mark_members k [] members h = refl
  get-mark_members k (n ∷ sent) members h =
      get-mark_members k sent _ (ground arith) ∙ get-put k n.fingerprint _ members ∙ ground arith

module _ (respond : Respond) (token : Str) (format_time : Time → Str) (style : GroupStyle)
    (channels : List Str) where
  pub process_buckets-IsKeyed :
      (bs : List Bucket) (f : Flush)
      → IsKeyed f.members
      → IsKeyed (process_buckets respond token format_time style channels bs f).members
  unfolding process_buckets process_bucket
  process_buckets-IsKeyed [] f u = u
  process_buckets-IsKeyed (b ∷ bs) f u =
      process_buckets-IsKeyed bs _ (elim (Bool-cases (bucket_changed b)) [
        | inl changed ↦ rw changed (mark_members-IsKeyed _ _ _ f.members u)
        | inr same ↦ rw same u
      ])

  pub get-process_buckets :
      (k : Str) (bs : List Bucket) (f : Flush)
      → any (is_of k) (all_members bs) ≡ false
      → get k (process_buckets respond token format_time style channels bs f).members
        ≡ get k f.members
  unfolding process_buckets process_bucket all_members
  get-process_buckets k [] f h = refl
  get-process_buckets k (b ∷ bs) f h =
      get-process_buckets k bs _ (ground (arith, any-append (is_of k) b.members (all_members bs)))
      ∙ elim (Bool-cases (bucket_changed b)) [
        | inl changed ↦ rw changed (
            get-mark_members _ _ k (rendered_order b.members) f.members (
              any-rendered_order (is_of k) b.members
              ∙ ground (arith, any-append (is_of k) b.members (all_members bs))))
        | inr same ↦ rw same refl
      ]

  -- Without channels there is nobody to call.
  pub process_buckets_nowhere :
      (bs : List Bucket) (f : Flush)
      → channels ≡ []
      → (process_buckets respond token format_time style channels bs f).log ≡ f.log
  unfolding process_buckets process_bucket bucket_delivery deliver
  process_buckets_nowhere [] f h = refl
  process_buckets_nowhere (b ∷ bs) f h =
      process_buckets_nowhere bs _ h ∙ elim (Bool-cases (bucket_changed b)) [
        | inl changed ↦ rw (changed, h) refl
        | inr same ↦ rw same refl
      ]
