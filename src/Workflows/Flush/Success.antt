-- ===== src/Workflows/Flush/Success.antt =====
-- What a flush leaves in the members of a group when every call to Slack succeeds.
use mathlib.Core.Path.{subst}
use alertory.Prelude.{
  Bool, true, false, ◌||◌, List, [], ◌∷◌, none, ◌≡◌, refl, ◌∙◌, ap, sym, arith, any, Bool-cases,
  inl, inr, ◌⊎◌, All,
}
use alertory.Prelude.Orders.{any-append}
use alertory.Text.{Str}
use alertory.Map.{Map}
use alertory.Clock.{Time}
use alertory.Slack.{Respond}
use alertory.Db.Member.{GroupMember}
use alertory.Workflows.Message.{GroupStyle, rendered_order}
use alertory.Workflows.Batching.{Bucket, bucket_changed}
use alertory.Workflows.Batching.Partition.{all_members}
use alertory.Workflows.Flush.{
  Delivery, Flush, process_bucket, process_buckets, mark_members, or_earlier, bucket_delivery,
  by_channel,
}
use alertory.Workflows.Flush.Quiet.{process_bucket_unchanged}
use alertory.Workflows.Flush.Deliver.{channels_of, channels_of-deliver, or_earlier-none}
use alertory.Workflows.Flush.Stands.{
  is_of, IsMarked, is_settled, Stands, IsFine, Stands-covered, Stands-mark_members,
  any-rendered_order,
}

module _ (respond : Respond) (token : Str) (format_time : Time → Str) (style : GroupStyle)
    (channels : List Str) where
  abbrev delivery : Bucket → Flush → Delivery
  delivery b f = bucket_delivery respond token format_time style channels b f.log

  process_bucket_changed :
      (b : Bucket) (f : Flush)
      → bucket_changed b ≡ true
      → process_bucket respond token format_time style channels b f ≡ record {
        members =
            mark_members
              (delivery b f).new_targets
              (delivery b f).bucket_error
              (rendered_order b.members)
              f.members;
        send_error = or_earlier f.send_error (delivery b f).bucket_error;
        log = (delivery b f).log;
      }
  unfolding process_bucket
  process_bucket_changed b f h = rw h refl

  process_bucket_error :
      (b : Bucket) (f : Flush)
      → (process_bucket respond token format_time style channels b f).send_error ≡ none
      → f.send_error ≡ none
  process_bucket_error b f h = elim (Bool-cases (bucket_changed b)) [
    | inl changed ↦
        (or_earlier-none f.send_error (delivery b f).bucket_error
          (ap (λ x. x.send_error) (sym (process_bucket_changed b f changed)) ∙ h)).0
    | inr same ↦
        ap (λ x. x.send_error)
          (sym (process_bucket_unchanged respond token format_time style channels b f same))
        ∙ h
  ]

  process_buckets_error :
      (bs : List Bucket) (f : Flush)
      → (process_buckets respond token format_time style channels bs f).send_error ≡ none
      → f.send_error ≡ none
  unfolding process_buckets
  process_buckets_error [] f h = h
  process_buckets_error (b ∷ bs) f h = process_bucket_error b f (process_buckets_error bs _ h)

  channels_of-delivery :
      (b : Bucket) (f : Flush)
      → (delivery b f).bucket_error ≡ none
      → channels_of (delivery b f).new_targets ≡ channels
  unfolding bucket_delivery
  channels_of-delivery b f h =
      channels_of-deliver respond token _ _ (by_channel b.targets []) channels _ h

  module _ (k : Str) (m : GroupMember) where
    Stands-changed :
        (covered : Bool) (b : Bucket) (f : Flush) (d : Delivery)
        → d.bucket_error ≡ none
        → channels_of d.new_targets ≡ channels
        → Stands channels k m covered f.members
        → Stands channels k m
            (covered || any (is_of k) b.members)
            (mark_members d.new_targets d.bucket_error (rendered_order b.members) f.members)
    Stands-changed covered b f d fine whole s = rw fine (
        Stands-covered channels k m
          (ap (λ c. covered || c) (any-rendered_order (is_of k) b.members))
          (Stands-mark_members channels k m d.new_targets covered (rendered_order b.members)
            f.members whole s))

    Stands-unchanged :
        (covered : Bool) (b : Bucket) (members : Map GroupMember)
        → bucket_changed b ≡ false
        → IsFine k m b
        → Stands channels k m covered members
        → Stands channels k m (covered || any (is_of k) b.members) members
    Stands-unchanged covered b members same fine s = record {
      now = s.now;
      found = s.found;
      same = s.same;
      stage = still s.stage;
    }
      where
        still :
            ((s.now ≡ m) × (covered ≡ true → is_settled m ≡ true)) ⊎ IsMarked channels s.now
            → ((s.now ≡ m) × ((covered || any (is_of k) b.members) ≡ true → is_settled m ≡ true))
              ⊎ IsMarked channels s.now
        still (inl (e, f)) = inl (
          e,
          λ h. elim (Bool-cases covered) [ inl old ↦ f old | inr new ↦ fine same (rw new at h) ],
        )
        still (inr marked) = inr marked

    Stands-process_bucket :
        (covered : Bool) (b : Bucket) (f : Flush)
        → IsFine k m b
        → (process_bucket respond token format_time style channels b f).send_error ≡ none
        → Stands channels k m covered f.members
        → Stands channels k m
            (covered || any (is_of k) b.members)
            (process_bucket respond token format_time style channels b f).members
    Stands-process_bucket covered b f fine h s = elim (Bool-cases (bucket_changed b)) [
      | inl changed ↦
          let e = process_bucket_changed b f changed in
          let calm : (delivery b f).bucket_error ≡ none =
            (or_earlier-none f.send_error (delivery b f).bucket_error
              (ap (λ x. x.send_error) (sym e) ∙ h)).1 in
          subst (λ x. Stands channels k m (covered || any (is_of k) b.members) x)
            (ap (λ x. x.members) (sym e))
            (Stands-changed covered b f (delivery b f) calm (channels_of-delivery b f calm) s)
      | inr same ↦
          subst (λ x. Stands channels k m (covered || any (is_of k) b.members) x)
            (ap (λ x. x.members)
              (sym (process_bucket_unchanged respond token format_time style channels b f same)))
            (Stands-unchanged covered b f.members same fine s)
    ]

    pub Stands-process_buckets :
        (covered : Bool) (bs : List Bucket) (f : Flush)
        → All (IsFine k m) bs
        → (process_buckets respond token format_time style channels bs f).send_error ≡ none
        → Stands channels k m covered f.members
        → Stands channels k m
            (covered || any (is_of k) (all_members bs))
            (process_buckets respond token format_time style channels bs f).members
    unfolding process_buckets all_members
    Stands-process_buckets covered [] f fine h s = Stands-covered channels k m (ground arith) s
    Stands-process_buckets covered (b ∷ bs) f fine h s =
        Stands-covered channels k m
          (ground (arith, any-append (is_of k) b.members (all_members bs)))
          (Stands-process_buckets (covered || any (is_of k) b.members) bs _ fine.1 h
            (Stands-process_bucket covered b f fine.0 (process_buckets_error bs _ h) s))
