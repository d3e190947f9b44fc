-- ===== src/Workflows/Batching/Unmixed.antt =====
-- A bucket that has a message holds only alerts that have one.
use alertory.Prelude.{
  ℕ, Bool, false, not, ◌&&◌, List, [], ◌∷◌, ◌≡◌, refl, ◌∙◌, arith, ltb, length, some, any,
  Bool-cases, inl, inr,
}
use alertory.Prelude.Orders.{any-append, any-perm}
use alertory.Text.{Str}
use alertory.Map.{Map, get, put, values}
use alertory.Slack.{is_empty}
use alertory.Db.Member.{GroupMember}
use alertory.Workflows.Batching.{
  Bucket, Parted, part_member, part_members, nothing_parted, build_buckets, target_key, with_member,
  unsent_buckets, singles,
}
use alertory.Workflows.Batching.Partition.{IsShuffle}
use alertory.Workflows.Batching.Threshold.{is_unsent, is_new}

-- Some member of the bucket has no message.
abbrev lags : Bucket → Bool
lags b = any is_unsent b.members

-- The bucket has a message and some member of it has none.
abbrev pub is_mixed : Bucket → Bool
is_mixed b = not (is_new b) && lags b

lags-put :
    (key : Str) (c : Bucket) (e : Map Bucket)
    → lags c ≡ false
    → any lags (values e) ≡ false
    → any lags (values (put key c e)) ≡ false
unfolding put values
lags-put key c [] h k = rw h refl
lags-put key c ((j, b) ∷ e) h k = ground (arith, lags-put key c e h)

lags-with_member :
    (m : GroupMember) (b : Bucket)
    → is_unsent m ≡ false
    → lags b ≡ false
    → lags (with_member m (some b)) ≡ false
lags-with_member m b old h = any-append is_unsent b.members (m ∷ []) ∙ ground arith

lags-get :
    (key : Str) (e : Map Bucket) (m : GroupMember)
    → is_unsent m ≡ false
    → any lags (values e) ≡ false
    → lags (with_member m (get key e)) ≡ false
unfolding get values
lags-get key [] m old h = rw old refl
lags-get key ((j, b) ∷ e) m old h = ground (arith, lags-get key e m old, lags-with_member m b old)

lags-part_member :
    (m : GroupMember) (p : Parted)
    → any lags (values p.existing) ≡ false
    → any lags (values (part_member m p).existing) ≡ false
unfolding part_member
lags-part_member m p h = elim (Bool-cases (is_unsent m)) [
  | inl new ↦ rw new h
  | inr old ↦ rw old (
      lags-put (target_key m.notified_targets) _ p.existing
        (lags-get (target_key m.notified_targets) p.existing m old h) h)
]

lags-part_members :
    (members : List GroupMember) (p : Parted)
    → any lags (values p.existing) ≡ false
    → any lags (values (part_members members p).existing) ≡ false
unfolding part_members
lags-part_members [] p h = h
lags-part_members (m ∷ members) p h =
    lags-part_members members (part_member m p) (lags-part_member m p h)

mixed_of_lags : (bs : List Bucket) → any lags bs ≡ false → any is_mixed bs ≡ false
mixed_of_lags [] h = refl
mixed_of_lags (b ∷ bs) h = ground (arith, mixed_of_lags bs)

is_mixed-singles : (members : List GroupMember) → any is_mixed (singles members) ≡ false
unfolding singles is_empty
is_mixed-singles [] = refl
is_mixed-singles (m ∷ members) = is_mixed-singles members

is_mixed-unsent_buckets :
    (unsent : List GroupMember) (threshold : ℕ)
    → any is_mixed (unsent_buckets unsent threshold) ≡ false
unfolding unsent_buckets is_empty
is_mixed-unsent_buckets [] threshold = refl
is_mixed-unsent_buckets (m ∷ unsent) threshold =
    elim (Bool-cases (ltb threshold (length (m ∷ unsent)))) [
      | inl many ↦ rw many refl
      | inr few ↦ rw few (is_mixed-singles (m ∷ unsent))
    ]

pub build_buckets_unmixed :
    (shuffle : List Bucket → List Bucket) (members : Map GroupMember) (threshold : ℕ)
    → IsShuffle shuffle
    → any is_mixed (build_buckets shuffle members threshold) ≡ false
unfolding build_buckets
build_buckets_unmixed shuffle members threshold fair =
    let p = part_members (values members) nothing_parted in
    any-append is_mixed (shuffle (values p.existing)) (unsent_buckets p.unsent threshold)
    ∙ rw
        (
          any-perm is_mixed (fair (values p.existing)),
          mixed_of_lags (values p.existing)
              (lags-part_members (values members) nothing_parted (unfold values in refl)),
          is_mixed-unsent_buckets p.unsent threshold,
        )
        refl
