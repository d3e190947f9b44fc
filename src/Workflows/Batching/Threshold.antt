-- ===== src/Workflows/Batching/Threshold.antt =====
-- How many messages new alerts get.
use alertory.Prelude.{
  ℕ, Bool, true, false, List, [], ◌∷◌, ◌++◌, ◌≡◌, refl, ◌∙◌, ap, arith, ltb, length, if◌then◌else◌,
  map, keep, any, Bool-cases, inl, inr,
}
use mathlib.Core.List.{append-nil, append_assoc}
use alertory.Text.{Str}
use alertory.Prelude.Orders.{any-perm}
use alertory.Workflows.Batching.Partition.{IsShuffle}
use alertory.Map.{Map, get, put, values}
use alertory.Slack.{is_empty}
use alertory.Db.Member.{GroupMember}
use alertory.Workflows.Batching.{
  Bucket, Parted, part_member, part_members, nothing_parted, singles, unsent_buckets, build_buckets,
  target_key, with_member,
}

-- The member has never been sent.
abbrev pub is_unsent : GroupMember → Bool
is_unsent m = is_empty m.notified_targets

-- A bucket that stands for one alert that has not been sent yet.
abbrev pub single : GroupMember → Bucket
single m = record { targets = []; members = m ∷ [] }

-- The bucket has no message yet.
abbrev pub is_new : Bucket → Bool
is_new b = is_empty b.targets

unsent-part_member_new :
    (m : GroupMember) (p : Parted)
    → is_unsent m ≡ true
    → (part_member m p).unsent ≡ p.unsent ++ (m ∷ [])
unfolding part_member
unsent-part_member_new m p h = rw h refl

unsent-part_member_old :
    (m : GroupMember) (p : Parted) → is_unsent m ≡ false → (part_member m p).unsent ≡ p.unsent
unfolding part_member
unsent-part_member_old m p h = rw h refl

pub unsent-part_members :
    (members : List GroupMember) (p : Parted)
    → (part_members members p).unsent ≡ p.unsent ++ keep is_unsent members
unfolding part_members
unsent-part_members [] p = rw append-nil refl
unsent-part_members (m ∷ members) p = elim (Bool-cases (is_unsent m)) [
  | inl new ↦
      unsent-part_members members (part_member m p)
      ∙ rw (unsent-part_member_new m p new, new, append_assoc) refl
  | inr old ↦
      unsent-part_members members (part_member m p) ∙ rw (unsent-part_member_old m p old, old) refl
]

is_new-put :
    (key : Str) (c : Bucket) (e : Map Bucket)
    → is_new c ≡ false
    → any is_new (values e) ≡ false
    → any is_new (values (put key c e)) ≡ false
unfolding put values
is_new-put key c [] h k = rw h refl
is_new-put key c ((j, b) ∷ e) h k = ground (arith, is_new-put key c e h)

is_new-get :
    (key : Str) (e : Map Bucket) (m : GroupMember)
    → is_unsent m ≡ false
    → any is_new (values e) ≡ false
    → is_new (with_member m (get key e)) ≡ false
unfolding get values
is_new-get key [] m old h = old
is_new-get key ((j, b) ∷ e) m old h = ground (arith, is_new-get key e m old)

is_new-part_member :
    (m : GroupMember) (p : Parted)
    → any is_new (values p.existing) ≡ false
    → any is_new (values (part_member m p).existing) ≡ false
unfolding part_member
is_new-part_member m p h = elim (Bool-cases (is_unsent m)) [
  | inl new ↦ rw new h
  | inr old ↦ rw old (
      is_new-put (target_key m.notified_targets) _ p.existing
        (is_new-get (target_key m.notified_targets) p.existing m old h) h)
]

is_new-part_members :
    (members : List GroupMember) (p : Parted)
    → any is_new (values p.existing) ≡ false
    → any is_new (values (part_members members p).existing) ≡ false
unfolding part_members
is_new-part_members [] p h = h
is_new-part_members (m ∷ members) p h =
    is_new-part_members members (part_member m p) (is_new-part_member m p h)

singles-eq-map : (members : List GroupMember) → singles members ≡ map single members
unfolding singles
singles-eq-map [] = refl
singles-eq-map (m ∷ members) = ap (λ bs. single m ∷ bs) (singles-eq-map members)

pub unsent_buckets_lem :
    (new : List GroupMember) (threshold : ℕ)
    → unsent_buckets new threshold ≡ (
        if ltb threshold (length new)
        then record { targets = []; members = new } ∷ []
        else map single new)
unfolding unsent_buckets
unsent_buckets_lem [] threshold = ground arith
unsent_buckets_lem (m ∷ new) threshold = ground (arith, singles-eq-map (m ∷ new))

-- The buckets are those of the messages that exist, and then those of the alerts that have never
-- been sent: one bucket for all of these if they are more than the threshold, and otherwise one
-- for each.
pub build_buckets_lem :
    (shuffle : List Bucket → List Bucket) (members : Map GroupMember) (threshold : ℕ)
    → IsShuffle shuffle
    → let new = keep is_unsent (values members) in
      (old : List Bucket) × (any is_new old ≡ false)
      × (build_buckets shuffle members threshold
          ≡ old
            ++ (if ltb threshold (length new)
                then record { targets = []; members = new } ∷ []
                else map single new))
unfolding build_buckets
build_buckets_lem shuffle members threshold fair =
    let p = part_members (values members) nothing_parted in
    (
      shuffle (values p.existing),
      any-perm is_new (fair (values p.existing))
          ∙ is_new-part_members (values members) nothing_parted (unfold values in refl),
      rw (unsent-part_members (values members) nothing_parted)
          (ap (λ bs. shuffle (values p.existing) ++ bs) (unsent_buckets_lem _ threshold)),
    )
