-- ===== src/Workflows/Batching/Partition.antt =====
-- The buckets are a partition of the members.
use mathlib.Core.List.{
  Perm, Perm-prop, perm_middle, Permᴰ, append_assoc, append-nil, perm_append_singleton,
  perm_append_comm,
}
use mathlib.Core.List.Perm
use mathlib.Core.Logic.{∥∥₁_elim}
use alertory.Prelude.{
  ℕ, true, false, List, [], ◌∷◌, ◌++◌, ◌≡◌, refl, Option, none, some, Bool-cases, inl, inr, length,
  ltb, ap,
}
use alertory.Text.{Str, ◌==◌}
use alertory.Map.{Map, get, put, values}
use alertory.Slack.{is_empty}
use alertory.Db.Member.{GroupMember}
use alertory.Workflows.Batching.{
  Bucket, target_key, Parted, with_member, part_member, part_members, nothing_parted, singles,
  unsent_buckets, build_buckets,
}

-- What `range` over a map may do to the order of its elements.
abbrev pub IsShuffle {ℓ} : {A : Type ℓ} → (List A → List A) → Type ℓ
IsShuffle {A} shuffle = (xs : List A) → Perm (shuffle xs) xs

-- The members of all buckets, bucket by bucket.
unfoldable pub all_members : List Bucket → List GroupMember
all_members [] = []
all_members (b ∷ buckets) = b.members ++ all_members buckets

all_members-append :
    (bs cs : List Bucket) → all_members (bs ++ cs) ≡ all_members bs ++ all_members cs
unfolding all_members
all_members-append [] cs = refl
all_members-append (b ∷ bs) cs = rw (all_members-append bs cs, append_assoc) refl

all_members-permᴰ : {bs cs : List Bucket} → Permᴰ bs cs → Perm (all_members bs) (all_members cs)
unfolding all_members
all_members-permᴰ Permᴰ.nil = Perm.refl []
all_members-permᴰ (Permᴰ.cons {b = b} e p) = rw e (Perm.append_left b.members (all_members-permᴰ p))
all_members-permᴰ (Permᴰ.swap {a' = c} {b' = d} {l = rest} e f) =
    rw (e, f)
      (rw
        (
          ← append_assoc d.members c.members (all_members rest),
          ← append_assoc c.members d.members (all_members rest),
        )
        (Perm.append_right (all_members rest) (perm_append_comm d.members c.members)))
all_members-permᴰ (Permᴰ.trans p q) = Perm.trans (all_members-permᴰ p) (all_members-permᴰ q)

all_members-perm : {bs cs : List Bucket} → Perm bs cs → Perm (all_members bs) (all_members cs)
all_members-perm p = ∥∥₁_elim p Perm-prop all_members-permᴰ

all_members-singles : (members : List GroupMember) → all_members (singles members) ≡ members
unfolding all_members singles
all_members-singles [] = refl
all_members-singles (m ∷ members) = ap (λ ms. m ∷ ms) (all_members-singles members)

pub all_members-unsent_buckets :
    (unsent : List GroupMember) (threshold : ℕ)
    → all_members (unsent_buckets unsent threshold) ≡ unsent
unfolding all_members unsent_buckets
all_members-unsent_buckets [] threshold = refl
all_members-unsent_buckets (m ∷ unsent) threshold =
    elim (Bool-cases (ltb threshold (length (m ∷ unsent)))) [
      | inl many ↦ rw many (append-nil (m ∷ unsent))
      | inr few ↦ rw few (all_members-singles (m ∷ unsent))
    ]

get_later :
    (key k : Str) (b : Bucket) (e : Map Bucket)
    → (k == key) ≡ false
    → get key ((k, b) ∷ e) ≡ get key e
unfolding get
get_later key k b e there = rw there refl

get_here :
    (key k : Str) (b : Bucket) (e : Map Bucket) → (k == key) ≡ true → get key ((k, b) ∷ e) ≡ some b
unfolding get
get_here key k b e here = rw here refl

-- `c` is the bucket of the key with the member added.
abbrev Adds : GroupMember → Option Bucket → Bucket → Type 0
Adds m none c = c.members ≡ m ∷ []
Adds m (some b) c = c.members ≡ b.members ++ (m ∷ [])

all_members-put_adds :
    (key : Str) (m : GroupMember) (c : Bucket) (e : Map Bucket)
    → Adds m (get key e) c
    → Perm (all_members (values (put key c e))) (m ∷ all_members (values e))
unfolding all_members values put
all_members-put_adds key m c [] h =
    let added : c.members ≡ m ∷ [] = unfold get in h in rw added (Perm.refl _)
all_members-put_adds key m c ((k, b) ∷ e) h = elim (Bool-cases (k == key)) [
  | inl here ↦
      let added : Adds m (some b) c = rw (get_here key k b e here) at h in
      rw (here, added, append_assoc) (perm_middle b.members (all_members (values e)))
  | inr there ↦ rw there (
      Perm.trans
        (Perm.append_left b.members
          (all_members-put_adds key m c e (rw (get_later key k b e there) at h)))
        (perm_middle b.members (all_members (values e))))
]

Adds-with_member : (m : GroupMember) (o : Option Bucket) → Adds m o (with_member m o)
Adds-with_member m none = refl
Adds-with_member m (some b) = refl

all_members-put :
    (key : Str) (m : GroupMember) (e : Map Bucket)
    → Perm
        (all_members (values (put key (with_member m (get key e)) e)))
        (m ∷ all_members (values e))
all_members-put key m e =
    all_members-put_adds key m (with_member m (get key e)) e (Adds-with_member m (get key e))

-- The members that the loop has placed so far.
placed : Parted → List GroupMember
placed p = all_members (values p.existing) ++ p.unsent

placed-part_member : (m : GroupMember) (p : Parted) → Perm (placed (part_member m p)) (m ∷ placed p)
unfolding part_member placed
placed-part_member m p = elim (Bool-cases (is_empty m.notified_targets)) [
  | inl unsent ↦
      rw (unsent, ← append_assoc (all_members (values p.existing)) p.unsent (m ∷ []))
        (perm_append_singleton m (all_members (values p.existing) ++ p.unsent))
  | inr sent ↦
      rw sent
        (Perm.append_right p.unsent (all_members-put (target_key m.notified_targets) m p.existing))
]

placed-part_members :
    (members : List GroupMember) (p : Parted)
    → Perm (placed (part_members members p)) (members ++ placed p)
unfolding part_members
placed-part_members [] p = Perm.refl _
placed-part_members (m ∷ members) p = Perm.trans (placed-part_members members (part_member m p)) (
    Perm.trans (Perm.append_left members (placed-part_member m p)) (perm_middle members (placed p)))

-- Whatever order Go's maps are visited in, the buckets hold every member of the group exactly as
-- often as the group does: no alert is left out of the messages, and none is in two of them.
pub build_buckets_partition :
    (shuffle : List Bucket → List Bucket) (members : Map GroupMember) (threshold : ℕ)
    → IsShuffle shuffle
    → Perm (all_members (build_buckets shuffle members threshold)) (values members)
unfolding build_buckets placed all_members
build_buckets_partition shuffle members threshold fair =
    let p = part_members (values members) nothing_parted in
    rw
      (
        all_members-append (shuffle (values p.existing)),
        all_members-unsent_buckets p.unsent threshold,
      )
      (Perm.trans (Perm.append_right p.unsent (all_members-perm (fair (values p.existing)))) (
        Perm.trans (placed-part_members (values members) nothing_parted)
          (rw (append-nil (values members)) (Perm.refl (values members)))))
