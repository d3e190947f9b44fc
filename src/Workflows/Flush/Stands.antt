-- ===== src/Workflows/Flush/Stands.antt =====
-- What the marking of sent members does to the alert of one key.
use mathlib.Core.Path.{subst}
use alertory.Prelude.{
  Bool, true, false, not, ◌||◌, ◌&&◌, List, [], ◌∷◌, Option, none, some, ◌≡◌, refl, ◌∙◌, ap, arith,
  any, Bool-cases, inl, inr, ◌⊎◌,
}
use alertory.Text.{Str, ◌==◌, eq_iff}
use alertory.Map.{Map, get, put, get-put}
use alertory.Db.Member.{NotifiedTarget, GroupMember}
use alertory.Workflows.Message.{rendered_order, sort_by_start, insert_by_start}
use alertory.Workflows.Batching.{Bucket, bucket_changed, is_behind}
use alertory.Workflows.Batching.Threshold.{is_unsent}
use alertory.Workflows.Flush.{mark_member, mark_members, member_or_zero}
use alertory.Workflows.Flush.Deliver.{channels_of}

-- Each member stands under its own fingerprint, once.
abbrev pub IsFiled : Map GroupMember → Type 0
IsFiled [] = Unit
IsFiled ((k, m) ∷ members) = (m.fingerprint ≡ k) × (get k members ≡ none) × IsFiled members

-- The member is the one of this fingerprint.
abbrev pub is_of : Str → GroupMember → Bool
is_of k m = m.fingerprint == k

-- The member without what the flush worker records in it.
abbrev pub unmarked : GroupMember → GroupMember
unmarked m = record m { notified_targets = []; notified_status = [] }

-- What the table had of an alert before the flush, `m`, and what becomes of it: the same alert,
-- with its message up to date in each of the channels, or untouched.
abbrev pub IsMarked : List Str → GroupMember → Type 0
IsMarked channels m = (m.notified_status ≡ m.status) × (channels_of m.notified_targets ≡ channels)

-- The alert needs no message.
abbrev pub is_settled : GroupMember → Bool
is_settled m = not (is_behind m) && not (is_unsent m)

-- Where the loops stand with the alert `m` of the key `k`; `covered` if its bucket is done.
pub record Stands (channels : List Str) (k : Str) (m : GroupMember) (covered : Bool)
    (members : Map GroupMember) : Type 0 where
  pub now : GroupMember
  pub found : get k members ≡ some now
  pub same : unmarked now ≡ unmarked m
  pub stage : ((now ≡ m) × (covered ≡ true → is_settled m ≡ true)) ⊎ IsMarked channels now

get-put_same :
    (k : Str) (v : GroupMember) (j : Str) (members : Map GroupMember)
    → (j == k) ≡ true
    → get k (put j v members) ≡ some v
get-put_same k v j members same = rw (get-put, same) refl

get-put_other :
    (k : Str) (v : GroupMember) (j : Str) (members : Map GroupMember)
    → (j == k) ≡ false
    → get k (put j v members) ≡ get k members
get-put_other k v j members other = rw (get-put, other) refl

IsMarked-mark_member :
    (channels : List Str) (targets : List NotifiedTarget) (m : GroupMember)
    → channels_of targets ≡ channels
    → IsMarked channels (mark_member targets none m)
unfolding mark_member
IsMarked-mark_member channels targets m h = (refl, h)

unmarked-mark_member :
    (targets : List NotifiedTarget) (error : Option Str) (m : GroupMember)
    → unmarked (mark_member targets error m) ≡ unmarked m
unfolding mark_member
unmarked-mark_member targets none m = refl
unmarked-mark_member targets (some error) m = refl

member_or_zero-found :
    (j k : Str) (members : Map GroupMember) (m : GroupMember)
    → (j == k) ≡ true
    → get k members ≡ some m
    → member_or_zero (get j members) ≡ m
unfolding member_or_zero
member_or_zero-found j k members m same found = rw ((eq_iff j k).0 same, found) refl

module _ (channels : List Str) (k : Str) (m : GroupMember) where
  Stands-mark :
      (targets : List NotifiedTarget) (covered : Bool) (members : Map GroupMember) (n : GroupMember)
      → channels_of targets ≡ channels
      → Stands channels k m covered members
      → Stands channels k m (covered || is_of k n) (
          put n.fingerprint
            (mark_member targets none (member_or_zero (get n.fingerprint members)))
            members)
  Stands-mark targets covered members n whole s = elim (Bool-cases (is_of k n)) [
    | inl here ↦ record {
      now = mark_member targets none s.now;
      found =
          get-put_same k _ n.fingerprint members here
          ∙ ap (λ x. some (mark_member targets none x))
              (member_or_zero-found n.fingerprint k members s.now here s.found);
      same = unmarked-mark_member targets none s.now ∙ s.same;
      stage = inr (IsMarked-mark_member channels targets s.now whole);
    }
    | inr there ↦ record {
      now = s.now;
      found = get-put_other k _ n.fingerprint members there ∙ s.found;
      same = s.same;
      stage = still there s.stage;
    }
  ]
    where
      still :
          is_of k n ≡ false
          → ((s.now ≡ m) × (covered ≡ true → is_settled m ≡ true)) ⊎ IsMarked channels s.now
          → ((s.now ≡ m) × ((covered || is_of k n) ≡ true → is_settled m ≡ true))
            ⊎ IsMarked channels s.now
      still there (inl (e, f)) = inl (e, λ h. f (ground arith))
      still there (inr marked) = inr marked

  -- Which members are covered matters only as a Boolean.
  pub Stands-covered :
      {covered covered' : Bool} {members : Map GroupMember}
      → covered ≡ covered'
      → Stands channels k m covered members
      → Stands channels k m covered' members
  Stands-covered {members} e s = subst (λ c. Stands channels k m c members) e s

  pub Stands-mark_members :
      (targets : List NotifiedTarget) (covered : Bool) (sent : List GroupMember)
      (members : Map GroupMember)
      → channels_of targets ≡ channels
      → Stands channels k m covered members
      → Stands channels k m (covered || any (is_of k) sent) (mark_members targets none sent members)
  unfolding mark_members
  Stands-mark_members targets covered [] members whole s = Stands-covered (ground arith) s
  Stands-mark_members targets covered (n ∷ sent) members whole s = Stands-covered (ground arith) (
      Stands-mark_members targets (covered || is_of k n) sent _ whole
        (Stands-mark targets covered members n whole s))

any-insert_by_start :
    (p : GroupMember → Bool) (m : GroupMember) (members : List GroupMember)
    → any p (insert_by_start m members) ≡ (p m || any p members)
unfolding insert_by_start
any-insert_by_start p m [] = refl
any-insert_by_start p m (n ∷ members) = ground (arith, any-insert_by_start p m members)

any-sort_by_start :
    (p : GroupMember → Bool) (members : List GroupMember)
    → any p (sort_by_start members) ≡ any p members
unfolding sort_by_start
any-sort_by_start p [] = refl
any-sort_by_start p (m ∷ members) =
    any-insert_by_start p m (sort_by_start members)
    ∙ ap (λ b. p m || b) (any-sort_by_start p members)

pub any-rendered_order :
    (p : GroupMember → Bool) (members : List GroupMember)
    → any p (rendered_order members) ≡ any p members
unfolding rendered_order
any-rendered_order p [] = any-sort_by_start p []
any-rendered_order p (m ∷ []) = refl
any-rendered_order p (m ∷ n ∷ members) = any-sort_by_start p (m ∷ n ∷ members)

-- A bucket that need not be sent holds `m` only if `m` needs no message.
abbrev pub IsFine : Str → GroupMember → Bucket → Type 0
IsFine k m b = bucket_changed b ≡ false → any (is_of k) b.members ≡ true → is_settled m ≡ true
