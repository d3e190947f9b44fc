-- ===== src/Workflows/Flush/Fine.antt =====
-- Which buckets hold the alert of a key, and that those which are not sent need not be.
use mathlib.Core.Option.{some-injective}
use alertory.Prelude.{
  ℕ, Bool, true, false, not, ◌&&◌, List, [], ◌∷◌, none, some, ◌≡◌, refl, ◌∙◌, ap, sym, arith, any,
  Bool-cases, inl, inr, All,
}
use alertory.Prelude.Orders.{any-append, any-perm}
use alertory.Text.{Str, ◌==◌, eq_iff}
use alertory.Map.{Map, get, values}
use alertory.Db.Member.{GroupMember}
use alertory.Workflows.Batching.{Bucket, build_buckets, bucket_changed, is_behind}
use alertory.Workflows.Batching.Partition.{IsShuffle, all_members, build_buckets_partition}
use alertory.Workflows.Batching.Threshold.{is_unsent}
use alertory.Workflows.Batching.Unmixed.{is_mixed, build_buckets_unmixed}
use alertory.Workflows.Flush.Stands.{IsFiled, is_of, IsFine}

any_of_absent :
    (k : Str) (p : GroupMember → Bool) (members : Map GroupMember)
    → IsFiled members
    → get k members ≡ none
    → any (λ n. is_of k n && p n) (values members) ≡ false
unfolding get values
any_of_absent k p [] f h = refl
any_of_absent k p ((j, n) ∷ members) f h = rw f.0 (ground (arith, any_of_absent k p members f.2))

-- Under its key a filed group has one member only.
any_of_found :
    (k : Str) (p : GroupMember → Bool) (m : GroupMember) (members : Map GroupMember)
    → IsFiled members
    → get k members ≡ some m
    → any (λ n. is_of k n && p n) (values members) ≡ p m
unfolding get values
any_of_found k p m [] f h = cc
any_of_found k p m ((j, n) ∷ members) f h = elim (Bool-cases (j == k)) [
  | inl here ↦ ground (
    arith,
    here,
    ap (λ x. x == k) f.0,
    ap p (some-injective n m (rw here at h)),
    any_of_absent k p members f.2 (ap (λ x. get x members) (sym ((eq_iff j k).0 here)) ∙ f.1),
  )
  | inr there ↦
      ground (arith, there, ap (λ x. x == k) f.0, any_of_found k p m members f.2 (rw there at h))
]

any_clash :
    (q p : GroupMember → Bool) (members : List GroupMember)
    → any q members ≡ true
    → any p members ≡ false
    → any (λ n. q n && not (p n)) members ≡ true
any_clash q p [] h k = cc
any_clash q p (n ∷ members) h k = ground (arith, any_clash q p members)

-- If every member of the key with this property is ruled out, a bucket without the property
-- cannot hold the key.
IsFine-of :
    (k : Str) (m : GroupMember) (p : GroupMember → Bool) (bs : List Bucket)
    → any (λ n. is_of k n && not (p n)) (all_members bs) ≡ false
    → any (λ b. not (bucket_changed b) && any p b.members) bs ≡ false
    → All (IsFine k m) bs
unfolding all_members
IsFine-of k m p [] h calm = tt
IsFine-of k m p (b ∷ bs) h calm = (
  λ same held.
      let e : true ≡ false =
        sym (any_clash (is_of k) p b.members held (ground (arith, same)))
        ∙ ground (arith, any-append (λ n. is_of k n && not (p n)) b.members (all_members bs)) in
      cc,
  IsFine-of k m p bs
      (ground (arith, any-append (λ n. is_of k n && not (p n)) b.members (all_members bs)))
      (ground arith),
)

All-always : {P : Bucket → Type 0} (bs : List Bucket) → ((b : Bucket) → P b) → All P bs
All-always [] f = tt
All-always (b ∷ bs) f = (f b, All-always bs f)

unchanged_level :
    (bs : List Bucket) → any (λ b. not (bucket_changed b) && any is_behind b.members) bs ≡ false
unfolding bucket_changed
unchanged_level [] = refl
unchanged_level (b ∷ bs) = ground (arith, unchanged_level bs)

unchanged_sent :
    (bs : List Bucket)
    → any is_mixed bs ≡ false
    → any (λ b. not (bucket_changed b) && any is_unsent b.members) bs ≡ false
unfolding bucket_changed
unchanged_sent [] h = refl
unchanged_sent (b ∷ bs) h = ground (arith, unchanged_sent bs)

any_and_true :
    (q : GroupMember → Bool) (ms : List GroupMember) → any (λ n. q n && true) ms ≡ any q ms
any_and_true q [] = refl
any_and_true q (n ∷ ms) = ground (arith, any_and_true q ms)

module _ (shuffle : List Bucket → List Bucket) (threshold : ℕ) (members : Map GroupMember)
    (fair : IsShuffle shuffle) (filed : IsFiled members) where
  abbrev pub buckets : List Bucket
  buckets = build_buckets shuffle members threshold

  in_buckets : (q : GroupMember → Bool) → any q (all_members buckets) ≡ any q (values members)
  in_buckets q = any-perm q (build_buckets_partition shuffle members threshold fair)

  pub All-IsFine : (k : Str) (m : GroupMember) → get k members ≡ some m → All (IsFine k m) buckets
  All-IsFine k m found = elim (Bool-cases (is_behind m)) [
    | inl behind ↦
        IsFine-of k m is_behind buckets
          (in_buckets _
            ∙ (any_of_found k (λ n. not (is_behind n)) m members filed found ∙ ap not behind))
          (unchanged_level buckets)
    | inr level ↦ elim (Bool-cases (is_unsent m)) [
      | inl unsent ↦
          IsFine-of k m is_unsent buckets
            (in_buckets _
              ∙ (any_of_found k (λ n. not (is_unsent n)) m members filed found ∙ ap not unsent))
            (unchanged_sent buckets (build_buckets_unmixed shuffle members threshold fair))
      | inr sent ↦ All-always buckets (λ b _ _. rw (level, sent) refl)
    ]
  ]

  pub held :
      (k : Str) (m : GroupMember)
      → get k members ≡ some m
      → any (is_of k) (all_members buckets) ≡ true
  held k m found =
      in_buckets (is_of k)
      ∙ (sym (any_and_true (is_of k) (values members))
          ∙ any_of_found k (λ _. true) m members filed found)

  pub not_held : (k : Str) → get k members ≡ none → any (is_of k) (all_members buckets) ≡ false
  not_held k absent =
      in_buckets (is_of k)
      ∙ (sym (any_and_true (is_of k) (values members))
          ∙ any_of_absent k (λ _. true) members filed absent)
