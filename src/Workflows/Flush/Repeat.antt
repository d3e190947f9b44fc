-- ===== src/Workflows/Flush/Repeat.antt =====
-- A successful flush, as a whole, and the flush after it.
use mathlib.Core.Option.{some-injective}
use mathlib.Core.Path.{subst}
use alertory.Prelude.{
  ℕ, Bool, true, false, ◌||◌, List, [], ◌∷◌, none, some, ◌≡◌, refl, ◌∙◌, ap, sym, arith,
  Option-cases, inl, inr, ◌⊎◌,
}
use alertory.Text.{Str, eq_iff, eq_refl}
use alertory.Map.{Map, get, IsKeyed, any-values}
use alertory.Clock.{Time}
use alertory.Slack.{Log, Respond, is_empty}
use alertory.Db.Member.{NotifiedTarget, GroupMember}
use alertory.Db.Groups.{AlertGroup}
use alertory.Workflows.Batching.{Bucket, build_buckets, is_behind}
use alertory.Workflows.Batching.Partition.{IsShuffle}
use alertory.Workflows.Batching.Threshold.{is_unsent}
use alertory.Workflows.Channels.{split_channels}
use alertory.Workflows.Flush.{send_group}
use alertory.Workflows.Flush.Deliver.{channels_of}
use alertory.Workflows.Flush.Quiet.{send_group_quiet}
use alertory.Workflows.Flush.Stands.{IsFiled, unmarked, IsMarked, is_settled, Stands}
use alertory.Workflows.Flush.Success.{Stands-process_buckets}
use alertory.Workflows.Flush.Frame.{
  IsFiled-IsKeyed, process_buckets-IsKeyed, get-process_buckets, process_buckets_nowhere,
}
use alertory.Workflows.Flush.Fine.{All-IsFine, held, not_held}

settled_status : (m : GroupMember) → is_settled m ≡ true → m.notified_status ≡ m.status
unfolding is_behind
settled_status m h = (eq_iff m.notified_status m.status).0 (ground arith)

settled_sent : (m : GroupMember) → is_settled m ≡ true → is_unsent m ≡ false
settled_sent m h = ground arith

outcome :
    (channel k : Str) (m : GroupMember) (members : Map GroupMember) {covered : Bool}
    → covered ≡ true
    → Stands (split_channels channel) k m covered members
    → (m' : GroupMember) × (get k members ≡ some m')
      × (unmarked m' ≡ unmarked m)
      × (m'.notified_status ≡ m'.status)
      × (((m' ≡ m) × (is_unsent m ≡ false))
          ⊎ (channels_of m'.notified_targets ≡ split_channels channel))
outcome channel k m members {covered} all s = (s.now, s.found, s.same, level s.stage, stage s.stage)
  where
    level :
        ((s.now ≡ m) × (covered ≡ true → is_settled m ≡ true))
          ⊎ IsMarked (split_channels channel) s.now
        → s.now.notified_status ≡ s.now.status
    level (inl (e, f)) = rw e (settled_status m (f all))
    level (inr marked) = marked.0

    stage :
        ((s.now ≡ m) × (covered ≡ true → is_settled m ≡ true))
          ⊎ IsMarked (split_channels channel) s.now
        → ((s.now ≡ m) × (is_unsent m ≡ false))
          ⊎ (channels_of s.now.notified_targets ≡ split_channels channel)
    stage (inl (e, f)) = inl (e, settled_sent m (f all))
    stage (inr marked) = inr marked.1

module _ (respond : Respond) (token : Str) (format_time : Time → Str)
    (shuffle : List Bucket → List Bucket) (threshold : ℕ) where
  -- When no call to Slack fails, every alert of the group is the same alert after the flush, its
  -- status is recorded as the one that was sent, and it has one message in each of the group's
  -- channels, in their order, unless the flush has left it untouched because it needed none.
  pub send_group_success :
      (g : AlertGroup) (log : Log) (k : Str) (m : GroupMember)
      → IsShuffle shuffle
      → IsFiled g.members
      → (send_group respond token format_time shuffle threshold g log).send_error ≡ none
      → get k g.members ≡ some m
      → (m' : GroupMember) × (get k
            (send_group respond token format_time shuffle threshold g log).members
          ≡ some m')
        × (unmarked m' ≡ unmarked m)
        × (m'.notified_status ≡ m'.status)
        × (((m' ≡ m) × (is_unsent m ≡ false))
            ⊎ (channels_of m'.notified_targets ≡ split_channels g.channel))
  unfolding send_group
  send_group_success g log k m fair filed calm found =
      outcome g.channel k m _
        (ap (λ c. false || c) (held shuffle threshold g.members fair filed k m found))
        (Stands-process_buckets respond token format_time _ (split_channels g.channel) k m false
          (build_buckets shuffle g.members threshold) _
          (All-IsFine shuffle threshold g.members fair filed k m found) calm
          (record { now = m; found = found; same = refl; stage = inl (refl, λ h. cc) }))

nowhere_or_somewhere : (channels : List Str) → (channels ≡ []) ⊎ (is_empty channels ≡ false)
unfolding is_empty
nowhere_or_somewhere [] = inl refl
nowhere_or_somewhere (ch ∷ channels) = inr refl

has_targets :
    (targets : List NotifiedTarget) (channels : List Str)
    → is_empty channels ≡ false
    → channels_of targets ≡ channels
    → is_empty targets ≡ false
unfolding is_empty
has_targets [] channels h e = rw (← e) at h
has_targets (t ∷ targets) channels h e = refl

at_rest :
    (channels : List Str) (now m m' : GroupMember)
    → now ≡ m'
    → now.notified_status ≡ now.status
    → ((now ≡ m) × (is_unsent m ≡ false)) ⊎ (channels_of now.notified_targets ≡ channels)
    → (is_behind m' ≡ false) × (is_empty channels ≡ false → is_unsent m' ≡ false)
unfolding is_behind
at_rest channels now m m' e level (inl (same, sent)) =
    subst (λ x. (is_behind x ≡ false) × (is_empty channels ≡ false → is_unsent x ≡ false)) e
      (rw (level, eq_refl now.status) refl, λ _. ap is_unsent same ∙ sent)
at_rest channels now m m' e level (inr whole) =
    subst (λ x. (is_behind x ≡ false) × (is_empty channels ≡ false → is_unsent x ≡ false)) e
      (
        rw (level, eq_refl now.status) refl,
        λ somewhere. has_targets now.notified_targets channels somewhere whole,
      )

module _ (respond : Respond) (token : Str) (format_time : Time → Str)
    (shuffle : List Bucket → List Bucket) (threshold : ℕ) where
  -- The group with the members that the flush has left, as the next claim reads it if no event has
  -- come in between.
  unfoldable pub flushed : AlertGroup → Log → AlertGroup
  flushed g log = record g {
    members = (send_group respond token format_time shuffle threshold g log).members;
  }

  module _ (g : AlertGroup) (log : Log) (fair : IsShuffle shuffle) (filed : IsFiled g.members)
      (calm : (send_group respond token format_time shuffle threshold g log).send_error
        ≡ none) where
    flushed-IsKeyed : IsKeyed (flushed g log).members
    unfolding flushed send_group
    flushed-IsKeyed =
        process_buckets-IsKeyed respond token format_time _ (split_channels g.channel) _ _
          (IsFiled-IsKeyed g.members filed)

    get-flushed-none : (k : Str) → get k g.members ≡ none → get k (flushed g log).members ≡ none
    unfolding flushed send_group
    get-flushed-none k absent =
        get-process_buckets respond token format_time _ (split_channels g.channel) k _ _
          (not_held shuffle threshold g.members fair filed k absent)
        ∙ absent

    flushed_entry :
        (k : Str) (m' : GroupMember)
        → get k (flushed g log).members ≡ some m'
        → (is_behind m' ≡ false)
          × (is_empty (split_channels g.channel) ≡ false → is_unsent m' ≡ false)
    unfolding flushed is_behind
    flushed_entry k m' found = elim (Option-cases (get k g.members)) [
      | inl absent ↦
          let e : none ≡ some m' = sym (unfold flushed in get-flushed-none k absent) ∙ found in cc
      | inr (m, before) ↦
          let r =
            send_group_success respond token format_time shuffle threshold g log k m fair filed calm
              before in
          at_rest (split_channels g.channel) r.0 m m' (some-injective r.0 m' (sym r.1 ∙ found)) r.3
            r.4
    ]

  -- After a flush in which no call fails, a flush of the same group with no event in between makes
  -- no call to Slack at all.
  pub send_group_again :
      (g : AlertGroup) (log later : Log)
      → IsShuffle shuffle
      → IsFiled g.members
      → (send_group respond token format_time shuffle threshold g log).send_error ≡ none
      → (send_group respond token format_time shuffle threshold (flushed g log) later).log ≡ later
  unfolding flushed
  send_group_again g log later fair filed calm =
      elim (nowhere_or_somewhere (split_channels g.channel)) [
        | inl nowhere ↦
            unfold send_group in
            process_buckets_nowhere respond token format_time _ (split_channels g.channel) _ _
              nowhere
        | inr somewhere ↦
            let entry = flushed_entry g log fair filed calm in
            ap (λ f. f.log)
              (send_group_quiet respond token format_time shuffle threshold (flushed g log) later
                fair
                (any-values is_unsent _ (flushed-IsKeyed g log fair filed calm)
                  (λ k m' found. (entry k m' found).1 somewhere))
                (any-values is_behind _ (flushed-IsKeyed g log fair filed calm)
                  (λ k m' found. (entry k m' found).0)))
      ]
