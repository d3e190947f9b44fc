-- ===== src/Workflows/Flush/Posts.antt =====
-- A new alert of a due group reaches every channel of the group at the next tick.
use mathlib.Core.Path.{subst}
use alertory.Prelude.{
  ℕ, ◌≤◌, ◌∷◌, Bool, true, false, List, [], keep, length, ltb, some, ◌≡◌, inl, inr, refl, sym,
  Bool-cases, In, In-append_right, In-keep, In-map,
}
use alertory.Text.{Str}
use alertory.Map.{Map, values}
use alertory.Clock.{Time}
use alertory.Slack.{Respond, Request, Log, is_empty}
use alertory.Db.Member.{GroupMember}
use alertory.Db.Groups.{Row, Table, AlertGroup, find_row, scan_group, unmarshal_members}
use alertory.Db.Groups.Taken.{find_row-In, claim_due_groups-In}
use alertory.Db.Groups.Claim.{is_free}
use alertory.Workflows.Batching.{Bucket, build_buckets}
use alertory.Workflows.Batching.Partition.{IsShuffle}
use alertory.Workflows.Batching.Threshold.{is_unsent, single, build_buckets_lem}
use alertory.Workflows.Channels.{split_channels}
use alertory.Workflows.Flush.{
  send_group, process_group, process_groups, flush_due_groups, flush_batch, claim_lease,
}
use alertory.Workflows.Flush.Calls.{
  new_message, style_of, IsPosted, process_buckets-In, process_buckets_posts,
}

module _ (respond : Respond) (token : Str) (format_time : Time → Str)
    (some_token : is_empty token ≡ false) where
  module _ (shuffle : List Bucket → List Bucket) (mass_threshold : ℕ)
      (fair : IsShuffle shuffle) where
    -- An alert without a message stands in a bucket without a message.
    unsent-In :
        (members : Map GroupMember) (m : GroupMember)
        → In m (values members)
        → is_unsent m ≡ true
        → (b : Bucket) × In b (build_buckets shuffle members mass_threshold)
          × (b.targets ≡ [])
          × In m b.members
    unsent-In members m there unsent =
        let (old, has_message, e) = build_buckets_lem shuffle members mass_threshold fair in
        let new = In-keep is_unsent m (values members) unsent there in
        elim (Bool-cases (ltb mass_threshold (length (keep is_unsent (values members))))) [
          | inl many ↦ (
            record { targets = []; members = keep is_unsent (values members) },
            subst (In _) (sym e) (In-append_right _ old _ (rw many (inl refl))),
            refl,
            new,
          )
          | inr few ↦ (
            single m,
            subst (In _) (sym e) (In-append_right _ old _ (rw few (In-map single m _ new))),
            refl,
            inl refl,
          )
        ]

    send_group_posts :
        (g : AlertGroup) (m : GroupMember) (ch : Str) (log : Log)
        → In m (values g.members)
        → is_unsent m ≡ true
        → In ch (split_channels g.channel)
        → IsPosted token format_time g m ch
            (send_group respond token format_time shuffle mass_threshold g log).log
    unfolding send_group
    send_group_posts g m ch log there unsent wanted =
        let (b, made, new, holds) = unsent-In g.members m there unsent in
        (
          b,
          holds,
          process_buckets_posts respond token format_time some_token (style_of token format_time g)
              (split_channels g.channel) _ _ b ch made new wanted,
        )

    send_group-In :
        (q : Request) (g : AlertGroup) (log : Log)
        → In q log
        → In q (send_group respond token format_time shuffle mass_threshold g log).log
    unfolding send_group
    send_group-In q g log h =
        process_buckets-In respond token format_time some_token q (style_of token format_time g)
          (split_channels g.channel) _ _ h

    module _ (saves : Str → Bool) (save_time : Str → Time) where
      abbrev groups_log : List AlertGroup → Log → Table → Log
      groups_log gs log t =
          (process_groups respond token format_time shuffle mass_threshold saves save_time gs log
            t).0

      process_groups-In :
          (q : Request) (gs : List AlertGroup) (log : Log) (t : Table)
          → In q log
          → In q (groups_log gs log t)
      unfolding process_groups process_group
      process_groups-In q [] log t h = h
      process_groups-In q (g ∷ gs) log t h = process_groups-In q gs _ _ (send_group-In q g log h)

      process_groups_posts :
          (gs : List AlertGroup) (g : AlertGroup) (m : GroupMember) (ch : Str) (log : Log)
          (t : Table)
          → In g gs
          → In m (values g.members)
          → is_unsent m ≡ true
          → In ch (split_channels g.channel)
          → IsPosted token format_time g m ch (groups_log gs log t)
      unfolding process_groups process_group
      process_groups_posts [] g m ch log t here there unsent wanted = absurd here
      process_groups_posts (h ∷ gs) g m ch log t (inl e) there unsent wanted =
          let (b, holds, posted) = send_group_posts g m ch log there unsent wanted in
          (
            b,
            holds,
            process_groups-In _ gs _ _ (
                subst
                  (λ x.
                    In (new_message token format_time (style_of token format_time g) b ch)
                      (send_group respond token format_time shuffle mass_threshold x log).log)
                  e posted),
          )
      process_groups_posts (h ∷ gs) g m ch log t (inr later) there unsent wanted =
          process_groups_posts gs g m ch _ _ later there unsent wanted

      -- At a tick with a token and a claim that runs, each alert without a message of a due group
      -- that nobody else holds is posted to each channel of its group, in a message made from a
      -- bucket that holds it; where not more groups are due than one claim takes.
      pub flush_due_groups_posts :
          (locked : Str → Bool) (now : Time) (log : Log) (t : Table) (k : Str) (r : Row)
          (m : GroupMember) (ch : Str)
          → find_row k t ≡ some r
          → is_free locked now r ≡ true
          → length (keep (is_free locked now) t) ≤ flush_batch
          → In m (values (unmarshal_members r.members))
          → is_unsent m ≡ true
          → In ch (split_channels r.channel)
          → IsPosted token format_time
              (scan_group r)
              m
              ch
              (flush_due_groups respond token format_time shuffle mass_threshold locked true now
                saves save_time log t).0
      unfolding flush_due_groups scan_group
      flush_due_groups_posts locked now log t k r m ch found free few there unsent wanted =
          process_groups_posts _ (scan_group r) m ch log _
            (claim_due_groups-In locked flush_batch claim_lease now t r (find_row-In k t found) free
              few)
            there unsent wanted
