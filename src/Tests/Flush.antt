-- ===== src/Tests/Flush.antt =====
-- Flushes of concrete groups.
use mathlib.Core.List.{Perm}
use mathlib.Core.List.Perm
use alertory.Prelude.{
  false, List, [], ◌∷◌, ◌++◌, none, some, ◌≡◌, refl, length, any, keep, ltb, map, ◌⊎◌,
  if◌then◌else◌,
}
use alertory.Text.{str, ◌==◌}
use alertory.Text.Parts.{split, trim_space, is_space}
use alertory.Map.{get, values}
use alertory.Slack.{is_empty, post, send}
use alertory.Db.Member.{GroupMember}
use alertory.Workflows.Batching.{Bucket, build_buckets, bucket_changed}
use alertory.Workflows.Batching.Partition.{all_members, build_buckets_partition}
use alertory.Workflows.Batching.Threshold.{is_unsent, is_new, single, build_buckets_lem}
use alertory.Workflows.Channels.{split_channels}
use alertory.Workflows.Flush.{Flush, send_group, process_buckets, deliver}
use alertory.Workflows.Flush.Deliver.{channels_of}
use alertory.Workflows.Flush.Requests.{requests_for, deliver_calls}
use alertory.Workflows.Flush.Stands.{unmarked}
use alertory.Workflows.Flush.Repeat.{send_group_success, send_group_again, flushed}
use alertory.Tests.Data.{accepting, refusing, in_order, no_time, fresh_group, sent_target, firing}

fresh_flush : Flush
fresh_flush = send_group accepting (str "t") no_time in_order 5 fresh_group []

-- Two alerts, two channels: four calls, and no error.
fresh_flush_calm : (fresh_flush.send_error ≡ none) × (length fresh_flush.log ≡ 4)
unfolding fresh_flush send_group process_buckets build_buckets bucket_changed split_channels split
    trim_space deliver str is_space get post send
fresh_flush_calm = (refl, refl)

-- A refused token is an error.
refused_flush :
    (send_group refusing (str "t") no_time in_order 5 fresh_group []).send_error
    ≡ some (str "slack API error: invalid_auth")
unfolding send_group process_buckets build_buckets bucket_changed split_channels split trim_space
    deliver str is_space get post send
refused_flush = refl

send_group_again_example :
    (send_group accepting
      (str "t")
      no_time
      in_order
      5
      (flushed accepting (str "t") no_time in_order 5 fresh_group [])
      []).log
    ≡ []
unfolding str fresh_flush get ◌==◌
send_group_again_example =
    send_group_again accepting (str "t") no_time in_order 5 fresh_group [] [] Perm.refl
      (refl, refl, (refl, refl, tt)) (fresh_flush_calm.0)

send_group_success_example :
    (m' : GroupMember) × (get
        (str "f1")
        (send_group accepting (str "t") no_time in_order 5 fresh_group []).members
      ≡ some m')
    × (unmarked m' ≡ unmarked firing)
    × (m'.notified_status ≡ m'.status)
    × (((m' ≡ firing) × (is_unsent firing ≡ false))
        ⊎ (channels_of m'.notified_targets ≡ split_channels fresh_group.channel))
unfolding str fresh_flush get ◌==◌
send_group_success_example =
    send_group_success accepting (str "t") no_time in_order 5 fresh_group [] (str "f1") firing
      Perm.refl (refl, refl, (refl, refl, tt)) (fresh_flush_calm.0) refl

build_buckets_partition_example :
    Perm (all_members (build_buckets in_order fresh_group.members 5)) (values fresh_group.members)
build_buckets_partition_example = build_buckets_partition in_order fresh_group.members 5 Perm.refl

build_buckets_lem_example :
    (old : List Bucket) × (any is_new old ≡ false)
    × (build_buckets in_order fresh_group.members 1
        ≡ old
          ++ (if ltb 1 (length (keep is_unsent (values fresh_group.members)))
              then record { targets = []; members = keep is_unsent (values fresh_group.members) }
                ∷ []
              else map single (keep is_unsent (values fresh_group.members))))
build_buckets_lem_example = build_buckets_lem in_order fresh_group.members 1 Perm.refl

deliver_calls_example :
    (deliver accepting
      (str "t")
      []
      []
      ((str "C1", sent_target) ∷ [])
      (str "C1" ∷ str "U2" ∷ [])
      (record { new_targets = []; bucket_error = none; log = [] })).log
    ≡ requests_for (str "t") [] [] ((str "C1", sent_target) ∷ []) (str "C1" ∷ str "U2" ∷ []) []
unfolding str is_empty get ◌==◌
deliver_calls_example =
    deliver_calls (str "t") [] [] ((str "C1", sent_target) ∷ []) accepting
      (str "C1" ∷ str "U2" ∷ []) (record { new_targets = []; bucket_error = none; log = [] }) refl
      (refl, (tt, tt))
