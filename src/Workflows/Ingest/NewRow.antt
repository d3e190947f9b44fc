-- ===== src/Workflows/Ingest/NewRow.antt =====
-- The row of a new group: what it holds of an alert, and when it is free.
use alertory.Prelude.{
  ◌+◌, ◌≤◌, Bool, true, false, [], ◌∷◌, Option, ◌≡◌, inl, refl, sym, In, le→leb, if◌then◌else◌,
}
use alertory.Text.{Str, str}
use alertory.Map.{Map, values}
use alertory.Clock.{Time, Duration, interval}
use alertory.Slack.{is_empty}
use alertory.Db.Member.{GroupMember, marshal, unmarshal-marshal}
use alertory.Db.Groups.{Row, is_due, unmarshal_members}
use alertory.Db.Groups.Claim.{is_free}
use alertory.Db.Rules.{WorkflowRule, AlertUpsert}
use alertory.Workflows.Rules.{label_of, entries, render_display_title}
use alertory.Workflows.Batching.Threshold.{is_unsent}
use alertory.Workflows.Ingest.{resolve_display_fields}

-- The member that a rule makes of an alert: what the alert says, the label that the rule names as
-- the target, the title and the fields that the rule asks for; nothing has been sent.
abbrev pub IsMember :
    (Str → Str → Bool)
    → (Str → Map Str → Option (Map Str) → Option Str)
    → WorkflowRule
    → AlertUpsert
    → GroupMember
    → Type 0
IsMember equal_fold render rule a m =
    (m.fingerprint ≡ a.fingerprint)
    × (m.alertname ≡ a.alertname)
    × (m.status ≡ (if rule.notification_only then str "resolved" else a.status))
    × (m.target ≡ (if is_empty rule.target_label then [] else label_of a.labels rule.target_label))
    × (m.starts_at ≡ a.starts_at)
    × (m.ends_at ≡ a.ends_at)
    × (m.display_title ≡ render_display_title render rule.display_title a)
    × (m.display_fields
        ≡ resolve_display_fields equal_fold rule.extra_fields (entries a.annotations) a.labels)
    × (m.notified_targets ≡ [])
    × (m.notified_status ≡ [])

-- The row is a new one of the rule, whose only member is one that passes the test.
abbrev pub IsNewRow : Duration → Time → WorkflowRule → Str → (GroupMember → Type 0) → Row → Type 0
IsNewRow debounce now rule key IsIts r =
    (m : GroupMember) × (r.members ≡ (m.fingerprint, marshal m) ∷ [])
    × IsIts m
    × (is_unsent m ≡ true)
    × (r.group_key ≡ key)
    × (r.channel ≡ rule.channel)
    × (r.dirty ≡ true)
    × (r.flush_after ≡ now + interval debounce)
    × (r.team ≡ rule.team)
    × (r.notification_only ≡ rule.notification_only)

-- A new row is free once the debounce is over.
pub IsNewRow-free :
    (debounce : Duration) (made now : Time) (rule : WorkflowRule) (key : Str)
    (IsIts : GroupMember → Type 0) (locked : Str → Bool) (r : Row)
    → IsNewRow debounce made rule key IsIts r
    → made + interval debounce ≤ now
    → locked key ≡ false
    → is_free locked now r ≡ true
unfolding is_due
IsNewRow-free debounce made now rule key IsIts locked r
      (m, members, its, unsent, group, channel, dirty, due, team, quiet) late open_row =
    rw (dirty, group, open_row, due, le→leb (made + interval debounce) now late) refl

-- The member of a new row, as a claim reads it.
pub IsNewRow-member :
    (debounce : Duration) (made : Time) (rule : WorkflowRule) (key : Str)
    (IsIts : GroupMember → Type 0) (r : Row)
    → IsNewRow debounce made rule key IsIts r
    → (m : GroupMember) × In m (values (unmarshal_members r.members))
      × IsIts m
      × (is_unsent m ≡ true)
unfolding unmarshal_members values
IsNewRow-member debounce made rule key IsIts r
      (m, members, its, unsent, group, channel, dirty, due, team, quiet) =
    (m, rw members (inl (sym (unmarshal-marshal m))), its, unsent)
