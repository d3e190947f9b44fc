-- ===== src/Workflows/Ingest.antt =====
-- `ProcessAlert` of internal/workflows/rules.go: the members that an incoming alert becomes.
pub mod Keeps
pub mod Groups
pub mod NewRow
pub mod Inserts
use alertory.Prelude.{
  Bool, true, false, not, ◌&&◌, ◌||◌, List, [], ◌∷◌, Option, none, some, if◌then◌else◌,
}
use alertory.Text.{Str, str, ◌==◌}
use alertory.Map.{Map, get}
use alertory.Clock.{Time, Duration}
use alertory.Slack.{is_empty}
use alertory.Db.Member.{MemberField, GroupMember}
use alertory.Db.Groups.{Table, GroupInfo, upsert_group_member}
use alertory.Db.Rules.{RuleField, WorkflowRule, AlertUpsert, matches}
use alertory.Workflows.Message.{truncate_value, max_field_value_len}
use alertory.Workflows.Rules.{
  Call, Fetched, label_of, entries, compute_group_key, enrich_alert, render_display_title,
}

-- The time of `time.Now()` for a rule's member, and the time and the success of its statement.
pub record Saving : Type 0 where
  pub updated_at : Time
  pub now : Time
  pub saves : Bool

-- The alert as the enrichments leave it, the calls, and the table.
pub record Ingest : Type 0 where
  pub alert : AlertUpsert
  pub calls : List Call
  pub table : Table

module _ (equal_fold : Str → Str → Bool) where
  -- The first entry whose value holds text and whose key is equal but for its case.
  unfoldable pub lookup_folded : Map Str → Str → Str
  unfolding is_empty
  lookup_folded [] key = []
  lookup_folded ((k, v) ∷ m) key =
      let rest = lookup_folded m key in if not (is_empty v) && equal_fold k key then v else rest

  unfoldable pub lookup_key : Map Str → Str → Str
  unfolding is_empty label_of lookup_folded
  lookup_key m key = if is_empty (label_of m key) then lookup_folded m key else label_of m key

  unfoldable pub field_value : Map Str → Map Str → Str → Str
  unfolding is_empty lookup_key
  field_value annotations labels key =
      let v = lookup_key annotations key in if is_empty v then lookup_key labels key else v

  unfoldable pub resolve_display_fields : List RuleField → Map Str → Map Str → List MemberField
  unfolding is_empty field_value truncate_value
  resolve_display_fields [] annotations labels = []
  resolve_display_fields (f ∷ fields) annotations labels =
      let v = field_value annotations labels f.annotation_key in
      let rest = resolve_display_fields fields annotations labels in
      if is_empty v
      then rest
      else record { title = f.title; value = truncate_value v max_field_value_len } ∷ rest

  module _ (sha1_hex : Str → Str) (render : Str → Map Str → Option (Map Str) → Option Str) where
    unfoldable pub member_of : WorkflowRule → AlertUpsert → Time → GroupMember
    unfolding is_empty label_of resolve_display_fields render_display_title
    member_of rule alert updated_at = record {
      fingerprint = alert.fingerprint;
      alertname = alert.alertname;
      status = if rule.notification_only then str "resolved" else alert.status;
      target = if is_empty rule.target_label then [] else label_of alert.labels rule.target_label;
      starts_at = alert.starts_at;
      ends_at = alert.ends_at;
      updated_at = updated_at;
      display_title = render_display_title render rule.display_title alert;
      display_fields =
          resolve_display_fields rule.extra_fields (entries alert.annotations) alert.labels;
      notified_targets = [];
      notified_status = [];
    }

    unfoldable pub info_of : WorkflowRule → Map Str → GroupInfo
    unfolding compute_group_key
    info_of rule labels = record {
      group_key = compute_group_key sha1_hex rule labels;
      rule_name = rule.name;
      channel = rule.channel;
      team = rule.team;
      notification_only = rule.notification_only;
    }

    module _ (debounce max_window : Duration) where
      -- The statement for a rule; one that fails is logged and changes nothing.
      unfoldable pub save_member : WorkflowRule → AlertUpsert → Saving → Table → Table
      unfolding member_of info_of upsert_group_member
      save_member rule alert saving t =
          if saving.saves
          then upsert_group_member (info_of rule alert.labels)
              (member_of rule alert saving.updated_at) debounce max_window saving.now t
          else t

      module _ {Json : Type 0} (show : Json → Str) (nil_json : Json) (object : Map Json → Json)
          (fetch : List Call → Call → Fetched Json) where
        unfoldable pub enriched :
            WorkflowRule → Bool → AlertUpsert → List Call → AlertUpsert × List Call
        unfolding enrich_alert
        enriched rule is_new alert calls =
            if is_new && (alert.status == str "firing" || rule.notification_only)
            then enrich_alert render show nil_json object fetch rule.enrichments alert calls
            else (alert, calls)

        unfoldable pub process_rule : WorkflowRule → Bool → Saving → Ingest → Ingest
        unfolding enriched save_member
        process_rule rule is_new saving s =
            let (alert, calls) = enriched rule is_new s.alert s.calls in
            record { alert = alert; calls = calls; table = save_member rule alert saving s.table }

        -- The loop over the rules; `saving` tells of each rule's statement, by the rule's name.
        unfoldable pub process_alert : List WorkflowRule → Bool → (Str → Saving) → Ingest → Ingest
        unfolding process_rule matches
        process_alert [] is_new saving s = s
        process_alert (rule ∷ rules) is_new saving s = process_alert rules is_new saving (
            if matches rule s.alert.labels
            then process_rule rule is_new (saving rule.name) s
            else s)
