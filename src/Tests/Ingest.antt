-- ===== src/Tests/Ingest.antt =====
-- The webhook and the ingestion of alerts on concrete data.
use alertory.Prelude.{
  ◌*◌, arith, true, false, List, [], ◌∷◌, ◌++◌, Option, none, some, ◌≡◌, ◌≢◌, ◌↔◌, ◌⊎◌, refl, All,
}
use alertory.Text.{Str, str, ◌==◌}
use alertory.Text.Parts.{join, sort_strings}
use alertory.Text.Trim.{Lacks}
use alertory.Map.{Map, get}
use alertory.Clock.{Time, second}
use alertory.Db.Groups.{Row, inserted_row, find_row}
use alertory.Db.Rules.{WorkflowRule, AlertUpsert, matches}
use alertory.Db.Alerts.{ActiveAlert, find_alert, batch_upsert_alerts}
use alertory.Db.Alerts.Known.{Records, find_alert-batch}
use alertory.Db.ApiKeys.{ApiKeys, create_api_key, delete_api_key}
use alertory.Workflows.Channels.{split_channels}
use alertory.Workflows.Rules.{
  Call, Fetched, fetched, label_of, group_keys, group_text, compute_group_key,
}
use alertory.Workflows.Rules.Keys.{Agree, compute_group_key_iff}
use alertory.Workflows.Ingest.{Saving, Ingest, member_of, process_alert}
use alertory.Workflows.Ingest.Groups.{Waits, process_alert-Waits, find_row-process_alert_other}
use alertory.Http.Forms.{normalize_channel_list}
use alertory.Http.Forms.Lists.{split_channels-normalize_channel_list}
use alertory.Http.Webhook.{bearer, Works, check_webhook_auth}
use alertory.Http.Webhook.Access.{
  IsToken, IsKey, IsOpen, check_webhook_auth_iff, check_webhook_auth_revoke,
}

abbrev raw_list : Str
raw_list = str " C1, ,C2,C1 "

split_channels-normalize_channel_list_example :
    split_channels (normalize_channel_list (str " C1, ,C2,C1 "))
    ≡ split_channels (str " C1, ,C2,C1 ")
split_channels-normalize_channel_list_example = split_channels-normalize_channel_list raw_list

abbrev pub labels_of : Str → Map Str
labels_of name = (str "alertname", name) ∷ (str "host", str "db1") ∷ []

abbrev pub rule : WorkflowRule
rule = record {
  name = str "r";
  match_labels = (str "host", str "db1") ∷ [];
  channel = str "C";
  team = str "ops";
  target_label = str "host";
  group_by = [];
  extra_fields = [];
  enrichments = [];
  enabled = true;
  display_title = [];
  notification_only = false;
}

abbrev pub same : Str → Str
same s = s

alertname-Lacks : Lacks b',' (str "alertname")
unfolding str
alertname-Lacks = ground arith

compute_group_key_iff_example :
    (compute_group_key same rule (labels_of (str "A"))
      ≡ compute_group_key same rule (labels_of (str "B")))
    ↔ All (Agree (labels_of (str "A")) (labels_of (str "B"))) (group_keys [])
unfolding group_keys label_of group_text sort_strings get str ◌==◌ join
compute_group_key_iff_example =
    compute_group_key_iff rule (labels_of (str "A")) (labels_of (str "B")) same
      ((alertname-Lacks, (refl, tt)), tt) ((alertname-Lacks, (refl, tt)), tt) (λ h. h)

abbrev pub alert : AlertUpsert
alert = record {
  fingerprint = str "f1";
  alertname = str "A";
  status = str "firing";
  starts_at = 7;
  ends_at = none;
  labels = labels_of (str "A");
  annotations = none;
}

abbrev pub saving : Str → Saving
saving name = record { updated_at = 5; now = 6; saves = true }

abbrev pub before_alert : Ingest
before_alert = record { alert = alert; calls = []; table = [] }

abbrev pub unrendered : Str → Map Str → Option (Map Str) → Option Str
unrendered tmpl labels annotations = some tmpl

abbrev pub no_object : Map Str → Str
no_object m = []

abbrev pub answering : List Call → Call → Fetched Str
answering calls call = fetched []

process_alert-Waits_example :
    (r : Row) × (find_row
        (compute_group_key same rule (labels_of (str "A")))
        (process_alert ◌==◌ same unrendered
          (8 * second)
          (45 * second)
          same
          []
          no_object
          answering
          ([] ++ (rule ∷ []))
          true
          saving
          before_alert).table
      ≡ some r)
    × Waits (str "f1") (str "firing") r
unfolding matches get str ◌==◌
process_alert-Waits_example =
    process_alert-Waits ◌==◌ same unrendered (8 * second) (45 * second) same [] no_object answering
      [] [] rule true saving before_alert refl refl tt

-- The alert makes a row of its own beside this one.
abbrev other_row : Row
other_row =
    record (inserted_row
      (record {
        group_key = str "q";
        rule_name = str "q";
        channel = str "C9";
        team = [];
        notification_only = false;
      })
      (member_of ◌==◌ same unrendered rule alert 1) (8 * second) (45 * second) 2) { attempts = 3 }

key_other : compute_group_key same rule (labels_of (str "A")) ≢ str "q"
unfolding compute_group_key str
key_other = ground arith

find_row-process_alert_other_example :
    find_row
      (str "q")
      (process_alert ◌==◌ same unrendered
        (8 * second)
        (45 * second)
        same
        []
        no_object
        answering
        (rule ∷ [])
        true
        saving
        (record before_alert { table = other_row ∷ [] })).table
    ≡ find_row (str "q") (other_row ∷ [])
unfolding compute_group_key
find_row-process_alert_other_example =
    find_row-process_alert_other ◌==◌ same unrendered (8 * second) (45 * second) same [] no_object
      answering (rule ∷ []) true saving (str "q") (record before_alert { table = other_row ∷ [] })
      (λ fits. key_other, tt)

abbrev exact : Time → Time
exact t = t

abbrev exact_end : Option Time → Option Time
exact_end t = t

find_alert-batch_example :
    (r : ActiveAlert) × (find_alert
        (str "f1")
        (batch_upsert_alerts exact exact_end
          ([] ++ (alert ∷ []))
          9
          (record { active = []; events = [] })).active
      ≡ some r)
    × Records exact exact_end alert 9 r
find_alert-batch_example =
    find_alert-batch exact exact_end [] [] alert 9 (record { active = []; events = [] }) tt

abbrev works : Works
works = record { lookup = true; count = true }

check_webhook_auth_iff_example :
    (check_webhook_auth same (str "Bearer t") (str "t") works [] ≡ true) ↔ (
      IsToken (str "Bearer t") (str "t")
      ⊎ (IsKey same (str "Bearer t") works [] ⊎ IsOpen (str "Bearer t") (str "t") works []))
check_webhook_auth_iff_example = check_webhook_auth_iff same (str "Bearer t") (str "t") works []

abbrev issued : ApiKeys
issued = record { id = str "1"; name = str "ci"; key_hash = str "k" } ∷ []

check_webhook_auth_revoke_example :
    (check_webhook_auth same (bearer ++ str "k") [] works issued ≡ true)
    × ((supplied : Str)
        → check_webhook_auth same supplied [] works (delete_api_key (str "1") issued)
          ≡ check_webhook_auth same supplied [] works [])
unfolding create_api_key str
check_webhook_auth_revoke_example =
    check_webhook_auth_revoke same (str "1") (str "ci") (str "k") [] works [] issued refl
      (λ h. ground arith) refl
