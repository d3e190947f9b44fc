-- ===== src/Tests/Data.antt =====
-- Alerts, groups and a Slack that accepts everything.
use alertory.Prelude.{true, false, List, [], ◌∷◌, none}
use alertory.Text.{Str, str}
use alertory.Map.{Map}
use alertory.Clock.{Time}
use alertory.Slack.{Respond, decoded}
use alertory.Db.Member.{NotifiedTarget, GroupMember}
use alertory.Db.Groups.{AlertGroup, GroupInfo}
use alertory.Workflows.Batching.{Bucket}

-- An alert that has never been sent.
abbrev pub alert : Str → Str → GroupMember
alert fingerprint status = record {
  fingerprint = fingerprint;
  alertname = str "DiskFull";
  status = status;
  target = [];
  starts_at = 5;
  ends_at = none;
  updated_at = 7;
  display_title = [];
  display_fields = [];
  notified_targets = [];
  notified_status = [];
}

abbrev pub firing : GroupMember
firing = alert (str "f1") (str "firing")

abbrev pub second_firing : GroupMember
second_firing = alert (str "f2") (str "firing")

abbrev pub sent_target : NotifiedTarget
sent_target = record { channel = str "C1"; api_channel = []; ts = str "1.0" }

-- The alert after a flush.
abbrev pub sent : GroupMember
sent = record firing { notified_targets = sent_target ∷ []; notified_status = str "firing" }

abbrev pub group_of : Map GroupMember → AlertGroup
group_of members = record {
  group_key = str "disk:0";
  rule_name = str "disk";
  channel = str "C1, U2";
  team = str "ops";
  notification_only = false;
  members = members;
  attempts = 0;
}

abbrev pub fresh_group : AlertGroup
fresh_group = group_of ((str "f1", firing) ∷ (str "f2", second_firing) ∷ [])

abbrev pub accepting : Respond
accepting log request = decoded true [] request.channel (str "1.0")

abbrev pub refusing : Respond
refusing log request = decoded false (str "invalid_auth") [] []

abbrev pub in_order : List Bucket → List Bucket
in_order buckets = buckets

abbrev pub no_time : Time → Str
no_time t = str "then"

abbrev pub info : GroupInfo
info = record {
  group_key = str "disk:0";
  rule_name = str "disk";
  channel = str "C1, U2";
  team = str "ops";
  notification_only = false;
}
