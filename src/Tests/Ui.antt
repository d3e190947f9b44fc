-- ===== src/Tests/Ui.antt =====
-- The web UI on concrete requests.
use alertory.Prelude.{true, List, [], ◌∷◌, Option, none, some, ◌≡◌, refl, arith}
use alertory.Text.{Str, str}
use alertory.Db.Rules.{Enrichment}
use alertory.Db.Rules.Table.{RuleTable}
use alertory.Db.Rules.Unique.{IsRuleTable}
use alertory.Db.Sessions.{WebSession, create_web_session}
use alertory.Auth.{
  Handshake, IdToken, Exchanged, verified, redirect, new_session, safe_return_to, callback_handler,
  Session,
}
use alertory.Auth.Login.{started, login_handler, callback-login}
use alertory.Http.Rules.{RuleForm, save_rule_handler}
use alertory.Http.Rules.Reach.{created, saved, Reached-IsRuleTable}
use alertory.Http.Settings.{broken}
use alertory.Http.Server.{post, sso}
use alertory.Http.Server.Serve.{World, Request, Ui, serve}
use alertory.Http.Server.Changes.{IsGuarded, serve-IsGuarded}
use alertory.Tests.Dashboard.{
  nowhere, no_labels_text, no_annotations_text, unordered, same_day, no_label,
}

abbrev token : IdToken
token = record {
  nonce = str "n";
  subject = str "u1";
  email = str "ops@example.com";
  name = str "Ops";
  preferred_username = [];
}

abbrev provider : Str → Str → Exchanged
provider code verifier = verified token

abbrev no_enrichments : Str → Option (List Enrichment)
no_enrichments text = some []

abbrev w : World
w = record {
  unmarshal = no_enrichments;
  marshal_indent = λ es. [];
  rules_by_name = λ rows. rows;
  by_created = λ keys. keys;
  sha256_hex = λ raw. raw;
  query_escape = λ s. s;
  slack = λ code uri. broken;
  oidc = provider;
  auth_code_url = λ state n v. state;
  parse_duration = λ v. none;
  ilike = nowhere;
  labels_text = no_labels_text;
  annotations_text = no_annotations_text;
  by_last_seen = unordered;
  names_in_order = λ names. names;
  day_of = same_day;
  label = no_label;
  env = record {
    client_id = [];
    client_secret = [];
    app_url = [];
    alert_retention = [];
    cleanup_interval = [];
  };
}

abbrev form : RuleForm
form = record {
  csrf_token = str "t";
  name = str "disk";
  channel = str "C1";
  team = [];
  target_label = [];
  match_labels = [];
  group_by = [];
  extra_fields = [];
  enrichments = [];
  enabled = str "on";
  display_title = [];
  notification_only = [];
}

abbrev request : Request
request = record {
  method = post;
  path = str "/ui/rules";
  session_cookie = some (str "s1");
  slack_cookie = none;
  handshake = record { state = none; nonce = none; verifier = none; return_to = none };
  query = record { state = []; error = []; code = [] };
  return_to = [];
  dashboard = record { status = []; alertname = []; search = []; page = [] };
  parsed = true;
  form = form;
  now = 9;
  db_today = 0;
  today = 0;
  state_token = none;
  nonce_token = none;
  verifier = [];
  tokens = none;
  draw = record { raw_key = none; id = none; writes = true; reads = true };
  reads_session = true;
  reads = true;
  reads_more = true;
  dashboard_reads = record { alerts = true; names = true; groups = true; history = true };
  writes = true;
  writes_more = true;
}

abbrev signed_in : Option Session
signed_in = some (record { subject = str "u1"; email = []; name = str "Ops"; csrf_token = str "t" })

abbrev no_rules : RuleTable
no_rules = record { rows = []; next_id = 1 }

abbrev session : WebSession
session = new_session token (str "s1") (str "t") 9

abbrev tables : Ui
tables = record {
  rules = no_rules;
  keys = [];
  providers = [];
  sessions = session ∷ [];
  alerts = record { active = []; events = [] };
  groups = [];
}

serve-IsGuarded_example : IsGuarded sso request tables (serve w sso request tables).1
serve-IsGuarded_example = serve-IsGuarded w sso request tables

Reached-IsRuleTable_example :
    IsRuleTable (save_rule_handler no_enrichments true signed_in [] form true no_rules).1
Reached-IsRuleTable_example =
    Reached-IsRuleTable no_enrichments (saved true signed_in [] form true created)

callback-login_example :
    (h : Handshake) × (login_handler
        (λ state n v. state)
        (some (str "s"))
        (some (str "n"))
        (str "v")
        (str "/ui/")
      ≡ started h (str "s"))
    × (callback_handler provider h
          (record { state = str "s"; error = []; code = str "c" })
          (some (str "s1", str "t"))
          true
          9
          []
        ≡ (redirect (safe_return_to (str "/ui/")) (str "s1"), session ∷ []))
unfolding create_web_session str
callback-login_example =
    callback-login (λ state n v. state) provider (str "s") (str "n") (str "v") (str "/ui/")
      (str "c") (str "s1") (str "t") token 9 [] (session ∷ []) (λ h. ground arith)
      (λ h. ground arith) refl refl refl
