-- ===== src/Http/Server/Serve.antt =====
-- The web UI as `NewServer` composes it: the route of a request, its guard, and its handler on the
-- tables. `World` is what the handlers rely on outside the repository.
use alertory.Prelude.{ℕ, ◌++◌, Bool, List, [], Option, none, some, if◌then◌else◌}
use alertory.Text.{Str, str, ◌==◌}
use alertory.Map.{Map}
use alertory.Clock.{Time, Duration}
use alertory.Db.Rules.{Enrichment}
use alertory.Db.Rules.Table.{RuleRow, RuleTable}
use alertory.Db.ApiKeys.{ApiKeys}
use alertory.Db.Providers.{Providers}
use alertory.Db.Sessions.{Sessions}
use alertory.Db.Alerts.{ActiveAlert, Alerts}
use alertory.Db.Groups.{Table}
use alertory.Auth.{
  Session, Passage, to_login, passes, Handshake, Query, Exchanged, Answer, Tokens, require_auth,
  callback_handler, logout_handler,
}
use alertory.Auth.Login.{Started, login_handler, dev_session}
use alertory.Http.Reply.{Reply, status, redirect}
use alertory.Http.Rules.{
  RuleForm, RuleFormData, RulesPage, rules_list_handler, new_rule_form_handler,
  edit_rule_form_handler, save_rule_handler, delete_rule_handler,
}
use alertory.Http.ApiKeys.{
  ApiKeysPage, Draw, api_keys_list_handler, create_api_key_handler, delete_api_key_handler,
}
use alertory.Http.Settings.{
  SlackEnv, SettingsPage, Exchange, settings_handler, slack_authorize_handler, slack_oauth_callback,
}
use alertory.Http.Dashboard.{DashboardData, DashboardQuery, Reads, dashboard_handler, history_days}
use alertory.Http.Server.{
  Method, Endpoint, home, login, callback, logout, slack_authorize, slack_callback, dashboard,
  rules_list, new_rule, edit_rule, save_rule, delete_rule, settings, api_keys_list, create_api_key,
  delete_api_key, Route, Mode, disabled, sso, bypass, routes, match_route, segments,
}

pub record World : Type 0 where
  pub unmarshal : Str → Option (List Enrichment)
  pub marshal_indent : List Enrichment → Str
  pub rules_by_name : List RuleRow → List RuleRow
  pub by_created : ApiKeys → ApiKeys
  pub sha256_hex : Str → Str
  pub query_escape : Str → Str
  pub slack : Str → Str → Exchange
  pub oidc : Str → Str → Exchanged
  pub auth_code_url : Str → Str → Str → Str
  pub parse_duration : Str → Option (Bool × Duration)
  pub ilike : Str → Str → Bool
  pub labels_text : Map Str → Str
  pub annotations_text : Option (Map Str) → Str
  pub by_last_seen : List ActiveAlert → List ActiveAlert
  pub names_in_order : List Str → List Str
  pub day_of : Time → ℕ
  pub label : ℕ → Str
  pub env : SlackEnv

-- A request: what it carries, what its handler draws and which of its statements run.
pub record Request : Type 0 where
  pub method : Method
  pub path : Str
  pub session_cookie : Option Str
  pub slack_cookie : Option Str
  pub handshake : Handshake
  pub query : Query
  pub return_to : Str
  pub dashboard : DashboardQuery
  pub parsed : Bool
  pub form : RuleForm
  pub now : Time
  pub db_today : ℕ
  pub today : ℕ
  pub state_token : Option Str
  pub nonce_token : Option Str
  pub verifier : Str
  pub tokens : Tokens
  pub draw : Draw
  pub reads_session : Bool
  pub reads : Bool
  pub reads_more : Bool
  pub dashboard_reads : Reads
  pub writes : Bool
  pub writes_more : Bool

-- The tables that the web UI reads and writes.
pub record Ui : Type 0 where
  pub rules : RuleTable
  pub keys : ApiKeys
  pub providers : Providers
  pub sessions : Sessions
  pub alerts : Alerts
  pub groups : Table

-- The answer of the handler that served.
pub data Served : Type 0 where
  plain : Reply ⊥ → Served
  rules_page : Reply RulesPage → Served
  form_page : Reply RuleFormData → Served
  keys_page : Reply ApiKeysPage → Served
  settings_page : Reply SettingsPage → Served
  dashboard_page : Reply DashboardData → Served
  slack_started : Reply ⊥ × Option Str → Served
  login_started : Started → Served
  login_ended : Answer → Served

-- redirectToLogin
abbrev pub to_login_page : World → Str → Served
to_login_page w path = plain (redirect (str "/ui/auth/login?return_to=" ++ w.query_escape path))

-- The handler of an endpoint, with the id of the path and the session of the context.
unfoldable pub handle : World → Mode → Endpoint → Str → Option Session → Request → Ui → Served × Ui
unfolding rules_list_handler new_rule_form_handler edit_rule_form_handler save_rule_handler
    delete_rule_handler api_keys_list_handler create_api_key_handler delete_api_key_handler
    settings_handler slack_authorize_handler slack_oauth_callback dashboard_handler history_days
    login_handler callback_handler logout_handler
handle w mode home i session r u =
    (plain (if r.path == str "/" then redirect (str "/ui/") else status 404), u)
handle w mode login i session r u = (
  login_started (login_handler w.auth_code_url r.state_token r.nonce_token r.verifier r.return_to),
  u,
)
handle w mode callback i session r u =
    let (answer, t) =
      callback_handler w.oidc r.handshake r.query r.tokens r.writes r.now u.sessions in
    (login_ended answer, record u { sessions = t })
handle w sso logout i session r u = (
  plain (redirect (str "/")),
  record u { sessions = logout_handler r.session_cookie r.writes u.sessions },
)
handle w mode logout i session r u = (plain (redirect (str "/ui/")), u)
handle w mode slack_authorize i session r u =
    (slack_started (slack_authorize_handler w.query_escape w.env r.state_token), u)
handle w mode slack_callback i session r u =
    let (reply, t) =
      slack_oauth_callback w.slack w.env r.slack_cookie r.query.state r.query.code r.writes
        r.writes_more u.providers in
    (plain reply, record u { providers = t })
handle w mode dashboard i session r u = (
  dashboard_page (
      dashboard_handler w.ilike w.labels_text w.annotations_text w.by_last_seen w.names_in_order
        w.day_of w.label session r.dashboard r.dashboard_reads
        (history_days w.parse_duration w.env.alert_retention) r.db_today r.today u.alerts u.groups),
  u,
)
handle w mode rules_list i session r u =
    (rules_page (rules_list_handler w.rules_by_name session r.reads u.rules), u)
handle w mode new_rule i session r u = (form_page (new_rule_form_handler session), u)
handle w mode edit_rule i session r u =
    (form_page (edit_rule_form_handler w.marshal_indent session i r.reads u.rules), u)
handle w mode save_rule i session r u =
    let (reply, t) = save_rule_handler w.unmarshal r.parsed session i r.form r.writes u.rules in
    (plain reply, record u { rules = t })
handle w mode delete_rule i session r u =
    let (reply, t) = delete_rule_handler r.parsed session r.form.csrf_token i r.writes u.rules in
    (plain reply, record u { rules = t })
handle w mode settings i session r u =
    (settings_page (settings_handler w.env session r.reads r.reads_more u.providers), u)
handle w mode api_keys_list i session r u =
    (keys_page (api_keys_list_handler w.by_created session r.reads u.keys), u)
handle w mode create_api_key i session r u =
    let (reply, t) =
      create_api_key_handler w.by_created w.sha256_hex r.parsed session r.form.csrf_token
        r.form.name r.draw u.keys in
    (keys_page reply, record u { keys = t })
handle w mode delete_api_key i session r u =
    let (reply, t) = delete_api_key_handler r.parsed session r.form.csrf_token i r.writes u.keys in
    (plain reply, record u { keys = t })

-- `wrap`: the session of a guarded request.
unfoldable pub passage : Mode → Request → Ui → Passage
unfolding require_auth
passage bypass r u = passes dev_session
passage mode r u = require_auth r.session_cookie r.reads_session r.now u.sessions

unfoldable pub serve_route : World → Mode → Route → Str → Request → Ui → Served × Ui
unfolding handle passage
serve_route w mode route i r u =
    if route.guarded
    then elim (passage mode r u) [
      | to_login ↦ (to_login_page w r.path, u)
      | passes session ↦ handle w mode route.endpoint i (some session) r u
    ]
    else handle w mode route.endpoint i none r u

-- What no route matches goes to "/".
unfoldable pub serve_found : World → Mode → Option (Route × Str) → Request → Ui → Served × Ui
unfolding serve_route
serve_found w mode none r u = handle w mode home [] none r u
serve_found w mode (some (route, i)) r u = serve_route w mode route i r u

-- Any request that is not the webhook's or a probe's.
unfoldable pub serve : World → Mode → Request → Ui → Served × Ui
unfolding serve_found match_route routes segments
serve w disabled r u = (plain (status 503), u)
serve w mode r u = serve_found w mode (match_route r.method (segments r.path) (routes mode)) r u
