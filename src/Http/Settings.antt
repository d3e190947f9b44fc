-- ===== src/Http/Settings.antt =====
-- internal/http/webui.go: the settings page. internal/http/handlers.go: the connection of Slack by
-- OAuth. An environment variable that is not set is "".
use alertory.Prelude.{Bool, true, not, ◌||◌, ◌&&◌, Option, none, some, ◌++◌, if◌then◌else◌}
use alertory.Text.{Str, str, ◌==◌}
use alertory.Slack.{is_empty}
use alertory.Db.Providers.{Providers, upsert_provider_setting, get_provider_setting}
use alertory.Auth.{Session}
use alertory.Http.Reply.{Reply, status, redirect, rendered}
use alertory.Http.Rules.{current_user}

-- The environment that these handlers read.
pub record SlackEnv : Type 0 where
  pub client_id : Str
  pub client_secret : Str
  pub app_url : Str
  pub alert_retention : Str
  pub cleanup_interval : Str

pub record SettingsPage : Type 0 where
  pub user : Str
  pub connected : Bool
  pub team_name : Str
  pub connect_available : Bool
  pub retention : Str
  pub cleanup_interval : Str

unfoldable pub env_or_default : Str → Str → Str
unfolding is_empty
env_or_default v def = if is_empty v then def else v

-- `reads_token` and `reads_team` say whether the two queries succeed.
unfoldable pub settings_handler :
    SlackEnv → Option Session → Bool → Bool → Providers → Reply SettingsPage
unfolding get_provider_setting is_empty env_or_default current_user
settings_handler env session reads_token reads_team t = rendered (record {
  user = current_user session;
  connected =
      not (is_empty (get_provider_setting (str "slack") (str "access_token") reads_token t));
  team_name = get_provider_setting (str "slack") (str "team_name") reads_team t;
  connect_available = not (is_empty env.client_id) && not (is_empty env.app_url);
  retention = env_or_default env.alert_retention (str "168h");
  cleanup_interval = env_or_default env.cleanup_interval (str "1h");
})

-- What Slack answers to the exchange of a code: an error of the client, a body that does not
-- decode, or a result.
pub data Exchange : Type 0 where
  broken undecodable : Exchange
  refused : Str → Exchange
  granted : Str → Str → Exchange

abbrev pub redirect_uri : Str → Str
redirect_uri app_url = app_url ++ str "/ui/providers/oauth2/slack"

module _ (query_escape : Str → Str) where
  -- The state of the cookie that is set, if one is, and the answer; `state` is the random token.
  unfoldable pub slack_authorize_handler : SlackEnv → Option Str → Reply ⊥ × Option Str
  unfolding is_empty
  slack_authorize_handler env state =
      if is_empty env.client_id || is_empty env.app_url then (status 500, none) else elim state [
        | none ↦ (status 500, none)
        | some token ↦ (
          redirect (
              str "https://slack.com/oauth/v2/authorize?client_id="
              ++ query_escape env.client_id
              ++ str "&scope=chat:write&state="
              ++ query_escape token
              ++ str "&redirect_uri="
              ++ query_escape (redirect_uri env.app_url)),
          some token,
        )
      ]

-- The team's name is kept only if there is one, and an error of that statement is dropped.
unfoldable pub save_slack : Exchange → Bool → Bool → Providers → Reply ⊥ × Providers
unfolding upsert_provider_setting is_empty
save_slack broken saves_token saves_team t = (status 500, t)
save_slack undecodable saves_token saves_team t = (status 500, t)
save_slack (refused error) saves_token saves_team t = (status 400, t)
save_slack (granted token team) saves_token saves_team t =
    if saves_token
    then (let t' = upsert_provider_setting (str "slack") (str "access_token") token t in
        (
          redirect (str "/ui/settings"),
          if not (is_empty team) && saves_team
              then upsert_provider_setting (str "slack") (str "team_name") team t'
              else t',
        ))
    else (status 500, t)

abbrev pub invalid_state : Option Str → Str → Bool
invalid_state none state = true
invalid_state (some expected) state = is_empty expected || not (state == expected)

-- `exchange` is Slack's answer to the code, by the redirect URI.
module _ (exchange : Str → Str → Exchange) where
  unfoldable pub slack_oauth_callback :
      SlackEnv → Option Str → Str → Str → Bool → Bool → Providers → Reply ⊥ × Providers
  unfolding is_empty save_slack
  slack_oauth_callback env cookie state code saves_token saves_team t =
      if invalid_state cookie state
      then (status 400, t)
      else if is_empty code
      then (status 400, t)
      else if is_empty env.client_id || is_empty env.client_secret
      then (status 500, t)
      else if is_empty env.app_url
      then (status 500, t)
      else save_slack (exchange code (redirect_uri env.app_url)) saves_token saves_team t
