-- ===== src/Http/Server/Guards.antt =====
-- Which requests change the tables of the web UI.
use alertory.Prelude.{Bool, true, false, List, Option, ◌≡◌, ◌⊎◌, refl, Bool-cases, inl, inr}
use alertory.Text.{Str}
use alertory.Db.Rules.{Enrichment}
use alertory.Db.Rules.Table.{RuleTable}
use alertory.Db.ApiKeys.{ApiKeys}
use alertory.Db.Providers.{Providers}
use alertory.Auth.{Session, check_csrf}
use alertory.Http.Rules.{RuleForm, save_rule_handler, delete_rule_handler}
use alertory.Http.ApiKeys.{Draw, create_api_key_handler, delete_api_key_handler}
use alertory.Http.Settings.{SlackEnv, Exchange, slack_oauth_callback, invalid_state}
use alertory.Http.Server.{
  Endpoint, logout, slack_callback, save_rule, delete_rule, create_api_key, delete_api_key, Mode,
  sso,
}
use alertory.Http.Server.Serve.{World, Request, Ui, handle}

-- A handler without a session that has the form's token leaves its table alone.
save_rule_handler_guard :
    (unmarshal : Str → Option (List Enrichment)) (parsed : Bool) (session : Option Session)
    (id : Str) (f : RuleForm) (writes : Bool) (t : RuleTable)
    → (check_csrf session f.csrf_token ≡ true)
      ⊎ ((save_rule_handler unmarshal parsed session id f writes t).1 ≡ t)
unfolding save_rule_handler
save_rule_handler_guard unmarshal false session id f writes t = inr refl
save_rule_handler_guard unmarshal true session id f writes t =
    elim (Bool-cases (check_csrf session f.csrf_token)) [
      | inl checked ↦ inl checked
      | inr unchecked ↦ inr (rw unchecked refl)
    ]

delete_rule_handler_guard :
    (parsed : Bool) (session : Option Session) (csrf id : Str) (writes : Bool) (t : RuleTable)
    → (check_csrf session csrf ≡ true)
      ⊎ ((delete_rule_handler parsed session csrf id writes t).1 ≡ t)
unfolding delete_rule_handler
delete_rule_handler_guard false session csrf id writes t = inr refl
delete_rule_handler_guard true session csrf id writes t =
    elim (Bool-cases (check_csrf session csrf)) [
      | inl checked ↦ inl checked
      | inr unchecked ↦ inr (rw unchecked refl)
    ]

create_api_key_handler_guard :
    (by_created : ApiKeys → ApiKeys) (sha256_hex : Str → Str) (parsed : Bool)
    (session : Option Session) (csrf name : Str) (d : Draw) (t : ApiKeys)
    → (check_csrf session csrf ≡ true)
      ⊎ ((create_api_key_handler by_created sha256_hex parsed session csrf name d t).1 ≡ t)
unfolding create_api_key_handler
create_api_key_handler_guard by_created sha256_hex false session csrf name d t = inr refl
create_api_key_handler_guard by_created sha256_hex true session csrf name d t =
    elim (Bool-cases (check_csrf session csrf)) [
      | inl checked ↦ inl checked
      | inr unchecked ↦ inr (rw unchecked refl)
    ]

delete_api_key_handler_guard :
    (parsed : Bool) (session : Option Session) (csrf id : Str) (writes : Bool) (t : ApiKeys)
    → (check_csrf session csrf ≡ true)
      ⊎ ((delete_api_key_handler parsed session csrf id writes t).1 ≡ t)
unfolding delete_api_key_handler
delete_api_key_handler_guard false session csrf id writes t = inr refl
delete_api_key_handler_guard true session csrf id writes t =
    elim (Bool-cases (check_csrf session csrf)) [
      | inl checked ↦ inl checked
      | inr unchecked ↦ inr (rw unchecked refl)
    ]

slack_oauth_callback_guard :
    (slack : Str → Str → Exchange) (env : SlackEnv) (cookie : Option Str) (state code : Str)
    (saves_token saves_team : Bool) (t : Providers)
    → (invalid_state cookie state ≡ false)
      ⊎ ((slack_oauth_callback slack env cookie state code saves_token saves_team t).1 ≡ t)
unfolding slack_oauth_callback
slack_oauth_callback_guard slack env cookie state code saves_token saves_team t =
    elim (Bool-cases (invalid_state cookie state)) [
      | inl invalid ↦ inr (rw invalid refl)
      | inr valid ↦ inl valid
    ]

-- The endpoints that write rules or keys.
abbrev pub changes : Endpoint → Bool
changes save_rule = true
changes delete_rule = true
changes create_api_key = true
changes delete_api_key = true
changes e = false

abbrev pub connects : Endpoint → Bool
connects slack_callback = true
connects e = false

-- The rules and the keys, and the settings of the providers.
abbrev pub KeepsTables : Ui → Ui → Type 0
KeepsTables u u' = (u'.rules ≡ u.rules) × (u'.keys ≡ u.keys)

pub handle_tables :
    (w : World) (mode : Mode) (e : Endpoint) (i : Str) (session : Option Session) (r : Request)
    (u : Ui)
    → ((changes e ≡ true) × (check_csrf session r.form.csrf_token ≡ true))
      ⊎ KeepsTables u (handle w mode e i session r u).1
unfolding handle
handle_tables w mode save_rule i session r u =
    elim (save_rule_handler_guard w.unmarshal r.parsed session i r.form r.writes u.rules) [
      | inl checked ↦ inl (refl, checked)
      | inr same ↦ inr (same, refl)
    ]
handle_tables w mode delete_rule i session r u =
    elim (delete_rule_handler_guard r.parsed session r.form.csrf_token i r.writes u.rules) [
      | inl checked ↦ inl (refl, checked)
      | inr same ↦ inr (same, refl)
    ]
handle_tables w mode create_api_key i session r u =
    elim (create_api_key_handler_guard w.by_created w.sha256_hex r.parsed session r.form.csrf_token
      r.form.name r.draw u.keys) [ inl checked ↦ inl (refl, checked) | inr same ↦ inr (refl, same) ]
handle_tables w mode delete_api_key i session r u =
    elim (delete_api_key_handler_guard r.parsed session r.form.csrf_token i r.writes u.keys) [
      | inl checked ↦ inl (refl, checked)
      | inr same ↦ inr (refl, same)
    ]
handle_tables w sso logout i session r u = inr (refl, refl)
handle_tables w mode e i session r u = inr (refl, refl)

pub handle_providers :
    (w : World) (mode : Mode) (e : Endpoint) (i : Str) (session : Option Session) (r : Request)
    (u : Ui)
    → ((connects e ≡ true) × (invalid_state r.slack_cookie r.query.state ≡ false))
      ⊎ ((handle w mode e i session r u).1.providers ≡ u.providers)
unfolding handle
handle_providers w mode slack_callback i session r u =
    elim (slack_oauth_callback_guard w.slack w.env r.slack_cookie r.query.state r.query.code
      r.writes r.writes_more u.providers) [ inl valid ↦ inl (refl, valid) | inr same ↦ inr same ]
handle_providers w sso logout i session r u = inr refl
handle_providers w mode e i session r u = inr refl
