-- ===== src/Http/Server.antt =====
-- `NewServer` of internal/http/server.go: the routes. No two patterns of the mux match one request
-- but "/", which every request matches; so the first that matches serves it. Paths are clean, since
-- the mux redirects others, and "/ui" to "/ui/"; HEAD is served as GET.
pub mod Serve
pub mod Guards
pub mod Changes
use alertory.Prelude.{
  ℕ, Bool, true, false, not, ◌&&◌, List, [], ◌∷◌, ◌++◌, Option, none, some, if◌then◌else◌,
}
use alertory.Text.{Str, str, ◌==◌}
use alertory.Text.Parts.{split}
use alertory.Slack.{is_empty}

pub data Method : Type 0 where
  get post other : Method

pub data Endpoint : Type 0 where
  home login callback logout slack_authorize slack_callback : Endpoint
  dashboard rules_list new_rule edit_rule save_rule delete_rule : Endpoint
  settings api_keys_list create_api_key delete_api_key : Endpoint

-- A segment of a pattern: a word, `{id}`, or `{$}`, which is the end after a slash.
pub data Segment : Type 0 where
  word : Str → Segment
  id end : Segment

-- A pattern without method takes any. A guarded handler is one behind `wrap`.
pub record Route : Type 0 where
  pub method : Option Method
  pub pattern : List Segment
  pub guarded : Bool
  pub endpoint : Endpoint

-- How the web UI runs: not at all, behind a login, or open to everyone.
pub data Mode : Type 0 where
  disabled sso bypass : Mode

-- By whether there is a service of the login, and whether DISABLE_AUTH is "true".
unfoldable pub mode_of : Bool → Bool → Mode
mode_of true auth_disabled = sso
mode_of false true = bypass
mode_of false false = disabled

abbrev ui : List Segment → List Segment
ui segments = word (str "ui") ∷ segments

abbrev any_method : List Segment → Bool → Endpoint → Route
any_method pattern guarded endpoint = record {
  method = none;
  pattern = pattern;
  guarded = guarded;
  endpoint = endpoint;
}

abbrev guarded_route : Method → List Segment → Endpoint → Route
guarded_route method pattern endpoint = record {
  method = some method;
  pattern = ui pattern;
  guarded = true;
  endpoint = endpoint;
}

abbrev auth_path : Str → List Segment
auth_path last = ui (word (str "auth") ∷ word last ∷ [])

abbrev slack_path : List Segment → List Segment
slack_path rest = ui (word (str "providers") ∷ word (str "oauth2") ∷ word (str "slack") ∷ rest)

abbrev rules_path : List Segment → List Segment
rules_path rest = word (str "rules") ∷ rest

abbrev api_keys_path : List Segment → List Segment
api_keys_path rest = word (str "api-keys") ∷ rest

-- Without the service of the login there is a logout that leads home, and no login.
abbrev auth_routes : Mode → List Route
auth_routes disabled = []
auth_routes sso =
    any_method (auth_path (str "login")) false login
    ∷ any_method (auth_path (str "callback")) false callback
    ∷ any_method (auth_path (str "logout")) false logout
    ∷ []
auth_routes bypass = any_method (auth_path (str "logout")) false logout ∷ []

abbrev ui_routes : List Route
ui_routes =
    any_method (slack_path (word (str "authorize") ∷ [])) true slack_authorize
    ∷ any_method (slack_path []) true slack_callback
    ∷ guarded_route get (end ∷ []) dashboard
    ∷ guarded_route get (rules_path []) rules_list
    ∷ guarded_route get (rules_path (word (str "new") ∷ [])) new_rule
    ∷ guarded_route get (rules_path (id ∷ word (str "edit") ∷ [])) edit_rule
    ∷ guarded_route post (rules_path []) save_rule
    ∷ guarded_route post (rules_path (id ∷ [])) save_rule
    ∷ guarded_route post (rules_path (id ∷ word (str "delete") ∷ [])) delete_rule
    ∷ guarded_route get (word (str "settings") ∷ []) settings
    ∷ guarded_route get (api_keys_path []) api_keys_list
    ∷ guarded_route post (api_keys_path []) create_api_key
    ∷ guarded_route post (api_keys_path (id ∷ word (str "delete") ∷ [])) delete_api_key
    ∷ []

-- The routes of the web UI besides "/". The webhook and /healthz come before them in any mode.
unfoldable pub routes : Mode → List Route
routes disabled = []
routes sso = auth_routes sso ++ ui_routes
routes bypass = auth_routes bypass ++ ui_routes

unfoldable pub same_method : Option Method → Method → Bool
same_method none m = true
same_method (some get) get = true
same_method (some post) post = true
same_method (some m) m' = false

-- The id of the path, "" if the pattern has none; `none` where the path does not match.
unfoldable pub match_path : List Segment → List Str → Option Str
unfolding is_empty
match_path [] [] = some []
match_path [] (s ∷ path) = none
match_path (end ∷ pattern) (s ∷ path) = if is_empty s && is_empty path then some [] else none
match_path (word w ∷ pattern) (s ∷ path) =
    let rest = match_path pattern path in if s == w then rest else none
match_path (id ∷ pattern) (s ∷ path) =
    let rest = match_path pattern path in
    if is_empty s then none else elim rest [ none ↦ none | some _ ↦ some s ]
match_path (segment ∷ pattern) [] = none

unfoldable pub match_route : Method → List Str → List Route → Option (Route × Str)
unfolding match_path same_method
match_route m path [] = none
match_route m path (r ∷ rs) =
    let rest = match_route m path rs in
    if same_method r.method m
    then elim (match_path r.pattern path) [ none ↦ rest | some i ↦ some (r, i) ]
    else rest

-- The segments after the first slash.
unfoldable pub segments : Str → List Str
unfolding split
segments [] = []
segments (c ∷ path) = split b'/' path
