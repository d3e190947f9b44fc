-- ===== src/Lib.antt =====
-- alertory receives Alertmanager's webhook, groups alerts in Postgres, and posts and edits
-- Slack messages. The development models the Go code of internal/ as functions from state to
-- state.
--
-- Clock.antt, Text.antt, Map.antt: times and durations, strings as lists of code points (valid
-- UTF-8) with the functions of package strings, and Go's maps as association lists in the order
-- of an iteration.
-- Db/Member.antt: internal/db/groups.go, a member of a group and its JSON with omitempty.
-- Db/Groups.antt: internal/db/groups.go, the table alert_groups. Each statement is a function
-- on the table at a time `now`: UpsertGroupMember is `upsert_group_member`, ClaimDueGroups
-- `claim_due_groups`, SaveGroupProgress `save_group_progress`, and so on.
-- Slack.antt: internal/slack/client.go. Slack is the parameter `respond`, which answers a
-- request by any function of the requests so far.
-- Workflows/Message.antt, Workflows/Batching.antt, Workflows/Channels.antt,
-- Workflows/Flush.antt: internal/workflows/message.go, batching.go and flush.go.
-- `flush_due_groups` is one tick of the flush worker: it claims groups (Db/Groups), makes the
-- buckets of each (Batching), renders and sends them (Message, Slack), and saves the members
-- (Db/Groups).
-- Db/Rules.antt, Db/Rules/Table.antt, Workflows/Rules.antt, Workflows/Ingest.antt:
-- internal/db/rules.go and internal/workflows/rules.go. `process_alert` is ProcessAlert: for
-- each rule that matches it enriches the alert, makes a member of it and upserts the member
-- into the rule's group.
-- Workflows/Legacy.antt, Workflows/Store.antt, Workflows/Config.antt: internal/workflows/
-- legacy_yaml.go, store.go and config.go.
-- Workflows/Worker.antt: `run_flush_worker` of internal/workflows/flush.go, the ticks with what
-- others write in between. Db/Connect.antt: internal/db/db.go, the sizes of the pool.
-- Workflows/Posted.antt: the way of an alert from `process_alert` through a tick to Slack.
-- Db/Alerts.antt, Db/ApiKeys.antt, Http/Webhook.antt, Http/Alerts.antt: internal/db/alerts.go,
-- apikeys.go and internal/http/handlers.go. `alerts_handler` is AlertsHandler: it checks the
-- credentials, reads the known starts, processes each alert and writes the batch.
-- Db/Sessions.antt, Auth.antt: internal/db/sessions.go and internal/auth. `callback_handler`
-- ends a login with a session, `require_auth` guards the UI, `logout_handler` ends the session.
-- Auth/Login.antt: the start of a login, DevBypass, and mustBuildAuthService of cmd/app/main.go.
-- Http/Forms.antt, Http/Rules.antt, Http/ApiKeys.antt, Http/Settings.antt, Http/Dashboard.antt:
-- internal/http/webui.go, the text fields of the rule form and the handlers; Settings also has
-- the OAuth flow of internal/http/handlers.go. A handler gives its `Reply` (Http/Reply.antt) and
-- the table that it leaves; a page is the data that its template gets.
-- Http/Server.antt, Http/Server/Serve.antt: internal/http/server.go. `routes` is the table of
-- the mux, `serve` a request through its route, guard and handler.
-- Db/Alerts/Listing.antt, History.antt, Batches.antt, Retention.antt, Db/Providers.antt: the
-- dashboard's queries and the retention of internal/db/alerts.go, and internal/db/providers.go.
-- App.antt: cmd/app/main.go, `run_cleanup` is a pass of the cleanup over the tables,
-- `run_cleanup_loop` the pass at the start with those at the ticks.
-- Tests.antt: runs on concrete data, and each theorem at concrete data.
--
-- Parameters: `shuffle` is the order in which Go visits a map, of which only IsShuffle is
-- assumed; `format_time` is time.Time.Format(time.RFC3339), which also shows a zone that is not
-- modelled; `locked` says which rows another transaction holds; `fetch`, `render`, `sha1_hex`,
-- `sha256_hex`, `equal_fold` and `exchange` are the HTTP client with its JSON decoder,
-- text/template, the two hashes, strings.EqualFold and the identity provider; `stored` is the
-- time that a TIMESTAMPTZ column keeps, and Booleans say whether a statement succeeds. Rows of
-- equal flush_after and members of equal StartsAt are taken in a stable order. Durations are at
-- least 0, times are nanoseconds since Go's zero time, and an int of the database does not
-- overflow, but for the int64 of the backoff, which wraps. A statement that fails changes
-- nothing. The fields of `World` are the parameters of the web UI. Loops are recursions on lists,
-- so no fuel is needed, but in `decimal`, where the number itself bounds the digits, and in the
-- batches of the retention, where each batch but the last deletes a row and the fuel is one more
-- than the rows.
-- A JSON column is the value that it encodes, a jsonb object of a member the values of its keys,
-- where a key may be absent; the text and the names of the keys are those of encoding/json.
-- Each query of the dashboard may take alerts of one last_seen in an order of its own.
-- Not modelled: logging, the pace of tickers, goroutines, HTML templates, the schema, the start of
-- the process and the OIDC library.
pub mod Prelude
pub mod Text
pub mod Map
pub mod Clock
pub mod Db
pub mod Slack
pub mod Workflows
pub mod Auth
pub mod Http
pub mod App
pub mod Tests
