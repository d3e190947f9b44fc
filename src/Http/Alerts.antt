-- ===== src/Http/Alerts.antt =====
-- `AlertsHandler` of internal/http/handlers.go, with internal/models: the Alertmanager webhook. The
-- parameters are those of Workflows.Ingest, Db.Alerts and Http.Webhook.
pub mod Status
pub mod Repeat
use alertory.Prelude.{
  ℕ, Bool, true, false, not, ◌||◌, List, [], ◌∷◌, map, Option, none, some, eqb, if◌then◌else◌,
}
use alertory.Text.{Str, str}
use alertory.Map.{Map, get}
use alertory.Clock.{Time, Duration}
use alertory.Slack.{is_empty}
use alertory.Db.Groups.{Table}
use alertory.Db.Rules.{WorkflowRule, AlertUpsert}
use alertory.Db.Alerts.{Alerts, batch_get_active_alerts, batch_upsert_alerts}
use alertory.Db.ApiKeys.{ApiKeys}
use alertory.Workflows.Rules.{Call, Fetched, label_of}
use alertory.Workflows.Ingest.{Saving, Ingest, process_alert}
use alertory.Http.Webhook.{Works, check_webhook_auth}

-- models.Alert, without the URL that nothing reads.
pub record Alert : Type 0 where
  pub status : Str
  pub fingerprint : Str
  pub starts_at : Option Time
  pub ends_at : Option Time
  pub labels : Map Str
  pub annotations : Option (Map Str)

-- The time at which the loop reaches an alert, and what its statements do, by the rule's name.
pub record Arrival : Type 0 where
  pub now : Time
  pub saving : Str → Saving

-- What the handler changes: two parts of the database, and the calls of enrichments so far.
pub record Service : Type 0 where
  pub groups : Table
  pub alerts : Alerts
  pub calls : List Call

-- Not known, or known with another start.
unfoldable pub is_new : Option Time → Time → Bool
is_new none starts_at = true
is_new (some prev) starts_at = not (eqb prev starts_at)

unfoldable pub start_of : Alert → Time → Time
start_of a now = elim a.starts_at [ none ↦ now | some t ↦ t ]

unfoldable pub upsert_of : Alert → Time → AlertUpsert
unfolding start_of label_of
upsert_of a now = record {
  fingerprint = a.fingerprint;
  alertname = label_of a.labels (str "alertname");
  status = a.status;
  starts_at = start_of a now;
  ends_at = a.ends_at;
  labels = a.labels;
  annotations = a.annotations;
}

-- The enrichments write to the map of the annotations that the handler also holds. A nil map they
-- replace in their copy only.
unfoldable pub shared_annotations : Option (Map Str) → Option (Map Str) → Option (Map Str)
shared_annotations none after = none
shared_annotations (some m) after = after

-- What the loop over the alerts leaves.
pub record Loop : Type 0 where
  pub groups : Table
  pub calls : List Call
  pub upserts : List AlertUpsert

module _ (equal_fold : Str → Str → Bool) (sha1_hex : Str → Str)
    (render : Str → Map Str → Option (Map Str) → Option Str) (debounce max_window : Duration)
    {Json : Type 0} (show : Json → Str) (nil_json : Json) (object : Map Json → Json)
    (fetch : List Call → Call → Fetched Json) where
  -- The body of the loop: what ingestion leaves, and the alert as it is upserted.
  unfoldable pub process_arrival :
      List WorkflowRule → Map Time → Alert → Arrival → Table → List Call → Ingest × AlertUpsert
  unfolding is_new upsert_of shared_annotations
  process_arrival rules known a arrival groups calls =
      let u = upsert_of a arrival.now in
      let s =
        process_alert equal_fold sha1_hex render debounce max_window show nil_json object fetch
          rules (is_new (get a.fingerprint known) u.starts_at) arrival.saving
          (record { alert = u; calls = calls; table = groups }) in
      (s, record u { annotations = shared_annotations u.annotations s.alert.annotations })

  -- The loop over the alerts; `upserts` come out in order.
  unfoldable pub process_alerts :
      List WorkflowRule → Map Time → List (Alert × Arrival) → Table → List Call → Loop
  unfolding process_arrival
  process_alerts rules known [] groups calls = record {
    groups = groups;
    calls = calls;
    upserts = [];
  }
  process_alerts rules known ((a, arrival) ∷ alerts) groups calls =
      let (s, u) = process_arrival rules known a arrival groups calls in
      let rest = process_alerts rules known alerts s.table s.calls in
      record rest { upserts = u ∷ rest.upserts }

  module _ (stored : Time → Time) (stored_end : Option Time → Option Time)
      (sha256_hex : Str → Str) where
    -- `knownStartsAt`; a query that fails at its start is logged and gives the nil map. One that
    -- fails after some rows, which gives those, is not modelled.
    unfoldable pub known_starts : Bool → List (Alert × Arrival) → Alerts → Map Time
    unfolding batch_get_active_alerts
    known_starts reads alerts t =
        if reads then batch_get_active_alerts (map (λ x. x.0.fingerprint) alerts) t.active else []

    unfoldable pub save_alerts : Bool → Time → Loop → Service → ℕ × Service
    unfolding batch_upsert_alerts
    save_alerts writes now loop s =
        if writes
        then (
          200,
          record {
            groups = loop.groups;
            alerts = batch_upsert_alerts stored stored_end loop.upserts now s.alerts;
            calls = loop.calls;
          },
        )
        else (500, record s { groups = loop.groups; calls = loop.calls })

    -- The status of the answer, where `authorized` says whether the request may send alerts.
    unfoldable pub answer :
        Bool
        → List WorkflowRule
        → Option (List (Alert × Arrival))
        → Bool
        → Bool
        → Time
        → Service
        → ℕ × Service
    unfolding process_alerts known_starts save_alerts is_empty
    answer authorized rules none reads writes now s = if authorized then (400, s) else (401, s)
    answer authorized rules (some alerts) reads writes now s =
        if authorized
        then if is_empty alerts
          then (200, s)
          else save_alerts writes now
              (process_alerts rules (known_starts reads alerts s.alerts) alerts s.groups s.calls) s
        else (401, s)

    -- `body` is the decoded payload, `none` where it is not JSON; `reads` and `writes` say whether
    -- the first query and the last batch succeed, the latter at `now`.
    unfoldable pub alerts_handler :
        List WorkflowRule
        → Str
        → Str
        → Works
        → ApiKeys
        → Option (List (Alert × Arrival))
        → Bool
        → Bool
        → Time
        → Service
        → ℕ × Service
    unfolding check_webhook_auth answer
    alerts_handler rules supplied token works keys body reads writes now s =
        answer (check_webhook_auth sha256_hex supplied token works keys) rules body reads writes now
          s
