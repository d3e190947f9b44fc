-- ===== src/Db/Alerts.antt =====
-- internal/db/alerts.go: the tables `active_alerts` and `alert_events`, as the webhook writes them.
-- `stored` is the time that a TIMESTAMPTZ column keeps of a `time.Time`.
use alertory.Prelude.{List, [], ◌∷◌, ◌++◌, Option, none, some, keep, if◌then◌else◌}
use alertory.Text.{Str, ◌==◌}
use alertory.Text.Parts.{is_in}
use alertory.Map.{Map, put}
use alertory.Clock.{Time}
use alertory.Db.Rules.{AlertUpsert}
pub mod Known
pub mod Batches
pub mod Retention
pub mod Listing
pub mod History

-- A row of `active_alerts`.
pub record ActiveAlert : Type 0 where
  pub fingerprint : Str
  pub alertname : Str
  pub status : Str
  pub starts_at : Time
  pub ends_at : Option Time
  pub labels : Map Str
  pub annotations : Option (Map Str)
  pub first_seen : Time
  pub last_seen : Time
  pub updated_at : Time

-- A row of `alert_events`, without its payload.
pub record AlertEvent : Type 0 where
  pub fingerprint : Str
  pub status : Str
  pub received_at : Time

pub record Alerts : Type 0 where
  pub active : List ActiveAlert
  pub events : List AlertEvent

-- WHERE fingerprint = $1
unfoldable pub find_alert : Str → List ActiveAlert → Option ActiveAlert
find_alert fp [] = none
find_alert fp (a ∷ t) = if a.fingerprint == fp then some a else find_alert fp t

-- The rows of these fingerprints, as a map.
unfoldable pub batch_get_active_alerts : List Str → List ActiveAlert → Map Time
unfolding is_in
batch_get_active_alerts fps [] = []
batch_get_active_alerts fps (a ∷ t) =
    let rest = batch_get_active_alerts fps t in
    if is_in a.fingerprint fps then put a.fingerprint a.starts_at rest else rest

module _ (stored : Time → Time) (stored_end : Option Time → Option Time) where
  unfoldable pub inserted_alert : AlertUpsert → Time → ActiveAlert
  inserted_alert a now = record {
    fingerprint = a.fingerprint;
    alertname = a.alertname;
    status = a.status;
    starts_at = stored a.starts_at;
    ends_at = stored_end a.ends_at;
    labels = a.labels;
    annotations = a.annotations;
    first_seen = now;
    last_seen = now;
    updated_at = now;
  }

  -- ON CONFLICT (fingerprint) DO UPDATE
  unfoldable pub updated_alert : AlertUpsert → Time → ActiveAlert → ActiveAlert
  updated_alert a now r = record r {
    status = a.status;
    starts_at = stored a.starts_at;
    ends_at = stored_end a.ends_at;
    last_seen = now;
    updated_at = now;
  }

  unfoldable pub upsert_active_alert : AlertUpsert → Time → List ActiveAlert → List ActiveAlert
  unfolding inserted_alert updated_alert
  upsert_active_alert a now [] = inserted_alert a now ∷ []
  upsert_active_alert a now (r ∷ t) =
      if r.fingerprint == a.fingerprint
      then updated_alert a now r ∷ t
      else r ∷ upsert_active_alert a now t

  -- The batch runs in one implicit transaction, so at one `now()`.
  unfoldable pub batch_upsert_alerts : List AlertUpsert → Time → Alerts → Alerts
  unfolding upsert_active_alert
  batch_upsert_alerts [] now t = t
  batch_upsert_alerts (a ∷ upserts) now t = batch_upsert_alerts upserts now (record {
    active = upsert_active_alert a now t.active;
    events =
        t.events
        ++ (record { fingerprint = a.fingerprint; status = a.status; received_at = now } ∷ []);
  })
