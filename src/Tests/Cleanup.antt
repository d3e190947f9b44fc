-- ===== src/Tests/Cleanup.antt =====
-- A pass of the cleanup on concrete data.
use alertory.Prelude.{◌+◌, ◌*◌, true, false, [], ◌∷◌}
use alertory.Text.{str}
use alertory.Tests.Dashboard.{active}
use alertory.Tests.Data.{info, alert}
use alertory.Clock.{Time, second}
use alertory.Db.Groups.{inserted_row}
use alertory.Db.Sessions.{WebSession}
use alertory.App.{hour, Tables, Pass}

-- Nothing fails, two hours after the row of the group.
abbrev pass : Pass
pass = record {
  active_fails = λ i. false;
  events_fail = λ i. false;
  groups_run = true;
  sessions_run = true;
  start = 90;
  groups_at = 2 * hour + 91;
  sessions_at = 2 * hour + 92;
}

abbrev session : Time → WebSession
session expires_at = record {
  id = str "s";
  subject = str "u";
  email = [];
  name = [];
  csrf_token = str "c";
  expires_at = expires_at;
}

abbrev tables : Tables
tables = record {
  alerts = record {
    active = active (str "f1") ∷ [];
    events = record { fingerprint = str "f1"; status = str "firing"; received_at = 7 } ∷ [];
  };
  groups = inserted_row info (alert (str "f1") (str "resolved")) (8 * second) (45 * second) 5 ∷ [];
  sessions = session 7 ∷ session (3 * hour) ∷ [];
}
