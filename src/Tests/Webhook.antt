-- ===== src/Tests/Webhook.antt =====
-- The webhook's handler on concrete data.
use alertory.Prelude.{◌*◌, true, false, List, [], ◌∷◌, ◌++◌, Option, none, some, ◌≡◌, ◌↔◌, refl}
use alertory.Text.{Str, str, ◌==◌}
use alertory.Text.Parts.{has_prefix}
use alertory.Map.{Map, get}
use alertory.Clock.{Time, second}
use alertory.Workflows.Rules.{Call, Fetched, fetched}
use alertory.Http.Webhook.{Works, check_webhook_auth}
use alertory.Http.Alerts.{Alert, Arrival, Service, start_of, is_new, known_starts, alerts_handler}
use alertory.Http.Alerts.Status.{IsTaken, alerts_handler_lem}
use alertory.Http.Alerts.Repeat.{is_new-alerts_handler}

abbrev alert : Alert
alert = record {
  status = str "firing";
  fingerprint = str "f1";
  starts_at = some 7;
  ends_at = none;
  labels = [];
  annotations = none;
}

abbrev arrival : Arrival
arrival = record { now = 8; saving = λ name. record { updated_at = 8; now = 8; saves = true } }

abbrev service : Service
service = record { groups = []; alerts = record { active = []; events = [] }; calls = [] }

abbrev works : Works
works = record { lookup = true; count = true }

abbrev same : Str → Str
same s = s

abbrev exact : Time → Time
exact t = t

abbrev exact_end : Option Time → Option Time
exact_end t = t

abbrev unrendered : Str → Map Str → Option (Map Str) → Option Str
unrendered tmpl labels annotations = some tmpl

abbrev no_object : Map Str → Str
no_object m = []

abbrev answering : List Call → Call → Fetched Str
answering calls call = fetched []

alerts_handler_lem_example :
    let r =
      alerts_handler ◌==◌ same unrendered
        (8 * second)
        (45 * second)
        same
        []
        no_object
        answering
        exact
        exact_end
        same
        []
        []
        (str "t")
        works
        []
        (some ((alert, arrival) ∷ []))
        true
        true
        9
        service in
    ((r.0 ≡ 200) ↔ (
      (check_webhook_auth same [] (str "t") works [] ≡ true)
      × IsTaken (some ((alert, arrival) ∷ [])) true))
    × ((r.0 ≡ 401) ↔ (check_webhook_auth same [] (str "t") works [] ≡ false))
    × (r.0 ≡ 401 → r.1 ≡ service)
    × (r.0 ≡ 400 → r.1 ≡ service)
    × (r.0 ≡ 500 → r.1.alerts ≡ service.alerts)
alerts_handler_lem_example =
    alerts_handler_lem ◌==◌ same unrendered (8 * second) (45 * second) same [] no_object answering
      exact exact_end same [] [] (str "t") works [] (some ((alert, arrival) ∷ [])) true true 9
      service

is_new-alerts_handler_example :
    is_new
      (get (str "f1") (
        known_starts ◌==◌ same unrendered
          (8 * second)
          (45 * second)
          same
          []
          no_object
          answering
          exact
          exact_end
          same
          true
          ([] ++ ((alert, arrival) ∷ []))
          (alerts_handler ◌==◌ same unrendered
            (8 * second)
            (45 * second)
            same
            []
            no_object
            answering
            exact
            exact_end
            same
            []
            []
            []
            works
            []
            (some ([] ++ ((alert, arrival) ∷ [])))
            true
            true
            9
            service).1.alerts))
      7
    ≡ false
unfolding check_webhook_auth has_prefix str start_of
is_new-alerts_handler_example =
    is_new-alerts_handler ◌==◌ same unrendered (8 * second) (45 * second) same [] no_object
      answering exact exact_end same [] [] [] works [] [] [] alert arrival true 9 service [] []
      arrival refl tt refl
