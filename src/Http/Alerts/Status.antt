-- ===== src/Http/Alerts/Status.antt =====
-- What the webhook answers.
use alertory.Prelude.{
  ℕ, Bool, true, false, List, [], ◌∷◌, ◌≡◌, ◌↔◌, ◌⊎◌, arith, Option, none, some, if◌then◌else◌,
}
use alertory.Text.{Str}
use alertory.Map.{Map}
use alertory.Clock.{Time, Duration}
use alertory.Slack.{is_empty}
use alertory.Db.Groups.{Table}
use alertory.Db.Rules.{WorkflowRule}
use alertory.Db.ApiKeys.{ApiKeys}
use alertory.Workflows.Rules.{Call, Fetched}
use alertory.Http.Webhook.{Works, check_webhook_auth}
use alertory.Http.Alerts.{
  Alert, Arrival, Service, Loop, process_alerts, known_starts, save_alerts, alerts_handler, answer,
}

-- The body is JSON, and it holds no alert or the batch is written.
abbrev pub IsTaken : Option (List (Alert × Arrival)) → Bool → Type 0
IsTaken none writes = ⊥
IsTaken (some alerts) writes = (is_empty alerts ≡ true) ⊎ (writes ≡ true)

module _ (equal_fold : Str → Str → Bool) (sha1_hex : Str → Str)
    (render : Str → Map Str → Option (Map Str) → Option Str) (debounce max_window : Duration)
    {Json : Type 0} (show : Json → Str) (nil_json : Json) (object : Map Json → Json)
    (fetch : List Call → Call → Fetched Json) (stored : Time → Time)
    (stored_end : Option Time → Option Time) (sha256_hex : Str → Str) where
  abbrev handle :
      List WorkflowRule
      → Str
      → Str
      → Works
      → ApiKeys
      → Option (List (Alert × Arrival))
      → Bool
      → Bool
      → Time
      → Service
      → ℕ × Service
  handle =
      alerts_handler equal_fold sha1_hex render debounce max_window show nil_json object fetch
        stored stored_end sha256_hex

  abbrev answer_to :
      Bool
      → List WorkflowRule
      → Option (List (Alert × Arrival))
      → Bool
      → Bool
      → Time
      → Service
      → ℕ × Service
  answer_to =
      answer equal_fold sha1_hex render debounce max_window show nil_json object fetch stored
        stored_end sha256_hex

  -- What an answer says of the request and of the state after it.
  abbrev Tells : Bool → Type 0 → Service → ℕ × Service → Type 0
  Tells ok taken s r =
      ((r.0 ≡ 200) ↔ ((ok ≡ true) × taken))
      × ((r.0 ≡ 401) ↔ (ok ≡ false))
      × (r.0 ≡ 401 → r.1 ≡ s)
      × (r.0 ≡ 400 → r.1 ≡ s)
      × (r.0 ≡ 500 → r.1.alerts ≡ s.alerts)

  abbrev loop : List WorkflowRule → Map Time → List (Alert × Arrival) → Table → List Call → Loop
  loop = process_alerts equal_fold sha1_hex render debounce max_window show nil_json object fetch

  abbrev save : Bool → Time → Loop → Service → ℕ × Service
  save =
      save_alerts equal_fold sha1_hex render debounce max_window show nil_json object fetch stored
        stored_end sha256_hex

  abbrev known_before : Bool → List (Alert × Arrival) → Service → Map Time
  known_before reads alerts s =
      known_starts equal_fold sha1_hex render debounce max_window show nil_json object fetch stored
        stored_end sha256_hex reads alerts s.alerts

  save_alerts_lem :
      (ok writes : Bool) (now : Time) (l : Loop) (s : Service)
      → Tells ok ((false ≡ true) ⊎ (writes ≡ true)) s (if ok then save writes now l s else (401, s))
  unfolding save_alerts
  save_alerts_lem true true now l s = ground arith
  save_alerts_lem true false now l s = ground arith
  save_alerts_lem false writes now l s = ground arith

  answer_lem :
      (ok : Bool) (rules : List WorkflowRule) (body : Option (List (Alert × Arrival)))
      (reads writes : Bool) (now : Time) (s : Service)
      → Tells ok (IsTaken body writes) s (answer_to ok rules body reads writes now s)
  unfolding answer
  answer_lem ok rules none reads writes now s = ground arith
  answer_lem ok rules (some []) reads writes now s = ground arith
  answer_lem ok rules (some (a ∷ alerts)) reads writes now s =
      save_alerts_lem ok writes now
        (loop rules (known_before reads (a ∷ alerts) s) (a ∷ alerts) s.groups s.calls) s

  -- The webhook answers 200 exactly if the request is authorized, its body is JSON, and the batch
  -- is written unless there is no alert. On 401 and 400 nothing changes; on 500 the tables of
  -- alerts do not change.
  pub alerts_handler_lem :
      (rules : List WorkflowRule) (supplied token : Str) (works : Works) (keys : ApiKeys)
      (body : Option (List (Alert × Arrival))) (reads writes : Bool) (now : Time) (s : Service)
      → let r = handle rules supplied token works keys body reads writes now s in
        ((r.0 ≡ 200) ↔ (
          (check_webhook_auth sha256_hex supplied token works keys ≡ true) × IsTaken body writes))
        × ((r.0 ≡ 401) ↔ (check_webhook_auth sha256_hex supplied token works keys ≡ false))
        × (r.0 ≡ 401 → r.1 ≡ s)
        × (r.0 ≡ 400 → r.1 ≡ s)
        × (r.0 ≡ 500 → r.1.alerts ≡ s.alerts)
  unfolding alerts_handler
  alerts_handler_lem rules supplied token works keys body reads writes now s =
      answer_lem (check_webhook_auth sha256_hex supplied token works keys) rules body reads writes
        now s
