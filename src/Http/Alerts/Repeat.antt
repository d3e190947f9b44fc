-- ===== src/Http/Alerts/Repeat.antt =====
-- What the next webhook knows of the alerts of one that was taken.
use alertory.Prelude.{
  ℕ, Bool, true, false, List, [], ◌∷◌, ◌++◌, map, ◌≡◌, ◌≢◌, refl, ◌∙◌, sym, ap, arith, All, Option,
  some, eqb_iff,
}
use alertory.Text.{Str, eq_refl}
use alertory.Text.Parts.{is_in}
use alertory.Map.{Map, get}
use alertory.Clock.{Time, Duration}
use alertory.Db.Groups.{Table}
use alertory.Db.Rules.{WorkflowRule, AlertUpsert}
use alertory.Db.Alerts.{ActiveAlert, find_alert, batch_get_active_alerts, batch_upsert_alerts}
use alertory.Db.Alerts.Known.{batch_get_lem, find_alert-batch}
use alertory.Db.ApiKeys.{ApiKeys}
use alertory.Workflows.Rules.{Call, Fetched}
use alertory.Workflows.Ingest.{Ingest}
use alertory.Http.Webhook.{Works, check_webhook_auth}
use alertory.Http.Alerts.{
  Alert, Arrival, Service, Loop, is_new, start_of, upsert_of, process_alerts, known_starts,
  save_alerts, alerts_handler, answer, process_arrival,
}

-- An alert whose row keeps its start is known.
is_new_known :
    (fps : List Str) (fp : Str) (t : List ActiveAlert) (r : ActiveAlert) (start : Time)
    → is_in fp fps ≡ true
    → find_alert fp t ≡ some r
    → r.starts_at ≡ start
    → is_new (get fp (batch_get_active_alerts fps t)) start ≡ false
unfolding is_new
is_new_known fps fp t r start asked found same =
    rw (batch_get_lem fps fp t asked, found, same, (eqb_iff start start).1 refl) refl

module _ (equal_fold : Str → Str → Bool) (sha1_hex : Str → Str)
    (render : Str → Map Str → Option (Map Str) → Option Str) (debounce max_window : Duration)
    {Json : Type 0} (show : Json → Str) (nil_json : Json) (object : Map Json → Json)
    (fetch : List Call → Call → Fetched Json) (stored : Time → Time)
    (stored_end : Option Time → Option Time) (sha256_hex : Str → Str) where
  abbrev handle :
      List WorkflowRule
      → Str
      → Str
      → Works
      → ApiKeys
      → Option (List (Alert × Arrival))
      → Bool
      → Bool
      → Time
      → Service
      → ℕ × Service
  handle =
      alerts_handler equal_fold sha1_hex render debounce max_window show nil_json object fetch
        stored stored_end sha256_hex

  abbrev answer_to :
      Bool
      → List WorkflowRule
      → Option (List (Alert × Arrival))
      → Bool
      → Bool
      → Time
      → Service
      → ℕ × Service
  answer_to =
      answer equal_fold sha1_hex render debounce max_window show nil_json object fetch stored
        stored_end sha256_hex

  abbrev loop : List WorkflowRule → Map Time → List (Alert × Arrival) → Table → List Call → Loop
  loop = process_alerts equal_fold sha1_hex render debounce max_window show nil_json object fetch

  abbrev known_before : Bool → List (Alert × Arrival) → Service → Map Time
  known_before reads alerts s =
      known_starts equal_fold sha1_hex render debounce max_window show nil_json object fetch stored
        stored_end sha256_hex reads alerts s.alerts

  abbrev first :
      List WorkflowRule → Map Time → Alert → Arrival → Table → List Call → Ingest × AlertUpsert
  first = process_arrival equal_fold sha1_hex render debounce max_window show nil_json object fetch

  abbrev fingerprint_of : Alert × Arrival → Str
  fingerprint_of (a, arrival) = a.fingerprint

  upserts-others :
      (fp : Str) (rules : List WorkflowRule) (known : Map Time) (alerts : List (Alert × Arrival))
      (groups : Table) (calls : List Call)
      → All (λ x. fingerprint_of x ≢ fp) alerts
      → All (λ u. u.fingerprint ≢ fp) (loop rules known alerts groups calls).upserts
  unfolding process_alerts process_arrival upsert_of
  upserts-others fp rules known [] groups calls h = tt
  upserts-others fp rules known ((a, arrival) ∷ alerts) groups calls h =
      let (s, u) = first rules known a arrival groups calls in
      (h.0, upserts-others fp rules known alerts s.table s.calls h.1)

  -- The loop upserts the alert, with others before and after it.
  abbrev Upserts : Alert → Arrival → List AlertUpsert → Type 0
  Upserts a arrival upserts =
      (before after : List AlertUpsert) × (u : AlertUpsert) × (upserts ≡ before ++ (u ∷ after))
      × (u.fingerprint ≡ a.fingerprint)
      × (u.starts_at ≡ start_of a arrival.now)
      × All (λ b. b.fingerprint ≢ u.fingerprint) after

  upserts-Upserts :
      (rules : List WorkflowRule) (known : Map Time) (before after : List (Alert × Arrival))
      (a : Alert) (arrival : Arrival) (groups : Table) (calls : List Call)
      → All (λ x. fingerprint_of x ≢ a.fingerprint) after
      → Upserts a arrival (loop rules known (before ++ ((a, arrival) ∷ after)) groups calls).upserts
  unfolding process_alerts process_arrival upsert_of
  upserts-Upserts rules known [] after a arrival groups calls h =
      let (s, u) = first rules known a arrival groups calls in
      (
        [],
        (loop rules known after s.table s.calls).upserts,
        u,
        refl,
        refl,
        refl,
        upserts-others a.fingerprint rules known after s.table s.calls h,
      )
  upserts-Upserts rules known ((b, arrival') ∷ before) after a arrival groups calls h =
      let (s, v) = first rules known b arrival' groups calls in
      let (us, vs, u, split, same, start, others) =
        upserts-Upserts rules known before after a arrival s.table s.calls h in
      (v ∷ us, vs, u, ap (λ x. v ∷ x) split, same, start, others)

  is_in-map :
      (before after : List (Alert × Arrival)) (x : Alert × Arrival)
      → is_in (fingerprint_of x) (map fingerprint_of (before ++ (x ∷ after))) ≡ true
  unfolding is_in
  is_in-map [] after x = rw (eq_refl (fingerprint_of x)) refl
  is_in-map (b ∷ before) after x = rw (is_in-map before after x) (ground arith)

  -- An authorized webhook that holds alerts writes the batch of the loop.
  handle_batch :
      (rules : List WorkflowRule) (supplied token : Str) (works : Works) (keys : ApiKeys)
      (x : Alert × Arrival) (alerts : List (Alert × Arrival)) (reads : Bool) (now : Time)
      (s : Service)
      → check_webhook_auth sha256_hex supplied token works keys ≡ true
      → (handle rules supplied token works keys (some (x ∷ alerts)) reads true now s).1.alerts
        ≡ batch_upsert_alerts stored stored_end
            (loop rules (known_before reads (x ∷ alerts) s) (x ∷ alerts) s.groups s.calls).upserts
            now
            s.alerts
  unfolding alerts_handler
  handle_batch rules supplied token works keys x alerts reads now s ok =
      ap (λ b. (answer_to b rules (some (x ∷ alerts)) reads true now s).1.alerts) ok
      ∙ unfold answer in unfold save_alerts in refl

  find_alert-handle :
      (rules : List WorkflowRule) (supplied token : Str) (works : Works) (keys : ApiKeys)
      (before after : List (Alert × Arrival)) (a : Alert) (arrival : Arrival) (reads : Bool)
      (now : Time) (s : Service)
      → check_webhook_auth sha256_hex supplied token works keys ≡ true
      → All (λ x. fingerprint_of x ≢ a.fingerprint) after
      → (r : ActiveAlert) × (find_alert a.fingerprint
            (handle rules supplied token works keys
              (some (before ++ ((a, arrival) ∷ after)))
              reads
              true
              now
              s).1.alerts.active
          ≡ some r)
        × (r.starts_at ≡ stored (start_of a arrival.now))
  find_alert-handle rules supplied token works keys before after a arrival reads now s ok last =
      let alerts = before ++ ((a, arrival) ∷ after) in
      let l = loop rules (known_before reads alerts s) alerts s.groups s.calls in
      let (us, vs, u, split, same, start, others) =
        upserts-Upserts rules (known_before reads alerts s) before after a arrival s.groups s.calls
          last in
      let (r, found, records) = find_alert-batch stored stored_end us vs u now s.alerts others in
      (
        r,
        ap (λ t. find_alert a.fingerprint t.active) (batch_of before)
            ∙ (ap
                  (λ xs.
                    find_alert a.fingerprint
                      (batch_upsert_alerts stored stored_end xs now s.alerts).active)
                  split
                ∙ (ap
                      (λ fp.
                        find_alert fp
                          (batch_upsert_alerts stored stored_end (us ++ (u ∷ vs)) now
                            s.alerts).active)
                      (sym same)
                    ∙ found)),
        records.1 ∙ ap stored start,
      )
    where
      batch_of :
          (before : List (Alert × Arrival))
          → (handle rules supplied token works keys
              (some (before ++ ((a, arrival) ∷ after)))
              reads
              true
              now
              s).1.alerts
            ≡ batch_upsert_alerts stored stored_end
                (loop rules
                  (known_before reads (before ++ ((a, arrival) ∷ after)) s)
                  (before ++ ((a, arrival) ∷ after))
                  s.groups
                  s.calls).upserts
                now
                s.alerts
      batch_of [] = handle_batch rules supplied token works keys (a, arrival) after reads now s ok
      batch_of (b ∷ before) =
          handle_batch rules supplied token works keys b (before ++ ((a, arrival) ∷ after)) reads
            now s ok

  -- After an authorized webhook whose statements succeed, the next webhook that holds the alert
  -- again, with the start that it gave, does not take the alert for a new one; provided that the
  -- table keeps that start exactly, that no later alert of the first webhook has its fingerprint,
  -- and that the next webhook reads the table.
  pub is_new-alerts_handler :
      (rules : List WorkflowRule) (supplied token : Str) (works : Works) (keys : ApiKeys)
      (before after : List (Alert × Arrival)) (a : Alert) (arrival : Arrival) (reads : Bool)
      (now : Time) (s : Service) (before' after' : List (Alert × Arrival)) (arrival' : Arrival)
      → check_webhook_auth sha256_hex supplied token works keys ≡ true
      → All (λ x. fingerprint_of x ≢ a.fingerprint) after
      → stored (start_of a arrival.now) ≡ start_of a arrival.now
      → is_new
          (get a.fingerprint (
            known_before true
              (before' ++ ((a, arrival') ∷ after'))
              (handle rules supplied token works keys
                (some (before ++ ((a, arrival) ∷ after)))
                reads
                true
                now
                s).1))
          (start_of a arrival.now)
        ≡ false
  unfolding known_starts
  is_new-alerts_handler rules supplied token works keys before after a arrival reads now s before'
        after' arrival' ok last exact =
      let (r, found, start) =
        find_alert-handle rules supplied token works keys before after a arrival reads now s ok
          last in
      is_new_known (map fingerprint_of (before' ++ ((a, arrival') ∷ after'))) a.fingerprint _ r
        (start_of a arrival.now) (is_in-map before' after' (a, arrival')) found (start ∙ exact)
