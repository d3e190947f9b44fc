-- ===== src/Workflows/Ingest/Keeps.antt =====
-- What the enrichments of an alert leave as it is.
use alertory.Prelude.{
  Bool, List, [], ◌∷◌, Option, ◌≡◌, refl, ◌∙◌, Bool-cases, Option-cases, inl, inr, ◌&&◌, ◌||◌,
}
use alertory.Text.{Str, str, ◌==◌}
use alertory.Map.{Map}
use alertory.Clock.{Duration}
use alertory.Db.Rules.{Enrichment, WorkflowRule, AlertUpsert}
use alertory.Workflows.Rules.{
  Call, Fetched, fetch_failed, fetched, call_of, store, enrich_once, enrich_alert,
}
use alertory.Workflows.Ingest.{enriched}

-- The enrichments of an alert change nothing of it but its annotations.
abbrev pub Keeps : AlertUpsert → AlertUpsert → Type 0
Keeps a b =
    (b.labels ≡ a.labels)
    × (b.fingerprint ≡ a.fingerprint)
    × (b.status ≡ a.status)
    × (b.alertname ≡ a.alertname)
    × (b.starts_at ≡ a.starts_at)
    × (b.ends_at ≡ a.ends_at)

pub Keeps-trans : (a b c : AlertUpsert) → Keeps a b → Keeps b c → Keeps a c
Keeps-trans a b c h k = (k.0 ∙ h.0, k.1 ∙ h.1, k.2 ∙ h.2, k.3 ∙ h.3, k.4 ∙ h.4, k.5 ∙ h.5)

pub Keeps-refl : (a : AlertUpsert) → Keeps a a
Keeps-refl a = (refl, refl, refl, refl, refl, refl)

pub Keeps-annotations :
    (a b : AlertUpsert) → Keeps a b → b ≡ record a { annotations = b.annotations }
Keeps-annotations a b (labels, fingerprint, status, alertname, starts_at, ends_at) = λ i. record {
  fingerprint = fingerprint i;
  alertname = alertname i;
  status = status i;
  starts_at = starts_at i;
  ends_at = ends_at i;
  labels = labels i;
  annotations = b.annotations;
}

module _ (equal_fold : Str → Str → Bool) (sha1_hex : Str → Str)
    (render : Str → Map Str → Option (Map Str) → Option Str) (debounce max_window : Duration)
    {Json : Type 0} (show : Json → Str) (nil_json : Json) (object : Map Json → Json)
    (fetch : List Call → Call → Fetched Json) where
  store-Keeps :
      (e : Enrichment) (answer : Fetched Json) (a : AlertUpsert)
      → Keeps a (store render show nil_json object fetch e answer a)
  unfolding store
  store-Keeps e fetch_failed a = Keeps-refl a
  store-Keeps e (fetched result) a = Keeps-refl a

  enrich_once-Keeps :
      (e : Enrichment) (a : AlertUpsert) (calls : List Call)
      → Keeps a (enrich_once render show nil_json object fetch e a calls).0
  unfolding enrich_once
  enrich_once-Keeps e a calls =
      elim (Option-cases (call_of render show nil_json object fetch e a.labels)) [
        | inl fails ↦ rw (fails, enrich_once) (Keeps-refl a)
        | inr (call, calls_it) ↦ rw (calls_it, enrich_once) (store-Keeps e (fetch calls call) a)
      ]

  enrich_alert-Keeps :
      (es : List Enrichment) (a : AlertUpsert) (calls : List Call)
      → Keeps a (enrich_alert render show nil_json object fetch es a calls).0
  unfolding enrich_alert
  enrich_alert-Keeps [] a calls = Keeps-refl a
  enrich_alert-Keeps (e ∷ es) a calls =
      let (a', calls') = enrich_once render show nil_json object fetch e a calls in
      Keeps-trans a a' (enrich_alert render show nil_json object fetch es a' calls').0
        (enrich_once-Keeps e a calls) (enrich_alert-Keeps es a' calls')

  pub enriched-Keeps :
      (rule : WorkflowRule) (is_new : Bool) (a : AlertUpsert) (calls : List Call)
      → Keeps a
          (enriched equal_fold sha1_hex render debounce max_window show nil_json object fetch rule
            is_new a calls).0
  unfolding enriched
  enriched-Keeps rule is_new a calls =
      elim (Bool-cases (is_new && (a.status == str "firing" || rule.notification_only))) [
        | inl enriches ↦ rw (enriches, enriched) (enrich_alert-Keeps rule.enrichments a calls)
        | inr skips ↦ rw (skips, enriched) (Keeps-refl a)
      ]
