-- ===== src/Db/Alerts/Known.antt =====
-- What a batch of alerts leaves in `active_alerts`, and what the next webhook reads back.
use mathlib.Core.Path.{subst}
use alertory.Prelude.{
  true, List, [], ◌∷◌, ◌++◌, ◌≡◌, ◌≢◌, refl, ◌∙◌, sym, ap, arith, All, Option, none, some,
  Bool-cases, inl, inr, if◌then◌else◌,
}
use alertory.Text.{Str, ◌==◌, eq_iff, eq_refl}
use alertory.Text.Parts.{is_in}
use alertory.Map.{get, get-put}
use alertory.Clock.{Time}
use alertory.Db.Rules.{AlertUpsert}
use alertory.Db.Alerts.{
  ActiveAlert, Alerts, find_alert, batch_get_active_alerts, inserted_alert, updated_alert,
  upsert_active_alert, batch_upsert_alerts,
}

-- No fingerprint is asked for but those of the list, and of these the first row counts.
pub batch_get_lem :
    (fps : List Str) (fp : Str) (t : List ActiveAlert)
    → is_in fp fps ≡ true
    → get fp (batch_get_active_alerts fps t)
      ≡ elim (find_alert fp t) [ none ↦ none | some a ↦ some a.starts_at ]
unfolding batch_get_active_alerts find_alert get
batch_get_lem fps fp [] h = refl
batch_get_lem fps fp (a ∷ t) h = elim (Bool-cases (a.fingerprint == fp)) [
  | inl here ↦
      rw (here, subst (λ k. is_in k fps ≡ true) (sym ((eq_iff a.fingerprint fp).0 here)) h)
        (get-put fp a.fingerprint a.starts_at (batch_get_active_alerts fps t) ∙ rw here refl)
  | inr other ↦ ground (
    arith,
    other,
    get-put fp a.fingerprint a.starts_at (batch_get_active_alerts fps t),
    batch_get_lem fps fp t h,
  )
]

module _ (stored : Time → Time) (stored_end : Option Time → Option Time) where
  abbrev upserted_alert : AlertUpsert → Time → Option ActiveAlert → ActiveAlert
  upserted_alert a now none = inserted_alert stored stored_end a now
  upserted_alert a now (some r) = updated_alert stored stored_end a now r

  find_alert-upsert :
      (a : AlertUpsert) (now : Time) (fp : Str) (t : List ActiveAlert)
      → find_alert fp (upsert_active_alert stored stored_end a now t) ≡ (
          if a.fingerprint == fp
          then some (upserted_alert a now (find_alert a.fingerprint t))
          else find_alert fp t)
  unfolding find_alert upsert_active_alert inserted_alert updated_alert
  find_alert-upsert a now fp [] = refl
  find_alert-upsert a now fp (r ∷ t) = ground (
    arith,
    eq_iff r.fingerprint a.fingerprint,
    eq_iff r.fingerprint fp,
    eq_iff a.fingerprint fp,
    find_alert-upsert a now fp t,
  )

  abbrev batch : List AlertUpsert → Time → Alerts → Alerts
  batch = batch_upsert_alerts stored stored_end

  -- A batch leaves the rows of the fingerprints that it does not hold.
  pub find_alert-batch_other :
      (upserts : List AlertUpsert) (now : Time) (fp : Str) (t : Alerts)
      → All (λ b. b.fingerprint ≢ fp) upserts
      → find_alert fp (batch upserts now t).active ≡ find_alert fp t.active
  unfolding batch_upsert_alerts
  find_alert-batch_other [] now fp t h = refl
  find_alert-batch_other (b ∷ upserts) now fp t h =
      find_alert-batch_other upserts now fp _ h.1
      ∙ (find_alert-upsert b now fp t.active ∙ ground (arith, eq_iff b.fingerprint fp, h.0))

  batch-append :
      (before after : List AlertUpsert) (now : Time) (t : Alerts)
      → batch (before ++ after) now t ≡ batch after now (batch before now t)
  unfolding batch_upsert_alerts
  batch-append [] after now t = refl
  batch-append (b ∷ before) after now t = batch-append before after now _

  -- The row says what the alert says of its state.
  abbrev pub Records : AlertUpsert → Time → ActiveAlert → Type 0
  Records a now r =
      (r.status ≡ a.status)
      × (r.starts_at ≡ stored a.starts_at)
      × (r.ends_at ≡ stored_end a.ends_at)
      × (r.last_seen ≡ now)

  upserted_alert-Records :
      (a : AlertUpsert) (now : Time) (o : Option ActiveAlert)
      → Records a now (upserted_alert a now o)
  unfolding inserted_alert updated_alert
  upserted_alert-Records a now none = (refl, refl, refl, refl)
  upserted_alert-Records a now (some r) = (refl, refl, refl, refl)

  -- A batch leaves the state of the last alert of each fingerprint in the row of the fingerprint.
  pub find_alert-batch :
      (before after : List AlertUpsert) (a : AlertUpsert) (now : Time) (t : Alerts)
      → All (λ b. b.fingerprint ≢ a.fingerprint) after
      → (r : ActiveAlert) × (find_alert a.fingerprint (batch (before ++ (a ∷ after)) now t).active
          ≡ some r)
        × Records a now r
  unfolding batch_upsert_alerts
  find_alert-batch before after a now t h =
      let t' = batch before now t in
      let old = find_alert a.fingerprint t'.active in
      (
        upserted_alert a now old,
        ap (λ x. find_alert a.fingerprint x.active) (batch-append before (a ∷ after) now t)
            ∙ (find_alert-batch_other after now a.fingerprint _ h
                ∙ (find_alert-upsert a now a.fingerprint t'.active
                    ∙ rw (eq_refl a.fingerprint) refl)),
        upserted_alert-Records a now old,
      )
