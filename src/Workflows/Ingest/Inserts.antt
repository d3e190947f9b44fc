-- ===== src/Workflows/Ingest/Inserts.antt =====
-- The row that `ProcessAlert` inserts for an alert of a new group.
use mathlib.Core.Path.{subst}
use alertory.Prelude.{Bool, true, List, [], ◌∷◌, ◌++◌, Option, none, some, ◌≡◌, refl, sym, ◌∙◌, ap}
use alertory.Text.{Str, eq_refl}
use alertory.Map.{Map}
use alertory.Clock.{Time, Duration}
use alertory.Slack.{is_empty}
use alertory.Db.Groups.{Row, Table, find_row, inserted_row}
use alertory.Db.Groups.Upsert.{upserted_row, find_row-upsert_group_member}
use alertory.Db.Rules.{WorkflowRule, AlertUpsert, matches}
use alertory.Workflows.Rules.{Call, Fetched, compute_group_key}
use alertory.Workflows.Ingest.{
  Saving, Ingest, member_of, info_of, save_member, enriched, process_rule, process_alert,
}
use alertory.Workflows.Ingest.Keeps.{Keeps, Keeps-annotations, Keeps-trans, enriched-Keeps}
use alertory.Workflows.Ingest.Groups.{
  run, run_rule, Misses, find_row-process_alert_other, process_rule-Keeps, process_alert-Keeps,
  Misses-Keeps, run-append, run_fits,
}
use alertory.Workflows.Ingest.NewRow.{IsMember, IsNewRow}

module _ (equal_fold : Str → Str → Bool) (sha1_hex : Str → Str)
    (render : Str → Map Str → Option (Map Str) → Option Str) (debounce max_window : Duration) where
  save_member_inserts :
      (rule : WorkflowRule) (a : AlertUpsert) (saving : Saving) (t : Table)
      → saving.saves ≡ true
      → find_row (compute_group_key sha1_hex rule a.labels) t ≡ none
      → (r : Row) × (find_row
            (compute_group_key sha1_hex rule a.labels)
            (save_member equal_fold sha1_hex render debounce max_window rule a saving t)
          ≡ some r)
        × IsNewRow debounce saving.now rule
            (compute_group_key sha1_hex rule a.labels)
            (IsMember equal_fold render rule a)
            r
  unfolding save_member info_of
  save_member_inserts rule a saving t saves absent =
      let key = compute_group_key sha1_hex rule a.labels in
      let info = info_of equal_fold sha1_hex render rule a.labels in
      let m = member_of equal_fold sha1_hex render rule a saving.updated_at in
      (
        inserted_row info m debounce max_window saving.now,
        rw
            (
              saves,
              find_row-upsert_group_member info m debounce max_window saving.now key t,
              eq_refl key,
              absent,
            )
            (unfold upserted_row in refl),
        (
          m,
          unfold inserted_row in refl,
          unfold member_of in (refl, refl, refl, refl, refl, refl, refl, refl, refl, refl),
          unfold member_of is_empty in refl,
          unfold inserted_row info_of in refl,
          unfold inserted_row info_of in refl,
          unfold inserted_row in refl,
          unfold inserted_row in refl,
          unfold inserted_row info_of in refl,
          unfold inserted_row info_of in refl,
        ),
      )

  -- The table has the new row of the alert, with the annotations that it has by then.
  abbrev pub Inserted : WorkflowRule → Time → AlertUpsert → Option (Map Str) → Table → Type 0
  Inserted rule now a annotations t =
      let key = compute_group_key sha1_hex rule a.labels in
      (r : Row) × (find_row key t ≡ some r)
      × IsNewRow debounce now rule key
          (IsMember equal_fold render rule (record a { annotations = annotations })) r

  module _ {Json : Type 0} (show : Json → Str) (nil_json : Json) (object : Map Json → Json)
      (fetch : List Call → Call → Fetched Json) where
    abbrev pub ingest : List WorkflowRule → Bool → (Str → Saving) → Ingest → Ingest
    ingest = run equal_fold sha1_hex render debounce max_window show nil_json object fetch

    abbrev ingest_rule : WorkflowRule → Bool → Saving → Ingest → Ingest
    ingest_rule = run_rule equal_fold sha1_hex render debounce max_window show nil_json object fetch

    -- No rule of the list that matches the alert has the group.
    abbrev pub AreOthers : Str → List WorkflowRule → AlertUpsert → Type 0
    AreOthers = Misses equal_fold sha1_hex render debounce max_window show nil_json object fetch

    process_rule_inserts :
        (rule : WorkflowRule) (is_new : Bool) (saving : Saving) (a : AlertUpsert) (s : Ingest)
        → Keeps a s.alert
        → saving.saves ≡ true
        → find_row (compute_group_key sha1_hex rule a.labels) s.table ≡ none
        → let s' = ingest_rule rule is_new saving s in
          Inserted rule saving.now a s'.alert.annotations s'.table
    unfolding process_rule
    process_rule_inserts rule is_new saving a s h saves absent =
        let (b, calls) =
          enriched equal_fold sha1_hex render debounce max_window show nil_json object fetch rule
            is_new s.alert s.calls in
        let k = Keeps-trans a s.alert b h (
          enriched-Keeps equal_fold sha1_hex render debounce max_window show nil_json object fetch
            rule is_new s.alert s.calls) in
        let same = Keeps-annotations a b k in
        subst
          (λ c.
            Inserted rule saving.now c b.annotations
              (save_member equal_fold sha1_hex render debounce max_window rule b saving s.table))
          same
          (save_member_inserts rule b saving s.table saves
            (ap (λ labels. find_row (compute_group_key sha1_hex rule labels) s.table) k.0 ∙ absent))

    ingest_nothing :
        (is_new : Bool) (saving : Str → Saving) (s : Ingest) → ingest [] is_new saving s ≡ s
    unfolding process_alert
    ingest_nothing is_new saving s = refl

    -- The alert as the rules up to one leave it.
    ingest_up_to :
        (before : List WorkflowRule) (rule : WorkflowRule) (is_new : Bool) (saving : Str → Saving)
        (s : Ingest)
        → matches rule s.alert.labels ≡ true
        → ingest (before ++ (rule ∷ [])) is_new saving s
          ≡ ingest_rule rule is_new (saving rule.name) (ingest before is_new saving s)
    ingest_up_to before rule is_new saving s fits =
        let s' = ingest before is_new saving s in
        let h =
          process_alert-Keeps equal_fold sha1_hex render debounce max_window show nil_json object
            fetch before is_new saving s in
        run-append equal_fold sha1_hex render debounce max_window show nil_json object fetch before
          (rule ∷ []) is_new saving s
        ∙ (run_fits equal_fold sha1_hex render debounce max_window show nil_json object fetch rule
              [] is_new saving s' (ap (λ labels. matches rule labels) h.0 ∙ fits)
            ∙ ingest_nothing is_new saving _)

    pub process_alert_inserts :
        (before after : List WorkflowRule) (rule : WorkflowRule) (is_new : Bool)
        (saving : Str → Saving) (s : Ingest)
        → let key = compute_group_key sha1_hex rule s.alert.labels in
          matches rule s.alert.labels ≡ true
          → (saving rule.name).saves ≡ true
          → find_row key s.table ≡ none
          → AreOthers key before s.alert
          → AreOthers key after s.alert
          → Inserted rule
              (saving rule.name).now
              s.alert
              (ingest (before ++ (rule ∷ [])) is_new saving s).alert.annotations
              (ingest (before ++ (rule ∷ after)) is_new saving s).table
    process_alert_inserts before after rule is_new saving s fits saves absent others_before
          others_after =
        let key = compute_group_key sha1_hex rule s.alert.labels in
        let s' = ingest before is_new saving s in
        let s'' = ingest_rule rule is_new (saving rule.name) s' in
        let h =
          process_alert-Keeps equal_fold sha1_hex render debounce max_window show nil_json object
            fetch before is_new saving s in
        let h' = Keeps-trans s.alert s'.alert s''.alert h (
          process_rule-Keeps equal_fold sha1_hex render debounce max_window show nil_json object
            fetch rule is_new (saving rule.name) s') in
        let still =
          find_row-process_alert_other equal_fold sha1_hex render debounce max_window show nil_json
            object fetch before is_new saving key s others_before
          ∙ absent in
        let (r, found, is_fresh) =
          process_rule_inserts rule is_new (saving rule.name) s.alert s' h saves still in
        (
          r,
          ap (λ x. find_row key x.table)
                (run-append equal_fold sha1_hex render debounce max_window show nil_json object
                    fetch before (rule ∷ after) is_new saving s
                  ∙ run_fits equal_fold sha1_hex render debounce max_window show nil_json object
                      fetch rule after is_new saving s'
                      (ap (λ labels. matches rule labels) h.0 ∙ fits))
              ∙ (find_row-process_alert_other equal_fold sha1_hex render debounce max_window show
                    nil_json object fetch after is_new saving key s''
                    (Misses-Keeps equal_fold sha1_hex render debounce max_window show nil_json
                      object fetch key after s.alert s''.alert h' others_after)
                  ∙ found),
          subst
              (λ x.
                IsNewRow debounce (saving rule.name).now rule key
                  (IsMember equal_fold render rule
                    (record s.alert { annotations = x.alert.annotations }))
                  r)
              (sym (ingest_up_to before rule is_new saving s fits)) is_fresh,
        )
