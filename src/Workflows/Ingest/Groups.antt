-- ===== src/Workflows/Ingest/Groups.antt =====
-- Which rows of `alert_groups` an incoming alert changes, and what it leaves there.
use mathlib.Core.Path.{subst}
use alertory.Prelude.{
  Bool, true, false, List, [], ◌∷◌, ◌++◌, Option, none, some, ◌≡◌, ◌≢◌, refl, sym, ◌∙◌, ap, arith,
  All, Bool-cases, inl, inr, if◌then◌else◌,
}
use alertory.Text.{Str, str, eq_iff, eq_refl}
use alertory.Map.{Map, get, get-put}
use alertory.Clock.{Time, Duration}
use alertory.Db.Member.{GroupMember, MemberJson, marshal, unmarshal, unmarshal-marshal}
use alertory.Db.Groups.{Row, Table, GroupInfo, find_row, merge_member, inserted_row, updated_row}
use alertory.Db.Groups.Upsert.{upserted_row, find_row-upsert_group_member, concat_keeps}
use alertory.Db.Rules.{WorkflowRule, AlertUpsert, matches}
use alertory.Workflows.Rules.{Call, Fetched, compute_group_key}
use alertory.Workflows.Ingest.{
  Saving, Ingest, member_of, info_of, save_member, enriched, process_rule, process_alert,
}
use alertory.Workflows.Ingest.Keeps.{Keeps, Keeps-refl, Keeps-trans, enriched-Keeps}

-- The row's member of the fingerprint has the status, and the row waits for a flush.
abbrev pub Waits : Str → Str → Row → Type 0
Waits fingerprint status r =
    (j : MemberJson) × (get fingerprint r.members ≡ some j)
    × ((unmarshal j).status ≡ status)
    × (r.dirty ≡ true)

Waits-upserted_row :
    (info : GroupInfo) (m : GroupMember) (debounce max_window : Duration) (now : Time)
    (before : Option Row)
    → Waits m.fingerprint m.status (upserted_row info m debounce max_window now before)
unfolding upserted_row inserted_row updated_row merge_member get
Waits-upserted_row info m debounce max_window now none =
    (marshal m, rw (eq_refl m.fingerprint) refl, ap (λ x. x.status) (unmarshal-marshal m), refl)
Waits-upserted_row info m debounce max_window now (some r) = (
  merge_member (get m.fingerprint r.members) (marshal m),
  rw (get-put, eq_refl m.fingerprint) refl,
  merged (get m.fingerprint r.members),
  refl,
)
  where
    merged :
        (old : Option MemberJson) → (unmarshal (merge_member old (marshal m))).status ≡ m.status
    merged none = unfold merge_member in (concat_keeps _ m).0
    merged (some j) = unfold merge_member in (concat_keeps j m).0

module _ (equal_fold : Str → Str → Bool) (sha1_hex : Str → Str)
    (render : Str → Map Str → Option (Map Str) → Option Str) (debounce max_window : Duration)
    {Json : Type 0} (show : Json → Str) (nil_json : Json) (object : Map Json → Json)
    (fetch : List Call → Call → Fetched Json) where
  abbrev pub run : List WorkflowRule → Bool → (Str → Saving) → Ingest → Ingest
  run = process_alert equal_fold sha1_hex render debounce max_window show nil_json object fetch

  abbrev pub run_rule : WorkflowRule → Bool → Saving → Ingest → Ingest
  run_rule = process_rule equal_fold sha1_hex render debounce max_window show nil_json object fetch

  abbrev key_of : WorkflowRule → AlertUpsert → Str
  key_of rule a = compute_group_key sha1_hex rule a.labels

  pub process_rule-Keeps :
      (rule : WorkflowRule) (is_new : Bool) (saving : Saving) (s : Ingest)
      → Keeps s.alert (run_rule rule is_new saving s).alert
  unfolding process_rule
  process_rule-Keeps rule is_new saving s =
      enriched-Keeps equal_fold sha1_hex render debounce max_window show nil_json object fetch rule
        is_new s.alert s.calls

  abbrev save : WorkflowRule → AlertUpsert → Saving → Table → Table
  save = save_member equal_fold sha1_hex render debounce max_window

  find_row-save_member_other :
      (rule : WorkflowRule) (a : AlertUpsert) (saving : Saving) (k : Str) (t : Table)
      → key_of rule a ≢ k
      → find_row k (save rule a saving t) ≡ find_row k t
  unfolding save_member info_of
  find_row-save_member_other rule a saving k t other = elim (Bool-cases saving.saves) [
    | inl saves ↦
        rw
          (
            saves,
            find_row-upsert_group_member (info_of equal_fold sha1_hex render rule a.labels)
                (member_of equal_fold sha1_hex render rule a saving.updated_at) debounce max_window
                saving.now k t,
          )
          (ground (arith, eq_iff (key_of rule a) k, other))
    | inr fails ↦ rw fails refl
  ]

  -- A rule leaves every row but that of its key as it is.
  find_row-process_rule_other :
      (rule : WorkflowRule) (is_new : Bool) (saving : Saving) (k : Str) (s : Ingest)
      → key_of rule s.alert ≢ k
      → find_row k (run_rule rule is_new saving s).table ≡ find_row k s.table
  unfolding process_rule
  find_row-process_rule_other rule is_new saving k s other =
      let (a, calls) =
        enriched equal_fold sha1_hex render debounce max_window show nil_json object fetch rule
          is_new s.alert s.calls in
      find_row-save_member_other rule a saving k s.table (λ same. other (
        ap (compute_group_key sha1_hex rule) (
          sym
            (enriched-Keeps equal_fold sha1_hex render debounce max_window show nil_json object
              fetch rule is_new s.alert s.calls).0)
        ∙ same))

  pub run_fits :
      (rule : WorkflowRule) (rules : List WorkflowRule) (is_new : Bool) (saving : Str → Saving)
      (s : Ingest)
      → matches rule s.alert.labels ≡ true
      → run (rule ∷ rules) is_new saving s
        ≡ run rules is_new saving (run_rule rule is_new (saving rule.name) s)
  unfolding process_alert
  run_fits rule rules is_new saving s fits =
      ap (λ b. run rules is_new saving (if b then run_rule rule is_new (saving rule.name) s else s))
        fits

  run_passes :
      (rule : WorkflowRule) (rules : List WorkflowRule) (is_new : Bool) (saving : Str → Saving)
      (s : Ingest)
      → matches rule s.alert.labels ≡ false
      → run (rule ∷ rules) is_new saving s ≡ run rules is_new saving s
  unfolding process_alert
  run_passes rule rules is_new saving s passes =
      ap (λ b. run rules is_new saving (if b then run_rule rule is_new (saving rule.name) s else s))
        passes

  pub process_alert-Keeps :
      (rules : List WorkflowRule) (is_new : Bool) (saving : Str → Saving) (s : Ingest)
      → Keeps s.alert (run rules is_new saving s).alert
  process_alert-Keeps [] is_new saving s = unfold process_alert in Keeps-refl s.alert
  process_alert-Keeps (rule ∷ rules) is_new saving s =
      elim (Bool-cases (matches rule s.alert.labels)) [
        | inl fits ↦ rw (run_fits rule rules is_new saving s fits) (
            let s' = run_rule rule is_new (saving rule.name) s in
            Keeps-trans s.alert s'.alert (run rules is_new saving s').alert
              (process_rule-Keeps rule is_new (saving rule.name) s)
              (process_alert-Keeps rules is_new saving s'))
        | inr passes ↦
            rw (run_passes rule rules is_new saving s passes)
              (process_alert-Keeps rules is_new saving s)
      ]

  -- No rule of the list that matches has the key.
  abbrev pub Misses : Str → List WorkflowRule → AlertUpsert → Type 0
  Misses k rules a = All (λ rule. matches rule a.labels ≡ true → key_of rule a ≢ k) rules

  pub Misses-Keeps :
      (k : Str) (rules : List WorkflowRule) (a b : AlertUpsert)
      → Keeps a b
      → Misses k rules a
      → Misses k rules b
  Misses-Keeps k rules a b h =
      subst
        (λ labels.
          All (λ rule. matches rule labels ≡ true → compute_group_key sha1_hex rule labels ≢ k)
            rules)
        (sym h.0)

  -- An alert leaves the row of a key as it is, if no rule that matches the alert has that key.
  pub find_row-process_alert_other :
      (rules : List WorkflowRule) (is_new : Bool) (saving : Str → Saving) (k : Str) (s : Ingest)
      → Misses k rules s.alert
      → find_row k (run rules is_new saving s).table ≡ find_row k s.table
  find_row-process_alert_other [] is_new saving k s misses = unfold process_alert in refl
  find_row-process_alert_other (rule ∷ rules) is_new saving k s misses =
      elim (Bool-cases (matches rule s.alert.labels)) [
        | inl fits ↦ rw (run_fits rule rules is_new saving s fits) (
            let s' = run_rule rule is_new (saving rule.name) s in
            find_row-process_alert_other rules is_new saving k s' (
              Misses-Keeps k rules s.alert s'.alert
                (process_rule-Keeps rule is_new (saving rule.name) s) misses.1)
            ∙ find_row-process_rule_other rule is_new (saving rule.name) k s (misses.0 fits))
        | inr passes ↦
            rw (run_passes rule rules is_new saving s passes)
              (find_row-process_alert_other rules is_new saving k s misses.1)
      ]

  pub run-append :
      (before after : List WorkflowRule) (is_new : Bool) (saving : Str → Saving) (s : Ingest)
      → run (before ++ after) is_new saving s ≡ run after is_new saving (run before is_new saving s)
  unfolding process_alert
  run-append [] after is_new saving s = refl
  run-append (rule ∷ before) after is_new saving s = run-append before after is_new saving _

  abbrev status_of : WorkflowRule → AlertUpsert → Str
  status_of rule a = if rule.notification_only then str "resolved" else a.status

  save_member-Waits :
      (rule : WorkflowRule) (a : AlertUpsert) (saving : Saving) (t : Table)
      → saving.saves ≡ true
      → (r : Row) × (find_row (key_of rule a) (save rule a saving t) ≡ some r)
        × Waits a.fingerprint (status_of rule a) r
  unfolding save_member info_of member_of
  save_member-Waits rule a saving t saves =
      let info = info_of equal_fold sha1_hex render rule a.labels in
      let m = member_of equal_fold sha1_hex render rule a saving.updated_at in
      (
        upserted_row info m debounce max_window saving.now (find_row (key_of rule a) t),
        rw
            (
              saves,
              find_row-upsert_group_member info m debounce max_window saving.now (key_of rule a) t,
              eq_refl (key_of rule a),
            )
            refl,
        Waits-upserted_row info m debounce max_window saving.now (find_row (key_of rule a) t),
      )

  process_rule-Waits :
      (rule : WorkflowRule) (is_new : Bool) (saving : Saving) (a : AlertUpsert) (s : Ingest)
      → Keeps a s.alert
      → saving.saves ≡ true
      → (r : Row) × (find_row (key_of rule a) (run_rule rule is_new saving s).table ≡ some r)
        × Waits a.fingerprint (status_of rule a) r
  unfolding process_rule
  process_rule-Waits rule is_new saving a s h saves =
      let (b, calls) =
        enriched equal_fold sha1_hex render debounce max_window show nil_json object fetch rule
          is_new s.alert s.calls in
      let k = Keeps-trans a s.alert b h (
        enriched-Keeps equal_fold sha1_hex render debounce max_window show nil_json object fetch
          rule is_new s.alert s.calls) in
      let (r, found, (j, stored, sent, dirty)) = save_member-Waits rule b saving s.table saves in
      (
        r,
        ap
              (λ labels.
                find_row (compute_group_key sha1_hex rule labels) (save rule b saving s.table))
              (sym k.0)
            ∙ found,
        (
          j,
          ap (λ fp. get fp r.members) (sym k.1) ∙ stored,
          sent ∙ ap (λ st. if rule.notification_only then str "resolved" else st) k.2,
          dirty,
        ),
      )

  -- After an alert, the group of every rule that matches it and whose statement succeeds has the
  -- alert as a member, with the alert's status (or "resolved" for a notification-only rule), and
  -- waits for a flush; if no later rule that matches has the same group.
  pub process_alert-Waits :
      (before after : List WorkflowRule) (rule : WorkflowRule) (is_new : Bool)
      (saving : Str → Saving) (s : Ingest)
      → matches rule s.alert.labels ≡ true
      → (saving rule.name).saves ≡ true
      → Misses (key_of rule s.alert) after s.alert
      → (r : Row) × (find_row
            (key_of rule s.alert)
            (run (before ++ (rule ∷ after)) is_new saving s).table
          ≡ some r)
        × Waits s.alert.fingerprint (status_of rule s.alert) r
  process_alert-Waits before after rule is_new saving s fits saves misses =
      let s' = run before is_new saving s in
      let s'' = run_rule rule is_new (saving rule.name) s' in
      let h = process_alert-Keeps before is_new saving s in
      let h' =
        Keeps-trans s.alert s'.alert s''.alert h
          (process_rule-Keeps rule is_new (saving rule.name) s') in
      let (r, found, waits) =
        process_rule-Waits rule is_new (saving rule.name) s.alert s' h saves in
      (
        r,
        ap (λ x. find_row (key_of rule s.alert) x.table)
              (run-append before (rule ∷ after) is_new saving s
                ∙ run_fits rule after is_new saving s'
                    (ap (λ labels. matches rule labels) h.0 ∙ fits))
            ∙ (find_row-process_alert_other after is_new saving (key_of rule s.alert) s''
                  (Misses-Keeps (key_of rule s.alert) after s.alert s''.alert h' misses)
                ∙ found),
        waits,
      )
