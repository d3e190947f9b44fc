-- ===== src/Workflows/Legacy/Import.antt =====
-- What the import of old files makes of them.
use alertory.Prelude.{
  Bool, true, false, not, ◌&&◌, ◌||◌, List, [], ◌∷◌, keep, Option, none, some, ◌≡◌, refl, ◌∙◌, ap,
  arith, Bool-cases, inl, inr, if◌then◌else◌,
}
use alertory.Text.{Str, str, ◌==◌}
use alertory.Slack.{is_empty}
use alertory.Db.Rules.{WorkflowRule}
use alertory.Workflows.Legacy.{
  LegacyField, LegacyAttachment, LegacyAction, LegacyRule, import_field, import_fields,
  import_attachments, import_action, import_actions, import_rule, load_legacy_yaml_rules,
}

-- The Slack actions with a channel.
abbrev pub is_slack : LegacyAction → Bool
is_slack a = a.kind == str "slack" && not (is_empty a.channel)

-- The channel of the last of them, or else the given one.
abbrev pub last_channel : Str → List LegacyAction → Str
last_channel ch [] = ch
last_channel ch (a ∷ actions) = last_channel (if is_slack a then a.channel else ch) actions

-- The rules agree in all but the target label and the fields.
abbrev pub IsLike : WorkflowRule → WorkflowRule → Type 0
IsLike r s =
    (r.name ≡ s.name)
    × (r.match_labels ≡ s.match_labels)
    × (r.channel ≡ s.channel)
    × (r.enrichments ≡ s.enrichments)
    × (r.enabled ≡ s.enabled)

IsLike-trans : (a b c : WorkflowRule) → IsLike a b → IsLike b c → IsLike a c
IsLike-trans a b c h k = (h.0 ∙ k.0, h.1 ∙ k.1, h.2 ∙ k.2, h.3 ∙ k.3, h.4 ∙ k.4)

module _ (equal_fold : Str → Str → Bool) where
  import_field-IsLike :
      (f : LegacyField) (rule : WorkflowRule) → IsLike (import_field equal_fold f rule) rule
  unfolding import_field
  import_field-IsLike f rule = ground arith

  import_fields-IsLike :
      (fields : List LegacyField) (rule : WorkflowRule)
      → IsLike (import_fields equal_fold fields rule) rule
  unfolding import_fields
  import_fields-IsLike [] rule = (refl, refl, refl, refl, refl)
  import_fields-IsLike (f ∷ fields) rule =
      let next = import_field equal_fold f rule in
      IsLike-trans (import_fields equal_fold fields next) next rule
        (import_fields-IsLike fields next) (import_field-IsLike f rule)

  import_attachments-IsLike :
      (attachments : List LegacyAttachment) (rule : WorkflowRule)
      → IsLike (import_attachments equal_fold attachments rule) rule
  unfolding import_attachments
  import_attachments-IsLike [] rule = (refl, refl, refl, refl, refl)
  import_attachments-IsLike (a ∷ attachments) rule =
      let next = import_fields equal_fold a.fields rule in
      IsLike-trans (import_attachments equal_fold attachments next) next rule
        (import_attachments-IsLike attachments next) (import_fields-IsLike a.fields rule)

  -- An action leaves the rule, or brings its channel.
  import_action-IsLike :
      (a : LegacyAction) (rule : WorkflowRule)
      → IsLike
          (import_action equal_fold a rule)
          (record rule { channel = if is_slack a then a.channel else rule.channel })
  unfolding import_action
  import_action-IsLike a rule = elim (Bool-cases (is_slack a)) [
    | inl slack ↦
        let wanted : (not (a.kind == str "slack") || is_empty a.channel) ≡ false = ground arith in
        rw (wanted, slack)
          (import_attachments-IsLike a.attachments (record rule { channel = a.channel }))
    | inr other ↦
        let unwanted : (not (a.kind == str "slack") || is_empty a.channel) ≡ true = ground arith in
        rw (unwanted, other) (refl, refl, refl, refl, refl)
  ]

  import_actions-IsLike :
      (actions : List LegacyAction) (rule : WorkflowRule)
      → IsLike
          (import_actions equal_fold actions rule)
          (record rule { channel = last_channel rule.channel actions })
  unfolding import_actions
  import_actions-IsLike [] rule = (refl, refl, refl, refl, refl)
  import_actions-IsLike (a ∷ actions) rule =
      let next = import_action equal_fold a rule in
      let step = import_action-IsLike a rule in
      IsLike-trans (import_actions equal_fold actions next)
        (record next { channel = last_channel next.channel actions })
        (record rule { channel = last_channel rule.channel (a ∷ actions) })
        (import_actions-IsLike actions next)
        (step.0, step.1, ap (λ ch. last_channel ch actions) step.2, step.3, step.4)

  -- The file's rule.
  abbrev pub IsImport : LegacyRule → WorkflowRule → Type 0
  IsImport l rule =
      (rule.name ≡ l.name)
      × (rule.match_labels ≡ l.match_labels)
      × (rule.channel ≡ last_channel [] l.actions)
      × (rule.enrichments ≡ l.enrichments)
      × (rule.enabled ≡ true)

  import_rule-IsImport : (l : LegacyRule) → IsImport l (import_rule equal_fold l)
  unfolding import_rule
  import_rule-IsImport l = import_actions-IsLike l.actions _

  -- The file names a channel.
  abbrev pub has_channel : LegacyRule → Bool
  has_channel l = not (is_empty (last_channel [] l.actions))

  -- The rules stand for the files, one for one.
  abbrev pub AreImports : List LegacyRule → List WorkflowRule → Type 0
  AreImports [] [] = Unit
  AreImports [] (rule ∷ rules) = ⊥
  AreImports (l ∷ ls) [] = ⊥
  AreImports (l ∷ ls) (rule ∷ rules) = IsImport l rule × AreImports ls rules

  module _ (decode : Str → Option LegacyRule) where
    -- The files can all be read and decoded.
    abbrev pub Decodes : List (Option Str) → List LegacyRule → Type 0
    Decodes [] [] = Unit
    Decodes [] (l ∷ ls) = ⊥
    Decodes (file ∷ files) [] = ⊥
    Decodes (none ∷ files) (l ∷ ls) = ⊥
    Decodes (some text ∷ files) (l ∷ ls) = (decode text ≡ some l) × Decodes files ls

    -- Where every file can be read and decoded, the import succeeds. It has a rule for just each
    -- file that has a Slack action with a channel, in the order of the files, with the file's
    -- name, labels and enrichments and the channel of its last such action, and enabled.
    pub load_legacy_yaml_rules_lem :
        (files : List (Option Str)) (ls : List LegacyRule)
        → Decodes files ls
        → (rules : List WorkflowRule) × (load_legacy_yaml_rules equal_fold decode files
            ≡ some rules)
          × AreImports (keep has_channel ls) rules
    unfolding load_legacy_yaml_rules
    load_legacy_yaml_rules_lem [] [] h = ([], refl, tt)
    load_legacy_yaml_rules_lem [] (l ∷ ls) h = absurd h
    load_legacy_yaml_rules_lem (none ∷ files) [] h = absurd h
    load_legacy_yaml_rules_lem (some text ∷ files) [] h = absurd h
    load_legacy_yaml_rules_lem (none ∷ files) (l ∷ ls) h = absurd h
    load_legacy_yaml_rules_lem (some text ∷ files) (l ∷ ls) h =
        let (rules, loads, imports) = load_legacy_yaml_rules_lem files ls h.1 in
        let imported = import_rule-IsImport l in
        elim (Bool-cases (is_empty (last_channel [] l.actions))) [
          | inl lacks ↦ (
            rules,
            rw (h.0, loads, load_legacy_yaml_rules)
                (ap (λ b. some (if b then rules else import_rule equal_fold l ∷ rules))
                  (ap is_empty imported.2 ∙ lacks)),
            rw lacks imports,
          )
          | inr names ↦ (
            import_rule equal_fold l ∷ rules,
            rw (h.0, loads, load_legacy_yaml_rules)
                (ap (λ b. some (if b then rules else import_rule equal_fold l ∷ rules))
                  (ap is_empty imported.2 ∙ names)),
            rw names (imported, imports),
          )
        ]
