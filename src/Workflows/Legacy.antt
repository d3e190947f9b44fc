-- ===== src/Workflows/Legacy.antt =====
-- internal/workflows/legacy_yaml.go: the import of the old YAML files. `files` are the texts of the
-- files or `none` for one that cannot be read, `decode` is the YAML decoder and `equal_fold` is
-- strings.EqualFold. A file's absent list is empty.
pub mod Import
use alertory.Prelude.{
  ℕ, Bool, true, false, not, ◌&&◌, ◌||◌, List, [], ◌∷◌, ◌++◌, Option, none, some, eqb, leb,
  if◌then◌else◌,
}
use alertory.Text.{Str, str, ◌==◌}
use alertory.Text.Parts.{after_marker}
use alertory.Map.{Map}
use alertory.Slack.{is_empty}
use alertory.Db.Rules.{Enrichment, WorkflowRule}

pub record LegacyField : Type 0 where
  pub title : Str
  pub value : Str

pub record LegacyAttachment : Type 0 where
  pub title : Str
  pub fields : List LegacyField

pub record LegacyAction : Type 0 where
  pub kind : Str
  pub channel : Str
  pub attachments : List LegacyAttachment

-- Its enrichments have the fields of those of a rule.
pub record LegacyRule : Type 0 where
  pub name : Str
  pub match_labels : Map Str
  pub enrichments : List Enrichment
  pub actions : List LegacyAction

unfoldable pub is_ident_char : ℕ → Bool
is_ident_char c =
    eqb c b'_'
    || (leb b'a' c && leb c b'z')
    || (leb b'A' c && leb c b'Z')
    || (leb b'0' c && leb c b'9')

-- The characters of an identifier at the start.
unfoldable pub ident_of : Str → Str
unfolding is_ident_char
ident_of [] = []
ident_of (c ∷ s) = let rest = ident_of s in if is_ident_char c then c ∷ rest else []

unfoldable pub ident_after_marker : Str → Str → Str
unfolding after_marker ident_of
ident_after_marker template marker = elim (after_marker marker template) [
  | none ↦ []
  | some rest ↦ ident_of rest
]

unfoldable pub label_from_template : Str → Str
unfolding ident_after_marker
label_from_template template = ident_after_marker template (str ".Labels.")

unfoldable pub annotation_from_template : Str → Str
unfolding ident_after_marker
annotation_from_template template = ident_after_marker template (str ".Annotations.")

module _ (equal_fold : Str → Str → Bool) where
  -- These fields are set by the program itself.
  abbrev pub is_automatic : Str → Bool
  is_automatic title =
      equal_fold title (str "Starts At")
      || equal_fold title (str "Resolved At")
      || equal_fold title (str "Team")

  unfoldable pub import_field : LegacyField → WorkflowRule → WorkflowRule
  unfolding label_from_template annotation_from_template is_empty
  import_field f rule =
      let label = label_from_template f.value in
      let key = annotation_from_template f.value in
      if equal_fold f.title (str "Target")
      then (if is_empty label then rule else record rule { target_label = label })
      else if is_automatic f.title
      then rule
      else if is_empty key
      then rule
      else record rule {
        extra_fields = rule.extra_fields ++ (record { title = f.title; annotation_key = key } ∷ []);
      }

  unfoldable pub import_fields : List LegacyField → WorkflowRule → WorkflowRule
  unfolding import_field
  import_fields [] rule = rule
  import_fields (f ∷ fields) rule = import_fields fields (import_field f rule)

  unfoldable pub import_attachments : List LegacyAttachment → WorkflowRule → WorkflowRule
  unfolding import_fields
  import_attachments [] rule = rule
  import_attachments (a ∷ attachments) rule =
      import_attachments attachments (import_fields a.fields rule)

  -- Only a Slack action with a channel counts, the last one for the channel.
  unfoldable pub import_action : LegacyAction → WorkflowRule → WorkflowRule
  unfolding import_attachments is_empty
  import_action a rule =
      if not (a.kind == str "slack") || is_empty a.channel
      then rule
      else import_attachments a.attachments (record rule { channel = a.channel })

  unfoldable pub import_actions : List LegacyAction → WorkflowRule → WorkflowRule
  unfolding import_action
  import_actions [] rule = rule
  import_actions (a ∷ actions) rule = import_actions actions (import_action a rule)

  unfoldable pub import_rule : LegacyRule → WorkflowRule
  unfolding import_actions
  import_rule l = import_actions l.actions (record {
    name = l.name;
    match_labels = l.match_labels;
    channel = [];
    team = [];
    target_label = [];
    group_by = [];
    extra_fields = [];
    enrichments = l.enrichments;
    enabled = true;
    display_title = [];
    notification_only = false;
  })

  -- A file without a Slack action brings no rule.
  abbrev with_imported : LegacyRule → List WorkflowRule → List WorkflowRule
  with_imported l rest =
      let rule = import_rule l in if is_empty rule.channel then rest else rule ∷ rest

  module _ (decode : Str → Option LegacyRule) where
    -- `none` is an error: a file that cannot be read or decoded ends the import.
    unfoldable pub load_legacy_yaml_rules : List (Option Str) → Option (List WorkflowRule)
    unfolding import_rule is_empty
    load_legacy_yaml_rules [] = some []
    load_legacy_yaml_rules (none ∷ files) = none
    load_legacy_yaml_rules (some text ∷ files) =
        let rest = load_legacy_yaml_rules files in
        elim (decode text) [
          | none ↦ none
          | some l ↦ elim rest [ none ↦ none | some rules ↦ some (with_imported l rules) ]
        ]
