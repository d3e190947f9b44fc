-- ===== src/Tests/Legacy.antt =====
-- The import of a concrete old file.
use alertory.Prelude.{refl, List, [], ◌∷◌, Option, some, ◌≡◌, keep}
use alertory.Text.{Str, str, ◌==◌}
use alertory.Db.Rules.{WorkflowRule}
use alertory.Workflows.Legacy.{
  LegacyRule, LegacyAction, load_legacy_yaml_rules, label_from_template,
}
use alertory.Workflows.Legacy.Import.{has_channel, AreImports, load_legacy_yaml_rules_lem}

abbrev slack : LegacyAction
slack = record {
  kind = str "slack";
  channel = str "C1";
  attachments =
      record {
        title = [];
        fields = record { title = str "Target"; value = str "{{ .Labels.host }}" } ∷ [];
      }
      ∷ [];
}

abbrev file : LegacyRule
file = record { name = str "disk"; match_labels = []; enrichments = []; actions = slack ∷ [] }

abbrev decode : Str → Option LegacyRule
decode text = some file

label_of_host : label_from_template (str "{{ .Labels.host }}") ≡ str "host"
unfolding label_from_template str
label_of_host = refl

load_legacy_yaml_rules_lem_example :
    (rules : List WorkflowRule) × (load_legacy_yaml_rules ◌==◌ decode (some (str "name: disk") ∷ [])
      ≡ some rules)
    × AreImports ◌==◌ (keep (has_channel ◌==◌) (file ∷ [])) rules
load_legacy_yaml_rules_lem_example =
    load_legacy_yaml_rules_lem ◌==◌ decode (some (str "name: disk") ∷ []) (file ∷ []) (refl, tt)
