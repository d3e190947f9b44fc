-- ===== src/Tests/Forms.antt =====
-- A rule through its edit form.
use alertory.Prelude.{refl, List, [], ◌∷◌, Option, some, none, ◌≡◌}
use alertory.Text.{Str, str}
use alertory.Text.Parts.{trim_space, is_space}
use alertory.Slack.{is_empty}
use alertory.Db.Rules.{Enrichment}
use alertory.Http.Rules.{RuleForm, rule_of, read_enrichments, form_data}
use alertory.Http.Rules.RoundTrip.{submitted, IsSameRule, rule_of-submitted}

abbrev lookup : Enrichment
lookup = record {
  name = str "owner";
  url = str "http://cmdb";
  method = str "GET";
  params = [];
  response_field = str "owner";
  store_in = str "owner";
}

-- A JSON that knows one list.
abbrev unmarshal : Str → Option (List Enrichment)
unmarshal text = some (lookup ∷ [])

abbrev marshal_indent : List Enrichment → Str
marshal_indent es = str "[owner]"

abbrev form : RuleForm
form = record {
  csrf_token = str "t";
  name = str " disk ";
  channel = str "C1,,C2 , C1";
  team = str "ops";
  target_label = str "instance";
  match_labels = str "severity = critical\nbroken\n";
  group_by = str "instance, ,job";
  extra_fields = str "Runbook=runbook_url";
  enrichments = str "[owner]";
  enabled = str "on";
  display_title = [];
  notification_only = [];
}

rule_of-submitted_example :
    let shown = submitted (form_data marshal_indent none 3 (rule_of form (lookup ∷ []))) in
    (es' : List Enrichment) × (read_enrichments unmarshal shown.enrichments ≡ some es')
    × IsSameRule (rule_of shown es') (rule_of form (lookup ∷ []))
unfolding trim_space is_empty str is_space
rule_of-submitted_example =
    rule_of-submitted unmarshal marshal_indent form (lookup ∷ []) none 3 (refl, refl, refl)
