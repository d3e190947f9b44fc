-- ===== src/Http/Rules/RoundTrip.antt =====
-- A rule that the form saved, opened in the edit form and saved again.
use alertory.Prelude.{ℕ, Bool, true, false, List, [], ◌∷◌, Option, some, ◌≡◌, refl, if◌then◌else◌}
use alertory.Text.{Str, str, ◌==◌}
use alertory.Text.Parts.{trim_space}
use alertory.Text.Trim.{trim_space_idem}
use alertory.Map.{get}
use alertory.Slack.{is_empty}
use alertory.Db.Rules.{Enrichment, WorkflowRule}
use alertory.Auth.{Session}
use alertory.Http.Forms.Lists.{parse_csv-join-parse_csv, normalize_channel_list_idem}
use alertory.Http.Forms.Fields.{parse_field_list-format-parse_field_list}
use alertory.Http.Forms.Labels.{get-parse_labels-format-parse_labels}
use alertory.Http.Rules.{
  RuleForm, RuleFormData, rule_of, read_enrichments, format_enrichments, form_data,
}

-- What a browser posts for the page: templates/rule_form.html.
unfoldable pub submitted : RuleFormData → RuleForm
submitted p = record {
  csrf_token = p.csrf_token;
  name = p.name;
  channel = p.channel;
  team = p.team;
  target_label = p.target_label;
  match_labels = p.match_labels;
  group_by = p.group_by;
  extra_fields = p.extra_fields;
  enrichments = p.enrichments;
  enabled = if p.enabled then str "on" else [];
  display_title = p.display_title;
  notification_only = if p.notification_only then str "on" else [];
}

-- The same rule, with its label constraints as a map.
abbrev pub IsSameRule : WorkflowRule → WorkflowRule → Type 0
IsSameRule r s =
    (r.name ≡ s.name)
    × ((k : Str) → get k r.match_labels ≡ get k s.match_labels)
    × (r.channel ≡ s.channel)
    × (r.team ≡ s.team)
    × (r.target_label ≡ s.target_label)
    × (r.group_by ≡ s.group_by)
    × (r.extra_fields ≡ s.extra_fields)
    × (r.enrichments ≡ s.enrichments)
    × (r.enabled ≡ s.enabled)
    × (r.display_title ≡ s.display_title)
    × (r.notification_only ≡ s.notification_only)

checkbox : (b : Bool) → ((if b then str "on" else []) == str "on") ≡ b
unfolding str ◌==◌
checkbox true = refl
checkbox false = refl

module _ (unmarshal : Str → Option (List Enrichment)) (marshal_indent : List Enrichment → Str) where
  -- encoding/json reads back what it wrote, and what it writes is a text without spaces around it.
  abbrev pub ReadsBack : List Enrichment → Type 0
  ReadsBack es =
      (trim_space (marshal_indent es) ≡ marshal_indent es)
      × (is_empty (marshal_indent es) ≡ false)
      × (unmarshal (marshal_indent es) ≡ some es)

  read_enrichments-format :
      (es : List Enrichment)
      → ReadsBack es
      → read_enrichments unmarshal (format_enrichments marshal_indent es) ≡ some es
  unfolding read_enrichments format_enrichments trim_space is_empty
  read_enrichments-format [] h = refl
  read_enrichments-format (e ∷ es) h = rw (h.0, h.1) h.2

  -- A rule that was saved from a form, and whose edit form is then submitted as it is shown, is
  -- saved as the same rule; where encoding/json reads back the enrichments.
  pub rule_of-submitted :
      (f : RuleForm) (es : List Enrichment) (session : Option Session) (id : ℕ)
      → ReadsBack es
      → let shown = submitted (form_data marshal_indent session id (rule_of f es)) in
        (es' : List Enrichment) × (read_enrichments unmarshal shown.enrichments ≡ some es')
        × IsSameRule (rule_of shown es') (rule_of f es)
  unfolding rule_of form_data submitted
  rule_of-submitted f es session id h = (
    es,
    read_enrichments-format es h,
    (
      trim_space_idem f.name,
      λ k. get-parse_labels-format-parse_labels f.match_labels k,
      normalize_channel_list_idem f.channel,
      trim_space_idem f.team,
      trim_space_idem f.target_label,
      parse_csv-join-parse_csv f.group_by,
      parse_field_list-format-parse_field_list f.extra_fields,
      refl,
      checkbox (f.enabled == str "on"),
      trim_space_idem f.display_title,
      checkbox (f.notification_only == str "on"),
    ),
  )
