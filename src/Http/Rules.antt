-- ===== src/Http/Rules.antt =====
-- The handlers for rules in internal/http/webui.go. `unmarshal` and `marshal_indent` are
-- encoding/json on the enrichments; a statement may fail (`writes`, `reads`).
pub mod RoundTrip
pub mod Reach
use alertory.Prelude.{
  ℕ, ◌^◌, ◌-◌, Bool, true, false, not, ◌&&◌, ◌||◌, List, [], ◌∷◌, ◌++◌, Option, none, some,
  if◌then◌else◌, eqb,
}
use alertory.Text.{Str, str, ◌==◌}
use alertory.Text.Parts.{trim_space, join, decimal}
use alertory.Text.Numbers.{Parsed, malformed, out_of_range, number, parse_int}
use alertory.Slack.{is_empty}
use alertory.Db.Rules.{Enrichment, WorkflowRule}
use alertory.Db.Rules.Table.{
  RuleRow, RuleTable, get_workflow_rule, upsert_workflow_rule, delete_workflow_rule,
}
use alertory.Auth.{Session, check_csrf}
use alertory.Http.Reply.{Reply, status, redirect, rendered}
use alertory.Http.Forms.{
  parse_labels, format_labels, parse_csv, parse_field_list, format_field_list,
  normalize_channel_list,
}

unfoldable pub current_user : Option Session → Str
unfolding is_empty
current_user none = []
current_user (some s) = if is_empty s.email then s.name else s.email

unfoldable pub csrf_token_of : Option Session → Str
csrf_token_of none = []
csrf_token_of (some s) = s.csrf_token

-- The values that `r.FormValue` reads.
pub record RuleForm : Type 0 where
  pub csrf_token : Str
  pub name : Str
  pub channel : Str
  pub team : Str
  pub target_label : Str
  pub match_labels : Str
  pub group_by : Str
  pub extra_fields : Str
  pub enrichments : Str
  pub enabled : Str
  pub display_title : Str
  pub notification_only : Str

-- The page of the rule form, without the name of the active tab. A negative id has no page.
pub record RuleFormData : Type 0 where
  pub user : Str
  pub csrf_token : Str
  pub form_action : Str
  pub submit : Str
  pub id : ℕ
  pub name : Str
  pub channel : Str
  pub team : Str
  pub target_label : Str
  pub match_labels : Str
  pub group_by : Str
  pub extra_fields : Str
  pub enrichments : Str
  pub enabled : Bool
  pub display_title : Str
  pub notification_only : Bool

pub record RulesPage : Type 0 where
  pub user : Str
  pub csrf_token : Str
  pub rules : List RuleRow

-- ListWorkflowRules; `by_name` puts the rows in the order of the database's collation.
unfoldable pub rules_list_handler :
    (List RuleRow → List RuleRow) → Option Session → Bool → RuleTable → Reply RulesPage
unfolding current_user csrf_token_of
rules_list_handler by_name session reads t =
    if reads
    then rendered (record {
      user = current_user session;
      csrf_token = csrf_token_of session;
      rules = by_name t.rows;
    })
    else status 500

unfoldable pub new_rule_form_handler : Option Session → Reply RuleFormData
unfolding current_user csrf_token_of
new_rule_form_handler session = rendered (record {
  user = current_user session;
  csrf_token = csrf_token_of session;
  form_action = str "/ui/rules";
  submit = str "Create rule";
  id = 0;
  name = [];
  channel = [];
  team = [];
  target_label = [];
  match_labels = [];
  group_by = [];
  extra_fields = [];
  enrichments = [];
  enabled = true;
  display_title = [];
  notification_only = false;
})

-- The id of a row that a parsed number names: no row has a negative id.
unfoldable pub row_id : Bool → ℕ → Option ℕ
row_id negative n = if negative && not (eqb n 0) then none else some n

-- `id, _ = strconv.ParseInt(…)`: an error is dropped, so a syntax error gives 0, and a number out
-- of range the nearest int64.
unfoldable pub saved_id : Str → Option ℕ
unfolding parse_int row_id is_empty
saved_id text = if is_empty text then some 0 else elim (parse_int text) [
  | malformed ↦ some 0
  | out_of_range negative ↦ row_id negative (2 ^ 63 - 1)
  | number negative n ↦ row_id negative n
]

-- A statement on the row of an id, where a negative id has none.
abbrev upsert_at : Option ℕ → WorkflowRule → RuleTable → Option RuleTable
upsert_at none rule t = some t
upsert_at (some id) rule t = upsert_workflow_rule id rule t

abbrev delete_at : Option ℕ → RuleTable → RuleTable
delete_at none t = t
delete_at (some id) t = delete_workflow_rule id t

unfoldable pub rule_of : RuleForm → List Enrichment → WorkflowRule
unfolding trim_space normalize_channel_list parse_labels parse_csv parse_field_list
rule_of f enrichments = record {
  name = trim_space f.name;
  match_labels = parse_labels f.match_labels;
  channel = normalize_channel_list f.channel;
  team = trim_space f.team;
  target_label = trim_space f.target_label;
  group_by = parse_csv f.group_by;
  extra_fields = parse_field_list f.extra_fields;
  enrichments = enrichments;
  enabled = f.enabled == str "on";
  display_title = trim_space f.display_title;
  notification_only = f.notification_only == str "on";
}

-- The table after an upsert; an error of the statement, or of its UNIQUE (name), is a 500.
unfoldable pub save_rule : Option ℕ → WorkflowRule → Bool → RuleTable → Reply ⊥ × RuleTable
unfolding upsert_workflow_rule is_empty
save_rule id rule writes t =
    if is_empty rule.name || is_empty rule.channel
    then (status 400, t)
    else if writes
    then elim (upsert_at id rule t) [
      | none ↦ (status 500, t)
      | some t' ↦ (redirect (str "/ui/rules"), t')
    ]
    else (status 500, t)

unfoldable pub delete_rule : Parsed → Bool → RuleTable → Reply ⊥ × RuleTable
unfolding delete_workflow_rule row_id
delete_rule malformed writes t = (status 404, t)
delete_rule (out_of_range negative) writes t = (status 404, t)
delete_rule (number negative n) writes t =
    if writes
    then (redirect (str "/ui/rules"), delete_at (row_id negative n) t)
    else (status 500, t)

-- `parsed` is whether the form parses; the id is the one of the path.
unfoldable pub delete_rule_handler :
    Bool → Option Session → Str → Str → Bool → RuleTable → Reply ⊥ × RuleTable
unfolding check_csrf delete_rule parse_int
delete_rule_handler parsed session csrf id writes t =
    if not parsed
    then (status 400, t)
    else if not (check_csrf session csrf)
    then (status 403, t)
    else delete_rule (parse_int id) writes t

module _ (unmarshal : Str → Option (List Enrichment)) where
  unfoldable pub read_enrichments : Str → Option (List Enrichment)
  unfolding is_empty trim_space
  read_enrichments raw =
      let text = trim_space raw in if is_empty text then some [] else unmarshal text

  -- The id is the one of the path, "" where the form makes a new rule.
  unfoldable pub save_rule_handler :
      Bool → Option Session → Str → RuleForm → Bool → RuleTable → Reply ⊥ × RuleTable
  unfolding check_csrf read_enrichments saved_id rule_of save_rule
  save_rule_handler parsed session id f writes t =
      if not parsed
      then (status 400, t)
      else if not (check_csrf session f.csrf_token)
      then (status 403, t)
      else elim (read_enrichments f.enrichments) [
        | none ↦ (status 400, t)
        | some enrichments ↦ save_rule (saved_id id) (rule_of f enrichments) writes t
      ]

module _ (marshal_indent : List Enrichment → Str) where
  -- `json.MarshalIndent` of enrichments does not fail.
  unfoldable pub format_enrichments : List Enrichment → Str
  unfolding is_empty
  format_enrichments es = if is_empty es then [] else marshal_indent es

  unfoldable pub form_data : Option Session → ℕ → WorkflowRule → RuleFormData
  unfolding current_user csrf_token_of format_labels format_field_list format_enrichments
  form_data session id rule = record {
    user = current_user session;
    csrf_token = csrf_token_of session;
    form_action = str "/ui/rules/" ++ decimal id;
    submit = str "Save changes";
    id = id;
    name = rule.name;
    channel = rule.channel;
    team = rule.team;
    target_label = rule.target_label;
    match_labels = format_labels rule.match_labels;
    group_by = join (str ", ") rule.group_by;
    extra_fields = format_field_list rule.extra_fields;
    enrichments = format_enrichments rule.enrichments;
    enabled = rule.enabled;
    display_title = rule.display_title;
    notification_only = rule.notification_only;
  }

  abbrev edit_page : Option Session → Option ℕ → RuleTable → Reply RuleFormData
  edit_page session none t = status 404
  edit_page session (some id) t = elim (get_workflow_rule id t.rows) [
    | none ↦ status 404
    | some rule ↦ rendered (form_data session id rule)
  ]

  abbrev edit_form_of : Option Session → Parsed → Bool → RuleTable → Reply RuleFormData
  edit_form_of session malformed reads t = status 404
  edit_form_of session (out_of_range negative) reads t = status 404
  edit_form_of session (number negative n) reads t =
      if reads then edit_page session (row_id negative n) t else status 500

  unfoldable pub edit_rule_form_handler :
      Option Session → Str → Bool → RuleTable → Reply RuleFormData
  unfolding parse_int row_id get_workflow_rule form_data
  edit_rule_form_handler session id reads t = edit_form_of session (parse_int id) reads t
