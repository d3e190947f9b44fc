-- ===== src/Workflows/Rules.antt =====
-- internal/workflows/rules.go: an incoming alert becomes a member of one group for each rule that
-- matches. `fetch` is the HTTP client with the JSON decoder, `render` a text template (`none` on an
-- error), `show` is `%v`, `sha1_hex` the hash in hexadecimal and `equal_fold` strings.EqualFold.
pub mod Keys
use alertory.Prelude.{
  Bool, true, false, not, ◌&&◌, ◌||◌, List, [], ◌∷◌, ◌++◌, map, take, Option, none, some,
  if◌then◌else◌,
}
use alertory.Text.{Str, str, ◌==◌}
use alertory.Text.Parts.{join, sort_strings, contains, trim_space}
use alertory.Map.{Map, get, put}
use alertory.Clock.{Time, Duration}
use alertory.Slack.{is_empty}
use alertory.Db.Member.{MemberField, GroupMember}
use alertory.Db.Groups.{Table, GroupInfo, upsert_group_member}
use alertory.Db.Rules.{EnrichmentParam, Enrichment, RuleField, WorkflowRule, AlertUpsert, matches}
use alertory.Workflows.Message.{truncate_value, max_field_value_len}

-- The value of a key, "" if there is none.
unfoldable pub value_or_empty : Option Str → Str
value_or_empty none = []
value_or_empty (some v) = v

unfoldable pub label_of : Map Str → Str → Str
unfolding value_or_empty
label_of labels k = value_or_empty (get k labels)

abbrev pub entries : Option (Map Str) → Map Str
entries none = []
entries (some m) = m

unfoldable pub group_keys : List Str → List Str
group_keys [] = str "alertname" ∷ []
group_keys (k ∷ keys) = k ∷ keys

abbrev pub key_part : Map Str → Str → Str
key_part labels k = k ++ (str "=" ++ label_of labels k)

-- What is hashed.
unfoldable pub group_text : WorkflowRule → Map Str → Str
unfolding group_keys label_of
group_text rule labels =
    let parts = map (key_part labels) (sort_strings (group_keys rule.group_by)) in
    rule.name ++ (str "|" ++ (rule.channel ++ (str "|" ++ join (str ",") parts)))

unfoldable pub compute_group_key : (Str → Str) → WorkflowRule → Map Str → Str
unfolding group_text
compute_group_key sha1_hex rule labels =
    rule.name ++ (str ":" ++ take 16 (sha1_hex (group_text rule labels)))

-- A call of an enrichment: its method and URL.
abbrev pub Call : Type 0
Call = Str × Str

-- An error of any step, or the object that was decoded.
pub data Fetched (Json : Type 0) : Type 0 where
  fetch_failed : Fetched Json
  fetched : Map Json → Fetched Json

-- Maps hold no key twice, so the sorted list of their keys is strictly sorted.
unfoldable pub map_keys : Map Str → List Str
map_keys [] = []
map_keys ((k, v) ∷ m) = k ∷ map_keys m

unfoldable pub query_part : Map Str → Str → Str
unfolding label_of
query_part params k = k ++ (str "=" ++ label_of params k)

unfoldable pub with_query : Str → Map Str → Str → Str
unfolding is_empty query_part map_keys
with_query method params url =
    if method == str "GET" && not (is_empty params)
    then url
      ++ (str "?" ++ join (str "&") (map (query_part params) (sort_strings (map_keys params))))
    else url

module _ (render : Str → Map Str → Option (Map Str) → Option Str) where
  -- A parameter whose template fails is left out.
  unfoldable pub render_params : Map Str → List EnrichmentParam → Map Str → Map Str
  render_params labels [] params = params
  render_params labels (p ∷ ps) params =
      render_params labels ps
        (elim (render p.value labels none) [ none ↦ params | some v ↦ put p.name v params ])

  -- The title that a template renders to, or the template where that gives nothing.
  unfoldable pub rendered_title : Str → Option Str → Str
  unfolding is_empty trim_space
  rendered_title tmpl none = tmpl
  rendered_title tmpl (some text) =
      let rendered = trim_space text in
      if is_empty rendered || rendered == str "<no value>"
      then tmpl
      else truncate_value rendered max_field_value_len

  unfoldable pub render_display_title : Str → AlertUpsert → Str
  unfolding rendered_title is_empty contains
  render_display_title tmpl alert =
      if is_empty tmpl || not (contains tmpl (str "{{"))
      then tmpl
      else rendered_title tmpl (render tmpl alert.labels alert.annotations)

  module _ {Json : Type 0} (show : Json → Str) (nil_json : Json) (object : Map Json → Json)
      (fetch : List Call → Call → Fetched Json) where
    abbrev pub method_of : Enrichment → Str
    method_of e = if is_empty e.method then str "GET" else e.method

    -- The URL of the call, if its template renders.
    unfoldable pub call_of : Enrichment → Map Str → Option Call
    unfolding is_empty render_params with_query
    call_of e labels = elim (render e.url labels none) [
      | none ↦ none
      | some url ↦
          some (method_of e, with_query (method_of e) (render_params labels e.params []) url)
    ]

    -- A missing field of the answer is `nil`.
    unfoldable pub value_of : Enrichment → Map Json → Json
    unfolding is_empty
    value_of e result =
        if is_empty e.response_field
        then object result
        else elim (get e.response_field result) [ none ↦ nil_json | some v ↦ v ]

    abbrev pub store_in_of : Enrichment → Str
    store_in_of e = if is_empty e.store_in then e.name else e.store_in

    unfoldable pub store : Enrichment → Fetched Json → AlertUpsert → AlertUpsert
    unfolding value_of is_empty
    store e fetch_failed alert = alert
    store e (fetched result) alert = record alert {
      annotations =
          some (put (store_in_of e) (show (value_of e result)) (entries alert.annotations));
    }

    -- The body of the loop, with the calls so far, the newest first.
    unfoldable pub enrich_once : Enrichment → AlertUpsert → List Call → AlertUpsert × List Call
    unfolding call_of store
    enrich_once e alert calls = elim (call_of e alert.labels) [
      | none ↦ (alert, calls)
      | some call ↦ (store e (fetch calls call) alert, call ∷ calls)
    ]

    unfoldable pub enrich_alert :
        List Enrichment → AlertUpsert → List Call → AlertUpsert × List Call
    unfolding enrich_once
    enrich_alert [] alert calls = (alert, calls)
    enrich_alert (e ∷ enrichments) alert calls =
        let (alert', calls') = enrich_once e alert calls in enrich_alert enrichments alert' calls'
