-- ===== src/Db/Rules.antt =====
-- internal/db/rules.go: a rule and when it matches. internal/db/alerts.go: an incoming alert.
pub mod Table
pub mod Unique
pub mod Kept
pub mod Refines
use alertory.Prelude.{Bool, true, false, List, [], ◌∷◌, Option, none, some, if◌then◌else◌}
use alertory.Text.{Str, ◌==◌}
use alertory.Map.{Map, get}
use alertory.Clock.{Time}

pub record EnrichmentParam : Type 0 where
  pub name : Str
  pub value : Str

pub record Enrichment : Type 0 where
  pub name : Str
  pub url : Str
  pub method : Str
  pub params : List EnrichmentParam
  pub response_field : Str
  pub store_in : Str

pub record RuleField : Type 0 where
  pub title : Str
  pub annotation_key : Str

-- Without its ID, which nothing here reads.
pub record WorkflowRule : Type 0 where
  pub name : Str
  pub match_labels : Map Str
  pub channel : Str
  pub team : Str
  pub target_label : Str
  pub group_by : List Str
  pub extra_fields : List RuleField
  pub enrichments : List Enrichment
  pub enabled : Bool
  pub display_title : Str
  pub notification_only : Bool

-- The nil map of annotations is `none`. A nil map of labels reads as the empty one.
pub record AlertUpsert : Type 0 where
  pub fingerprint : Str
  pub alertname : Str
  pub status : Str
  pub starts_at : Time
  pub ends_at : Option Time
  pub labels : Map Str
  pub annotations : Option (Map Str)

-- The label is there, with this value.
unfoldable pub has_label : Map Str → Str → Str → Bool
has_label labels k v = elim (get k labels) [ none ↦ false | some val ↦ val == v ]

unfoldable pub all_labels : Map Str → Map Str → Bool
unfolding has_label
all_labels [] labels = true
all_labels ((k, v) ∷ wanted) labels =
    let rest = all_labels wanted labels in if has_label labels k v then rest else false

unfoldable pub matches : WorkflowRule → Map Str → Bool
unfolding all_labels
matches rule labels = all_labels rule.match_labels labels
