-- ===== src/Workflows/Message.antt =====
-- internal/workflows/message.go: what a message says. `format_time` is `Format(time.RFC3339)`,
-- which also shows a time's zone. `sort.Slice` is taken as a stable sort.
pub mod Lines
pub mod Color
use alertory.Prelude.{
  ℕ, ◌+◌, ◌-◌, Bool, true, false, not, ◌&&◌, ◌||◌, List, [], ◌∷◌, ◌++◌, map, Option, none, some,
  ltb, leb, eqb, take, length, if◌then◌else◌,
}
use alertory.Text.{Str, str, ◌==◌}
use alertory.Text.Parts.{join, sort_strings, decimal, is_in}
use alertory.Clock.{Time}
use alertory.Slack.{Field, Attachment, is_empty}
use alertory.Db.Member.{MemberField, GroupMember}

abbrev pub max_member_lines : ℕ
max_member_lines = 20

abbrev pub max_field_value_len : ℕ
max_field_value_len = 400

unfoldable pub truncate_value : Str → ℕ → Str
truncate_value v max = if leb (length v) max then v else take max v ++ str "…"

pub record GroupStyle : Type 0 where
  pub team : Str
  pub notification_only : Bool

unfoldable pub member_title : GroupMember → Str
unfolding is_empty
member_title m = if is_empty m.display_title then m.alertname else m.display_title

unfoldable pub is_resolved : GroupMember → Bool
is_resolved m = m.status == str "resolved"

-- A field that is shown if its value is not empty.
short_field : Str → Str → List Field
unfolding is_empty
short_field title value =
    if is_empty value then [] else record { title = title; value = value; short = true } ∷ []

display_field : MemberField → Field
display_field f = record { title = f.title; value = f.value; short = false }

-- The line of one alert in a combined message.
unfoldable pub member_label : GroupMember → Bool → Str
unfolding is_empty is_resolved
member_label m notification_only =
    let titled =
      if is_empty m.target && not (is_empty m.display_title) then m.display_title else m.target in
    let label = if is_empty titled then m.alertname else titled in
    if not notification_only && is_resolved m then label ++ str " (resolved)" else label

-- The loop from index `i` on, with `total` members in all.
unfoldable pub member_lines_from : ℕ → ℕ → List GroupMember → Bool → List Str
unfolding member_label
member_lines_from i total [] notification_only = []
member_lines_from i total (m ∷ members) notification_only =
    let rest = member_lines_from (i + 1) total members notification_only in
    if leb max_member_lines i
    then (str "...and " ++ (decimal (total - max_member_lines) ++ str " more")) ∷ []
    else member_label m notification_only ∷ rest

unfoldable pub member_lines : List GroupMember → Bool → List Str
unfolding member_lines_from
member_lines members notification_only =
    member_lines_from 0 (length members) members notification_only

-- A `map[string]bool` as the list of its keys.
unfoldable pub add_to_set : Str → List Str → List Str
add_to_set s set = if is_in s set then set else set ++ (s ∷ [])

unfoldable pub join_sorted : List Str → Str
join_sorted set = join (str ", ") (sort_strings set)

unfoldable pub insert_by_start : GroupMember → List GroupMember → List GroupMember
insert_by_start m [] = m ∷ []
insert_by_start m (n ∷ members) =
    if ltb n.starts_at m.starts_at then n ∷ insert_by_start m members else m ∷ n ∷ members

unfoldable pub sort_by_start : List GroupMember → List GroupMember
unfolding insert_by_start
sort_by_start [] = []
sort_by_start (m ∷ members) = insert_by_start m (sort_by_start members)

-- The variables of the loop in `renderBatch`. A time of 0 is Go's zero time.
pub record Summary : Type 0 where
  pub firing : ℕ
  pub resolved : ℕ
  pub earliest_start : Time
  pub latest_end : Time
  pub titles : List Str
  pub targets : List Str

abbrev pub no_summary : Summary
no_summary = record {
  firing = 0;
  resolved = 0;
  earliest_start = 0;
  latest_end = 0;
  titles = [];
  targets = [];
}

abbrev later_end : Time → Option Time → Time
later_end latest none = latest
later_end latest (some t) = if ltb latest t then t else latest

unfoldable pub summarize_member : GroupMember → Summary → Summary
unfolding is_resolved is_empty
summarize_member m s = record {
  firing = if is_resolved m then s.firing else s.firing + 1;
  resolved = if is_resolved m then s.resolved + 1 else s.resolved;
  earliest_start =
      if eqb s.earliest_start 0 || ltb m.starts_at s.earliest_start
      then m.starts_at
      else s.earliest_start;
  latest_end = if is_resolved m then later_end s.latest_end m.ends_at else s.latest_end;
  titles = add_to_set (member_title m) s.titles;
  targets = if is_empty m.target then s.targets else add_to_set m.target s.targets;
}

unfoldable pub summarize : List GroupMember → Summary → Summary
unfolding summarize_member
summarize [] s = s
summarize (m ∷ members) s = summarize members (summarize_member m s)

target_fields : List Str → List Field
target_fields [] = []
target_fields (t ∷ []) =
    record { title = str "Target"; value = join_sorted (t ∷ []); short = true } ∷ []
target_fields (t ∷ u ∷ targets) =
    record {
      title = str "Targets";
      value = decimal (length (t ∷ u ∷ targets)) ++ str " affected";
      short = true;
    }
    ∷ []

abbrev pub red : Str
red = str "#e01e5a"

abbrev pub green : Str
green = str "#2eb67d"

module _ (format_time : Time → Str) where
  time_field : Str → Time → Field
  time_field title t = record { title = title; value = format_time t; short = true }

  resolved_at : Option Time → List Field
  unfolding time_field
  resolved_at none = []
  resolved_at (some t) = time_field (str "Resolved At") t ∷ []

  unfoldable pub render_individual : GroupStyle → GroupMember → Attachment
  unfolding is_resolved short_field display_field time_field resolved_at
  render_individual style m =
      let green_card = not style.notification_only && is_resolved m in
      record {
        color = if green_card then green else red;
        title = if green_card then str "RESOLVED: " ++ member_title m else member_title m;
        fields =
            short_field (str "Team") style.team
            ++ (short_field (str "Target") m.target
                ++ ((if style.notification_only
                      then []
                      else time_field (str "Starts At") m.starts_at
                        ∷ (if is_resolved m then resolved_at m.ends_at else []))
                    ++ map display_field m.display_fields));
      }

  -- The members are those that `sort.Slice` has put in order.
  unfoldable pub render_sorted : GroupStyle → List GroupMember → Attachment
  unfolding short_field target_fields time_field summarize is_empty
  render_sorted style members =
      let s = summarize members no_summary in
      let all_resolved = eqb s.firing 0 && not (is_empty members) in
      let title = join_sorted s.titles in
      let lines = member_lines members style.notification_only in
      record {
        color = if not style.notification_only && all_resolved then green else red;
        title =
            if style.notification_only
            then title ++ (str " (" ++ (decimal (length members) ++ str ")"))
            else (if all_resolved then str "RESOLVED: " ++ title else title)
              ++ (str " ("
                  ++ (decimal s.firing
                      ++ (str " firing, " ++ (decimal s.resolved ++ str " resolved)"))));
        fields =
            short_field (str "Team") style.team
            ++ (target_fields s.targets
                ++ ((if style.notification_only
                      then []
                      else (if eqb s.earliest_start 0
                          then []
                          else time_field (str "Starts At") s.earliest_start ∷ [])
                        ++ (if all_resolved && not (eqb s.latest_end 0)
                            then time_field (str "Resolved At") s.latest_end ∷ []
                            else []))
                    ++ (if is_empty lines
                        then []
                        else record {
                          title = str "Alerts (" ++ (decimal (length members) ++ str ")");
                          value = join (str "\n") lines;
                          short = false;
                        }
                          ∷ [])));
      }

  unfoldable pub render_batch : GroupStyle → List GroupMember → Attachment
  unfolding render_sorted sort_by_start
  render_batch style members = render_sorted style (sort_by_start members)

  -- The text is always empty.
  unfoldable pub render_bucket_message : GroupStyle → List GroupMember → Str × List Attachment
  unfolding render_individual render_batch
  render_bucket_message style (m ∷ []) = ([], render_individual style m ∷ [])
  render_bucket_message style members = ([], render_batch style members ∷ [])

-- The members as the rendering leaves them: `sort.Slice` sorts the slice in place.
unfoldable pub rendered_order : List GroupMember → List GroupMember
rendered_order (m ∷ []) = m ∷ []
rendered_order members = sort_by_start members
