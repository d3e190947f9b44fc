-- ===== src/Workflows/Message/Color.antt =====
-- The colour of a message.
use alertory.Prelude.{
  Bool, false, not, ◌&&◌, List, [], ◌∷◌, ◌≡◌, refl, ◌∙◌, ap, arith, all, eqb, if◌then◌else◌,
}
use alertory.Text.{Str}
use alertory.Clock.{Time}
use alertory.Slack.{Attachment, is_empty}
use alertory.Db.Member.{GroupMember}
use alertory.Workflows.Message.{
  GroupStyle, Summary, is_resolved, insert_by_start, sort_by_start, summarize_member, summarize,
  no_summary, red, green, render_individual, render_sorted, render_batch, render_bucket_message,
}

all-insert_by_start :
    (p : GroupMember → Bool) (m : GroupMember) (members : List GroupMember)
    → all p (insert_by_start m members) ≡ (p m && all p members)
unfolding insert_by_start
all-insert_by_start p m [] = refl
all-insert_by_start p m (n ∷ members) = ground (arith, all-insert_by_start p m members)

all-sort_by_start :
    (p : GroupMember → Bool) (members : List GroupMember)
    → all p (sort_by_start members) ≡ all p members
unfolding sort_by_start
all-sort_by_start p [] = refl
all-sort_by_start p (m ∷ members) =
    all-insert_by_start p m (sort_by_start members)
    ∙ ap (λ b. p m && b) (all-sort_by_start p members)

is_empty-insert_by_start :
    (m : GroupMember) (members : List GroupMember) → is_empty (insert_by_start m members) ≡ false
unfolding insert_by_start is_empty
is_empty-insert_by_start m [] = refl
is_empty-insert_by_start m (n ∷ members) = ground arith

firing-summarize_member :
    (m : GroupMember) (s : Summary)
    → eqb (summarize_member m s).firing 0 ≡ (eqb s.firing 0 && is_resolved m)
unfolding summarize_member
firing-summarize_member m s = ground arith

-- The count of firing members is 0 where all are resolved.
firing-summarize :
    (members : List GroupMember) (s : Summary)
    → eqb (summarize members s).firing 0 ≡ (eqb s.firing 0 && all is_resolved members)
unfolding summarize
firing-summarize [] s = ground arith
firing-summarize (m ∷ members) s =
    firing-summarize members (summarize_member m s) ∙ ground (arith, firing-summarize_member m s)

abbrev color_of : GroupStyle → Bool → Str
color_of style resolved = if not style.notification_only && resolved then green else red

module _ (format_time : Time → Str) where
  render_sorted-color :
      (style : GroupStyle) (members : List GroupMember)
      → is_empty members ≡ false
      → (render_sorted format_time style members).color ≡ color_of style (all is_resolved members)
  unfolding render_sorted
  render_sorted-color style members some_member =
      rw (firing-summarize members no_summary, some_member) (ground arith)

  abbrev pub color_in : Str × List Attachment → Str
  color_in (text, []) = []
  color_in (text, a ∷ attachments) = a.color

  -- The message of a bucket has the colour of resolved alerts exactly if all alerts of the bucket
  -- are resolved and the rule is not notification-only, in both layouts.
  pub render_bucket_message-color :
      (style : GroupStyle) (m : GroupMember) (members : List GroupMember)
      → color_in (render_bucket_message format_time style (m ∷ members))
        ≡ (if not style.notification_only && all is_resolved (m ∷ members) then green else red)
  unfolding render_bucket_message render_individual render_batch sort_by_start
  render_bucket_message-color style m [] = ground arith
  render_bucket_message-color style m (n ∷ members) =
      render_sorted-color style (sort_by_start (m ∷ n ∷ members))
        (is_empty-insert_by_start m (sort_by_start (n ∷ members)))
      ∙ ap (color_of style) (all-sort_by_start is_resolved (m ∷ n ∷ members))
