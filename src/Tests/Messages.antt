-- ===== src/Tests/Messages.antt =====
-- Messages on concrete data.
use alertory.Prelude.{
  false, not, ◌&&◌, List, [], ◌∷◌, ◌++◌, map, all, ◌≡◌, leb, length, if◌then◌else◌,
}
use alertory.Text.{str}
use alertory.Db.Member.{GroupMember}
use alertory.Workflows.Message.{
  GroupStyle, is_resolved, member_label, member_lines, red, green, render_bucket_message,
}
use alertory.Workflows.Message.Lines.{more_line, member_lines_lem}
use alertory.Workflows.Message.Color.{color_in, render_bucket_message-color}
use alertory.Tests.Data.{firing, second_firing, no_time}

abbrev two : List GroupMember
two = firing ∷ second_firing ∷ []

member_lines_lem_example :
    member_lines two false
    ≡ map (λ m. member_label m false) two
      ++ (if leb (length two) 20 then [] else more_line (length two) ∷ [])
member_lines_lem_example = member_lines_lem two false

abbrev style : GroupStyle
style = record { team = str "ops"; notification_only = false }

render_bucket_message-color_example :
    color_in no_time (render_bucket_message no_time style two)
    ≡ (if not false && all is_resolved two then green else red)
render_bucket_message-color_example =
    render_bucket_message-color no_time style firing (second_firing ∷ [])
