-- ===== src/Workflows/Message/Lines.antt =====
-- The lines of a combined message.
use alertory.Prelude.{
  ℕ, zero, suc, ◌+◌, ◌-◌, Bool, List, [], ◌∷◌, ◌++◌, map, ◌≡◌, refl, arith, leb, take, length,
  if◌then◌else◌,
}
use alertory.Text.{Str, str}
use alertory.Text.Parts.{decimal}
use alertory.Db.Member.{GroupMember}
use alertory.Workflows.Message.{max_member_lines, member_label, member_lines_from, member_lines}

abbrev pub more_line : ℕ → Str
more_line total = str "...and " ++ (decimal (total - max_member_lines) ++ str " more")

abbrev label_in : Bool → GroupMember → Str
label_in notification_only m = member_label m notification_only

-- The line for what is left out, if anything is.
abbrev rest_line : ℕ → ℕ → List GroupMember → List Str
rest_line room total members = if leb (length members) room then [] else more_line total ∷ []

member_lines_from_lem :
    (i room total : ℕ) (members : List GroupMember) (notification_only : Bool)
    → i + room ≡ max_member_lines
    → member_lines_from i total members notification_only
      ≡ map (label_in notification_only) (take room members) ++ rest_line room total members
unfolding member_lines_from
member_lines_from_lem i zero total [] notification_only h = refl
member_lines_from_lem i (suc room) total [] notification_only h = ground arith
member_lines_from_lem i zero total (m ∷ members) notification_only h = ground arith
member_lines_from_lem i (suc room) total (m ∷ members) notification_only h =
    ground (arith, member_lines_from_lem (i + 1) room total members notification_only)

-- A combined message has a line for each of the first twenty alerts, in order, and where there are
-- more alerts one more line, with the number of those that are left out.
pub member_lines_lem :
    (members : List GroupMember) (notification_only : Bool)
    → member_lines members notification_only
      ≡ map (label_in notification_only) (take 20 members)
        ++ (if leb (length members) 20 then [] else more_line (length members) ∷ [])
unfolding member_lines
member_lines_lem members notification_only =
    member_lines_from_lem 0 20 (length members) members notification_only refl
