-- ===== src/Workflows/Batching.antt =====
-- internal/workflows/batching.go. The order in which Go visits the buckets of its map is the
-- parameter `shuffle`; the order in which it visits the members is that of their list.
pub mod Partition
pub mod Threshold
pub mod Unmixed
use alertory.Prelude.{
  ℕ, Bool, true, false, not, ◌||◌, List, [], ◌∷◌, ◌++◌, Option, none, some, map, ltb, any, length,
  if◌then◌else◌, ◌≡◌, refl,
}
use alertory.Text.{Str, str, ◌==◌}
use alertory.Text.Parts.{join, sort_strings}
use alertory.Map.{Map, get, put, values}
use alertory.Slack.{is_empty}
use alertory.Db.Member.{NotifiedTarget, GroupMember}

pub record Bucket : Type 0 where
  pub targets : List NotifiedTarget
  pub members : List GroupMember

abbrev target_part : NotifiedTarget → Str
target_part t = t.channel ++ (str "=" ++ t.ts)

unfoldable pub target_key : List NotifiedTarget → Str
unfolding is_empty
target_key targets =
    if is_empty targets then [] else join (str "|") (sort_strings (map target_part targets))

-- `existingByKey` and `unsent`
pub record Parted : Type 0 where
  pub existing : Map Bucket
  pub unsent : List GroupMember

-- The bucket of the key, made with the member's targets if there is none, with the member added.
abbrev with_member : GroupMember → Option Bucket → Bucket
with_member m none = record { targets = m.notified_targets; members = m ∷ [] }
with_member m (some b) = record b { members = b.members ++ (m ∷ []) }

unfoldable pub part_member : GroupMember → Parted → Parted
unfolding is_empty
part_member m p =
    if is_empty m.notified_targets
    then record p { unsent = p.unsent ++ (m ∷ []) }
    else (let key = target_key m.notified_targets in
        record p { existing = put key (with_member m (get key p.existing)) p.existing })

unfoldable pub part_members : List GroupMember → Parted → Parted
unfolding part_member
part_members [] p = p
part_members (m ∷ members) p = part_members members (part_member m p)

unfoldable pub singles : List GroupMember → List Bucket
singles [] = []
singles (m ∷ members) = record { targets = []; members = m ∷ [] } ∷ singles members

-- The buckets of members that have never been sent. A threshold below 0 acts as 0.
unfoldable pub unsent_buckets : List GroupMember → ℕ → List Bucket
unfolding is_empty singles
unsent_buckets unsent threshold =
    if is_empty unsent
    then []
    else if ltb threshold (length unsent)
    then record { targets = []; members = unsent } ∷ []
    else singles unsent

abbrev pub nothing_parted : Parted
nothing_parted = record { existing = []; unsent = [] }

unfoldable pub build_buckets : (List Bucket → List Bucket) → Map GroupMember → ℕ → List Bucket
unfolding part_members unsent_buckets values
build_buckets shuffle members threshold =
    let p = part_members (values members) nothing_parted in
    shuffle (values p.existing) ++ unsent_buckets p.unsent threshold

-- The status that was last sent is not the status now.
unfoldable pub is_behind : GroupMember → Bool
is_behind m = not (m.notified_status == m.status)

unfoldable pub bucket_changed : Bucket → Bool
unfolding is_empty is_behind
bucket_changed b = is_empty b.targets || any is_behind b.members
