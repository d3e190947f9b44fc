-- ===== src/Workflows/Channels.antt =====
-- `splitChannels` of internal/workflows/flush.go: the channels of a rule.
use alertory.Prelude.{List, [], ◌∷◌, ◌||◌, if◌then◌else◌}
use alertory.Text.{Str}
use alertory.Text.Parts.{split, trim_space, is_in}
use alertory.Slack.{is_empty}

-- The loop, with the channels seen so far.
unfoldable pub distinct_channels : List Str → List Str → List Str
unfolding is_empty is_in
distinct_channels seen [] = []
distinct_channels seen (part ∷ parts) =
    let ch = trim_space part in
    let skipped = distinct_channels seen parts in
    let kept = ch ∷ distinct_channels (ch ∷ seen) parts in
    if is_empty ch || is_in ch seen then skipped else kept

unfoldable pub split_channels : Str → List Str
unfolding distinct_channels
split_channels raw = distinct_channels [] (split b',' raw)
