-- ===== src/Http/Forms.antt =====
-- internal/http/webui.go: how the rule form's text fields are parsed and shown.
pub mod Lists
pub mod Fields
pub mod Labels
use alertory.Prelude.{Bool, List, [], ◌∷◌, ◌++◌, ◌||◌, Option, none, some, map, if◌then◌else◌}
use alertory.Text.{Str, str}
use alertory.Text.Parts.{split, cut, join, trim_space, is_in, sort_strings}
use alertory.Map.{Map, get, put}
use alertory.Slack.{is_empty}
use alertory.Db.Rules.{RuleField}

unfoldable pub parse_csv_parts : List Str → List Str
unfolding is_empty
parse_csv_parts [] = []
parse_csv_parts (part ∷ parts) =
    let p = trim_space part in
    let rest = parse_csv_parts parts in if is_empty p then rest else p ∷ rest

unfoldable pub parse_csv : Str → List Str
unfolding parse_csv_parts
parse_csv raw = parse_csv_parts (split b',' raw)

unfoldable pub normalize_parts : List Str → List Str → List Str
unfolding is_empty is_in
normalize_parts seen [] = []
normalize_parts seen (part ∷ parts) =
    let p = trim_space part in
    let skipped = normalize_parts seen parts in
    let kept = p ∷ normalize_parts (p ∷ seen) parts in
    if is_empty p || is_in p seen then skipped else kept

unfoldable pub normalize_channel_list : Str → Str
unfolding normalize_parts
normalize_channel_list raw = join (str ", ") (normalize_parts [] (split b',' raw))

-- The field that a line with an `=` gives, if both sides of it hold text.
unfoldable pub field_of : Option (Str × Str) → List RuleField → List RuleField
unfolding is_empty
field_of none fields = fields
field_of (some (left, right)) fields =
    let title = trim_space left in
    let key = trim_space right in
    if is_empty title || is_empty key
    then fields
    else record { title = title; annotation_key = key } ∷ fields

unfoldable pub parse_field_lines : List Str → List RuleField
unfolding field_of is_empty
parse_field_lines [] = []
parse_field_lines (line ∷ lines) =
    let rest = parse_field_lines lines in
    let trimmed = trim_space line in
    if is_empty trimmed then rest else field_of (cut b'=' trimmed) rest

unfoldable pub parse_field_list : Str → List RuleField
unfolding parse_field_lines
parse_field_list raw = parse_field_lines (split b'\n' raw)

abbrev pub field_line : RuleField → Str
field_line f = f.title ++ (str "=" ++ f.annotation_key)

unfoldable pub format_field_list : List RuleField → Str
format_field_list fields = join (str "\n") (map field_line fields)

unfoldable pub put_label : Option (Str × Str) → Map Str → Map Str
put_label none out = out
put_label (some (left, right)) out = put (trim_space left) (trim_space right) out

unfoldable pub parse_label_lines : List Str → Map Str → Map Str
unfolding put_label is_empty
parse_label_lines [] out = out
parse_label_lines (line ∷ lines) out =
    let trimmed = trim_space line in
    parse_label_lines lines (if is_empty trimmed then out else put_label (cut b'=' trimmed) out)

unfoldable pub parse_labels : Str → Map Str
unfolding parse_label_lines
parse_labels raw = parse_label_lines (split b'\n' raw) []

-- A missing key reads as the empty string.
unfoldable pub label_or_empty : Option Str → Str
label_or_empty none = []
label_or_empty (some v) = v

unfoldable pub keys : Map Str → List Str
keys [] = []
keys ((k, v) ∷ m) = k ∷ keys m

abbrev pub label_line : Map Str → Str → Str
label_line labels k = k ++ (str "=" ++ label_or_empty (get k labels))

unfoldable pub format_labels : Map Str → Str
unfolding keys label_or_empty
format_labels labels = join (str "\n") (map (label_line labels) (sort_strings (keys labels)))
