-- ===== src/Http/Forms/Fields.antt =====
-- Lines with an `=` in one text field: labels and extra fields survive being shown and saved.
use mathlib.Core.Path.{subst}
use alertory.Prelude.{
  ℕ, false, List, [], ◌∷◌, ◌++◌, ◌≡◌, refl, ◌∙◌, ap, map, All, ◌||◌, arith, Bool-cases, inl, inr,
  Option, none, some,
}
use alertory.Text.{Str, str}
use alertory.Text.Parts.{split, join, trim_space, cut, is_space}
use alertory.Text.Trim.{
  Lacks, IsTrimmed, trim_space-IsTrimmed, trim_space_trimmed, append-IsTrimmed, trim_space-Lacks,
}
use alertory.Text.Split.{split-Lacks, split-join, cut_first, IsCut, cut-IsCut}
use alertory.Slack.{is_empty}
use alertory.Db.Rules.{RuleField}
use alertory.Http.Forms.{
  field_of, parse_field_lines, parse_field_list, field_line, format_field_list,
}

-- The two sides of a line as the form keeps them.
abbrev pub IsSides : Str → Str → Type 0
IsSides left right =
    (IsTrimmed left × Lacks b'=' left × Lacks b'\n' left) × (IsTrimmed right × Lacks b'\n' right)

-- The line of two sides reads as the two sides.
pub cut-line :
    (left right : Str)
    → IsSides left right
    → (trim_space (left ++ (b'=' ∷ right)) ≡ left ++ (b'=' ∷ right))
      × (cut b'=' (left ++ (b'=' ∷ right)) ≡ some (left, right))
      × (is_empty (left ++ (b'=' ∷ right)) ≡ false)
unfolding is_empty
cut-line left right ((trimmed, no_mark, no_break), (trimmed', no_break')) = (
  trim_space_trimmed _
      (append-IsTrimmed left right b'=' (unfold is_space in refl) trimmed trimmed'),
  cut_first b'=' left right no_mark,
  long left,
)
  where
    long : (s : Str) → is_empty (s ++ (b'=' ∷ right)) ≡ false
    long [] = refl
    long (c ∷ s) = refl

Lacks-append : (sep : ℕ) (s t : Str) → Lacks sep (s ++ t) → Lacks sep s × Lacks sep t
Lacks-append sep [] t h = (tt, h)
Lacks-append sep (c ∷ s) t h = let (a, b) = Lacks-append sep s t h.1 in ((h.0, a), b)

-- The line of two sides is one line.
pub append-Lacks : (left right : Str) → IsSides left right → Lacks b'\n' (left ++ (b'=' ∷ right))
append-Lacks left right h = go left h.0.2
  where
    go : (s : Str) → Lacks b'\n' s → Lacks b'\n' (s ++ (b'=' ∷ right))
    go [] k = (refl, h.1.1)
    go (c ∷ s) k = (k.0, go s k.1)

-- What a line is cut into, trimmed, is two sides.
pub IsCut-IsSides :
    (line left right : Str)
    → Lacks b'\n' line
    → IsCut b'=' line (some (left, right))
    → IsSides (trim_space left) (trim_space right)
IsCut-IsSides line left right h (no_mark, whole) =
    let (l, r) = Lacks-append b'\n' left (b'=' ∷ right) (subst (Lacks b'\n') whole h) in
    (
      (
        trim_space-IsTrimmed left,
        trim_space-Lacks b'=' left no_mark,
        trim_space-Lacks b'\n' left l,
      ),
      (trim_space-IsTrimmed right, trim_space-Lacks b'\n' right r.1),
    )

abbrev IsField : RuleField → Type 0
IsField f =
    IsSides f.title f.annotation_key
    × (is_empty f.title ≡ false)
    × (is_empty f.annotation_key ≡ false)

field_of-IsField :
    (line : Str) (o : Option (Str × Str)) (fields : List RuleField)
    → Lacks b'\n' line
    → IsCut b'=' line o
    → All IsField fields
    → All IsField (field_of o fields)
unfolding field_of
field_of-IsField line none fields h k all = all
field_of-IsField line (some (left, right)) fields h k all =
    elim (Bool-cases (is_empty (trim_space left) || is_empty (trim_space right))) [
      | inl blank ↦ rw blank all
      | inr full ↦ rw full ((IsCut-IsSides line left right h k, ground arith, ground arith), all)
    ]

parse_field_lines-IsField :
    (lines : List Str) → All (Lacks b'\n') lines → All IsField (parse_field_lines lines)
unfolding parse_field_lines
parse_field_lines-IsField [] h = tt
parse_field_lines-IsField (line ∷ lines) h = elim (Bool-cases (is_empty (trim_space line))) [
  | inl blank ↦ rw blank (parse_field_lines-IsField lines h.1)
  | inr full ↦ rw full (
      field_of-IsField (trim_space line) (cut b'=' (trim_space line)) (parse_field_lines lines)
        (trim_space-Lacks b'\n' line h.0) (cut-IsCut b'=' (trim_space line))
        (parse_field_lines-IsField lines h.1))
]

parse_field_lines-map :
    (fields : List RuleField)
    → All IsField fields
    → parse_field_lines (map field_line fields) ≡ fields
unfolding parse_field_lines field_of str
parse_field_lines-map [] h = refl
parse_field_lines-map (f ∷ fields) ((sides, some_title, some_key), h) =
    let (trimmed, cuts, some_line) = cut-line f.title f.annotation_key sides in
    rw
      (
        trimmed,
        some_line,
        cuts,
        trim_space_trimmed f.title sides.0.0,
        trim_space_trimmed f.annotation_key sides.1.0,
        some_title,
        some_key,
        parse_field_lines-map fields h,
      )
      refl

field_line-Lacks :
    (fields : List RuleField) → All IsField fields → All (Lacks b'\n') (map field_line fields)
unfolding str
field_line-Lacks [] h = tt
field_line-Lacks (f ∷ fields) h =
    (append-Lacks f.title f.annotation_key h.0.0, field_line-Lacks fields h.1)

parse_field_list-IsField : (raw : Str) → All IsField (parse_field_list raw)
unfolding parse_field_list
parse_field_list-IsField raw = parse_field_lines-IsField (split b'\n' raw) (split-Lacks b'\n' raw)

parse_field_list-format :
    (fields : List RuleField)
    → All IsField fields
    → parse_field_list (format_field_list fields) ≡ fields
unfolding parse_field_list format_field_list parse_field_lines str split join trim_space is_empty
parse_field_list-format [] h = refl
parse_field_list-format (f ∷ fields) h =
    ap parse_field_lines
      (split-join b'\n' (field_line f) (map field_line fields) (field_line-Lacks (f ∷ fields) h))
    ∙ parse_field_lines-map (f ∷ fields) h

-- The extra fields of a form are the same after they were shown in a form and read again.
pub parse_field_list-format-parse_field_list :
    (raw : Str) → parse_field_list (format_field_list (parse_field_list raw)) ≡ parse_field_list raw
parse_field_list-format-parse_field_list raw =
    parse_field_list-format (parse_field_list raw) (parse_field_list-IsField raw)
