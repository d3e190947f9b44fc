-- ===== src/Http/Forms/Lists.antt =====
-- Lists of names in one text field: channels and group-by labels survive being shown and saved.
use alertory.Prelude.{
  false, List, [], ◌∷◌, ◌≡◌, refl, ◌∙◌, ap, sym, map, All, ◌||◌, Bool-cases, inl, inr,
}
use alertory.Text.{Str, str}
use alertory.Text.Parts.{split, before_first, join, trim_space, is_in}
use alertory.Text.Trim.{Lacks, trim_space_idem, trim_space-blank, trim_space-Lacks}
use alertory.Text.Split.{split-Lacks, split_one, split_first}
use alertory.Slack.{is_empty}
use alertory.Workflows.Channels.{distinct_channels, split_channels}
use alertory.Http.Forms.{parse_csv_parts, parse_csv, normalize_parts, normalize_channel_list}

abbrev blank_first : Str → Str
blank_first s = b' ' ∷ s

split-blank : (s : Str) → split b',' (b' ' ∷ s) ≡ before_first b' ' (split b',' s)
unfolding split
split-blank s = refl

-- A list that is joined by ", " splits at the commas into its parts.
split-join :
    (part : Str) (parts : List Str)
    → All (Lacks b',') (part ∷ parts)
    → split b',' (join (str ", ") (part ∷ parts)) ≡ part ∷ map blank_first parts
unfolding join str before_first
split-join part [] h = split_one b',' part h.0
split-join part (next ∷ parts) h =
    split_first b',' part (b' ' ∷ join (str ", ") (next ∷ parts)) h.0
    ∙ ap (λ x. part ∷ x)
        (split-blank (join (str ", ") (next ∷ parts))
          ∙ ap (before_first b' ') (split-join next parts h.1))

-- A part as the form keeps it: not empty, and without spaces at its ends.
abbrev IsClean : Str → Type 0
IsClean p = (is_empty p ≡ false) × (trim_space p ≡ p)

parse_csv_parts-blank :
    (parts : List Str) → parse_csv_parts (map blank_first parts) ≡ parse_csv_parts parts
unfolding parse_csv_parts
parse_csv_parts-blank [] = refl
parse_csv_parts-blank (part ∷ parts) = rw (trim_space-blank part, parse_csv_parts-blank parts) refl

parse_csv_parts-IsClean : (parts : List Str) → All IsClean (parse_csv_parts parts)
unfolding parse_csv_parts
parse_csv_parts-IsClean [] = tt
parse_csv_parts-IsClean (part ∷ parts) = elim (Bool-cases (is_empty (trim_space part))) [
  | inl none ↦ rw none (parse_csv_parts-IsClean parts)
  | inr some ↦ rw some ((some, trim_space_idem part), parse_csv_parts-IsClean parts)
]

parse_csv_parts_clean : (parts : List Str) → All IsClean parts → parse_csv_parts parts ≡ parts
unfolding parse_csv_parts
parse_csv_parts_clean [] h = refl
parse_csv_parts_clean (part ∷ parts) ((some, trimmed), h) =
    rw (trimmed, some, parse_csv_parts_clean parts h) refl

parse_csv_parts-Lacks :
    (parts : List Str) → All (Lacks b',') parts → All (Lacks b',') (parse_csv_parts parts)
unfolding parse_csv_parts
parse_csv_parts-Lacks [] h = tt
parse_csv_parts-Lacks (part ∷ parts) h = elim (Bool-cases (is_empty (trim_space part))) [
  | inl none ↦ rw none (parse_csv_parts-Lacks parts h.1)
  | inr some ↦ rw some (trim_space-Lacks b',' part h.0, parse_csv_parts-Lacks parts h.1)
]

parse_csv-join :
    (parts : List Str)
    → All IsClean parts
    → All (Lacks b',') parts
    → parse_csv (join (str ", ") parts) ≡ parts
unfolding parse_csv parse_csv_parts split join trim_space is_empty
parse_csv-join [] h k = refl
parse_csv-join (part ∷ parts) h k =
    ap parse_csv_parts (split-join part parts k)
    ∙ (parse_first part parts ∙ parse_csv_parts_clean (part ∷ parts) h)
  where
    parse_first :
        (part : Str) (parts : List Str)
        → parse_csv_parts (part ∷ map blank_first parts) ≡ parse_csv_parts (part ∷ parts)
    parse_first part parts = unfold parse_csv_parts in rw (parse_csv_parts-blank parts) refl

-- A list that was parsed, is shown in the form as its parts joined by ", ", and is parsed again is
-- the same list.
pub parse_csv-join-parse_csv :
    (raw : Str) → parse_csv (join (str ", ") (parse_csv raw)) ≡ parse_csv raw
parse_csv-join-parse_csv raw =
    unfold parse_csv in
    parse_csv-join (parse_csv_parts (split b',' raw)) (parse_csv_parts-IsClean (split b',' raw))
      (parse_csv_parts-Lacks (split b',' raw) (split-Lacks b',' raw))

distinct_channels-blank :
    (seen parts : List Str)
    → distinct_channels seen (map blank_first parts) ≡ distinct_channels seen parts
unfolding distinct_channels
distinct_channels-blank seen [] = refl
distinct_channels-blank seen (part ∷ parts) =
    rw
      (
        trim_space-blank part,
        distinct_channels-blank seen parts,
        distinct_channels-blank (trim_space part ∷ seen) parts,
      )
      refl

distinct_channels_idem :
    (seen parts : List Str)
    → distinct_channels seen (distinct_channels seen parts) ≡ distinct_channels seen parts
unfolding distinct_channels
distinct_channels_idem seen [] = refl
distinct_channels_idem seen (part ∷ parts) =
    elim (Bool-cases (is_empty (trim_space part) || is_in (trim_space part) seen)) [
      | inl skipped ↦ rw skipped (distinct_channels_idem seen parts)
      | inr kept ↦
          rw
            (
              kept,
              trim_space_idem part,
              kept,
              distinct_channels_idem (trim_space part ∷ seen) parts,
            )
            refl
    ]

distinct_channels-Lacks :
    (seen parts : List Str)
    → All (Lacks b',') parts
    → All (Lacks b',') (distinct_channels seen parts)
unfolding distinct_channels
distinct_channels-Lacks seen [] h = tt
distinct_channels-Lacks seen (part ∷ parts) h =
    elim (Bool-cases (is_empty (trim_space part) || is_in (trim_space part) seen)) [
      | inl skipped ↦ rw skipped (distinct_channels-Lacks seen parts h.1)
      | inr kept ↦ rw kept (
        trim_space-Lacks b',' part h.0,
        distinct_channels-Lacks (trim_space part ∷ seen) parts h.1,
      )
    ]

-- The form and the flush worker have the same loop.
normalize_parts-distinct_channels :
    (seen parts : List Str) → normalize_parts seen parts ≡ distinct_channels seen parts
unfolding normalize_parts distinct_channels
normalize_parts-distinct_channels seen [] = refl
normalize_parts-distinct_channels seen (part ∷ parts) =
    rw
      (
        normalize_parts-distinct_channels seen parts,
        normalize_parts-distinct_channels (trim_space part ∷ seen) parts,
      )
      refl

split_channels-join :
    (channels : List Str)
    → All (Lacks b',') channels
    → split_channels (join (str ", ") channels) ≡ distinct_channels [] channels
unfolding split_channels distinct_channels split join trim_space is_empty
split_channels-join [] h = refl
split_channels-join (ch ∷ channels) h =
    ap (distinct_channels []) (split-join ch channels h) ∙ skip_blanks ch channels
  where
    skip_blanks :
        (ch : Str) (channels : List Str)
        → distinct_channels [] (ch ∷ map blank_first channels)
          ≡ distinct_channels [] (ch ∷ channels)
    skip_blanks ch channels =
        unfold distinct_channels in
        rw
          (
            distinct_channels-blank [] channels,
            distinct_channels-blank (trim_space ch ∷ []) channels,
          )
          refl

-- The flush worker sends a rule to the same channels, in the same order, whether it reads the text
-- of the form or the text that the form saves.
pub split_channels-normalize_channel_list :
    (raw : Str) → split_channels (normalize_channel_list raw) ≡ split_channels raw
split_channels-normalize_channel_list raw =
    unfold normalize_channel_list in
    ap (λ cs. split_channels (join (str ", ") cs))
      (normalize_parts-distinct_channels [] (split b',' raw))
    ∙ (split_channels-join (distinct_channels [] (split b',' raw))
          (distinct_channels-Lacks [] (split b',' raw) (split-Lacks b',' raw))
        ∙ unfold split_channels in distinct_channels_idem [] (split b',' raw))

normalize_channel_list-split_channels :
    (raw : Str) → normalize_channel_list raw ≡ join (str ", ") (split_channels raw)
unfolding normalize_channel_list split_channels
normalize_channel_list-split_channels raw =
    ap (join (str ", ")) (normalize_parts-distinct_channels [] (split b',' raw))

-- The text that the form saves for the channels is saved unchanged.
pub normalize_channel_list_idem :
    (raw : Str) → normalize_channel_list (normalize_channel_list raw) ≡ normalize_channel_list raw
normalize_channel_list_idem raw =
    normalize_channel_list-split_channels (normalize_channel_list raw)
    ∙ (ap (join (str ", ")) (split_channels-normalize_channel_list raw)
        ∙ sym (normalize_channel_list-split_channels raw))
