-- ===== src/Http/Forms/Labels.antt =====
-- The label constraints of a rule survive being shown and saved, up to their order.
use mathlib.Core.Path.{subst}
use alertory.Prelude.{
  true, false, List, [], ◌∷◌, ◌++◌, ◌≡◌, refl, ◌∙◌, sym, ap, map, All, All-imp, ◌||◌, arith, ◌⊎◌,
  Bool-cases, inl, inr, if◌then◌else◌, Option, none, some,
}
use alertory.Text.{Str, str, ◌==◌, eq_iff, eq_refl}
use alertory.Text.Parts.{split, join, trim_space, cut, is_in, sort_strings}
use alertory.Text.Trim.{Lacks, trim_space-Lacks, trim_space_trimmed}
use alertory.Text.Split.{split-Lacks, split-join, IsCut, cut-IsCut}
use alertory.Text.Sort.{All-sort_strings, is_in-sort_strings}
use alertory.Map.{Map, get, put, get-put}
use alertory.Slack.{is_empty}
use alertory.Http.Forms.{
  put_label, parse_label_lines, parse_labels, label_or_empty, keys, label_line, format_labels,
}
use alertory.Http.Forms.Fields.{IsSides, cut-line, IsCut-IsSides, append-Lacks}

abbrev IsEntry : Str × Str → Type 0
IsEntry (k, v) = IsSides k v

put-IsEntry : (k v : Str) (m : Map Str) → IsSides k v → All IsEntry m → All IsEntry (put k v m)
unfolding put
put-IsEntry k v [] h all = (h, tt)
put-IsEntry k v ((j, w) ∷ m) h all = elim (Bool-cases (j == k)) [
  | inl same ↦ rw same (subst (λ x. IsSides x v) (sym ((eq_iff j k).0 same)) h, all.1)
  | inr other ↦ rw other (all.0, put-IsEntry k v m h all.1)
]

put_label-IsEntry :
    (line : Str) (o : Option (Str × Str)) (m : Map Str)
    → Lacks b'\n' line
    → IsCut b'=' line o
    → All IsEntry m
    → All IsEntry (put_label o m)
unfolding put_label
put_label-IsEntry line none m h k all = all
put_label-IsEntry line (some (left, right)) m h k all =
    put-IsEntry (trim_space left) (trim_space right) m (IsCut-IsSides line left right h k) all

parse_label_lines-IsEntry :
    (lines : List Str) (m : Map Str)
    → All (Lacks b'\n') lines
    → All IsEntry m
    → All IsEntry (parse_label_lines lines m)
unfolding parse_label_lines
parse_label_lines-IsEntry [] m h all = all
parse_label_lines-IsEntry (line ∷ lines) m h all = elim (Bool-cases (is_empty (trim_space line))) [
  | inl blank ↦ rw (blank, parse_label_lines) (parse_label_lines-IsEntry lines m h.1 all)
  | inr full ↦
      rw (full, parse_label_lines)
        (parse_label_lines-IsEntry lines (put_label (cut b'=' (trim_space line)) m) h.1 (
          put_label-IsEntry (trim_space line) (cut b'=' (trim_space line)) m
            (trim_space-Lacks b'\n' line h.0) (cut-IsCut b'=' (trim_space line)) all))
]

-- The key is shown as a line of two sides.
abbrev Shows : Map Str → Str → Type 0
Shows m k = IsSides k (label_or_empty (get k m))

parse_label_lines-line :
    (k v : Str) (lines : List Str) (out : Map Str)
    → IsSides k v
    → parse_label_lines ((k ++ (b'=' ∷ v)) ∷ lines) out ≡ parse_label_lines lines (put k v out)
unfolding parse_label_lines
parse_label_lines-line k v lines out h = ap (parse_label_lines lines) line
  where
    line :
        (if is_empty (trim_space (k ++ (b'=' ∷ v)))
          then out
          else put_label (cut b'=' (trim_space (k ++ (b'=' ∷ v)))) out)
        ≡ put k v out
    line =
        let (trimmed, cuts, some_line) = cut-line k v h in
        rw (trimmed, some_line, cuts)
          (unfold put_label in rw (trim_space_trimmed k h.0.0, trim_space_trimmed v h.1.0) refl)

parse_label_lines-map :
    (m : Map Str) (ks : List Str) (out : Map Str) (j : Str)
    → All (Shows m) ks
    → get j (parse_label_lines (map (label_line m) ks) out)
      ≡ (if is_in j ks then some (label_or_empty (get j m)) else get j out)
unfolding is_in str
parse_label_lines-map m [] out j h = unfold parse_label_lines in refl
parse_label_lines-map m (k ∷ ks) out j h =
    let v = label_or_empty (get k m) in
    ap (get j) (parse_label_lines-line k v (map (label_line m) ks) out h.0)
    ∙ (parse_label_lines-map m ks (put k v out) j h.1
        ∙ rw (get-put j k v out) (pick (Bool-cases (k == j)) (Bool-cases (is_in j ks))))
  where
    pick :
        (k == j ≡ true) ⊎ (k == j ≡ false)
        → (is_in j ks ≡ true) ⊎ (is_in j ks ≡ false)
        → (if is_in j ks
            then some (label_or_empty (get j m))
            else if k == j
            then some (label_or_empty (get k m))
            else get j out)
          ≡ (if k == j || is_in j ks then some (label_or_empty (get j m)) else get j out)
    pick (inl same) (inl found) = ground (arith, same, found)
    pick (inl same) (inr not_found) =
        rw (same, not_found) (ap (λ x. some (label_or_empty (get x m))) ((eq_iff k j).0 same))
    pick (inr differs) (inl found) = rw (differs, found) refl
    pick (inr differs) (inr not_found) = rw (differs, not_found) refl

-- The keys of a map are those that it finds.
is_in-keys :
    (j : Str) (m : Map Str)
    → (if is_in j (keys m) then some (label_or_empty (get j m)) else none) ≡ get j m
unfolding is_in keys get
is_in-keys j [] = refl
is_in-keys j ((k, v) ∷ m) = elim (Bool-cases (k == j)) [
  | inl same ↦ rw same (unfold label_or_empty in refl)
  | inr differs ↦ rw differs (is_in-keys j m)
]

Shows-entry : (k : Str) (m : Map Str) → All IsEntry m → is_in k (keys m) ≡ true → Shows m k
unfolding is_in keys get
Shows-entry k [] h found = cc
Shows-entry k ((j, v) ∷ m) h found = elim (Bool-cases (j == k)) [
  | inl same ↦ rw same (unfold label_or_empty in subst (λ x. IsSides x v) ((eq_iff j k).0 same) h.0)
  | inr differs ↦ rw differs (Shows-entry k m h.1 (rw differs at found))
]

All-is_in :
    (xs ys : List Str)
    → ((k : Str) → is_in k xs ≡ true → is_in k ys ≡ true)
    → All (λ k. is_in k ys ≡ true) xs
unfolding is_in
All-is_in [] ys h = tt
All-is_in (x ∷ xs) ys h =
    (h x (rw (eq_refl x) refl), All-is_in xs ys (λ k found. h k (rw found (ground arith))))

keys-Shows : (m : Map Str) → All IsEntry m → All (Shows m) (sort_strings (keys m))
keys-Shows m h = All-sort_strings (Shows m) (keys m) (
    All-imp (λ k. is_in k (keys m) ≡ true) (Shows m) (keys m) (λ k. Shows-entry k m h)
      (All-is_in (keys m) (keys m) (λ k found. found)))

label_line-Lacks :
    (m : Map Str) (ks : List Str) → All (Shows m) ks → All (Lacks b'\n') (map (label_line m) ks)
unfolding str
label_line-Lacks m [] h = tt
label_line-Lacks m (k ∷ ks) h =
    (append-Lacks k (label_or_empty (get k m)) h.0, label_line-Lacks m ks h.1)

split-join-lines :
    (lines : List Str)
    → All (Lacks b'\n') lines
    → parse_label_lines (split b'\n' (join (str "\n") lines)) [] ≡ parse_label_lines lines []
unfolding parse_label_lines str split join trim_space is_empty
split-join-lines [] h = refl
split-join-lines (line ∷ lines) h = ap (λ x. parse_label_lines x []) (split-join b'\n' line lines h)

get-parse_labels-format :
    (m : Map Str) (j : Str) → All IsEntry m → get j (parse_labels (format_labels m)) ≡ get j m
unfolding parse_labels format_labels
get-parse_labels-format m j h =
    let shows = keys-Shows m h in
    let ks = sort_strings (keys m) in
    ap (get j) (split-join-lines (map (label_line m) ks) (label_line-Lacks m ks shows))
    ∙ (parse_label_lines-map m ks [] j shows
        ∙ (rw (is_in-sort_strings j (keys m)) (unfold get in is_in-keys j m)))

parse_labels-IsEntry : (raw : Str) → All IsEntry (parse_labels raw)
unfolding parse_labels
parse_labels-IsEntry raw = parse_label_lines-IsEntry (split b'\n' raw) [] (split-Lacks b'\n' raw) tt

-- Labels that were read, shown in the form and read again are the same map.
pub get-parse_labels-format-parse_labels :
    (raw j : Str)
    → get j (parse_labels (format_labels (parse_labels raw))) ≡ get j (parse_labels raw)
get-parse_labels-format-parse_labels raw j =
    get-parse_labels-format (parse_labels raw) j (parse_labels-IsEntry raw)
