-- ===== src/Workflows/Rules/Keys.antt =====
-- When two alerts share a group of a rule.
use alertory.Prelude.{List, [], ◌∷◌, ◌++◌, ◌≡◌, ◌↔◌, refl, ◌∙◌, sym, ap, map, take, All}
use alertory.Text.{Str, str}
use alertory.Text.Parts.{split, join, sort_strings}
use alertory.Text.Trim.{Lacks}
use alertory.Text.Split.{split-join}
use alertory.Text.Sort.{All-sort_strings, All-sort_strings_back}
use alertory.Map.{Map}
use alertory.Db.Rules.{WorkflowRule}
use alertory.Workflows.Rules.{label_of, key_part, group_keys, group_text, compute_group_key}

abbrev tail {ℓ} : {A : Type ℓ} → List A → List A
tail [] = []
tail (x ∷ xs) = xs

abbrev head_or_empty : List Str → Str
head_or_empty [] = []
head_or_empty (s ∷ parts) = s

append_cancel {ℓ} : {A : Type ℓ} (xs : List A) {ys zs : List A} → xs ++ ys ≡ xs ++ zs → ys ≡ zs
append_cancel [] h = h
append_cancel (x ∷ xs) h = append_cancel xs (ap tail h)

Lacks-append : (s t : Str) → Lacks b',' s → Lacks b',' t → Lacks b',' (s ++ t)
Lacks-append [] t h k = k
Lacks-append (c ∷ s) t h k = (h.0, Lacks-append s t h.1 k)

-- The two label sets agree on the key, and neither the key nor its values hold a comma.
abbrev pub Plain : Map Str → Str → Type 0
Plain labels k = Lacks b',' k × Lacks b',' (label_of labels k)

abbrev pub Agree : Map Str → Map Str → Str → Type 0
Agree l m k = label_of l k ≡ label_of m k

parts-Lacks :
    (l : Map Str) (keys : List Str) → All (Plain l) keys → All (Lacks b',') (map (key_part l) keys)
unfolding str
parts-Lacks l [] h = tt
parts-Lacks l (k ∷ keys) h =
    (Lacks-append k (str "=" ++ label_of l k) h.0.0 (refl, h.0.1), parts-Lacks l keys h.1)

parts-Agree :
    (l m : Map Str) (keys : List Str)
    → map (key_part l) keys ≡ map (key_part m) keys
    → All (Agree l m) keys
parts-Agree l m [] h = tt
parts-Agree l m (k ∷ keys) h = (
  append_cancel (str "=") (append_cancel k (ap head_or_empty h)),
  parts-Agree l m keys (ap tail h),
)

Agree-parts :
    (l m : Map Str) (keys : List Str)
    → All (Agree l m) keys
    → map (key_part l) keys ≡ map (key_part m) keys
Agree-parts l m [] h = refl
Agree-parts l m (k ∷ keys) h = rw (h.0, Agree-parts l m keys h.1) refl

join-Agree :
    (l m : Map Str) (keys : List Str)
    → All (Plain l) keys
    → All (Plain m) keys
    → join (str ",") (map (key_part l) keys) ≡ join (str ",") (map (key_part m) keys)
    → All (Agree l m) keys
unfolding str
join-Agree l m [] hl hm h = tt
join-Agree l m (k ∷ keys) hl hm h = parts-Agree l m (k ∷ keys) (
    sym (split-join b',' (key_part l k) (map (key_part l) keys) (parts-Lacks l (k ∷ keys) hl))
    ∙ (ap (split b',') h
        ∙ split-join b',' (key_part m k) (map (key_part m) keys) (parts-Lacks m (k ∷ keys) hm)))

module _ (rule : WorkflowRule) (l m : Map Str) where
  group_text-Agree :
      All (Agree l m) (group_keys rule.group_by) → group_text rule l ≡ group_text rule m
  unfolding group_text
  group_text-Agree h =
      ap (λ parts. rule.name ++ (str "|" ++ (rule.channel ++ (str "|" ++ join (str ",") parts))))
        (Agree-parts l m (sort_strings (group_keys rule.group_by))
          (All-sort_strings (Agree l m) (group_keys rule.group_by) h))

  Agree-group_text :
      All (Plain l) (group_keys rule.group_by)
      → All (Plain m) (group_keys rule.group_by)
      → group_text rule l ≡ group_text rule m
      → All (Agree l m) (group_keys rule.group_by)
  unfolding group_text
  Agree-group_text hl hm h =
      let keys = group_keys rule.group_by in
      All-sort_strings_back (Agree l m) keys (
        join-Agree l m (sort_strings keys) (All-sort_strings (Plain l) keys hl)
          (All-sort_strings (Plain m) keys hm)
          (append_cancel (str "|")
            (append_cancel rule.channel (append_cancel (str "|") (append_cancel rule.name h)))))

  -- Two alerts have the same group of a rule exactly if they agree on the labels that the rule
  -- groups by, alertname if it names none; provided that no such label or value holds a comma and
  -- the first 16 digits of the hash tell the two hashed texts apart.
  pub compute_group_key_iff :
      (sha1_hex : Str → Str)
      → All (Plain l) (group_keys rule.group_by)
      → All (Plain m) (group_keys rule.group_by)
      → (take 16 (sha1_hex (group_text rule l)) ≡ take 16 (sha1_hex (group_text rule m))
          → group_text rule l ≡ group_text rule m)
      → (compute_group_key sha1_hex rule l ≡ compute_group_key sha1_hex rule m)
        ↔ All (Agree l m) (group_keys rule.group_by)
  unfolding compute_group_key
  compute_group_key_iff sha1_hex hl hm no_collision = (
    λ same.
        Agree-group_text hl hm
          (no_collision (append_cancel (str ":") (append_cancel rule.name same))),
    λ agree.
        ap (λ text. rule.name ++ (str ":" ++ take 16 (sha1_hex text))) (group_text-Agree agree),
  )
