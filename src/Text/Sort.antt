-- ===== src/Text/Sort.antt =====
-- Laws of `sort.Strings`: the same strings, in another order.
use mathlib.Core.Path.{subst}
use alertory.Prelude.{
  List, [], ◌∷◌, ◌≡◌, refl, ◌∙◌, ap, All, ◌||◌, arith, Bool-cases, inl, inr, if◌then◌else◌,
}
use alertory.Text.{Str, ◌==◌, less}
use alertory.Text.Parts.{is_in, insert_string, sort_strings}

module _ {ℓ} (P : Str → Type ℓ) where
  All-insert_string : (s : Str) (xs : List Str) → P s → All P xs → All P (insert_string s xs)
  unfolding insert_string
  All-insert_string s [] h k = (h, tt)
  All-insert_string s (t ∷ xs) h k = elim (Bool-cases (less t s)) [
    | inl later ↦ rw later (k.0, All-insert_string s xs h k.1)
    | inr here ↦ rw here (h, k)
  ]

  pub All-sort_strings : (xs : List Str) → All P xs → All P (sort_strings xs)
  unfolding sort_strings
  All-sort_strings [] h = tt
  All-sort_strings (x ∷ xs) h = All-insert_string x (sort_strings xs) h.0 (All-sort_strings xs h.1)

  All-insert_string_back : (s : Str) (xs : List Str) → All P (insert_string s xs) → P s × All P xs
  unfolding insert_string
  All-insert_string_back s [] h = h
  All-insert_string_back s (t ∷ xs) h = elim (Bool-cases (less t s)) [
    | inl later ↦
        let k =
          subst (All P) (ap (λ b. if b then t ∷ insert_string s xs else s ∷ t ∷ xs) later) h in
        let (here, rest) = All-insert_string_back s xs k.1 in (here, (k.0, rest))
    | inr here ↦ subst (All P) (ap (λ b. if b then t ∷ insert_string s xs else s ∷ t ∷ xs) here) h
  ]

  pub All-sort_strings_back : (xs : List Str) → All P (sort_strings xs) → All P xs
  unfolding sort_strings
  All-sort_strings_back [] h = tt
  All-sort_strings_back (x ∷ xs) h =
      let (here, rest) = All-insert_string_back x (sort_strings xs) h in
      (here, All-sort_strings_back xs rest)

is_in-insert_string :
    (j s : Str) (xs : List Str) → is_in j (insert_string s xs) ≡ (s == j || is_in j xs)
unfolding is_in insert_string
is_in-insert_string j s [] = refl
is_in-insert_string j s (t ∷ xs) = elim (Bool-cases (less t s)) [
  | inl later ↦ rw (later, is_in) (rw (is_in-insert_string j s xs) (ground arith))
  | inr here ↦ rw here refl
]

pub is_in-sort_strings : (j : Str) (xs : List Str) → is_in j (sort_strings xs) ≡ is_in j xs
unfolding is_in sort_strings
is_in-sort_strings j [] = refl
is_in-sort_strings j (x ∷ xs) =
    is_in-insert_string j x (sort_strings xs) ∙ ap (λ b. x == j || b) (is_in-sort_strings j xs)
