-- ===== src/Text/Split.antt =====
-- Laws of `strings.Split` and `strings.Join`.
use alertory.Prelude.{
  ℕ, false, List, [], ◌∷◌, ◌++◌, ◌≡◌, refl, arith, All, eqb, Bool-cases, eqb_iff, inl, inr, ◌∙◌, ap,
  Option, none, some,
}
use alertory.Text.{Str}
use alertory.Text.Parts.{split, before_first, join, cut, on_left}
use alertory.Text.Trim.{Lacks}

before_first-Lacks :
    (sep c : ℕ) (parts : List Str)
    → eqb c sep ≡ false
    → All (Lacks sep) parts
    → All (Lacks sep) (before_first c parts)
unfolding before_first
before_first-Lacks sep c [] h k = ((h, tt), tt)
before_first-Lacks sep c (part ∷ parts) h k = ((h, k.0), k.1)

-- No part holds the separator.
pub split-Lacks : (sep : ℕ) (s : Str) → All (Lacks sep) (split sep s)
unfolding split
split-Lacks sep [] = (tt, tt)
split-Lacks sep (c ∷ s) = elim (Bool-cases (eqb c sep)) [
  | inl here ↦ rw here (tt, split-Lacks sep s)
  | inr other ↦ rw other (before_first-Lacks sep c (split sep s) other (split-Lacks sep s))
]

-- A text without the separator is one part.
pub split_one : (sep : ℕ) (s : Str) → Lacks sep s → split sep s ≡ s ∷ []
unfolding split
split_one sep [] h = refl
split_one sep (c ∷ s) h = rw (h.0, split_one sep s h.1) refl

-- A text without the separator, before a separator, is the first part.
pub split_first :
    (sep : ℕ) (s rest : Str) → Lacks sep s → split sep (s ++ (sep ∷ rest)) ≡ s ∷ split sep rest
unfolding split
split_first sep [] rest h = ground arith
split_first sep (c ∷ s) rest h = rw (h.0, split_first sep s rest h.1) refl

-- A list that is joined by a separator splits into its parts, which do not hold it.
pub split-join :
    (sep : ℕ) (part : Str) (parts : List Str)
    → All (Lacks sep) (part ∷ parts)
    → split sep (join (sep ∷ []) (part ∷ parts)) ≡ part ∷ parts
unfolding join
split-join sep part [] h = split_one sep part h.0
split-join sep part (next ∷ parts) h =
    split_first sep part (join (sep ∷ []) (next ∷ parts)) h.0
    ∙ ap (λ x. part ∷ x) (split-join sep next parts h.1)

-- A text without the separator, before a separator, is what `cut` cuts off.
pub cut_first : (sep : ℕ) (s t : Str) → Lacks sep s → cut sep (s ++ (sep ∷ t)) ≡ some (s, t)
unfolding cut
cut_first sep [] t h = ground arith
cut_first sep (c ∷ s) t h = rw (h.0, cut_first sep s t h.1) refl

-- The left part has no separator, and the text is the two parts with a separator between them.
abbrev pub IsCut : ℕ → Str → Option (Str × Str) → Type 0
IsCut sep s none = Unit
IsCut sep s (some (l, r)) = Lacks sep l × (s ≡ l ++ (sep ∷ r))

pub cut-IsCut : (sep : ℕ) (s : Str) → IsCut sep s (cut sep s)
unfolding cut
cut-IsCut sep [] = tt
cut-IsCut sep (c ∷ s) = elim (Bool-cases (eqb c sep)) [
  | inl here ↦ rw here (tt, ap (λ x. x ∷ s) ((eqb_iff c sep).0 here))
  | inr other ↦ rw other (longer other (cut sep s) (cut-IsCut sep s))
]
  where
    longer :
        eqb c sep ≡ false
        → (o : Option (Str × Str)) → IsCut sep s o
        → IsCut sep (c ∷ s) (on_left c o)
    longer other none h = tt
    longer other (some (l, r)) h = ((other, h.0), ap (λ x. c ∷ x) h.1)
