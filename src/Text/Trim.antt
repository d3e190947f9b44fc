-- ===== src/Text/Trim.antt =====
-- Laws of `strings.TrimSpace`.
use alertory.Prelude.{
  ℕ, false, [], ◌∷◌, ◌++◌, ◌≡◌, refl, ◌∙◌, ap, arith, All, eqb, Bool-cases, inl, inr,
}
use alertory.Text.{Str}
use alertory.Text.Parts.{is_space, trim_left, trim_right, before_trimmed, trim_space}

trim_right_before : (c : ℕ) (s : Str) → trim_right (c ∷ s) ≡ before_trimmed c (trim_right s)
unfolding trim_right
trim_right_before c s = refl

trim_right-before_trimmed :
    (c : ℕ) (s : Str) → trim_right s ≡ s → trim_right (before_trimmed c s) ≡ before_trimmed c s
unfolding trim_right
trim_right-before_trimmed c [] h = ground arith
trim_right-before_trimmed c (d ∷ s) h = ground (arith, h)

trim_right_idem : (s : Str) → trim_right (trim_right s) ≡ trim_right s
trim_right_idem [] = unfold trim_right in refl
trim_right_idem (c ∷ s) =
    ap trim_right (trim_right_before c s)
    ∙ (trim_right-before_trimmed c (trim_right s) (trim_right_idem s) ∙ rw trim_right_before)

-- The text begins with no space.
abbrev pub BeginsClean : Str → Type 0
BeginsClean [] = Unit
BeginsClean (c ∷ s) = is_space c ≡ false

trim_left-BeginsClean : (s : Str) → BeginsClean (trim_left s)
unfolding trim_left
trim_left-BeginsClean [] = tt
trim_left-BeginsClean (c ∷ s) = elim (Bool-cases (is_space c)) [
  | inl space ↦ rw space (trim_left-BeginsClean s)
  | inr other ↦ rw other other
]

trim_left_clean : (s : Str) → BeginsClean s → trim_left s ≡ s
unfolding trim_left
trim_left_clean [] h = refl
trim_left_clean (c ∷ s) h = rw h refl

before_trimmed-BeginsClean :
    (c : ℕ) (s : Str) → is_space c ≡ false → BeginsClean (before_trimmed c s)
unfolding before_trimmed
before_trimmed-BeginsClean c [] h = rw h h
before_trimmed-BeginsClean c (d ∷ s) h = h

trim_right-BeginsClean : (s : Str) → BeginsClean s → BeginsClean (trim_right s)
unfolding trim_right
trim_right-BeginsClean [] h = tt
trim_right-BeginsClean (c ∷ s) h = before_trimmed-BeginsClean c (trim_right s) h

-- Trimming a trimmed text changes nothing.
pub trim_space_idem : (s : Str) → trim_space (trim_space s) ≡ trim_space s
unfolding trim_space
trim_space_idem s =
    ap trim_right
      (trim_left_clean _ (trim_right-BeginsClean (trim_left s) (trim_left-BeginsClean s)))
    ∙ trim_right_idem (trim_left s)

-- The text neither begins nor ends with a space.
abbrev pub IsTrimmed : Str → Type 0
IsTrimmed s = BeginsClean s × (trim_right s ≡ s)

pub trim_space-IsTrimmed : (s : Str) → IsTrimmed (trim_space s)
unfolding trim_space
trim_space-IsTrimmed s =
    (trim_right-BeginsClean (trim_left s) (trim_left-BeginsClean s), trim_right_idem (trim_left s))

pub trim_space_trimmed : (s : Str) → IsTrimmed s → trim_space s ≡ s
unfolding trim_space
trim_space_trimmed s h = ap trim_right (trim_left_clean s h.0) ∙ h.1

before_trimmed_long : (c d : ℕ) (s t : Str) → before_trimmed c (s ++ (d ∷ t)) ≡ c ∷ (s ++ (d ∷ t))
unfolding before_trimmed
before_trimmed_long c d [] t = refl
before_trimmed_long c d (e ∷ s) t = refl

trim_right-append :
    (s : Str) (d : ℕ) (t : Str)
    → trim_right (d ∷ t) ≡ d ∷ t
    → trim_right (s ++ (d ∷ t)) ≡ s ++ (d ∷ t)
trim_right-append [] d t h = h
trim_right-append (c ∷ s) d t h =
    trim_right_before c (s ++ (d ∷ t))
    ∙ (ap (before_trimmed c) (trim_right-append s d t h) ∙ before_trimmed_long c d s t)

trim_right_visible :
    (mark : ℕ) (t : Str)
    → is_space mark ≡ false
    → trim_right t ≡ t
    → trim_right (mark ∷ t) ≡ mark ∷ t
trim_right_visible mark t visible h =
    trim_right_before mark t ∙ (ap (before_trimmed mark) h ∙ kept t)
  where
    kept : (t : Str) → before_trimmed mark t ≡ mark ∷ t
    kept [] = unfold before_trimmed in rw visible refl
    kept (d ∷ t) = unfold before_trimmed in refl

-- A mark that is no space between two trimmed texts gives a trimmed text.
pub append-IsTrimmed :
    (s t : Str) (mark : ℕ)
    → is_space mark ≡ false
    → IsTrimmed s
    → IsTrimmed t
    → IsTrimmed (s ++ (mark ∷ t))
append-IsTrimmed [] t mark visible h k = (visible, trim_right_visible mark t visible k.1)
append-IsTrimmed (c ∷ s) t mark visible h k =
    (h.0, trim_right-append (c ∷ s) mark t (trim_right_visible mark t visible k.1))

pub trim_space-blank : (s : Str) → trim_space (b' ' ∷ s) ≡ trim_space s
unfolding trim_space is_space
trim_space-blank s = refl

-- No character of the text is the separator.
abbrev pub Lacks : ℕ → Str → Type 0
Lacks sep = All (λ c. eqb c sep ≡ false)

trim_left-Lacks : (sep : ℕ) (s : Str) → Lacks sep s → Lacks sep (trim_left s)
unfolding trim_left
trim_left-Lacks sep [] h = tt
trim_left-Lacks sep (c ∷ s) h = elim (Bool-cases (is_space c)) [
  | inl space ↦ rw space (trim_left-Lacks sep s h.1)
  | inr other ↦ rw other h
]

before_trimmed-Lacks :
    (sep c : ℕ) (s : Str) → eqb c sep ≡ false → Lacks sep s → Lacks sep (before_trimmed c s)
unfolding before_trimmed
before_trimmed-Lacks sep c [] h k = elim (Bool-cases (is_space c)) [
  | inl space ↦ rw space tt
  | inr other ↦ rw other (h, tt)
]
before_trimmed-Lacks sep c (d ∷ s) h k = (h, k)

trim_right-Lacks : (sep : ℕ) (s : Str) → Lacks sep s → Lacks sep (trim_right s)
unfolding trim_right
trim_right-Lacks sep [] h = tt
trim_right-Lacks sep (c ∷ s) h =
    before_trimmed-Lacks sep c (trim_right s) h.0 (trim_right-Lacks sep s h.1)

pub trim_space-Lacks : (sep : ℕ) (s : Str) → Lacks sep s → Lacks sep (trim_space s)
unfolding trim_space
trim_space-Lacks sep s h = trim_right-Lacks sep _ (trim_left-Lacks sep s h)
