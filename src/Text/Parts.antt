-- ===== src/Text/Parts.antt =====
-- The functions of package strings that the program uses: TrimSpace, Split, SplitN, Join,
-- HasPrefix, TrimPrefix, Contains, Index, and `%d`.
use alertory.Prelude.{
  ℕ, zero, suc, ◌+◌, ◌/◌, ◌%◌, Bool, true, false, ◌&&◌, ◌||◌, List, [], ◌∷◌, ◌++◌, Option, none,
  some, leb, ltb, eqb, if◌then◌else◌, drop, length, ◌≡◌, refl,
}
use alertory.Text.{Str, str, ◌==◌, less}

-- unicode.IsSpace
unfoldable pub is_space : ℕ → Bool
is_space c =
    (leb 9 c && leb c 13)
    || eqb c 32
    || eqb c 0x85
    || eqb c 0xA0
    || eqb c 0x1680
    || (leb 0x2000 c && leb c 0x200A)
    || eqb c 0x2028
    || eqb c 0x2029
    || eqb c 0x202F
    || eqb c 0x205F
    || eqb c 0x3000

unfoldable pub trim_left : Str → Str
trim_left [] = []
trim_left (c ∷ s) = if is_space c then trim_left s else c ∷ s

-- A character before a text from whose end the spaces have gone.
unfoldable pub before_trimmed : ℕ → Str → Str
before_trimmed c [] = if is_space c then [] else c ∷ []
before_trimmed c (d ∷ s) = c ∷ d ∷ s

unfoldable pub trim_right : Str → Str
unfolding before_trimmed
trim_right [] = []
trim_right (c ∷ s) = before_trimmed c (trim_right s)

unfoldable pub trim_space : Str → Str
unfolding trim_left trim_right
trim_space s = trim_right (trim_left s)

unfoldable pub before_first : ℕ → List Str → List Str
before_first c [] = (c ∷ []) ∷ []
before_first c (part ∷ parts) = (c ∷ part) ∷ parts

-- strings.Split by a separator of one character.
unfoldable pub split : ℕ → Str → List Str
unfolding before_first
split sep [] = [] ∷ []
split sep (c ∷ s) = let rest = split sep s in if eqb c sep then [] ∷ rest else before_first c rest

abbrev pub on_left : ℕ → Option (Str × Str) → Option (Str × Str)
on_left c none = none
on_left c (some (s, t)) = some (c ∷ s, t)

-- strings.SplitN(s, sep, 2): `none` where it gives one part.
unfoldable pub cut : ℕ → Str → Option (Str × Str)
cut sep [] = none
cut sep (c ∷ s) = let rest = cut sep s in if eqb c sep then some ([], s) else on_left c rest

unfoldable pub join : Str → List Str → Str
join sep [] = []
join sep (part ∷ []) = part
join sep (part ∷ next ∷ parts) = part ++ (sep ++ join sep (next ∷ parts))

unfoldable pub has_prefix : Str → Str → Bool
has_prefix [] s = true
has_prefix (p ∷ prefix) [] = false
has_prefix (p ∷ prefix) (c ∷ s) = eqb p c && has_prefix prefix s

unfoldable pub trim_prefix : Str → Str → Str
unfolding has_prefix
trim_prefix prefix s = if has_prefix prefix s then drop (length prefix) s else s

-- What follows the first occurrence of a marker.
unfoldable pub after_marker : Str → Str → Option Str
unfolding has_prefix
after_marker marker [] = if has_prefix marker [] then some [] else none
after_marker marker (c ∷ s) =
    let later = after_marker marker s in
    if has_prefix marker (c ∷ s) then some (drop (length marker) (c ∷ s)) else later

-- strings.Contains
unfoldable pub contains : Str → Str → Bool
unfolding after_marker
contains s marker = elim (after_marker marker s) [ none ↦ false | some rest ↦ true ]

digits_from : ℕ → ℕ → Str → Str
digits_from zero n rest = rest
digits_from (suc fuel) n rest =
    let more = digits_from fuel (n / 10) ((48 + n % 10) ∷ rest) in
    if ltb n 10 then (48 + n) ∷ rest else more

-- fmt's `%d` of a number that is at least 0. It has fewer than `n + 1` further digits.
unfoldable pub decimal : ℕ → Str
unfolding digits_from
decimal n = digits_from (suc n) n []

unfoldable pub insert_string : Str → List Str → List Str
insert_string s [] = s ∷ []
insert_string s (t ∷ parts) = if less t s then t ∷ insert_string s parts else s ∷ t ∷ parts

-- sort.Strings
unfoldable pub sort_strings : List Str → List Str
unfolding insert_string less
sort_strings [] = []
sort_strings (s ∷ parts) = insert_string s (sort_strings parts)

-- The string is among these.
unfoldable pub is_in : Str → List Str → Bool
unfolding ◌==◌
is_in s [] = false
is_in s (t ∷ parts) = t == s || is_in s parts

parts_test :
    (split b',' (str "a,,b") ≡ str "a" ∷ [] ∷ str "b" ∷ [])
    × (trim_space (str "  a b ") ≡ str "a b")
    × (decimal 1203 ≡ str "1203")
    × (sort_strings (str "b" ∷ str "ab" ∷ str "a" ∷ []) ≡ str "a" ∷ str "ab" ∷ str "b" ∷ [])
    × (join (str ", ") (str "x" ∷ str "y" ∷ []) ≡ str "x, y")
    × (after_marker (str ".L.") (str "{{ .L.abc }}") ≡ some (str "abc }}"))
    × (cut b'=' (str "a=b=c") ≡ some (str "a", str "b=c"))
unfolding split trim_space is_space decimal sort_strings join after_marker cut str
parts_test = (refl, refl, refl, refl, refl, refl, refl)
