-- ===== src/Text/Numbers.antt =====
-- `strconv.ParseInt(s, 10, 64)` and `strconv.Atoi` on 64 bits.
use alertory.Prelude.{
  ℕ, ◌+◌, ◌-◌, ◌*◌, ◌^◌, Bool, true, false, not, ◌&&◌, [], ◌∷◌, ltb, leb, eqb, if◌then◌else◌, ◌≡◌,
  refl,
}
use alertory.Text.{Str, str}

-- An unsigned number, or why there is none.
pub data Digits : Type 0 where
  no_digits too_large : Digits
  value : ℕ → Digits

-- `strconv.ParseUint` without its check for the empty text: a 64-bit number, digit by digit.
unfoldable pub parse_digits : ℕ → Str → Digits
parse_digits n [] = value n
parse_digits n (c ∷ s) =
    let n' = n * 10 + (c - 48) in
    let rest = parse_digits n' s in
    if not (leb 48 c && leb c 57) then no_digits else if leb (2 ^ 64) n' then too_large else rest

-- A sign, `true` for below 0, and a size.
abbrev pub Signed : Type 0
Signed = Bool × ℕ

-- A number with the sign "-" or not, a syntax error, or a number outside 64 bits with its sign.
pub data Parsed : Type 0 where
  malformed : Parsed
  out_of_range : Bool → Parsed
  number : Bool → ℕ → Parsed

unfoldable pub with_sign : Bool → Digits → Parsed
with_sign negative no_digits = malformed
with_sign negative too_large = out_of_range negative
with_sign negative (value n) =
    if ltb (if negative then 2 ^ 63 else 2 ^ 63 - 1) n
    then out_of_range negative
    else number negative n

-- What follows the sign; nothing is no number.
unfoldable pub parse_unsigned : Bool → Str → Parsed
unfolding with_sign parse_digits
parse_unsigned negative [] = malformed
parse_unsigned negative (c ∷ s) = with_sign negative (parse_digits 0 (c ∷ s))

unfoldable pub parse_int : Str → Parsed
unfolding parse_unsigned
parse_int [] = malformed
parse_int (c ∷ s) =
    if eqb c b'-'
    then parse_unsigned true s
    else if eqb c b'+'
    then parse_unsigned false s
    else parse_unsigned false (c ∷ s)

parse_int_test :
    (parse_int (str "042") ≡ number false 42)
    × (parse_int (str "-7") ≡ number true 7)
    × (parse_int (str "7x") ≡ malformed)
    × (parse_int (str "9223372036854775808") ≡ out_of_range false)
unfolding parse_int str
parse_int_test = (refl, refl, refl, refl)
