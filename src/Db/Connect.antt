-- ===== src/Db/Connect.antt =====
-- internal/db/db.go: the sizes of the connection pool. A variable that is not set is "".
-- The data source's own sizes are replaced; the connection itself is pgxpool's.
use alertory.Prelude.{ℕ, ◌-◌, ◌%◌, ◌^◌, true, false, ltb, if◌then◌else◌, ◌≡◌, refl}
use alertory.Text.{Str, str}
use alertory.Text.Numbers.{Signed, Parsed, malformed, out_of_range, number, parse_int}
use alertory.Slack.{is_empty}

-- The low 32 bits of a number, as two's complement has them.
unfoldable low_bits : Signed → ℕ
low_bits (false, n) = n % 2 ^ 32
low_bits (true, n) = (2 ^ 32 - n % 2 ^ 32) % 2 ^ 32

-- The conversion `int32(n)`, which drops the high bits.
unfoldable int32 : Signed → Signed
unfolding low_bits
int32 n = if ltb (low_bits n) (2 ^ 31) then (false, low_bits n) else (true, 2 ^ 32 - low_bits n)

abbrev int32_or_default : Parsed → Signed → Signed
int32_or_default malformed def = def
int32_or_default (out_of_range negative) def = def
int32_or_default (number negative n) def = int32 (negative, n)

unfoldable env_int32 : Str → Signed → Signed
unfolding is_empty parse_int
env_int32 v def = if is_empty v then def else int32_or_default (parse_int v) def

-- The fields of pgxpool.Config that come from DB_MAX_CONNS and DB_MIN_CONNS.
pub record PoolSizes : Type 0 where
  pub max_conns : Signed
  pub min_conns : Signed

unfoldable connect : Str → Str → PoolSizes
unfolding env_int32
connect max_conns min_conns = record {
  max_conns = env_int32 max_conns (false, 25);
  min_conns = env_int32 min_conns (false, 4);
}

connect_test :
    (connect (str "") (str "x") ≡ record { max_conns = (false, 25); min_conns = (false, 4) })
    × (connect (str "100") (str "-1") ≡ record { max_conns = (false, 100); min_conns = (true, 1) })
unfolding connect env_int32 int32 low_bits parse_int is_empty str
connect_test = (refl, refl)

-- A size over 32 bits passes without a complaint: 2 ^ 32 + 1 connections are one.
connect_wraps :
    connect (str "4294967297") (str "2147483648")
    ≡ record { max_conns = (false, 1); min_conns = (true, 2 ^ 31) }
unfolding connect env_int32 int32 low_bits parse_int is_empty str
connect_wraps = refl
