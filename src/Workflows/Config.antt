-- ===== src/Workflows/Config.antt =====
-- internal/workflows/config.go: variables with a default. A variable that is not set is "".
-- `parse_duration` is time.ParseDuration.
use alertory.Prelude.{◌*◌, false, Option, none, some, if◌then◌else◌}
use alertory.Text.{Str}
use alertory.Text.Numbers.{Signed, Parsed, malformed, out_of_range, number, parse_int}
use alertory.Slack.{is_empty}
use alertory.Clock.{second}

abbrev or_default : Option Signed → Signed → Signed
or_default none def = def
or_default (some v) def = v

unfoldable pub env_duration : (Str → Option Signed) → Str → Signed → Signed
unfolding is_empty
env_duration parse_duration v def = if is_empty v then def else or_default (parse_duration v) def

abbrev int_or_default : Parsed → Signed → Signed
int_or_default malformed def = def
int_or_default (out_of_range negative) def = def
int_or_default (number negative n) def = (negative, n)

unfoldable pub env_int : Str → Signed → Signed
unfolding is_empty parse_int
env_int v def = if is_empty v then def else int_or_default (parse_int v) def

-- The variables ALERT_DEBOUNCE, ALERT_MAX_WINDOW and MASS_ALERT_THRESHOLD.
pub record Tunables : Type 0 where
  pub debounce_window : Signed
  pub max_group_window : Signed
  pub mass_threshold : Signed

unfoldable pub tunables : (Str → Option Signed) → Str → Str → Str → Tunables
unfolding env_duration env_int
tunables parse_duration debounce max_window threshold = record {
  debounce_window = env_duration parse_duration debounce (false, 8 * second);
  max_group_window = env_duration parse_duration max_window (false, 45 * second);
  mass_threshold = env_int threshold (false, 5);
}
