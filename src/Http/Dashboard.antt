-- ===== src/Http/Dashboard.antt =====
-- The dashboard of internal/http/webui.go. Ints are 64 bits; the counts of events stay below
-- 2^63 / 100. `label` formats a day.
pub mod Pages
pub mod Listing
pub mod Bars
use alertory.Prelude.{
  ℕ, zero, suc, ◌+◌, ◌-◌, ◌*◌, ◌/◌, ◌%◌, ◌^◌, Bool, true, false, not, ◌&&◌, List, [], ◌∷◌, map,
  Option, none, some, length, ltb, leb, eqb, if◌then◌else◌,
}
use alertory.Text.{Str}
use alertory.Text.Parts.{trim_space}
use alertory.Text.Numbers.{Parsed, malformed, out_of_range, number, parse_int}
use alertory.Map.{Map}
use alertory.Clock.{Time, Duration, second}
use alertory.Slack.{is_empty}
use alertory.Db.Alerts.{ActiveAlert, Alerts}
use alertory.Db.Alerts.Listing.{
  ActiveAlertRow, ActiveAlertFilter, list_active_alerts, list_distinct_alertnames,
}
use alertory.Db.Alerts.History.{DailyAlertCount, count_firing_events_by_day}
use alertory.Db.Groups.{Table, count_open_alert_groups}
use alertory.Auth.{Session}
use alertory.Http.Reply.{Reply, status, rendered}
use alertory.Http.Rules.{current_user}

abbrev pub dashboard_page_size : ℕ
dashboard_page_size = 25

abbrev day : Duration
day = 24 * (60 * (60 * second))

-- A negative duration of ALERT_RETENTION is a `true` with its size. The days are a division of
-- floats in the source, which rounds within nanoseconds of a whole day.
abbrev whole_days : Option (Bool × Duration) → ℕ
whole_days none = 7
whole_days (some (negative, d)) = if negative then 0 else d / day

unfoldable pub history_days : (Str → Option (Bool × Duration)) → Str → ℕ
unfolding is_empty
history_days parse_duration v =
    let days = whole_days (if is_empty v then none else parse_duration v) in
    if ltb days 1 then 1 else days

pub record HistoryBar : Type 0 where
  pub label : Str
  pub count : ℕ
  pub height_pct : ℕ
  pub today : Bool

-- The running maximum of the loop.
unfoldable pub highest : ℕ → List DailyAlertCount → ℕ
highest m [] = m
highest m (c ∷ counts) = highest (if ltb m c.count then c.count else m) counts

unfoldable pub height_of : ℕ → ℕ → ℕ
height_of m count =
    let height = if ltb 0 m then count * 100 / m else 0 in
    if ltb 0 count && ltb height 4 then 4 else height

-- `today` is the day of the server's clock, `top` the highest count.
abbrev pub bar_of : (ℕ → Str) → ℕ → ℕ → DailyAlertCount → HistoryBar
bar_of label today top c = record {
  label = label c.day;
  count = c.count;
  height_pct = height_of top c.count;
  today = eqb c.day today;
}

unfoldable pub build_history_bars : (ℕ → Str) → ℕ → List DailyAlertCount → List HistoryBar
unfolding highest height_of
build_history_bars label today counts = map (bar_of label today (highest 0 counts)) counts

-- `page, _ = strconv.Atoi(…)`, and at least 1.
unfoldable pub page_of : Parsed → ℕ
page_of malformed = 1
page_of (out_of_range negative) = if negative then 1 else 2 ^ 63 - 1
page_of (number negative n) = if negative then 1 else if ltb n 1 then 1 else n

-- The product of two ints wraps around.
unfoldable pub offset_of : ℕ → ℕ
offset_of page = (page - 1) * dashboard_page_size % 2 ^ 64

unfoldable pub total_pages_of : ℕ → ℕ
total_pages_of total =
    let n = (total + dashboard_page_size - 1) / dashboard_page_size in if ltb n 1 then 1 else n

-- The table of a page with its navigation.
pub record AlertPage : Type 0 where
  pub alerts : List ActiveAlertRow
  pub page : ℕ
  pub total_pages : ℕ
  pub total : ℕ
  pub has_prev : Bool
  pub has_next : Bool
  pub prev_page : ℕ
  pub next_page : ℕ

-- The page that was asked for, and the rows and the total that the query gave.
unfoldable pub paginate : ℕ → List ActiveAlertRow × ℕ → AlertPage
unfolding total_pages_of
paginate asked (alerts, total) =
    let total_pages = total_pages_of total in
    let page = if ltb total_pages asked then total_pages else asked in
    record {
      alerts = alerts;
      page = page;
      total_pages = total_pages;
      total = total;
      has_prev = ltb 1 page;
      has_next = ltb page total_pages;
      prev_page = page - 1;
      next_page = page + 1;
    }

pub record DashboardData : Type 0 where
  pub user : Str
  pub filter : ActiveAlertFilter
  pub alert_names : List Str
  pub open_groups : ℕ
  pub table : AlertPage
  pub history : List HistoryBar
  pub history_days : ℕ
  pub history_first_label : Str
  pub history_last_label : Str
  pub today_count : ℕ

-- Which queries succeed.
pub record Reads : Type 0 where
  pub alerts : Bool
  pub names : Bool
  pub groups : Bool
  pub history : Bool

-- The values of the query string.
pub record DashboardQuery : Type 0 where
  pub status : Str
  pub alertname : Str
  pub search : Str
  pub page : Str

unfoldable pub filter_of : DashboardQuery → ActiveAlertFilter
unfolding trim_space
filter_of q = record { status = q.status; alertname = q.alertname; search = trim_space q.search }

abbrev first_label : List HistoryBar → Str
first_label [] = []
first_label (b ∷ bars) = b.label

abbrev last_bar : HistoryBar → List HistoryBar → HistoryBar
last_bar b [] = b
last_bar b (c ∷ bars) = last_bar c bars

-- The label and the count of the last bar.
abbrev last_label : List HistoryBar → Str × ℕ
last_label [] = ([], 0)
last_label (b ∷ bars) = let b' = last_bar b bars in (b'.label, b'.count)

module _ (ilike : Str → Str → Bool) (labels_text : Map Str → Str)
    (annotations_text : Option (Map Str) → Str)
    (by_last_seen : List ActiveAlert → List ActiveAlert) where
  unfoldable pub alert_page : ActiveAlertFilter → ℕ → List ActiveAlert → AlertPage
  unfolding list_active_alerts offset_of paginate
  alert_page f page t = paginate page (
      list_active_alerts ilike labels_text annotations_text by_last_seen f dashboard_page_size
        (offset_of page) t)

  module _ (by_name : List Str → List Str) (day_of : Time → ℕ) (label : ℕ → Str) where
    -- `db_today` is CURRENT_DATE, `days` the number of days of the history.
    unfoldable pub dashboard_handler :
        Option Session → DashboardQuery → Reads → ℕ → ℕ → ℕ → Alerts → Table → Reply DashboardData
    unfolding alert_page page_of parse_int filter_of current_user list_distinct_alertnames
        count_open_alert_groups count_firing_events_by_day build_history_bars
    dashboard_handler session q reads days db_today today t groups =
        if not reads.alerts
        then status 500
        else (let counts =
              if reads.history
              then count_firing_events_by_day day_of days db_today t.events
              else [] in
            let history = build_history_bars label today counts in
            let (last, today_count) = last_label history in
            rendered (record {
              user = current_user session;
              filter = filter_of q;
              alert_names = if reads.names then list_distinct_alertnames by_name t.active else [];
              open_groups = if reads.groups then count_open_alert_groups groups else 0;
              table = alert_page (filter_of q) (page_of (parse_int q.page)) t.active;
              history = history;
              history_days = days;
              history_first_label = first_label history;
              history_last_label = last;
              today_count = today_count;
            }))
