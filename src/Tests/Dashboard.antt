-- ===== src/Tests/Dashboard.antt =====
-- The dashboard on concrete data.
use mathlib.Core.List.{Perm, Pairwise}
use alertory.Prelude.{
  ℕ, Bool, true, false, List, [], ◌∷◌, Option, none, ◌≡◌, ◌⊎◌, length, keep, any, eqb, take, drop,
  ◌+◌, ◌-◌, ◌*◌, ltb, map, arith,
}
use alertory.Text.{Str, str}
use alertory.Map.{Map}
use alertory.Prelude.{All}
use alertory.Db.Alerts.{ActiveAlert, AlertEvent}
use alertory.Db.Alerts.Listing.{ActiveAlertFilter, row_of, is_listed, listed}
use alertory.Db.Alerts.History.{count_firing_events_by_day, is_firing_within}
use alertory.Http.Dashboard.{build_history_bars, total_pages_of}
use alertory.Http.Dashboard.Bars.{Fits, shown_total, build_history_bars-count_firing_events}
use alertory.Http.Dashboard.Pages.{rows, page, alert_page_past}
use alertory.Http.Dashboard.Listing.{seen, row_seen, alert_page_lem}
use alertory.Http.Dashboard.Listing
use alertory.Prelude.Sorted.{IsDescending, AreDistinct}
use alertory.Slack.{is_empty}
use alertory.Tests.Order.{newest_first, newest_first-IsOrder, distinct_cons}

abbrev pub active : Str → ActiveAlert
active fingerprint = record {
  fingerprint = fingerprint;
  alertname = str "DiskFull";
  status = str "firing";
  starts_at = 5;
  ends_at = none;
  labels = [];
  annotations = none;
  first_seen = 5;
  last_seen = 7;
  updated_at = 7;
}

abbrev two : List ActiveAlert
two = active (str "f1") ∷ active (str "f2") ∷ []

abbrev everything : ActiveAlertFilter
everything = record { status = []; alertname = []; search = [] }

abbrev pub nowhere : Str → Str → Bool
nowhere text pattern = false

abbrev pub no_labels_text : Map Str → Str
no_labels_text labels = str "{}"

abbrev pub no_annotations_text : Option (Map Str) → Str
no_annotations_text annotations = str "null"

abbrev pub unordered : List ActiveAlert → List ActiveAlert
unordered t = t

abbrev shown : ℕ
shown = length (rows nowhere no_labels_text no_annotations_text unordered everything two)

abbrev later : ActiveAlert
later = record (active (str "f3")) { last_seen = 9 }

abbrev apart : List ActiveAlert
apart = active (str "f1") ∷ later ∷ []

apart-AreDistinct : AreDistinct seen apart
apart-AreDistinct =
    distinct_cons (active (str "f1")) (later ∷ []) (omega arith, tt)
      (distinct_cons later [] tt Pairwise.nil)

abbrev each_query : ℕ → List ActiveAlert → List ActiveAlert
each_query p = newest_first

alert_page_lem_example :
    let show =
      Listing.page nowhere no_labels_text no_annotations_text each_query everything apart in
    let last =
      Listing.last_page nowhere no_labels_text no_annotations_text each_query everything apart in
    let found =
      Listing.matching nowhere no_labels_text no_annotations_text each_query everything apart in
    let all =
      Listing.rows_to nowhere no_labels_text no_annotations_text each_query everything apart last in
    Perm all (map row_of found)
    × IsDescending row_seen all
    × ((show 1).alerts ≡ take 25 (drop ((1 - 1) * 25) all))
    × ((show 1).page ≡ 1)
    × ((show 1).total_pages ≡ last)
    × ((show 1).total ≡ length found)
    × ((show 1).has_prev ≡ ltb 1 1)
    × ((show 1).has_next ≡ ltb 1 last)
    × ((show 1).prev_page ≡ 1 - 1)
    × ((show 1).next_page ≡ 1 + 1)
unfolding total_pages_of is_listed is_empty
alert_page_lem_example =
    alert_page_lem nowhere no_labels_text no_annotations_text each_query everything apart
      (λ p. newest_first-IsOrder) apart-AreDistinct (omega arith) 1 (omega arith) (omega arith)

alert_page_past_example :
    let show = page nowhere no_labels_text no_annotations_text unordered everything two in
    ((show 2).alerts ≡ []) × ((show 2).total ≡ 0) × ((show 2).page ≡ 1) × ((show 2).total_pages ≡ 1)
unfolding listed total_pages_of
alert_page_past_example =
    alert_page_past nowhere no_labels_text no_annotations_text unordered everything two 2
      (omega arith) (omega arith)

abbrev pub same_day : ℕ → ℕ
same_day time = time

abbrev pub no_label : ℕ → Str
no_label day = str "day"

abbrev fired : AlertEvent
fired = record { fingerprint = str "f1"; status = str "firing"; received_at = 99 }

build_history_bars-count_firing_events_example :
    let bars =
      build_history_bars no_label 100 (count_firing_events_by_day same_day 7 100 (fired ∷ [])) in
    (length bars ≡ 7)
    × All Fits bars
    × (shown_total bars ≡ length (keep (is_firing_within same_day 7 100) (fired ∷ [])))
    × ((shown_total bars ≡ 0) ⊎ (any (λ b. eqb b.height_pct 100) bars ≡ true))
build_history_bars-count_firing_events_example =
    build_history_bars-count_firing_events same_day no_label 7 100 100 (fired ∷ []) (omega arith)
      (omega arith)
