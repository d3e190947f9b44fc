-- ===== src/Db/Alerts/Listing.antt =====
-- internal/db/alerts.go: the active alerts as the dashboard lists them. `ilike` is Postgres' match,
-- the two texts are those of the jsonb columns, and `by_last_seen` is ORDER BY last_seen DESC of one
-- query, which may take alerts of one last_seen in any order.
use alertory.Prelude.{
  ℕ, ◌^◌, Bool, ◌&&◌, ◌||◌, List, [], ◌∷◌, ◌++◌, map, Option, keep, take, drop, length, eqb, leb,
  ltb, if◌then◌else◌,
}
use alertory.Text.{Str, str, ◌==◌}
use alertory.Text.Parts.{is_in}
use alertory.Map.{Map}
use alertory.Clock.{Time}
use alertory.Slack.{is_empty}
use alertory.Db.Alerts.{ActiveAlert}

pub record ActiveAlertRow : Type 0 where
  pub fingerprint : Str
  pub alertname : Str
  pub status : Str
  pub labels : Map Str
  pub starts_at : Time
  pub last_seen : Time

pub record ActiveAlertFilter : Type 0 where
  pub status : Str
  pub alertname : Str
  pub search : Str

abbrev pub row_of : ActiveAlert → ActiveAlertRow
row_of a = record {
  fingerprint = a.fingerprint;
  alertname = a.alertname;
  status = a.status;
  labels = a.labels;
  starts_at = a.starts_at;
  last_seen = a.last_seen;
}

-- An offset is an int, as 64 bits in two's complement: from 2^63 on it is negative.
unfoldable pub start_at : ℕ → ℕ
start_at offset = if leb (2 ^ 63) offset then 0 else offset

-- A limit below 1 is 0 here.
unfoldable pub page_limit : ℕ → ℕ
page_limit limit = if eqb limit 0 || ltb 1000 limit then 200 else limit

module _ (ilike : Str → Str → Bool) (labels_text : Map Str → Str)
    (annotations_text : Option (Map Str) → Str) where
  -- The WHERE of the query.
  unfoldable pub is_listed : ActiveAlertFilter → ActiveAlert → Bool
  unfolding is_empty
  is_listed f a =
      let pattern = str "%" ++ f.search ++ str "%" in
      (is_empty f.status || a.status == f.status)
      && (is_empty f.alertname || a.alertname == f.alertname)
      && (is_empty f.search
          || ilike a.alertname pattern
          || ilike (labels_text a.labels) pattern
          || ilike (annotations_text a.annotations) pattern)

  module _ (by_last_seen : List ActiveAlert → List ActiveAlert) where
    -- All the rows that match, in the order of the listing.
    unfoldable pub listed : ActiveAlertFilter → List ActiveAlert → List ActiveAlertRow
    unfolding is_listed
    listed f t = map row_of (by_last_seen (keep (is_listed f) t))

    -- `count(*) OVER()` comes with a row of the page, so a page without rows has the total 0.
    unfoldable pub list_active_alerts :
        ActiveAlertFilter → ℕ → ℕ → List ActiveAlert → List ActiveAlertRow × ℕ
    unfolding listed start_at page_limit is_empty
    list_active_alerts f limit offset t =
        let rows = listed f t in
        let page = take (page_limit limit) (drop (start_at offset) rows) in
        (page, if is_empty page then 0 else length rows)

unfoldable pub distinct : List Str → List Str
unfolding is_in
distinct [] = []
distinct (s ∷ rest) = let less = distinct rest in if is_in s less then less else s ∷ less

-- `by_name` is ORDER BY alertname.
unfoldable pub list_distinct_alertnames : (List Str → List Str) → List ActiveAlert → List Str
unfolding distinct
list_distinct_alertnames by_name t = by_name (distinct (map (λ a. a.alertname) t))
