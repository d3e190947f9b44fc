-- ===== src/Db/Alerts/History.antt =====
-- internal/db/alerts.go: the firing events of each day. A day is a number; `day_of` is the day of a
-- time in the database's time zone.
use alertory.Prelude.{
  ℕ, zero, suc, ◌+◌, ◌-◌, ◌≤◌, Bool, ◌&&◌, List, [], ◌∷◌, map, keep, length, eqb, ltb, leb,
  if◌then◌else◌, ◌≡◌, refl, ap, arith, eqb_iff,
}
use alertory.Text.{str, ◌==◌}
use alertory.Clock.{Time}
use alertory.Db.Alerts.{AlertEvent}

pub record DailyAlertCount : Type 0 where
  pub day : ℕ
  pub count : ℕ

-- generate_series: that many days, the last of them `today`.
unfoldable pub series : ℕ → ℕ → List ℕ
series zero today = []
series (suc days) today = (today - days) ∷ series days today

abbrev pub total_count : List DailyAlertCount → ℕ
total_count [] = 0
total_count (c ∷ counts) = c.count + total_count counts

module _ (day_of : Time → ℕ) where
  abbrev pub is_firing_on : ℕ → AlertEvent → Bool
  is_firing_on day e = eqb (day_of e.received_at) day && e.status == str "firing"

  abbrev pub count_on : List AlertEvent → ℕ → DailyAlertCount
  count_on events day = record { day = day; count = length (keep (is_firing_on day) events) }

  -- A number of days below 1 is 0 here.
  unfoldable pub count_firing_events_by_day : ℕ → ℕ → List AlertEvent → List DailyAlertCount
  unfolding series
  count_firing_events_by_day days today events =
      map (count_on events) (series (if eqb days 0 then 7 else days) today)

  -- The events that fired in the last days.
  abbrev pub is_firing_within : ℕ → ℕ → AlertEvent → Bool
  is_firing_within days today e =
      (ltb today (day_of e.received_at + days) && leb (day_of e.received_at) today)
      && e.status == str "firing"

  -- A window of one more day holds the events of that day besides.
  within_suc :
      (days today : ℕ) (e : AlertEvent)
      → days ≤ today
      → (if is_firing_within (suc days) today e then 1 else 0)
        ≡ (if is_firing_on (today - days) e then 1 else 0)
          + (if is_firing_within days today e then 1 else 0)
  within_suc days today e h = ground (arith, eqb_iff (day_of e.received_at) (today - days))

  length-keep_cons :
      (p : AlertEvent → Bool) (e : AlertEvent) (events : List AlertEvent)
      → length (keep p (e ∷ events)) ≡ (if p e then 1 else 0) + length (keep p events)
  length-keep_cons p e events = ground arith

  count_within_suc :
      (days today : ℕ) (events : List AlertEvent)
      → days ≤ today
      → length (keep (is_firing_within (suc days) today) events)
        ≡ length (keep (is_firing_on (today - days)) events)
          + length (keep (is_firing_within days today) events)
  count_within_suc days today [] h = refl
  count_within_suc days today (e ∷ events) h = omega (
    arith,
    length-keep_cons (is_firing_within (suc days) today) e events,
    length-keep_cons (is_firing_on (today - days)) e events,
    length-keep_cons (is_firing_within days today) e events,
    within_suc days today e h,
    count_within_suc days today events h,
  )

  count_within_zero :
      (today : ℕ) (events : List AlertEvent) → length (keep (is_firing_within 0 today) events) ≡ 0
  count_within_zero today [] = refl
  count_within_zero today (e ∷ events) = ground (arith, count_within_zero today events)

  pub total_count-series :
      (days today : ℕ) (events : List AlertEvent)
      → days ≤ today + 1
      → total_count (map (count_on events) (series days today))
        ≡ length (keep (is_firing_within days today) events)
  unfolding series
  total_count-series zero today events h = omega (arith, count_within_zero today events)
  total_count-series (suc days) today events h = omega (
    arith,
    count_within_suc days today events (omega arith),
    total_count-series days today events (omega arith),
  )

pub length-series : (days today : ℕ) → length (series days today) ≡ days
unfolding series
length-series zero today = refl
length-series (suc days) today = ap suc (length-series days today)
