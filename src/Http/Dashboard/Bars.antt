-- ===== src/Http/Dashboard/Bars.antt =====
-- The graph of the firing events.
use alertory.Prelude.{
  ℕ, zero, suc, ◌+◌, ◌*◌, ◌/◌, ◌<◌, ◌≤◌, true, List, [], ◌∷◌, map, keep, any, Bool-cases, inl, inr,
  length, ltb, eqb, eqb_iff, if◌then◌else◌, ◌≡◌, ◌⊎◌, refl, ◌∙◌, ap, arith, All,
}
use alertory.Text.{Str}
use native.Mathlib.Nat.{div-lt_iff_lt-mul, mul-div_cancel_left, zero-div}
use alertory.Db.Alerts.{AlertEvent}
use alertory.Clock.{Time}
use alertory.Db.Alerts.History.{
  DailyAlertCount, count_firing_events_by_day, total_count, is_firing_within, total_count-series,
  length-series, count_on, series,
}
use alertory.Http.Dashboard.{HistoryBar, bar_of, highest, height_of, build_history_bars}

highest_from : (m : ℕ) (counts : List DailyAlertCount) → m ≤ highest m counts
unfolding highest
highest_from m [] = omega arith
highest_from m (c ∷ counts) = ground (arith, highest_from m counts, highest_from c.count counts)

-- No day has more events than the highest.
highest-All : (m : ℕ) (counts : List DailyAlertCount) → All (λ c. c.count ≤ highest m counts) counts
unfolding highest
highest-All m [] = tt
highest-All m (c ∷ counts) = (
  ground (arith, highest_from m counts, highest_from c.count counts),
  highest-All (if ltb m c.count then c.count else m) counts,
)

-- A bar fits into the graph, can be seen if a day has events, and only then.
abbrev pub Fits : HistoryBar → Type 0
Fits b =
    (b.height_pct ≤ 100)
    × (((b.count ≡ 0) × (b.height_pct ≡ 0)) ⊎ ((0 < b.count) × (4 ≤ b.height_pct)))

share_le : (m count : ℕ) → 0 < m → count ≤ m → count * 100 / m ≤ 100
share_le m count pos h =
    omega (arith, (div-lt_iff_lt-mul {k = m} {x = count * 100} {y = 101} pos).1 (omega arith))

share_full : (m : ℕ) → 0 < m → m * 100 / m ≡ 100
share_full m pos = mul-div_cancel_left 100 pos

height_of_fits :
    (m count : ℕ)
    → count ≤ m
    → (height_of m count ≤ 100)
      × (((count ≡ 0) × (height_of m count ≡ 0)) ⊎ ((0 < count) × (4 ≤ height_of m count)))
unfolding height_of
height_of_fits m zero h = (ground (arith, zero-div m), inl (refl, ground (arith, zero-div m)))
height_of_fits m (suc c) h =
    (ground (arith, share_le m (suc c) (omega arith) h), inr (omega arith, ground arith))

height_of_full : (m : ℕ) → 0 < m → height_of m m ≡ 100
unfolding height_of
height_of_full m h = ground (arith, share_full m h)

-- The highest count is that of a day, if a day has events.
highest-any :
    (m top : ℕ) (counts : List DailyAlertCount)
    → highest m counts ≡ top
    → m < top
    → any (λ c. eqb c.count top) counts ≡ true
unfolding highest
highest-any m top [] e h = absurd (omega arith)
highest-any m top (c ∷ counts) e h = ground (
  arith,
  highest-any c.count top counts,
  highest-any m top counts,
  highest_from c.count counts,
  eqb_iff c.count top,
)

bars-All :
    (label : ℕ → Str) (today top : ℕ) (counts : List DailyAlertCount)
    → All (λ c. c.count ≤ top) counts
    → All Fits (map (bar_of label today top) counts)
bars-All label today top [] h = tt
bars-All label today top (c ∷ counts) h =
    (height_of_fits top c.count h.0, bars-All label today top counts h.1)

-- The number of events that the bars show.
abbrev pub shown_total : List HistoryBar → ℕ
shown_total [] = 0
shown_total (b ∷ bars) = b.count + shown_total bars

shown_total-bars :
    (label : ℕ → Str) (today top : ℕ) (counts : List DailyAlertCount)
    → shown_total (map (bar_of label today top) counts) ≡ total_count counts
shown_total-bars label today top [] = refl
shown_total-bars label today top (c ∷ counts) =
    ap (λ n. c.count + n) (shown_total-bars label today top counts)

bars-full :
    (label : ℕ → Str) (today top : ℕ) (counts : List DailyAlertCount)
    → 0 < top
    → any (λ c. eqb c.count top) counts ≡ true
    → any (λ b. eqb b.height_pct 100) (map (bar_of label today top) counts) ≡ true
bars-full label today top [] pos h = h
bars-full label today top (c ∷ counts) pos h =
    ground
      (arith, bars-full label today top counts pos, height_of_full top pos, eqb_iff c.count top)

total_count_zero :
    (counts : List DailyAlertCount) → All (λ c. c.count ≤ 0) counts → total_count counts ≡ 0
total_count_zero [] h = refl
total_count_zero (c ∷ counts) h = omega (arith, total_count_zero counts h.1, h.0)

highest_pos : (counts : List DailyAlertCount) → 0 < total_count counts → 0 < highest 0 counts
highest_pos counts h = elim (Bool-cases (ltb 0 (highest 0 counts))) [
  | inl pos ↦ ground arith
  | inr none_counted ↦
      let zero_top : highest 0 counts ≡ 0 = ground arith in
      let all_zero : All (λ c. c.count ≤ 0) counts = rw (← zero_top) (highest-All 0 counts) in
      absurd (omega (arith, total_count_zero counts all_zero))
]

length-map : (f : ℕ → DailyAlertCount) (days : List ℕ) → length (map f days) ≡ length days
length-map f [] = refl
length-map f (d ∷ days) = ap suc (length-map f days)

length-bars :
    (label : ℕ → Str) (today top : ℕ) (counts : List DailyAlertCount)
    → length (map (bar_of label today top) counts) ≡ length counts
length-bars label today top [] = refl
length-bars label today top (c ∷ counts) = ap suc (length-bars label today top counts)

window :
    (day_of : Time → ℕ) (days today : ℕ) (events : List AlertEvent)
    → 0 < days
    → count_firing_events_by_day day_of days today events
      ≡ map (count_on day_of events) (series days today)
unfolding count_firing_events_by_day
window day_of days today events pos =
    ap (λ n. map (count_on day_of events) (series n today)) (ground arith)

-- The graph has one bar for each day of the history. The counts of its bars make up the events
-- that fired on these days; a bar is at most as high as the graph, at least 4 % of it if its day
-- has events, and 0 if it has none; and if there is any event, some bar has the full height.
pub build_history_bars-count_firing_events :
    (day_of : Time → ℕ) (label : ℕ → Str) (days db_today today : ℕ) (events : List AlertEvent)
    → 0 < days
    → days ≤ db_today + 1
    → let bars =
        build_history_bars label today (count_firing_events_by_day day_of days db_today events) in
      (length bars ≡ days)
      × All Fits bars
      × (shown_total bars ≡ length (keep (is_firing_within day_of days db_today) events))
      × ((shown_total bars ≡ 0) ⊎ (any (λ b. eqb b.height_pct 100) bars ≡ true))
unfolding build_history_bars
build_history_bars-count_firing_events day_of label zero db_today today events pos h = elim pos [ ]
build_history_bars-count_firing_events day_of label (suc n) db_today today events pos h =
    let counts = map (count_on day_of events) (series (suc n) db_today) in
    let top = highest 0 counts in
    let total = shown_total-bars label today top counts in
    rw (window day_of (suc n) db_today events pos) (
      length-bars label today top counts
          ∙ (length-map (count_on day_of events) (series (suc n) db_today)
              ∙ length-series (suc n) db_today),
      bars-All label today top counts (highest-All 0 counts),
      total ∙ total_count-series day_of (suc n) db_today events h,
      elim (Bool-cases (ltb 0 (total_count counts))) [
        | inl some_event ↦
            let high = highest_pos counts (ground arith) in
            inr (bars-full label today top counts high (highest-any 0 top counts refl high))
        | inr no_event ↦ inl (total ∙ ground arith)
      ],
    )
