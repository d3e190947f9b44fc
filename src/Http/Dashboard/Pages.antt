-- ===== src/Http/Dashboard/Pages.antt =====
-- The pages of the dashboard's table.
use alertory.Prelude.{
  ℕ, zero, suc, ◌+◌, ◌-◌, ◌*◌, ◌/◌, ◌^◌, ◌<◌, ◌≤◌, Bool, false, List, [], ◌∷◌, ◌++◌, Option, take,
  drop, length, ltb, if◌then◌else◌, ◌≡◌, refl, sym, ◌∙◌, ap, arith,
}
use alertory.Text.{Str}
use alertory.Map.{Map}
use alertory.Slack.{is_empty}
use alertory.Db.Alerts.{ActiveAlert}
use alertory.Db.Alerts.Listing.{
  ActiveAlertRow, ActiveAlertFilter, listed, start_at, page_limit, list_active_alerts,
}
use alertory.Http.Dashboard.{AlertPage, offset_of, total_pages_of, paginate, alert_page}

module _ {ℓ} {A : Type ℓ} where
  take_nil : (n : ℕ) → ◌≡◌ {A = List A} (take n []) []
  take_nil zero = refl
  take_nil (suc n) = refl

  pub take-add : (k m n : ℕ) (xs : List A) → k ≡ m + n → take k xs ≡ take m xs ++ take n (drop m xs)
  take-add k zero n xs e = ap (λ i. take i xs) (omega arith)
  take-add zero (suc m) n xs e = absurd (omega arith)
  take-add (suc k) (suc m) n [] e = sym (take_nil n)
  take-add (suc k) (suc m) n (x ∷ xs) e = ap (λ t. x ∷ t) (take-add k m n xs (omega arith))

  drop_all : (n : ℕ) (xs : List A) → length xs ≤ n → drop n xs ≡ []
  drop_all zero [] h = refl
  drop_all zero (x ∷ xs) h = absurd (omega arith)
  drop_all (suc n) [] h = refl
  drop_all (suc n) (x ∷ xs) h = drop_all n xs (omega arith)

  is_empty-take-drop :
      (n k : ℕ) (xs : List A) → k < length xs → is_empty (take (suc n) (drop k xs)) ≡ false
  unfolding is_empty
  is_empty-take-drop n k [] h = absurd (omega arith)
  is_empty-take-drop n zero (x ∷ xs) h = refl
  is_empty-take-drop n (suc k) (x ∷ xs) h = is_empty-take-drop n k xs (omega arith)

-- The rows and the total that the query gives for a page.
abbrev page_rows : ℕ → List ActiveAlertRow → List ActiveAlertRow × ℕ
page_rows start rows =
    let page = take 25 (drop start rows) in (page, if is_empty page then 0 else length rows)

page_rows_some :
    (start : ℕ) (rows : List ActiveAlertRow)
    → start < length rows
    → page_rows start rows ≡ (take 25 (drop start rows), length rows)
page_rows_some start rows h = rw (is_empty-take-drop 24 start rows h) refl

page_rows_past :
    (start : ℕ) (rows : List ActiveAlertRow) → length rows ≤ start → page_rows start rows ≡ ([], 0)
unfolding is_empty
page_rows_past start rows h = rw (drop_all start rows h) refl

start_at-offset_of :
    (p n : ℕ) → (p - 1) * 25 ≤ n → n < 2 ^ 63 → start_at (offset_of p) ≡ (p - 1) * 25
unfolding start_at offset_of
start_at-offset_of p n h k = ground arith

pub total_pages_of_bounds :
    (n : ℕ)
    → (n ≤ total_pages_of n * 25)
      × (0 < total_pages_of n)
      × ((p : ℕ) → 0 < p → p ≤ total_pages_of n → 0 < n → (p - 1) * 25 < n)
unfolding total_pages_of
total_pages_of_bounds n = (ground arith, ground arith, λ p pos h some. ground arith)

-- A page up to the last one shows its rows, with the number of all rows.
paginate_within :
    (p : ℕ) (rows : List ActiveAlertRow)
    → 0 < p
    → p ≤ total_pages_of (length rows)
    → length rows < 2 ^ 63
    → page_rows (start_at (offset_of p)) rows ≡ (take 25 (drop ((p - 1) * 25) rows), length rows)
paginate_within p [] pos h k =
    page_rows_past (start_at (offset_of p)) [] (omega arith)
    ∙ sym (ap (λ xs. (take 25 xs, 0)) (drop_all ((p - 1) * 25) [] (omega arith)))
paginate_within p (r ∷ rows) pos h k =
    let n = length (r ∷ rows) in
    let inside = (total_pages_of_bounds n).2 p pos h (omega arith) in
    ap (λ start. page_rows start (r ∷ rows)) (start_at-offset_of p n (omega arith) k)
    ∙ page_rows_some ((p - 1) * 25) (r ∷ rows) inside

-- What a page up to the last one shows beside its rows.
pub paginate_lem :
    (p n : ℕ) (xs : List ActiveAlertRow)
    → p ≤ total_pages_of n
    → let a = paginate p (xs, n) in
      (a.page ≡ p)
      × (a.total_pages ≡ total_pages_of n)
      × (a.total ≡ n)
      × (a.has_prev ≡ ltb 1 p)
      × (a.has_next ≡ ltb p (total_pages_of n))
      × (a.prev_page ≡ p - 1)
      × (a.next_page ≡ p + 1)
unfolding paginate
paginate_lem p n xs h = ground arith

module _ (ilike : Str → Str → Bool) (labels_text : Map Str → Str)
    (annotations_text : Option (Map Str) → Str) (by_last_seen : List ActiveAlert → List ActiveAlert)
    (f : ActiveAlertFilter) (t : List ActiveAlert) where
  abbrev pub rows : List ActiveAlertRow
  rows = listed ilike labels_text annotations_text by_last_seen f t

  abbrev pub page : ℕ → AlertPage
  page p = alert_page ilike labels_text annotations_text by_last_seen f p t

  abbrev pub last_page : ℕ
  last_page = total_pages_of (length rows)

  pub query_within :
      (p : ℕ)
      → 0 < p
      → p ≤ last_page
      → length rows < 2 ^ 63
      → page p ≡ paginate p (take 25 (drop ((p - 1) * 25) rows), length rows)
  unfolding alert_page list_active_alerts page_limit
  query_within p pos h k = ap (paginate p) (paginate_within p rows pos h k)

  query_past : (p : ℕ) → last_page < p → p ≤ 2 ^ 63 / 25 → page p ≡ paginate p ([], 0)
  unfolding alert_page list_active_alerts page_limit
  query_past p h k =
      let bounds = total_pages_of_bounds (length rows) in
      ap (λ start. paginate p (page_rows start rows))
        (start_at-offset_of p ((p - 1) * 25) (omega arith) (omega arith))
      ∙ ap (paginate p) (page_rows_past ((p - 1) * 25) rows (omega (arith, bounds.0)))

  paginate_empty :
      (p : ℕ) → 0 < p → ((paginate p ([], 0)).page ≡ 1) × ((paginate p ([], 0)).total_pages ≡ 1)
  unfolding paginate total_pages_of
  paginate_empty p h = ground arith

  -- A page past the last one shows no rows, the total 0, and itself as the first and only page,
  -- however many rows the listing has; as long as its offset is an int.
  pub alert_page_past :
      (p : ℕ)
      → last_page < p
      → p ≤ 2 ^ 63 / 25
      → ((page p).alerts ≡ [])
        × ((page p).total ≡ 0)
        × ((page p).page ≡ 1)
        × ((page p).total_pages ≡ 1)
  unfolding paginate total_pages_of
  alert_page_past p h k =
      let shown = query_past p h k in
      let single = paginate_empty p (omega arith) in
      (
        ap (λ a. a.alerts) shown,
        ap (λ a. a.total) shown,
        ap (λ a. a.page) shown ∙ single.0,
        ap (λ a. a.total_pages) shown ∙ single.1,
      )
