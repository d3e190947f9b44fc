-- ===== src/Http/Dashboard/Listing.antt =====
-- The pages of the dashboard's table, one after the other. Each page is a query of its own, which
-- orders the rows by last_seen and may take rows of one last_seen in any order.
use mathlib.Core.List.{Perm}
use mathlib.Core.List.Perm
use mathlib.Core.Path.{subst}
use alertory.Prelude.{
  ℕ, take_all, zero, suc, ◌+◌, ◌-◌, ◌*◌, ◌^◌, ◌<◌, ◌≤◌, Bool, List, [], ◌∷◌, ◌++◌, All, map, keep,
  Option, take, drop, length, ltb, ◌≡◌, refl, sym, ◌∙◌, ap, arith,
}
use alertory.Prelude.Orders.{length-perm}
use alertory.Prelude.Sorted.{IsDescending, AreDistinct, AreDistinct-perm, descending_perm}
use alertory.Text.{Str}
use alertory.Map.{Map}
use alertory.Clock.{Time}
use alertory.Db.Alerts.{ActiveAlert}
use alertory.Db.Alerts.Listing.{ActiveAlertRow, ActiveAlertFilter, row_of, is_listed, listed}
use alertory.Http.Dashboard.{AlertPage, total_pages_of, paginate, alert_page}
use alertory.Http.Dashboard.Pages.{take-add, total_pages_of_bounds, paginate_lem, query_within}

ActiveAlert-set : IsSet ActiveAlert
ActiveAlert-set = hlevel

abbrev pub seen : ActiveAlert → Time
seen a = a.last_seen

abbrev pub row_seen : ActiveAlertRow → Time
row_seen r = r.last_seen

-- ORDER BY last_seen DESC.
abbrev pub IsOrder : (List ActiveAlert → List ActiveAlert) → Type 0
IsOrder order = (xs : List ActiveAlert) → Perm (order xs) xs × IsDescending seen (order xs)

All-map_row :
    (n : Time) (xs : List ActiveAlert)
    → All (λ a. a.last_seen ≤ n) xs
    → All (λ r. row_seen r ≤ n) (map row_of xs)
All-map_row n [] h = tt
All-map_row n (x ∷ xs) h = (h.0, All-map_row n xs h.1)

IsDescending-map_row :
    (xs : List ActiveAlert) → IsDescending seen xs → IsDescending row_seen (map row_of xs)
IsDescending-map_row [] h = tt
IsDescending-map_row (x ∷ xs) h = (All-map_row x.last_seen xs h.0, IsDescending-map_row xs h.1)

length-map_row : (xs : List ActiveAlert) → length (map row_of xs) ≡ length xs
length-map_row [] = refl
length-map_row (x ∷ xs) = ap suc (length-map_row xs)

module _ (ilike : Str → Str → Bool) (labels_text : Map Str → Str)
    (annotations_text : Option (Map Str) → Str) (orders : ℕ → List ActiveAlert → List ActiveAlert)
    (f : ActiveAlertFilter) (t : List ActiveAlert) where
  -- The alerts that match the filter.
  abbrev pub matching : List ActiveAlert
  matching = keep (is_listed ilike labels_text annotations_text f) t

  abbrev pub last_page : ℕ
  last_page = total_pages_of (length matching)

  -- A page, by the order that its own query takes.
  abbrev pub page : ℕ → AlertPage
  page p = alert_page ilike labels_text annotations_text (orders p) f p t

  -- The rows of the pages up to one, page after page.
  abbrev pub rows_to : ℕ → List ActiveAlertRow
  rows_to zero = []
  rows_to (suc p) = rows_to p ++ (page (suc p)).alerts

  module _ (sorts : (p : ℕ) → IsOrder (orders p)) (apart : AreDistinct seen matching)
      (few : length matching < 2 ^ 63) where
    rows : List ActiveAlertRow
    rows = map row_of (orders 0 matching)

    length-listed :
        (p : ℕ)
        → length (listed ilike labels_text annotations_text (orders p) f t) ≡ length matching
    unfolding listed
    length-listed p = length-map_row (orders p matching) ∙ length-perm (sorts p matching).0

    same_order : (p : ℕ) → listed ilike labels_text annotations_text (orders p) f t ≡ rows
    unfolding listed rows
    same_order p = ap (map row_of) (
        descending_perm seen ActiveAlert-set (orders p matching) (orders 0 matching)
          (Perm.trans (sorts p matching).0 (Perm.symm (sorts 0 matching).0)) (sorts p matching).1
          (sorts 0 matching).1 (AreDistinct-perm seen (Perm.symm (sorts p matching).0) apart))

    page_within :
        (p : ℕ)
        → 0 < p
        → p ≤ last_page
        → page p ≡ paginate p (take 25 (drop ((p - 1) * 25) rows), length matching)
    page_within p pos h =
        let n = length-listed p in
        query_within ilike labels_text annotations_text (orders p) f t p pos
          (subst (λ k. p ≤ total_pages_of k) (sym n) h) (subst (λ k. k < 2 ^ 63) (sym n) few)
        ∙ ap (λ (xs, k). paginate p (take 25 (drop ((p - 1) * 25) xs), k))
            (λ i. (same_order p i, n i))

    rows_to_lem : (p : ℕ) → p ≤ last_page → rows_to p ≡ take (p * 25) rows
    unfolding paginate
    rows_to_lem zero h = refl
    rows_to_lem (suc p) h =
        let shown : (page (suc p)).alerts ≡ take 25 (drop (p * 25) rows) =
          ap (λ a. a.alerts) (page_within (suc p) (omega arith) h)
          ∙ ap (λ i. take 25 (drop (i * 25) rows)) (omega arith) in
        ap (λ xs. xs ++ (page (suc p)).alerts) (rows_to_lem p (omega arith))
        ∙ (ap (λ xs. take (p * 25) rows ++ xs) shown
            ∙ sym (take-add (suc p * 25) (p * 25) 25 rows (omega arith)))

    rows_to-last_page : 0 < last_page → rows_to last_page ≡ rows
    unfolding rows
    rows_to-last_page some_page =
        let n = length-map_row (orders 0 matching) ∙ length-perm (sorts 0 matching).0 in
        rows_to_lem last_page (omega arith)
        ∙ take_all (last_page * 25) (map row_of (orders 0 matching))
            (subst (λ k. k ≤ last_page * 25) (sym n) (total_pages_of_bounds (length matching)).0)

    -- Where no two alerts that match the filter were last seen at the same time, the pages, one
    -- after the other, show each of these alerts exactly once and the one seen last first,
    -- whatever order each query takes otherwise. Each page shows 25 of them, or what is left, with
    -- its number, the number of pages and of alerts, and links to the page before it and after it
    -- where there is one; as long as the number of alerts is an int.
    pub alert_page_lem :
        (p : ℕ)
        → 0 < p
        → p ≤ last_page
        → Perm (rows_to last_page) (map row_of matching)
          × IsDescending row_seen (rows_to last_page)
          × ((page p).alerts ≡ take 25 (drop ((p - 1) * 25) (rows_to last_page)))
          × ((page p).page ≡ p)
          × ((page p).total_pages ≡ last_page)
          × ((page p).total ≡ length matching)
          × ((page p).has_prev ≡ ltb 1 p)
          × ((page p).has_next ≡ ltb p last_page)
          × ((page p).prev_page ≡ p - 1)
          × ((page p).next_page ≡ p + 1)
    unfolding paginate rows
    alert_page_lem p pos h =
        let all = rows_to-last_page (omega arith) in
        let shown = page_within p pos h in
        let (number, pages, total, prev, next, before, after) =
          paginate_lem p (length matching) (take 25 (drop ((p - 1) * 25) rows)) h in
        (
          subst (λ xs. Perm xs (map row_of matching)) (sym all)
              (Perm.map row_of (sorts 0 matching).0),
          subst (IsDescending row_seen) (sym all)
              (IsDescending-map_row (orders 0 matching) (sorts 0 matching).1),
          ap (λ a. a.alerts) shown ∙ ap (λ xs. take 25 (drop ((p - 1) * 25) xs)) (sym all),
          ap (λ a. a.page) shown ∙ number,
          ap (λ a. a.total_pages) shown ∙ pages,
          ap (λ a. a.total) shown ∙ total,
          ap (λ a. a.has_prev) shown ∙ prev,
          ap (λ a. a.has_next) shown ∙ next,
          ap (λ a. a.prev_page) shown ∙ before,
          ap (λ a. a.next_page) shown ∙ after,
        )
