-- ===== src/Tests/Order.antt =====
-- An order of the dashboard's query: the alerts seen last come first.
use mathlib.Core.List.{Perm, Pairwise, Mem, not-mem-nil, eq-or-mem_of_mem-cons}
use mathlib.Core.List.Perm
use mathlib.Core.Logic.{∥∥₁_elim, ◌⊎◌}
use mathlib.Core.Path.{subst}
use alertory.Prelude.{
  ◌≤◌, ◌≡◌, ◌≢◌, List, [], ◌∷◌, All, All-imp, ltb, if◌then◌else◌, Bool-cases, inl, inr, sym, arith,
}
use alertory.Prelude.Sorted.{IsDescending, AreDistinct}
use alertory.Clock.{Time}
use alertory.Db.Alerts.{ActiveAlert}
use alertory.Http.Dashboard.Listing.{seen, IsOrder}

insert_seen : ActiveAlert → List ActiveAlert → List ActiveAlert
insert_seen x [] = x ∷ []
insert_seen x (y ∷ ys) =
    let rest = insert_seen x ys in if ltb (seen x) (seen y) then y ∷ rest else x ∷ y ∷ ys

pub newest_first : List ActiveAlert → List ActiveAlert
newest_first [] = []
newest_first (x ∷ xs) = insert_seen x (newest_first xs)

insert_seen-perm : (x : ActiveAlert) (ys : List ActiveAlert) → Perm (insert_seen x ys) (x ∷ ys)
unfolding insert_seen
insert_seen-perm x [] = Perm.refl (x ∷ [])
insert_seen-perm x (y ∷ ys) = elim (Bool-cases (ltb (seen x) (seen y))) [
  | inl earlier ↦ rw earlier (Perm.trans (Perm.cons y (insert_seen-perm x ys)) (Perm.swap x y ys))
  | inr later ↦ rw later (Perm.refl (x ∷ y ∷ ys))
]

All-insert_seen :
    (n : Time) (x : ActiveAlert) (ys : List ActiveAlert)
    → seen x ≤ n
    → All (λ y. seen y ≤ n) ys
    → All (λ y. seen y ≤ n) (insert_seen x ys)
unfolding insert_seen
All-insert_seen n x [] h k = (h, tt)
All-insert_seen n x (y ∷ ys) h k = elim (Bool-cases (ltb (seen x) (seen y))) [
  | inl earlier ↦ rw earlier (k.0, All-insert_seen n x ys h k.1)
  | inr later ↦ rw later (h, k)
]

insert_seen-IsDescending :
    (x : ActiveAlert) (ys : List ActiveAlert)
    → IsDescending seen ys
    → IsDescending seen (insert_seen x ys)
unfolding insert_seen
insert_seen-IsDescending x [] h = (tt, tt)
insert_seen-IsDescending x (y ∷ ys) h = elim (Bool-cases (ltb (seen x) (seen y))) [
  | inl earlier ↦ rw earlier (
    All-insert_seen (seen y) x ys (ground (arith, earlier)) h.0,
    insert_seen-IsDescending x ys h.1,
  )
  | inr later ↦
      let above : seen y ≤ seen x = ground (arith, later) in
      rw later (
        (
          above,
          All-imp (λ z. seen z ≤ seen y) (λ z. seen z ≤ seen x) ys (λ z k. omega (arith, above, k))
              h.0,
        ),
        h,
      )
]

pub newest_first-IsOrder : IsOrder newest_first
unfolding newest_first
newest_first-IsOrder [] = (Perm.refl [], tt)
newest_first-IsOrder (x ∷ xs) =
    let (perm, down) = newest_first-IsOrder xs in
    (
      Perm.trans (insert_seen-perm x (newest_first xs)) (Perm.cons x perm),
      insert_seen-IsDescending x (newest_first xs) down,
    )

apart_mem :
    (x : ActiveAlert) (xs : List ActiveAlert) (a : ActiveAlert)
    → All (λ y. seen x ≢ seen y) xs
    → Mem a xs
    → seen x ≢ seen a
apart_mem x [] a h m = absurd (not-mem-nil m)
apart_mem x (y ∷ xs) a h m =
    ∥∥₁_elim (eq-or-mem_of_mem-cons m) (hlevel) (split (λ k. apart_mem x xs a h.1 k))
  where
    split : (Mem a xs → seen x ≢ seen a) → (a ≡ y) ⊎ Mem a xs → seen x ≢ seen a
    split rest (inl e) = subst (λ z. seen x ≢ seen z) (sym e) h.0
    split rest (inr k) = rest k

pub distinct_cons :
    (x : ActiveAlert) (xs : List ActiveAlert)
    → All (λ y. seen x ≢ seen y) xs
    → AreDistinct seen xs
    → AreDistinct seen (x ∷ xs)
distinct_cons x xs h k = Pairwise.cons (λ a m. apart_mem x xs a h m) k
