-- ===== src/Prelude/Sorted.antt =====
-- Lists in a descending order of a number. Where no two elements have the same number, they have
-- one such order.
use mathlib.Core.Logic.Or
use mathlib.Core.List.{Perm, Perm-prop, Pairwise, Mem, mem-cons_self, mem-cons_of_mem}
use mathlib.Core.List.Perm
use mathlib.Core.Logic.{◌≢◌}
use mathlib.Core.Path.{◌≡◌, refl, sym, ◌∙◌}
use mathlib.Core.Bool.{Bool, false}
use mathlib.Core.List.{List, [], ◌∷◌}
use Prim.Native.Nat.{ℕ, ◌≤◌}
use native.Mathlib.Omega.{arith}
use alertory.Prelude.Tests.{leb, ltb}
use alertory.Prelude.Lists.{All, any}
use alertory.Prelude.Orders.{any-perm}

module _ {A : Type 0} (key : A → ℕ) where
  abbrev pub IsDescending : List A → Type 0
  IsDescending [] = Unit
  IsDescending (x ∷ xs) = All (λ y. key y ≤ key x) xs × IsDescending xs

  -- No two of the list have the same number.
  abbrev pub AreDistinct : List A → Type 0
  AreDistinct = Pairwise (λ x y. key x ≢ key y)

  pub AreDistinct-perm : {xs ys : List A} → Perm xs ys → AreDistinct xs → AreDistinct ys
  AreDistinct-perm p = Perm.pairwise (λ x y. hlevel) (λ x y ne e. ne (sym e)) p

  none_above :
      (x : A) (xs : List A)
      → All (λ y. key y ≤ key x) xs
      → any (λ y. ltb (key x) (key y)) xs ≡ false
  none_above x [] h = refl
  none_above x (y ∷ xs) h = ground (arith, none_above x xs h.1)

  none_level :
      (x : A) (xs : List A)
      → All (λ y. key y ≤ key x) xs
      → ((y : A) → Mem y xs → key x ≢ key y)
      → any (λ y. leb (key x) (key y)) xs ≡ false
  none_level x [] h k = refl
  none_level x (y ∷ xs) h k =
      let ne = k y mem-cons_self in
      ground (arith, ne, none_level x xs h.1 (λ z m. k z (mem-cons_of_mem y m)))

  any_head : (p : A → Bool) (y : A) (ys : List A) → any p (y ∷ ys) ≡ false → p y ≡ false
  any_head p y ys h = ground arith

  module _ (set : IsSet A) where
    heads :
        {x y : A} {xs ys : List A}
        → Perm (x ∷ xs) (y ∷ ys)
        → IsDescending (x ∷ xs)
        → IsDescending (y ∷ ys)
        → ((z : A) → Mem z xs → key x ≢ key z)
        → (x ≡ y) × Perm xs ys
    heads {x} {y} {xs} {ys} perm (below, down) (below', down') apart =
        Or.resolve_right (λ a b. λ i. (set x y a.0 b.0 i, Perm-prop a.1 b.1 i))
          (Perm.cons-cons_cases perm)
          (λ (cs, left, right).
            let below_x =
              any_head (λ z. leb (key x) (key z)) y cs
                (sym (any-perm (λ z. leb (key x) (key z)) left) ∙ none_level x xs below apart) in
            let below_y =
              any_head (λ z. ltb (key y) (key z)) x cs
                (sym (any-perm (λ z. ltb (key y) (key z)) right) ∙ none_above y ys below') in
            ground (arith, below_x, below_y))

    pub descending_perm :
        (xs ys : List A) → Perm xs ys → IsDescending xs → IsDescending ys → AreDistinct xs → xs ≡ ys
    descending_perm [] ys perm d d' apart = Perm.nil-eq perm
    descending_perm (x ∷ xs) [] perm d d' apart = Perm.eq-nil perm
    descending_perm (x ∷ xs) (y ∷ ys) perm d d' (Pairwise.cons h apart) =
        let (same, rest) = heads perm d d' h in
        λ i. same i ∷ descending_perm xs ys rest d.1 d'.1 apart i
