-- ===== src/Prelude/Orders.antt =====
-- Boolean tests on lists do not depend on the order.
use mathlib.Core.List.{Perm, Permᴰ}
use mathlib.Core.Logic.{∥∥₁_elim}
use Prim.Native.Nat.{ℕ, suc}
use alertory.Prelude.Lists.{any, length}
use mathlib.Core.Path.{◌≡◌, refl, ap, ◌∙◌}
use mathlib.Core.Bool.{Bool, ◌||◌}
use mathlib.Core.List.{List, [], ◌∷◌, ◌++◌}
use native.Mathlib.Omega.{arith}

Bool-set : IsSet Bool
Bool-set = hlevel

module _ {ℓ} {A : Type ℓ} (p : A → Bool) where
  pub any-append : (xs ys : List A) → any p (xs ++ ys) ≡ (any p xs || any p ys)
  any-append [] ys = refl
  any-append (x ∷ xs) ys = ground (arith, any-append xs ys)

  any-permᴰ : {xs ys : List A} → Permᴰ xs ys → any p xs ≡ any p ys
  any-permᴰ Permᴰ.nil = refl
  any-permᴰ (Permᴰ.cons {a} {b} {l₁} {l₂} e d) = rw e (ground (arith, any-permᴰ d))
  any-permᴰ (Permᴰ.swap {a} {b} {a'} {b'} {l} e f) = rw (e, f) (ground arith)
  any-permᴰ (Permᴰ.trans d f) = any-permᴰ d ∙ any-permᴰ f

  pub any-perm : {xs ys : List A} → Perm xs ys → any p xs ≡ any p ys
  any-perm d = ∥∥₁_elim d (Bool-set _ _) any-permᴰ

ℕ-set : IsSet ℕ
ℕ-set = hlevel

module _ {ℓ} {A : Type ℓ} where
  length-permᴰ : {xs ys : List A} → Permᴰ xs ys → length xs ≡ length ys
  length-permᴰ Permᴰ.nil = refl
  length-permᴰ (Permᴰ.cons e d) = ap suc (length-permᴰ d)
  length-permᴰ (Permᴰ.swap e f) = refl
  length-permᴰ (Permᴰ.trans d f) = length-permᴰ d ∙ length-permᴰ f

  pub length-perm : {xs ys : List A} → Perm xs ys → length xs ≡ length ys
  length-perm d = ∥∥₁_elim d (ℕ-set _ _) length-permᴰ
