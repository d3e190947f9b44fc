-- ===== src/Map.antt =====
-- Go's `map[string]V`, and a jsonb object: an association list in the order of an iteration.
use alertory.Prelude.{
  Bool, false, List, [], ◌∷◌, any, ◌≡◌, refl, Option, none, some, arith, if◌then◌else◌,
}
use alertory.Text.{Str, ◌==◌, eq_iff, eq_refl}

abbrev pub Map {ℓ} : Type ℓ → Type ℓ
Map V = List (Str × V)

module _ {ℓ} {V : Type ℓ} where
  unfoldable pub get : Str → Map V → Option V
  get k [] = none
  get k ((j, v) ∷ m) = if j == k then some v else get k m

  -- A new key comes last.
  unfoldable pub put : Str → V → Map V → Map V
  put k v [] = (k, v) ∷ []
  put k v ((j, w) ∷ m) = if j == k then (j, v) ∷ m else (j, w) ∷ put k v m

  -- No key is listed twice.
  abbrev pub IsKeyed : Map V → Type ℓ
  IsKeyed [] = Unit
  IsKeyed ((k, _) ∷ m) = (get k m ≡ none) × IsKeyed m

  pub get-put :
      (j k : Str) (v : V) (m : Map V) → get j (put k v m) ≡ (if k == j then some v else get j m)
  unfolding get put
  get-put j k v [] = refl
  get-put j k v ((i, w) ∷ m) = ground (arith, eq_iff k j, eq_iff i k, eq_iff i j, get-put j k v m)

  pub put-IsKeyed : (k : Str) (v : V) (m : Map V) → IsKeyed m → IsKeyed (put k v m)
  unfolding get put
  put-IsKeyed k v [] h = (refl, tt)
  put-IsKeyed k v ((i, w) ∷ m) h =
      ground (arith, eq_iff i k, eq_iff k i, get-put i k v m, put-IsKeyed k v m h.1)

  -- The entries of a map without its keys, in the order of the iteration.
  unfoldable pub values : Map V → List V
  values [] = []
  values ((k, v) ∷ m) = v ∷ values m

  get_first : (k : Str) (v : V) (m : Map V) → get k ((k, v) ∷ m) ≡ some v
  unfolding get
  get_first k v m = rw (eq_refl k) refl

  -- What no key finds, no entry has.
  pub any-values :
      (p : V → Bool) (m : Map V)
      → IsKeyed m
      → ((k : Str) (v : V) → get k m ≡ some v → p v ≡ false)
      → any p (values m) ≡ false
  unfolding get values
  any-values p [] u h = refl
  any-values p ((k, v) ∷ m) u h =
      rw (h k v (get_first k v m))
        (any-values p m u.1 (λ j w found. h j w (ground (arith, eq_iff k j, u.0))))
