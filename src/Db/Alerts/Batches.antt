-- ===== src/Db/Alerts/Batches.antt =====
-- `deleteInBatches` of internal/db/alerts.go, and its batches. A `DELETE … LIMIT` takes the rows that
-- it finds first; the order of the list stands for the order in which it finds them.
use alertory.Prelude.{
  ℕ, zero, suc, ◌+◌, ◌-◌, ◌<◌, ◌≤◌, Bool, true, false, not, List, [], ◌∷◌, Option, none, some, keep,
  length, eqb, ◌≡◌, refl, ◌∙◌, arith, if◌then◌else◌, Bool-cases, inl, inr,
}

-- What a loop of batches leaves: the count that it returns, the rows, and whether it met an error.
pub record Deleted {ℓ} (A : Type ℓ) : Type ℓ where
  pub total : ℕ
  pub rows : List A
  pub failed : Bool

module _ {ℓ} {A : Type ℓ} where
  -- DELETE … WHERE ctid IN (SELECT ctid … WHERE old LIMIT n)
  unfoldable pub delete_first : (A → Bool) → ℕ → List A → List A
  delete_first old zero rows = rows
  delete_first old (suc n) [] = []
  delete_first old (suc n) (r ∷ rows) =
      let less = delete_first old n rows in
      let kept = r ∷ delete_first old (suc n) rows in if old r then less else kept

  -- The loop, with the index of the batch and the total so far; `fails` says which batches fail.
  -- `none` means that the fuel has run out.
  unfoldable pub delete_in_batches :
      (List A → List A) → (ℕ → Bool) → ℕ → ℕ → ℕ → List A → Option (Deleted A)
  delete_in_batches query fails zero i total rows = none
  delete_in_batches query fails (suc fuel) i total rows =
      let left = query rows in
      let n = length rows - length left in
      let rest = delete_in_batches query fails fuel (i + 1) (total + n) left in
      if fails i
      then some (record { total = total; rows = rows; failed = true })
      else if eqb n 0
      then some (record { total = total; rows = left; failed = false })
      else rest

  length-delete_first :
      (old : A → Bool) (n : ℕ) (rows : List A) → length (delete_first old n rows) ≤ length rows
  unfolding delete_first
  length-delete_first old zero rows = omega arith
  length-delete_first old (suc n) [] = omega arith
  length-delete_first old (suc n) (r ∷ rows) =
      ground (arith, length-delete_first old n rows, length-delete_first old (suc n) rows)

  abbrev pub fresh : (A → Bool) → List A → List A
  fresh old = keep (λ r. not (old r))

  fresh-delete_first :
      (old : A → Bool) (n : ℕ) (rows : List A)
      → fresh old (delete_first old n rows) ≡ fresh old rows
  unfolding delete_first
  fresh-delete_first old zero rows = refl
  fresh-delete_first old (suc n) [] = refl
  fresh-delete_first old (suc n) (r ∷ rows) =
      ground (arith, fresh-delete_first old n rows, fresh-delete_first old (suc n) rows)

  -- A batch that deletes nothing has found no old row.
  delete_first_done :
      (old : A → Bool) (n : ℕ) (rows : List A)
      → length rows ≤ length (delete_first old (suc n) rows)
      → delete_first old (suc n) rows ≡ fresh old rows
  unfolding delete_first
  delete_first_done old n [] h = refl
  delete_first_done old n (r ∷ rows) h = elim (Bool-cases (old r)) [
    | inl gone ↦ ground (arith, gone, length-delete_first old n rows)
    | inr kept ↦ ground (arith, kept, delete_first_done old n rows)
  ]

  -- What the loop tells of the rows.
  abbrev pub Trims : (A → Bool) → ℕ → List A → Deleted A → Type ℓ
  Trims old total rows d =
      (d.total + length d.rows ≡ total + length rows)
      × (fresh old d.rows ≡ fresh old rows)
      × (d.failed ≡ false → d.rows ≡ fresh old rows)

  -- With more fuel than rows the loop ends. It has deleted old rows only and counts them, and
  -- if no batch fails it has deleted all of them.
  pub delete_in_batches_lem :
      (old : A → Bool) (limit : ℕ) (fails : ℕ → Bool) (fuel i total : ℕ) (rows : List A)
      → length rows < fuel
      → (d : Deleted A) × (delete_in_batches (delete_first old (suc limit)) fails fuel i total rows
          ≡ some d)
        × Trims old total rows d
  unfolding delete_in_batches
  delete_in_batches_lem old limit fails zero i total rows h = absurd (omega arith)
  delete_in_batches_lem old limit fails (suc fuel) i total rows h = elim (Bool-cases (fails i)) [
    | inl fails_now ↦ (
      record { total = total; rows = rows; failed = true },
      rw fails_now refl,
      (refl, refl, λ e. cc),
    )
    | inr runs ↦ elim (Bool-cases (eqb (shrunk rows) 0)) [
      | inl done ↦ (
        record { total = total; rows = batch rows; failed = false },
        rw (runs, done) refl,
        (
          ground (arith, length-delete_first old (suc limit) rows),
          fresh-delete_first old (suc limit) rows,
          λ e. delete_first_done old limit rows (ground arith),
        ),
      )
      | inr more ↦
          let (d, ends, (counts, keeps, trims)) =
            delete_in_batches_lem old limit fails fuel (i + 1) (total + shrunk rows) (batch rows)
              (ground (arith, length-delete_first old (suc limit) rows)) in
          let same = fresh-delete_first old (suc limit) rows in
          (
            d,
            rw (runs, more) ends,
            (
              omega (arith, length-delete_first old (suc limit) rows, counts),
              keeps ∙ same,
              λ e. trims e ∙ same,
            ),
          )
    ]
  ]
    where
      batch : List A → List A
      batch = delete_first old (suc limit)

      shrunk : List A → ℕ
      shrunk xs = length xs - length (batch xs)
