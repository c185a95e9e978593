-- ===== src/Prelude/Sort.antt =====
-- `sorted(..., key=...)`: a stable insertion sort, and the number of rows that pass a test, which a
-- sort does not change.
use Prim.Native.Nat.{ℕ, ◌+◌}
use mathlib.Core.Path.{◌≡◌, refl, ap, ◌∙◌}
use mathlib.Core.Logic.{inl, inr}
use mathlib.Core.Bool.{Bool, true, false}
use mathlib.Core.List.{List, [], ◌∷◌}
use native.Mathlib.Omega.{arith}
use fireviewer_backend.Prelude.Tests.{if◌then◌else◌, Bool-cases}
use fireviewer_backend.Prelude.Lists.{All}

module _ {ℓ} {A : Type ℓ} where
  -- `before a b`: the key of `a` is at most the key of `b`.
  unfoldable pub insert_by : (A → A → Bool) → A → List A → List A
  insert_by before a [] = a ∷ []
  insert_by before a (x ∷ xs) =
      let rest = insert_by before a xs in if before a x then a ∷ x ∷ xs else x ∷ rest

  unfoldable pub sorted : (A → A → Bool) → List A → List A
  unfolding insert_by
  sorted before [] = []
  sorted before (x ∷ xs) = insert_by before x (sorted before xs)

  unfoldable pub tally : (A → Bool) → List A → ℕ
  tally p [] = 0
  tally p (x ∷ xs) = (if p x then 1 else 0) + tally p xs

module _ {ℓ} {A : Type ℓ} (before : A → A → Bool) where
  tally-insert_by :
      (p : A → Bool) (a : A) (xs : List A) → tally p (insert_by before a xs) ≡ tally p (a ∷ xs)
  unfolding tally insert_by
  tally-insert_by p a [] = refl
  tally-insert_by p a (x ∷ xs) = elim (Bool-cases (before a x)) [
    | inl e ↦ rw e
    | inr e ↦ rw e (omega (arith, tally-insert_by p a xs))
  ]

  pub tally-sorted : (p : A → Bool) (xs : List A) → tally p (sorted before xs) ≡ tally p xs
  unfolding tally sorted
  tally-sorted p [] = refl
  tally-sorted p (x ∷ xs) =
      tally-insert_by p x (sorted before xs)
      ∙ ap (λ n. (if p x then 1 else 0) + n) (tally-sorted p xs)

module _ {ℓ κ} {A : Type ℓ} (P : A → Type κ) (before : A → A → Bool) where
  pub All-insert_by : (a : A) (xs : List A) → P a → All P xs → All P (insert_by before a xs)
  unfolding insert_by
  All-insert_by a [] h hs = (h, hs)
  All-insert_by a (x ∷ xs) h hs = pick (before a x) (All-insert_by a xs h hs.1)
    where
      pick :
          (b : Bool)
          → All P (insert_by before a xs)
          → All P (if b then a ∷ x ∷ xs else x ∷ insert_by before a xs)
      pick true rest = (h, hs)
      pick false rest = (hs.0, rest)

  pub All-sorted : (xs : List A) → All P xs → All P (sorted before xs)
  unfolding sorted
  All-sorted [] h = h
  All-sorted (x ∷ xs) h = All-insert_by x (sorted before xs) h.0 (All-sorted xs h.1)

  insert_by_inv : (a : A) (xs : List A) → All P (insert_by before a xs) → P a × All P xs
  unfolding insert_by
  insert_by_inv a [] h = h
  insert_by_inv a (x ∷ xs) h = pick (before a x) h (insert_by_inv a xs)
    where
      pick :
          (b : Bool)
          → All P (if b then a ∷ x ∷ xs else x ∷ insert_by before a xs)
          → (All P (insert_by before a xs) → P a × All P xs)
          → P a × (P x × All P xs)
      pick true h rest = h
      pick false h rest = let (here, others) = rest h.1 in (here, (h.0, others))

  -- What holds of every row of the sorted list holds of every row.
  pub All-sorted_inv : (xs : List A) → All P (sorted before xs) → All P xs
  unfolding sorted
  All-sorted_inv [] h = h
  All-sorted_inv (x ∷ xs) h =
      let (here, rest) = insert_by_inv x (sorted before xs) h in (here, All-sorted_inv xs rest)
