-- ===== src/Prelude/Shuffle.antt =====
-- A sort forgets the order of its input when its order is transitive and total on distinct keys.
use mathlib.Core.Path.{◌≡◌, refl, subst, ap, ◌∙◌}
use mathlib.Core.Bool.{Bool, true, false, not}
use mathlib.Core.List.{List, [], ◌∷◌, Permᴰ, map}
use mathlib.Core.List.Permᴰ
use mathlib.Core.Logic.{inl, inr}
use native.Mathlib.Omega.{arith}
use fireviewer_backend.Prelude.Tests.{Bool-cases}
use fireviewer_backend.Prelude.Lists.{All}
use fireviewer_backend.Prelude.Sort.{insert_by, sorted, All-insert_by}

module _ {ℓ κ} {A : Type ℓ} (R : A → A → Type κ) where
  -- Every row is related to every later one.
  abbrev pub AllPairs : List A → Type κ
  AllPairs [] = Unit
  AllPairs (x ∷ xs) = All (R x) xs × AllPairs xs

module _ {ℓ κ} {A : Type ℓ} (P : A → Type κ) where
  All-Permᴰ : {xs ys : List A} → Permᴰ xs ys → All P xs → All P ys
  All-Permᴰ Permᴰ.nil h = h
  All-Permᴰ (Permᴰ.cons e d) h = (subst P e h.0, All-Permᴰ d h.1)
  All-Permᴰ (Permᴰ.swap e e') h = (subst P e' h.1.0, (subst P e h.0, h.1.1))
  All-Permᴰ (Permᴰ.trans d d') h = All-Permᴰ d' (All-Permᴰ d h)

module _ {ℓ κ} {A : Type ℓ} (R : A → A → Type κ) (symmetric : (x y : A) → R x y → R y x) where
  AllPairs-Permᴰ : {xs ys : List A} → Permᴰ xs ys → AllPairs R xs → AllPairs R ys
  AllPairs-Permᴰ Permᴰ.nil h = h
  AllPairs-Permᴰ (Permᴰ.cons {l₂ = l₂} e d) h =
      (subst (λ x. All (R x) l₂) e (All-Permᴰ (R _) d h.0), AllPairs-Permᴰ d h.1)
  AllPairs-Permᴰ (Permᴰ.swap {a} {b} {a' = a'} {b' = b'} {l = l} e e') h = (
    (
      subst (λ x. R a' x) e (subst (λ x. R x a) e' (symmetric a b h.0.0)),
      subst (λ x. All (R x) l) e' h.1.0,
    ),
    (subst (λ x. All (R x) l) e h.0.1, h.1.1),
  )
  AllPairs-Permᴰ (Permᴰ.trans d d') h = AllPairs-Permᴰ d' (AllPairs-Permᴰ d h)

pub map-Permᴰ {ℓ κ} :
    {A : Type ℓ} {B : Type κ} (f : A → B) {xs ys : List A}
    → Permᴰ xs ys
    → Permᴰ (map f xs) (map f ys)
map-Permᴰ f Permᴰ.nil = Permᴰ.nil
map-Permᴰ f (Permᴰ.cons e d) = Permᴰ.cons (ap f e) (map-Permᴰ f d)
map-Permᴰ f (Permᴰ.swap e e') = Permᴰ.swap (ap f e) (ap f e')
map-Permᴰ f (Permᴰ.trans d d') = Permᴰ.trans (map-Permᴰ f d) (map-Permᴰ f d')

module _ {ℓ} {A : Type ℓ} (before : A → A → Bool) where
  -- The two rows are ordered one way only.
  abbrev pub Apart : A → A → Type 0
  Apart a b = before a b ≡ not (before b a)

  -- Every row is before every later one.
  abbrev pub InOrder : List A → Type 0
  InOrder = AllPairs (λ x y. before x y ≡ true)

  Apart-symm : (a b : A) → Apart a b → Apart b a
  Apart-symm a b h = ground (arith, h)

module _ {ℓ} {A : Type ℓ} (before : A → A → Bool)
    (transitive : (x y z : A) → before x y ≡ true → before y z ≡ true → before x z ≡ true) where
  insert_by_swap :
      (a b : A)
      → Apart before a b
      → (xs : List A)
      → insert_by before a (insert_by before b xs) ≡ insert_by before b (insert_by before a xs)
  unfolding insert_by
  insert_by_swap a b apart [] = ground (arith, apart)
  insert_by_swap a b apart (x ∷ xs) =
      ground (arith, apart, insert_by_swap a b apart xs, transitive a b x, transitive b a x)

  pub sorted-Permᴰ :
      {xs ys : List A}
      → Permᴰ xs ys
      → AllPairs (Apart before) xs
      → sorted before xs ≡ sorted before ys
  unfolding sorted
  sorted-Permᴰ Permᴰ.nil h = refl
  sorted-Permᴰ (Permᴰ.cons e d) h = λ i. insert_by before (e i) (sorted-Permᴰ d h.1 i)
  sorted-Permᴰ (Permᴰ.swap {a} {b} {l = l} e e') h =
      insert_by_swap a b h.0.0 (sorted before l)
      ∙ (λ i. insert_by before (e' i) (insert_by before (e i) (sorted before l)))
  sorted-Permᴰ (Permᴰ.trans d d') h =
      sorted-Permᴰ d h ∙ sorted-Permᴰ d' (AllPairs-Permᴰ (Apart before) (Apart-symm before) d h)

  module _ (total : (x y : A) → before x y ≡ false → before y x ≡ true) where
    before_all :
        (a x : A) (xs : List A)
        → before a x ≡ true
        → All (λ y. before x y ≡ true) xs
        → All (λ y. before a y ≡ true) xs
    before_all a x [] h k = tt
    before_all a x (y ∷ xs) h k = (transitive a x y h k.0, before_all a x xs h k.1)

    insert_by-InOrder :
        (a : A) (xs : List A) → InOrder before xs → InOrder before (insert_by before a xs)
    unfolding insert_by
    insert_by-InOrder a [] h = (tt, tt)
    insert_by-InOrder a (x ∷ xs) h = elim (Bool-cases (before a x)) [
      | inl e ↦ rw e ((e, before_all a x xs e h.0), h)
      | inr e ↦ rw e (
        All-insert_by (λ y. before x y ≡ true) before a xs (total a x e) h.0,
        insert_by-InOrder a xs h.1,
      )
    ]

    pub sorted-InOrder : (xs : List A) → InOrder before (sorted before xs)
    unfolding sorted
    sorted-InOrder [] = tt
    sorted-InOrder (x ∷ xs) = insert_by-InOrder x (sorted before xs) (sorted-InOrder xs)

-- A sort keeps the rows.
module _ {ℓ} {A : Type ℓ} (before : A → A → Bool) where
  Permᴰ-insert_by : (a : A) (xs : List A) → Permᴰ (a ∷ xs) (insert_by before a xs)
  unfolding insert_by
  Permᴰ-insert_by a [] = Permᴰ.refl (a ∷ [])
  Permᴰ-insert_by a (x ∷ xs) = elim (Bool-cases (before a x)) [
    | inl e ↦ rw e (Permᴰ.refl (a ∷ x ∷ xs))
    | inr e ↦ rw e (Permᴰ.trans (Permᴰ.swap refl refl) (Permᴰ.cons refl (Permᴰ-insert_by a xs)))
  ]

  pub Permᴰ-sorted : (xs : List A) → Permᴰ xs (sorted before xs)
  unfolding sorted
  Permᴰ-sorted [] = Permᴰ.nil
  Permᴰ-sorted (x ∷ xs) =
      Permᴰ.trans (Permᴰ.cons refl (Permᴰ-sorted xs)) (Permᴰ-insert_by x (sorted before xs))
