-- ===== src/Prelude/Lists.antt =====
-- Lists as tables of rows: selection by a Boolean test, update of the rows that pass one, counting,
-- and predicates on all rows.
use Prim.Native.Nat.{ℕ, suc, zero}
use mathlib.Core.Path.{◌≡◌, refl}
use mathlib.Core.Bool.{Bool, true, false, not, ◌&&◌, ◌||◌}
use native.Mathlib.Omega.{arith}
use mathlib.Core.List.{List, [], ◌∷◌, ◌++◌, map, Mem, mem-cons_self, mem-cons_of_mem}
use mathlib.Core.Logic.{inl, inr}
use fireviewer_backend.Prelude.Tests.{if◌then◌else◌, Bool-cases}

module _ {ℓ} {A : Type ℓ} where
  abbrev pub length : List A → ℕ
  length [] = 0
  length (x ∷ xs) = suc (length xs)

  -- SELECT ... WHERE p, in table order.
  unfoldable pub select : (A → Bool) → List A → List A
  select p [] = []
  select p (x ∷ xs) = let rest = select p xs in if p x then x ∷ rest else rest

  -- UPDATE ... SET f WHERE p.
  unfoldable pub update : (A → Bool) → (A → A) → List A → List A
  update p f [] = []
  update p f (x ∷ xs) = (if p x then f x else x) ∷ update p f xs

  unfoldable pub any : (A → Bool) → List A → Bool
  any p [] = false
  any p (x ∷ xs) = p x || any p xs

  unfoldable pub all : (A → Bool) → List A → Bool
  all p [] = true
  all p (x ∷ xs) = p x && all p xs

  abbrev pub All {κ} : (A → Type κ) → List A → Type κ
  All P [] = Unit
  All P (x ∷ xs) = P x × All P xs

module _ {ℓ κ} {A : Type ℓ} (P : A → Type κ) (p : A → Bool) where
  pub All-update :
      (f : A → A) (xs : List A) → ((x : A) → P x → P (f x)) → All P xs → All P (update p f xs)
  unfolding update
  All-update f [] h a = a
  All-update f (x ∷ xs) h a = (pick (p x), All-update f xs h a.1)
    where
      pick : (b : Bool) → P (if b then f x else x)
      pick true = h x a.0
      pick false = a.0

  pub All-select : (xs : List A) → All P xs → All P (select p xs)
  unfolding select
  All-select [] a = a
  All-select (x ∷ xs) a = pick (p x) (All-select xs a.1)
    where
      pick : (b : Bool) → All P (select p xs) → All P (if b then x ∷ select p xs else select p xs)
      pick true rest = (a.0, rest)
      pick false rest = rest

module _ {ℓ κ} {A : Type ℓ} (P : A → Type κ) where
  pub All-append : (xs ys : List A) → All P xs → All P ys → All P (xs ++ ys)
  All-append [] ys h k = k
  All-append (x ∷ xs) ys h k = (h.0, All-append xs ys h.1 k)

  pub All-of : (xs : List A) → ((x : A) → P x) → All P xs
  All-of [] h = tt
  All-of (x ∷ xs) h = (h x, All-of xs h)

module _ {ℓ κ μ} {A : Type ℓ} (P : A → Type κ) (Q : A → Type μ) where
  -- A predicate on the rows before an update gives one on the rows after it.
  pub All-update_to :
      (p : A → Bool) (f : A → A) (xs : List A)
      → ((x : A) → P x → Q (if p x then f x else x))
      → All P xs
      → All Q (update p f xs)
  unfolding update
  All-update_to p f [] h a = tt
  All-update_to p f (x ∷ xs) h a = (h x a.0, All-update_to p f xs h a.1)

module _ {ℓ} {A : Type ℓ} (p : A → Bool) where
  -- What a test selects among the rows that fail it.
  pub select-select-not : (xs : List A) → select p (select (λ x. not (p x)) xs) ≡ []
  unfolding select
  select-select-not [] = refl
  select-select-not (x ∷ xs) = ground (arith, select-select-not xs)

  -- What holds of no row.
  pub All-select_none : (xs : List A) → select p xs ≡ [] → All (λ x. p x ≡ true → ⊥) xs
  unfolding select
  All-select_none [] h = tt
  All-select_none (x ∷ xs) h = (λ e. cc (rw e at h), All-select_none xs (rest (p x) h))
    where
      rest : (b : Bool) → (if b then x ∷ select p xs else select p xs) ≡ [] → select p xs ≡ []
      rest true e = cc
      rest false e = e

  -- What is selected passes the test.
  pub All-select_self : (xs : List A) → All (λ x. p x ≡ true) (select p xs)
  unfolding select
  All-select_self [] = tt
  All-select_self (x ∷ xs) = pick (p x) refl (All-select_self xs)
    where
      pick :
          (b : Bool)
          → p x ≡ b
          → All (λ x. p x ≡ true) (select p xs)
          → All (λ x. p x ≡ true) (if b then x ∷ select p xs else select p xs)
      pick true e rest = (e, rest)
      pick false e rest = rest

module _ {ℓ κ μ} {A : Type ℓ} {P : A → Type κ} {Q : A → Type μ} where
  pub All-imp : (xs : List A) → ((x : A) → P x → Q x) → All P xs → All Q xs
  All-imp [] h a = tt
  All-imp (x ∷ xs) h a = (h x a.0, All-imp xs h a.1)

module _ {ℓ κ μ} {A : Type ℓ} {B : Type κ} (P : B → Type μ) (f : A → B) where
  pub All-map : (xs : List A) → All P (map f xs) → All (λ x. P (f x)) xs
  All-map [] a = tt
  All-map (x ∷ xs) a = (a.0, All-map xs a.1)

  pub All-map_of : (xs : List A) → All (λ x. P (f x)) xs → All P (map f xs)
  All-map_of [] a = tt
  All-map_of (x ∷ xs) a = (a.0, All-map_of xs a.1)

module _ {ℓ κ μ ν} {A : Type ℓ} {P : A → Type κ} {Q : A → Type μ} {R : A → Type ν} where
  pub All-imp2 : (xs : List A) → ((x : A) → P x → Q x → R x) → All P xs → All Q xs → All R xs
  All-imp2 [] h a b = tt
  All-imp2 (x ∷ xs) h a b = (h x a.0 b.0, All-imp2 xs h a.1 b.1)

-- Every row is in its table.
pub All-Mem {ℓ} : {A : Type ℓ} (xs : List A) → All (λ x. Mem x xs) xs
All-Mem [] = tt
All-Mem (x ∷ xs) = (mem-cons_self, All-imp xs (λ y m. mem-cons_of_mem x m) (All-Mem xs))

-- The first rows, LIMIT n.
abbrev pub take_first {ℓ} : {A : Type ℓ} → ℕ → List A → List A
take_first zero xs = []
take_first (suc n) [] = []
take_first (suc n) (x ∷ xs) = x ∷ take_first n xs

module _ {ℓ κ} {A : Type ℓ} (P : A → Type κ) where
  pub All-take_first : (n : ℕ) (xs : List A) → All P xs → All P (take_first n xs)
  All-take_first zero xs h = tt
  All-take_first (suc n) [] h = tt
  All-take_first (suc n) (x ∷ xs) h = (h.0, All-take_first n xs h.1)

  pub All-unselect :
      (p : A → Bool) (xs : List A) → All P (select p xs) → All (λ x. p x ≡ true → P x) xs
  unfolding select
  All-unselect p [] h = tt
  All-unselect p (x ∷ xs) h = elim (Bool-cases (p x)) [
    | inl e ↦
        let kept : P x × All P (select p xs) = rw e at h in
        ((λ _. kept.0), All-unselect p xs kept.1)
    | inr e ↦ ((λ t. cc), All-unselect p xs (rw e at h))
  ]

  pub All-append_right : (xs ys : List A) → All P (xs ++ ys) → All P ys
  All-append_right [] ys h = h
  All-append_right (x ∷ xs) ys h = All-append_right xs ys h.1

-- A row that fails the test of an update stays in the table.
pub All-update_kept {ℓ} :
    {A : Type ℓ} (p : A → Bool) (f : A → A) (xs : List A)
    → All (λ x. p x ≡ false → Mem x (update p f xs)) xs
unfolding update
All-update_kept p f [] = tt
All-update_kept p f (x ∷ xs) = (
  λ e. rw e mem-cons_self,
  All-imp xs (λ y m e. mem-cons_of_mem (if p x then f x else x) (m e)) (All-update_kept p f xs),
)
