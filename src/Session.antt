-- ===== src/Session.antt =====
-- A database session. A handler reads and writes a working copy; `commit` makes the copy durable,
-- `rollback` returns to the durable store, and an exception ends the request with what was durable.
-- `begin_write_transaction` (db/transactions.py) serialises the writers, so a request is one function
-- of the store that it starts from.
use fireviewer_backend.Errors.{Failure, multiple_results_found, no_result_found, not_found}
use fireviewer_backend.Prelude.{
  All, All-select_none, Bool, Bool-cases, List, Option, String, [], arith, inl, inr, none, refl,
  select, some, true, ◌∷◌, ◌≡◌,
}

-- `returned` carries the value, the durable store and the working copy.
pub data Outcome (S : Type 0) (A : Type 0) : Type 0 where
  returned : A → S → S → Outcome S A
  raised : Failure → S → Outcome S A

-- The durable store comes first, the working copy second.
abbrev pub Tx : Type 0 → Type 0 → Type 0
Tx S A = S → S → Outcome S A

module _ {S A B : Type 0} where
  infixl 5 ◌>>=◌ ◌>>◌
  abbrev pub ◌>>=◌ : Tx S A → (A → Tx S B) → Tx S B
  ◌>>=◌ m f durable working = elim (m durable working) [
    | returned a d w ↦ f a d w
    | raised e d ↦ raised e d
  ]

  abbrev pub ◌>>◌ : Tx S A → Tx S B → Tx S B
  m >> k = m >>= λ _. k

module _ {S A : Type 0} where
  abbrev pub pure : A → Tx S A
  pure a d w = returned a d w

  abbrev pub raise : Failure → Tx S A
  raise e d w = raised e d

module _ {S : Type 0} where
  abbrev pub get : Tx S S
  get d w = returned w d w

  abbrev pub put : S → Tx S (Unit {0})
  put s d w = returned tt d s

  abbrev pub commit : Tx S (Unit {0})
  commit d w = returned tt w w

  abbrev pub rollback : Tx S (Unit {0})
  rollback d w = returned tt d d

-- What a fallible read gives: a value, or the exception that it raises.
pub data Result (A : Type 0) : Type 0 where
  ok : A → Result A
  err : Failure → Result A

infixl 5 ◌then_read◌
abbrev pub ◌then_read◌ : {A B : Type 0} → Result A → (A → Result B) → Result B
ok a then_read f = f a
err e then_read f = err e

abbrev pub lift : {S A : Type 0} → Result A → Tx S A
lift (ok a) d w = returned a d w
lift (err e) d w = raised e d

-- SQLAlchemy's `scalar_one_or_none` and `scalar_one` on the selected rows.
module _ {A : Type 0} where
  unfoldable pub scalar_one_or_none : List A → Result (Option A)
  scalar_one_or_none [] = ok none
  scalar_one_or_none (x ∷ []) = ok (some x)
  scalar_one_or_none (x ∷ y ∷ r) = err multiple_results_found

  unfoldable pub scalar_one : List A → Result A
  scalar_one [] = err no_result_found
  scalar_one (x ∷ []) = ok x
  scalar_one (x ∷ y ∷ r) = err multiple_results_found

-- A whole request: it starts from the durable store, and what was not committed is lost.
abbrev pub durable_of : {S A : Type 0} → Outcome S A → S
durable_of (returned a d w) = d
durable_of (raised e d) = d

abbrev pub request : {S A : Type 0} → Tx S A → S → Outcome S A
request m db = m db db

-- `if row is None: raise NotFoundError(resource, identifier)`
abbrev pub or_not_found : {A : Type 0} → String → String → Option A → Result A
or_not_found resource identifier none = err (not_found resource identifier)
or_not_found resource identifier (some a) = ok a

-- Inversion of a bind that returned.
module _ {S A B : Type 0} (f : A → Tx S B) where
  abbrev after : Outcome S A → Outcome S B
  after o = elim o [ returned a d w ↦ f a d w | raised e d ↦ raised e d ]

  after-returned :
      {b : B} {d' w' : S} (o : Outcome S A)
      → after o ≡ returned b d' w'
      → (a : A) × (d w : S) × (o ≡ returned a d w) × (f a d w ≡ returned b d' w')
  after-returned (returned a d w) h = (a, d, w, refl, h)
  after-returned (raised e d) h = cc

  pub >>=-returned :
      {b : B} {d' w' : S} (m : Tx S A) (d w : S)
      → (m >>= f) d w ≡ returned b d' w'
      → (a : A) × (d₁ w₁ : S) × (m d w ≡ returned a d₁ w₁) × (f a d₁ w₁ ≡ returned b d' w')
  >>=-returned m d w h = after-returned (m d w) h

pub lift-returned :
    {S A : Type 0} (x : Result A) {d w : S} {a : A} {d' w' : S}
    → lift x d w ≡ returned a d' w'
    → (x ≡ ok a) × (d' ≡ d) × (w' ≡ w)
lift-returned (ok a) h = ground arith
lift-returned (err e) h = cc

-- The same for a fallible read, which touches neither store.
pub read-returned :
    {S A B : Type 0} (x : Result A) (f : A → Tx S B) (d w : S) {b : B} {d' w' : S}
    → (lift x >>= f) d w ≡ returned b d' w'
    → (a : A) × (x ≡ ok a) × (f a d w ≡ returned b d' w')
read-returned (ok a) f d w h = (a, refl, h)
read-returned (err e) f d w h = cc

pub or_not_found-ok :
    {A : Type 0} (resource identifier : String) (o : Option A) {a : A}
    → or_not_found resource identifier o ≡ ok a
    → o ≡ some a
or_not_found-ok resource identifier none h = cc
or_not_found-ok resource identifier (some b) h = cc

-- A row that `scalar_one` returns is the only one that passes the test, and does pass it.
module _ {A : Type 0} (p : A → Bool) where
  pub no_more : {x a : A} (rest : List A) → scalar_one (x ∷ rest) ≡ ok a → (x ≡ a) × (rest ≡ [])
  unfolding scalar_one
  no_more [] h = ground arith
  no_more (y ∷ rest) h = cc

  pub no_row : {a : A} → scalar_one [] ≡ ok a → ⊥
  unfolding scalar_one
  no_row h = cc

  none_other :
      (a : A) (xs : List A) → All (λ x. p x ≡ true → ⊥) xs → All (λ x. p x ≡ true → x ≡ a) xs
  none_other a [] h = tt
  none_other a (x ∷ xs) h = (λ e. absurd (h.0 e), none_other a xs h.1)

  pub scalar_one_unique :
      {a : A} (xs : List A)
      → scalar_one (select p xs) ≡ ok a
      → All (λ x. p x ≡ true → x ≡ a) xs × (p a ≡ true)
  unfolding select
  scalar_one_unique [] h = absurd (no_row h)
  scalar_one_unique {a} (x ∷ xs) h = elim (Bool-cases (p x)) [
    | inl e ↦
        let (same, empty) = no_more (select p xs) (rw e at h) in
        ((λ _. same, none_other a xs (All-select_none p xs empty)), rw (← same) e)
    | inr e ↦ let (rest, holds) = scalar_one_unique xs (rw e at h) in ((λ e'. cc, rest), holds)
  ]

-- Inversion of a read that was followed by another.
pub then_read-ok :
    {A B : Type 0} (x : Result A) (f : A → Result B) {b : B}
    → (x then_read f) ≡ ok b
    → (a : A) × (x ≡ ok a) × (f a ≡ ok b)
then_read-ok (ok a) f h = (a, refl, h)
then_read-ok (err e) f h = cc

pub ok_value : {A : Type 0} {a b : A} → ok a ≡ ok b → a ≡ b
ok_value h = cc

pub one_or_none :
    {A : Type 0} {a : A} (xs : List A) → scalar_one_or_none xs ≡ ok (some a) → scalar_one xs ≡ ok a
unfolding scalar_one scalar_one_or_none
one_or_none [] h = cc
one_or_none (x ∷ []) h = ground arith
one_or_none (x ∷ y ∷ r) h = cc
