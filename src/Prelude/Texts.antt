-- ===== src/Prelude/Texts.antt =====
-- The lexicographic order of texts by code points, which Python's `<` and the sort keys use.
use Prim.Native.Nat.{Ordering}
use Prim.Native.Char.{Char, code}
use Prim.Native.String.compare
use Prim.Native.String.{String, [], ◌∷◌, compare}
use mathlib.Core.Path.{◌≡◌, refl}
use mathlib.Core.Logic.{◌⊎◌, inl, inr}
use mathlib.Core.Bool.{Bool, true, false, not}
use mathlib.Core.Option.{Option, none, some}
use native.Mathlib.Omega.{arith}
use text.Mathlib.Text.{◌==◌ as str_eq}
use text.Mathlib.TextEquality.{Char-path}

-- `bool(text)` of an optional text.
abbrev pub is_given : Option String → Bool
is_given none = false
is_given (some s) = not (str_eq s "")

abbrev at_most : Ordering → Bool
at_most Ordering.lt = true
at_most Ordering.eq = true
at_most Ordering.gt = false

abbrev pub text_leb : String → String → Bool
text_leb s t = at_most (compare s t)

no_shorter : (s : String) → text_leb "" s ≡ true
no_shorter [] = refl
no_shorter (c ∷ s) = rw (compare.nil-cons c s) refl

not_longer : (c : Char) (s : String) → text_leb (c ∷ s) "" ≡ false
not_longer c s = rw (compare.cons-nil c s) refl

pub text_leb_total : (s t : String) → (text_leb s t ≡ true) ⊎ (text_leb t s ≡ true)
text_leb_total [] t = inl (no_shorter t)
text_leb_total (c ∷ s) [] = inr (no_shorter (c ∷ s))
text_leb_total (c ∷ s) (d ∷ t) =
    rw (compare.cons-cons c d s t, compare.cons-cons d c t s) (ground (arith, text_leb_total s t))

pub text_leb_trans :
    (s t u : String) → text_leb s t ≡ true → text_leb t u ≡ true → text_leb s u ≡ true
text_leb_trans [] t u h k = no_shorter u
text_leb_trans (c ∷ s) [] u h k = cc (not_longer c s)
text_leb_trans (c ∷ s) (d ∷ t) [] h k = cc (not_longer d t)
text_leb_trans (c ∷ s) (d ∷ t) (e ∷ u) h k = rw (compare.cons-cons c e s u) (
    ground (
      arith,
      rw (compare.cons-cons c d s t) at h,
      rw (compare.cons-cons d e t u) at k,
      text_leb_trans s t u,
    ))

equal_codes :
    (c d : Char) (s t : String)
    → text_leb (c ∷ s) (d ∷ t) ≡ true
    → text_leb (d ∷ t) (c ∷ s) ≡ true
    → (code c ≡ code d) × (text_leb s t ≡ true) × (text_leb t s ≡ true)
equal_codes c d s t h k =
    ground (arith, rw (compare.cons-cons c d s t) at h, rw (compare.cons-cons d c t s) at k)

pub text_leb_antisym : (s t : String) → text_leb s t ≡ true → text_leb t s ≡ true → s ≡ t
text_leb_antisym [] [] h k = refl
text_leb_antisym [] (d ∷ t) h k = cc (not_longer d t)
text_leb_antisym (c ∷ s) [] h k = cc (not_longer c s)
text_leb_antisym (c ∷ s) (d ∷ t) h k =
    let (same, h', k') = equal_codes c d s t h k in
    λ i. Char-path c d same i ∷ text_leb_antisym s t h' k' i
