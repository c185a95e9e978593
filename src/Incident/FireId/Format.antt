-- ===== src/Incident/FireId/Format.antt =====
-- core/ids.py: which formatted fire identifiers `FIRE_ID_RE` accepts.
use Prim.Native.Char.{Char, char}
use Prim.Native.Nat.{zero, suc, ◌/◌, ◌%◌}
use Prim.Native.String.append
use Prim.Native.String.{[], ◌∷◌, ◌++◌}
use fireviewer_backend.Incident.FireId.{
  all_digits, code_and_digits, digit_text, digits, format_fire_id, is_digit, is_fire_id,
  is_territory_code, padded,
}
use fireviewer_backend.Prelude.{
  Bool, Bool-cases, String, ap, arith, false, if◌then◌else◌, inl, inr, ltb, refl, true, ℕ, ◌&&◌,
  ◌==◌, ◌∙◌, ◌≡◌, ◌≤◌,
}

-- A text of one digit, and that a digit is one.
abbrev is_single : String → Bool
is_single [] = false
is_single (c ∷ []) = is_digit c
is_single (c ∷ d ∷ s) = false

single_char : (s : String) → is_single s ≡ true → (c : Char) × (s ≡ c ∷ "") × (is_digit c ≡ true)
single_char [] h = cc
single_char (c ∷ []) h = (c, refl, h)
single_char (c ∷ d ∷ s) h = cc

either_single :
    (b : Bool) (s t : String)
    → is_single s ≡ true
    → is_single t ≡ true
    → is_single (if b then s else t) ≡ true
either_single true s t h k = h
either_single false s t h k = k

is_single-digit_text : (d : ℕ) → is_single (digit_text d) ≡ true
is_single-digit_text d = either_single (d == 0) "0" _ refl (
    either_single (d == 1) "1" _ refl (
      either_single (d == 2) "2" _ refl (
        either_single (d == 3) "3" _ refl (
          either_single (d == 4) "4" _ refl (
            either_single (d == 5) "5" _ refl (
              either_single (d == 6) "6" _ refl
                (either_single (d == 7) "7" _ refl (either_single (d == 8) "8" "9" refl refl))))))))

digit_char : (d : ℕ) → (c : Char) × (digit_text d ≡ c ∷ "") × (is_digit c ≡ true)
digit_char d = single_char (digit_text d) (is_single-digit_text d)

module _ (c : Char) (digit : is_digit c ≡ true) where
  not_empty : (s : String) → all_digits 0 (s ++ (c ∷ "")) ≡ false
  not_empty [] = rw (append.nil (c ∷ "")) refl
  not_empty (d ∷ s) = rw (append.cons d s (c ∷ "")) refl

  -- A digit at the end adds one to the count.
  one_more : (k : ℕ) (s : String) → all_digits (suc k) (s ++ (c ∷ "")) ≡ all_digits k s
  one_more zero [] = rw (append.nil (c ∷ ""), digit) refl
  one_more (suc k) [] = rw (append.nil (c ∷ ""), digit) refl
  one_more zero (d ∷ s) = rw (append.cons d s (c ∷ "")) (ground (arith, not_empty s))
  one_more (suc k) (d ∷ s) =
      rw (append.cons d s (c ∷ "")) (ap (λ b. is_digit d && b) (one_more k s))

abbrev without : ℕ → ℕ → ℕ
without zero n = n
without (suc w) n = without w (n / 10)

all_digits-padded :
    (w fuel n : ℕ) → all_digits w (padded w fuel n) ≡ all_digits 0 (digits fuel (without w n))
unfolding padded
all_digits-padded zero fuel n = refl
all_digits-padded (suc w) fuel n =
    let (c, shape, digit) = digit_char (n % 10) in
    rw shape (one_more c digit w (padded w fuel (n / 10)) ∙ all_digits-padded w fuel (n / 10))

no_digits : (fuel n : ℕ) → n ≤ fuel → all_digits 0 (digits fuel n) ≡ (n == 0)
unfolding digits
no_digits zero n h = ground (arith, h)
no_digits (suc fuel) n h = elim (Bool-cases (n == 0)) [
  | inl e ↦ rw e refl
  | inr e ↦
      let (c, shape, digit) = digit_char (n % 10) in
      rw (e, shape) (not_empty c digit (digits fuel (n / 10)))
]

five_digits : (n : ℕ) → all_digits 5 (padded 5 n n) ≡ ltb n 100000
five_digits n = all_digits-padded 5 n n ∙ no_digits n (without 5 n) (omega arith) ∙ ground arith

abbrev dash : Char
dash = char 45 tt

-- A literal of one character in front of a text, and of three.
one_char : (c : Char) (s : String) → (c ∷ "") ++ s ≡ c ∷ s
one_char c s = append.cons c "" s ∙ ap (λ t. c ∷ t) (append.nil s)

two_chars : (a b : Char) (s : String) → (a ∷ b ∷ "") ++ s ≡ a ∷ b ∷ s
two_chars a b s = append.cons a (b ∷ "") s ∙ ap (λ t. a ∷ t) (one_char b s)

three_chars : (a b c : Char) (s : String) → (a ∷ b ∷ c ∷ "") ++ s ≡ a ∷ b ∷ c ∷ s
three_chars a b c s = append.cons a (b ∷ c ∷ "") s ∙ ap (λ t. a ∷ t) (two_chars b c s)

-- The code is read up to the dash.
after_code :
    (code s : String)
    → is_territory_code code ≡ true
    → code_and_digits (code ++ (dash ∷ s)) ≡ all_digits 5 s
unfolding is_territory_code
after_code [] s h = cc
after_code (a ∷ []) s h = cc
after_code (a ∷ b ∷ []) s h = rw (two_chars a b (dash ∷ s)) (ground (arith, h))
after_code (a ∷ b ∷ c ∷ []) s h = rw (three_chars a b c (dash ∷ s)) (ground (arith, h))
after_code (a ∷ b ∷ c ∷ d ∷ r) s h = cc

-- A formatted identifier is accepted as long as the sequence has five digits.
pub format_fire_id-accepted :
    (territory_code : String) (sequence : ℕ)
    → is_territory_code territory_code ≡ true
    → is_fire_id (format_fire_id territory_code sequence) ≡ ltb sequence 100000
unfolding is_fire_id format_fire_id
format_fire_id-accepted s n h =
    let digits = padded 5 n n in
    let shape : "-" ++ digits ≡ dash ∷ digits = one_char dash digits in
    let head : "FR-" ++ (s ++ (dash ∷ digits))
        ≡ char 70 tt ∷ char 82 tt ∷ dash ∷ (s ++ (dash ∷ digits)) =
      three_chars (char 70 tt) (char 82 tt) dash (s ++ (dash ∷ digits)) in
    rw shape (rw head (after_code s digits h ∙ five_digits n))
