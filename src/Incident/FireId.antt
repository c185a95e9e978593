-- ===== src/Incident/FireId.antt =====
-- core/ids.py: the texts that name incidents and episodes, `TERRITORY_CODE_RE` and `FIRE_ID_RE`.
pub mod Format
use Prim.Native.Char.{Char, code}
use Prim.Native.Nat.{zero, suc, ◌/◌, ◌%◌}
use Prim.Native.String.{[], ◌∷◌, ◌++◌}
use fireviewer_backend.Prelude.{
  Bool, String, false, if◌then◌else◌, leb, refl, true, ℕ, ◌&&◌, ◌==◌, ◌||◌, ◌≡◌,
}

abbrev pub digit_text : ℕ → String
digit_text d =
    if d == 0
    then "0"
    else if d == 1
    then "1"
    else if d == 2
    then "2"
    else if d == 3
    then "3"
    else if d == 4
    then "4"
    else if d == 5
    then "5"
    else if d == 6
    then "6"
    else if d == 7
    then "7"
    else if d == 8
    then "8"
    else "9"

-- The digits of `n`. Every round drops one, so `n` rounds are enough.
unfoldable pub digits : ℕ → ℕ → String
digits zero n = ""
digits (suc fuel) n =
    let rest = digits fuel (n / 10) in if n == 0 then "" else rest ++ digit_text (n % 10)

-- `f"{n:0wd}"`: at least `w` digits, for a width of at least 1.
unfoldable pub padded : ℕ → ℕ → ℕ → String
unfolding digits
padded zero fuel n = digits fuel n
padded (suc w) fuel n = padded w fuel (n / 10) ++ digit_text (n % 10)

unfoldable pub format_fire_id : String → ℕ → String
unfolding padded
format_fire_id territory_code sequence =
    "FR-" ++ (territory_code ++ ("-" ++ padded 5 sequence sequence))

unfoldable pub format_episode_id : ℕ → String
unfolding padded
format_episode_id ordinal = "E" ++ padded 2 ordinal ordinal

abbrev pub is_digit : Char → Bool
is_digit c = leb 48 (code c) && leb (code c) 57

-- `[0-9A-Z]`
abbrev pub is_code_char : Char → Bool
is_code_char c = is_digit c || (leb 65 (code c) && leb (code c) 90)

-- `[0-9]{k}`, to the end of the text.
abbrev pub all_digits : ℕ → String → Bool
all_digits zero [] = true
all_digits zero (c ∷ s) = false
all_digits (suc k) [] = false
all_digits (suc k) (c ∷ s) = is_digit c && all_digits k s

-- `-[0-9]{5}`, to the end of the text.
abbrev pub dash_digits : String → Bool
dash_digits [] = false
dash_digits (c ∷ s) = (code c == 45) && all_digits 5 s

-- `TERRITORY_CODE_RE.fullmatch`
unfoldable pub is_territory_code : String → Bool
is_territory_code (a ∷ b ∷ []) = is_code_char a && is_code_char b
is_territory_code (a ∷ b ∷ c ∷ []) = is_code_char a && (is_code_char b && is_code_char c)
is_territory_code _ = false

-- `[0-9A-Z]{2,3}-[0-9]{5}`: the third character belongs to the code or is the dash.
abbrev pub code_and_digits : String → Bool
code_and_digits (a ∷ b ∷ c ∷ s) =
    is_code_char a && (is_code_char b && (dash_digits (c ∷ s) || (is_code_char c && dash_digits s)))
code_and_digits _ = false

-- `FIRE_ID_RE.fullmatch`
unfoldable pub is_fire_id : String → Bool
is_fire_id (f ∷ r ∷ d ∷ s) =
    (code f == 70) && ((code r == 82) && ((code d == 45) && code_and_digits s))
is_fire_id _ = false
