-- ===== src/Platform.antt =====
-- Python values as the JSON encoder sees them, domain/hashing.py, and what the backend takes from
-- outside its own code: the JSON and SHA-256 libraries and the random part of new identifiers.
use fireviewer_backend.Prelude.{
  Bool, List, Option, String, [], if◌then◌else◌, none, some, str_eq, ℕ, ◌∷◌,
}

-- A float enters by its rank in the order of the finite doubles: the modelled code compares and
-- copies floats.
-- `negative n` is the integer -(n + 1).
-- The values that reach `canonical_json`. A datetime is an instant, in microseconds since the epoch.
mutual
  pub data Value : Type 0 where
    null : Value
    bool : Bool → Value
    num : ℕ → Value
    negative : ℕ → Value
    text : String → Value
    stamp : ℕ → Value
    real : ℕ → Value
    array : Items → Value
    dict : Fields → Value

  pub data Items : Type 0 where
    nil : Items
    item : Value → Items → Items

  pub data Fields : Type 0 where
    end : Fields
    field : String → Value → Fields → Fields

abbrev pub fields : List (String × Value) → Fields
fields [] = end
fields ((k, v) ∷ r) = field k v (fields r)

abbrev pub object : List (String × Value) → Value
object rows = dict (fields rows)

abbrev pub optional {ℓ} : {A : Type ℓ} → (A → Value) → Option A → Value
optional f none = null
optional f (some a) = f a

-- `dict.get`
unfoldable pub get_field : String → Fields → Option Value
get_field name end = none
get_field name (field k v rest) = if str_eq k name then some v else get_field name rest

-- The methods of Python's texts and numbers that the backend calls on values from outside: `str`,
-- `upper`, `casefold`, `[:n]`, and for a float the test with zero and `int`, which is `none` below
-- zero.
pub record Builtins : Type 0 where
  pub str : Value → String
  pub upper : String → String
  pub casefold : String → String
  pub first : ℕ → String → String
  pub real_is_zero : ℕ → Bool
  pub real_to_int : ℕ → Option ℕ

-- `json.dumps` with the options of `canonical_json`, `json.loads`, the hex SHA-256 of a UTF-8 text,
-- and the n-th identifier that `new_event_id` draws.
pub record Platform : Type 0 where
  pub dumps : Value → String
  pub loads : String → Value
  pub sha256 : String → String
  pub new_event_id : ℕ → String

module _ (P : Platform) where
  open P use {dumps, loads, sha256}

  abbrev pub canonical_json : Value → String
  canonical_json value = dumps value

  abbrev pub sha256_hex : Value → String
  sha256_hex value = sha256 (canonical_json value)

  abbrev pub sha256_text : String → String
  sha256_text value = sha256 value

  abbrev pub json_safe : Value → Value
  json_safe value = loads (canonical_json value)
