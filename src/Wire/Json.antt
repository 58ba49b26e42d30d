-- ===== src/Wire/Json.antt =====
-- What encoding/json makes of a body, as internal/runtime/parse.go decodes it: a JSON value, the reading
-- of a value into a string, a map or a json.Number, and the Int64 of a number.
use infer_swap.Common.{
  ℕ, ◌+◌, ◌*◌, ◌-◌, ◌^◌, Bool, true, false, not, ◌&&◌, ◌||◌, Option, none, some, List, [], ◌∷◌,
  String, ◌==◌, leb, ltb, if◌then◌else◌, same_text, codes, is_empty,
}

mutual
  -- A number is an integer literal, with its sign, or a literal with a fraction or an exponent.
  pub data Json : Type 0 where
    null : Json
    truth : Bool → Json
    integer : Bool → ℕ → Json
    fraction : Json
    text : String → Json
    array : Items → Json
    object : Members → Json

  pub data Items : Type 0 where
    no_items : Items
    item : Json → Items → Items

  pub data Members : Type 0 where
    no_members : Members
    member : String → Json → Members → Members

-- The value of a key in a map[string]json.RawMessage: the last of its members.
abbrev pub member_of : String → Members → Option Json
member_of k no_members = none
member_of k (member j v ms) = elim (member_of k ms) [
  | some w ↦ some w
  | none ↦ if same_text j k then some v else none
]

-- Unmarshal into a map; null leaves it nil.
abbrev pub as_map : Json → Option Members
as_map (object ms) = some ms
as_map null = some no_members
as_map _ = none

-- Unmarshal into a string variable that is empty; null leaves it so.
abbrev pub as_string : Json → Option String
as_string (text s) = some s
as_string null = some ""
as_string _ = none

abbrev is_digit : ℕ → Bool
is_digit c = leb 48 c && leb c 57

abbrev all_digits : List ℕ → Bool
all_digits [] = true
all_digits (c ∷ cs) = is_digit c && all_digits cs

abbrev digits_value : ℕ → List ℕ → ℕ
digits_value n [] = n
digits_value n (c ∷ cs) = digits_value (n * 10 + (c - 48)) cs

-- A literal of digits without a leading zero.
abbrev is_whole : List ℕ → Bool
is_whole [] = false
is_whole (c ∷ cs) = all_digits (c ∷ cs) && (is_empty cs || not (c == 48))

abbrev whole_of : Bool → List ℕ → Option (Bool × ℕ)
whole_of negative cs = if is_whole cs then some (negative, digits_value 0 cs) else none

abbrev literal_of : List ℕ → Option (Bool × ℕ)
literal_of [] = none
literal_of (c ∷ cs) = if c == 45 then whole_of true cs else whole_of false (c ∷ cs)

-- Decode into a json.Number, which takes a quoted literal as well, and the Int64 of that. Every
-- other value, and every literal that is no integer, fails at one of the two.
abbrev pub as_integer : Json → Option (Bool × ℕ)
as_integer (integer negative n) = some (negative, n)
as_integer (text s) = literal_of (codes s)
as_integer _ = none

-- The range of an int64.
abbrev pub is_int64 : Bool → ℕ → Bool
is_int64 true n = leb n (2 ^ 63)
is_int64 false n = ltb n (2 ^ 63)
