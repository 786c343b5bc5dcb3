-- ===== src/Prelude/Json.antt =====
-- JSON values as Python's `json` reads and writes them. The library's ℤ stands on other numbers, so
-- integers are given here.
use Prim.Native.Nat.{ℕ, zero, suc, ◌+◌, ◌/◌}
use Prim.Native.Char.{code}
use Prim.Native.String.{String}
use mathlib.Core.Path.{◌≡◌, refl}
use mathlib.Core.Bool.{Bool, true, false, ◌&&◌, ◌||◌}
use mathlib.Core.Option.{Option, none, some}
use mathlib.Core.List.{List, [], ◌∷◌}
use text.Mathlib.Text.{◌==◌ as str_eq}
use ntulearn_skill.Prelude.Tests.{ltb, leb, ◌==◌, if◌then◌else◌, is_some}
use ntulearn_skill.Prelude.Lists.{all}
use ntulearn_skill.Prelude.Text.{one_of}

-- `negsuc n` is -(n + 1).
pub data ℤ : Type 0 where
  pos : ℕ → ℤ
  negsuc : ℕ → ℤ

-- `float` holds the bits of a number that is no integer.
mutual
  pub data JsonValue : Type 0 where
    null : JsonValue
    bool : Bool → JsonValue
    int : ℤ → JsonValue
    float : ℕ → JsonValue
    string : String → JsonValue
    list : JsonItems → JsonValue
    object : JsonFields → JsonValue

  pub data JsonItems : Type 0 where
    nil : JsonItems
    cons : JsonValue → JsonItems → JsonItems

  pub data JsonFields : Type 0 where
    end : JsonFields
    field : String → JsonValue → JsonFields → JsonFields

-- `fields.get(key)`
unfoldable pub lookup : String → JsonFields → Option JsonValue
lookup key end = none
lookup key (field k v fields) = if str_eq key k then some v else lookup key fields

unfoldable pub keys : JsonFields → List String
keys end = []
keys (field k v fields) = k ∷ keys fields

-- `set(fields) == expected`
unfoldable pub has_keys : JsonFields → List String → Bool
unfolding lookup keys
has_keys fields expected =
    all (λ k. one_of k expected) (keys fields) && all (λ k. is_some (lookup k fields)) expected

abbrev same_int : ℤ → ℤ → Bool
same_int (pos a) (pos b) = a == b
same_int (pos a) (negsuc b) = false
same_int (negsuc a) (pos b) = false
same_int (negsuc a) (negsuc b) = a == b

abbrev same_scalar : JsonValue → JsonValue → Bool
same_scalar (int a) (int b) = same_int a b
same_scalar (string a) (string b) = str_eq a b
same_scalar _ _ = false

abbrev object_fields : JsonValue → Option JsonFields
object_fields (object fields) = some fields
object_fields _ = none

abbrev field_count : JsonFields → ℕ
field_count end = 0
field_count (field k v fields) = suc (field_count fields)

abbrev on_some {ℓ} : {A : Type ℓ} → Option A → (A → Bool) → Bool
on_some none f = false
on_some (some a) f = f a

-- `==` of values that hold integers, texts and objects only, the order of an object's fields aside.
unfoldable mutual
  unfolding lookup

  pub same_value : JsonValue → JsonValue → Bool
  same_value (object fields) v =
      on_some (object_fields v)
        (λ other. included fields other && (field_count fields == field_count other))
  same_value null v = same_scalar null v
  same_value (bool b) v = same_scalar (bool b) v
  same_value (int n) v = same_scalar (int n) v
  same_value (float n) v = same_scalar (float n) v
  same_value (string s) v = same_scalar (string s) v
  same_value (list l) v = same_scalar (list l) v

  pub included : JsonFields → JsonFields → Bool
  included end other = true
  included (field k v fields) other =
      on_some (lookup k other) (same_value v) && included fields other

unfoldable pub same_fields : JsonFields → JsonFields → Bool
unfolding same_value
same_fields fields other = included fields other && (field_count fields == field_count other)

-- The decimal digits of a number; the number itself is fuel enough.
digit_count : ℕ → ℕ → ℕ
digit_count zero n = 1
digit_count (suc fuel) n = let more = digit_count fuel (n / 10) in if ltb n 10 then 1 else suc more

-- The width of a character under `ensure_ascii`: as it is, or an escape of two, six or twelve.
char_width : ℕ → ℕ
char_width c =
    if c == 34 || c == 92 || c == 8 || c == 9 || c == 10 || c == 12 || c == 13
    then 2
    else (if leb 32 c && ltb c 127 then 1 else (if ltb c 65536 then 6 else 12))

text_width : String → ℕ
unfolding char_width
text_width String.[] = 0
text_width (String.◌∷◌ c s) = char_width (code c) + text_width s

-- `len(json.dumps(value, separators=(",", ":")))`; a float, which no payload holds, counts nothing.
unfoldable mutual
  unfolding digit_count text_width

  pub encoded_length : JsonValue → ℕ
  encoded_length null = 4
  encoded_length (bool b) = if b then 4 else 5
  encoded_length (int (pos n)) = digit_count n n
  encoded_length (int (negsuc n)) = suc (digit_count (suc n) (suc n))
  encoded_length (float bits) = 0
  encoded_length (string s) = 2 + text_width s
  encoded_length (list items) = 1 + items_length items
  encoded_length (object fields) = 1 + fields_length fields

  -- With the comma after each item, or the closing bracket.
  pub items_length : JsonItems → ℕ
  items_length nil = 1
  items_length (cons v nil) = encoded_length v + 1
  items_length (cons v (cons w items)) = encoded_length v + 1 + items_length (cons w items)

  pub fields_length : JsonFields → ℕ
  fields_length end = 1
  fields_length (field k v end) = 3 + text_width k + encoded_length v + 1
  fields_length (field k v (field j w fields)) =
      3 + text_width k + encoded_length v + 1 + fields_length (field j w fields)

-- `{"a":1,"b":"xy"}` has sixteen characters.
encoded_length_test :
    encoded_length (object (field "a" (int (pos 1)) (field "b" (string "xy") end))) ≡ 16
unfolding encoded_length
encoded_length_test = refl
