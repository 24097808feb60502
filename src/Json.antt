-- ===== src/Json.antt =====
-- The `serde_json::Value` that the code reads: its shape, without the library's parser.
use forksan.Prelude.{ℕ, Bool, List, [], ◌∷◌, Option, none, some, Text, ◌==◌, text_eq, if◌then◌else◌}

mutual
  pub data Json : Type 0 where
    null : Json
    boolean : Bool → Json
    -- what `as_u64` returns
    number : Option ℕ → Json
    string : Text → Json
    array : Items → Json
    object : Fields → Json

  pub data Items : Type 0 where
    nil : Items
    cons : Json → Items → Items

  pub data Fields : Type 0 where
    end : Fields
    field : Text → Json → Fields → Fields

unfoldable pub get_field : Text → Fields → Option Json
get_field key end = none
get_field key (field k v fs) = let rest = get_field key fs in if k == key then some v else rest

-- `value.get(key)`: only an object has keys.
unfoldable pub get : Text → Json → Option Json
unfolding get_field
get key (object fs) = get_field key fs
get key v = none

unfoldable pub as_str : Json → Option Text
as_str (string s) = some s
as_str v = none

unfoldable pub as_u64 : Json → Option ℕ
as_u64 (number n) = n
as_u64 v = none

unfoldable pub elements : Items → List Json
elements nil = []
elements (cons v vs) = v ∷ elements vs

unfoldable pub as_array : Json → Option (List Json)
unfolding elements
as_array (array vs) = some (elements vs)
as_array v = none

-- `option.and_then(f)`
abbrev pub and_then : {A B : Type 0} → Option A → (A → Option B) → Option B
and_then none f = none
and_then (some a) f = f a

-- `value.get(key).and_then(|v| v.as_str())`
unfoldable pub get_str : Text → Json → Option Text
unfolding get as_str
get_str key v = and_then (get key v) as_str
