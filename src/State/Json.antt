-- ===== src/State/Json.antt =====
-- The values that Python's `json` reads and writes. A `float` is its 64-bit pattern.
use ai_hyperscaler_on_workst.Common.{
  ℕ, ◌%◌, ◌^◌, Option, none, some, List, [], ◌∷◌, Bool, true, false, Text, text_eq, any, not, ◌==◌,
  if◌then◌else◌, ◌&&◌,
}
use ai_hyperscaler_on_workst.Common.Int.{ℤ, pos, negsuc}

mutual
  pub data Value : Type 0 where
    null : Value
    boolean : Bool → Value
    integer : ℤ → Value
    float : ℕ → Value
    text : Text → Value
    list : Values → Value
    object : Fields → Value

  pub data Values : Type 0 where
    end : Values
    item : Value → Values → Values

  pub data Fields : Type 0 where
    no_entry : Fields
    field : Text → Value → Fields → Fields

-- `data.get(key)`, where a key that is missing is `none`.
unfoldable pub value_at : Fields → Text → Option Value
value_at no_entry key = none
value_at (field k v fields) key = if text_eq k key then some v else value_at fields key

-- The object without the key.
unfoldable pub without : Fields → Text → Fields
without no_entry key = no_entry
without (field k v fields) key =
    let rest = without fields key in if text_eq k key then rest else field k v rest

unfoldable pub only_keys : List Text → Fields → Bool
only_keys keys no_entry = true
only_keys keys (field k v fields) = any (λ key. text_eq k key) keys && only_keys keys fields

-- `bool(value)`
unfoldable pub truthy : Value → Bool
truthy null = false
truthy (boolean b) = b
truthy (integer (pos n)) = not (n == 0)
truthy (integer (negsuc n)) = true
truthy (float bits) = not (bits % 2 ^ 63 == 0)
truthy (text []) = false
truthy (text (c ∷ s)) = true
truthy (list end) = false
truthy (list (item v vs)) = true
truthy (object no_entry) = false
truthy (object (field k v fields)) = true

-- A value that is true as a condition.
unfoldable pub true_value : Value → Option Value
unfolding truthy
true_value v = if truthy v then some v else none

-- The value under a key if it is there and true as a condition.
unfoldable pub true_at : Fields → Text → Option Value
unfolding value_at true_value
true_at fields key = elim (value_at fields key) [ none ↦ none | some v ↦ true_value v ]
