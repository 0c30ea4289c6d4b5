-- ===== src/Http/Json.antt =====
-- The part of encoding/json that the handlers rely on: what a body decodes to, and the conversion of
-- `values` into slices of integers and booleans.
use gomc_rest.Common.{
  ℕ, ◌^◌, Bool, false, Option, none, some, List, [], ◌∷◌, ltb, if◌then◌else◌, ok, err,
}
use gomc_rest.Common.Int.{ℤ, pos, negsuc}
use gomc_rest.Http.{write_err, bad_request, body_too_large, invalid_json}
use gomc_rest.Http.Guards.{Guard}

-- A JSON value in an array: an integer literal, a boolean, `null`, or anything else.
pub data Item : Type 0 where
  int : ℤ → Item
  bool : Bool → Item
  null other : Item

-- `json.RawMessage` of the field `values`.
pub data RawValues : Type 0 where
  null_values scalar : RawValues
  array : List Item → RawValues

-- What `Decode` makes of a body that `MaxBytesReader` cuts off.
pub data Decoded (A : Type 0) : Type 0 where
  too_large invalid : Decoded A
  decoded : A → Decoded A

abbrev pub max_write_body : ℕ
max_write_body = 1048576

unfoldable pub decode_body : {A : Type 0} → Decoded A → Guard A
decode_body too_large = err (write_err 413 "bad_request" (body_too_large max_write_body))
decode_body invalid = err (bad_request invalid_json)
decode_body (decoded a) = ok a

-- Elements; `null` leaves the zero value. An integer has to fit its type.
unfoldable pub as_int64 : Item → Option ℤ
as_int64 (int (pos n)) = if ltb n (2 ^ 63) then some (pos n) else none
as_int64 (int (negsuc n)) = if ltb n (2 ^ 63) then some (negsuc n) else none
as_int64 null = some (pos 0)
as_int64 _ = none

unfoldable pub as_uint16 : Item → Option ℕ
as_uint16 (int (pos n)) = if ltb n (2 ^ 16) then some n else none
as_uint16 null = some 0
as_uint16 _ = none

unfoldable pub as_bool : Item → Option Bool
as_bool (bool b) = some b
as_bool null = some false
as_bool _ = none

unfoldable pub all_items : {A : Type 0} → (Item → Option A) → List Item → Option (List A)
all_items f [] = some []
all_items f (x ∷ xs) = elim (f x) [
  | none ↦ none
  | some a ↦ elim (all_items f xs) [ none ↦ none | some as' ↦ some (a ∷ as') ]
]

-- `json.Unmarshal` into a slice; `null` gives the nil slice.
unfoldable pub unmarshal : {A : Type 0} → (Item → Option A) → RawValues → Option (List A)
unfolding all_items
unmarshal f null_values = some []
unmarshal f scalar = none
unmarshal f (array items) = all_items f items
