-- ===== src/Ble/Attribute.antt =====
-- The class `BleAttribute` of transport_protocol/ble_message_format.py. The texts of the exceptions,
-- among them the bytes of the attribute, are left out.
use aliro_actuator.Common.{
  ℕ, ◌+◌, [], ◌∷◌, ◌++◌, Option, none, some, Bool, ◌==◌, ◌||◌, if◌then◌else◌, length, get_elem?,
  slice, byte, Bytes, Result, ok, or_raise, guard, index_error, ble_message_error, ◌>>=◌,
}

pub record BleAttribute : Type 0 where
  pub id : ℕ
  pub value : Option Bytes
  pub size : ℕ

abbrev size_of : Option Bytes → ℕ
size_of none = 2
size_of (some value) = length value + 2

-- `BleAttribute(id, value)`; `size` is the field `length`
abbrev pub new_attribute : ℕ → Option Bytes → BleAttribute
new_attribute id value = record { id = id; value = value; size = size_of value }

unfoldable pub from_bytes : Bytes → Result BleAttribute
from_bytes input = do
  id ← or_raise index_error (get_elem? input 0)
  size ← or_raise index_error (get_elem? input 1)
  ok (new_attribute id (if size == 0 then none else some (slice 2 (2 + size) input)))

abbrev value_bytes : Option Bytes → Result Bytes
value_bytes none = ok (0 ∷ [])
value_bytes (some value) = do size ← byte (length value); ok (size ++ value)

unfoldable pub to_bytes : BleAttribute → Result Bytes
to_bytes a = do id ← byte a.id; rest ← value_bytes a.value; ok (id ++ rest)

unfoldable pub check_tag : ℕ → Bool → BleAttribute → Result (Unit {0})
check_tag tag_id optional a = guard (a.id == tag_id || optional) ble_message_error
