-- ===== src/Tlv/Fields.antt =====
-- The field readers of the class `Message` in transport_protocol/message.py. `invalid` is the
-- exception class that the message keeps in `invalid_data_error`. Each reader is given its `tlv_data`.
-- The branch that falls back on `self.tlv_data` is the caller's choice of that argument.
pub mod Laws
use aliro_actuator.Common.{
  ℕ, zero, suc, ◌+◌, ◌*◌, ◌/◌, ◌%◌, ◌^◌, List, [], ◌∷◌, Option, none, some, Bool, true, false, not,
  ◌==◌, ltb, if◌then◌else◌, length, bit_and, Bytes, from_bytes_big, Result, ok, err, Error,
  index_error, tlv_error, stuck, guard, or_raise, ◌>>=◌, ◌>>◌,
}
use aliro_actuator.Tlv.{
  Tlv, get_bytes, get_tlv, get_all_bytes_of_tag, get_all_tlv_of_tag, BerTlv, to_bytes,
}

-- `except IndexError as error: raise invalid`
abbrev pub on_missing {ℓ} : {A : Type ℓ} → Error → Result A → Result A
on_missing invalid (ok a) = ok a
on_missing invalid (err index_error) = err invalid
on_missing invalid (err e) = err e

-- `except IndexError: return None`
abbrev pub none_if_missing {ℓ} : {A : Type ℓ} → Result A → Result (Option A)
none_if_missing (ok a) = ok (some a)
none_if_missing (err index_error) = ok none
none_if_missing (err e) = err e

-- `except TlvError as error: raise invalid`
abbrev pub on_tlv_error {ℓ} : {A : Type ℓ} → Error → Result A → Result A
on_tlv_error invalid (ok a) = ok a
on_tlv_error invalid (err tlv_error) = err invalid
on_tlv_error invalid (err e) = err e

-- the two tests on the length of a value
abbrev check_length : Error → Option ℕ → Result (Unit {0}) → ℕ → Result (Unit {0})
check_length invalid none next n = next
check_length invalid (some wanted) next n = do guard (n == wanted) invalid; next

abbrev check_max_length : Error → Option ℕ → ℕ → Result (Unit {0})
check_max_length invalid none n = ok tt
check_max_length invalid (some most) n = guard (not (ltb most n)) invalid

abbrev check_lengths : Error → Option ℕ → Option ℕ → ℕ → Result (Unit {0})
check_lengths invalid wanted most n =
    check_length invalid wanted (check_max_length invalid most n) n

-- The length tests stand in the `try`, but `invalid` is no IndexError.
unfoldable pub get_bytes_from_tlv : Error → ℕ → Option ℕ → Option ℕ → Tlv → Result Bytes
get_bytes_from_tlv invalid tag wanted most tlv_data = do
  value ← on_missing invalid (get_bytes tlv_data tag 0)
  check_lengths invalid wanted most (length value)
  ok value

abbrev check_found : Error → Option ℕ → Option ℕ → Option Bytes → Result (Option Bytes)
check_found invalid wanted most none = ok none
check_found invalid wanted most (some value) = do
  check_lengths invalid wanted most (length value)
  ok (some value)

unfoldable pub get_optional_bytes_from_tlv :
    Error → ℕ → Option ℕ → Option ℕ → Tlv → Result (Option Bytes)
get_optional_bytes_from_tlv invalid tag wanted most tlv_data = do
  found ← none_if_missing (get_bytes tlv_data tag 0)
  check_found invalid wanted most found

pub check_each : Error → Option ℕ → Option ℕ → List Bytes → Result (Unit {0})
check_each invalid wanted most [] = ok tt
check_each invalid wanted most (value ∷ values) = do
  check_lengths invalid wanted most (length value)
  check_each invalid wanted most values

pub get_multiple_optional_bytes_from_tlv :
    Error → ℕ → Option ℕ → Option ℕ → Tlv → Result (List Bytes)
get_multiple_optional_bytes_from_tlv invalid tag wanted most tlv_data = do
  value_list ← get_all_bytes_of_tag tlv_data tag
  check_each invalid wanted most value_list
  ok value_list

pub get_int_from_tlv : Error → ℕ → ℕ → Tlv → ℕ → Result ℕ
get_int_from_tlv invalid tag wanted tlv_data index = do
  value_bytes ← on_missing invalid (get_bytes tlv_data tag index)
  guard (length value_bytes == wanted) invalid
  ok (from_bytes_big value_bytes)

module _ (ber : BerTlv) where
  -- The tests on the length of an inner TLV build it only where a length is asked for.
  unfoldable pub check_tlv_lengths : Error → Option ℕ → Option ℕ → Tlv → Result (Unit {0})
  check_tlv_lengths invalid none none value = ok tt
  check_tlv_lengths invalid wanted most value = do
    built ← to_bytes ber value
    check_lengths invalid wanted most (length built)

  pub get_tlv_from_tlv : Error → ℕ → Option ℕ → Option ℕ → Tlv → Result Tlv
  get_tlv_from_tlv invalid tag wanted most tlv_data = on_tlv_error invalid (do
    value ← on_missing invalid (get_tlv tlv_data tag 0)
    check_tlv_lengths invalid wanted most value
    ok value)

  abbrev check_found_tlv : Error → Option ℕ → Option ℕ → Option Tlv → Result (Option Tlv)
  check_found_tlv invalid wanted most none = ok none
  check_found_tlv invalid wanted most (some value) = do
    check_tlv_lengths invalid wanted most value
    ok (some value)

  unfoldable pub get_optional_tlv_from_tlv :
      Error → ℕ → Option ℕ → Option ℕ → Tlv → Result (Option Tlv)
  get_optional_tlv_from_tlv invalid tag wanted most tlv_data = on_tlv_error invalid (do
    found ← none_if_missing (get_tlv tlv_data tag 0)
    check_found_tlv invalid wanted most found)

-- Two bytes each, to the base 256; a last byte on its own is dropped.
unfoldable pub data_to_2byte_list : Bytes → List ℕ
data_to_2byte_list (pt1 ∷ pt2 ∷ rest) = from_bytes_big (pt1 ∷ pt2 ∷ []) ∷ data_to_2byte_list rest
data_to_2byte_list _ = []

-- `_enumerate`: `enum_class` is the members of the enumeration by their values
abbrev pub enumerate {ℓ} : {A : Type ℓ} → Error → (ℕ → Option A) → ℕ → Result A
enumerate invalid enum_class value = or_raise invalid (enum_class value)

-- The loop of `_get_shift_from_bitmask`, with fuel. For the mask 0 it does not end.
pub shift_loop : ℕ → ℕ → ℕ → Result ℕ
shift_loop zero shift bitmask = err stuck
shift_loop (suc fuel) shift bitmask = elim (bitmask % 2 == 1) [
  | true ↦ ok shift
  | false ↦ shift_loop fuel (shift + 1) (bitmask / 2)
]

unfoldable pub get_shift_from_bitmask : ℕ → Result ℕ
unfolding shift_loop
get_shift_from_bitmask bitmask = shift_loop bitmask 0 bitmask

unfoldable pub get_bits_and_enumerate {ℓ} : {A : Type ℓ} → Error → ℕ → ℕ → (ℕ → Option A) → Result A
unfolding get_shift_from_bitmask
get_bits_and_enumerate invalid value bitmask enum_class = do
  shift ← get_shift_from_bitmask bitmask
  enumerate invalid enum_class (bit_and value bitmask / 2 ^ shift)
