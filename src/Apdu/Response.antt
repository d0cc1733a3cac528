-- ===== src/Apdu/Response.antt =====
-- The class `Response` of access_protocol/apdu.py. The status word is one number; `sw1` and `sw2` are
-- its two bytes, with the setters of the source.
pub mod RoundTrip
pub mod Parse
use aliro_actuator.Common.{
  ℕ, ◌+◌, ◌-◌, ◌*◌, ◌/◌, ◌^◌, List, [], ◌∷◌, ◌++◌, Option, none, some, Bool, true, false, ◌==◌, not,
  ltb, if◌then◌else◌, length, get_elem?, drop_last, bit_and, bit_or, Bytes, Result, ok, err,
  index_error, guard, or_raise, byte, create_response_error, invalid_status_error,
  invalid_response_data_error, ◌>>=◌, ◌>>◌, ◌||◌,
}

pub record Response : Type 0 where
  pub as_bytes : Bytes
  pub status : ℕ
  pub payload : Option Bytes

abbrev pub status_success : ℕ
status_success = 0x9000

abbrev pub status_more_data_available : ℕ
status_more_data_available = 0x6100

abbrev pub status_more_data_available_sw1 : ℕ
status_more_data_available_sw1 = 0x61

abbrev pub status_last_command_of_chain_expected : ℕ
status_last_command_of_chain_expected = 0x6883

abbrev pub status_command_chaining_not_supported : ℕ
status_command_chaining_not_supported = 0x6884

-- (status & 0xFF00) >> 8 and status & 0x00FF
unfoldable pub sw1_of : ℕ → ℕ
sw1_of status = bit_and status 0xff00 / 2 ^ 8

unfoldable pub sw2_of : ℕ → ℕ
sw2_of status = bit_and status 0x00ff

-- the setters of the two bytes
unfoldable pub set_sw1 : ℕ → ℕ → ℕ
set_sw1 status value = bit_or (bit_and status 0x00ff) (bit_and value 0x00ff * 2 ^ 8)

unfoldable pub set_sw2 : ℕ → ℕ → ℕ
set_sw2 status value = bit_or (bit_and status 0xff00) (bit_and value 0x00ff)

-- `bytestring[:-2]`, or None where it is empty
abbrev data_before_status : Bytes → Option Bytes
data_before_status bytestring =
    if ltb 2 (length bytestring) then some (drop_last 2 bytestring) else none

unfoldable pub create_from_bytestring : Bytes → Result Response
create_from_bytestring bytestring = do
  guard (not (ltb (length bytestring) 2)) create_response_error
  sw1 ← or_raise index_error (get_elem? bytestring (length bytestring - 2))
  sw2 ← or_raise index_error (get_elem? bytestring (length bytestring - 1))
  ok (record {
    as_bytes = bytestring;
    status = set_sw2 (set_sw1 0x00 sw1) sw2;
    payload = data_before_status bytestring;
  })

abbrev pub given : Option Bytes → Bytes
given none = []
given (some d) = d

unfoldable pub create_from_parameters : Option Bytes → ℕ → Result Response
create_from_parameters payload status = do
  guard (not (ltb 0xffff status)) create_response_error
  first ← byte (sw1_of status)
  second ← byte (sw2_of status)
  ok (record { as_bytes = given payload ++ (first ++ second); status = status; payload = payload })

unfoldable pub contains_status : ℕ → List ℕ → Bool
contains_status status [] = false
contains_status status (s ∷ rest) = s == status || contains_status status rest

unfoldable pub check_status : List ℕ → Response → Result (Unit {0})
check_status valid_codes r = guard (contains_status r.status valid_codes) invalid_status_error

abbrev no_bytes : Option Bytes → Bool
no_bytes none = true
no_bytes (some d) = not (ltb 0 (length d))

pub check_empty_data : Response → Result (Unit {0})
check_empty_data r = guard (no_bytes r.payload) invalid_response_data_error

-- `check_chaining_response` of the class `APDU`: how many bytes are left, or none where the response
-- is complete.
unfoldable pub check_chaining_response : Response → Result (Option ℕ)
check_chaining_response r =
    if sw1_of r.status == status_more_data_available_sw1
    then ok (some (sw2_of r.status))
    else if r.status == status_command_chaining_not_supported
    then err invalid_status_error
    else if r.status == status_last_command_of_chain_expected
    then err invalid_status_error
    else if r.status == status_success
    then ok none
    else err invalid_status_error
