-- ===== src/Apdu/Chain.antt =====
-- The class `APDU` of access_protocol/apdu.py: cutting commands and responses into chains.
mod Tests
pub mod Split
pub mod Commands
pub mod Receive
use aliro_actuator.Common.{
  ℕ, zero, suc, ◌+◌, ◌-◌, List, [], ◌∷◌, Option, none, some, Bool, true, false, ◌==◌, ◌&&◌, ◌||◌,
  ltb, leb, if◌then◌else◌, length, take, drop, bit_or, Bytes, Result, ok, err, guard, value_error,
  stuck, unbound_local_error, message_too_long_error, ◌>>=◌, ◌>>◌,
}
use aliro_actuator.Apdu.Command.{Command}
use aliro_actuator.Apdu.Command as Cmd
use aliro_actuator.Apdu.Response.{Response, status_success, status_more_data_available}
use aliro_actuator.Apdu.Response as Rsp

pub data TransportProtocol : Type 0 where
  nfc ble_uwb socket_nfc socket_ble : TransportProtocol

pub record Apdu : Type 0 where
  pub support_extended_length_apdu : Bool
  pub maximum_command_apdu : ℕ
  pub maximum_response_apdu : ℕ
  pub transport : TransportProtocol
  pub apdu_command_length : ℕ
  pub apdu_response_length : ℕ
  pub apdu_max_response_length : ℕ

abbrev pub apdu_command_max_data_length : ℕ
apdu_command_max_data_length = 255

abbrev pub apdu_response_max_data_length : ℕ
apdu_response_max_data_length = 256

-- `APDU(transport, apdu_command_length, apdu_response_length)`
unfoldable pub init : TransportProtocol → ℕ → ℕ → Apdu
init transport command_length response_length = record {
  support_extended_length_apdu = false;
  maximum_command_apdu = 0;
  maximum_response_apdu = 0;
  transport = transport;
  apdu_command_length = command_length;
  apdu_response_length = response_length;
  apdu_max_response_length = response_length;
}

pub set_extended_length : ℕ → ℕ → Apdu → Apdu
set_extended_length command_length response_length a = record a {
  support_extended_length_apdu = true;
  maximum_command_apdu = command_length;
  maximum_response_apdu = response_length;
}

pub reset_extended_length : Apdu → Apdu
reset_extended_length a = record a {
  support_extended_length_apdu = false;
  maximum_command_apdu = 0;
  maximum_response_apdu = 0;
}

-- `while len(data) > most: ...` and the last part. With `most` 0 and some data the loop does not end.
unfoldable pub split_loop : ℕ → ℕ → Bytes → Result (List Bytes)
split_loop zero most payload = err stuck
split_loop (suc fuel) most payload = elim (ltb most (length payload)) [
  | false ↦ ok (payload ∷ [])
  | true ↦ split_loop fuel most (drop most payload) >>= λ parts. ok (take most payload ∷ parts)
]

-- Each round with a positive `most` shortens the data.
unfoldable pub split : ℕ → Bytes → Result (List Bytes)
unfolding split_loop
split most payload = split_loop (suc (length payload)) most payload

-- `split(most - used)`: below 0 the test of the loop always holds, and it does not end.
abbrev split_less : ℕ → ℕ → Bytes → Result (List Bytes)
split_less most used payload = if ltb most used then err stuck else split (most - used) payload

abbrev is_ble : TransportProtocol → Bool
is_ble ble_uwb = true
is_ble _ = false

-- the lc and le fields of a short command on BLE; a `le` of 256 leaves the source's `le_len` unbound
abbrev ble_lc_len : Bytes → Result ℕ
ble_lc_len payload =
    if length payload == 0
    then ok 0
    else if ltb (length payload) 256
    then ok 1
    else err message_too_long_error

abbrev ble_le_len : Option ℕ → Result ℕ
ble_le_len none = ok 0
ble_le_len (some le) = if ltb le 256 then ok 1 else err unbound_local_error

unfoldable pub split_standard : Apdu → Bytes → Option ℕ → ℕ → Result (List Bytes)
split_standard a payload le max_data_len =
    if is_ble a.transport
    then (do
      lc_len ← ble_lc_len payload
      le_len ← ble_le_len le
      split_less max_data_len (lc_len + le_len) payload)
    else split max_data_len payload

abbrev extended_le_len : Bytes → Option ℕ → ℕ
extended_le_len payload none = 0
extended_le_len payload (some le) =
    if ltb le 256 && ltb (length payload) 256 then 1 else if length payload == 0 then 3 else 2

abbrev extended_lc_len : Bytes → ℕ → Result ℕ
extended_lc_len payload le_len =
    if le_len == 2
    then ok 3
    else if length payload == 0
    then ok 0
    else if ltb (length payload) 256
    then ok 1
    else if leb (length payload) 65535
    then ok 3
    else err message_too_long_error

pub split_extended : Apdu → Bytes → Option ℕ → Result (List Bytes)
split_extended a payload le = do
  lc_len ← extended_lc_len payload (extended_le_len payload le)
  split_less a.maximum_command_apdu (4 + lc_len + extended_le_len payload le) payload

-- The commands for the parts; all but the last have the chaining bit.
unfoldable pub create_commands : ℕ → ℕ → ℕ → ℕ → Option ℕ → List Bytes → Result (List Command)
create_commands cla ins p1 p2 le [] = ok []
create_commands cla ins p1 p2 le (part ∷ []) = do
  c ← Cmd.create_from_parameters cla ins p1 p2 part le
  ok (c ∷ [])
create_commands cla ins p1 p2 le (part ∷ next ∷ parts) = do
  c ← Cmd.create_from_parameters (bit_or cla 0x10) ins p1 p2 part le
  cs ← create_commands cla ins p1 p2 le (next ∷ parts)
  ok (c ∷ cs)

abbrev le_allowed : Option ℕ → Bool
le_allowed none = true
le_allowed (some le) = leb le apdu_response_max_data_length

abbrev or_default : ℕ → Option ℕ → ℕ
or_default default none = default
or_default default (some n) = n

unfoldable pub split_data : Apdu → Bytes → Option ℕ → Option ℕ → Result (List Bytes)
split_data a payload le max_data_len =
    if a.support_extended_length_apdu
    then split_extended a payload le
    else split_standard a payload le (or_default a.apdu_command_length max_data_len)

unfoldable pub create_command :
    Apdu → ℕ → ℕ → ℕ → ℕ → Bytes → Option ℕ → Option ℕ → Result (List Command)
create_command a cla ins p1 p2 payload le max_data_len = do
  guard (a.support_extended_length_apdu || le_allowed le) message_too_long_error
  parts ← split_data a payload le max_data_len
  create_commands cla ins p1 p2 le parts

abbrev pub ins_get_response : ℕ
ins_get_response = 0xc0

pub create_get_response_command : Apdu → ℕ → ℕ → Result (List Command)
create_get_response_command a expected_response_size cla =
    create_command a cla ins_get_response 0x00 0x00 [] (some expected_response_size) none

-- the status of a part with `left` bytes from it on
pub chain_status : ℕ → ℕ → ℕ → ℕ
chain_status status most left =
    if leb left most
    then status
    else if leb left (most + 0xff)
    then bit_or status_more_data_available (left - most)
    else status_more_data_available

-- the loop of `create_response_chain`, over the rest of the data
pub response_loop : ℕ → ℕ → ℕ → Bytes → Result (List Response)
response_loop zero status most payload = err stuck
response_loop (suc fuel) status most [] = ok []
response_loop (suc fuel) status most (d ∷ ds) = do
  r ←
      Rsp.create_from_parameters (some (take most (d ∷ ds)))
        (chain_status status most (length (d ∷ ds)))
  rs ← response_loop fuel status most (drop most (d ∷ ds))
  ok (r ∷ rs)

-- `range` raises a ValueError on a step of 0
pub create_response_chain : Bytes → ℕ → ℕ → Result (List Response)
create_response_chain payload status zero = err value_error
create_response_chain payload status (suc most) =
    response_loop (suc (length payload)) status (suc most) payload

-- `data is not None and len(data) + extra > most`
abbrev too_long : Option Bytes → ℕ → ℕ → Bool
too_long none extra most = false
too_long (some d) extra most = ltb most (length d + extra)

abbrev single_response : Option Bytes → ℕ → Result (List Response)
single_response payload status = do r ← Rsp.create_from_parameters payload status; ok (r ∷ [])

-- The new state, where the response length is set back, and the responses. With an exception the
-- state stays as it was.
unfoldable pub create_response : Apdu → Option Bytes → ℕ → Result (Apdu × List Response)
create_response a payload status =
    if a.support_extended_length_apdu
    then (do
      rs ←
          if too_long payload 2 a.maximum_command_apdu
          then if ltb a.maximum_command_apdu 2
            then ok []
            else create_response_chain (Rsp.given payload) status (a.maximum_command_apdu - 2)
          else single_response payload status
      ok (a, rs))
    else (do
      rs ←
          if too_long payload 0 a.apdu_response_length
          then create_response_chain (Rsp.given payload) status a.apdu_response_length
          else single_response payload status
      ok (record a { apdu_response_length = a.apdu_max_response_length }, rs))
