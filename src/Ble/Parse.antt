-- ===== src/Ble/Parse.antt =====
-- `BleMessage.parse_payload` and the methods that it calls, but for the messages that carry a TLV: the
-- two initiate messages, and the reader descriptor of an event. What these methods make of their
-- payload is the parameter `parse_tlv_payload`.
use aliro_actuator.Common.{
  ℕ, ◌+◌, List, [], ◌∷◌, Option, none, some, true, false, ◌==◌, ltb, leb, if◌then◌else◌, length,
  get_elem?, drop, Bytes, from_bytes_big, Result, ok, err, or_raise, guard, index_error, type_error,
  not_implemented_error, ble_message_error, ◌>>=◌, ◌>>◌,
}
use aliro_actuator.Tlv.Fields.{enumerate, get_bits_and_enumerate}
use aliro_actuator.Encryption.{AesGcm, EncryptionEngine}
use aliro_actuator.Ble.Attribute.{BleAttribute, check_tag}
use aliro_actuator.Ble.Attribute as Attribute
use aliro_actuator.Ble.Message.{BleMessage, decrypt, Outcome}

-- what a message tells: its attributes, with the optional one; or the fields of a notification
pub data Parsed : Type 0 where
  attributes : List BleAttribute → Option BleAttribute → Parsed
  busy : Parsed
  general_error : ℕ → Parsed
  state_changed : ℕ → ℕ → Parsed
  completed : ℕ → ℕ → Parsed
  rke_action : Bytes → Parsed
  ranging : ℕ → Parsed
  tlv_fields : Bytes → Parsed
  -- an id without a case
  nothing : Parsed

unfoldable pub read_attribute : Bytes → ℕ → ℕ → Result BleAttribute
read_attribute payload offset tag = do
  a ← Attribute.from_bytes (drop offset payload)
  check_tag tag false a
  ok a

-- the attributes with these tags, one behind the other, and the offset behind them
unfoldable pub read_attributes : Bytes → ℕ → List ℕ → Result (List BleAttribute × ℕ)
read_attributes payload offset [] = ok ([], offset)
read_attributes payload offset (tag ∷ tags) = do
  a ← read_attribute payload offset tag
  (as', stop) ← read_attributes payload (offset + a.size) tags
  ok (a ∷ as', stop)

-- the optional attribute; another tag is only logged
abbrev read_vendor_specific : Bytes → ℕ → Result (Option BleAttribute)
read_vendor_specific payload offset =
    if ltb offset (length payload)
    then (do a ← Attribute.from_bytes (drop offset payload); check_tag 0x10 true a; ok (some a))
    else ok none

unfoldable pub parse_attributes : List ℕ → Bytes → Result Parsed
parse_attributes tags payload = do
  (as', _) ← read_attributes payload 0 tags
  ok (attributes as' none)

unfoldable pub parse_setup : List ℕ → Bytes → Result Parsed
parse_setup tags payload = do
  (as', offset) ← read_attributes payload 0 tags
  vendor ← read_vendor_specific payload offset
  ok (attributes as' vendor)

abbrev pub time_sync_tags : List ℕ
time_sync_tags = 0 ∷ 1 ∷ 2 ∷ 3 ∷ 4 ∷ 5 ∷ 6 ∷ []

abbrev pub m1_tags : List ℕ
m1_tags = 0x00 ∷ 0x01 ∷ 0x03 ∷ 0x02 ∷ []

abbrev pub m2_tags : List ℕ
m2_tags = 0x00 ∷ 0x01 ∷ 0x03 ∷ 0x06 ∷ 0x04 ∷ 0x05 ∷ 0x08 ∷ []

abbrev pub m3_tags : List ℕ
m3_tags = 0x04 ∷ 0x09 ∷ 0x0a ∷ 0x0b ∷ 0x06 ∷ 0x08 ∷ 0x0f ∷ []

abbrev pub m4_tags : List ℕ
m4_tags = 0x0c ∷ 0x0d ∷ 0x0e ∷ 0x07 ∷ []

unfoldable pub parse_uwb_ranging_service_payload : ℕ → Bytes → Result Parsed
parse_uwb_ranging_service_payload id payload =
    if id == 0x00
    then parse_setup m1_tags payload
    else if id == 0x01
    then parse_setup m2_tags payload
    else if id == 0x02
    then parse_setup m3_tags payload
    else if id == 0x03
    then parse_setup m4_tags payload
    else if id == 0x04
    then parse_attributes (0x02 ∷ []) payload
    else if id == 0x05
    then parse_attributes (0x11 ∷ []) payload
    else if id == 0x06
    then parse_attributes (0x02 ∷ []) payload
    else if id == 0x07
    then parse_attributes (0x0c ∷ 0x0d ∷ []) payload
    else ok nothing

-- members of the enumerations, by their values
abbrev general_error_values : ℕ → Option ℕ
general_error_values n = if leb n 0x03 then some n else none

abbrev operation_source_values : ℕ → Option ℕ
operation_source_values n = if leb n 7 then some n else none

abbrev reporting_values : ℕ → Option ℕ
reporting_values n = if n == 1 then some n else if n == 2 then some n else none

abbrev reader_status_values : ℕ → Option ℕ
reader_status_values n =
    if leb n 2
    then some n
    else if n == 0x80
    then some n
    else if n == 0x81
    then some n
    else if n == 0x82
    then some n
    else none

-- the value of the attribute, which a notification must have
abbrev value_of : BleAttribute → Result Bytes
value_of a = or_raise ble_message_error a.value

abbrev byte_at : Bytes → ℕ → Result ℕ
byte_at bs k = or_raise index_error (get_elem? bs k)

pub parse_reader_status_changed_payload : Bytes → Result Parsed
parse_reader_status_changed_payload payload = do
  a ← Attribute.from_bytes payload
  guard (a.id == 0x00) ble_message_error
  value ← value_of a
  source ← byte_at value 0
  operation_source ← enumerate ble_message_error operation_source_values source
  status ← byte_at value 1
  reader_status ← enumerate ble_message_error reader_status_values status
  ok (state_changed operation_source reader_status)

pub parse_access_protocol_completed_payload : Bytes → Result Parsed
parse_access_protocol_completed_payload payload = do
  a ← Attribute.from_bytes payload
  guard (a.id == 0x00) ble_message_error
  value ← value_of a
  guard (length value == 2) ble_message_error
  first ← byte_at value 0
  reporting ← get_bits_and_enumerate ble_message_error first 0xe0 reporting_values
  status ← byte_at value 1
  reader_status ← enumerate ble_message_error reader_status_values status
  ok (completed reporting reader_status)

pub parse_rke_request_payload : Bytes → Result Parsed
parse_rke_request_payload payload = do
  a ← Attribute.from_bytes payload
  guard (a.id == 0x00) ble_message_error
  value ← value_of a
  ok (rke_action value)

pub parse_ranging_payload : Bytes → Result Parsed
parse_ranging_payload payload = do
  a ← Attribute.from_bytes payload
  guard (leb a.id 5) ble_message_error
  elim a.value [ none ↦ ok (ranging a.id) | some value ↦ err ble_message_error ]

-- `len(value)` and `int.from_bytes(value)` of None raise a TypeError
abbrev not_none : Option Bytes → Result Bytes
not_none value = or_raise type_error value

module _ (aes : AesGcm) (parse_tlv_payload : ℕ → Bytes → Result Parsed) where
  unfoldable pub parse_event_payload : Bytes → Result Parsed
  parse_event_payload payload = do
    a ← Attribute.from_bytes payload
    guard (leb a.id 2) ble_message_error
    if a.id == 0x00
        then (do value ← not_none a.value; guard (length value == 0) ble_message_error; ok busy)
        else if a.id == 0x01
        then (do
          value ← not_none a.value
          reason ← enumerate ble_message_error general_error_values (from_bytes_big value)
          if ltb a.size (length payload)
              then parse_tlv_payload 0x00 payload
              else ok (general_error reason))
        else parse_tlv_payload 0x00 payload

  pub parse_notification_payload : ℕ → Bytes → Result Parsed
  parse_notification_payload id payload =
      if id == 0x00
      then parse_event_payload payload
      else if id == 0x01
      then parse_ranging_payload payload
      else if id == 0x02
      then parse_reader_status_changed_payload payload
      else if id == 0x03
      then parse_access_protocol_completed_payload payload
      else if id == 0x04
      then parse_rke_request_payload payload
      else if leb id 0x06
      then parse_tlv_payload id payload
      else ok nothing

  abbrev parse_plain : BleMessage → Result Parsed
  parse_plain m =
      if m.header == 0x02
      then parse_notification_payload m.id m.payload
      else if m.header == 0x01
      then parse_uwb_ranging_service_payload m.id m.payload
      else parse_attributes time_sync_tags m.payload

  abbrev after_decrypt : Outcome BleMessage → Outcome Parsed
  after_decrypt (e, ok m) = (e, parse_plain m)
  after_decrypt (e, err x) = (e, err x)

  -- A header without a case does nothing.
  unfoldable pub parse_payload : Option EncryptionEngine → BleMessage → Outcome Parsed
  parse_payload e m =
      if m.header == 0x00
      then (e, err not_implemented_error)
      else if m.header == 0x04
      then (e, err not_implemented_error)
      else if leb m.header 0x03
      then after_decrypt (decrypt aes e m)
      else (e, ok nothing)
