-- ===== src/Ble/Message.antt =====
-- The class `BleMessage` of transport_protocol/ble_message_format.py: its bytes and its encryption. The
-- texts of the exceptions, among them the bytes of the message, are left out.
use aliro_actuator.Common.{
  ℕ, ◌+◌, ◌++◌, Option, none, some, Bool, ◌==◌, ◌||◌, if◌then◌else◌, length, get_elem?, slice,
  drop_last, take_last, to_bytes_big, from_bytes_big, byte, Bytes, Result, ok, err, or_raise, guard,
  index_error, ble_message_error, ◌>>=◌, ◌>>◌,
}
use aliro_actuator.Encryption.{AesGcm, EncryptionEngine}
use aliro_actuator.Encryption as Enc

pub record BleMessage : Type 0 where
  pub header : ℕ
  pub id : ℕ
  pub payload : Bytes

unfoldable pub from_bytes : Bytes → Result BleMessage
from_bytes input = do
  header ← or_raise index_error (get_elem? input 0)
  id ← or_raise index_error (get_elem? input 1)
  let size = from_bytes_big (slice 2 4 input)
  ok (record { header = header; id = id; payload = slice 4 (4 + size) input })

unfoldable pub to_bytes : BleMessage → Result Bytes
to_bytes m = do
  header ← byte m.header
  id ← byte m.id
  size ← to_bytes_big 2 (length m.payload)
  ok (header ++ (id ++ (size ++ m.payload)))

pub check_header_and_id : ℕ → ℕ → BleMessage → Result (Unit {0})
check_header_and_id header id m = do
  guard (m.header == header) ble_message_error
  guard (m.id == id) ble_message_error

-- the members of `ProtocolType`
abbrev pub ap : ℕ
ap = 0x00

abbrev pub uwb_ranging_service : ℕ
uwb_ranging_service = 0x01

abbrev pub notification : ℕ
notification = 0x02

abbrev pub supplementary_service : ℕ
supplementary_service = 0x03

abbrev pub third_party_app : ℕ
third_party_app = 0x04

-- the headers whose messages are encrypted
abbrev pub is_encrypted : ℕ → Bool
is_encrypted header =
    header == notification
    || header == uwb_ranging_service
    || header == supplementary_service
    || header == third_party_app

-- the additional data: header, id and the length of the plain payload
abbrev pub additional_data : BleMessage → ℕ → Result Bytes
additional_data m size = do
  header ← to_bytes_big 1 m.header
  id ← to_bytes_big 1 m.id
  size_bytes ← to_bytes_big 2 size
  ok (header ++ id ++ size_bytes)

-- the engine, where there is one, and the outcome
abbrev pub Outcome : Type 0 → Type 0
Outcome A = Option EncryptionEngine × Result A

abbrev sealed : BleMessage → EncryptionEngine × Result (Bytes × Bytes) → Outcome BleMessage
sealed m (e, ok (encrypted_payload, tag)) =
    (some e, ok (record m { payload = encrypted_payload ++ tag }))
sealed m (e, err x) = (some e, err x)

abbrev opened : BleMessage → EncryptionEngine × Result Bytes → Outcome BleMessage
opened m (e, ok plain) = (some e, ok (record m { payload = plain }))
opened m (e, err x) = (some e, err x)

abbrev with_data : {A : Type 0} → EncryptionEngine → Result Bytes → (Bytes → Outcome A) → Outcome A
with_data e (ok ad) f = f ad
with_data e (err x) f = (some e, err x)

module _ (aes : AesGcm) where
  unfoldable pub encrypt : Option EncryptionEngine → BleMessage → Outcome BleMessage
  encrypt none m = (none, ok m)
  encrypt (some e) m =
      if is_encrypted m.header
      then with_data e (additional_data m (length m.payload))
          (λ ad. sealed m (Enc.encrypt aes e m.payload ad))
      else (some e, ok m)

  unfoldable pub decrypt : Option EncryptionEngine → BleMessage → Outcome BleMessage
  decrypt none m = (none, ok m)
  decrypt (some e) m =
      if is_encrypted m.header
      then with_data e (additional_data m (length (drop_last 16 m.payload)))
          (λ ad. opened m (Enc.decrypt aes e (drop_last 16 m.payload) (take_last 16 m.payload) ad))
      else (some e, ok m)
