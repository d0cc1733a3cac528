-- ===== src/Ble/Tests.antt =====
-- Bluetooth messages on small inputs.
use aliro_actuator.Common.{◌≡◌, refl, List, [], ◌∷◌, none, some, replicate, ok, arith}
use aliro_actuator.Encryption.{init, reader, user}
use aliro_actuator.Encryption.Tests.{clear, clear-IsAesGcm}
use aliro_actuator.Ble.Attribute.{BleAttribute, new_attribute}
use aliro_actuator.Ble.Attribute as Attribute
use aliro_actuator.Ble.Message.{BleMessage, encrypt, decrypt}
use aliro_actuator.Ble.Message as Message
use aliro_actuator.Ble.Create.{
  Field, number, raw, payload_of, field_attribute, create_ranging_session_setup_m4,
}
use aliro_actuator.Ble.Parse.{read_attributes, attributes, parse_uwb_ranging_service_payload}
use aliro_actuator.Ble.Laws.{message_from_bytes-to_bytes, read_attributes-payload_of, attributes_of}
use aliro_actuator.Ble.Setup.{m4_fields, parse-create_ranging_session_setup_m4}
use aliro_actuator.Ble.Secure.{decrypt-encrypt}

abbrev suspend : BleMessage
suspend = record { header = 1; id = 4; payload = 2 ∷ 4 ∷ 0 ∷ 0 ∷ 1 ∷ 2 ∷ [] }

message_from_bytes-to_bytes_example :
    Message.from_bytes (1 ∷ 4 ∷ 0 ∷ 6 ∷ 2 ∷ 4 ∷ 0 ∷ 0 ∷ 1 ∷ 2 ∷ 5 ∷ []) ≡ ok suspend
unfolding Message.to_bytes
message_from_bytes-to_bytes_example = message_from_bytes-to_bytes suspend (5 ∷ []) refl

abbrev two_fields : List Field
two_fields = number 0x0c 4 258 ∷ raw 0x0d (9 ∷ []) ∷ []

read_attributes-payload_of_example :
    read_attributes (5 ∷ 0x0c ∷ 4 ∷ 0 ∷ 0 ∷ 1 ∷ 2 ∷ 0x0d ∷ 1 ∷ 9 ∷ 6 ∷ []) 1 (0x0c ∷ 0x0d ∷ [])
    ≡ ok (attributes_of two_fields, 10)
unfolding payload_of field_attribute Attribute.to_bytes
read_attributes-payload_of_example =
    read_attributes-payload_of two_fields (5 ∷ []) (6 ∷ []) (omega arith, (omega arith, tt)) refl

decrypt-encrypt_example :
    (m' : BleMessage) × ((encrypt clear
        (some (init reader (replicate 32 1) (replicate 32 2)))
        suspend).1
      ≡ ok m')
    × ((decrypt clear (some (init user (replicate 32 1) (replicate 32 2))) m').1 ≡ ok suspend)
decrypt-encrypt_example =
    decrypt-encrypt clear clear-IsAesGcm (init reader (replicate 32 1) (replicate 32 2))
      (init user (replicate 32 1) (replicate 32 2)) suspend
      (record { same_key = refl; same_iv = refl; same_counter = refl; accepted = refl })
      (omega arith) refl

abbrev m4 : BleMessage
m4 = record {
  header = 1;
  id = 3;
  payload = 0x0c ∷ 4 ∷ 0 ∷ 0 ∷ 1 ∷ 2 ∷ 0x0d ∷ 1 ∷ 9 ∷ 0x0e ∷ 4 ∷ 0 ∷ 0 ∷ 0 ∷ 3 ∷ 0x07 ∷ 1 ∷ 11 ∷ [];
}

parse-create_ranging_session_setup_m4_example :
    (m4.header ≡ 0x01)
    × (m4.id ≡ 0x03)
    × (parse_uwb_ranging_service_payload 3 m4.payload
        ≡ ok (attributes (attributes_of (m4_fields 258 (9 ∷ []) 3 11)) none))
unfolding create_ranging_session_setup_m4 encrypt payload_of field_attribute Attribute.to_bytes
parse-create_ranging_session_setup_m4_example =
    parse-create_ranging_session_setup_m4 clear 258 (9 ∷ []) 3 11 (omega arith) refl
