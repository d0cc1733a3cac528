-- ===== src/Ble/Create.antt =====
-- The `create_...` methods of `BleMessage`. An attribute is written for each field, in order.
use aliro_actuator.Common.{
  ℕ, ◌*◌, List, [], ◌∷◌, ◌++◌, Option, none, some, Bool, if◌then◌else◌, to_bytes_big, byte, Bytes,
  Result, ok, err, ◌>>=◌,
}
use aliro_actuator.Encryption.{AesGcm, EncryptionEngine}
use aliro_actuator.Ble.Attribute.{BleAttribute, new_attribute}
use aliro_actuator.Ble.Attribute as Attribute
use aliro_actuator.Ble.Message.{
  BleMessage, encrypt, Outcome, notification, uwb_ranging_service, supplementary_service,
}

-- `BleAttribute(tag, n.to_bytes(width, "big"))`, or `BleAttribute(tag, value)`
pub data Field : Type 0 where
  number : ℕ → ℕ → ℕ → Field
  raw : ℕ → Bytes → Field

unfoldable pub field_attribute : Field → Result BleAttribute
field_attribute (number tag width n) = do
  value ← to_bytes_big width n
  ok (new_attribute tag (some value))
field_attribute (raw tag value) = ok (new_attribute tag (some value))

-- the payload of some attributes
unfoldable pub payload_of : List Field → Result Bytes
payload_of [] = ok []
payload_of (f ∷ fs) = do
  a ← field_attribute f
  first ← Attribute.to_bytes a
  rest ← payload_of fs
  ok (first ++ rest)

module _ (aes : AesGcm) where
  abbrev pub create : ℕ → ℕ → Option EncryptionEngine → Result Bytes → Outcome BleMessage
  create header id ble_encryption (err x) = (ble_encryption, err x)
  create header id ble_encryption (ok payload) =
      encrypt aes ble_encryption (record { header = header; id = id; payload = payload })

  unfoldable pub create_reader_status_changed : ℕ → ℕ → Option EncryptionEngine → Outcome BleMessage
  create_reader_status_changed operation_source status e = create notification 0x02 e (do
    source_byte ← byte operation_source
    status_byte ← byte status
    payload_of (raw 0x00 (source_byte ++ status_byte) ∷ []))

  unfoldable pub create_access_protocol_completed :
      ℕ → ℕ → Option EncryptionEngine → Outcome BleMessage
  create_access_protocol_completed unsolicited status e = create notification 0x03 e (do
    reporting_byte ← byte (unsolicited * 32)
    status_byte ← byte status
    payload_of (raw 0x00 (reporting_byte ++ status_byte) ∷ []))

  unfoldable pub create_initiate_access_protocol :
      Bytes → Bool → Option EncryptionEngine → Outcome BleMessage
  create_initiate_access_protocol proprietary_info rke e =
      create notification (if rke then 0x06 else 0x05) e
        (payload_of (raw 0x00 proprietary_info ∷ []))

  unfoldable pub create_rke_request : Bytes → Option EncryptionEngine → Outcome BleMessage
  create_rke_request action e = create notification 0x04 e (payload_of (raw 0x00 action ∷ []))

  unfoldable pub create_error_event_message : ℕ → Option EncryptionEngine → Outcome BleMessage
  create_error_event_message errorcode e =
      create notification 0x00 e (payload_of (number 0x01 1 errorcode ∷ []))

  unfoldable pub create_busy_event_message : Option EncryptionEngine → Outcome BleMessage
  create_busy_event_message e =
      create notification 0x00 e (Attribute.to_bytes (new_attribute 0x00 none))

  unfoldable pub create_initiate_ranging_session : Option EncryptionEngine → Outcome BleMessage
  create_initiate_ranging_session e =
      create notification 0x01 e (Attribute.to_bytes (new_attribute 0x00 none))

  unfoldable pub create_ranging_message_resume : Option EncryptionEngine → Outcome BleMessage
  create_ranging_message_resume e =
      create notification 0x01 e (Attribute.to_bytes (new_attribute 0x01 none))

  unfoldable pub create_ranging_messsage_suspended : Option EncryptionEngine → Outcome BleMessage
  create_ranging_messsage_suspended e =
      create notification 0x01 e (Attribute.to_bytes (new_attribute 0x05 none))

  unfoldable pub create_time_sync :
      ℕ → Bytes → ℕ → ℕ → ℕ → ℕ → ℕ → Option EncryptionEngine → Outcome BleMessage
  create_time_sync event_count dev_time uncertainty skew max_ppm success retry_delay e =
      create supplementary_service 0 e (
        payload_of (
          number 0 8 event_count
          ∷ raw 1 dev_time
          ∷ number 2 1 uncertainty
          ∷ number 3 1 skew
          ∷ number 4 2 max_ppm
          ∷ number 5 1 success
          ∷ number 6 2 retry_delay
          ∷ []))

  unfoldable pub create_ranging_session_setup_m1 :
      ℕ → ℕ → ℕ → ℕ → ℕ → Option EncryptionEngine → Outcome BleMessage
  create_ranging_session_setup_m1 configuration_id pulse_shape channel session_id vendor e =
      create uwb_ranging_service 0x00 e (
        payload_of (
          number 0x00 2 configuration_id
          ∷ number 0x01 3 pulse_shape
          ∷ number 0x03 1 channel
          ∷ number 0x02 4 session_id
          ∷ number 0x10 3 vendor
          ∷ []))

  unfoldable pub create_ranging_session_setup_m2 :
      ℕ → ℕ → ℕ → ℕ → ℕ → ℕ → ℕ → ℕ → Option EncryptionEngine → Outcome BleMessage
  create_ranging_session_setup_m2 configuration_id pulse_shape channel sync_code ran slot hopping
        vendor e =
      create uwb_ranging_service 0x01 e (
        payload_of (
          number 0x00 2 configuration_id
          ∷ number 0x01 1 pulse_shape
          ∷ number 0x03 1 channel
          ∷ number 0x06 4 sync_code
          ∷ number 0x04 1 ran
          ∷ number 0x05 1 slot
          ∷ number 0x08 1 hopping
          ∷ number 0x10 3 vendor
          ∷ []))

  unfoldable pub create_ranging_session_setup_m3 :
      ℕ → ℕ → ℕ → ℕ → ℕ → ℕ → ℕ → ℕ → Option EncryptionEngine → Outcome BleMessage
  create_ranging_session_setup_m3 ran chaps responders slots sync_code hopping mac_mode vendor e =
      create uwb_ranging_service 0x02 e (
        payload_of (
          number 0x04 1 ran
          ∷ number 0x09 1 chaps
          ∷ number 0x0a 1 responders
          ∷ number 0x0b 1 slots
          ∷ number 0x06 4 sync_code
          ∷ number 0x08 1 hopping
          ∷ number 0x0f 1 mac_mode
          ∷ number 0x10 3 vendor
          ∷ []))

  unfoldable pub create_ranging_session_setup_m4 :
      ℕ → Bytes → ℕ → ℕ → Option EncryptionEngine → Outcome BleMessage
  create_ranging_session_setup_m4 sts_index0 uwb_time0 hop_mode_key sync_code_index e =
      create uwb_ranging_service 0x03 e (
        payload_of (
          number 0x0c 4 sts_index0
          ∷ raw 0x0d uwb_time0
          ∷ number 0x0e 4 hop_mode_key
          ∷ number 0x07 1 sync_code_index
          ∷ []))

  unfoldable pub create_ranging_session_suspend_request :
      ℕ → Option EncryptionEngine → Outcome BleMessage
  create_ranging_session_suspend_request session_id e =
      create uwb_ranging_service 0x04 e (payload_of (number 0x02 4 session_id ∷ []))

  unfoldable pub create_ranging_session_suspend_response :
      ℕ → Option EncryptionEngine → Outcome BleMessage
  create_ranging_session_suspend_response status e =
      create uwb_ranging_service 0x05 e (payload_of (number 0x11 1 status ∷ []))

  unfoldable pub create_ranging_session_resume_request :
      ℕ → Option EncryptionEngine → Outcome BleMessage
  create_ranging_session_resume_request session_id e =
      create uwb_ranging_service 0x06 e (payload_of (number 0x02 4 session_id ∷ []))

  unfoldable pub create_ranging_session_resume_response :
      ℕ → Bytes → Option EncryptionEngine → Outcome BleMessage
  create_ranging_session_resume_response sts_index0 uwb_time0 e =
      create uwb_ranging_service 0x07 e
        (payload_of (number 0x0c 4 sts_index0 ∷ raw 0x0d uwb_time0 ∷ []))
