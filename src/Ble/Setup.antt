-- ===== src/Ble/Setup.antt =====
-- The messages of transport_protocol/ble_message_format.py that set up a ranging session, from the
-- sender to the receiver, without encryption.
use aliro_actuator.Common.{
  ℕ, ◌+◌, ◌≡◌, ◌<◌, refl, subst, List, [], ◌∷◌, none, le→ltb_false, length, append-nil, All, Bytes,
  ok, arith, Result-cases, inl, inr,
}
use aliro_actuator.Encryption.{AesGcm}
use aliro_actuator.Ble.Message.{BleMessage, encrypt}
use aliro_actuator.Ble.Create.{Field, number, raw, payload_of, create_ranging_session_setup_m4}
use aliro_actuator.Ble.Parse.{
  attributes, parse_setup, read_attributes, parse_uwb_ranging_service_payload,
}
use aliro_actuator.Ble.Laws.{attributes_of, tags_of, field_value, read_attributes-payload_of}

parse_setup-payload_of :
    (fs : List Field) {p : Bytes}
    → All (λ f. 0 < length (field_value f)) fs
    → payload_of fs ≡ ok p
    → parse_setup (tags_of fs) p ≡ ok (attributes (attributes_of fs) none)
unfolding parse_setup
parse_setup-payload_of fs {p} h e =
    let read : read_attributes p 0 (tags_of fs) ≡ ok (attributes_of fs, 0 + length p) =
      subst (λ (b : Bytes). read_attributes b 0 (tags_of fs) ≡ ok (attributes_of fs, 0 + length p))
        (append-nil p) (read_attributes-payload_of fs [] [] h e) in
    rw (read, le→ltb_false (0 + length p) (length p) (omega arith)) refl

-- The fields of message M4.
abbrev pub m4_fields : ℕ → Bytes → ℕ → ℕ → List Field
m4_fields sts_index0 uwb_time0 hop_mode_key sync_code_index =
    number 0x0c 4 sts_index0
    ∷ raw 0x0d uwb_time0
    ∷ number 0x0e 4 hop_mode_key
    ∷ number 0x07 1 sync_code_index
    ∷ []

-- Message M4, where it is created without encryption and with a time of at least one byte, has the
-- header and the id of M4, and its payload is parsed to the four fields that were given, with no
-- vendor specific attribute.
pub parse-create_ranging_session_setup_m4 :
    (aes : AesGcm) (sts_index0 : ℕ) (uwb_time0 : Bytes) (hop_mode_key sync_code_index : ℕ)
    {m : BleMessage}
    → 0 < length uwb_time0
    → (create_ranging_session_setup_m4 aes sts_index0 uwb_time0 hop_mode_key sync_code_index none).1
      ≡ ok m
    → (m.header ≡ 0x01)
      × (m.id ≡ 0x03)
      × (parse_uwb_ranging_service_payload m.id m.payload
          ≡ ok (
              attributes
                (attributes_of (m4_fields sts_index0 uwb_time0 hop_mode_key sync_code_index))
                none))
unfolding create_ranging_session_setup_m4 encrypt parse_uwb_ranging_service_payload
parse-create_ranging_session_setup_m4 aes sts_index0 uwb_time0 hop_mode_key sync_code_index {m} h
      e =
    elim (Result-cases (payload_of (m4_fields sts_index0 uwb_time0 hop_mode_key sync_code_index))) [
      | inr (x, f) ↦ absurd (cc (rw f at e))
      | inl (p, f) ↦
          let same : record { header = 0x01; id = 0x03; payload = p } ≡ m = cc (rw f at e) in
          let parsed =
            parse_setup-payload_of (m4_fields sts_index0 uwb_time0 hop_mode_key sync_code_index)
              (omega arith, (h, (omega arith, (omega arith, tt)))) f in
          rw (← same) (refl, refl, parsed)
    ]
