-- ===== src/Device/Session/Keys.antt =====
-- The derivation of the keys of a session, in the class `UserSession` of
-- access_protocol/user_device.py, and `get_ble_encryption` of transport_protocol/ble_encryption.py.
use aliro_actuator.Common.{
  ℕ, List, [], ◌∷◌, ◌++◌, Option, none, some, length, slice, to_bytes_big, byte, Bytes, Result, ok,
  ◌>>=◌,
}
use aliro_actuator.Tlv.{BerTlv, to_bytes}
use aliro_actuator.Encryption.{
  EncryptionEngine, DeviceType, user, create_salt, create_proprietary_information,
}
use aliro_actuator.Encryption as Enc
use aliro_actuator.Apdu.Chain.{TransportProtocol}
use aliro_actuator.Trust.{Crypto}
use aliro_actuator.Device.Session.{UserSession, attribute, get_reader_group_identifier_key}

abbrev pub volatile_word : Bytes
volatile_word =
    0x56 ∷ 0x6f ∷ 0x6c ∷ 0x61 ∷ 0x74 ∷ 0x69 ∷ 0x6c ∷ 0x65 ∷ 0x2a ∷ 0x2a ∷ 0x2a ∷ 0x2a ∷ []

abbrev pub volatile_fast_word : Bytes
volatile_fast_word =
    0x56 ∷ 0x6f ∷ 0x6c ∷ 0x61 ∷ 0x74 ∷ 0x69 ∷ 0x6c ∷ 0x65 ∷ 0x46 ∷ 0x61 ∷ 0x73 ∷ 0x74 ∷ []

abbrev pub persistent_word : Bytes
persistent_word =
    0x50 ∷ 0x65 ∷ 0x72 ∷ 0x73 ∷ 0x69 ∷ 0x73 ∷ 0x74 ∷ 0x65 ∷ 0x6e ∷ 0x74 ∷ 0x2a ∷ 0x2a ∷ []

-- the text SKReader and the text SKDevice
abbrev pub sk_reader_word : Bytes
sk_reader_word = 0x53 ∷ 0x4b ∷ 0x52 ∷ 0x65 ∷ 0x61 ∷ 0x64 ∷ 0x65 ∷ 0x72 ∷ []

abbrev pub sk_device_word : Bytes
sk_device_word = 0x53 ∷ 0x4b ∷ 0x44 ∷ 0x65 ∷ 0x76 ∷ 0x69 ∷ 0x63 ∷ 0x65 ∷ []

abbrev ble_word : Bytes → Bytes
ble_word word = 0x42 ∷ 0x6c ∷ 0x65 ∷ word

abbrev pub extension_info : ℕ → Option Bytes → Result Bytes
extension_info tag none = ok []
extension_info tag (some extension) = do
  size ← byte (length extension)
  ok (tag ∷ size ++ extension)

-- the info of the three derivations
unfoldable pub key_info : UserSession → Result Bytes
key_info s = do
  pair ← attribute s.credential_ephemeral
  x ← to_bytes_big 32 pair.public_key.get_x
  command_info ← extension_info 0xb1 s.command_vendor_extension
  response_info ← extension_info 0xb2 s.response_vendor_extension
  ok (x ++ (command_info ++ response_info))

module _ (ber : BerTlv) where
  -- the salt of the three derivations
  unfoldable pub key_salt : TransportProtocol → Bytes → UserSession → Option ℕ → Result Bytes
  key_salt transport word s credential_x = do
    info ←
        create_proprietary_information 0x0000 s.supported_versions s.maximum_command_apdu
          s.maximum_response_apdu s.select_vendor_tlv
    info_bytes ← to_bytes ber info
    reader_key ← get_reader_group_identifier_key s
    epubk ← attribute s.reader_epubk
    identifier ← attribute s.reader_identifier
    version ← attribute s.expedited_phase_protocol_version
    version_bytes ← to_bytes_big 2 version
    transaction ← attribute s.transaction_identifier
    parameters ← attribute s.command_parameters
    policy ← attribute s.authentication_policy
    first ← byte parameters
    second ← byte policy
    create_salt transport word reader_key.get_x epubk.get_x identifier version_bytes transaction
        (first ++ second) info_bytes credential_x

module _ (crypto : Crypto) where
  unfoldable pub set_shared_key : UserSession → Result UserSession
  set_shared_key s = do
    pair ← attribute s.credential_ephemeral
    epubk ← attribute s.reader_epubk
    transaction ← attribute s.transaction_identifier
    ok (record s { shared_key = some (crypto.exchange pair.private_key epubk transaction) })

  unfoldable pub create_encryption_engine_expedited : UserSession → Result UserSession
  create_encryption_engine_expedited s = do
    sk_reader ← attribute s.expedited_sk_reader
    sk_device ← attribute s.expedited_sk_device
    ok (record s { encryption_expedited = some (Enc.init user sk_reader sk_device) })

  unfoldable pub create_encryption_engine_stepup : UserSession → Result UserSession
  create_encryption_engine_stepup s = do
    sk ← attribute s.step_up_sk
    ok (record s {
      encryption_stepup = some (
          Enc.init user (crypto.derive_key sk sk_reader_word 32 [])
            (crypto.derive_key sk sk_device_word 32 []));
    })

  module _ (ber : BerTlv) where
    -- the 160 bytes and their five parts
    unfoldable pub derive_key_volatile : TransportProtocol → UserSession → Result UserSession
    derive_key_volatile transport s = do
      info ← key_info s
      salt ← key_salt ber transport volatile_word s none
      shared ← attribute s.shared_key
      let derived = crypto.derive_key shared info 160 salt
      expedited ← create_encryption_engine_expedited (record s {
        expedited_sk_reader = some (slice 0 32 derived);
        expedited_sk_device = some (slice 32 64 derived);
        step_up_sk = some (slice 64 96 derived);
        ble_sk = some (slice 96 128 derived);
        ur_sk = some (slice 128 160 derived);
      })
      create_encryption_engine_stepup expedited

    unfoldable pub derive_key_volatile_fast :
        TransportProtocol → Bytes → UserSession → Result UserSession
    derive_key_volatile_fast transport kpersistent s = do
      info ← key_info s
      credential ← attribute s.access_credential
      salt ←
          key_salt ber transport volatile_fast_word s
            (some credential.access_credential_key_pair.public_key.get_x)
      let derived = crypto.derive_key kpersistent info 160 salt
      ok (record s {
        cryptogram_sk = some (slice 0 32 derived);
        expedited_sk_reader = some (slice 32 64 derived);
        expedited_sk_device = some (slice 64 96 derived);
        ble_sk = some (slice 96 128 derived);
        ur_sk = some (slice 128 160 derived);
      })

    unfoldable pub derive_key_persistent : TransportProtocol → UserSession → Result Bytes
    derive_key_persistent transport s = do
      info ← key_info s
      credential ← attribute s.access_credential
      salt ←
          key_salt ber transport persistent_word s
            (some credential.access_credential_key_pair.public_key.get_x)
      shared ← attribute s.shared_key
      ok (slice 0 32 (crypto.derive_key shared info 32 salt))

  abbrev versions_bytes : List ℕ → Result Bytes
  versions_bytes [] = ok []
  versions_bytes (v ∷ vs) = do
    first ← to_bytes_big 2 v
    rest ← versions_bytes vs
    ok (first ++ rest)

  pub get_ble_encryption : DeviceType → Bytes → ℕ → List ℕ → Result EncryptionEngine
  get_ble_encryption device_type ble_sk selected supported = do
    supported_bytes ← versions_bytes supported
    selected_bytes ← to_bytes_big 2 selected
    let salt = supported_bytes ++ selected_bytes
    ok (
        Enc.init device_type (crypto.derive_key ble_sk (ble_word sk_reader_word) 32 salt)
          (crypto.derive_key ble_sk (ble_word sk_device_word) 32 salt))
