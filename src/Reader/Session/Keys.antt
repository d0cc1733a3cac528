-- ===== src/Reader/Session/Keys.antt =====
-- The derivation of the keys of a session, in the class `ReaderSession` of access_protocol/reader.py.
-- The words of the salts are those of the user device.
use aliro_actuator.Common.{
  ℕ, [], ◌++◌, Option, none, some, slice, to_bytes_big, Bytes, Result, ok, err, type_error,
  access_protocol_error, or_raise, List, ◌>>=◌,
}
use aliro_actuator.Tlv.{Tlv, BerTlv, to_bytes}
use aliro_actuator.Encryption.{EncryptionEngine, reader, create_salt}
use aliro_actuator.Encryption as Enc
use aliro_actuator.Apdu.Chain.{TransportProtocol}
use aliro_actuator.Trust.{Crypto, PublicKey}
use aliro_actuator.Device.Session.Keys.{
  volatile_word, volatile_fast_word, persistent_word, sk_reader_word, sk_device_word,
  extension_info, get_ble_encryption,
}
use aliro_actuator.Reader.Session.{
  ReaderSession, attribute, get_reader_epubkey, get_reader_group_identifier_key,
}

abbrev pub protocol_version : ℕ
protocol_version = 0x0100

-- The response's extension is kept as a TLV object, which has no length: `len` raises a TypeError.
abbrev tlv_info : Option Tlv → Result Bytes
tlv_info none = ok []
tlv_info (some d) = err type_error

-- the info of the three derivations
unfoldable pub key_info : ReaderSession → Result Bytes
key_info s = do
  epubk ← attribute s.credential_ephemeral_key
  x ← to_bytes_big 32 epubk.get_x
  command_info ← extension_info 0xb1 s.command_vendor_extension
  response_info ← tlv_info s.response_vendor_extension
  ok (x ++ (command_info ++ response_info))

module _ (ber : BerTlv) where
  -- the salt of the three derivations
  unfoldable pub key_salt : TransportProtocol → Bytes → ReaderSession → Option ℕ → Result Bytes
  key_salt transport word s credential_x = do
    epubk ← get_reader_epubkey s
    version_bytes ← to_bytes_big 2 protocol_version
    transaction ← attribute s.transaction_identifier
    flag ← attribute s.flag
    info ← attribute s.select_info
    info_bytes ← to_bytes ber info.proprietary_tlv
    create_salt transport word (get_reader_group_identifier_key s).get_x epubk.get_x
        s.reader_identifier version_bytes transaction flag info_bytes credential_x

module _ (crypto : Crypto) where
  unfoldable pub set_shared_key : ReaderSession → Result ReaderSession
  set_shared_key s = do
    pair ← attribute s.reader_ephemeral
    epubk ← attribute s.credential_ephemeral_key
    transaction ← attribute s.transaction_identifier
    ok (record s { shared_key = some (crypto.exchange pair.private_key epubk transaction) })

  unfoldable pub create_encryption_engine_expedited : ReaderSession → Result ReaderSession
  create_encryption_engine_expedited s = do
    sk_reader ← attribute s.expedited_sk_reader
    sk_device ← attribute s.expedited_sk_device
    ok (record s { encryption_expedited = some (Enc.init reader sk_reader sk_device) })

  unfoldable pub create_encryption_engine_stepup : ReaderSession → Result ReaderSession
  create_encryption_engine_stepup s = do
    sk ← attribute s.step_up_sk
    ok (record s {
      encryption_stepup = some (
          Enc.init reader (crypto.derive_key sk sk_reader_word 32 [])
            (crypto.derive_key sk sk_device_word 32 []));
    })

  -- `set_ble_encryption`, with what `get_ble_versions` of a BLEUWB answers
  unfoldable pub set_ble_encryption : Option (ℕ × List ℕ) → ReaderSession → Result ReaderSession
  set_ble_encryption versions s = do
    (selected, available) ← or_raise access_protocol_error versions
    sk ← attribute s.ble_sk
    engine ← get_ble_encryption crypto reader sk selected available
    ok (record s { ble_encryption_engine = some engine })

  -- the 160 bytes of the standard phase, cut into five keys
  unfoldable pub volatile_keys : Bytes → Bytes → Bytes → ReaderSession → ReaderSession
  volatile_keys shared info salt s =
      let derived = crypto.derive_key shared info 160 salt in
      record s {
        expedited_sk_reader = some (slice 0 32 derived);
        expedited_sk_device = some (slice 32 64 derived);
        step_up_sk = some (slice 64 96 derived);
        ble_sk = some (slice 96 128 derived);
        ur_sk = some (slice 128 160 derived);
      }

  module _ (ber : BerTlv) where
    unfoldable pub derive_key_volatile : TransportProtocol → ReaderSession → Result ReaderSession
    derive_key_volatile transport s = do
      info ← key_info s
      salt ← key_salt ber transport volatile_word s none
      shared ← attribute s.shared_key
      expedited ← create_encryption_engine_expedited (volatile_keys shared info salt s)
      create_encryption_engine_stepup expedited

    unfoldable pub derive_key_volatile_fast :
        TransportProtocol → PublicKey → Bytes → ReaderSession → Result ReaderSession
    derive_key_volatile_fast transport credential kpersistent s = do
      info ← key_info s
      salt ← key_salt ber transport volatile_fast_word s (some credential.get_x)
      let derived = crypto.derive_key kpersistent info 160 salt
      ok (record s {
        cryptogram_sk = some (slice 0 32 derived);
        expedited_sk_reader = some (slice 32 64 derived);
        expedited_sk_device = some (slice 64 96 derived);
        ble_sk = some (slice 96 128 derived);
        ur_sk = some (slice 128 160 derived);
      })

    unfoldable pub derive_key_persistent :
        TransportProtocol → PublicKey → ReaderSession → Result Bytes
    derive_key_persistent transport credential s = do
      info ← key_info s
      salt ← key_salt ber transport persistent_word s (some credential.get_x)
      shared ← attribute s.shared_key
      ok (slice 0 32 (crypto.derive_key shared info 32 salt))
