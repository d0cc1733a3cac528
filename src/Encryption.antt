-- ===== src/Encryption.antt =====
-- The class `EncryptionEngine` of access_protocol/encryption.py, and the functions beside it for the
-- salt, the proprietary information and the cryptogram. The logging is left out.
pub mod Tests
pub mod Nonces
pub mod Exchange
mod Cryptogram
use aliro_actuator.Common.{
  ℕ, zero, suc, ◌+◌, ◌≡◌, List, [], ◌∷◌, ◌++◌, Option, none, some, Bool, true, false, not, ◌==◌,
  ◌||◌, ltb, leb, if◌then◌else◌, length, replicate, to_bytes_big, byte, Bytes, Result, ok, err,
  guard, value_error, unbound_local_error, verification_error, ◌>>=◌, ◌>>◌,
}
use aliro_actuator.Tlv.{Tlv, nil, element, bytes, tlv, add_value, BerTlv, to_bytes}
use aliro_actuator.Apdu.Chain.{TransportProtocol, nfc, ble_uwb, socket_nfc, socket_ble}

-- AES in GCM mode of the package `Crypto`: which lengths of a key `AES.new` takes (it raises a
-- ValueError on others), `update` and `encrypt_and_digest`, `update` and `decrypt`, and `verify`. The
-- arguments of the operations are the key, the nonce, the additional data, and the text.
pub record AesGcm : Type 0 where
  pub accepts : ℕ → Bool
  pub encrypt_and_digest : Bytes → Bytes → Bytes → Bytes → Bytes × Bytes
  pub decrypt : Bytes → Bytes → Bytes → Bytes → Bytes
  pub verify : Bytes → Bytes → Bytes → Bytes → Bytes → Bool

-- What is documented of the mode: with the key, the nonce and the additional data of the sender, a
-- ciphertext is decrypted to the text and its tag is verified; the ciphertext is as long as the text,
-- and the tag has 16 bytes.
pub record IsAesGcm (aes : AesGcm) : Type 0 where
  pub decrypts :
      (key nonce ad text : Bytes)
      → aes.decrypt key nonce ad (aes.encrypt_and_digest key nonce ad text).0 ≡ text
  pub verifies :
      (key nonce ad text : Bytes)
      → aes.verify key nonce ad
          (aes.encrypt_and_digest key nonce ad text).0
          (aes.encrypt_and_digest key nonce ad text).1
        ≡ true
  pub text_length :
      (key nonce ad text : Bytes)
      → length (aes.encrypt_and_digest key nonce ad text).0 ≡ length text
  pub tag_length :
      (key nonce ad text : Bytes) → length (aes.encrypt_and_digest key nonce ad text).1 ≡ 16

pub data DeviceType : Type 0 where
  reader user : DeviceType

pub record EncryptionEngine : Type 0 where
  pub encryption_counter : ℕ
  pub decryption_counter : ℕ
  pub encryption_key : Bytes
  pub decryption_key : Bytes
  pub encryption_iv_pt1 : Bytes
  pub decryption_iv_pt1 : Bytes

abbrev reader_iv : Bytes
reader_iv = 0 ∷ 0 ∷ 0 ∷ 0 ∷ 0 ∷ 0 ∷ 0 ∷ 0 ∷ []

abbrev user_iv : Bytes
user_iv = 0 ∷ 0 ∷ 0 ∷ 0 ∷ 0 ∷ 0 ∷ 0 ∷ 1 ∷ []

-- `EncryptionEngine(devicetype, sk_reader, sk_device)`
abbrev pub init : DeviceType → Bytes → Bytes → EncryptionEngine
init reader sk_reader sk_device = record {
  encryption_counter = 0x01;
  decryption_counter = 0x01;
  encryption_key = sk_reader;
  decryption_key = sk_device;
  encryption_iv_pt1 = reader_iv;
  decryption_iv_pt1 = user_iv;
}
init user sk_reader sk_device = record {
  encryption_counter = 0x01;
  decryption_counter = 0x01;
  encryption_key = sk_device;
  decryption_key = sk_reader;
  encryption_iv_pt1 = user_iv;
  decryption_iv_pt1 = reader_iv;
}

pub check_counters_valid : EncryptionEngine → Bool
check_counters_valid e =
    if leb 0xffff e.encryption_counter then false else not (leb 0xffff e.decryption_counter)

-- the nonces of the next encryption and of the next decryption
abbrev pub encryption_iv : EncryptionEngine → Result Bytes
encryption_iv e = do
  counter ← to_bytes_big 4 e.encryption_counter
  ok (e.encryption_iv_pt1 ++ counter)

abbrev pub decryption_iv : EncryptionEngine → Result Bytes
decryption_iv e = do
  counter ← to_bytes_big 4 e.decryption_counter
  ok (e.decryption_iv_pt1 ++ counter)

-- what an operation leaves behind: the engine, and what it returns or raises
abbrev stays {ℓ} :
    {A : Type ℓ}
    → EncryptionEngine
    → Result (EncryptionEngine × Result A)
    → EncryptionEngine × Result A
stays e (ok (e', r)) = (e', r)
stays e (err x) = (e, err x)

module _ (aes : AesGcm) where
  -- Where there is an exception, the counter stays.
  pub encrypt : EncryptionEngine → Bytes → Bytes → EncryptionEngine × Result (Bytes × Bytes)
  encrypt e data' ad = stays e (do
    iv ← encryption_iv e
    guard (aes.accepts (length e.encryption_key)) value_error
    ok (
      record e { encryption_counter = e.encryption_counter + 1 },
      ok (aes.encrypt_and_digest e.encryption_key iv ad data'),
    ))

  -- A tag that is not verified moves the counter too.
  unfoldable pub decrypt :
      EncryptionEngine → Bytes → Bytes → Bytes → EncryptionEngine × Result Bytes
  decrypt e ciphertext authentication_tag ad = stays e (do
    iv ← decryption_iv e
    guard (aes.accepts (length e.decryption_key)) value_error
    ok (
      record e { decryption_counter = e.decryption_counter + 1 },
      (if aes.verify e.decryption_key iv ad ciphertext authentication_tag
          then ok (aes.decrypt e.decryption_key iv ad ciphertext)
          else err verification_error),
    ))

abbrev interface_byte : TransportProtocol → ℕ
interface_byte ble_uwb = 0xc3
interface_byte socket_ble = 0xc3
interface_byte nfc = 0x5e
interface_byte socket_nfc = 0x5e

abbrev key_bytes : Option ℕ → Result Bytes
key_bytes none = ok []
key_bytes (some x) = to_bytes_big 32 x

-- The public keys are given by their x coordinates, `get_x()`.
unfoldable pub create_salt :
    TransportProtocol
    → Bytes
    → ℕ
    → ℕ
    → Bytes
    → Bytes
    → Bytes
    → Bytes
    → Bytes
    → Option ℕ
    → Result Bytes
create_salt transport_protocol word reader_public_key reader_ephemeral_public_key reader_identifier
      protocol_version transaction_identifier flag proprietary_information credential_public_key =
    do
      reader_x ← to_bytes_big 32 reader_public_key
      ephemeral_x ← to_bytes_big 32 reader_ephemeral_public_key
      info_length ← byte (length proprietary_information)
      credential_x ← key_bytes credential_public_key
      ok (
          reader_x
          ++ word
          ++ reader_identifier
          ++ (interface_byte transport_protocol ∷ 0x5c ∷ 0x02 ∷ [])
          ++ protocol_version
          ++ ephemeral_x
          ++ transaction_identifier
          ++ flag
          ++ ((0xa5 ∷ info_length) ++ proprietary_information)
          ++ credential_x)

abbrev version_bytes : List ℕ → Result Bytes
version_bytes [] = ok []
version_bytes (value ∷ values) = do
  first ← to_bytes_big 2 value
  rest ← version_bytes values
  ok (first ++ rest)

abbrev with_extended_length : Option ℕ → Option ℕ → Tlv → Result Tlv
with_extended_length (some command) (some response) d = do
  command_bytes ← to_bytes_big 2 command
  response_bytes ← to_bytes_big 2 response
  ok (
      add_value 0x7f66
        (tlv (element 0x02 (bytes command_bytes) (element 0x02 (bytes response_bytes) nil))) d)
with_extended_length _ _ d = ok d

abbrev with_vendor_specific : Option Tlv → Tlv → Tlv
with_vendor_specific none d = d
with_vendor_specific (some v) d = add_value 0xb3 (tlv v) d

unfoldable pub create_proprietary_information :
    ℕ → List ℕ → Option ℕ → Option ℕ → Option Tlv → Result Tlv
create_proprietary_information type versions maximum_command_apdu maximum_response_apdu vendor = do
  etspv_bytes ← version_bytes versions
  type_bytes ← to_bytes_big 2 type
  d ←
      with_extended_length maximum_command_apdu maximum_response_apdu
        (element 0x80 (bytes type_bytes) (element 0x5c (bytes etspv_bytes) nil))
  ok (with_vendor_specific vendor d)

abbrev or_zeros : Option Bytes → Bytes
or_zeros none = replicate 20 0x00
or_zeros (some b) = b

abbrev zero_nonce : Bytes
zero_nonce = replicate 12 0x00

abbrev pub cryptogram_tlv : Bytes → Option Bytes → Option Bytes → Tlv
cryptogram_tlv signaling_bitmap credential revocation =
    element 0x5e (bytes signaling_bitmap)
      (element 0x91 (bytes (or_zeros credential)) (element 0x92 (bytes (or_zeros revocation)) nil))

module _ (aes : AesGcm) (ber : BerTlv) where
  pub compute_cryptogram : Bytes → Bytes → Option Bytes → Option Bytes → Result Bytes
  compute_cryptogram cryptogram_sk signaling_bitmap credential revocation = do
    guard
        (not (
          not (length (or_zeros credential) == 20)
          || not (length (or_zeros revocation) == 20)
          || not (length signaling_bitmap == 2)))
        value_error
    plain_payload ← to_bytes ber (cryptogram_tlv signaling_bitmap credential revocation)
    guard (aes.accepts (length cryptogram_sk)) value_error
    let sealed = aes.encrypt_and_digest cryptogram_sk zero_nonce [] plain_payload
    ok (sealed.0 ++ sealed.1)

module _ (aes : AesGcm) where
  unfoldable pub decrypt_cryptogram : Bytes → Bytes → Bytes → Result Bytes
  decrypt_cryptogram cryptogram_sk cryptogram authentication_tag = do
    guard (aes.accepts (length cryptogram_sk)) value_error
    guard (aes.verify cryptogram_sk zero_nonce [] cryptogram authentication_tag) verification_error
    ok (aes.decrypt cryptogram_sk zero_nonce [] cryptogram)
