-- ===== src/Reader/Session.antt =====
-- The class `ReaderSession` of access_protocol/reader.py. An attribute that a session only gets later
-- is `none` before, and reading it then is an AttributeError.
pub mod Keys
pub mod Agreement
pub mod Channel
use aliro_actuator.Common.{
  ℕ, List, [], ◌∷◌, Option, none, some, Bool, ◌==◌, bit_and, get_elem?, length, ◌-◌, if◌then◌else◌,
  ltb, Bytes, Result, ok, err, or_raise, byte, attribute_error, index_error, session_error, ◌>>=◌,
}
use aliro_actuator.Tlv.{Tlv, BerTlv, get_bytes, to_bytes}
use aliro_actuator.Encryption.{EncryptionEngine}
use aliro_actuator.Apdu.Response.Parse.{SelectFields, Auth1Response}
use aliro_actuator.Trust.{PublicKey, KeyObject, KeyPair, Crypto, reader_identifier_of, verify}
use aliro_actuator.Trust.Authentication.{create_user_device_authentication}

pub record ReaderSession : Type 0 where
  pub reader_key : KeyPair
  pub reader_identifier : Bytes
  pub command_vendor_extension : Option Bytes
  pub response_vendor_extension : Option Tlv
  pub encryption_expedited : Option EncryptionEngine
  pub encryption_stepup : Option EncryptionEngine
  pub ble_encryption_engine : Option EncryptionEngine
  pub reader_system_issuer_ca : Option PublicKey
  pub reader_ephemeral : Option KeyPair
  pub transaction_identifier : Option Bytes
  pub select_info : Option SelectFields
  pub expedited_phase_supported_protocol_versions : Option (List ℕ)
  pub flag : Option Bytes
  pub credential_ephemeral_key : Option PublicKey
  pub credential_pubk : Option KeyObject
  pub received_cryptogram : Option Bytes
  pub private_mailbox_data : Option Bytes
  pub signaling_bitmap : Option Bytes
  pub credential_signed_timestamp : Option Bytes
  pub revocation_signed_timestamp : Option Bytes
  pub shared_key : Option Bytes
  pub expedited_sk_reader : Option Bytes
  pub expedited_sk_device : Option Bytes
  pub step_up_sk : Option Bytes
  pub ble_sk : Option Bytes
  pub ur_sk : Option Bytes
  pub cryptogram_sk : Option Bytes

-- `ReaderSession(reader_key, reader_identifier, vendor_extension, reader_system_issuer_ca)`
unfoldable pub init : KeyPair → Bytes → Option Bytes → Option PublicKey → Result ReaderSession
init reader_key identifier vendor_extension issuer = do
  reader_identifier ← reader_identifier_of identifier
  ok (record {
    reader_key = reader_key;
    reader_identifier = reader_identifier;
    command_vendor_extension = vendor_extension;
    response_vendor_extension = none;
    encryption_expedited = none;
    encryption_stepup = none;
    ble_encryption_engine = none;
    reader_system_issuer_ca = issuer;
    reader_ephemeral = none;
    transaction_identifier = none;
    select_info = none;
    expedited_phase_supported_protocol_versions = none;
    flag = none;
    credential_ephemeral_key = none;
    credential_pubk = none;
    received_cryptogram = none;
    private_mailbox_data = none;
    signaling_bitmap = none;
    credential_signed_timestamp = none;
    revocation_signed_timestamp = none;
    shared_key = none;
    expedited_sk_reader = none;
    expedited_sk_device = none;
    step_up_sk = none;
    ble_sk = none;
    ur_sk = none;
    cryptogram_sk = none;
  })

-- an attribute that has to be there
abbrev pub attribute : {A : Type 0} → Option A → Result A
attribute a = or_raise attribute_error a

-- The attribute is None after `__init__`, so that reading a method of it is an AttributeError too.
unfoldable pub get_reader_epubkey : ReaderSession → Result PublicKey
get_reader_epubkey s = do pair ← attribute s.reader_ephemeral; ok pair.public_key

-- the key of the issuer, and otherwise the reader's own
unfoldable pub get_reader_group_identifier_key : ReaderSession → PublicKey
get_reader_group_identifier_key s = elim s.reader_system_issuer_ca [
  | some key ↦ key
  | none ↦ s.reader_key.public_key
]

-- The setter takes one value only.
pub set_transaction_identifier : Bytes → ReaderSession → Result ReaderSession
set_transaction_identifier identifier s = elim s.transaction_identifier [
  | some _ ↦ err session_error
  | none ↦ ok (record s { transaction_identifier = some identifier })
]

abbrev newer {ℓ} : {A : Type ℓ} → Option A → Option A → Option A
newer (some a) old = some a
newer none old = old

-- The versions are there for the AID of the expedited phase only, and are kept otherwise.
pub set_select_info : SelectFields → ReaderSession → ReaderSession
set_select_info fields s = record s {
  select_info = some fields;
  expedited_phase_supported_protocol_versions =
      newer fields.versions s.expedited_phase_supported_protocol_versions;
}

-- The two numbers are members of enumerations, so that they are bytes.
abbrev pub set_flag : ℕ → ℕ → ReaderSession → ReaderSession
set_flag transaction policy s = record s { flag = some (transaction ∷ policy ∷ []) }

-- the three fields of a decrypted cryptogram, set one after the other
unfoldable pub set_cryptogram_info : Tlv → ReaderSession → ReaderSession × Result (Unit {0})
set_cryptogram_info d s = elim (get_bytes d 0x5e 0) [
  | err x ↦ (s, err x)
  | ok bitmap ↦
      let first : ReaderSession = record s { signaling_bitmap = some bitmap } in
      elim (get_bytes d 0x91 0) [
        | err x ↦ (first, err x)
        | ok credential ↦
            let second : ReaderSession = record first {
              credential_signed_timestamp = some credential;
            } in
            elim (get_bytes d 0x92 0) [
              | err x ↦ (second, err x)
              | ok revocation ↦
                  (record second { revocation_signed_timestamp = some revocation }, ok tt)
            ]
      ]
]

unfoldable pub set_auth1_info : Auth1Response → ReaderSession → ReaderSession
set_auth1_info info s = record s {
  private_mailbox_data = info.private_mailbox_data;
  signaling_bitmap = some info.signaling_bitmap;
  credential_signed_timestamp = info.credential_signed_timestamp;
  revocation_signed_timestamp = info.revocation_signed_timestamp;
}

-- `(self.signaling_bitmap[-1] & mask) == mask`
abbrev last_byte_has : ℕ → ReaderSession → Result Bool
last_byte_has mask s = do
  bitmap ← attribute s.signaling_bitmap
  last ←
      or_raise index_error
        (if ltb 0 (length bitmap) then get_elem? bitmap (length bitmap - 1) else none)
  ok (bit_and last mask == mask)

pub can_retrieve_access_credential : ReaderSession → Result Bool
can_retrieve_access_credential s = last_byte_has 0x01 s

pub can_retrieve_revocation_document : ReaderSession → Result Bool
can_retrieve_revocation_document s = last_byte_has 0x02 s

pub step_up_aid_select_required : ReaderSession → Result Bool
step_up_aid_select_required s = last_byte_has 0x04 s

module _ (crypto : Crypto) (ber : BerTlv) where
  -- whether the user device signed the identifiers and the ephemeral keys of this session
  unfoldable pub check_user_device_authentication : Bytes → ReaderSession → Result Bool
  check_user_device_authentication signature s = do
    epubk ← attribute s.credential_ephemeral_key
    reader_epubk ← get_reader_epubkey s
    transaction ← attribute s.transaction_identifier
    d ← create_user_device_authentication s.reader_identifier epubk reader_epubk transaction
    key ← attribute s.credential_pubk
    content ← to_bytes ber d
    ok (verify crypto key.key content signature)
