-- ===== src/Reader/Session/Agreement.antt =====
-- The keys that a session of the reader and a session of the user device derive
-- (access_protocol/reader.py and access_protocol/user_device.py) after AUTH0.
use aliro_actuator.Common.{
  ℕ, ◌<◌, ◌≡◌, refl, [], ◌∷◌, Option, none, some, lt→ltb, Bytes, Result, ok, ◌>>=◌, byte, slice,
}
use aliro_actuator.Tlv.{BerTlv}
use aliro_actuator.Encryption.{init, reader, user, create_proprietary_information}
use aliro_actuator.Apdu.Response.Parse.{SelectFields}
use aliro_actuator.Apdu.Chain.{TransportProtocol}
use aliro_actuator.Trust.{Crypto, KeyPair}
use aliro_actuator.Device.Session.{UserSession}
use aliro_actuator.Device.Session as User
use aliro_actuator.Device.Session.Keys as UserKeys
use aliro_actuator.Reader.Session.{
  ReaderSession, get_reader_group_identifier_key, get_reader_epubkey,
}
use aliro_actuator.Reader.Session.Keys as ReaderKeys
use aliro_actuator.Reader.Session.Keys.{protocol_version}
use aliro_actuator.Device.Session.Keys.{sk_reader_word, sk_device_word}

-- What the messages up to AUTH0 leave in the two sessions: each has the other's ephemeral key, and
-- they hold the same identifiers, flag, version, extension of the command and information of the
-- SELECT response.
pub record Agrees (rp cp : KeyPair) (r : ReaderSession) (u : UserSession) : Type 0 where
  pub own_reader : r.reader_ephemeral ≡ some rp
  pub own_device : u.credential_ephemeral ≡ some cp
  pub sent_reader : u.reader_epubk ≡ some rp.public_key
  pub sent_device : r.credential_ephemeral_key ≡ some cp.public_key
  pub command_extension : r.command_vendor_extension ≡ u.command_vendor_extension
  pub transaction : Bytes
  pub reader_transaction : r.transaction_identifier ≡ some transaction
  pub device_transaction : u.transaction_identifier ≡ some transaction
  pub identifier : u.reader_identifier ≡ some r.reader_identifier
  pub parameters : ℕ
  pub policy : ℕ
  pub parameters_byte : parameters < 256
  pub policy_byte : policy < 256
  pub device_parameters : u.command_parameters ≡ some parameters
  pub device_policy : u.authentication_policy ≡ some policy
  pub reader_flag : r.flag ≡ some (parameters ∷ policy ∷ [])
  pub version : u.expedited_phase_protocol_version ≡ some protocol_version
  pub selected : SelectFields
  pub reader_selected : r.select_info ≡ some selected
  pub device_selected :
      create_proprietary_information 0x0000 u.supported_versions u.maximum_command_apdu
        u.maximum_response_apdu u.select_vendor_tlv
      ≡ ok selected.proprietary_tlv
  pub group_key : User.get_reader_group_identifier_key u ≡ ok (get_reader_group_identifier_key r)

-- The response of AUTH0 had no vendor extension, and the user device has none of its own.
pub record Unextended (r : ReaderSession) (u : UserSession) : Type 0 where
  pub none_received : r.response_vendor_extension ≡ none
  pub none_own : u.response_vendor_extension ≡ none

byte_ok : (n : ℕ) → n < 256 → byte n ≡ ok (n ∷ [])
byte_ok n h = rw (lt→ltb n 256 h) refl

module _ (rp cp : KeyPair) (r : ReaderSession) (u : UserSession) (a : Agrees rp cp r u) where
  pub key_info-key_info : Unextended r u → ReaderKeys.key_info r ≡ UserKeys.key_info u
  unfolding ReaderKeys.key_info UserKeys.key_info
  key_info-key_info n =
      rw (a.own_device, a.sent_device, a.command_extension, n.none_received, n.none_own) refl

  pub key_salt-key_salt :
      (ber : BerTlv) (transport : TransportProtocol) (word : Bytes) (x : Option ℕ)
      → ReaderKeys.key_salt ber transport word r x ≡ UserKeys.key_salt ber transport word u x
  unfolding ReaderKeys.key_salt UserKeys.key_salt get_reader_epubkey get_reader_group_identifier_key
  key_salt-key_salt ber transport word x =
      rw
        (
          a.device_selected,
          a.reader_selected,
          a.group_key,
          a.own_reader,
          a.sent_reader,
          a.identifier,
          a.version,
          a.reader_transaction,
          a.device_transaction,
          a.device_parameters,
          a.device_policy,
          a.reader_flag,
          byte_ok a.parameters a.parameters_byte,
          byte_ok a.policy a.policy_byte,
        )
        refl

-- The two sessions hold the same keys, all from one derivation, and engines for the two ends of them.
pub record SameKeys (crypto : Crypto) (r : ReaderSession) (u : UserSession) : Type 0 where
  pub shared_key : Bytes
  pub info : Bytes
  pub salt : Bytes
  pub sk_reader : Bytes
  pub sk_device : Bytes
  pub step_up_sk : Bytes
  pub cut_reader : sk_reader ≡ slice 0 32 (crypto.derive_key shared_key info 160 salt)
  pub cut_device : sk_device ≡ slice 32 64 (crypto.derive_key shared_key info 160 salt)
  pub cut_step_up : step_up_sk ≡ slice 64 96 (crypto.derive_key shared_key info 160 salt)
  pub same_ble : r.ble_sk ≡ u.ble_sk
  pub same_ur : r.ur_sk ≡ u.ur_sk
  pub reader_expedited : r.encryption_expedited ≡ some (init reader sk_reader sk_device)
  pub device_expedited : u.encryption_expedited ≡ some (init user sk_reader sk_device)
  pub reader_stepup :
      r.encryption_stepup
      ≡ some (
          init reader
            (crypto.derive_key step_up_sk sk_reader_word 32 [])
            (crypto.derive_key step_up_sk sk_device_word 32 []))
  pub device_stepup :
      u.encryption_stepup
      ≡ some (
          init user
            (crypto.derive_key step_up_sk sk_reader_word 32 [])
            (crypto.derive_key step_up_sk sk_device_word 32 []))

-- the two ends of an exchange of Diffie and Hellman, with the derivation behind it
abbrev pub Commutes : Crypto → KeyPair → KeyPair → Type 0
Commutes crypto a b =
    (info : Bytes)
    → crypto.exchange a.private_key b.public_key info
      ≡ crypto.exchange b.private_key a.public_key info

abbrev pub reader_derives :
    Crypto → BerTlv → TransportProtocol → ReaderSession → Result ReaderSession
reader_derives crypto ber transport r =
    ReaderKeys.set_shared_key crypto r >>= ReaderKeys.derive_key_volatile crypto ber transport

abbrev pub device_derives : Crypto → BerTlv → TransportProtocol → UserSession → Result UserSession
device_derives crypto ber transport u =
    UserKeys.set_shared_key crypto u >>= UserKeys.derive_key_volatile crypto ber transport

module _ (crypto : Crypto) (ber : BerTlv) (transport : TransportProtocol) (rp cp : KeyPair)
    (r : ReaderSession) (u : UserSession) (a : Agrees rp cp r u) (n : Unextended r u)
    (dh : Commutes crypto rp cp) where
  abbrev shared : Bytes
  shared = crypto.exchange rp.private_key cp.public_key a.transaction

  -- the 160 bytes of an info and a salt
  abbrev derived : Bytes → Bytes → Bytes
  derived info salt = crypto.derive_key shared info 160 salt

  abbrev step_up_key : Bytes → Bytes → Bytes → Bytes
  step_up_key word info salt = crypto.derive_key (slice 64 96 (derived info salt)) word 32 []

  with_keys_reader : Bytes → Bytes → ReaderSession
  with_keys_reader info salt = record r {
    shared_key = some shared;
    expedited_sk_reader = some (slice 0 32 (derived info salt));
    expedited_sk_device = some (slice 32 64 (derived info salt));
    step_up_sk = some (slice 64 96 (derived info salt));
    ble_sk = some (slice 96 128 (derived info salt));
    ur_sk = some (slice 128 160 (derived info salt));
    encryption_expedited =
        some (init reader (slice 0 32 (derived info salt)) (slice 32 64 (derived info salt)));
    encryption_stepup =
        some (
          init reader (step_up_key sk_reader_word info salt)
            (step_up_key sk_device_word info salt));
  }

  with_keys_device : Bytes → Bytes → UserSession
  with_keys_device info salt = record u {
    shared_key = some shared;
    expedited_sk_reader = some (slice 0 32 (derived info salt));
    expedited_sk_device = some (slice 32 64 (derived info salt));
    step_up_sk = some (slice 64 96 (derived info salt));
    ble_sk = some (slice 96 128 (derived info salt));
    ur_sk = some (slice 128 160 (derived info salt));
    encryption_expedited =
        some (init user (slice 0 32 (derived info salt)) (slice 32 64 (derived info salt)));
    encryption_stepup =
        some
          (init user (step_up_key sk_reader_word info salt) (step_up_key sk_device_word info salt));
  }
