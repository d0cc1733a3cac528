-- ===== src/Reader/Session/Channel.antt =====
-- What the agreement of the two sessions gives: the same Kpersistent and cryptogram key, and a channel.
use aliro_actuator.Common.{ℕ, ◌≡◌, Option, some, length, true, Bytes, Result}
use aliro_actuator.Tlv.{BerTlv}
use aliro_actuator.Encryption.{AesGcm}
use aliro_actuator.Apdu.Chain.{TransportProtocol}
use aliro_actuator.Trust.{Crypto, KeyPair, AccessCredential, PublicKey}
use aliro_actuator.Device.Session.{UserSession}
use aliro_actuator.Device.Session.Keys as UserKeys
use aliro_actuator.Reader.Session.{ReaderSession}
use aliro_actuator.Reader.Session.Keys as ReaderKeys
use aliro_actuator.Reader.Session.Agreement.{Agrees, Unextended}

abbrev pub FastKeys : Type 0
FastKeys = Option Bytes × Option Bytes × Option Bytes × Option Bytes × Option Bytes

abbrev pub reader_fast_keys : ReaderSession → FastKeys
reader_fast_keys r =
    (r.cryptogram_sk, r.expedited_sk_reader, r.expedited_sk_device, r.ble_sk, r.ur_sk)

abbrev pub device_fast_keys : UserSession → FastKeys
device_fast_keys u =
    (u.cryptogram_sk, u.expedited_sk_reader, u.expedited_sk_device, u.ble_sk, u.ur_sk)

module _ (crypto : Crypto) (ber : BerTlv) (transport : TransportProtocol) (rp cp : KeyPair)
    (r : ReaderSession) (u : UserSession) (a : Agrees rp cp r u) (n : Unextended r u)
    (c : AccessCredential) (held : u.access_credential ≡ some c) where
  abbrev its_key : PublicKey
  its_key = c.access_credential_key_pair.public_key

  abbrev reader_fast : Bytes → Result ReaderSession
  reader_fast kpersistent =
      ReaderKeys.derive_key_volatile_fast crypto ber transport its_key kpersistent r

  abbrev device_fast : Bytes → Result UserSession
  device_fast kpersistent = UserKeys.derive_key_volatile_fast crypto ber transport kpersistent u

-- what the cipher is given as a key
pub record TakesDerived (aes : AesGcm) (crypto : Crypto) : Type 0 where
  pub derived_length :
      (key info salt : Bytes) (n : ℕ) → length (crypto.derive_key key info n salt) ≡ n
  pub accepts_32 : aes.accepts 32 ≡ true
