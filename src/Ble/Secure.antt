-- ===== src/Ble/Secure.antt =====
-- Encrypted messages of transport_protocol/ble_message_format.py, and the busy event.
use aliro_actuator.Common.{
  ◌^◌, ◌≡◌, ◌<◌, refl, ◌++◌, some, Bool-cases, inl, inr, length, drop_last-append, take_last-append,
  Bytes, ok,
}
use aliro_actuator.Encryption.{AesGcm, IsAesGcm, EncryptionEngine}
use aliro_actuator.Encryption.Exchange.{IsInStep, seal_lem, open_lem, nonce}
use aliro_actuator.Ble.Message.{BleMessage, encrypt, decrypt, is_encrypted, additional_data}

module _ (aes : AesGcm) (law : IsAesGcm aes) (s r : EncryptionEngine) (m : BleMessage) where
  -- A message goes through encryption and decryption unchanged, where the receiver's engine expects
  -- what the sender's engine sends, the sender's counter is below 2^32, and header, id and length of
  -- the payload can be written.
  pub decrypt-encrypt :
      {ad : Bytes}
      → IsInStep aes s r
      → s.encryption_counter < 256 ^ 4
      → additional_data m (length m.payload) ≡ ok ad
      → (m' : BleMessage) × ((encrypt aes (some s) m).1 ≡ ok m')
        × ((decrypt aes (some r) m').1 ≡ ok m)
  unfolding encrypt decrypt
  decrypt-encrypt {ad} step below has_ad = elim (Bool-cases (is_encrypted m.header)) [
    | inr plain ↦ (m, rw plain refl, rw plain refl)
    | inl secret ↦
        let sealed = aes.encrypt_and_digest s.encryption_key (nonce aes law s) ad m.payload in
        let tagged = law.tag_length s.encryption_key (nonce aes law s) ad m.payload in
        let size : length sealed.0 ≡ length m.payload =
          law.text_length s.encryption_key (nonce aes law s) ad m.payload in
        (
          record m { payload = sealed.0 ++ sealed.1 },
          rw (secret, has_ad, seal_lem aes law s r m.payload ad step below) refl,
          rw
              (
                secret,
                drop_last-append 16 sealed.0 sealed.1 tagged,
                take_last-append 16 sealed.0 sealed.1 tagged,
                size,
                has_ad,
                open_lem aes law s r m.payload ad step below,
              )
              refl,
        )
  ]
