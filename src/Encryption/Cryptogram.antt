-- ===== src/Encryption/Cryptogram.antt =====
-- `compute_cryptogram` and `decrypt_cryptogram` of access_protocol/encryption.py.
use aliro_actuator.Common.{
  ◌≡◌, refl, [], ◌++◌, true, false, Bool, not, ◌==◌, ◌||◌, length, Bytes, ok, Option, >>=-eq-ok,
  arith, guard, value_error, drop_last, take_last, drop_last-append, take_last-append,
}
use aliro_actuator.Tlv.{BerTlv, to_bytes}
use aliro_actuator.Encryption.{
  AesGcm, IsAesGcm, compute_cryptogram, decrypt_cryptogram, cryptogram_tlv, zero_nonce, or_zeros,
}

guard-eq-ok : (b : Bool) (x : _) {u : _} → guard b x ≡ ok u → b ≡ true
guard-eq-ok true x h = refl
guard-eq-ok false x h = cc

-- A cryptogram that was computed, cut before its last 16 bytes, is decrypted with the same key to the bytes of the TLV of its three fields. The fields have the
-- lengths 2, 20 and 20, where a missing timestamp counts as 20 zeros.
pub decrypt_cryptogram-compute_cryptogram :
    (aes : AesGcm) (ber : BerTlv) (law : IsAesGcm aes) (sk bitmap : Bytes)
    (credential revocation : Option Bytes) {c : Bytes}
    → compute_cryptogram aes ber sk bitmap credential revocation ≡ ok c
    → (plain : Bytes) × (to_bytes ber (cryptogram_tlv bitmap credential revocation) ≡ ok plain)
      × (decrypt_cryptogram aes sk (drop_last 16 c) (take_last 16 c) ≡ ok plain)
      × (length bitmap ≡ 2)
      × (length (or_zeros credential) ≡ 20)
      × (length (or_zeros revocation) ≡ 20)
unfolding compute_cryptogram decrypt_cryptogram
decrypt_cryptogram-compute_cryptogram aes ber law sk bitmap credential revocation {c} h =
    let (_, g, k) =
      >>=-eq-ok
        (guard
          (not (
            not (length (or_zeros credential) == 20)
            || not (length (or_zeros revocation) == 20)
            || not (length bitmap == 2)))
          value_error)
        _ h in
    let (plain, t, k') =
      >>=-eq-ok (to_bytes ber (cryptogram_tlv bitmap credential revocation)) _ k in
    let (_, a, k'') = >>=-eq-ok (guard (aes.accepts (length sk)) value_error) _ k' in
    let accepted = guard-eq-ok (aes.accepts (length sk)) value_error a in
    let sealed = aes.encrypt_and_digest sk zero_nonce [] plain in
    let tagged = law.tag_length sk zero_nonce [] plain in
    let same : c ≡ sealed.0 ++ sealed.1 = cc k'' in
    (
      plain,
      t,
      rw
          (
            same,
            drop_last-append 16 sealed.0 sealed.1 tagged,
            take_last-append 16 sealed.0 sealed.1 tagged,
            accepted,
            law.verifies sk zero_nonce [] plain,
            law.decrypts sk zero_nonce [] plain,
          )
          refl,
      ground (arith, guard-eq-ok _ _ g),
      ground (arith, guard-eq-ok _ _ g),
      ground (arith, guard-eq-ok _ _ g),
    )
