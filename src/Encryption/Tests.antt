-- ===== src/Encryption/Tests.antt =====
-- A cipher in the clear with the right lengths, and the engine on small inputs.
use aliro_actuator.Common.{
  ◌≡◌, ◌≢◌, refl, List, [], ◌∷◌, none, some, true, false, ◌==◌, replicate, length, drop_last,
  take_last, Bytes, ok, arith,
}
use aliro_actuator.Tlv.{BerTlv, to_bytes}
use aliro_actuator.Encryption.{
  AesGcm, IsAesGcm, EncryptionEngine, init, reader, user, encryption_iv, check_counters_valid,
  compute_cryptogram, decrypt_cryptogram, cryptogram_tlv, or_zeros,
}
use aliro_actuator.Encryption as Enc
use aliro_actuator.Encryption.Nonces.{Runs, nonce-fresh, nonce-sides}
use aliro_actuator.Encryption.Exchange.{Sent, converse, texts, converse-init}
use aliro_actuator.Encryption.Cryptogram.{decrypt_cryptogram-compute_cryptogram}

abbrev pub clear : AesGcm
clear = record {
  accepts = λ n. n == 32;
  encrypt_and_digest = λ key nonce ad text. (text, replicate 16 0);
  decrypt = λ key nonce ad text. text;
  verify = λ key nonce ad text tag. true;
}

pub clear-IsAesGcm : IsAesGcm clear
clear-IsAesGcm = record {
  decrypts = λ key nonce ad text. refl;
  verifies = λ key nonce ad text. refl;
  text_length = λ key nonce ad text. refl;
  tag_length = λ key nonce ad text. refl;
}

abbrev sk_reader : Bytes
sk_reader = replicate 32 1

abbrev sk_device : Bytes
sk_device = replicate 32 2

abbrev reader_1 : Bytes
reader_1 = 0 ∷ 0 ∷ 0 ∷ 0 ∷ 0 ∷ 0 ∷ 0 ∷ 0 ∷ 0 ∷ 0 ∷ 0 ∷ 1 ∷ []

abbrev reader_2 : Bytes
reader_2 = 0 ∷ 0 ∷ 0 ∷ 0 ∷ 0 ∷ 0 ∷ 0 ∷ 0 ∷ 0 ∷ 0 ∷ 0 ∷ 2 ∷ []

abbrev user_1 : Bytes
user_1 = 0 ∷ 0 ∷ 0 ∷ 0 ∷ 0 ∷ 0 ∷ 0 ∷ 1 ∷ 0 ∷ 0 ∷ 0 ∷ 1 ∷ []

abbrev bitmap : Bytes
bitmap = 7 ∷ 8 ∷ []

abbrev three_messages : List Sent
three_messages =
    record { from_reader = true; text = 1 ∷ 2 ∷ []; ad = [] }
    ∷ record { from_reader = false; text = 3 ∷ []; ad = 9 ∷ [] }
    ∷ record { from_reader = true; text = []; ad = [] }
    ∷ []

converse-init_example :
    converse clear (init reader sk_reader sk_device) (init user sk_reader sk_device) three_messages
    ≡ texts three_messages
converse-init_example =
    converse-init clear clear-IsAesGcm sk_reader sk_device three_messages refl refl (omega arith)

abbrev after_one : EncryptionEngine
after_one = record (init reader sk_reader sk_device) { encryption_counter = 2 }

nonce-fresh_example : reader_1 ≢ reader_2
unfolding Enc.encrypt
nonce-fresh_example =
    nonce-fresh clear (init reader sk_reader sk_device) after_one (5 ∷ []) [] refl Runs.done refl
      refl

nonce-sides_example : reader_2 ≢ user_1
unfolding Enc.encrypt
nonce-sides_example =
    nonce-sides clear sk_reader sk_device after_one (init user sk_reader sk_device)
      (Runs.encrypted (5 ∷ []) [] Runs.done) Runs.done refl refl

-- an encoder that writes every TLV as three bytes
abbrev constant_ber : BerTlv
constant_ber = record { parse = λ b r. none; build = λ d. some (1 ∷ 2 ∷ 3 ∷ []) }

decrypt_cryptogram-compute_cryptogram_example :
    (plain : Bytes) × (to_bytes constant_ber (cryptogram_tlv bitmap none (some (replicate 20 1)))
      ≡ ok plain)
    × (decrypt_cryptogram clear sk_device
          (drop_last 16 (1 ∷ 2 ∷ 3 ∷ replicate 16 0))
          (take_last 16 (1 ∷ 2 ∷ 3 ∷ replicate 16 0))
        ≡ ok plain)
    × (length bitmap ≡ 2)
    × (length (or_zeros none) ≡ 20)
    × (length (or_zeros (some (replicate 20 1))) ≡ 20)
unfolding compute_cryptogram to_bytes
decrypt_cryptogram-compute_cryptogram_example =
    decrypt_cryptogram-compute_cryptogram clear constant_ber clear-IsAesGcm sk_device bitmap none
      (some (replicate 20 1)) refl
