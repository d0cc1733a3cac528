-- ===== src/Trust/Tests.antt =====
-- A signature on a small input.
use aliro_actuator.Common.{◌≡◌, refl, [], ◌∷◌, some, true, replicate, length, Bytes, ok, arith}
use aliro_actuator.Trust.{Crypto, KeyPair, PublicKey, sign, verify}
use aliro_actuator.Trust.Laws.{verify-sign}

abbrev a_key : PublicKey
a_key = record { as_bytes = 4 ∷ replicate 64 1; get_x = 1 }

abbrev a_pair : KeyPair
a_pair = record { private_key = replicate 32 1; public_key = a_key }

-- every signature is the pair of 1 and 2
abbrev constant_crypto : Crypto
constant_crypto = record {
  from_encoded_point = λ b. some a_key;
  ecdsa_sign = λ key content. (1, 2);
  ecdsa_verify = λ key content r s. true;
  exchange = λ private_key key info. replicate 32 3;
  derive_key = λ key info n salt. replicate n 4;
  sha1 = λ b. replicate 20 5;
  generate = λ n. a_pair;
  urandom = λ n size. replicate size 6;
}

verify-sign_example :
    (signature : Bytes) × (sign constant_crypto a_pair.private_key (1 ∷ 2 ∷ []) ≡ ok signature)
    × (length signature ≡ 64)
    × (verify constant_crypto a_pair.public_key (1 ∷ 2 ∷ []) signature ≡ true)
verify-sign_example =
    verify-sign constant_crypto a_pair
      (record { small = λ content. (omega arith, omega arith); verifies = λ content. refl })
      (1 ∷ 2 ∷ [])
