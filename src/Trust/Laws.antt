-- ===== src/Trust/Laws.antt =====
-- Laws of the signatures of trust_framework/key.py.
use aliro_actuator.Common.{
  ℕ, ◌^◌, ◌<◌, ◌≡◌, refl, [], ◌++◌, true, length, take, slice, Bytes, Result, ok, to_bytes_big,
  big_digits, from_bytes_big, from_bytes_big-digits, lt→ltb, ◌>>=◌,
}
use aliro_actuator.Trust.{PublicKey, KeyPair, Crypto, sign, verify}

-- What is documented of ECDSA on P-256: both numbers of a signature are below 2^256, and a signature
-- is verified with the public key of the pair.
pub record IsEcdsa (crypto : Crypto) (pair : KeyPair) : Type 0 where
  pub small :
      (content : Bytes)
      → ((crypto.ecdsa_sign pair.private_key content).0 < 256 ^ 32)
        × ((crypto.ecdsa_sign pair.private_key content).1 < 256 ^ 32)
  pub verifies :
      (content : Bytes)
      → crypto.ecdsa_verify pair.public_key content
          (crypto.ecdsa_sign pair.private_key content).0
          (crypto.ecdsa_sign pair.private_key content).1
        ≡ true

to_bytes_big-small : (k n : ℕ) → n < 256 ^ k → to_bytes_big k n ≡ ok (big_digits k n [])
to_bytes_big-small k n h = rw (lt→ltb n (256 ^ k) h) refl

first_number :
    (r s : ℕ)
    → r < 256 ^ 32
    → from_bytes_big (take 32 (big_digits 32 r [] ++ big_digits 32 s [])) ≡ r
first_number r s h = from_bytes_big-digits 32 r h

second_number :
    (r s : ℕ)
    → s < 256 ^ 32
    → from_bytes_big (slice 32 64 (big_digits 32 r [] ++ big_digits 32 s [])) ≡ s
second_number r s h = from_bytes_big-digits 32 s h

both :
    (m n : Result Bytes) {a b : Bytes}
    → m ≡ ok a
    → n ≡ ok b
    → (m >>= λ first. n >>= λ second. ok (first ++ second)) ≡ ok (a ++ b)
both m n e f = rw (e, f) refl

verify-numbers :
    (crypto : Crypto) (key : PublicKey) (content signature : Bytes) {r s : ℕ}
    → from_bytes_big (take 32 signature) ≡ r
    → from_bytes_big (slice 32 64 signature) ≡ s
    → crypto.ecdsa_verify key content r s ≡ true
    → verify crypto key content signature ≡ true
unfolding verify
verify-numbers crypto key content signature e f h = rw (verify, e, f) h

-- What a key pair signs is a signature of 64 bytes, and the public key of the pair verifies it.
pub verify-sign :
    (crypto : Crypto) (pair : KeyPair) (law : IsEcdsa crypto pair) (content : Bytes)
    → (signature : Bytes) × (sign crypto pair.private_key content ≡ ok signature)
      × (length signature ≡ 64)
      × (verify crypto pair.public_key content signature ≡ true)
unfolding sign
verify-sign crypto pair law content =
    let r = (crypto.ecdsa_sign pair.private_key content).0 in
    let s = (crypto.ecdsa_sign pair.private_key content).1 in
    let (small_r, small_s) = law.small content in
    (
      big_digits 32 r [] ++ big_digits 32 s [],
      both (to_bytes_big 32 r) (to_bytes_big 32 s) (to_bytes_big-small 32 r small_r)
          (to_bytes_big-small 32 s small_s),
      refl,
      verify-numbers crypto pair.public_key content (big_digits 32 r [] ++ big_digits 32 s [])
          (first_number r s small_r) (second_number r s small_s) (law.verifies content),
    )
