-- ===== src/Encryption/Nonces.antt =====
-- The nonces and counters of the class `EncryptionEngine` of access_protocol/encryption.py.
use aliro_actuator.Common.{
  ℕ, ◌+◌, ◌^◌, ◌≡◌, ◌≢◌, ◌≤◌, ◌<◌, ◌∙◌, refl, sym, ap, [], ◌++◌, true, false, Bool-cases, inl, inr,
  length, ltb, big_digits, to_bytes_big, from_bytes_big, from_bytes_big-digits, Bytes, Error, ok,
  err, get_elem?, drop-append, value_error, verification_error, if◌then◌else◌, arith, ltb→lt, drop,
  >>=-eq-ok, Result-cases, ◌↔◌, some,
}
use aliro_actuator.Encryption.{
  AesGcm, EncryptionEngine, init, reader, user, encryption_iv, decryption_iv, encrypt, decrypt,
  reader_iv, user_iv, check_counters_valid,
}

module _ (aes : AesGcm) (e : EncryptionEngine) where
  pub encrypt_fails :
      (text ad : Bytes) {x : Error} → encryption_iv e ≡ err x → encrypt aes e text ad ≡ (e, err x)
  unfolding encrypt
  encrypt_fails text ad h = rw h refl

  pub encrypt_refuses :
      (text ad : Bytes) {v : Bytes}
      → encryption_iv e ≡ ok v
      → aes.accepts (length e.encryption_key) ≡ false
      → encrypt aes e text ad ≡ (e, err value_error)
  unfolding encrypt
  encrypt_refuses text ad h a = rw (h, a) refl

  pub encrypt_ok :
      (text ad : Bytes) {v : Bytes}
      → encryption_iv e ≡ ok v
      → aes.accepts (length e.encryption_key) ≡ true
      → encrypt aes e text ad ≡ (
        record e { encryption_counter = e.encryption_counter + 1 },
        ok (aes.encrypt_and_digest e.encryption_key v ad text),
      )
  unfolding encrypt
  encrypt_ok text ad h a = rw (h, a) refl

  pub decrypt_fails :
      (text tag ad : Bytes) {x : Error}
      → decryption_iv e ≡ err x
      → decrypt aes e text tag ad ≡ (e, err x)
  unfolding decrypt
  decrypt_fails text tag ad h = rw h refl

  pub decrypt_refuses :
      (text tag ad : Bytes) {v : Bytes}
      → decryption_iv e ≡ ok v
      → aes.accepts (length e.decryption_key) ≡ false
      → decrypt aes e text tag ad ≡ (e, err value_error)
  unfolding decrypt
  decrypt_refuses text tag ad h a = rw (h, a) refl

  pub decrypt_ok :
      (text tag ad : Bytes) {v : Bytes}
      → decryption_iv e ≡ ok v
      → aes.accepts (length e.decryption_key) ≡ true
      → decrypt aes e text tag ad ≡ (
        record e { decryption_counter = e.decryption_counter + 1 },
        (if aes.verify e.decryption_key v ad text tag
            then ok (aes.decrypt e.decryption_key v ad text)
            else err verification_error),
      )
  unfolding decrypt
  decrypt_ok text tag ad h a = rw (h, a) refl

-- what no operation changes, and the counter, which does not sink
pub record Grows (e e' : EncryptionEngine) : Type 0 where
  pub same_iv : e'.encryption_iv_pt1 ≡ e.encryption_iv_pt1
  pub more : e.encryption_counter ≤ e'.encryption_counter

Grows-refl : (e : EncryptionEngine) → Grows e e
Grows-refl e = record { same_iv = refl; more = omega arith }

module _ (aes : AesGcm) where
  -- one engine before and after some operations, whatever they return
  pub data Runs : EncryptionEngine → EncryptionEngine → Type 0 where
    done : {e : EncryptionEngine} → Runs e e
    encrypted :
        {e e' : EncryptionEngine} (text ad : Bytes) → Runs (encrypt aes e text ad).0 e' → Runs e e'
    decrypted :
        {e e' : EncryptionEngine} (text tag ad : Bytes)
        → Runs (decrypt aes e text tag ad).0 e'
        → Runs e e'

  encrypt-Grows : (e : EncryptionEngine) (text ad : Bytes) → Grows e (encrypt aes e text ad).0
  encrypt-Grows e text ad = elim (Result-cases (encryption_iv e)) [
    | inr (x, h) ↦ rw (encrypt_fails aes e text ad h) (Grows-refl e)
    | inl (v, h) ↦ elim (Bool-cases (aes.accepts (length e.encryption_key))) [
      | inr a ↦ rw (encrypt_refuses aes e text ad h a) (Grows-refl e)
      | inl a ↦ rw (encrypt_ok aes e text ad h a) (record { same_iv = refl; more = omega arith })
    ]
  ]

  decrypt-Grows :
      (e : EncryptionEngine) (text tag ad : Bytes) → Grows e (decrypt aes e text tag ad).0
  decrypt-Grows e text tag ad = elim (Result-cases (decryption_iv e)) [
    | inr (x, h) ↦ rw (decrypt_fails aes e text tag ad h) (Grows-refl e)
    | inl (v, h) ↦ elim (Bool-cases (aes.accepts (length e.decryption_key))) [
      | inr a ↦ rw (decrypt_refuses aes e text tag ad h a) (Grows-refl e)
      | inl a ↦
          rw (decrypt_ok aes e text tag ad h a) (record { same_iv = refl; more = omega arith })
    ]
  ]

  Grows-trans : {e f g : EncryptionEngine} → Grows e f → Grows f g → Grows e g
  Grows-trans a b = record { same_iv = b.same_iv ∙ a.same_iv; more = omega (arith, a.more, b.more) }

  Runs-Grows : {e e' : EncryptionEngine} → Runs e e' → Grows e e'
  Runs-Grows {e} done = Grows-refl e
  Runs-Grows {e} (encrypted text ad rest) = Grows-trans (encrypt-Grows e text ad) (Runs-Grows rest)
  Runs-Grows {e} (decrypted text tag ad rest) =
      Grows-trans (decrypt-Grows e text tag ad) (Runs-Grows rest)

  encrypt-counts :
      (e : EncryptionEngine) (text ad : Bytes) {c : Bytes × Bytes}
      → (encrypt aes e text ad).1 ≡ ok c
      → (encrypt aes e text ad).0.encryption_counter ≡ e.encryption_counter + 1
  encrypt-counts e text ad h = elim (Result-cases (encryption_iv e)) [
    | inr (x, f) ↦ absurd (cc (h, encrypt_fails aes e text ad f))
    | inl (v, f) ↦ elim (Bool-cases (aes.accepts (length e.encryption_key))) [
      | inr a ↦ absurd (cc (h, encrypt_refuses aes e text ad f a))
      | inl a ↦ rw (encrypt_ok aes e text ad f a) refl
    ]
  ]

to_bytes_big-eq-ok :
    (k n : ℕ) {v : Bytes} → to_bytes_big k n ≡ ok v → (n < 256 ^ k) × (v ≡ big_digits k n [])
to_bytes_big-eq-ok k n {v} h = elim (Bool-cases (ltb n (256 ^ k))) [
  | inr over ↦ absurd (cc (rw over at h))
  | inl below ↦ (ltb→lt n (256 ^ k) below, sym (cc (rw below at h)))
]

iv_parts :
    (e : EncryptionEngine) {v : Bytes}
    → encryption_iv e ≡ ok v
    → (e.encryption_counter < 256 ^ 4)
      × (v ≡ e.encryption_iv_pt1 ++ big_digits 4 e.encryption_counter [])
iv_parts e {v} h =
    let (counter, t, k) = >>=-eq-ok (to_bytes_big 4 e.encryption_counter) _ h in
    let (below, same) = to_bytes_big-eq-ok 4 e.encryption_counter t in (below, cc (k, same))

-- The counter can be read off the nonce.
iv_counter :
    (e : EncryptionEngine) {v : Bytes}
    → encryption_iv e ≡ ok v
    → from_bytes_big (drop (length e.encryption_iv_pt1) v) ≡ e.encryption_counter
iv_counter e h =
    let (below, same) = iv_parts e h in
    rw same (
      ap (λ (bs : Bytes). from_bytes_big bs)
        (drop-append e.encryption_iv_pt1 (big_digits 4 e.encryption_counter []))
      ∙ from_bytes_big-digits 4 e.encryption_counter below)

-- No nonce is used twice with one key: after an encryption, and any further operations that succeed
-- or fail, the nonce of the next encryption is another one.
pub nonce-fresh :
    (aes : AesGcm) (e e' : EncryptionEngine) (text ad : Bytes) {c : Bytes × Bytes} {v w : Bytes}
    → (encrypt aes e text ad).1 ≡ ok c
    → Runs aes (encrypt aes e text ad).0 e'
    → encryption_iv e ≡ ok v
    → encryption_iv e' ≡ ok w
    → v ≢ w
nonce-fresh aes e e' text ad {v} {w} h runs hv hw same =
    let after = Runs-Grows aes runs in
    let iv : e'.encryption_iv_pt1 ≡ e.encryption_iv_pt1 =
      after.same_iv ∙ (encrypt-Grows aes e text ad).same_iv in
    let counters : e'.encryption_counter ≡ e.encryption_counter =
      sym (iv_counter e' hw)
      ∙ ap (λ (bs : Bytes). from_bytes_big (drop (length bs) w)) iv
      ∙ ap (λ (bs : Bytes). from_bytes_big (drop (length e.encryption_iv_pt1) bs)) (sym same)
      ∙ iv_counter e hv in
    absurd (omega (arith, counters, after.more, encrypt-counts aes e text ad h))

-- The two sides never use one nonce, whatever each of them has done since it was made.
pub nonce-sides :
    (aes : AesGcm) (sk_reader sk_device : Bytes) (r u : EncryptionEngine) {v w : Bytes}
    → Runs aes (init reader sk_reader sk_device) r
    → Runs aes (init user sk_reader sk_device) u
    → encryption_iv r ≡ ok v
    → encryption_iv u ≡ ok w
    → v ≢ w
nonce-sides aes sk_reader sk_device r u {v} {w} hr hu hv hw same =
    let of_reader : r.encryption_iv_pt1 ≡ reader_iv = (Runs-Grows aes hr).same_iv in
    let of_user : u.encryption_iv_pt1 ≡ user_iv = (Runs-Grows aes hu).same_iv in
    let x : get_elem? v 7 ≡ some 0 = rw ((iv_parts r hv).1, of_reader) refl in
    let y : get_elem? w 7 ≡ some 1 = rw ((iv_parts u hw).1, of_user) refl in cc (x, y, same)

-- The check before an EXCHANGE command holds exactly while both counters are below 0xFFFF.
pub check_counters_valid_iff :
    (e : EncryptionEngine)
    → (check_counters_valid e ≡ true)
      ↔ ((e.encryption_counter < 0xffff) × (e.decryption_counter < 0xffff))
unfolding check_counters_valid
check_counters_valid_iff e = ground arith
