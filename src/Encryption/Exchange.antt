-- ===== src/Encryption/Exchange.antt =====
-- Two engines of access_protocol/encryption.py that talk to each other.
use aliro_actuator.Common.{
  ℕ, ◌+◌, ◌^◌, ◌≡◌, ◌≤◌, ◌<◌, ◌∙◌, refl, sym, ap, List, [], ◌∷◌, ◌++◌, true, false, Bool,
  Bool-cases, inl, inr, length, lt→ltb, big_digits, Bytes, Result, ok, err, arith,
}
use mathlib.Core.Path.{ap₂}
use aliro_actuator.Encryption.{
  AesGcm, IsAesGcm, EncryptionEngine, init, reader, user, encryption_iv, decryption_iv, encrypt,
  decrypt,
}
use aliro_actuator.Encryption.Nonces.{encrypt_ok, decrypt_ok}

-- one message, and whether the reader sends it or the user device
pub record Sent : Type 0 where
  pub from_reader : Bool
  pub text : Bytes
  pub ad : Bytes

-- the texts, in the order in which they were sent
abbrev pub texts : List Sent → List (Result Bytes)
texts [] = []
texts (s ∷ rest) = ok s.text ∷ texts rest

module _ (aes : AesGcm) where
  -- the sender's engine and the receiver's, and what the receiver gets
  abbrev deliver :
      EncryptionEngine
      → EncryptionEngine × Result (Bytes × Bytes)
      → Bytes
      → EncryptionEngine × EncryptionEngine × Result Bytes
  deliver receiver (sender, err x) ad = (sender, receiver, err x)
  deliver receiver (sender, ok (c, t)) ad =
      let (receiver', r) = decrypt aes receiver c t ad in (sender, receiver', r)

  abbrev pass :
      EncryptionEngine
      → EncryptionEngine
      → Bytes
      → Bytes
      → EncryptionEngine × EncryptionEngine × Result Bytes
  pass sender receiver text ad = deliver receiver (encrypt aes sender text ad) ad

  -- what arrives of some messages, sent one after the other
  pub converse : EncryptionEngine → EncryptionEngine → List Sent → List (Result Bytes)
  converse r u [] = []
  converse r u (s ∷ rest) = elim s.from_reader [
    | true ↦ let (r', u', got) = pass r u s.text s.ad in got ∷ converse r' u' rest
    | false ↦ let (u', r', got) = pass u r s.text s.ad in got ∷ converse r' u' rest
  ]

  -- the receiver expects what the sender sends next
  pub record IsInStep (sender receiver : EncryptionEngine) : Type 0 where
    pub same_key : sender.encryption_key ≡ receiver.decryption_key
    pub same_iv : sender.encryption_iv_pt1 ≡ receiver.decryption_iv_pt1
    pub same_counter : sender.encryption_counter ≡ receiver.decryption_counter
    pub accepted : aes.accepts (length sender.encryption_key) ≡ true

  iv_of :
      (e : EncryptionEngine)
      → e.encryption_counter < 256 ^ 4
      → encryption_iv e ≡ ok (e.encryption_iv_pt1 ++ big_digits 4 e.encryption_counter [])
  iv_of e h = rw (lt→ltb e.encryption_counter (256 ^ 4) h) refl

  iv_of_decryption :
      (e : EncryptionEngine)
      → e.decryption_counter < 256 ^ 4
      → decryption_iv e ≡ ok (e.decryption_iv_pt1 ++ big_digits 4 e.decryption_counter [])
  iv_of_decryption e h = rw (lt→ltb e.decryption_counter (256 ^ 4) h) refl

  IsInStep-next :
      (s r : EncryptionEngine)
      → IsInStep s r
      → IsInStep
          (record s { encryption_counter = s.encryption_counter + 1 })
          (record r { decryption_counter = r.decryption_counter + 1 })
  IsInStep-next s r h = record {
    same_key = h.same_key;
    same_iv = h.same_iv;
    same_counter = ap (λ n. n + 1) h.same_counter;
    accepted = h.accepted;
  }

  -- a message the other way does not count
  IsInStep-after :
      (s r : EncryptionEngine)
      → IsInStep r s
      → IsInStep
          (record r { decryption_counter = r.decryption_counter + 1 })
          (record s { encryption_counter = s.encryption_counter + 1 })
  IsInStep-after s r h = record {
    same_key = h.same_key;
    same_iv = h.same_iv;
    same_counter = h.same_counter;
    accepted = h.accepted;
  }

  module _ (law : IsAesGcm aes) where
    abbrev pub nonce : EncryptionEngine → Bytes
    nonce s = s.encryption_iv_pt1 ++ big_digits 4 s.encryption_counter []

    pub seal_lem :
        (s r : EncryptionEngine) (text ad : Bytes)
        → IsInStep s r
        → s.encryption_counter < 256 ^ 4
        → encrypt aes s text ad ≡ (
          record s { encryption_counter = s.encryption_counter + 1 },
          ok (aes.encrypt_and_digest s.encryption_key (nonce s) ad text),
        )
    seal_lem s r text ad step below = encrypt_ok aes s text ad (iv_of s below) step.accepted

    pub open_lem :
        (s r : EncryptionEngine) (text ad : Bytes)
        → IsInStep s r
        → s.encryption_counter < 256 ^ 4
        → decrypt aes r
            (aes.encrypt_and_digest s.encryption_key (nonce s) ad text).0
            (aes.encrypt_and_digest s.encryption_key (nonce s) ad text).1
            ad
          ≡ (record r { decryption_counter = r.decryption_counter + 1 }, ok text)
    open_lem s r text ad step below =
        let iv = nonce s in
        let sealed = aes.encrypt_and_digest s.encryption_key iv ad text in
        let iv_r : decryption_iv r ≡ ok iv =
          iv_of_decryption r (omega (arith, below, step.same_counter))
          ∙ ap₂ (λ (a : Bytes) (n : ℕ). ok (a ++ big_digits 4 n [])) (sym step.same_iv)
              (sym step.same_counter) in
        let opened : aes.decrypt r.decryption_key iv ad sealed.0 ≡ text =
          ap (λ (k : Bytes). aes.decrypt k iv ad sealed.0) (sym step.same_key)
          ∙ law.decrypts s.encryption_key iv ad text in
        let verified : aes.verify r.decryption_key iv ad sealed.0 sealed.1 ≡ true =
          ap (λ (k : Bytes). aes.verify k iv ad sealed.0 sealed.1) (sym step.same_key)
          ∙ law.verifies s.encryption_key iv ad text in
        let accepted : aes.accepts (length r.decryption_key) ≡ true =
          ap (λ (k : Bytes). aes.accepts (length k)) (sym step.same_key) ∙ step.accepted in
        rw (decrypt_ok aes r sealed.0 sealed.1 ad iv_r accepted, verified, opened) refl

    pass_lem :
        (s r : EncryptionEngine) (text ad : Bytes)
        → IsInStep s r
        → s.encryption_counter < 256 ^ 4
        → pass s r text ad ≡ (
          record s { encryption_counter = s.encryption_counter + 1 },
          record r { decryption_counter = r.decryption_counter + 1 },
          ok text,
        )
    pass_lem s r text ad step below =
        rw (seal_lem s r text ad step below, open_lem s r text ad step below) refl

    converse_lem :
        (r u : EncryptionEngine) (messages : List Sent)
        → IsInStep r u
        → IsInStep u r
        → r.encryption_counter + length messages ≤ 256 ^ 4
        → u.encryption_counter + length messages ≤ 256 ^ 4
        → converse r u messages ≡ texts messages
    unfolding converse
    converse_lem r u [] ru ur below below' = refl
    converse_lem r u (s ∷ rest) ru ur below below' = elim (Bool-cases s.from_reader) [
      | inl by_reader ↦
          rw (by_reader, pass_lem r u s.text s.ad ru (omega arith))
            (ap (λ (l : List (Result Bytes)). ok s.text ∷ l)
              (converse_lem (record r { encryption_counter = r.encryption_counter + 1 })
                (record u { decryption_counter = u.decryption_counter + 1 }) rest
                (IsInStep-next r u ru) (IsInStep-after r u ur) (omega arith) (omega arith)))
      | inr by_user ↦
          rw (by_user, pass_lem u r s.text s.ad ur (omega arith))
            (ap (λ (l : List (Result Bytes)). ok s.text ∷ l)
              (converse_lem (record r { decryption_counter = r.decryption_counter + 1 })
                (record u { encryption_counter = u.encryption_counter + 1 }) rest
                (IsInStep-after u r ru) (IsInStep-next u r ur) (omega arith) (omega arith)))
    ]

    -- All messages between two engines made with the same keys arrive, whoever sends next, as long as
    -- they are fewer than 2^32 and the keys have lengths that the cipher takes.
    pub converse-init :
        (sk_reader sk_device : Bytes) (messages : List Sent)
        → aes.accepts (length sk_reader) ≡ true
        → aes.accepts (length sk_device) ≡ true
        → length messages < 256 ^ 4
        → converse (init reader sk_reader sk_device) (init user sk_reader sk_device) messages
          ≡ texts messages
    converse-init sk_reader sk_device messages hr hd few =
        converse_lem (init reader sk_reader sk_device) (init user sk_reader sk_device) messages
          (record { same_key = refl; same_iv = refl; same_counter = refl; accepted = hr })
          (record { same_key = refl; same_iv = refl; same_counter = refl; accepted = hd })
          (omega (arith, few)) (omega (arith, few))
