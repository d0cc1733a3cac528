-- ===== src/Reader/Frame/Held.antt =====
-- What the session of the reader of access_protocol/reader.py holds behind a decrypted cryptogram.
use aliro_actuator.Common.{
  ℕ, ◌≡◌, ◌⊎◌, ◌∙◌, refl, sym, ap, inl, inr, Option, none, some, Bool, true, false, List,
  if◌then◌else◌, Bytes, Result, ok, err, Result-cases, or_raise, access_protocol_error, >>=-eq-ok,
}
use aliro_actuator.Tlv.{Tlv, get_bytes, from_bytes}
use aliro_actuator.Encryption.{reader}
use aliro_actuator.Trust.{Crypto}
use aliro_actuator.Apdu.Chain.{TransportProtocol}
use aliro_actuator.Device.{Environment, is_ble}
use aliro_actuator.Device.Session.Keys.{volatile_fast_word, get_ble_encryption}
use aliro_actuator.Reader.{Reader, Action, ◌>>=◌, ◌>>◌, pure, lift, gets, set_session}
use aliro_actuator.Reader.Storage.{ReaderFastCacheEntry}
use aliro_actuator.Reader.Session.{ReaderSession, attribute, set_cryptogram_info}
use aliro_actuator.Reader.Session.Keys.{
  derive_key_volatile_fast, key_info, key_salt, create_encryption_engine_expedited,
  set_ble_encryption,
}
use aliro_actuator.Reader.Authentication.{accept}
use aliro_actuator.Reader.Frame.Outcomes.{Fails}

-- It raises an exception, or its result state has the property.
Post : {A : Type 0} → (Reader → Type 0) → Action A → Type 0
Post P m = (d : Reader) → Fails (m d).1 ⊎ P (m d).0

module _ (P : Reader → Type 0) {A B : Type 0} (f : A → Action B) where
  bind-Post : (m : Action A) → ((a : A) → Post P (f a)) → Post P (m >>= f)
  unfolding ◌>>=◌ Post
  bind-Post m k d = elim (Result-cases (m d).1) [
    | inl (a, e) ↦ rw (◌>>=◌, e) (k a (m d).0)
    | inr (x, e) ↦ rw (◌>>=◌, e) (inl (x, refl))
  ]

  lift-Post : (r : Result A) → ((a : A) → r ≡ ok a → Post P (f a)) → Post P (lift r >>= f)
  unfolding ◌>>=◌ Post
  lift-Post (ok a) k d = k a refl d
  lift-Post (err x) k d = inl (x, refl)

  pure-Post : (a : A) → Post P (f a) → Post P (pure a >>= f)
  unfolding ◌>>=◌ Post
  pure-Post a k d = k d

ok-injective : {A : Type 0} {a b : A} → ok a ≡ ok b → a ≡ b
ok-injective h = cc

-- the cryptogram and the credential of the session are the same
abbrev Kept : ReaderSession → ReaderSession → Type 0
Kept s s' =
    (s'.received_cryptogram ≡ s.received_cryptogram) × (s'.credential_pubk ≡ s.credential_pubk)

ok-Kept : (s : ReaderSession) {s' : ReaderSession} → ok s ≡ ok s' → Kept s s'
ok-Kept s h =
    let e = sym (ok-injective h) in
    (ap (λ r. r.received_cryptogram) e, ap (λ r. r.credential_pubk) e)

info-received :
    (t : Tlv) (s : ReaderSession)
    → (set_cryptogram_info t s).0.received_cryptogram ≡ s.received_cryptogram
unfolding set_cryptogram_info
info-received t s = elim (Result-cases (get_bytes t 0x5e 0)) [
  | inr (x, e) ↦ rw (set_cryptogram_info, e) refl
  | inl (bitmap, e) ↦ elim (Result-cases (get_bytes t 0x91 0)) [
    | inr (x, e1) ↦ rw (set_cryptogram_info, e, e1) refl
    | inl (credential, e1) ↦ elim (Result-cases (get_bytes t 0x92 0)) [
      | inr (x, e2) ↦ rw (set_cryptogram_info, e, e1, e2) refl
      | inl (revocation, e2) ↦ rw (set_cryptogram_info, e, e1, e2) refl
    ]
  ]
]

module _ (crypto : Crypto) where
  expedited-Kept :
      (s : ReaderSession) {s' : ReaderSession}
      → create_encryption_engine_expedited crypto s ≡ ok s'
      → Kept s s'
  unfolding create_encryption_engine_expedited
  expedited-Kept s h =
      let (sk_reader, _, h1) = >>=-eq-ok (attribute s.expedited_sk_reader) _ h in
      let (sk_device, _, h2) = >>=-eq-ok (attribute s.expedited_sk_device) _ h1 in
      let e = sym (ok-injective h2) in
      (ap (λ r. r.received_cryptogram) e, ap (λ r. r.credential_pubk) e)

  set_ble_encryption-Kept :
      (versions : Option (ℕ × List ℕ)) (s : ReaderSession) {s' : ReaderSession}
      → set_ble_encryption crypto versions s ≡ ok s'
      → Kept s s'
  unfolding set_ble_encryption
  set_ble_encryption-Kept versions s h =
      let (v, _, h1) = >>=-eq-ok (or_raise access_protocol_error versions) _ h in
      let (sk, _, h2) = >>=-eq-ok (attribute s.ble_sk) _ h1 in
      let (engine, _, h3) = >>=-eq-ok (get_ble_encryption crypto reader sk v.0 v.1) _ h2 in
      let e = sym (ok-injective h3) in
      (ap (λ r. r.received_cryptogram) e, ap (λ r. r.credential_pubk) e)

module _ (env : Environment) where
  -- the session holds the cryptogram and the credential
  abbrev pub Holds : ReaderFastCacheEntry → Bytes → Reader → Type 0
  Holds entry cryptogram d =
      (s : ReaderSession) × ((d.session ≡ some s)
        × ((s.received_cryptogram ≡ some cryptogram)
            × (s.credential_pubk ≡ some entry.access_credential)))

  ble-Kept :
      (ble : Bool) (versions : Option (ℕ × List ℕ)) (s : ReaderSession) {s' : ReaderSession}
      → (if ble then set_ble_encryption env.crypto versions s else ok s) ≡ ok s'
      → Kept s s'
  ble-Kept true versions s h = set_ble_encryption-Kept env.crypto versions s h
  ble-Kept false versions s h = ok-Kept s h

  done-Holds :
      (entry : ReaderFastCacheEntry) (cryptogram : Bytes) (s : ReaderSession)
      → s.received_cryptogram ≡ some cryptogram
      → s.credential_pubk ≡ some entry.access_credential
      → Post (Holds entry cryptogram) (set_session s >> pure s)
  unfolding Post ◌>>=◌
  done-Holds entry cryptogram s received identified d = inr (s, (refl, (received, identified)))

  abbrev with_key : ReaderFastCacheEntry → Tlv → ReaderSession → ReaderSession
  with_key entry t s = record (set_cryptogram_info t s).0 {
    credential_pubk = some entry.access_credential;
  }

  accept-Post :
      (entry : ReaderFastCacheEntry) (plain cryptogram : Bytes) (s : ReaderSession)
      → s.received_cryptogram ≡ some cryptogram
      → Post (Holds entry cryptogram) (accept env entry plain s)
  unfolding accept
  accept-Post entry plain cryptogram s received =
      let P = Holds entry cryptogram in
      lift-Post P _ (from_bytes env.ber plain none) λ t _. pure-Post P _ (set_cryptogram_info t s) (
        bind-Post P _ (set_session (set_cryptogram_info t s).0) λ _.
          lift-Post P _ (set_cryptogram_info t s).1 λ _ _.
            bind-Post P _ (set_session (with_key entry t s)) λ _.
              lift-Post P _ (create_encryption_engine_expedited env.crypto (with_key entry t s))
                λ s2 h2. bind-Post P _ (set_session s2) λ _.
                  bind-Post P _ (gets (λ d. is_ble d.transport)) λ ble.
                    bind-Post P _ (gets (λ d. d.ble_versions)) λ versions.
                      lift-Post P _
                        (if ble then set_ble_encryption env.crypto versions s2 else ok s2)
                        λ s3 h3.
                          let (r2, c2) = expedited-Kept env.crypto (with_key entry t s) h2 in
                          let (r3, c3) = ble-Kept ble versions s2 h3 in
                          done-Holds entry cryptogram s3
                            (r3 ∙ (r2 ∙ (info-received t s ∙ received))) (c3 ∙ c2))

  pub accept-Holds :
      (entry : ReaderFastCacheEntry) (plain cryptogram : Bytes) (s : ReaderSession)
      → s.received_cryptogram ≡ some cryptogram
      → (d : Reader)
      → Fails (accept env entry plain s d).1 ⊎ Holds entry cryptogram (accept env entry plain s d).0
  unfolding Post
  accept-Holds entry plain cryptogram s received = accept-Post entry plain cryptogram s received

  pub derived-received :
      (transport : TransportProtocol) (entry : ReaderFastCacheEntry) (s : ReaderSession)
      {s' : ReaderSession}
      → derive_key_volatile_fast env.crypto env.ber transport entry.access_credential.key
          entry.kpersistent s
        ≡ ok s'
      → s'.received_cryptogram ≡ s.received_cryptogram
  unfolding derive_key_volatile_fast
  derived-received transport entry s h =
      let (info, _, h1) = >>=-eq-ok (key_info s) _ h in
      let (salt, _, h2) =
        >>=-eq-ok
          (key_salt env.ber transport volatile_fast_word s (some entry.access_credential.key.get_x))
          _ h1 in
      sym (ap (λ r. r.received_cryptogram) (ok-injective h2))
