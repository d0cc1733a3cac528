-- ===== src/Reader/Frame/Accepted.antt =====
-- What the reader of access_protocol/reader.py has verified where a transaction of the expedited phase
-- returns, and where its storage has changed.
use aliro_actuator.Common.{
  ℕ, ◌≡◌, ◌⊎◌, ◌∙◌, refl, sym, ap, subst, inl, inr, some, Bool, true, false, not, Bytes, Result, ok,
  err, Error, Result-cases, access_protocol_error, >>=-eq-ok,
}
use aliro_actuator.Apdu.Response.Parse.{Auth1Response}
use aliro_actuator.Trust.{KeyObject}
use aliro_actuator.Device.{Environment}
use aliro_actuator.Reader.{Reader, Action, ◌>>=◌, ◌>>◌, set_session, when}
use aliro_actuator.Reader.Exchange.{fail_with, reader_status}
use aliro_actuator.Reader.Failure.{failure_process}
use aliro_actuator.Trust.Authentication.{create_user_device_authentication}
use aliro_actuator.Reader.Storage.{ReaderStorage, add_kpersistent}
use aliro_actuator.Reader.Session.{
  ReaderSession, check_user_device_authentication, attribute, get_reader_epubkey, set_auth1_info,
  get_reader_group_identifier_key,
}
use aliro_actuator.Reader.Session.Keys.{derive_key_persistent, key_info, key_salt}
use aliro_actuator.Reader.Authentication.{fail_status}
use aliro_actuator.Reader.Authentication.Standard.{
  keep_auth1, accept_auth1, store_kpersistent, handle_auth1, KeyRequest,
}
use aliro_actuator.Reader.Frame.{KeepsStorage}
use aliro_actuator.Reader.Frame.Authentication.{
  handles, failing-KeepsStorage, create_shared_keys-KeepsStorage, certificate_of-KeepsStorage,
  send_auth1-KeepsStorage, handle_auth1_credential_public_key-KeepsStorage,
}
use aliro_actuator.Reader.Frame.Outcomes.{
  Fails, Safe, bind-ok, bind-err, attribute-eq-ok, bind-Safe, lift-Safe,
}

module _ (env : Environment) where
  -- The reader has no fast transactions, and the storage is the same; or the Kpersistent that the session
  -- derives for the key was added.
  abbrev pub Stores : ReaderSession → KeyObject → ReaderStorage → Reader → Type 0
  Stores s key before after =
      ((after.fast_transaction_implemented ≡ false) × (after.storage ≡ before))
      ⊎ ((kpersistent : Bytes) × (derive_key_persistent env.crypto env.ber after.transport key.key s
            ≡ ok kpersistent)
          × (after.storage ≡ add_kpersistent key kpersistent before))

  -- A signature of the user device over the identifiers, the transaction and the two ephemeral keys of
  -- the reader's session was verified with the session's public key, and the storage is the same, or has
  -- Kpersistent for that key.
  pub record Signed (before : ReaderStorage) (after : Reader) : Type 0 where
    pub session : ReaderSession
    pub key : KeyObject
    pub signature : Bytes
    pub held : after.session ≡ some session
    pub keyed : session.credential_pubk ≡ some key
    pub verified : check_user_device_authentication env.crypto env.ber signature session ≡ ok true
    pub stored : Stores session key before after

  pub fail_status-Fails :
      {A : Type 0} (code : ℕ) (d : Reader) → Fails (fail_status {A = A} env code d).1
  unfolding fail_with
  fail_status-Fails code d = elim (Result-cases (failure_process env code reader_status d).1) [
    | inl (u, e) ↦ (
      access_protocol_error,
      ap (λ r. r.1) (bind-ok (failure_process env code reader_status) _ d e),
    )
    | inr (x, e) ↦ (x, ap (λ r. r.1) (bind-err (failure_process env code reader_status) _ d e))
  ]

  failing-Safe :
      (E : ReaderStorage → Reader → Type 0) {A B : Type 0} (code : ℕ) (f : A → Action B)
      → Safe E (fail_status {A = A} env code >>= f)
  unfolding Safe KeepsStorage
  failing-Safe E {A} code f d =
      let (x, e) = fail_status-Fails {A = A} code d in
      inl (
        ap (λ r. r.0.storage) (bind-err (fail_status env code) f d e)
            ∙ failing-KeepsStorage A env code reader_status access_protocol_error d,
        (x, ap (λ r. r.1) (bind-err (fail_status env code) f d e)),
      )

  check-keyed :
      (signature : Bytes) (s : ReaderSession) {b : Bool}
      → check_user_device_authentication env.crypto env.ber signature s ≡ ok b
      → (key : KeyObject) × (s.credential_pubk ≡ some key)
  unfolding check_user_device_authentication
  check-keyed signature s h =
      let (epubk, _, h1) = >>=-eq-ok (attribute s.credential_ephemeral_key) _ h in
      let (reader_epubk, _, h2) = >>=-eq-ok (get_reader_epubkey s) _ h1 in
      let (transaction, _, h3) = >>=-eq-ok (attribute s.transaction_identifier) _ h2 in
      let (content, _, h4) =
        >>=-eq-ok
          (create_user_device_authentication s.reader_identifier epubk reader_epubk transaction) _
          h3 in
      let (key, keyed, _) = >>=-eq-ok (attribute s.credential_pubk) _ h4 in
      (key, attribute-eq-ok s.credential_pubk keyed)

  kept_of :
      (response : Auth1Response) (s : ReaderSession) (key : KeyObject)
      → s.credential_pubk ≡ some key
      → check_user_device_authentication env.crypto env.ber response.user_device_signature s
        ≡ ok true
      → (before : ReaderStorage) (after : Reader) → Stores s key before after
      → Signed before (record after { session = some (set_auth1_info response s) })
  unfolding check_user_device_authentication set_auth1_info get_reader_epubkey derive_key_persistent
      key_info key_salt get_reader_group_identifier_key
  kept_of response s key keyed verified before after stored = record {
    session = set_auth1_info response s;
    key = key;
    signature = response.user_device_signature;
    held = refl;
    keyed = keyed;
    verified = verified;
    stored = stored;
  }

  stores :
      (s : ReaderSession) (key : KeyObject) (d : Reader) (kpersistent : Bytes)
      → s.credential_pubk ≡ some key
      → derive_key_persistent env.crypto env.ber d.transport key.key s ≡ ok kpersistent
      → store_kpersistent env s d
        ≡ (record d { storage = add_kpersistent key kpersistent d.storage }, ok tt)
  unfolding store_kpersistent ◌>>=◌
  stores s key d kpersistent keyed e = simp (keyed, e) refl

  stores_nothing :
      (s : ReaderSession) (key : KeyObject) (d : Reader) (x : Error)
      → s.credential_pubk ≡ some key
      → derive_key_persistent env.crypto env.ber d.transport key.key s ≡ err x
      → store_kpersistent env s d ≡ (d, err x)
  unfolding store_kpersistent ◌>>=◌
  stores_nothing s key d x keyed e = simp (keyed, e) refl

  stored-Safe :
      (response : Auth1Response) (s : ReaderSession) (key : KeyObject) (d : Reader)
      → s.credential_pubk ≡ some key
      → check_user_device_authentication env.crypto env.ber response.user_device_signature s
        ≡ ok true
      → (r : Result Bytes) → derive_key_persistent env.crypto env.ber d.transport key.key s ≡ r
      → let m = store_kpersistent env s >> set_session (set_auth1_info response s) in
        (((m d).0.storage ≡ d.storage) × Fails (m d).1) ⊎ Signed d.storage (m d).0
  unfolding ◌>>=◌
  stored-Safe response s key d keyed verified (err x) e =
      let none_stored = stores_nothing s key d x keyed e in
      rw (◌>>=◌, ap (λ r. r.1) none_stored) (inl (ap (λ r. r.0.storage) none_stored, (x, refl)))
  stored-Safe response s key d keyed verified (ok kpersistent) e =
      rw (◌>>=◌, ap (λ r. r.1) (stores s key d kpersistent keyed e))
        (inr (
          kept_of response s key keyed verified d.storage (store_kpersistent env s d).0 (
            subst (λ (after : Reader). Stores s key d.storage after)
              (sym (ap (λ r. r.0) (stores s key d kpersistent keyed e)))
              (inr (kpersistent, e, refl)))))

  kept-Safe :
      (response : Auth1Response) (s : ReaderSession) (caches : Bool) (d : Reader)
      → d.fast_transaction_implemented ≡ caches
      → check_user_device_authentication env.crypto env.ber response.user_device_signature s
        ≡ ok true
      → let m = when caches (store_kpersistent env s) >> set_session (set_auth1_info response s) in
        (((m d).0.storage ≡ d.storage) × Fails (m d).1) ⊎ Signed d.storage (m d).0
  unfolding when ◌>>=◌
  kept-Safe response s true d implemented verified =
      let (key, keyed) = check-keyed response.user_device_signature s verified in
      stored-Safe response s key d keyed verified _ refl
  kept-Safe response s false d implemented verified =
      let (key, keyed) = check-keyed response.user_device_signature s verified in
      inr (kept_of response s key keyed verified d.storage d (inl (implemented, refl)))

  keep_auth1-Safe :
      (response : Auth1Response) (s : ReaderSession)
      → check_user_device_authentication env.crypto env.ber response.user_device_signature s
        ≡ ok true
      → Safe Signed (keep_auth1 env response s)
  unfolding keep_auth1 Safe ◌>>=◌
  keep_auth1-Safe response s verified d =
      kept-Safe response s d.fast_transaction_implemented d refl verified

  checked-Safe :
      (response : Auth1Response) (s : ReaderSession) (good : Bool)
      → check_user_device_authentication env.crypto env.ber response.user_device_signature s
        ≡ ok good
      → Safe Signed (when (not good) (fail_status env 0x0004) >> keep_auth1 env response s)
  unfolding Safe when ◌>>=◌ KeepsStorage
  checked-Safe response s true verified d = keep_auth1-Safe response s verified d
  checked-Safe response s false verified d =
      failing-Safe Signed {A = Unit {0}} 0x0004 (λ _. keep_auth1 env response s) d

  accept_auth1-Safe :
      (response : Auth1Response) (s : ReaderSession) → Safe Signed (accept_auth1 env response s)
  unfolding accept_auth1
  accept_auth1-Safe response s =
      lift-Safe Signed
        (check_user_device_authentication env.crypto env.ber response.user_device_signature s) _
        (checked-Safe response s)

  -- Whatever the reader's state and the answers that it gets, AUTH1 raises an exception and leaves the
  -- storage alone, or it has verified a signature.
  pub handle_auth1-Safe :
      (expected : KeyRequest) (certificate : Bool)
      → Safe Signed (handle_auth1 env expected certificate)
  unfolding handle_auth1 Safe KeepsStorage
  handle_auth1-Safe expected certificate =
      search
        (
          bind-Safe, handles, create_shared_keys-KeepsStorage, certificate_of-KeepsStorage,
          send_auth1-KeepsStorage, handle_auth1_credential_public_key-KeepsStorage,
          accept_auth1-Safe,
        )
        depth 30
