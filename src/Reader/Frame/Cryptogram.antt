-- ===== src/Reader/Frame/Cryptogram.antt =====
-- AUTH0 of a transaction of the reader of access_protocol/reader.py, and its search for a cryptogram.
use aliro_actuator.Common.{
  ℕ, ◌≡◌, ◌⊎◌, ◌∙◌, refl, sym, ap, subst, inl, inr, Option, none, some, Bool, true, false, Bytes,
  [], ◌∷◌, Result, ok, err, Result-cases, access_protocol_error, cryptogram_not_found,
  verification_error, Option-cases,
}
use aliro_actuator.Device.{Environment}
use aliro_actuator.Reader.{
  Reader, Action, ◌>>=◌, when, gets, FastTransactionHandling, abort_transaction,
  continue_with_standard,
}
use aliro_actuator.Reader.Storage.{ReaderStorage, ReaderFastCacheEntry}
use aliro_actuator.Reader.Session.{ReaderSession}
use aliro_actuator.Reader.Exchange.{reader_status}
use aliro_actuator.Reader.Authentication.{
  Transaction, fast, standard, after_trial, try_entries, search_storage, decrypt_received, abort,
  not_found, or_not_found, check_cryptogram, handle_auth0, fail_status, accept, set_session_key,
  is_ble_uwb,
}
use aliro_actuator.Reader.Frame.{KeepsStorage, bind-KeepsStorage}
use aliro_actuator.Reader.Frame.Handlers.{failure_process-KeepsStorage}
use aliro_actuator.Reader.Frame.Authentication.{
  handles, failing-KeepsStorage, accept-KeepsStorage, send_auth0-KeepsStorage,
  epubk_of-KeepsStorage, set_reader_ephemeral_key-KeepsStorage,
}
use aliro_actuator.Reader.Frame.Outcomes.{
  Fails, Safe, bind-Safe, then-Safe, then-Fails, failed-Safe, bind-ok, bind-err, ok-ne-err,
}
use aliro_actuator.Reader.Frame.Accepted.{fail_status-Fails}
use aliro_actuator.Reader.Frame.Opened.{OpenedBy, Opens, try_entries-Opens}

-- a bind of two operations that leave the storage alone, at a reader
kept :
    {A B : Type 0} (m : Action A) (f : A → Action B)
    → KeepsStorage m
    → ((a : A) → KeepsStorage (f a))
    → (d : Reader) → ((m >>= f) d).0.storage ≡ d.storage
unfolding KeepsStorage
kept m f h k = bind-KeepsStorage m f h k

some-ne-none : {A : Type 0} {a : A} → ok (some a) ≡ ok none → ⊥
some-ne-none h = cc

module _ (env : Environment) where
  after_trial-KeepsStorage :
      (entry : ReaderFastCacheEntry) (s : ReaderSession) (rest : Action (Option ReaderSession))
      (r : Result Bytes)
      → KeepsStorage rest
      → KeepsStorage (after_trial env entry s rest r)
  unfolding after_trial KeepsStorage
  after_trial-KeepsStorage entry s rest (ok plain) h d =
      bind-KeepsStorage (accept env entry plain s) _ (accept-KeepsStorage env entry plain s)
        (λ a d'. refl) d
  after_trial-KeepsStorage entry s rest (err verification_error) h d = h d
  after_trial-KeepsStorage entry s rest (err x) h d = refl

  try_entries-KeepsStorage :
      (cryptogram : Bytes) (entries : ReaderStorage) (s : ReaderSession)
      → KeepsStorage (try_entries env cryptogram entries s)
  unfolding try_entries KeepsStorage
  try_entries-KeepsStorage cryptogram [] s = search handles
  try_entries-KeepsStorage cryptogram (entry ∷ entries) s =
      search (handles, after_trial-KeepsStorage, try_entries-KeepsStorage cryptogram entries) depth
        12

  abort-KeepsStorage : (h : FastTransactionHandling) → KeepsStorage (abort env h)
  unfolding abort KeepsStorage
  abort-KeepsStorage abort_transaction d = failure_process-KeepsStorage env 0x00 reader_status d
  abort-KeepsStorage continue_with_standard d = refl

  or_not_found-KeepsStorage : (found : Option ReaderSession) → KeepsStorage (or_not_found env found)
  unfolding or_not_found not_found KeepsStorage
  or_not_found-KeepsStorage (some s) = search handles
  or_not_found-KeepsStorage none = search (handles, abort-KeepsStorage) depth 8

  decrypt_received-KeepsStorage :
      (cryptogram : Option Bytes) (s : ReaderSession)
      → KeepsStorage (decrypt_received env cryptogram s)
  unfolding decrypt_received search_storage KeepsStorage
  decrypt_received-KeepsStorage none s = search handles
  decrypt_received-KeepsStorage (some cryptogram) s =
      search (handles, try_entries-KeepsStorage, or_not_found-KeepsStorage) depth 14

  check_cryptogram-KeepsStorage :
      (t : Transaction) (cryptogram : Option Bytes) (s : ReaderSession)
      → KeepsStorage (check_cryptogram env t cryptogram s)
  unfolding check_cryptogram KeepsStorage
  check_cryptogram-KeepsStorage standard none s = search handles
  check_cryptogram-KeepsStorage standard (some c) s = search handles
  check_cryptogram-KeepsStorage fast c s = search (handles, decrypt_received-KeepsStorage) depth 12

  ruleset auth0_steps = (
    handles, send_auth0-KeepsStorage, epubk_of-KeepsStorage, set_reader_ephemeral_key-KeepsStorage,
  )

  pub handle_auth0-KeepsStorage :
      (t : Transaction) (policy : ℕ) → KeepsStorage (handle_auth0 env t policy)
  unfolding handle_auth0 KeepsStorage
  handle_auth0-KeepsStorage t policy = search (auth0_steps, check_cryptogram-KeepsStorage) depth 24

  -- an entry of the storage before opened a cryptogram
  abbrev pub Opened : ReaderStorage → Reader → Type 0
  Opened before after = OpenedBy env before after

  not_found-Fails : (d : Reader) → Fails (not_found env d).1
  unfolding not_found
  not_found-Fails d =
      then-Fails (λ d'. (d', ok d'.fast_transaction_handling)) _ d
        (λ h d'. then-Fails (abort env h) _ d' (λ _ d''. (cryptogram_not_found, refl)))

  found :
      (entries : ReaderStorage) (after : Reader) (s : ReaderSession)
      {r : Result (Option ReaderSession)}
      → r ≡ ok (some s)
      → Fails r ⊎ ((r ≡ ok none) ⊎ OpenedBy env entries after)
      → OpenedBy env entries after
  found entries after s e (inl (x, f)) = absurd (ok-ne-err (sym e ∙ f))
  found entries after s e (inr (inl f)) = absurd (some-ne-none (sym e ∙ f))
  found entries after s e (inr (inr o)) = o

  tried-Safe :
      (entries : ReaderStorage) (m : Action (Option ReaderSession)) (d : Reader)
      → Opens env entries m
      → KeepsStorage m
      → (((m >>= or_not_found env) d).0.storage ≡ d.storage)
        × (Fails ((m >>= or_not_found env) d).1
            ⊎ OpenedBy env entries ((m >>= or_not_found env) d).0)
  unfolding Opens or_not_found
  tried-Safe entries m d h keeps' = (
    kept m (or_not_found env) keeps' or_not_found-KeepsStorage d,
    (elim (Result-cases (m d).1) [
      | inr (x, e) ↦ inl (x, ap (λ r. r.1) (bind-err m (or_not_found env) d e))
      | inl (none, e) ↦
          let (x, f) = not_found-Fails (m d).0 in
          inl (x, ap (λ r. r.1) (bind-ok m (or_not_found env) d e) ∙ f)
      | inl (some s, e) ↦ inr (
          subst (λ r. OpenedBy env entries r.0) (sym (bind-ok m (or_not_found env) d e))
            (found entries (m d).0 s e (h d)))
    ]),
  )

  search_storage-Safe :
      (cryptogram : Bytes) (s : ReaderSession) → Safe Opened (search_storage env cryptogram s)
  unfolding Safe search_storage ◌>>=◌
  search_storage-Safe cryptogram s d =
      let received : ReaderSession = record s { received_cryptogram = some cryptogram } in
      let (same, outcome) =
        tried-Safe d.storage (try_entries env cryptogram d.storage received)
          (record d { session = some received })
          (try_entries-Opens env cryptogram d.storage received refl)
          (try_entries-KeepsStorage cryptogram d.storage received) in
      elim outcome [ inl fails ↦ inl (same, fails) | inr o ↦ inr o ]

  decrypt_received-Safe :
      (cryptogram : Option Bytes) (s : ReaderSession)
      → Safe Opened (decrypt_received env cryptogram s)
  unfolding decrypt_received
  decrypt_received-Safe (some c) s = search_storage-Safe c s
  decrypt_received-Safe none s =
      failed-Safe Opened (fail_status env 0x00)
        (failing-KeepsStorage _ env 0x00 reader_status access_protocol_error)
        (fail_status-Fails env 0x00)

  -- The session key that is handed over is not part of the session.
  session_key-session :
      (s : ReaderSession) (uwb : Bool) (d : Reader)
      → (when uwb (set_session_key env s) d).0.session ≡ d.session
  unfolding when ◌>>=◌
  session_key-session s false d = refl
  session_key-session s true d = elim (Option-cases s.ur_sk) [
    | inl e ↦ simp e refl
    | inr (key, e) ↦ simp e refl
  ]

  same-Opened :
      (before : ReaderStorage) (d after : Reader)
      → after.session ≡ d.session
      → OpenedBy env before d
      → OpenedBy env before after
  same-Opened before d after e o = record {
    front = o.front;
    entry = o.entry;
    back = o.back;
    place = o.place;
    transport = o.transport;
    session = o.session;
    earlier = o.earlier;
    derived = o.derived;
    sk = o.sk;
    cryptogram = o.cryptogram;
    plain = o.plain;
    held = e ∙ o.held;
    received = o.received;
    identified = o.identified;
    derives = o.derives;
    keyed = o.keyed;
    opened = o.opened;
  }

  abbrev hand_over : ReaderSession → Action (Unit {0})
  hand_over s = gets (λ d. is_ble_uwb env d.transport) >>= λ uwb. when uwb (set_session_key env s)

  check_cryptogram-Safe :
      (cryptogram : Option Bytes) (s : ReaderSession)
      → Safe Opened (check_cryptogram env fast cryptogram s)
  unfolding check_cryptogram ◌>>=◌
  check_cryptogram-Safe c s =
      then-Safe Opened (decrypt_received env c s) hand_over (decrypt_received-Safe c s)
        (λ s' before d.
          same-Opened before d (hand_over s' d).0
            (session_key-session s' (is_ble_uwb env d.transport) d))

  pub handle_auth0-Safe : (policy : ℕ) → Safe Opened (handle_auth0 env fast policy)
  unfolding handle_auth0 Safe KeepsStorage
  handle_auth0-Safe policy = search (bind-Safe Opened, auth0_steps, check_cryptogram-Safe) depth 24
