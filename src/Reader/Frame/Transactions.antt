-- ===== src/Reader/Frame/Transactions.antt =====
-- The two transactions of the expedited phase of the reader of access_protocol/reader.py.
use aliro_actuator.Common.{
  ℕ, ◌≡◌, ◌⊎◌, ◌∙◌, refl, sym, subst, inl, inr, Bool, false, Error, Result-cases,
  cryptogram_not_found,
}
use aliro_actuator.Device.{Environment}
use aliro_actuator.Reader.{
  Reader, Action, catch, FastTransactionHandling, abort_transaction, continue_with_standard,
}
use aliro_actuator.Reader.Storage.{ReaderStorage}
use aliro_actuator.Reader.Authentication.{fast, handle_auth0}
use aliro_actuator.Reader.Authentication.Standard.{
  on_not_found, go_on, credential_public_key, expedited_transaction_fast,
  expedited_transaction_standard,
}
use aliro_actuator.Reader.Frame.{KeepsStorage}
use aliro_actuator.Reader.Frame.Authentication.{handles, handle_load_cert-KeepsStorage}
use aliro_actuator.Reader.Frame.Outcomes.{Fails, Safe, bind-Safe, ok-ne-err}
use aliro_actuator.Reader.Frame.Accepted.{Signed, handle_auth1-Safe}
use aliro_actuator.Reader.Frame.Opened.{OpenedBy}
use aliro_actuator.Reader.Frame.Cryptogram.{Opened, handle_auth0-KeepsStorage, handle_auth0-Safe}

module _ (env : Environment) where
  standard_steps :
      (policy : ℕ) (load_cert : Bool)
      → Safe (Signed env) (expedited_transaction_standard env policy load_cert)
  unfolding expedited_transaction_standard Safe KeepsStorage
  standard_steps policy load_cert =
      search
        (
          bind-Safe (Signed env),
          handles,
          handle_auth0-KeepsStorage,
          handle_load_cert-KeepsStorage,
          handle_auth1-Safe env,
        )
        depth 10

  -- Whatever the state of the reader and the answers that it gets, a standard transaction of the expedited phase raises an exception and leaves the storage alone, or a signature of the user device was verified, with the public key of the session that the reader then holds, over the identifiers, the transaction and the ephemeral keys of that session. In the second case the Kpersistent that this session derives for that key was added to the storage, or the reader has no fast transactions and the storage is the same.
  pub expedited_transaction_standard-Safe :
      (policy : ℕ) (load_cert : Bool) (d : Reader)
      → let r = expedited_transaction_standard env policy load_cert d in
        ((r.0.storage ≡ d.storage) × Fails r.1) ⊎ Signed env d.storage r.0
  unfolding Safe
  expedited_transaction_standard-Safe policy load_cert = standard_steps policy load_cert

  -- a cryptogram or a signature
  abbrev OpenedOrSigned : ReaderStorage → Reader → Type 0
  OpenedOrSigned before after = OpenedBy env before after ⊎ Signed env before after

  go_on-Safe : (h : FastTransactionHandling) → Safe (Signed env) (go_on env h)
  unfolding go_on Safe
  go_on-Safe continue_with_standard d = handle_auth1-Safe env credential_public_key false d
  go_on-Safe abort_transaction d = inl (refl, (cryptogram_not_found, refl))

  on_not_found-Safe : (x : Error) → Safe (Signed env) (on_not_found env x)
  unfolding on_not_found Safe
  on_not_found-Safe cryptogram_not_found =
      search (bind-Safe (Signed env), handles, go_on-Safe) depth 6
  on_not_found-Safe x = λ d. inl (refl, (x, refl))

  caught-Safe :
      (m : Action (Unit {0})) (handler : Error → Action (Unit {0}))
      → Safe (Opened env) m
      → KeepsStorage m
      → ((x : Error) → Safe (Signed env) (handler x))
      → Safe OpenedOrSigned (catch m handler)
  unfolding catch Safe KeepsStorage
  caught-Safe m handler h keep k d = elim (Result-cases (m d).1) [
    | inl (a, e) ↦
        rw (catch, e)
          (elim (h d) [ inl (same, (x, f)) ↦ absurd (ok-ne-err (sym e ∙ f)) | inr o ↦ inr (inl o) ])
    | inr (x, e) ↦
        rw (catch, e)
          (elim (k x (m d).0) [
            | inl (same, fails) ↦ inl (same ∙ keep d, fails)
            | inr signed ↦
                inr
                  (inr (subst (λ before. Signed env before (handler x (m d).0).0) (keep d) signed))
          ])
  ]

  -- Whatever the state of the reader and the answers that it gets, a fast transaction of the expedited phase raises an exception and leaves the storage alone, or the session that the reader then holds has a cryptogram and the access credential of an entry of the storage, and with a key derived from that entry the cryptogram was decrypted and its tag verified, or a signature of the user device was verified as in a standard transaction.
  pub expedited_transaction_fast-Safe :
      (policy : ℕ) (d : Reader)
      → let r = expedited_transaction_fast env policy d in
        ((r.0.storage ≡ d.storage) × Fails r.1)
        ⊎ (OpenedBy env d.storage r.0 ⊎ Signed env d.storage r.0)
  unfolding expedited_transaction_fast Safe
  expedited_transaction_fast-Safe policy =
      caught-Safe (handle_auth0 env fast policy) (on_not_found env) (handle_auth0-Safe env policy)
        (handle_auth0-KeepsStorage env fast policy) on_not_found-Safe
