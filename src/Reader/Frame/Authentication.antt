-- ===== src/Reader/Frame/Authentication.antt =====
-- The steps of AUTH0, LOAD CERT and AUTH1 of the reader that leave its storage alone.
use aliro_actuator.Common.{
  ℕ, Option, none, some, Bool, true, false, Bytes, Error, invalid_key_error,
}
use aliro_actuator.Device.{Environment}
use aliro_actuator.Reader.{Action, set_reader_ephemeral_key, generate_reader_ephemeral_key}
use aliro_actuator.Reader.Session.{ReaderSession}
use aliro_actuator.Reader.Storage.{ReaderFastCacheEntry}
use aliro_actuator.Reader.Send.{command_auth0, command_load_cert, command_auth1}
use aliro_actuator.Reader.Exchange.{ReaderFailureState, fail_with, with_failure}
use aliro_actuator.Reader.Failure.{failure_process}
use aliro_actuator.Reader.Authentication.{Transaction, send_auth0, epubk_of, on_invalid_key, accept}
use aliro_actuator.Reader.Authentication.Standard.{
  KeyRequest, credential_public_key, key_slot, create_shared_keys, requested_key, new_key,
  handle_auth1_credential_public_key, handle_load_cert, the_cert, send_auth1, certificate_of,
}
use aliro_actuator.Reader.Frame.{KeepsStorage, keeps}
use aliro_actuator.Reader.Frame.Handlers.{
  sends, with_failure-KeepsStorage, fail_with-KeepsStorage, failure_process-KeepsStorage,
}

pub set_reader_ephemeral_key-KeepsStorage :
    (env : Environment) (s : ReaderSession) → KeepsStorage (set_reader_ephemeral_key env.crypto s)
unfolding set_reader_ephemeral_key generate_reader_ephemeral_key KeepsStorage
set_reader_ephemeral_key-KeepsStorage env s = search keeps depth 10

-- a handler of the failures in its place
pub refusing-KeepsStorage :
    {A : Type 0} (env : Environment) (refusal : Error → Option (ℕ × ReaderFailureState))
    (m : Action A)
    → KeepsStorage m
    → KeepsStorage (with_failure (failure_process env) refusal m)
refusing-KeepsStorage env =
    with_failure-KeepsStorage (failure_process env) (failure_process-KeepsStorage env)

pub failing-KeepsStorage :
    (A : Type 0) (env : Environment) (code : ℕ) (state : ReaderFailureState) (x : Error)
    → KeepsStorage (fail_with {A = A} (failure_process env) code state x)
failing-KeepsStorage A env code state x =
    fail_with-KeepsStorage (failure_process env) (failure_process-KeepsStorage env) A code state x

pub ruleset handles = (sends, refusing-KeepsStorage, failing-KeepsStorage)

pub send_auth0-KeepsStorage :
    (env : Environment) (t : Transaction) (policy : ℕ) (s : ReaderSession)
    → KeepsStorage (send_auth0 env t policy s)
unfolding command_auth0 KeepsStorage
send_auth0-KeepsStorage env t policy s = search handles depth 16

on_invalid_key-KeepsStorage : (env : Environment) (x : Error) → KeepsStorage (on_invalid_key env x)
unfolding on_invalid_key KeepsStorage
on_invalid_key-KeepsStorage env invalid_key_error = search handles
on_invalid_key-KeepsStorage env x = search handles

pub epubk_of-KeepsStorage : (env : Environment) (b : Bytes) → KeepsStorage (epubk_of env b)
unfolding epubk_of KeepsStorage
epubk_of-KeepsStorage env b = search (handles, on_invalid_key-KeepsStorage) depth 8

pub accept-KeepsStorage :
    (env : Environment) (entry : ReaderFastCacheEntry) (plain : Bytes) (s : ReaderSession)
    → KeepsStorage (accept env entry plain s)
unfolding accept KeepsStorage
accept-KeepsStorage env entry plain s = search handles depth 24

pub handle_load_cert-KeepsStorage : (env : Environment) → KeepsStorage (handle_load_cert env)
unfolding handle_load_cert the_cert command_load_cert KeepsStorage
handle_load_cert-KeepsStorage env = search handles depth 16

pub create_shared_keys-KeepsStorage :
    (env : Environment) (s : ReaderSession) → KeepsStorage (create_shared_keys env s)
unfolding create_shared_keys KeepsStorage
create_shared_keys-KeepsStorage env s = search handles depth 20

pub certificate_of-KeepsStorage :
    (env : Environment) (b : Bool) → KeepsStorage (certificate_of env b)
unfolding the_cert KeepsStorage
certificate_of-KeepsStorage env true = search handles
certificate_of-KeepsStorage env false = search handles

pub send_auth1-KeepsStorage :
    (env : Environment) (k : KeyRequest) (c : Option Bytes) (s : ReaderSession)
    → KeepsStorage (send_auth1 env k c s)
unfolding command_auth1 KeepsStorage
send_auth1-KeepsStorage env k c s = search handles depth 20

requested_key-KeepsStorage :
    (env : Environment) (k : KeyRequest) (key slot : Option Bytes)
    → KeepsStorage (requested_key env k key slot)
unfolding requested_key new_key KeepsStorage
requested_key-KeepsStorage env credential_public_key none slot = search handles
requested_key-KeepsStorage env credential_public_key (some key) (some slot) = search handles
requested_key-KeepsStorage env credential_public_key (some key) none = search handles
requested_key-KeepsStorage env key_slot key none = search handles
requested_key-KeepsStorage env key_slot (some key) (some slot) = search handles
requested_key-KeepsStorage env key_slot none (some slot) = search handles

pub handle_auth1_credential_public_key-KeepsStorage :
    (env : Environment) (k : KeyRequest) (key slot : Option Bytes) (s : ReaderSession)
    → KeepsStorage (handle_auth1_credential_public_key env k key slot s)
unfolding handle_auth1_credential_public_key KeepsStorage
handle_auth1_credential_public_key-KeepsStorage env k key slot s =
    search (handles, requested_key-KeepsStorage) depth 10
