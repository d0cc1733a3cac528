-- ===== src/Device/Frame/Handlers.antt =====
-- Every handler of the user device but that of EXCHANGE leaves the mailbox alone.
use aliro_actuator.Common.{ℕ, List, Bytes, Error, Option, none, some, Result, Bool, true, false}
use aliro_actuator.Apdu.Chain.{Apdu}
use aliro_actuator.Apdu.Response.{Response}
use aliro_actuator.Apdu.Parse.{Auth0Fields, ParsedCommand, select, auth0}
use aliro_actuator.Encryption.{EncryptionEngine}
use aliro_actuator.Device.{Environment, set_credential_ephemeral_key}
use aliro_actuator.Device.Session.{UserSession}
use aliro_actuator.Device.Send.{
  Phase, handle_chaining_send_response, respond, respond_encrypted, response_select, response_auth0,
}
use aliro_actuator.Device.Authentication.{
  fail_with, selected_state, save_auth0_data, handle_select, handle_auth0, optional_timestamp,
  timestamps, ble_setup_if_ble, fast_cryptogram, cryptogram_for, auth0_cryptogram,
}
use aliro_actuator.Device.Frame.{KeepsMailbox, mailboxes, keeps, failure_process-KeepsMailbox}

pub respond-KeepsMailbox :
    (env : Environment) (create : Apdu → Result (Apdu × List Response))
    → KeepsMailbox (respond env create)
unfolding respond handle_chaining_send_response KeepsMailbox
respond-KeepsMailbox env create = search keeps

pub respond_encrypted-KeepsMailbox :
    (env : Environment) (phase : Phase) (e : EncryptionEngine)
    (create : Apdu → EncryptionEngine → EncryptionEngine × Result (Apdu × List Response))
    → KeepsMailbox (respond_encrypted env phase e create)
unfolding respond_encrypted KeepsMailbox
respond_encrypted-KeepsMailbox env phase e create = search (keeps, respond-KeepsMailbox)

pub fail_with-KeepsMailbox :
    (A : Type 0) (status : ℕ) (x : Error) → KeepsMailbox (fail_with {A = A} status x)
unfolding fail_with
fail_with-KeepsMailbox A status x = search (keeps, failure_process-KeepsMailbox)

pub ruleset answers =
    (keeps, respond-KeepsMailbox, respond_encrypted-KeepsMailbox, fail_with-KeepsMailbox)

-- SELECT
pub handle_select-KeepsMailbox :
    (env : Environment) (p : ParsedCommand) → KeepsMailbox (handle_select env p)
unfolding handle_select selected_state response_select KeepsMailbox
handle_select-KeepsMailbox env (select aid) = search answers depth 12
handle_select-KeepsMailbox env p = search answers

optional_timestamp-KeepsMailbox :
    (env : Environment) (f : Bytes → Result Bytes) (document : Option Bytes)
    → KeepsMailbox (optional_timestamp env f document)
unfolding optional_timestamp KeepsMailbox
optional_timestamp-KeepsMailbox env f none = search answers
optional_timestamp-KeepsMailbox env f (some document) = search answers

pub timestamps-KeepsMailbox : (env : Environment) → KeepsMailbox (timestamps env)
unfolding timestamps KeepsMailbox
timestamps-KeepsMailbox env = search (answers, optional_timestamp-KeepsMailbox) depth 8

pub ble_setup_if_ble-KeepsMailbox :
    (env : Environment) (s : UserSession) → KeepsMailbox (ble_setup_if_ble env s)
unfolding ble_setup_if_ble KeepsMailbox
ble_setup_if_ble-KeepsMailbox env s = search answers depth 14

fast_cryptogram-KeepsMailbox :
    (env : Environment) (kpersistent : Bytes) (s : UserSession)
    → KeepsMailbox (fast_cryptogram env kpersistent s)
unfolding fast_cryptogram KeepsMailbox
fast_cryptogram-KeepsMailbox env kpersistent s =
    search (answers, timestamps-KeepsMailbox, ble_setup_if_ble-KeepsMailbox) depth 14

cryptogram_for-KeepsMailbox :
    (env : Environment) (kpersistent : Option Bytes) (s : UserSession)
    → KeepsMailbox (cryptogram_for env kpersistent s)
unfolding cryptogram_for KeepsMailbox
cryptogram_for-KeepsMailbox env none s = search answers depth 8
cryptogram_for-KeepsMailbox env (some kpersistent) s =
    fast_cryptogram-KeepsMailbox env kpersistent s

auth0_cryptogram-KeepsMailbox :
    (env : Environment) (fast : Bool) (s : UserSession) → KeepsMailbox (auth0_cryptogram env fast s)
unfolding auth0_cryptogram KeepsMailbox
auth0_cryptogram-KeepsMailbox env false s = search answers depth 8
auth0_cryptogram-KeepsMailbox env true s = search (answers, cryptogram_for-KeepsMailbox) depth 8

save_auth0_data-KeepsMailbox :
    (env : Environment) (fields : Auth0Fields) (s : UserSession)
    → KeepsMailbox (save_auth0_data env fields s)
unfolding save_auth0_data KeepsMailbox
save_auth0_data-KeepsMailbox env fields s = search answers depth 8

pub handle_auth0-KeepsMailbox :
    (env : Environment) (p : ParsedCommand) → KeepsMailbox (handle_auth0 env p)
unfolding handle_auth0 set_credential_ephemeral_key response_auth0 KeepsMailbox
handle_auth0-KeepsMailbox env (auth0 checked fields) =
    search (answers, save_auth0_data-KeepsMailbox, auth0_cryptogram-KeepsMailbox) depth 20
handle_auth0-KeepsMailbox env p = search answers
