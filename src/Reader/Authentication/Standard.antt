-- ===== src/Reader/Authentication/Standard.antt =====
-- The handlers of LOAD CERT, AUTH1 and ENVELOPE in the class `Reader` of access_protocol/reader.py, and
-- its two expedited transactions.
use aliro_actuator.Common.{
  ℕ, ◌+◌, List, [], ◌∷◌, Option, none, some, Bool, true, false, not, if◌then◌else◌, Bytes, Result,
  ok, err, Error, or_raise, access_protocol_error, invalid_status_error,
  invalid_response_data_error, verification_error, tlv_error, cryptogram_not_found,
}
use aliro_actuator.Apdu.Response.Parse.{Auth1Response}
use aliro_actuator.Trust.{KeyObject, public_key_of, same_bytes}
use aliro_actuator.Device.{Environment, is_ble}
use aliro_actuator.Reader.{
  FastTransactionHandling, abort_transaction, continue_with_standard, Action, pure, raise, lift,
  gets, modify, when, catch, ◌>>=◌, ◌>>◌, the_session, set_session,
}
use aliro_actuator.Reader.Storage.{add_kpersistent}
use aliro_actuator.Reader.Session.{
  ReaderSession, attribute, get_reader_epubkey, set_auth1_info, check_user_device_authentication,
}
use aliro_actuator.Reader.Session.Keys.{
  set_shared_key, set_ble_encryption, derive_key_volatile, derive_key_persistent,
}
use aliro_actuator.Reader.Send.{command_load_cert, command_auth1, command_envelope}
use aliro_actuator.Reader.Exchange.{ReaderFailureState, reader_status, status_word, with_failure}
use aliro_actuator.Reader.Failure.{failure_process}
use aliro_actuator.Reader.Authentication.{
  plain_refusal, fail_status, set_session_key, standard, fast, handle_auth0,
}

unfoldable pub auth1_refusal : Error → Option (ℕ × ReaderFailureState)
auth1_refusal invalid_status_error = some (0x00, status_word)
auth1_refusal invalid_response_data_error = some (0x0006, reader_status)
auth1_refusal verification_error = some (0x0007, reader_status)
auth1_refusal tlv_error = some (0x0007, reader_status)
auth1_refusal x = none

unfoldable pub envelope_refusal : Error → Option (ℕ × ReaderFailureState)
envelope_refusal invalid_status_error = some (0x0006, reader_status)
envelope_refusal invalid_response_data_error = some (0x0006, reader_status)
envelope_refusal verification_error = some (0x0006, reader_status)
envelope_refusal x = none

-- the members of `Auth1Response`
pub data KeyRequest : Type 0 where
  key_slot credential_public_key : KeyRequest

abbrev request_value : KeyRequest → ℕ
request_value key_slot = 0x00
request_value credential_public_key = 0x01

-- the keys of the entries with the key slot
unfoldable pub valid_keys : Bytes → List (Bytes × KeyObject) → List KeyObject
valid_keys slot [] = []
valid_keys slot ((s, key) ∷ entries) =
    if same_bytes s slot then key ∷ valid_keys slot entries else valid_keys slot entries

-- the only one
abbrev pub the_only : List KeyObject → Result KeyObject
the_only (key ∷ []) = ok key
the_only _ = err access_protocol_error

unfoldable pub lookup_credential_public_key : Bytes → List (Bytes × KeyObject) → Result KeyObject
lookup_credential_public_key slot entries = the_only (valid_keys slot entries)

module _ (env : Environment) where
  unfoldable pub the_cert : Action Bytes
  the_cert d = (d, or_raise access_protocol_error d.reader_cert)

  unfoldable pub handle_load_cert : Action (Unit {0})
  handle_load_cert = do
    the_session
    cert ← the_cert
    with_failure (failure_process env) plain_refusal (command_load_cert env cert)

  unfoldable pub create_shared_keys : ReaderSession → Action ReaderSession
  create_shared_keys s = do
    s1 ← lift (set_shared_key env.crypto s)
    set_session s1
    transport ← gets (λ d. d.transport)
    s2 ← lift (derive_key_volatile env.crypto env.ber transport s1)
    set_session s2
    versions ← gets (λ d. d.ble_versions)
    s3 ← lift (if is_ble transport then set_ble_encryption env.crypto versions s2 else ok s2)
    set_session s3
    pure s3

  -- `PublicKey(...)`, an object of its own
  unfoldable pub new_key : Bytes → Action KeyObject
  new_key b = do
    key ← lift (public_key_of env.crypto b)
    identity ← gets (λ d. d.created)
    modify (λ d. record d { created = identity + 1 })
    pure (record { key = key; identity = identity })

  -- the public key of the response, or the one with its key slot
  unfoldable pub requested_key : KeyRequest → Option Bytes → Option Bytes → Action KeyObject
  requested_key credential_public_key none slot = fail_status env 0x0022
  requested_key credential_public_key (some key) (some slot) = fail_status env 0x0006
  requested_key credential_public_key (some key) none = new_key key
  requested_key key_slot key none = fail_status env 0x0021
  requested_key key_slot (some key) (some slot) = fail_status env 0x0006
  requested_key key_slot none (some slot) =
      λ d. (d, lookup_credential_public_key slot d.key_slot_list)

  unfoldable pub handle_auth1_credential_public_key :
      KeyRequest → Option Bytes → Option Bytes → ReaderSession → Action ReaderSession
  handle_auth1_credential_public_key expected key slot s = do
    k ← requested_key expected key slot
    let s' : ReaderSession = record s { credential_pubk = some k }
    set_session s'
    pure s'

  abbrev pub send_auth1 : KeyRequest → Option Bytes → ReaderSession → Action Auth1Response
  send_auth1 expected certificate s = do
    identifier ← gets (λ d. d.reader_identifier)
    epubk ← lift (attribute s.credential_ephemeral_key)
    reader_epubk ← lift (get_reader_epubkey s)
    transaction ← lift (attribute s.transaction_identifier)
    command_auth1 env (request_value expected) identifier epubk reader_epubk transaction certificate

  abbrev pub certificate_of : Bool → Action (Option Bytes)
  certificate_of false = pure none
  certificate_of true = do cert ← the_cert; pure (some cert)

  -- Kpersistent of the session's access credential is stored.
  unfoldable pub store_kpersistent : ReaderSession → Action (Unit {0})
  store_kpersistent s = do
    key ← lift (attribute s.credential_pubk)
    transport ← gets (λ d. d.transport)
    kpersistent ← lift (derive_key_persistent env.crypto env.ber transport key.key s)
    modify (λ d. record d { storage = add_kpersistent key kpersistent d.storage })

  -- what is kept of a response whose signature was verified
  unfoldable pub keep_auth1 : Auth1Response → ReaderSession → Action (Unit {0})
  keep_auth1 response s = do
    caches ← gets (λ d. d.fast_transaction_implemented)
    when caches (store_kpersistent s)
    set_session (set_auth1_info response s)

  -- the signature of the user device, and Kpersistent behind it
  unfoldable pub accept_auth1 : Auth1Response → ReaderSession → Action (Unit {0})
  accept_auth1 response s = do
    good ←
        lift (check_user_device_authentication env.crypto env.ber response.user_device_signature s)
    when (not good) (fail_status env 0x0004)
    keep_auth1 response s

  unfoldable pub handle_auth1 : KeyRequest → Bool → Action (Unit {0})
  handle_auth1 expected certificate = do
    s0 ← the_session
    s1 ← create_shared_keys s0
    ble ← gets (λ d. is_ble d.transport)
    when ble (set_session_key env s1)
    certificate_data ← certificate_of certificate
    response ←
        with_failure (failure_process env) auth1_refusal (send_auth1 expected certificate_data s1)
    s2 ← the_session
    s3 ←
        handle_auth1_credential_public_key expected response.credential_public_key response.key_slot
          s2
    accept_auth1 response s3

  unfoldable pub handle_envelope : Bytes → Action Bytes
  handle_envelope request = do
    the_session
    with_failure (failure_process env) envelope_refusal (command_envelope env request)

  unfoldable pub go_on : FastTransactionHandling → Action (Unit {0})
  go_on continue_with_standard = handle_auth1 credential_public_key false
  go_on abort_transaction = raise cryptogram_not_found

  -- `except CryptogramNotFound`
  unfoldable pub on_not_found : Error → Action (Unit {0})
  on_not_found cryptogram_not_found = do
    handling ← gets (λ d. d.fast_transaction_handling)
    go_on handling
  on_not_found x = raise x

  -- A cryptogram that was not found is followed by AUTH1, or ends the transaction.
  unfoldable pub expedited_transaction_fast : ℕ → Action (Unit {0})
  expedited_transaction_fast policy = catch (handle_auth0 env fast policy) on_not_found

  unfoldable pub expedited_transaction_standard : ℕ → Bool → Action (Unit {0})
  expedited_transaction_standard policy load_cert = do
    handle_auth0 env standard policy
    when load_cert handle_load_cert
    handle_auth1 credential_public_key false
