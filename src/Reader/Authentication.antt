-- ===== src/Reader/Authentication.antt =====
-- The handlers of SELECT and AUTH0 in the class `Reader` of access_protocol/reader.py.
pub mod Standard
pub mod KeySlot
use aliro_actuator.Common.{
  ℕ, List, [], ◌∷◌, Option, none, some, Bool, true, false, not, ◌==◌, ◌||◌, ◌&&◌, if◌then◌else◌,
  length, drop_last, take_last, Bytes, Result, ok, err, Error, or_raise, access_protocol_error,
  invalid_status_error, invalid_response_data_error, verification_error, tlv_error,
  invalid_key_error, cryptogram_not_found, attribute_error, type_error,
}
use aliro_actuator.Common
use aliro_actuator.Tlv.{from_bytes}
use aliro_actuator.Encryption.{decrypt_cryptogram}
use aliro_actuator.Apdu.Chain.{TransportProtocol, ble_uwb, socket_ble, reset_extended_length}
use aliro_actuator.Apdu.Response.Parse.{
  SelectFields, Auth0Response, Auth1Response, expedited_phase_aid, stepup_phase_aid,
}
use aliro_actuator.Trust.{PublicKey, public_key_of, same_bytes}
use aliro_actuator.Device.{Environment, is_ble}
use aliro_actuator.Reader.{
  Reader, FastTransactionHandling, abort_transaction, continue_with_standard, Action, pure, raise,
  lift, gets, modify, when, catch, ◌>>=◌, ◌>>◌, the_session, set_session, set_reader_ephemeral_key,
}
use aliro_actuator.Reader.Storage.{ReaderStorage, ReaderFastCacheEntry, add_kpersistent}
use aliro_actuator.Reader.Session.{
  ReaderSession, attribute, get_reader_epubkey, set_select_info, set_flag, set_cryptogram_info,
  set_auth1_info, check_user_device_authentication,
}
use aliro_actuator.Reader.Session.Keys.{
  protocol_version, set_shared_key, create_encryption_engine_expedited, set_ble_encryption,
  derive_key_volatile, derive_key_volatile_fast, derive_key_persistent,
}
use aliro_actuator.Reader.Send.{
  command_select, command_auth0, command_load_cert, command_auth1, command_envelope,
}
use aliro_actuator.Reader.Exchange.{
  ReaderFailureState, reader_status, status_word, fail_with, with_failure,
}
use aliro_actuator.Reader.Failure.{failure_process}

-- for SELECT, AUTH0 and LOAD CERT, before there is a channel
unfoldable pub plain_refusal : Error → Option (ℕ × ReaderFailureState)
plain_refusal invalid_status_error = some (0x00, status_word)
plain_refusal invalid_response_data_error = some (0x00, reader_status)
plain_refusal x = none

unfoldable pub contains : ℕ → List ℕ → Bool
contains n [] = false
contains n (m ∷ ms) = m == n || contains n ms

abbrev versions_contain : Option (List ℕ) → Bool
versions_contain none = true
versions_contain (some versions) = contains protocol_version versions

-- the members of `Transaction`
pub data Transaction : Type 0 where
  standard fast : Transaction

abbrev transaction_value : Transaction → ℕ
transaction_value standard = 0x00
transaction_value fast = 0x01

abbrev is_fast : Transaction → Bool
is_fast fast = true
is_fast standard = false

abbrev pub fail_status : {A : Type 0} → Environment → ℕ → Action A
fail_status env code = fail_with (failure_process env) code reader_status access_protocol_error

module _ (env : Environment) where
  unfoldable pub check_select : SelectFields → Action (Unit {0})
  check_select fields = do
    when
        (not (
          same_bytes fields.compl_aid expedited_phase_aid
          || same_bytes fields.compl_aid stepup_phase_aid))
        (fail_status env 0x00)
    when (not (fields.application_type == 0x0000)) (fail_status env 0x00)
    when (not (versions_contain fields.versions)) (fail_status env 0x27)

  unfoldable pub handle_select : Bytes → Bool → Action (Unit {0})
  handle_select aid check_apdu_length = do
    s ← the_session
    modify (λ d. record d { apdu = reset_extended_length d.apdu })
    fields ←
        with_failure (failure_process env) plain_refusal (command_select env aid check_apdu_length)
    check_select fields
    set_session (set_select_info fields s)

  unfoldable pub on_invalid_key : Error → Action PublicKey
  on_invalid_key invalid_key_error = fail_status env 0x00
  on_invalid_key x = raise x

  -- `PublicKey(auth0_response.credential_epubk)`
  unfoldable pub epubk_of : Bytes → Action PublicKey
  epubk_of b = catch (lift (public_key_of env.crypto b)) on_invalid_key

  unfoldable pub accept : ReaderFastCacheEntry → Bytes → ReaderSession → Action ReaderSession
  accept entry plain s = do
    d ← lift (from_bytes env.ber plain none)
    (s', outcome) ← pure (set_cryptogram_info d s)
    set_session s'
    lift outcome
    let with_key : ReaderSession = record s' { credential_pubk = some entry.access_credential }
    set_session with_key
    with_engine ← lift (create_encryption_engine_expedited env.crypto with_key)
    set_session with_engine
    ble ← gets (λ d. is_ble d.transport)
    versions ← gets (λ d. d.ble_versions)
    done ← lift (if ble then set_ble_encryption env.crypto versions with_engine else ok with_engine)
    set_session done
    pure done

  -- `except VerificationError: pass`
  unfoldable pub after_trial :
      ReaderFastCacheEntry
      → ReaderSession
      → Action (Option ReaderSession)
      → Result Bytes
      → Action (Option ReaderSession)
  after_trial entry s rest (ok plain) = do done ← accept entry plain s; pure (some done)
  after_trial entry s rest (err verification_error) = rest
  after_trial entry s rest (err x) = raise x

  -- the stored entries, one after the other, until one decrypts the cryptogram
  unfoldable pub try_entries : Bytes → ReaderStorage → ReaderSession → Action (Option ReaderSession)
  try_entries cryptogram [] s = pure none
  try_entries cryptogram (entry ∷ entries) s = do
    transport ← gets (λ d. d.transport)
    derived ← lift (
        derive_key_volatile_fast env.crypto env.ber transport entry.access_credential.key
          entry.kpersistent s)
    set_session derived
    sk ← lift (attribute derived.cryptogram_sk)
    after_trial entry derived (try_entries cryptogram entries derived)
        (decrypt_cryptogram env.aes sk (drop_last 16 cryptogram) (take_last 16 cryptogram))

  -- none where no entry of the storage fits
  unfoldable pub abort : FastTransactionHandling → Action (Unit {0})
  abort abort_transaction = failure_process env 0x00 reader_status
  abort continue_with_standard = pure tt

  unfoldable pub not_found : Action ReaderSession
  not_found = do
    handling ← gets (λ d. d.fast_transaction_handling)
    abort handling
    raise cryptogram_not_found

  unfoldable pub or_not_found : Option ReaderSession → Action ReaderSession
  or_not_found (some s) = pure s
  or_not_found none = not_found

  unfoldable pub search_storage : Bytes → ReaderSession → Action ReaderSession
  search_storage cryptogram s = do
    let received : ReaderSession = record s { received_cryptogram = some cryptogram }
    set_session received
    entries ← gets (λ d. d.storage)
    found ← try_entries cryptogram entries received
    or_not_found found

  -- `Reader.decrypt_cryptogram`
  unfoldable pub decrypt_received : Option Bytes → ReaderSession → Action ReaderSession
  decrypt_received none s = fail_status env 0x00
  decrypt_received (some cryptogram) s = search_storage cryptogram s

  abbrev pub set_session_key : ReaderSession → Action (Unit {0})
  set_session_key s = do
    key ← lift (attribute s.ur_sk)
    modify (λ d. record d { session_key = some key })

  abbrev pub is_ble_uwb : TransportProtocol → Bool
  is_ble_uwb ble_uwb = true
  is_ble_uwb _ = false

  -- A standard transaction has no cryptogram, and a fast one has.
  unfoldable pub check_cryptogram : Transaction → Option Bytes → ReaderSession → Action (Unit {0})
  check_cryptogram standard none s = pure tt
  check_cryptogram standard (some cryptogram) s = fail_status env 0x00
  check_cryptogram fast cryptogram s = do
    s' ← decrypt_received cryptogram s
    uwb ← gets (λ d. is_ble_uwb d.transport)
    when uwb (set_session_key s')

  abbrev pub send_auth0 : Transaction → ℕ → ReaderSession → Action Auth0Response
  send_auth0 transaction policy s = do
    epubk ← lift (get_reader_epubkey s)
    identifier ← lift (attribute s.transaction_identifier)
    reader_identifier ← gets (λ d. d.reader_identifier)
    vendor ← gets (λ d. d.vendor_extension)
    command_auth0 env (transaction_value transaction) policy protocol_version epubk.as_bytes
        identifier reader_identifier vendor none

  unfoldable pub handle_auth0 : Transaction → ℕ → Action (Unit {0})
  handle_auth0 transaction policy = do
    s0 ← the_session
    s1 ← set_reader_ephemeral_key env.crypto s0
    implemented ← gets (λ d. d.fast_transaction_implemented)
    when (is_fast transaction && not implemented) (raise access_protocol_error)
    response ← with_failure (failure_process env) plain_refusal (send_auth0 transaction policy s1)
    epubk ← epubk_of response.credential_epubk
    let s2 : ReaderSession = record (set_flag (transaction_value transaction) policy s1) {
      credential_ephemeral_key = some epubk;
      response_vendor_extension = response.vendor_specific_extensions;
    }
    set_session s2
    check_cryptogram transaction response.cryptogram s2
