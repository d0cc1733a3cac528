-- ===== src/Device/Authentication.antt =====
-- The expedited phase of the class `UserDevice` of access_protocol/user_device.py: the handlers of
-- SELECT, AUTH0, LOAD CERT and AUTH1.
pub mod Standard
use aliro_actuator.Common.{
  ℕ, ◌+◌, List, [], ◌∷◌, Option, none, some, Bool, true, false, not, ◌==◌, ◌&&◌, ◌||◌,
  if◌then◌else◌, take_last, Bytes, Result, ok, err, Error, or_raise, access_protocol_error,
  session_error, invalid_aid_error, version_error, key_lookup_failed, invalid_key_error,
}
use aliro_actuator.Tlv.{to_bytes}
use aliro_actuator.Encryption.{compute_cryptogram}
use aliro_actuator.Encryption as Enc
use aliro_actuator.Apdu.Parse.{ParsedCommand, select, auth0, load_cert, auth1, Auth0Fields}
use aliro_actuator.Trust.{AccessCredential, PublicKey, has_identifier, sign, verify, get_key_slot}
use aliro_actuator.Trust.Authentication.{
  create_reader_authentication, create_user_device_authentication,
}
use aliro_actuator.Device.Session.{
  UserSession, UserSessionState, select_done, auth0_std_done, auth0_fast_done, auth1_done,
  exchange_done, select_step_up_done, state_valid, update_state, attribute, set_auth0_data,
  reader_group_identifier, reader_group_sub_identifier, get_credential_epubkey,
  get_transaction_type, set_access_credential, set_cert_and_verify, is_false, get_reader_public_key,
  get_reader_group_identifier_key, set_select_proprietary_data, find_kpersistent, add_kpersistent,
}
use aliro_actuator.Device.Session.Keys.{
  set_shared_key, create_encryption_engine_expedited, derive_key_volatile, derive_key_volatile_fast,
  derive_key_persistent, get_ble_encryption,
}
use aliro_actuator.Device.{
  UserDevice, UserMode, test, user, Environment, Action, pure, raise, lift, gets, modify, when,
  ◌>>=◌, ◌>>◌, the_session, set_session, is_ble, get_signaling_bitmap, set_credential_ephemeral_key,
}
use aliro_actuator.Device.Send.{
  failure_process, response_select, response_auth0, response_auth1, response_load_cert,
  status_generic_error, status_security_not_satisfied, status_conditions_not_satisfied,
  status_file_not_found, status_invalid_instruction,
}
use aliro_actuator.Trust as Trust

abbrev pub expedited_phase_aid : Bytes
expedited_phase_aid = 0xa0 ∷ 0x00 ∷ 0x00 ∷ 0x09 ∷ 0x09 ∷ 0xac ∷ 0xce ∷ 0x55 ∷ 0x01 ∷ []

abbrev pub stepup_phase_aid : Bytes
stepup_phase_aid = 0xa0 ∷ 0x00 ∷ 0x00 ∷ 0x09 ∷ 0x09 ∷ 0xac ∷ 0xce ∷ 0x55 ∷ 0x02 ∷ []

-- a failure state: the error response, the end of the session, and the exception
unfoldable pub fail_with : {A : Type 0} → ℕ → Error → Action A
fail_with status x = do failure_process status; raise x

abbrev unless_zero : ℕ → Option ℕ
unless_zero n = if n == 0 then none else some n

-- the state after a SELECT with the AID
unfoldable pub selected_state : Bytes → UserSession → Action UserSessionState
selected_state aid s =
    if Trust.same_bytes aid expedited_phase_aid
    then pure select_done
    else if Trust.same_bytes aid stepup_phase_aid
    then if state_valid (auth1_done ∷ exchange_done ∷ []) s
      then pure select_step_up_done
      else raise access_protocol_error
    else fail_with status_file_not_found invalid_aid_error

module _ (env : Environment) where
  unfoldable pub handle_select : ParsedCommand → Action (Unit {0})
  handle_select (select aid) = do
    s ← the_session
    state ← selected_state aid s
    max_command ← gets (λ d. unless_zero d.apdu.maximum_command_apdu)
    max_response ← gets (λ d. unless_zero d.apdu.maximum_response_apdu)
    versions ← gets (λ d. d.supported_versions)
    set_session (set_select_proprietary_data max_command max_response none (update_state state s))
    response_select env aid versions max_command max_response
  handle_select _ = raise access_protocol_error

  -- the first credential for the group of the reader
  unfoldable pub find_credential : List AccessCredential → Bytes → Option AccessCredential
  find_credential [] group = none
  find_credential (c ∷ cs) group =
      if has_identifier c group then some c else find_credential cs group

  abbrev key_refused : Result (Unit {0}) → Result (Unit {0})
  key_refused (err invalid_key_error) = err access_protocol_error
  key_refused r = r

  -- `set_auth0_data` of the session in place; an InvalidKeyError is an AccessProtocolError
  unfoldable pub save_auth0_data : Auth0Fields → UserSession → Action UserSession
  save_auth0_data fields s = do
    (s', outcome) ← pure (set_auth0_data env.crypto fields s)
    set_session s'
    lift (key_refused outcome)
    pure s'

  abbrev session_init : UserSession → Action (Unit {0})
  session_init s = do
    transaction ← lift (attribute s.transaction_identifier)
    modify (λ d. record d { uwb_session_id = some (take_last 4 transaction) })

  abbrev uwb_setup : UserSession → Action (Unit {0})
  uwb_setup s = do
    needed ← gets (λ d. is_ble d.transport && d.enable_uwb)
    when needed (session_init s)

  abbrev credential_for : UserSession → Action AccessCredential
  credential_for s = do
    group ← lift (reader_group_identifier s)
    credentials ← gets (λ d. d.access_credentials)
    lift (or_raise access_protocol_error (find_credential credentials group))

  abbrev versions_of_ble : Action (ℕ × List ℕ)
  versions_of_ble = do
    versions ← gets (λ d. d.ble_versions)
    lift (or_raise access_protocol_error versions)

  -- `set_ble_encryption` and `set_session_key`
  abbrev ble_setup : UserSession → Action UserSession
  ble_setup s = do
    (selected, available) ← versions_of_ble
    sk ← lift (attribute s.ble_sk)
    engine ← lift (get_ble_encryption env.crypto Enc.user sk selected available)
    let s' : UserSession = record s { ble_encryption_engine = some engine }
    set_session s'
    key ← lift (attribute s'.ur_sk)
    modify (λ d. record d { session_key = some key })
    pure s'

  unfoldable pub ble_setup_if_ble : UserSession → Action UserSession
  ble_setup_if_ble s = do ble ← gets (λ d. is_ble d.transport); if ble then ble_setup s else pure s

  unfoldable pub optional_timestamp : (Bytes → Result Bytes) → Option Bytes → Action (Option Bytes)
  optional_timestamp f none = pure none
  optional_timestamp f (some document) = do t ← lift (f document); pure (some t)

  unfoldable pub timestamps : Action (Option Bytes × Option Bytes)
  timestamps = do
    access ← gets (λ d. d.access_document)
    revocation ← gets (λ d. d.revocation_document)
    doc_timestamp ← optional_timestamp env.doc_timestamp access
    revoke_timestamp ← optional_timestamp env.revoke_timestamp revocation
    pure (doc_timestamp, revoke_timestamp)

  -- the keys of a session that goes on from Kpersistent, and the cryptogram
  unfoldable pub fast_cryptogram : Bytes → UserSession → Action Bytes
  fast_cryptogram kpersistent s = do
    transport ← gets (λ d. d.transport)
    s1 ← lift (derive_key_volatile_fast env.crypto env.ber transport kpersistent s)
    s2 ← lift (create_encryption_engine_expedited env.crypto s1)
    set_session s2
    s3 ← ble_setup_if_ble s2
    (doc_timestamp, revoke_timestamp) ← timestamps
    sk ← lift (attribute s3.cryptogram_sk)
    bitmap ← λ d. (d, get_signaling_bitmap d)
    cryptogram ← lift (compute_cryptogram env.aes env.ber sk bitmap doc_timestamp revoke_timestamp)
    set_session (update_state auth0_fast_done s3)
    pure cryptogram

  abbrev random_cryptogram : UserSession → Action Bytes
  random_cryptogram s = do
    drawn ← gets (λ d. d.drawn)
    modify (λ d. record d { drawn = d.drawn + 1 })
    set_session (update_state auth0_std_done s)
    pure (env.crypto.urandom drawn 64)

  -- Kpersistent of the reader, where fast transactions are implemented
  abbrev usable : Bool → Option Bytes → Option Bytes
  usable true k = k
  usable false k = none

  unfoldable pub cryptogram_for : Option Bytes → UserSession → Action Bytes
  cryptogram_for none s = random_cryptogram s
  cryptogram_for (some kpersistent) s = fast_cryptogram kpersistent s

  unfoldable pub auth0_cryptogram : Bool → UserSession → Action (Option Bytes)
  auth0_cryptogram false s = do set_session (update_state auth0_std_done s); pure none
  auth0_cryptogram true s = do
    sub_id ← lift (reader_group_sub_identifier s)
    kpersistent ←
        gets (λ d. usable d.fast_transaction_implemented (find_kpersistent d.storage sub_id))
    cryptogram ← cryptogram_for kpersistent s
    pure (some cryptogram)

  abbrev contains : ℕ → List ℕ → Bool
  contains n [] = false
  contains n (m ∷ ms) = m == n || contains n ms

  abbrev auth0_state_check : UserSession → Action (Unit {0})
  auth0_state_check s = do
    wrong ← gets (λ d. not (state_valid (select_done ∷ []) s) && not (is_ble d.transport))
    when wrong (fail_with status_invalid_instruction session_error)

  abbrev version_check : ℕ → Action (Unit {0})
  version_check version = do
    supported ← gets (λ d. contains version d.supported_versions)
    when (not supported) (fail_with status_conditions_not_satisfied version_error)

  unfoldable pub handle_auth0 : ParsedCommand → Action (Unit {0})
  handle_auth0 (auth0 command_status fields) = do
    s0 ← the_session
    auth0_state_check s0
    s1 ← set_credential_ephemeral_key env.crypto s0
    version_check fields.expedited_phase_protocol_version
    s2 ← save_auth0_data fields s1
    uwb_setup s2
    credential ← credential_for s2
    let s3 = set_access_credential credential s2
    set_session s3
    fast ← lift (get_transaction_type s3)
    cryptogram ← auth0_cryptogram fast s3
    epubk ← lift (get_credential_epubkey s3)
    response_auth0 env epubk.as_bytes cryptogram command_status
  handle_auth0 _ = raise access_protocol_error
