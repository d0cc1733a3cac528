-- ===== src/Device/Authentication/Standard.antt =====
-- The handlers of LOAD CERT and AUTH1 in the class `UserDevice` of access_protocol/user_device.py.
use aliro_actuator.Common.{
  Result, Error, if◌then◌else◌, [], ◌∷◌, Option, none, some, Bool, true, false, not, Bytes, ok,
  or_raise, access_protocol_error, session_error, key_lookup_failed,
}
use aliro_actuator.Tlv.{to_bytes}
use aliro_actuator.Apdu.Parse.{ParsedCommand, load_cert, auth1}
use aliro_actuator.Trust.{AccessCredential, sign, verify, get_key_slot}
use aliro_actuator.Trust.Authentication.{
  create_reader_authentication, create_user_device_authentication,
}
use aliro_actuator.Device.Session.{
  UserSession, auth0_std_done, auth0_fast_done, auth1_done, state_valid, update_state, attribute,
  reader_group_sub_identifier, get_credential_epubkey, set_cert_and_verify, is_false,
  get_reader_public_key, get_reader_group_identifier_key, add_kpersistent,
}
use aliro_actuator.Device.Session.Keys.{set_shared_key, derive_key_volatile, derive_key_persistent}
use aliro_actuator.Device.{
  UserMode, test, user, Environment, Action, pure, raise, lift, gets, modify, catch, when, ◌>>=◌,
  ◌>>◌, the_session, set_session, get_signaling_bitmap,
}
use aliro_actuator.Device.Send.{
  response_load_cert, response_auth1, status_generic_error, status_security_not_satisfied,
  status_invalid_instruction,
}
use aliro_actuator.Device.Authentication.{fail_with, ble_setup_if_ble, timestamps}

-- after AUTH0
unfoldable pub after_auth0_check : UserSession → Action (Unit {0})
after_auth0_check s =
    when (not (state_valid (auth0_fast_done ∷ auth0_std_done ∷ []) s))
      (fail_with status_invalid_instruction session_error)

abbrev is_test : UserMode → Bool
is_test test = true
is_test user = false

-- the flag, which is read in this mode only
abbrev flag_in : Bool → Option Bool → Result Bool
flag_in false flag = ok true
flag_in true flag = attribute flag

unfoldable pub refuse_in_test : Option Bool → Action (Unit {0})
refuse_in_test flag = do
  good ← λ d. (d, flag_in (is_test d.mode) flag)
  when (not good) (raise access_protocol_error)

abbrev is_key_lookup : Error → Bool
is_key_lookup key_lookup_failed = true
is_key_lookup x = false

-- `except KeyLookupFailed`
unfoldable pub on_key_lookup : Action UserSession → Action UserSession
on_key_lookup m =
    catch m (λ x. if is_key_lookup x then fail_with status_generic_error x else raise x)

module _ (env : Environment) where
  -- the certificate of the reader, against the key of its group
  unfoldable pub take_certificate : Bytes → UserSession → Action UserSession
  take_certificate certificate s = do
    key ← lift (get_reader_group_identifier_key s)
    let s' = set_cert_and_verify env.certificates certificate key s
    set_session s'
    pure s'

  unfoldable pub handle_load_cert : ParsedCommand → Action (Unit {0})
  handle_load_cert (load_cert certificate) = do
    s0 ← the_session
    after_auth0_check s0
    s1 ← take_certificate certificate s0
    response_load_cert env
    refuse_in_test s1.cert_decoded
    refuse_in_test s1.cert_verified
  handle_load_cert _ = raise access_protocol_error

  unfoldable pub take_optional_certificate : Option Bytes → UserSession → Action UserSession
  take_optional_certificate none s = pure s
  take_optional_certificate (some certificate) s = take_certificate certificate s

  unfoldable pub check_reader_authentication_data : Bytes → UserSession → Action (Unit {0})
  check_reader_authentication_data signature s = do
    identifier ← lift (attribute s.reader_identifier)
    epubk ← lift (get_credential_epubkey s)
    reader_epubk ← lift (attribute s.reader_epubk)
    transaction ← lift (attribute s.transaction_identifier)
    d ← lift (create_reader_authentication identifier epubk reader_epubk transaction)
    content ← lift (to_bytes env.ber d)
    key ← lift (get_reader_public_key env.certificates s)
    when (not (verify env.crypto key content signature))
        (fail_with status_security_not_satisfied access_protocol_error)

  -- the shared keys and Kpersistent
  unfoldable pub share_keys : UserSession → Action UserSession
  share_keys s = do
    s1 ← lift (set_shared_key env.crypto s)
    set_session s1
    transport ← gets (λ d. d.transport)
    s2 ← lift (derive_key_volatile env.crypto env.ber transport s1)
    set_session s2
    s3 ← ble_setup_if_ble env s2
    kpersistent ← lift (derive_key_persistent env.crypto env.ber transport s3)
    sub_id ← lift (reader_group_sub_identifier s3)
    modify (λ d. record d { storage = add_kpersistent kpersistent sub_id d.storage })
    pure s3

  -- the signature of the user device
  unfoldable pub device_signature : UserSession → AccessCredential → Action Bytes
  device_signature s credential = do
    identifier ← lift (attribute s.reader_identifier)
    epubk ← lift (get_credential_epubkey s)
    reader_epubk ← lift (attribute s.reader_epubk)
    transaction ← lift (attribute s.transaction_identifier)
    d ← lift (create_user_device_authentication identifier epubk reader_epubk transaction)
    content ← lift (to_bytes env.ber d)
    lift (sign env.crypto credential.access_credential_key_pair.private_key content)

  unfoldable pub certificate_checks : UserSession → Action (Unit {0})
  certificate_checks s = do
    when (is_false s.cert_decoded) (fail_with status_generic_error access_protocol_error)
    when (is_false s.cert_verified) (fail_with status_security_not_satisfied access_protocol_error)

  unfoldable pub handle_auth1 : Option Bytes → ParsedCommand → Action (Unit {0})
  handle_auth1 extra (auth1 fields) = do
    s0 ← the_session
    after_auth0_check s0
    s1 ← take_optional_certificate fields.certificate_data s0
    certificate_checks s1
    check_reader_authentication_data fields.reader_signature s1
    s2 ← on_key_lookup (share_keys s1)
    credential ← lift (attribute s2.access_credential)
    signature ← device_signature s2 credential
    engine ← lift (or_raise access_protocol_error s2.encryption_expedited)
    set_session (update_state auth1_done s2)
    (doc_timestamp, revoke_timestamp) ← timestamps env
    bitmap ← λ d. (d, get_signaling_bitmap d)
    let public_key = credential.access_credential_key_pair.public_key
    response_auth1 env (get_key_slot env.crypto public_key) public_key.as_bytes
        fields.expected_response signature engine bitmap doc_timestamp revoke_timestamp extra
  handle_auth1 extra _ = raise access_protocol_error
