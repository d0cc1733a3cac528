-- ===== src/Device/Frame/Standard.antt =====
-- LOAD CERT, AUTH1, CONTROL FLOW and ENVELOPE of the user device, and its mailbox.
use aliro_actuator.Common.{Bytes, Option, none, some, Bool}
use aliro_actuator.Apdu.Parse.{ParsedCommand, load_cert, auth1, control_flow, envelope}
use aliro_actuator.Device.{Environment, Action}
use aliro_actuator.Device.Session.{UserSession}
use aliro_actuator.Device.Send.{
  response_auth1, response_load_cert, response_envelope, response_control_flow,
}
use aliro_actuator.Device.Authentication.Standard.{
  handle_load_cert, handle_auth1, refuse_in_test, on_key_lookup, take_certificate,
  take_optional_certificate, certificate_checks, device_signature, after_auth0_check,
  check_reader_authentication_data, share_keys,
}
use aliro_actuator.Device.Transaction.{handle_control_flow, handle_envelope}
use aliro_actuator.Device.Frame.{KeepsMailbox}
use aliro_actuator.Device.Frame.Handlers.{
  answers, timestamps-KeepsMailbox, ble_setup_if_ble-KeepsMailbox,
}

take_optional_certificate-KeepsMailbox :
    (env : Environment) (certificate : Option Bytes) (s : UserSession)
    → KeepsMailbox (take_optional_certificate env certificate s)
unfolding take_optional_certificate take_certificate KeepsMailbox
take_optional_certificate-KeepsMailbox env none s = search answers
take_optional_certificate-KeepsMailbox env (some certificate) s = search answers depth 8

refuse_in_test-KeepsMailbox : (flag : Option Bool) → KeepsMailbox (refuse_in_test flag)
unfolding refuse_in_test KeepsMailbox
refuse_in_test-KeepsMailbox flag = search answers depth 8

pub handle_load_cert-KeepsMailbox :
    (env : Environment) (p : ParsedCommand) → KeepsMailbox (handle_load_cert env p)
unfolding handle_load_cert after_auth0_check take_certificate response_load_cert KeepsMailbox
handle_load_cert-KeepsMailbox env (load_cert certificate) =
    search (answers, refuse_in_test-KeepsMailbox) depth 14
handle_load_cert-KeepsMailbox env p = search answers

on_key_lookup-KeepsMailbox :
    (m : Action UserSession) → KeepsMailbox m → KeepsMailbox (on_key_lookup m)
unfolding on_key_lookup KeepsMailbox
on_key_lookup-KeepsMailbox m h = search answers depth 8

share_keys-KeepsMailbox : (env : Environment) (s : UserSession) → KeepsMailbox (share_keys env s)
unfolding share_keys KeepsMailbox
share_keys-KeepsMailbox env s = search (answers, ble_setup_if_ble-KeepsMailbox) depth 14

pub handle_auth1-KeepsMailbox :
    (env : Environment) (extra : Option Bytes) (p : ParsedCommand)
    → KeepsMailbox (handle_auth1 env extra p)
unfolding handle_auth1 after_auth0_check certificate_checks check_reader_authentication_data
    device_signature response_auth1 KeepsMailbox
handle_auth1-KeepsMailbox env extra (auth1 fields) =
    search
      (
        answers, take_optional_certificate-KeepsMailbox, share_keys-KeepsMailbox,
        on_key_lookup-KeepsMailbox, timestamps-KeepsMailbox,
      )
      depth 24
handle_auth1-KeepsMailbox env extra p = search answers

pub handle_control_flow-KeepsMailbox :
    (env : Environment) (p : ParsedCommand) → KeepsMailbox (handle_control_flow env p)
unfolding handle_control_flow response_control_flow KeepsMailbox
handle_control_flow-KeepsMailbox env (control_flow fields) = search answers depth 8
handle_control_flow-KeepsMailbox env p = search answers

pub handle_envelope-KeepsMailbox :
    (env : Environment) (p : ParsedCommand) → KeepsMailbox (handle_envelope env p)
unfolding handle_envelope response_envelope KeepsMailbox
handle_envelope-KeepsMailbox env (envelope request) = search answers depth 14
handle_envelope-KeepsMailbox env p = search answers
