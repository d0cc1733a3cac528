-- ===== src/Device/Transaction.antt =====
-- CONTROL FLOW and ENVELOPE of the class `UserDevice` of access_protocol/user_device.py, and what
-- `single_transaction` does with a command.
use aliro_actuator.Common.{
  List, [], ◌∷◌, Option, none, some, Bool, true, false, not, ◌&&◌, if◌then◌else◌, Bytes, Error,
  or_raise, access_protocol_error, session_error, no_response_error, no_device_connected_error,
  not_implemented_error,
}
use aliro_actuator.Apdu.Parse.{
  ParsedCommand, select, auth0, auth1, load_cert, control_flow, exchange, envelope, get_response,
}
use aliro_actuator.Mailbox.Session as MailboxSession
use aliro_actuator.Device.Session.{
  select_done, auth1_done, exchange_done, select_step_up_done, envelope_done, state_valid,
  update_state,
}
use aliro_actuator.Device.{
  Environment, Action, pure, raise, lift, gets, modify, catch, when, ◌>>=◌, ◌>>◌, the_session,
  set_session, transaction_termination,
}
use aliro_actuator.Device.Send.{
  failure_process, response_control_flow, response_envelope, status_command_not_compliant,
  status_command_not_allowed, status_invalid_instruction,
}
use aliro_actuator.Device.Authentication.{fail_with, handle_select, handle_auth0}
use aliro_actuator.Device.Authentication.Standard.{handle_load_cert, handle_auth1}
use aliro_actuator.Device.Exchange.{handle_exchange}
use aliro_actuator.Common.{
  index_error, overflow_error, value_error, key_error, type_error, unbound_local_error, stuck,
  attribute_error, ble_message_error, invalid_checksum_error, stx_error, error_returned_error,
  invalid_identifier_error, unexpected_message_type_error, invalid_key_error, key_lookup_failed,
  certificate_decoding_error, invalid_protocol_type_error, invalid_pulse_shape_combo,
  invalid_ran_multiplier, invalid_hopping_config, invalid_sync_code_index, invalid_uwb_session_id,
  invalid_sts_index,
}

-- `except AccessProtocolError`: not the exceptions of the trust framework, of the transport, or of Python
unfoldable pub is_access_protocol : Error → Bool
is_access_protocol index_error = false
is_access_protocol overflow_error = false
is_access_protocol value_error = false
is_access_protocol key_error = false
is_access_protocol type_error = false
is_access_protocol unbound_local_error = false
is_access_protocol stuck = false
is_access_protocol not_implemented_error = false
is_access_protocol attribute_error = false
is_access_protocol ble_message_error = false
is_access_protocol invalid_checksum_error = false
is_access_protocol stx_error = false
is_access_protocol no_response_error = false
is_access_protocol no_device_connected_error = false
is_access_protocol error_returned_error = false
is_access_protocol invalid_identifier_error = false
is_access_protocol unexpected_message_type_error = false
is_access_protocol invalid_key_error = false
is_access_protocol key_lookup_failed = false
is_access_protocol certificate_decoding_error = false
is_access_protocol invalid_protocol_type_error = false
is_access_protocol invalid_pulse_shape_combo = false
is_access_protocol invalid_ran_multiplier = false
is_access_protocol invalid_hopping_config = false
is_access_protocol invalid_sync_code_index = false
is_access_protocol invalid_uwb_session_id = false
is_access_protocol invalid_sts_index = false
is_access_protocol _ = true

module _ (env : Environment) where
  unfoldable pub handle_control_flow : ParsedCommand → Action (Unit {0})
  handle_control_flow (control_flow fields) = do
    s ← the_session
    set_session (update_state select_done s)
    response_control_flow env
  handle_control_flow _ = raise access_protocol_error

  abbrev documents_of : Option Bytes → List Bytes → List Bytes
  documents_of none rest = rest
  documents_of (some b) rest = b ∷ rest

  unfoldable pub handle_envelope : ParsedCommand → Action (Unit {0})
  handle_envelope (envelope request) = do
    s ← the_session
    when
        (not
          (state_valid (auth1_done ∷ exchange_done ∷ envelope_done ∷ select_step_up_done ∷ []) s))
        (fail_with status_invalid_instruction session_error)
    e ← lift (or_raise access_protocol_error s.encryption_stepup)
    documents ← gets (λ d. documents_of d.access_document (documents_of d.revocation_document []))
    device_response ← lift (env.dumps_response documents)
    response_envelope env e device_response
    s' ← the_session
    set_session (update_state envelope_done s')
  handle_envelope _ = raise access_protocol_error

  abbrev pub is_exchange : ParsedCommand → Bool
  is_exchange (exchange given') = true
  is_exchange _ = false

  -- the cases of a command; true where the transaction is over
  unfoldable pub handle_command : Bool → ParsedCommand → Action Bool
  handle_command terminate_at_end (control_flow fields) = do
    handle_control_flow (control_flow fields)
    when terminate_at_end (modify transaction_termination)
    pure true
  handle_command terminate_at_end (select aid) = do handle_select env (select aid); pure false
  handle_command terminate_at_end (auth0 checked fields) = do
    handle_auth0 env (auth0 checked fields)
    pure false
  handle_command terminate_at_end (auth1 fields) = do
    handle_auth1 env none (auth1 fields)
    pure false
  handle_command terminate_at_end (load_cert certificate) = do
    handle_load_cert env (load_cert certificate)
    pure false
  handle_command terminate_at_end (exchange fields) = do
    handle_exchange env (exchange fields)
    pure false
  handle_command terminate_at_end (envelope request) = do
    handle_envelope (envelope request)
    pure false
  handle_command terminate_at_end get_response = raise not_implemented_error

  -- what `single_transaction` does with a command; an open atomic session allows nothing but EXCHANGE
  unfoldable pub take_command : Bool → ParsedCommand → Action Bool
  take_command terminate_at_end p = do
    started ← gets (λ d. MailboxSession.is_started d.mailbox_session)
    when (started && not (is_exchange p))
        (fail_with status_command_not_allowed access_protocol_error)
    handle_command terminate_at_end p

  -- the exceptions of the access protocol end the transaction with an error response
  abbrev pub on_error : Error → Action Bool
  on_error x =
      if is_access_protocol x
      then failure_process status_command_not_compliant >> pure true
      else raise x

  unfoldable pub command_step : Bool → ParsedCommand → Action Bool
  command_step terminate_at_end p = catch (take_command terminate_at_end p) on_error
