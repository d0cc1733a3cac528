-- ===== src/Reader/Failure.antt =====
-- The method `failure_process` of the class `Reader` of access_protocol/reader.py. Its messages are sent
-- by handlers that start the failure process themselves when they fail, so that it takes fuel.
pub mod Fuel
use aliro_actuator.Common.{
  ℕ, zero, suc, [], ◌∷◌, ◌++◌, Option, none, some, Bool, true, false, if◌then◌else◌, Result,
  or_raise, value_error, stuck,
}
use aliro_actuator.Encryption.{EncryptionEngine}
use aliro_actuator.Apdu.Parse.{s2_values}
use aliro_actuator.Apdu.Chain.{TransportProtocol, nfc, socket_nfc}
use aliro_actuator.Ble.Message.{BleMessage}
use aliro_actuator.Ble.Create.{create_error_event_message}
use aliro_actuator.Device.{Environment}
use aliro_actuator.Reader.{
  Reader, ReaderMode, test, reader, Action, pure, raise, lift, gets, modify, when, ◌>>=◌, ◌>>◌,
  the_session, transaction_termination,
}
use aliro_actuator.Reader.Session.{ReaderSession}
use aliro_actuator.Reader.Send.{expedited, check_connected}
use aliro_actuator.Reader.Exchange.{
  ReaderFailureState, reader_status, Fail, Requests, handle_exchange, handle_control_flow,
}

abbrev no_engine : Option ReaderSession → Bool
no_engine none = true
no_engine (some s) = elim s.encryption_expedited [ none ↦ true | some e ↦ false ]

abbrev is_reader_status : ReaderFailureState → Bool
is_reader_status reader_status = true
is_reader_status _ = false

-- there is no secure channel, or the response had an error
abbrev in_the_open : ReaderFailureState → Reader → Bool
in_the_open state d = if is_reader_status state then no_engine d.session else true

abbrev no_requests : Requests
no_requests = record {
  atomic_session = false;
  read_requests = none;
  write_requests = none;
  set_requests = none;
}

-- a message made with the BLE engine of the session, which moves on
abbrev with_ble :
    (Option EncryptionEngine → Option EncryptionEngine × Result BleMessage)
    → ReaderSession
    → Action (Unit {0})
with_ble create s = do
  let (e, r) = create s.ble_encryption_engine
  modify (λ d. record d { session = some (record s { ble_encryption_engine = e }) })
  m ← lift r
  check_connected
  modify (λ d. record d { notified = d.notified ++ m ∷ [] })

abbrev is_nfc : TransportProtocol → Bool
is_nfc nfc = true
is_nfc socket_nfc = true
is_nfc _ = false

abbrev is_reader : ReaderMode → Bool
is_reader reader = true
is_reader test = false

module _ (env : Environment) where
  unfoldable pub handle_error_event_ble_message : ℕ → Action (Unit {0})
  handle_error_event_ble_message error_code = do
    s ← the_session
    with_ble (create_error_event_message env.aes error_code) s

  abbrev send_reader_status : Fail → ℕ → Action (Unit {0})
  send_reader_status fail code = do
    handle_exchange env fail no_requests none false none (some code) expedited
    pure tt

  abbrev send_control_flow : Fail → ℕ → Action (Unit {0})
  send_control_flow fail code = do
    s2 ← lift (or_raise value_error (s2_values code))
    handle_control_flow env fail s2

  -- the messages about the failure, in the mode of a reader
  unfoldable pub failure_messages : Fail → ℕ → Bool → Bool → Action (Unit {0})
  failure_messages fail code true true = send_control_flow fail code
  failure_messages fail code true false = send_reader_status fail code
  failure_messages fail code false true = handle_error_event_ble_message 0x00
  failure_messages fail code false false = do
    send_reader_status fail code
    handle_error_event_ble_message 0x00

  -- what is done the first time, behind the flag
  unfoldable pub end_transaction : Fail → Fail
  end_transaction fail code state = do
    over_nfc ← gets (λ d. is_nfc d.transport)
    plain ← gets (in_the_open state)
    reports ← gets (λ d. is_reader d.mode)
    when reports (failure_messages fail code over_nfc plain)
    modify transaction_termination

  unfoldable pub first_failure : Fail → Fail
  first_failure fail code state = do
    modify (λ d. record d { failure_process_started = true })
    end_transaction fail code state

  -- A failure while a failure is handled is not handled again.
  unfoldable pub failure_fuel : ℕ → Fail
  failure_fuel zero code state = raise stuck
  failure_fuel (suc n) code state = do
    started ← gets (λ d. d.failure_process_started)
    if started then pure tt else first_failure (failure_fuel n) code state

  unfoldable pub failure_process : Fail
  failure_process = failure_fuel 2
