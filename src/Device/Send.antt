-- ===== src/Device/Send.antt =====
-- What the user device sends: `handle_chaining_send_response` of access_protocol/apdu.py, and the
-- `response_...` methods and `failure_process` of access_protocol/user_device.py.
use aliro_actuator.Common.{
  ℕ, List, [], ◌∷◌, ◌++◌, Option, none, some, Bool, true, false, ◌==◌, Bytes, Result, ok, err,
  guard, invalid_ins_error, no_response_error, no_device_connected_error, if◌then◌else◌, not,
  length, unexpected_ble_message_error,
}
use aliro_actuator.Common as Common
use aliro_actuator.Apdu.Command as Cmd
use aliro_actuator.Apdu.Chain.{Apdu, ins_get_response}
use aliro_actuator.Apdu.Chain.Receive.{Incoming, is_busy, check_ble_message_type_for_command}
use aliro_actuator.Apdu.Response.{Response, status_success}
use aliro_actuator.Apdu.Parse.{parse_command}
use aliro_actuator.Apdu.Create.{
  create_select_response, create_auth0_response, create_auth1_response, create_load_cert_response,
  create_control_flow_response, create_exchange_response, create_envelope_response,
  create_error_response,
}
use aliro_actuator.Encryption.{EncryptionEngine}
use aliro_actuator.Device.Session.{UserSession}
use aliro_actuator.Device.{
  UserDevice, Environment, Action, raise, gets, modify, when, ◌>>=◌, ◌>>◌, transaction_termination,
}

abbrev pub status_generic_error : ℕ
status_generic_error = 0x6400

abbrev pub status_command_not_compliant : ℕ
status_command_not_compliant = 0x6701

abbrev pub status_command_not_allowed : ℕ
status_command_not_allowed = 0x6900

abbrev pub status_security_not_satisfied : ℕ
status_security_not_satisfied = 0x6982

abbrev pub status_conditions_not_satisfied : ℕ
status_conditions_not_satisfied = 0x6985

abbrev pub status_file_not_found : ℕ
status_file_not_found = 0x6a82

abbrev pub status_incorrect_p1_p2 : ℕ
status_incorrect_p1_p2 = 0x6a86

abbrev pub status_referenced_data_not_found : ℕ
status_referenced_data_not_found = 0x6a88

abbrev pub status_functions_in_cla_not_supported : ℕ
status_functions_in_cla_not_supported = 0x6800

abbrev pub status_invalid_instruction : ℕ
status_invalid_instruction = 0x6d00

-- the engine that an operation uses: one object that the session keeps as well
pub data Phase : Type 0 where
  expedited stepup : Phase

unfoldable pub engine_of : Phase → UserSession → Option EncryptionEngine
engine_of expedited s = s.encryption_expedited
engine_of stepup s = s.encryption_stepup

unfoldable pub set_engine : Phase → EncryptionEngine → UserSession → UserSession
set_engine expedited e s = record s { encryption_expedited = some e }
set_engine stepup e s = record s { encryption_stepup = some e }

abbrev pub store_in : Phase → EncryptionEngine → Option UserSession → Option UserSession
store_in phase e none = none
store_in phase e (some s) = some (set_engine phase e s)

abbrev pub store_engine : Phase → EncryptionEngine → UserDevice → UserDevice
store_engine phase e d = record d { session = store_in phase e d.session }

-- what is created with the state of the APDU object, which moves on
unfoldable pub with_apdu : {A : Type 0} → (Apdu → Result (Apdu × A)) → Action A
with_apdu create d = elim (create d.apdu) [
  | err x ↦ raise x d
  | ok (a, r) ↦ (record d { apdu = a }, ok r)
]

-- `send_message` of the transport raises an exception where no device is connected.
abbrev pub check_connected : Action (Unit {0})
check_connected d = (d, if d.connected then ok tt else err no_device_connected_error)

module _ (env : Environment) where
  -- a message that must be a GET RESPONSE
  abbrev check_get_response : Incoming → Result (Unit {0})
  check_get_response m = Common.◌>>◌ (check_ble_message_type_for_command m) (
      Common.◌>>=◌ (Cmd.create_from_bytestring m.payload) λ command.
        Common.◌>>◌ (parse_command env.aes env.ber env.cbor none command).1
          (guard (command.ins == ins_get_response) invalid_ins_error))

  -- the inner loop, which skips busy events while a timer runs
  unfoldable pub wait_get_response : Bool → List Incoming → List Incoming × Result (Unit {0})
  wait_get_response timer [] = ([], err no_response_error)
  wait_get_response timer (m ∷ ms) = elim (is_busy m) [
    | err x ↦ (ms, err x)
    | ok true ↦ elim timer [
      | true ↦ wait_get_response timer ms
      | false ↦ (ms, err unexpected_ble_message_error)
    ]
    | ok false ↦ (ms, check_get_response m)
  ]

  -- the outer loop: the responses sent, the messages left, and whether there was an exception
  unfoldable pub send_chain :
      Bool → List Response → List Incoming → List Response × List Incoming × Result (Unit {0})
  send_chain timer [] ms = ([], ms, ok tt)
  send_chain timer (r ∷ rs) ms = elim (r.status == status_success) [
    | true ↦ (r ∷ [], ms, ok tt)
    | false ↦
        let (ms', got) = wait_get_response timer ms in
        elim got [
          | err x ↦ (r ∷ [], ms', err x)
          | ok u ↦ let (sent, left, outcome) = send_chain timer rs ms' in (r ∷ sent, left, outcome)
        ]
  ]

  -- `handle_chaining_send_response`
  unfoldable pub send_responses :
      Bool → List Response → List Incoming → List Response × List Incoming × Result (Unit {0})
  send_responses timer (r ∷ []) ms = (r ∷ [], ms, ok tt)
  send_responses timer rs ms = send_chain timer rs ms

  -- the responses over a connection
  abbrev deliver : List Response → Action (Unit {0})
  deliver rs d =
      let (sent, left, outcome) = send_responses d.timer_started rs d.inbox in
      (record d { inbox = left; sent = d.sent ++ sent }, outcome)

  unfoldable pub handle_chaining_send_response : List Response → Action (Unit {0})
  handle_chaining_send_response rs = do when (not (length rs == 0)) check_connected; deliver rs

  -- create the responses, and send them
  unfoldable pub respond : (Apdu → Result (Apdu × List Response)) → Action (Unit {0})
  respond create = do rs ← with_apdu create; handle_chaining_send_response rs

  -- the same for encrypted responses, where the engine moves on
  unfoldable pub respond_encrypted :
      Phase
      → EncryptionEngine
      → (Apdu → EncryptionEngine → EncryptionEngine × Result (Apdu × List Response))
      → Action (Unit {0})
  respond_encrypted phase e create = do
    (e', created) ← gets (λ d. create d.apdu e)
    modify (store_engine phase e')
    respond (λ a. created)

  unfoldable pub response_select : Bytes → List ℕ → Option ℕ → Option ℕ → Action (Unit {0})
  response_select aid versions max_command max_response = respond (λ a.
      create_select_response env.ber a aid 0x0000 versions max_command max_response none
        status_success)

  abbrev auth0_status : Bool → ℕ
  auth0_status true = status_success
  auth0_status false = status_command_not_compliant

  unfoldable pub response_auth0 : Bytes → Option Bytes → Bool → Action (Unit {0})
  response_auth0 epubk cryptogram command_status =
      respond (λ a. create_auth0_response env.ber a epubk (auth0_status command_status) cryptogram)

  unfoldable pub response_auth1 :
      Bytes
      → Bytes
      → ℕ
      → Bytes
      → EncryptionEngine
      → Bytes
      → Option Bytes
      → Option Bytes
      → Option Bytes
      → Action (Unit {0})
  response_auth1 key_slot public_key expected signature e bitmap credential revocation extra =
      respond_encrypted expedited e (λ a e'.
        create_auth1_response env.aes env.ber a true expected (some key_slot) (some public_key)
          signature none (some bitmap) credential revocation extra e' status_success)

  unfoldable pub response_load_cert : Action (Unit {0})
  response_load_cert = respond (λ a. create_load_cert_response a status_success)

  unfoldable pub response_exchange : Phase → EncryptionEngine → Bytes → Action (Unit {0})
  response_exchange phase e payload =
      respond_encrypted phase e
        (λ a e'. create_exchange_response env.aes a payload e' status_success)

  unfoldable pub response_envelope : EncryptionEngine → Bytes → Action (Unit {0})
  response_envelope e document =
      respond_encrypted stepup e
        (λ a e'. create_envelope_response env.aes env.ber env.cbor a document e' status_success)

  unfoldable pub response_control_flow : Action (Unit {0})
  response_control_flow = respond (λ a. create_control_flow_response a status_success)

-- an error response, in one message
unfoldable pub send_error : ℕ → Action (Unit {0})
send_error status = do
  r ← with_apdu (λ a. create_error_response a status)
  check_connected
  modify (λ d. record d { sent = d.sent ++ r ∷ [] })

unfoldable pub failure_process : ℕ → Action (Unit {0})
failure_process error_code = do send_error error_code; modify transaction_termination
