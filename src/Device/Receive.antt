-- ===== src/Device/Receive.antt =====
-- `wait_for_message` of the class `UserDevice` of access_protocol/user_device.py, and
-- `handle_chaining_receive_command` of access_protocol/apdu.py on the device.
use aliro_actuator.Common.{
  ℕ, ◌+◌, List, [], ◌∷◌, ◌++◌, Option, none, some, Bool, true, false, not, ◌==◌, ◌&&◌, ◌||◌, ltb,
  if◌then◌else◌, replicate, Bytes, Result, ok, err, Error, or_raise, access_protocol_error,
  session_error, invalid_aid_error, invalid_ins_error, invalid_cla_error, invalid_parameter_error,
  invalid_command_error, invalid_lc_error, invalid_le_error, invalid_command_data_error,
  verification_error, no_response_error, unexpected_ble_message_error, unexpected_command_error,
  not_implemented_error, cryptogram_not_found, unexpected_response_error, version_error,
  create_command_error, create_response_error, message_too_long_error, invalid_status_error,
  invalid_response_data_error,
}
use aliro_actuator.Common as Common
use aliro_actuator.Apdu.Command.{Command, ins_select}
use aliro_actuator.Apdu.Command as Cmd
use aliro_actuator.Apdu.Chain.{Apdu}
use aliro_actuator.Apdu.Chain.Receive.{Incoming, is_busy, check_ble_message_type_for_command}
use aliro_actuator.Apdu.Response.{Response, given, status_success}
use aliro_actuator.Apdu.Parse.{ParsedCommand, parse_command, ins_exchange}
use aliro_actuator.Encryption.{EncryptionEngine}
use aliro_actuator.Trust.{same_bytes}
use aliro_actuator.Device.Session.{
  UserSession, auth0_std_done, auth0_fast_done, auth1_done, exchange_done, select_step_up_done,
  envelope_done, stepup_exchange_done, state_valid,
}
use aliro_actuator.Device.{
  UserDevice, Environment, Action, pure, raise, lift, gets, modify, catch, when, ◌>>=◌, ◌>>◌,
  the_session,
}
use aliro_actuator.Device.Send.{
  Phase, expedited, stepup, engine_of, store_in, send_error, status_command_not_compliant,
  status_security_not_satisfied, status_file_not_found, status_incorrect_p1_p2,
  status_referenced_data_not_found, status_functions_in_cla_not_supported,
}
use aliro_actuator.Device.Authentication.{fail_with, expedited_phase_aid, stepup_phase_aid}

-- a chain that is received, with the number of success responses sent and the messages left
abbrev Received : Type 0
Received = ℕ × List Incoming × Result (Command × Bytes)

-- the loop of `handle_chaining_receive_command`; the responses sent are counted
unfoldable pub receive_chain : Bool → Bytes → ℕ → List Incoming → Received
receive_chain timer total sent [] = (sent, [], err no_response_error)
receive_chain timer total sent (m ∷ ms) = elim (is_busy m) [
  | err x ↦ (sent, ms, err x)
  | ok true ↦ elim timer [
    | true ↦ receive_chain timer total sent ms
    | false ↦ (sent, ms, err unexpected_ble_message_error)
  ]
  | ok false ↦
      elim (Common.◌>>◌ (check_ble_message_type_for_command m)
        (Cmd.create_from_bytestring m.payload)) [
          | err x ↦ (sent, ms, err x)
          | ok command ↦ elim command.chaining_control_bit [
            | true ↦ receive_chain timer (total ++ given command.payload) (sent + 1) ms
            | false ↦ (sent, ms, ok (command, total ++ given command.payload))
          ]
        ]
]

abbrev success_response : Response
success_response = record { as_bytes = 0x90 ∷ 0x00 ∷ []; status = status_success; payload = none }

abbrev whole_command : Command × Bytes → Result Command
whole_command (last, total) =
    Cmd.create_from_parameters last.cla last.ins last.p1 last.p2 total last.le

-- what was received behind the first command: the responses sent, the messages left, and the command
abbrev receive_rest : Command → UserDevice → ℕ × List Incoming × Result Command
receive_rest first d = elim first.chaining_control_bit [
  | false ↦ (0, d.inbox, ok first)
  | true ↦
      let (sent, left, got) = receive_chain d.timer_started (given first.payload) 1 d.inbox in
      (sent, left, Common.◌>>=◌ got whole_command)
]

-- `handle_chaining_receive_command`
unfoldable pub handle_chaining_receive_command : Bytes → Action Command
handle_chaining_receive_command command_bytes = do
  first ← lift (Cmd.create_from_bytestring command_bytes)
  (sent, left, got) ← gets (receive_rest first)
  modify (λ d. record d { inbox = left; sent = d.sent ++ replicate sent success_response })
  lift got

-- the first message, and the rest
abbrev first_message : List Incoming → Result (Incoming × List Incoming)
first_message [] = err no_response_error
first_message (m ∷ ms) = ok (m, ms)

-- `get_message`
abbrev get_message : Action Incoming
get_message = do
  (m, ms) ← λ d. (d, first_message d.inbox)
  modify (λ d. record d { inbox = ms })
  pure m

-- a command of the reader, or a message of the Bluetooth protocol
pub data Message : Type 0 where
  command : ParsedCommand → Message
  ble_message : Incoming → Message

pub data MessageKind : Type 0 where
  of_command of_ble invalid_message : MessageKind

unfoldable pub message_kind : Incoming → MessageKind
message_kind m = elim m.header [
  | none ↦ elim m.id [ none ↦ of_command | some i ↦ invalid_message ]
  | some h ↦ elim m.id [
    | none ↦ invalid_message
    | some i ↦ if h == 0 && i == 0 then of_command else of_ble
  ]
]

-- A received command always has an le; the longest response is set to it where it is shorter.
abbrev limit_response : Option ℕ → Apdu → Apdu
limit_response none a = a
limit_response (some le) a =
    if ltb le a.apdu_max_response_length then record a { apdu_response_length = le } else a

abbrev send_and_raise : {A : Type 0} → ℕ → Error → Action A
send_and_raise status x = do send_error status; raise x

abbrev unknown_aid : Command → Bool
unknown_aid c =
    not (same_bytes (given c.payload) expedited_phase_aid)
    && not (same_bytes (given c.payload) stepup_phase_aid)

-- the tests before a command is parsed
unfoldable pub early_checks : Command → Action (Unit {0})
early_checks c = do
  when (c.ins == 0xca && (c.p1 == 0x7f && c.p2 == 0x68))
      (send_and_raise status_referenced_data_not_found invalid_ins_error)
  when (c.ins == ins_select && (not (c.p1 == 0x04) && not (c.p2 == 0x00)))
      (send_and_raise status_incorrect_p1_p2 invalid_aid_error)
  when (c.ins == ins_select && unknown_aid c)
      (send_and_raise status_file_not_found invalid_aid_error)

-- the phase whose engine decrypts a command
unfoldable pub decrypting_phase : UserSession → Command → Option Phase
decrypting_phase s c =
    if state_valid (auth0_std_done ∷ auth0_fast_done ∷ []) s
    then some expedited
    else if state_valid (exchange_done ∷ auth1_done ∷ []) s && c.ins == ins_exchange
    then some expedited
    else if state_valid
        (auth1_done ∷ exchange_done ∷ select_step_up_done ∷ envelope_done ∷ stepup_exchange_done
          ∷ [])
        s
    then some stepup
    else none

abbrev engine_for : Option Phase → UserSession → Option EncryptionEngine
engine_for none s = none
engine_for (some phase) s = engine_of phase s

abbrev keep_in : Option Phase → Option EncryptionEngine → Option UserSession → Option UserSession
keep_in (some phase) (some e) s = store_in phase e s
keep_in _ _ s = s

abbrev keep_engine : Option Phase → Option EncryptionEngine → UserDevice → UserDevice
keep_engine phase e d = record d { session = keep_in phase e d.session }

-- `except InvalidCommandError`
unfoldable pub is_invalid_command : Error → Bool
is_invalid_command invalid_command_error = true
is_invalid_command invalid_cla_error = true
is_invalid_command invalid_ins_error = true
is_invalid_command invalid_parameter_error = true
is_invalid_command invalid_lc_error = true
is_invalid_command invalid_le_error = true
is_invalid_command invalid_command_data_error = true
is_invalid_command invalid_aid_error = true
is_invalid_command _ = false

-- the status for an exception of `parse_command`
unfoldable pub parse_failure : Error → Option ℕ
parse_failure invalid_cla_error = some status_functions_in_cla_not_supported
parse_failure invalid_parameter_error = some status_incorrect_p1_p2
parse_failure verification_error = some status_security_not_satisfied
parse_failure x = if is_invalid_command x then some status_command_not_compliant else none

unfoldable pub fail_parsing : Error → Option ℕ → Action ParsedCommand
fail_parsing x none = raise x
fail_parsing x (some status) = fail_with status x

module _ (env : Environment) where
  unfoldable pub parse_with : Option Phase → UserSession → Command → Action ParsedCommand
  parse_with phase s c = do
    (e, outcome) ← pure (parse_command env.aes env.ber env.cbor (engine_for phase s) c)
    modify (keep_engine phase e)
    catch (lift outcome) (λ x. fail_parsing x (parse_failure x))

  abbrev receive : Bytes → Action ParsedCommand
  receive command_bytes = do
    s ← the_session
    c ← handle_chaining_receive_command command_bytes
    modify (λ d. record d { apdu = limit_response c.le d.apdu })
    early_checks c
    parse_with (decrypting_phase s c) s c

  unfoldable pub message_of : Incoming → MessageKind → Action Message
  message_of m invalid_message = raise access_protocol_error
  message_of m of_ble = pure (ble_message m)
  message_of m of_command = do p ← receive m.payload; pure (command p)

  unfoldable pub wait_for_message : Action Message
  wait_for_message = do s ← the_session; m ← get_message; message_of m (message_kind m)
