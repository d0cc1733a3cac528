-- ===== src/Device/Frame/Receive.antt =====
-- Receiving a message leaves the mailbox of the user device alone.
use aliro_actuator.Common.{ℕ, Error, Option, none, some}
use aliro_actuator.Apdu.Command.{Command}
use aliro_actuator.Apdu.Chain.Receive.{Incoming}
use aliro_actuator.Device.{Environment}
use aliro_actuator.Device.Session.{UserSession}
use aliro_actuator.Device.Send.{Phase, send_error}
use aliro_actuator.Device.Receive.{
  wait_for_message, early_checks, fail_parsing, parse_with, handle_chaining_receive_command,
  message_of, MessageKind, of_command, of_ble, invalid_message,
}
use aliro_actuator.Device.Frame.{KeepsMailbox}
use aliro_actuator.Device.Frame.Handlers.{answers}

early_checks-KeepsMailbox : (c : Command) → KeepsMailbox (early_checks c)
unfolding early_checks send_error KeepsMailbox
early_checks-KeepsMailbox c = search answers depth 14

fail_parsing-KeepsMailbox : (x : Error) (status : Option ℕ) → KeepsMailbox (fail_parsing x status)
unfolding fail_parsing
fail_parsing-KeepsMailbox x none = search answers
fail_parsing-KeepsMailbox x (some status) = search answers

parse_with-KeepsMailbox :
    (env : Environment) (phase : Option Phase) (s : UserSession) (c : Command)
    → KeepsMailbox (parse_with env phase s c)
unfolding parse_with KeepsMailbox
parse_with-KeepsMailbox env phase s c = search (answers, fail_parsing-KeepsMailbox) depth 10

message_of-KeepsMailbox :
    (env : Environment) (m : Incoming) (kind : MessageKind) → KeepsMailbox (message_of env m kind)
unfolding message_of handle_chaining_receive_command KeepsMailbox
message_of-KeepsMailbox env m of_command =
    search (answers, early_checks-KeepsMailbox, parse_with-KeepsMailbox) depth 20
message_of-KeepsMailbox env m of_ble = search answers
message_of-KeepsMailbox env m invalid_message = search answers

pub wait_for_message-KeepsMailbox : (env : Environment) → KeepsMailbox (wait_for_message env)
unfolding wait_for_message KeepsMailbox
wait_for_message-KeepsMailbox env = search (answers, message_of-KeepsMailbox) depth 8
