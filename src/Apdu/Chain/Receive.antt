-- ===== src/Apdu/Chain/Receive.antt =====
-- Putting a chain together again: `handle_chaining_receive_command` and the response part of
-- `handle_chaining_send_command`. What the transport layer's `get_message` answers, one call after
-- the other, is a list; behind its end `get_message` raises. Timeouts are left out.
pub mod Commands
use aliro_actuator.Common.{
  ℕ, zero, suc, ◌+◌, List, [], ◌∷◌, ◌++◌, Option, none, some, Bool, true, false, ◌==◌, ◌&&◌, ◌||◌,
  not, if◌then◌else◌, get_elem?, to_bytes_big, Bytes, Result, ok, err, or_raise, guard, index_error,
  no_response_error, unexpected_ble_message_error, ◌>>=◌, ◌>>◌,
}
use aliro_actuator.Apdu.Command.{Command}
use aliro_actuator.Apdu.Command as Cmd
use aliro_actuator.Apdu.Response.{Response, given, check_chaining_response}
use aliro_actuator.Apdu.Response as Rsp
use aliro_actuator.Apdu.Chain.{Apdu, create_get_response_command}

-- The bytes, and the header and id of the BLE message, which are None on other transports.
pub record Incoming : Type 0 where
  pub payload : Bytes
  pub header : Option ℕ
  pub id : Option ℕ

abbrev is_some_of : ℕ → Option ℕ → Bool
is_some_of n none = false
is_some_of n (some m) = m == n

-- the test for a busy event; the first byte is read only for an event notification
unfoldable pub is_busy : Incoming → Result Bool
is_busy m =
    if is_some_of 2 m.header && is_some_of 0 m.id
    then (do first ← or_raise index_error (get_elem? m.payload 0); ok (first == 0))
    else ok false

abbrev pub differs : Option ℕ → ℕ → Bool
differs none n = false
differs (some m) n = not (m == n)

-- `check_ble_message_type_for_command`: header AP and id AP_RQ, where there are any
pub check_ble_message_type_for_command : Incoming → Result (Unit {0})
check_ble_message_type_for_command m =
    guard (not (differs m.header 0 || differs m.id 0)) unexpected_ble_message_error

-- `check_ble_message_type_for_response`: header AP and id AP_RS
unfoldable pub check_ble_message_type_for_response : Incoming → Result (Unit {0})
check_ble_message_type_for_response m =
    guard (not (differs m.header 0 || differs m.id 1)) unexpected_ble_message_error

-- The rest of a chain behind the data `total`: the last command, the whole data, the number of
-- success responses sent, and the messages left. Busy events are skipped while a timer runs.
pub receive_rest : Bool → Bytes → ℕ → List Incoming → Result (Command × Bytes × ℕ × List Incoming)
receive_rest timer total sent [] = err no_response_error
receive_rest timer total sent (m ∷ ms) = is_busy m >>= λ busy. elim busy [
  | true ↦ elim timer [
    | true ↦ receive_rest timer total sent ms
    | false ↦ err unexpected_ble_message_error
  ]
  | false ↦
      check_ble_message_type_for_command m
      >> (Cmd.create_from_bytestring m.payload >>= λ command. elim command.chaining_control_bit [
        | true ↦ receive_rest timer (total ++ given command.payload) (sent + 1) ms
        | false ↦ ok (command, total ++ given command.payload, sent, ms)
      ])
]

-- `handle_chaining_receive_command`: the command, and whether it came as a chain.
pub receive_command : Bool → Bytes → List Incoming → Result (Command × Bool)
receive_command timer command_bytes messages = do
  command ← Cmd.create_from_bytestring command_bytes
  if command.chaining_control_bit
      then (do
        (last, total, _, _) ← receive_rest timer (given command.payload) 1 messages
        whole ← Cmd.create_from_parameters last.cla last.ins last.p1 last.p2 total last.le
        ok (whole, true))
      else ok (command, false)

-- The response loop: from the answer to the last command on, every answer with more data available is
-- followed by a GET RESPONSE of the class `cla`, the class of the last command. The result is the last
-- response, all the data, and how many GET RESPONSE commands were sent.
module _ (a : Apdu) (cla : ℕ) (busy_expected : Bool) where
  pub collect_rest : Bytes → ℕ → List Incoming → Result (Response × Bytes × ℕ)
  collect_rest total sent [] = err no_response_error
  collect_rest total sent (m ∷ ms) = is_busy m >>= λ busy. elim busy [
    | true ↦ elim busy_expected [
      | true ↦ collect_rest total sent ms
      | false ↦ err unexpected_ble_message_error
    ]
    | false ↦
        check_ble_message_type_for_response m
        >> (Rsp.create_from_bytestring m.payload >>= λ response.
            check_chaining_response response >>= λ remaining. elim remaining [
              | some left ↦
                  create_get_response_command a
                    (if a.support_extended_length_apdu then a.maximum_response_apdu else left) cla
                  >> collect_rest (total ++ given response.payload) (sent + 1) ms
              | none ↦ ok (response, total ++ given response.payload, sent)
            ])
  ]

  -- The response that is handed on: all the data, and the last status.
  pub collect_response : List Incoming → Result Response
  collect_response messages = do
    (last, total, _) ← collect_rest [] 0 messages
    status ← to_bytes_big 2 last.status
    Rsp.create_from_bytestring (total ++ status)
