-- ===== src/Reader/Send.antt =====
-- Sending a command: `handle_chaining_send_command` of the class `APDU` of access_protocol/apdu.py, and
-- the methods `command_...` of the class `Reader` of access_protocol/reader.py. Timeouts are left out.
pub mod Order
use aliro_actuator.Common.{
  ℕ, ◌==◌, ◌&&◌, ◌||◌, ◌++◌, List, [], ◌∷◌, Option, none, some, Bool, true, false, not, length, ltb,
  if◌then◌else◌, to_bytes_big, Bytes, Result, ok, err, or_raise, index_error, unbound_local_error,
  no_response_error, no_device_connected_error, unexpected_ble_message_error,
  invalid_response_data_error, attribute_error,
}
use aliro_actuator.Common
use aliro_actuator.Apdu.Command.{Command}
use aliro_actuator.Apdu.Response.{Response, given, check_chaining_response}
use aliro_actuator.Apdu.Response as Rsp
use aliro_actuator.Apdu.Response.Parse.{
  SelectFields, Auth0Response, Auth1Response, ExchangeResponse, parse_select_response,
  parse_auth0_response, parse_as_auth1, parse_as_load_cert, parse_as_control_flow,
  parse_as_exchange, parse_as_envelope,
}
use aliro_actuator.Apdu.Chain.{
  Apdu, create_get_response_command, set_extended_length, reset_extended_length,
}
use aliro_actuator.Apdu.Chain.Receive.{Incoming, is_busy, check_ble_message_type_for_response}
use aliro_actuator.Apdu.Create.{
  create_select_command, create_auth0_command, create_load_cert_command, create_auth1_command,
  create_control_flow_command, create_exchange_command, create_envelope_command,
}
use aliro_actuator.Encryption.{EncryptionEngine}
use aliro_actuator.Tlv.{to_bytes}
use aliro_actuator.Trust.{PublicKey, sign}
use aliro_actuator.Trust.Authentication.{create_reader_authentication}
use aliro_actuator.Device.{Environment}
use aliro_actuator.Reader.{Action, pure, raise, lift, gets, modify, ◌>>=◌, ◌>>◌, when}
use aliro_actuator.Reader.Session.{ReaderSession}

-- a message that must be a response, and how many bytes are left behind it
abbrev pub answer : Incoming → Result (Response × Option ℕ)
answer m = Common.◌>>◌ (check_ble_message_type_for_response m) (
    Common.◌>>=◌ (Rsp.create_from_bytestring m.payload)
      λ response. Common.◌>>=◌ (check_chaining_response response) λ left. ok (response, left))

abbrev pub get_response_command : Apdu → ℕ → ℕ → Result Command
get_response_command a cla left =
    Common.◌>>=◌
      (create_get_response_command a
        (if a.support_extended_length_apdu then a.maximum_response_apdu else left) cla)
      (λ commands. elim commands [ [] ↦ err index_error | c ∷ cs ↦ ok c ])

-- the answer to a command inside a chain; busy events are skipped while a timer runs
unfoldable pub wait_response : Bool → List Incoming → List Incoming × Result Response
wait_response timer [] = ([], err no_response_error)
wait_response timer (m ∷ ms) = elim (is_busy m) [
  | err x ↦ (ms, err x)
  | ok true ↦ elim timer [
    | true ↦ wait_response timer ms
    | false ↦ (ms, err unexpected_ble_message_error)
  ]
  | ok false ↦ (
    ms,
    Common.◌>>◌ (check_ble_message_type_for_response m) (Rsp.create_from_bytestring m.payload),
  )
]

-- what was sent, the messages left, and the result
abbrev pub Sending : Type 0 → Type 0
Sending A = List Command × List Incoming × Result A

abbrev pub behind : {A : Type 0} → Command → Sending A → Sending A
behind c (sent, left, outcome) = (c ∷ sent, left, outcome)

-- From the answer to the last command on: every answer with more data available is followed by a GET
-- RESPONSE of the class of the last command. The result is the last response and all the data.
module _ (a : Apdu) (cla : ℕ) (timer : Bool) where
  unfoldable pub fetch_rest : Bytes → List Incoming → Sending (Response × Bytes)
  fetch_rest total [] = ([], [], err no_response_error)
  fetch_rest total (m ∷ ms) = elim (is_busy m) [
    | err x ↦ ([], ms, err x)
    | ok true ↦ elim timer [
      | true ↦ fetch_rest total ms
      | false ↦ ([], ms, err unexpected_ble_message_error)
    ]
    | ok false ↦ elim (answer m) [
      | err x ↦ ([], ms, err x)
      | ok (response, remaining) ↦ elim remaining [
        | none ↦ ([], ms, ok (response, total ++ given response.payload))
        | some left ↦ elim (get_response_command a cla left) [
          | err x ↦ ([], ms, err x)
          | ok c ↦ behind c (fetch_rest (total ++ given response.payload) ms)
        ]
      ]
    ]
  ]

module _ (a : Apdu) (timer : Bool) where
  unfoldable pub send_chain : List Command → List Incoming → Sending (Response × Bytes)
  send_chain [] ms = ([], ms, err unbound_local_error)
  send_chain (c ∷ []) ms = behind c (fetch_rest a c.cla timer [] ms)
  send_chain (c ∷ next ∷ cs) ms =
      let (ms', r) = wait_response timer ms in
      elim r [ err x ↦ (c ∷ [], ms', err x) | ok _ ↦ behind c (send_chain (next ∷ cs) ms') ]

-- the response that is handed on: all the data, and the last status
abbrev pub whole_response : Result (Response × Bytes) → Result Response
whole_response (err x) = err x
whole_response (ok (last, total)) =
    Common.◌>>=◌ (to_bytes_big 2 last.status) λ status. Rsp.create_from_bytestring (total ++ status)

-- `send_message` of the transport raises an exception where no device is connected.
abbrev pub check_connected : Action (Unit {0})
check_connected d = (d, if d.connected then ok tt else err no_device_connected_error)

-- nothing is sent where no device is connected
abbrev send_over : Bool → Apdu → Bool → List Command → List Incoming → Sending (Response × Bytes)
send_over false a timer (c ∷ cs) ms = ([], ms, err no_device_connected_error)
send_over connected a timer cs ms = send_chain a timer cs ms

-- `handle_chaining_send_command`
unfoldable pub handle_chaining_send_command : List Command → Action Response
handle_chaining_send_command commands d =
    let (sent, left, outcome) = send_over d.connected d.apdu d.timer_started commands d.inbox in
    (record d { inbox = left; sent = Common.◌++◌ d.sent sent }, whole_response outcome)

-- the two phases that have an engine
pub data ReaderState : Type 0 where
  expedited stepup : ReaderState

unfoldable pub engine_of : ReaderState → ReaderSession → Option EncryptionEngine
engine_of expedited s = s.encryption_expedited
engine_of stepup s = s.encryption_stepup

abbrev set_engine : ReaderState → Option EncryptionEngine → ReaderSession → ReaderSession
set_engine expedited e s = record s { encryption_expedited = e }
set_engine stepup e s = record s { encryption_stepup = e }

abbrev store_in :
    ReaderState → Option EncryptionEngine → Option ReaderSession → Option ReaderSession
store_in state e none = none
store_in state e (some s) = some (set_engine state e s)

abbrev engine_in : ReaderState → Option ReaderSession → Option EncryptionEngine
engine_in state none = none
engine_in state (some s) = engine_of state s

-- what is done with the engine of the session, which moves on
unfoldable pub with_engine :
    {A : Type 0}
    → ReaderState
    → (Option EncryptionEngine → Option EncryptionEngine × Result A)
    → Action A
with_engine state f d =
    let (e, r) = f (engine_in state d.session) in
    (record d { session = store_in state e d.session }, r)

-- what was parsed with an engine, without which there are no attributes
abbrev the_fields : {A : Type 0} → Option A → Result A
the_fields r = or_raise attribute_error r

abbrev lengths_given : Option ℕ → Option ℕ → Bool
lengths_given (some command) (some response) = true
lengths_given _ _ = false

abbrev set_lengths : Option ℕ → Option ℕ → Apdu → Apdu
set_lengths (some command) (some response) a = set_extended_length command response a
set_lengths _ _ a = reset_extended_length a

abbrev both_lengths : SelectFields → Bool
both_lengths fields = lengths_given fields.maximum_command_apdu fields.maximum_response_apdu

-- `set_extended_length` with the two lengths of a SELECT response, or `reset_extended_length`
abbrev lengths_set : SelectFields → Apdu → Apdu
lengths_set fields = set_lengths fields.maximum_command_apdu fields.maximum_response_apdu

module _ (env : Environment) where
  unfoldable pub command_select : Bytes → Bool → Action SelectFields
  command_select aid check_apdu_length = do
    commands ← λ d. (d, create_select_command d.apdu aid)
    response ← handle_chaining_send_command commands
    fields ← lift (parse_select_response env.ber response)
    both ← pure (both_lengths fields)
    when (check_apdu_length && not both) (raise invalid_response_data_error)
    modify (λ d. record d { apdu = lengths_set fields d.apdu })
    pure fields

  unfoldable pub command_auth0 :
      ℕ → ℕ → ℕ → Bytes → Bytes → Bytes → Option Bytes → Option Bytes → Action Auth0Response
  command_auth0 transaction policy version epubk transaction_id identifier vendor extra = do
    commands ← λ d. (
      d,
      create_auth0_command env.ber d.apdu transaction policy version epubk transaction_id identifier
          vendor extra,
    )
    response ← handle_chaining_send_command commands
    lift (parse_auth0_response env.ber response)

  unfoldable pub command_load_cert : Bytes → Action (Unit {0})
  command_load_cert compressed_cert = do
    commands ← λ d. (d, create_load_cert_command d.apdu compressed_cert)
    response ← handle_chaining_send_command commands
    lift (parse_as_load_cert response)

  -- The reader signs its identifier, the two ephemeral keys and the transaction.
  unfoldable pub command_auth1 :
      ℕ → Bytes → PublicKey → PublicKey → Bytes → Option Bytes → Action Auth1Response
  command_auth1 expected_response identifier epubk reader_epubk transaction certificate = do
    content ← lift (
        Common.◌>>=◌ (create_reader_authentication identifier epubk reader_epubk transaction)
          (to_bytes env.ber))
    signature ← λ d. (d, sign env.crypto d.reader_key.private_key content)
    commands ← λ d. (d, create_auth1_command env.ber d.apdu expected_response signature certificate)
    response ← handle_chaining_send_command commands
    parsed ← with_engine expedited (λ e. parse_as_auth1 env.aes env.ber e response)
    lift (the_fields parsed)

  unfoldable pub command_exchange :
      ReaderState
      → Option Bytes
      → Option Bytes
      → Option ℕ
      → Bool
      → Option Bytes
      → Action ExchangeResponse
  command_exchange state mailbox_commands notify reader_status ursk update_doc = do
    a ← gets (λ d. d.apdu)
    commands ← with_engine state (
        create_exchange_command env.aes env.ber a mailbox_commands notify reader_status ursk
          update_doc)
    response ← handle_chaining_send_command commands
    parsed ← with_engine state (λ e. parse_as_exchange env.aes env.ber e response)
    lift (the_fields parsed)

  abbrev envelope_commands :
      Apdu → Bytes → Option EncryptionEngine → Option EncryptionEngine × Result (List Command)
  envelope_commands a request none = (none, err attribute_error)
  envelope_commands a request (some e) =
      let (e', r) = create_envelope_command env.aes env.ber env.cbor a request e in (some e', r)

  unfoldable pub command_envelope : Bytes → Action Bytes
  command_envelope request = do
    a ← gets (λ d. d.apdu)
    commands ← with_engine stepup (envelope_commands a request)
    response ← handle_chaining_send_command commands
    parsed ← with_engine stepup (λ e. parse_as_envelope env.aes env.ber env.cbor e response)
    lift (the_fields parsed)

  unfoldable pub command_control_flow : ℕ → ℕ → Option Bytes → Action (Unit {0})
  command_control_flow s1 s2 domain = do
    commands ← λ d. (d, create_control_flow_command env.ber d.apdu s1 s2 domain)
    response ← handle_chaining_send_command commands
    lift (parse_as_control_flow response)
