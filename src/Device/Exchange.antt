-- ===== src/Device/Exchange.antt =====
-- `handle_exchange` of the class `UserDevice` of access_protocol/user_device.py.
pub mod Requests
use aliro_actuator.Common.{
  ℕ, ◌+◌, ◌/◌, ◌^◌, List, [], ◌∷◌, ◌++◌, Option, none, some, Bool, true, false, not, ◌==◌, ◌&&◌,
  ◌||◌, ltb, if◌then◌else◌, length, Bytes, Result, ok, err, or_raise, access_protocol_error,
  session_error, attribute_error,
}
use aliro_actuator.Common as Common
use aliro_actuator.Encryption.{EncryptionEngine, check_counters_valid}
use aliro_actuator.Mailbox.{Mailbox}
use aliro_actuator.Mailbox.Session.{MailboxSession}
use aliro_actuator.Apdu.Parse.{ParsedCommand, exchange}
use aliro_actuator.Apdu.Parse.Exchange.{ExchangeFields, MailboxFields}
use aliro_actuator.Device.Session.{
  UserSession, UserSessionState, auth0_fast_done, auth1_done, exchange_done, select_step_up_done,
  envelope_done, stepup_exchange_done, transaction_complete, state_valid, update_state, set_ursk,
}
use aliro_actuator.Device.{
  UserDevice, Environment, Action, pure, raise, lift, gets, modify, when, ◌>>=◌, ◌>>◌, the_session,
  set_session, is_ble,
}
use aliro_actuator.Device.Send.{
  Phase, expedited, stepup, engine_of, response_exchange, failure_process,
  status_invalid_instruction,
}
use aliro_actuator.Device.Authentication.{fail_with}
use aliro_actuator.Device.Exchange.Requests.{
  Verdict, accepted, refused, out_of_boundaries, check_requests, check_notify, read_all, change,
  read_payload, needs_mailbox,
}

-- the states in which EXCHANGE is allowed
abbrev pub exchange_states : List UserSessionState
exchange_states =
    auth0_fast_done ∷ auth1_done ∷ exchange_done ∷ envelope_done ∷ stepup_exchange_done
    ∷ select_step_up_done ∷ []

abbrev pub stepup_states : List UserSessionState
stepup_states = envelope_done ∷ stepup_exchange_done ∷ []

abbrev pub phase_of : UserSession → Phase
phase_of s = if state_valid stepup_states s then stepup else expedited

abbrev pub next_state : UserSession → UserSessionState
next_state s = if state_valid stepup_states s then stepup_exchange_done else exchange_done

abbrev pub error_payload : Bytes
error_payload = 0x00 ∷ 0x02 ∷ 0xff ∷ 0xff ∷ []

-- a reader status completes the transaction; on BLE its first byte has to be 0
unfoldable pub take_reader_status : Option ℕ → UserSession → Action UserSession
take_reader_status none s = pure s
take_reader_status (some status) s = do
  ble ← gets (λ d. is_ble d.transport)
  when (ble && not (status / 2 ^ 8 == 0)) (raise access_protocol_error)
  let s' = update_state transaction_complete s
  set_session s'
  pure s'

unfoldable pub take_ursk : Option Bytes → UserSession → Action UserSession
take_ursk none s = pure s
take_ursk (some b) s = do s' ← lift (set_ursk s); set_session s'; pure s'

-- the mailbox and the atomic session after the sets and the writes, where there is a mailbox
unfoldable pub changed :
    Option Bool
    → List Bytes
    → List Bytes
    → Option Mailbox
    → MailboxSession
    → Option Mailbox × MailboxSession × Result (Unit {0})
changed atomic sets writes none session = (none, session, ok tt)
changed none sets writes (some m) session = (some m, session, ok tt)
changed (some atomic) sets writes (some m) session =
    let (session', m', outcome) = change atomic sets writes session m in
    (some m', session', outcome)

unfoldable pub change_mailbox : MailboxFields → Action (Unit {0})
change_mailbox fields d =
    let (mailbox', session', outcome) =
      changed fields.atomic_session fields.set_requests fields.write_requests d.mailbox
        d.mailbox_session in
    (record d { mailbox = mailbox'; mailbox_session = session' }, outcome)

module _ (env : Environment) where
  -- `return_exchange_error_and_close_channel`
  unfoldable pub return_exchange_error : Phase → EncryptionEngine → Action (Unit {0})
  return_exchange_error phase e = response_exchange env phase e error_payload

  -- a refusal: with an error response where the mailbox is missing or too small
  unfoldable pub on_verdict : Phase → EncryptionEngine → Verdict → Action (Unit {0})
  on_verdict phase e accepted = pure tt
  on_verdict phase e refused = raise access_protocol_error
  on_verdict phase e out_of_boundaries = do
    return_exchange_error phase e
    raise access_protocol_error

  abbrev read_mailbox : List Bytes → Option Mailbox → Result (List Bytes)
  read_mailbox reads none = ok []
  read_mailbox reads (some m) = read_all reads m

  -- from the checks of the requests on
  unfoldable pub serve_requests :
      Phase → EncryptionEngine → ExchangeFields → UserSession → Action (Unit {0})
  serve_requests phase e fields s = do
    verdict ← gets (λ d. check_requests fields.mailbox_fields s d.mailbox)
    on_verdict phase e verdict
    lift (check_notify env.ber fields.notify)
    reads ← λ d. (d, read_mailbox fields.mailbox_fields.read_requests d.mailbox)
    change_mailbox fields.mailbox_fields
    payload ← lift (read_payload reads)
    response_exchange env phase e payload

  unfoldable pub take_fields :
      Phase → EncryptionEngine → UserSession → ExchangeFields → Action (Unit {0})
  take_fields phase e s fields = do
    s1 ← take_reader_status fields.reader_status s
    s2 ← take_ursk fields.ursk s1
    serve_requests phase e fields s2

  -- with a valid engine; where the command was not decrypted, it has no attributes
  unfoldable pub exchange_with :
      Phase → EncryptionEngine → Option ExchangeFields → UserSession → Action (Unit {0})
  exchange_with phase e given s = do
    let s' = update_state (next_state s) s
    set_session s'
    fields ← lift (or_raise attribute_error given)
    take_fields phase e s' fields

  -- Used-up counters end the session, without an exception.
  unfoldable pub handle_exchange : ParsedCommand → Action (Unit {0})
  handle_exchange (exchange given) = do
    s ← the_session
    when (not (state_valid exchange_states s)) (fail_with status_invalid_instruction session_error)
    e ← lift (or_raise access_protocol_error (engine_of (phase_of s) s))
    if check_counters_valid e
        then exchange_with (phase_of s) e given s
        else failure_process status_invalid_instruction
  handle_exchange _ = raise access_protocol_error
