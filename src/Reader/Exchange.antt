-- ===== src/Reader/Exchange.antt =====
-- The handlers of EXCHANGE and of CONTROL FLOW in the class `Reader` of access_protocol/reader.py. The
-- failure process is their argument `fail`, since it calls them in turn.
pub mod ReadData
use aliro_actuator.Common.{
  ℕ, zero, suc, ◌+◌, ◌++◌, List, [], ◌∷◌, Option, none, some, Bool, true, false, not, ◌==◌,
  if◌then◌else◌, length, take, drop, to_bytes_big, from_bytes_big, byte, Bytes, Result, ok, err,
  Error, access_protocol_error, type_error, stuck, invalid_status_error,
  invalid_response_data_error, verification_error,
}
use aliro_actuator.Common
use aliro_actuator.Tlv.{Tlv, nil, element, bytes, BerTlv, to_bytes}
use aliro_actuator.Trust.{same_bytes}
use aliro_actuator.Device.{Environment}
use aliro_actuator.Apdu.Response.Parse.{ExchangeResponse}
use aliro_actuator.Reader.{
  Action, raise, lift, modify, when, catch, ◌>>=◌, ◌>>◌, the_session, end_session,
}
use aliro_actuator.Reader.Send.{ReaderState, command_exchange, command_control_flow}

pub data ReaderFailureState : Type 0 where
  reader_status status_word b1_b2_error : ReaderFailureState

-- `failure_process(error_code, failure_state)`
abbrev pub Fail : Type 0
Fail = ℕ → ReaderFailureState → Action (Unit {0})

-- the failure process, and then the exception
unfoldable pub fail_with : {A : Type 0} → Fail → ℕ → ReaderFailureState → Error → Action A
fail_with fail code state x = do fail code state; raise x

abbrev pub run_refusal : {A : Type 0} → Fail → Error → Option (ℕ × ReaderFailureState) → Action A
run_refusal fail x none = raise x
run_refusal fail x (some (code, state)) = fail_with fail code state x

-- `try: m`, where some exceptions start the failure process and are raised again
unfoldable pub with_failure :
    {A : Type 0} → Fail → (Error → Option (ℕ × ReaderFailureState)) → Action A → Action A
with_failure fail refusal m = catch m (λ x. run_refusal fail x (refusal x))

-- The exceptions of a status and of a format, and those of the decryption, with the codes that are
-- given for them.
unfoldable pub control_flow_refusal : Error → Option (ℕ × ReaderFailureState)
control_flow_refusal invalid_status_error = some (0x00, status_word)
control_flow_refusal invalid_response_data_error = some (0x0006, reader_status)
control_flow_refusal verification_error = some (0x0006, reader_status)
control_flow_refusal x = none

unfoldable pub exchange_refusal : Error → Option (ℕ × ReaderFailureState)
exchange_refusal invalid_status_error = some (0x00, status_word)
exchange_refusal invalid_response_data_error = some (0x0006, reader_status)
exchange_refusal verification_error = some (0x0007, reader_status)
exchange_refusal x = none

-- the requests as elements, the reads first
abbrev set_elements : List (ℕ × ℕ × ℕ) → Result Tlv
set_elements [] = ok nil
set_elements ((offset, size, value) ∷ requests) = Common.◌>>=◌ (to_bytes_big 2 offset) λ first.
    Common.◌>>=◌ (to_bytes_big 2 size) λ second. Common.◌>>=◌ (byte value) λ third.
      Common.◌>>=◌ (set_elements requests)
        λ rest. ok (element 0x95 (bytes ((first ++ second) ++ third)) rest)

abbrev write_elements : List (ℕ × Bytes) → Result Tlv → Result Tlv
write_elements [] others = others
write_elements ((offset, content) ∷ requests) others = Common.◌>>=◌ (to_bytes_big 2 offset) λ first.
    Common.◌>>=◌ (write_elements requests others)
      λ rest. ok (element 0x8a (bytes (first ++ content)) rest)

abbrev read_elements : List (ℕ × ℕ) → Result Tlv → Result Tlv
read_elements [] others = others
read_elements ((offset, size) ∷ requests) others = Common.◌>>=◌ (to_bytes_big 2 offset) λ first.
    Common.◌>>=◌ (to_bytes_big 2 size) λ second.
      Common.◌>>=◌ (read_elements requests others)
        λ rest. ok (element 0x87 (bytes (first ++ second)) rest)

abbrev or_empty : {A : Type 0} → Option (List A) → List A
or_empty none = []
or_empty (some xs) = xs

-- what a caller asks of the mailbox
pub record Requests : Type 0 where
  pub atomic_session : Bool
  pub read_requests : Option (List (ℕ × ℕ))
  pub write_requests : Option (List (ℕ × Bytes))
  pub set_requests : Option (List (ℕ × ℕ × ℕ))

abbrev request_elements : Requests → Result Tlv
request_elements q =
    read_elements (or_empty q.read_requests)
      (write_elements (or_empty q.write_requests) (set_elements (or_empty q.set_requests)))

abbrev bit_of : Bool → ℕ
bit_of true = 1
bit_of false = 0

-- The element of the atomic session stands before the requests; without requests there is nothing.
abbrev with_atomic : BerTlv → Bool → Tlv → Result (Option Bytes)
with_atomic ber atomic nil = ok none
with_atomic ber atomic d =
    Common.◌>>=◌ (to_bytes ber (element 0x8c (bytes (bit_of atomic ∷ [])) nil))
      λ first. Common.◌>>=◌ (to_bytes ber d) λ rest. ok (some (first ++ rest))

pub mailbox_commands : BerTlv → Requests → Result (Option Bytes)
mailbox_commands ber q = Common.◌>>=◌ (request_elements q) (with_atomic ber q.atomic_session)

-- The loop over the data that was read, with fuel; `b` is what stands from the index on.
unfoldable pub read_loop : ℕ → Bytes → Result (List Bytes)
read_loop fuel [] = ok []
read_loop zero (x ∷ b) = err stuck
read_loop (suc fuel) (x ∷ b) =
    let size = from_bytes_big (take 2 (x ∷ b)) in
    let rest = read_loop fuel (drop (2 + size) (x ∷ b)) in
    Common.◌>>=◌ rest λ data'. ok (take size (drop 2 (x ∷ b)) ∷ data')

abbrev no_requests : Option (List (ℕ × ℕ)) → Bool
no_requests none = true
no_requests (some requests) = length requests == 0

-- as many pieces as requests; the text of the exception needs the length of the requests
abbrev as_many : Option (List (ℕ × ℕ)) → List Bytes → Result (List Bytes)
as_many none pieces = err type_error
as_many (some requests) pieces =
    if length requests == length pieces then ok pieces else err access_protocol_error

unfoldable pub read_data : Option (List (ℕ × ℕ)) → Bytes → Result (List Bytes)
read_data requests [] = if no_requests requests then ok [] else err access_protocol_error
read_data requests (x ∷ b) = Common.◌>>=◌ (read_loop (length (x ∷ b)) (x ∷ b)) (as_many requests)

abbrev optional_bytes : BerTlv → Option Tlv → Result (Option Bytes)
optional_bytes ber none = ok none
optional_bytes ber (some d) = Common.◌>>=◌ (to_bytes ber d) λ b. ok (some b)

module _ (env : Environment) (fail : Fail) where
  -- the last four bytes must be the status of a success
  unfoldable pub check_status_code : ExchangeResponse → Action (Unit {0})
  check_status_code response = do
    when (not (length response.status_code == 4))
        (fail_with fail 0x00 b1_b2_error access_protocol_error)
    when (not (same_bytes response.status_code (0x00 ∷ 0x02 ∷ 0x00 ∷ 0x00 ∷ [])))
        (fail_with fail 0x00 b1_b2_error access_protocol_error)

  unfoldable pub handle_exchange :
      Requests → Option Tlv → Bool → Option Bytes → Option ℕ → ReaderState → Action (List Bytes)
  handle_exchange requests notify ursk update_doc status state = do
    the_session
    commands ← lift (mailbox_commands env.ber requests)
    notify_bytes ← lift (optional_bytes env.ber notify)
    response ←
        with_failure fail exchange_refusal
          (command_exchange env state commands notify_bytes status ursk update_doc)
    check_status_code response
    lift (read_data requests.read_requests response.read_data)

  -- A success ends the session.
  unfoldable pub handle_control_flow : ℕ → Action (Unit {0})
  handle_control_flow s2 = do
    the_session
    with_failure fail control_flow_refusal (command_control_flow env 0x00 s2 none)
    modify end_session
