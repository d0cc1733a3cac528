-- ===== src/Reader/Tests/Transactions.antt =====
-- A reader between two messages, with a small cache.
use aliro_actuator.Common.{
  ◌≡◌, ◌⊎◌, refl, List, [], ◌∷◌, none, some, true, false, replicate, Bytes, ok,
}
use aliro_actuator.Apdu.Command.{Command}
use aliro_actuator.Apdu.Chain.{nfc}
use aliro_actuator.Apdu.Chain as Chain
use aliro_actuator.Apdu.Chain.Receive.{Incoming}
use aliro_actuator.Apdu.Response.Parse.{exchange_payload}
use aliro_actuator.Trust.{KeyObject}
use aliro_actuator.Trust as Trust
use aliro_actuator.Device.Tests.{a_key, a_pair, an_environment}
use aliro_actuator.Device.Exchange.Requests.{read_payload}
use aliro_actuator.Reader.{Reader, continue_with_standard, test}
use aliro_actuator.Reader.Tests.Agreement.{reader_side}
use aliro_actuator.Reader.Tests.Answers.{answered, standard_answers, fast_answers}
use aliro_actuator.Reader.Send.{send_chain}
use aliro_actuator.Reader.Send.Order.{InOrder, send_chain-InOrder}
use aliro_actuator.Reader.Exchange.{read_data, reader_status}
use aliro_actuator.Reader.Exchange.ReadData.{read_data-read_payload}
use aliro_actuator.Reader.Failure.{failure_fuel}
use aliro_actuator.Reader.Failure.Fuel.{failure_fuel-enough}
use aliro_actuator.Reader.Authentication.Standard.{
  expedited_transaction_standard, expedited_transaction_fast, lookup_credential_public_key,
  valid_keys,
}
use aliro_actuator.Reader.Authentication.KeySlot.{Single, lookup_credential_public_key-Single}
use aliro_actuator.Reader.Frame.Outcomes.{Fails}
use aliro_actuator.Reader.Frame.Accepted.{Signed}
use aliro_actuator.Reader.Frame.Opened.{OpenedBy}
use aliro_actuator.Reader.Frame.Transactions.{
  expedited_transaction_standard-Safe, expedited_transaction_fast-Safe,
}

-- an answer of a success without data
abbrev success : Incoming
success = record { payload = 0x90 ∷ 0x00 ∷ []; header = none; id = none }

abbrev an_object : KeyObject
an_object = record { key = a_key; identity = 3 }

abbrev a_reader : Reader
a_reader = record {
  transport = nfc;
  apdu = Chain.init nfc 255 256;
  reader_key = a_pair;
  reader_cert = none;
  reader_system_issuer_ca = none;
  reader_identifier = replicate 32 7;
  vendor_extension = none;
  fast_transaction_implemented = true;
  session = some reader_side;
  storage = record { access_credential = an_object; kpersistent = replicate 32 1 } ∷ [];
  transaction_identifier_list = [];
  ephemeral_key_list = [];
  key_slot_list = [];
  fast_transaction_handling = continue_with_standard;
  failure_process_started = false;
  mode = test;
  inbox = success ∷ [];
  sent = [];
  notified = [];
  connected = true;
  timer_started = false;
  ble_versions = none;
  session_key = none;
  drawn = 0;
  created = 10;
}

abbrev pub answered_standard : Reader
answered_standard = record a_reader { inbox = standard_answers }

abbrev pub answered_fast : Reader
answered_fast = record a_reader { inbox = fast_answers }

expedited_transaction_standard-Safe_example :
    let r = expedited_transaction_standard answered 1 false answered_standard in
    ((r.0.storage ≡ answered_standard.storage) × Fails r.1)
    ⊎ Signed answered answered_standard.storage r.0
expedited_transaction_standard-Safe_example =
    expedited_transaction_standard-Safe answered 1 false answered_standard

expedited_transaction_fast-Safe_example :
    let r = expedited_transaction_fast answered 1 answered_fast in
    ((r.0.storage ≡ answered_fast.storage) × Fails r.1)
    ⊎ (OpenedBy answered answered_fast.storage r.0 ⊎ Signed answered answered_fast.storage r.0)
expedited_transaction_fast-Safe_example = expedited_transaction_fast-Safe answered 1 answered_fast

failure_fuel-enough_example :
    failure_fuel an_environment 5 0x27 reader_status a_reader
    ≡ failure_fuel an_environment 2 0x27 reader_status a_reader
failure_fuel-enough_example = failure_fuel-enough an_environment 3 0x27 reader_status a_reader

-- two reads of two bytes and of one
abbrev read_bytes : Bytes
read_bytes = 0 ∷ 2 ∷ 8 ∷ 9 ∷ 0 ∷ 1 ∷ 7 ∷ 0 ∷ 2 ∷ 0 ∷ 0 ∷ []

read_data-read_payload_example :
    (read_data (some ((0, 2) ∷ (4, 1) ∷ [])) (exchange_payload read_bytes).read_data
      ≡ ok ((8 ∷ 9 ∷ []) ∷ (7 ∷ []) ∷ []))
    × ((exchange_payload read_bytes).status_code ≡ 0 ∷ 2 ∷ 0 ∷ 0 ∷ [])
unfolding read_payload
read_data-read_payload_example =
    read_data-read_payload ((8 ∷ 9 ∷ []) ∷ (7 ∷ []) ∷ []) ((0, 2) ∷ (4, 1) ∷ []) refl refl

-- the commands of a chain of two, and the answers to them
abbrev first_command : Command
first_command = record {
  as_bytes = 0x90 ∷ 0xc3 ∷ 0 ∷ 0 ∷ 2 ∷ 1 ∷ 2 ∷ [];
  cla = 0x90;
  ins = 0xc3;
  p1 = 0;
  p2 = 0;
  lc = some 2;
  le = none;
  payload = some (1 ∷ 2 ∷ []);
  chaining_control_bit = true;
}

send_chain-InOrder_example :
    InOrder (Chain.init nfc 255 256) true (first_command ∷ first_command ∷ []) 0x90 (
      send_chain
        (Chain.init nfc 255 256)
        true
        (first_command ∷ first_command ∷ [])
        (success ∷ success ∷ []))
send_chain-InOrder_example =
    send_chain-InOrder (Chain.init nfc 255 256) true first_command (first_command ∷ [])
      (success ∷ success ∷ [])

abbrev another_object : KeyObject
another_object = record { key = a_key; identity = 4 }

abbrev slots : List (Bytes × KeyObject)
slots = (replicate 8 1, an_object) ∷ (replicate 8 2, another_object) ∷ []

lookup_credential_public_key-Single_example : Single (replicate 8 2) another_object slots
unfolding lookup_credential_public_key valid_keys Trust.same_bytes
lookup_credential_public_key-Single_example =
    lookup_credential_public_key-Single (replicate 8 2) slots refl
