-- ===== src/Device/Tests.antt =====
-- A user device with a small mailbox, between two commands.
use aliro_actuator.Common.{
  ◌≡◌, refl, [], ◌∷◌, ◌++◌, none, some, true, false, replicate, length, ok, arith, inl,
}
use aliro_actuator.Tlv.{nil}
use aliro_actuator.Encryption.{init, user}
use aliro_actuator.Encryption.Tests.{clear}
use aliro_actuator.Apdu.Chain.{nfc}
use aliro_actuator.Apdu.Chain as Chain
use aliro_actuator.Apdu.Parse.{ParsedCommand, exchange}
use aliro_actuator.Apdu.Parse.Exchange.{MailboxFields}
use aliro_actuator.Mailbox.{Mailbox, check_boundaries}
use aliro_actuator.Mailbox.Session.{MailboxSession, execute_all, start}
use aliro_actuator.Mailbox.Session as Session
use aliro_actuator.Trust.{Crypto, KeyPair, PublicKey}
use aliro_actuator.Device.{UserDevice, Environment, test}
use aliro_actuator.Device.Session.{UserSession, auth1_done, state_valid, state_in, state_value}
use aliro_actuator.Device.Session as UserSession
use aliro_actuator.Device.Transaction.{command_step}
use aliro_actuator.Device.Exchange.Requests.{check_requests, change, fits_block, fits_write}
use aliro_actuator.Device.Frame.{mailboxes}
use aliro_actuator.Device.Frame.Commands.{Outcome, exchange_of, command_step-Outcome}
use aliro_actuator.Device.Bounds.{InBounds, size}
use aliro_actuator.Device.Bounds.Accepted.{commands_of}
use aliro_actuator.Device.Bounds.Change.{change-InBounds}
use aliro_actuator.Device.Bounds.Reach.{here, next, command, Reach-InBounds}
use aliro_actuator.Device.Bounds.Atomic.{atomic_commands, all_commands, change-atomic_commands}

abbrev pub a_key : PublicKey
a_key = record { as_bytes = 4 ∷ replicate 64 1; get_x = 1 }

abbrev pub a_pair : KeyPair
a_pair = record { private_key = replicate 32 1; public_key = a_key }

abbrev pub a_crypto : Crypto
a_crypto = record {
  from_encoded_point = λ b. some a_key;
  ecdsa_sign = λ key content. (1, 2);
  ecdsa_verify = λ key content r s. true;
  exchange = λ private_key key info. replicate 32 3;
  derive_key = λ key info n salt. replicate n 4;
  sha1 = λ b. replicate 20 5;
  generate = λ n. a_pair;
  urandom = λ n size'. replicate size' 6;
}

abbrev pub an_environment : Environment
an_environment = record {
  aes = clear;
  ber = record { parse = λ b r. some nil; build = λ d. some [] };
  cbor = record { loads_data = λ b. some (some b); dumps_data = λ b. b };
  crypto = a_crypto;
  certificates = record {
    decode_compressed = λ b. some b;
    verify = λ b key. true;
    get_public_key = λ b. a_key;
  };
  doc_timestamp = λ b. ok (replicate 20 0);
  revoke_timestamp = λ b. ok (replicate 20 0);
  dumps_response = λ documents. ok [];
}

abbrev six_bytes : Mailbox
six_bytes = record {
  read_permission = true;
  write_permission = true;
  step_up_permission = false;
  index = [];
  data_set = true;
  content = 1 ∷ 2 ∷ 3 ∷ 4 ∷ 5 ∷ 6 ∷ [];
}

abbrev no_session : MailboxSession
no_session = record { commands = []; started = false }

abbrev authenticated : UserSession
authenticated = record (UserSession.init (0x0100 ∷ []) none) {
  state = auth1_done;
  encryption_expedited = some (init user (replicate 32 1) (replicate 32 2));
}

abbrev a_device : UserDevice
a_device = record {
  transport = nfc;
  apdu = Chain.init nfc 255 256;
  access_credentials = [];
  supported_versions = 0x0100 ∷ [];
  session = some authenticated;
  access_document = none;
  revocation_document = none;
  access_document_updatable = false;
  storage = [];
  mailbox = some six_bytes;
  mailbox_session = no_session;
  vendor_extension = none;
  fast_transaction_implemented = true;
  step_up_aid_required = false;
  has_issuer_backend = false;
  has_bound_application = false;
  ephemeral_key_list = [];
  mode = test;
  support_step_up_notify = true;
  support_step_up_update_doc = true;
  enable_uwb = false;
  inbox = [];
  sent = [];
  connected = true;
  timer_started = false;
  ble_versions = none;
  session_key = none;
  uwb_session_id = none;
  drawn = 0;
}

-- a write of two bytes at the offset 2, and a set of three bytes at the offset 1 to the value 7
abbrev two_requests : MailboxFields
two_requests = record {
  atomic_session = some false;
  read_requests = [];
  write_requests = (0 ∷ 2 ∷ 9 ∷ 8 ∷ []) ∷ [];
  set_requests = (0 ∷ 1 ∷ 0 ∷ 3 ∷ 7 ∷ []) ∷ [];
}

abbrev an_exchange : ParsedCommand
an_exchange = exchange (
    some (record {
      mailbox_fields = two_requests;
      reader_status = none;
      notify = none;
      notify_fields = record { reader_error = none; descriptor = none };
      ursk = none;
      update_doc = none;
    }))

command_step-Outcome_example :
    Outcome
      (exchange_of an_exchange)
      a_device
      (command_step an_environment true an_exchange a_device).0
command_step-Outcome_example = command_step-Outcome an_environment true an_exchange a_device

Reach-InBounds_example :
    InBounds (mailboxes (command_step an_environment true an_exchange a_device).0)
    × (size (command_step an_environment true an_exchange a_device).0.mailbox ≡ 6)
Reach-InBounds_example =
    Reach-InBounds an_environment a_device (command_step an_environment true an_exchange a_device).0
      (next here
        (command a_device true an_exchange ((omega arith, tt), ((7, refl, omega arith), tt))))
      (tt, inl refl)

change-InBounds_example :
    ((change true two_requests.set_requests two_requests.write_requests no_session six_bytes).2
      ≡ ok tt)
    × InBounds (
      some
          (change true two_requests.set_requests two_requests.write_requests no_session
            six_bytes).1,
      (change true two_requests.set_requests two_requests.write_requests no_session six_bytes).0,
    )
    × (length
          (change true two_requests.set_requests two_requests.write_requests no_session
            six_bytes).1.content
        ≡ 6)
unfolding check_requests fits_block fits_write check_boundaries state_valid state_in state_value
change-InBounds_example =
    change-InBounds true two_requests authenticated six_bytes no_session
      ((omega arith, tt), ((7, refl, omega arith), tt)) refl (tt, inl refl)

change-atomic_commands_example :
    let before = atomic_commands (two_requests ∷ []) Session.init six_bytes in
    let after =
      change false two_requests.set_requests two_requests.write_requests before.0 before.1 in
    let run =
      execute_all
        (all_commands (two_requests ∷ [])
          ++ commands_of two_requests.set_requests two_requests.write_requests)
        six_bytes in
    (before.1 ≡ six_bytes)
    × (after.1 ≡ run.0)
    × (after.2 ≡ run.1)
    × (run.1 ≡ ok tt → after.0 ≡ Session.init)
change-atomic_commands_example = change-atomic_commands two_requests [] two_requests six_bytes

-- the device in an open atomic session, to which a SELECT comes
abbrev in_atomic_session : UserDevice
in_atomic_session = record a_device { mailbox_session = record { commands = []; started = true } }
