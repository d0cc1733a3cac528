-- ===== src/Apdu/Parse/Exchange.antt =====
-- The attributes of an EXCHANGE command, which `Command.parse_as_exchange` of access_protocol/apdu.py
-- reads from the decrypted payload.
use aliro_actuator.Common.{
  ℕ, List, [], ◌∷◌, Option, none, some, Bool, false, not, ◌==◌, ◌||◌, if◌then◌else◌, from_bytes_big,
  Bytes, Result, ok, Error, invalid_command_data_error, ◌>>=◌, ◌>>◌,
}
use aliro_actuator.Tlv.{BerTlv, from_bytes}
use aliro_actuator.Tlv.Tags.{exchange_cmd, exchange_cmd_ba, exchange_cmd_ae, exchange_cmd_b5}
use aliro_actuator.Tlv.Sequence.{verify_sequence}
use aliro_actuator.Tlv.Fields.{
  get_bytes_from_tlv, get_optional_bytes_from_tlv, get_multiple_optional_bytes_from_tlv, enumerate,
}

-- the class that `invalid_data_error` of a command is
abbrev pub invalid : Error
invalid = invalid_command_data_error

pub record Descriptor : Type 0 where
  pub vendor_id : Bytes
  pub product_id : Bytes
  pub firmware_version : Bytes

pub record MailboxFields : Type 0 where
  pub atomic_session : Option Bool
  pub read_requests : List Bytes
  pub write_requests : List Bytes
  pub set_requests : List Bytes

pub record NotifyFields : Type 0 where
  pub reader_error : Option Bytes
  pub descriptor : Option Descriptor

pub record ExchangeFields : Type 0 where
  pub mailbox_fields : MailboxFields
  pub reader_status : Option ℕ
  pub notify : Option Bytes
  pub notify_fields : NotifyFields
  pub ursk : Option Bytes
  pub update_doc : Option Bytes

-- `value in values`
abbrev in_list : ℕ → List ℕ → Bool
in_list n [] = false
in_list n (v ∷ vs) = v == n || in_list n vs

-- the members of `ReaderStatus`
abbrev reader_status_list : List ℕ
reader_status_list =
    0x0001 ∷ 0x0002 ∷ 0x0003 ∷ 0x0004 ∷ 0x0006 ∷ 0x0007 ∷ 0x0020 ∷ 0x0021 ∷ 0x0022 ∷ 0x0023 ∷ 0x0025
    ∷ 0x0026 ∷ 0x0100 ∷ 0x0101 ∷ 0x0102 ∷ 0x0180 ∷ 0x0181 ∷ 0x0182 ∷ []

abbrev pub reader_statuses : ℕ → Option ℕ
reader_statuses n = if in_list n reader_status_list then some n else none

-- `bool.from_bytes`
abbrev bool_from_bytes : Bytes → Bool
bool_from_bytes b = not (from_bytes_big b == 0)

module _ (ber : BerTlv) where
  pub read_descriptor : Bytes → Result Descriptor
  read_descriptor b = do
    verify_sequence b exchange_cmd_b5
    d ← from_bytes ber b none
    vendor_id ← get_bytes_from_tlv invalid 0x04 (some 3) none d
    product_id ← get_bytes_from_tlv invalid 0x80 none none d
    firmware_version ← get_bytes_from_tlv invalid 0x81 none none d
    ok (record {
      vendor_id = vendor_id;
      product_id = product_id;
      firmware_version = firmware_version;
    })

  pub mailbox_fields_of : Option Bytes → Result MailboxFields
  mailbox_fields_of none =
      ok (record {
        atomic_session = none;
        read_requests = [];
        write_requests = [];
        set_requests = [];
      })
  mailbox_fields_of (some commands) = do
    verify_sequence commands exchange_cmd_ba
    d ← from_bytes ber commands (some false)
    atomic ← get_bytes_from_tlv invalid 0x8c (some 1) none d
    reads ← get_multiple_optional_bytes_from_tlv invalid 0x87 (some 4) none d
    writes ← get_multiple_optional_bytes_from_tlv invalid 0x8a none none d
    sets ← get_multiple_optional_bytes_from_tlv invalid 0x95 (some 5) none d
    ok (record {
      atomic_session = some (bool_from_bytes atomic);
      read_requests = reads;
      write_requests = writes;
      set_requests = sets;
    })

  abbrev status_of : Option Bytes → Result (Option ℕ)
  status_of none = ok none
  status_of (some b) = do s ← enumerate invalid reader_statuses (from_bytes_big b); ok (some s)

  abbrev descriptor_of : Option Bytes → Result (Option Descriptor)
  descriptor_of none = ok none
  descriptor_of (some b) = do d ← read_descriptor b; ok (some d)

  pub notify_fields_of : Option Bytes → Result NotifyFields
  notify_fields_of none = ok (record { reader_error = none; descriptor = none })
  notify_fields_of (some notify) = do
    verify_sequence notify exchange_cmd_ae
    d ← from_bytes ber notify (some false)
    reader_error ← get_optional_bytes_from_tlv invalid 0x82 (some 2) none d
    descriptor_bytes ← get_optional_bytes_from_tlv invalid 0xb5 none none d
    descriptor ← descriptor_of descriptor_bytes
    ok (record { reader_error = reader_error; descriptor = descriptor })

  pub exchange_fields : Bytes → Result ExchangeFields
  exchange_fields plain = do
    verify_sequence plain exchange_cmd
    d ← from_bytes ber plain (some false)
    commands ← get_optional_bytes_from_tlv invalid 0xba none none d
    mailbox_fields ← mailbox_fields_of commands
    status_bytes ← get_optional_bytes_from_tlv invalid 0x97 (some 2) none d
    reader_status ← status_of status_bytes
    notify ← get_optional_bytes_from_tlv invalid 0xae none (some 250) d
    notify_fields ← notify_fields_of notify
    ursk ← get_optional_bytes_from_tlv invalid 0x98 (some 0) none d
    update_doc ← get_optional_bytes_from_tlv invalid 0x81 none none d
    ok (record {
      mailbox_fields = mailbox_fields;
      reader_status = reader_status;
      notify = notify;
      notify_fields = notify_fields;
      ursk = ursk;
      update_doc = update_doc;
    })
