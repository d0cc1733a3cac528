-- ===== src/Apdu/Parse.antt =====
-- The `parse_as_...` methods of the class `Command` of access_protocol/apdu.py, and `parse_command` of
-- the class `APDU`. The attributes that a method sets are the fields of a record. The package cbor2 is
-- the record `Cbor`, a parameter.
pub mod Exchange
use aliro_actuator.Common.{
  ℕ, zero, suc, ◌+◌, List, [], ◌∷◌, Option, none, some, Bool, true, false, not, ◌==◌, ◌||◌, ltb,
  leb, if◌then◌else◌, length, drop_last, take_last, from_bytes_big, Bytes, Result, ok, err, Error,
  or_raise, guard, tlv_error, type_error, value_error, invalid_command_data_error,
  invalid_ins_error, ◌>>=◌, ◌>>◌,
}
use aliro_actuator.Tlv.{Tlv, BerTlv, from_bytes, get_all_bytes_of_tag}
use aliro_actuator.Tlv.Tags.{TlvIndex, controlflow_cmd, auth0_cmd, auth1_cmd, exchange_cmd_b5}
use aliro_actuator.Tlv.Sequence.{verify_sequence}
use aliro_actuator.Tlv.Fields.{
  get_bytes_from_tlv, get_optional_bytes_from_tlv, get_int_from_tlv, get_bits_and_enumerate,
  enumerate, on_tlv_error,
}
use aliro_actuator.Encryption.{AesGcm, EncryptionEngine}
use aliro_actuator.Encryption as Enc
use aliro_actuator.Apdu.Command.{
  Command, check_cla, check_ins, check_parameters, check_le, parse_as_select, parse_as_get_response,
  ins_select, ins_get_response,
}
use aliro_actuator.Apdu.Parse.Exchange.{
  ExchangeFields, exchange_fields, Descriptor, read_descriptor, invalid,
}

abbrev pub ins_envelope : ℕ
ins_envelope = 0xc3

abbrev pub ins_auth0 : ℕ
ins_auth0 = 0x80

abbrev pub ins_load_cert : ℕ
ins_load_cert = 0xd1

abbrev pub ins_auth1 : ℕ
ins_auth1 = 0x81

abbrev pub ins_exchange : ℕ
ins_exchange = 0xc9

abbrev pub ins_control_flow : ℕ
ins_control_flow = 0x3c

-- `cbor2.loads(b)["data"]`: none where the bytes are no CBOR, and none inside where there is no such
-- key; and `cbor2.dumps({"data": b})`
pub record Cbor : Type 0 where
  pub loads_data : Bytes → Option (Option Bytes)
  pub dumps_data : Bytes → Bytes

-- the members of `Transaction`, `AuthenticationPolicy`, `Auth1Response`, `S1` and `S2`
abbrev pub transactions : ℕ → Option ℕ
transactions n = if leb n 1 then some n else none

abbrev pub policies : ℕ → Option ℕ
policies n = if n == 0 then none else if leb n 3 then some n else none

abbrev pub auth1_responses : ℕ → Option ℕ
auth1_responses n = if leb n 1 then some n else none

abbrev pub s1_values : ℕ → Option ℕ
s1_values n = if n == 0x00 then some n else none

abbrev pub s2_values : ℕ → Option ℕ
s2_values n = if n == 0x00 then some n else if n == 0x27 then some n else none

pub record Auth0Fields : Type 0 where
  pub command_parameters : ℕ
  pub request_expedited_phase : ℕ
  pub authentication_policy : ℕ
  pub expedited_phase_protocol_version : ℕ
  pub reader_epubk : Bytes
  pub transaction_identifier : Bytes
  pub reader_identifier : Bytes
  pub vendor_specific_extension : Option Bytes

pub record Auth1Fields : Type 0 where
  pub command_parameters : ℕ
  pub expected_response : ℕ
  pub reader_signature : Bytes
  pub certificate_data : Option Bytes

pub record ControlFlowFields : Type 0 where
  pub s1 : ℕ
  pub s2 : ℕ
  pub domain_specific_data : Option Bytes
  pub descriptor : Option Descriptor

module _ (ber : BerTlv) where
  -- `_parse_tlv`
  pub parse_tlv : Option Bool → Command → Result Tlv
  parse_tlv recursive c = do
    d ← or_raise invalid c.payload
    on_tlv_error invalid (from_bytes ber d recursive)

  -- all but the vendor's extension
  pub auth0_fields : Tlv → Result Auth0Fields
  auth0_fields d = do
    parameters ← get_int_from_tlv invalid 0x41 1 d 0
    phase ← get_bits_and_enumerate invalid parameters 0x01 transactions
    policy_int ← get_int_from_tlv invalid 0x42 1 d 0
    policy ← enumerate invalid policies policy_int
    version ← get_int_from_tlv invalid 0x5c 2 d 0
    epubk ← get_bytes_from_tlv invalid 0x87 (some 65) none d
    transaction ← get_bytes_from_tlv invalid 0x4c (some 16) none d
    identifier ← get_bytes_from_tlv invalid 0x4d (some 32) none d
    ok (record {
      command_parameters = parameters;
      request_expedited_phase = phase;
      authentication_policy = policy;
      expedited_phase_protocol_version = version;
      reader_epubk = epubk;
      transaction_identifier = transaction;
      reader_identifier = identifier;
      vendor_specific_extension = none;
    })

  -- The data is parsed a second time, without the inner TLVs, for the vendor's extension; a failure of
  -- this second parse is no InvalidCommandDataError.
  abbrev flat_tlv : Command → Result Tlv
  flat_tlv c = do d ← or_raise invalid c.payload; from_bytes ber d (some false)

  pub parse_as_auth0 : Command → Result Auth0Fields
  parse_as_auth0 c = do
    check_cla false c
    check_ins ins_auth0 c
    check_parameters 0x00 0x00 c
    d ← parse_tlv none c
    fields ← auth0_fields d
    flat ← flat_tlv c
    vendor ← get_optional_bytes_from_tlv invalid 0xb1 none (some 127) flat
    check_le none c
    ok (record fields { vendor_specific_extension = vendor })

  unfoldable pub parse_as_load_cert : Command → Result Bytes
  parse_as_load_cert c = do
    check_cla false c
    check_ins ins_load_cert c
    check_parameters 0x00 0x00 c
    certificate ← or_raise invalid c.payload
    check_le none c
    ok certificate

  pub parse_as_auth1 : Command → Result Auth1Fields
  parse_as_auth1 c = do
    check_cla false c
    check_ins ins_auth1 c
    check_parameters 0x00 0x00 c
    d ← parse_tlv none c
    parameters ← get_int_from_tlv invalid 0x41 1 d 0
    response ← get_bits_and_enumerate invalid parameters 0x01 auth1_responses
    signature ← get_bytes_from_tlv invalid 0x9e (some 64) none d
    certificate ← get_optional_bytes_from_tlv invalid 0x90 none none d
    check_le none c
    ok (record {
      command_parameters = parameters;
      expected_response = response;
      reader_signature = signature;
      certificate_data = certificate;
    })

  abbrev domain_descriptor : Option Bytes → Result (Option Descriptor)
  domain_descriptor none = ok none
  domain_descriptor (some b) = do
    d ← from_bytes ber b (some false)
    descriptor ← get_bytes_from_tlv invalid 0xb5 none none d
    fields ← read_descriptor ber descriptor
    ok (some fields)

  pub parse_as_control_flow : Command → Result ControlFlowFields
  parse_as_control_flow c = do
    check_cla false c
    check_ins ins_control_flow c
    check_parameters 0x00 0x00 c
    d ← parse_tlv (some false) c
    s1_int ← get_int_from_tlv invalid 0x41 1 d 0
    s1 ← enumerate invalid s1_values s1_int
    s2_int ← get_int_from_tlv invalid 0x42 1 d 0
    s2 ← enumerate invalid s2_values s2_int
    domain ← get_optional_bytes_from_tlv invalid 0x63 none none d
    descriptor ← domain_descriptor domain
    check_le (some 0) c
    ok (record { s1 = s1; s2 = s2; domain_specific_data = domain; descriptor = descriptor })

  -- The first value of the tag 0x53. Where there is none, unpacking the empty list is a ValueError,
  -- which the source does not catch.
  abbrev pub first_of : List Bytes → Result Bytes
  first_of [] = err value_error
  first_of (b ∷ bs) = ok b

  abbrev pub envelope_cbor : Cbor → Bytes → Result Bytes
  envelope_cbor cbor b = do found ← or_raise invalid (cbor.loads_data b); or_raise invalid found

  abbrev pub envelope_data : Cbor → Bytes → Result Bytes
  envelope_data cbor payload = do
    values ← on_tlv_error invalid (do d ← from_bytes ber payload none; get_all_bytes_of_tag d 0x53)
    b ← first_of values
    envelope_cbor cbor b

-- what an engine leaves, and what is made of the decrypted payload
abbrev pub after {ℓ} :
    {A : Type ℓ}
    → EncryptionEngine × Result Bytes
    → (Bytes → Result A)
    → Option EncryptionEngine × Result (Option A)
after (e, err x) f = (some e, err x)
after (e, ok plain) f = (some e, (do a ← f plain; ok (some a)))

module _ (aes : AesGcm) where
  -- `data[:-16]` decrypted with the tag `data[-16:]`, where there is an engine
  abbrev pub open_data {ℓ} :
      {A : Type ℓ}
      → Option EncryptionEngine
      → Bytes
      → (Bytes → Result A)
      → Option EncryptionEngine × Result (Option A)
  open_data none b f = (none, ok none)
  open_data (some e) b f = after (Enc.decrypt aes e (drop_last 16 b) (take_last 16 b) []) f

  abbrev pub or_stop {ℓ} :
      {A B : Type ℓ}
      → Option EncryptionEngine
      → Result B
      → (B → Option EncryptionEngine × Result (Option A))
      → Option EncryptionEngine × Result (Option A)
  or_stop e (err x) f = (e, err x)
  or_stop e (ok b) f = f b

  module _ (ber : BerTlv) (cbor : Cbor) where
    -- The engine that decrypts moves on. Without an engine no attribute is set.
    pub parse_as_envelope :
        Option EncryptionEngine → Command → Option EncryptionEngine × Result (Option Bytes)
    parse_as_envelope e c =
        or_stop e
          (do
            check_cla true c
            check_ins ins_envelope c
            check_parameters 0x00 0x00 c
            payload ← or_raise invalid c.payload
            envelope_data ber cbor payload)
          (λ b. open_data e b (λ plain. ok plain))

    pub parse_as_exchange :
        Option EncryptionEngine → Command → Option EncryptionEngine × Result (Option ExchangeFields)
    parse_as_exchange e c =
        or_stop e
          (do
            check_cla false c
            check_ins ins_exchange c
            check_parameters 0x00 0x00 c
            or_raise invalid c.payload)
          (λ b.
            open_data e b
              (λ plain. do fields ← exchange_fields ber plain; check_le none c; ok fields))

-- The instructions that a command can be parsed as, with their attributes; `tlv_check` is kept for
-- AUTH0 alone.
pub data ParsedCommand : Type 0 where
  select : Bytes → ParsedCommand
  envelope : Option Bytes → ParsedCommand
  get_response : ParsedCommand
  auth0 : Bool → Auth0Fields → ParsedCommand
  load_cert : Bytes → ParsedCommand
  auth1 : Auth1Fields → ParsedCommand
  exchange : Option ExchangeFields → ParsedCommand
  control_flow : ControlFlowFields → ParsedCommand

-- `TLV.verifySequence(command.data, idx)`; None has no length
abbrev verify_data : Command → TlvIndex → Result (Unit {0})
verify_data c idx = do d ← or_raise type_error c.payload; verify_sequence d idx

-- `except TlvError: command.tlv_check = False`
abbrev tlv_check : Result (Unit {0}) → Result Bool
tlv_check (ok u) = ok true
tlv_check (err tlv_error) = ok false
tlv_check (err x) = err x

abbrev map_parsed {ℓ} :
    {A : Type ℓ}
    → (A → ParsedCommand)
    → Option EncryptionEngine × Result A
    → Option EncryptionEngine × Result ParsedCommand
map_parsed f (e, ok a) = (e, ok (f a))
map_parsed f (e, err x) = (e, err x)

module _ (aes : AesGcm) (ber : BerTlv) (cbor : Cbor) where
  unfoldable pub parse_command :
      Option EncryptionEngine → Command → Option EncryptionEngine × Result ParsedCommand
  parse_command e c =
      if c.ins == ins_select
      then (e, (do aid ← parse_as_select c; ok (select aid)))
      else if c.ins == ins_envelope
      then map_parsed envelope (parse_as_envelope aes ber cbor e c)
      else if c.ins == ins_get_response
      then (e, (do parse_as_get_response c; ok get_response))
      else if c.ins == ins_auth0
      then (
        e,
        (do
          checked ← tlv_check (verify_data c auth0_cmd)
          fields ← parse_as_auth0 ber c
          ok (auth0 checked fields)),
      )
      else if c.ins == ins_load_cert
      then (e, (do certificate ← parse_as_load_cert ber c; ok (load_cert certificate)))
      else if c.ins == ins_auth1
      then (e, (do verify_data c auth1_cmd; fields ← parse_as_auth1 ber c; ok (auth1 fields)))
      else if c.ins == ins_exchange
      then map_parsed exchange (parse_as_exchange aes ber cbor e c)
      else if c.ins == ins_control_flow
      then (
        e,
        (do
          verify_data c controlflow_cmd
          fields ← parse_as_control_flow ber c
          ok (control_flow fields)),
      )
      else (e, err invalid_ins_error)
