-- ===== src/Apdu/Create.antt =====
-- The `create_..._command` and `create_..._response` methods of the class `APDU` of
-- access_protocol/apdu.py. An enumeration is given by its value. A response also leaves the new state
-- of the APDU object, and what is encrypted the new state of the engine.
pub mod RoundTrip
mod Tests
use aliro_actuator.Common.{
  ℕ, List, [], ◌∷◌, ◌++◌, Option, none, some, Bool, true, false, not, ◌==◌, ltb, if◌then◌else◌,
  length, replicate, to_bytes_big, Bytes, Result, ok, err, or_raise, guard, value_error, type_error,
  create_command_error, encryption_missing_error, message_too_long_error, index_error, ◌>>=◌, ◌>>◌,
}
use aliro_actuator.Tlv.{Tlv, nil, element, bytes, tlv, add_value, BerTlv, to_bytes}
use aliro_actuator.Encryption.{AesGcm, EncryptionEngine, create_proprietary_information}
use aliro_actuator.Encryption as Enc
use aliro_actuator.Apdu.Command.{Command, ins_select}
use aliro_actuator.Apdu.Response.{Response}
use aliro_actuator.Apdu.Chain.{Apdu, create_command, create_response}
use aliro_actuator.Apdu.Parse.{
  Cbor, ins_envelope, ins_auth0, ins_load_cert, ins_auth1, ins_exchange, ins_control_flow,
}

-- `if value is not None: data_tlv.append((tag, value))`
pub add_optional : ℕ → Option Bytes → Tlv → Tlv
add_optional tag none d = d
add_optional tag (some b) d = add_value tag (bytes b) d

-- the expected size of a response
abbrev pub expected_size : Apdu → ℕ
expected_size a = if a.support_extended_length_apdu then a.maximum_response_apdu else 0x00

pub create_select_command : Apdu → Bytes → Result (List Command)
create_select_command a aid = do
  guard (not (ltb 0x10 (length aid))) value_error
  create_command a 0x00 ins_select 0x04 0x00 aid (some 0) none

unfoldable pub create_load_cert_command : Apdu → Bytes → Result (List Command)
create_load_cert_command a certificate =
    create_command a 0x80 ins_load_cert 0x00 0x00 certificate (some 0x00) none

-- the data of an AUTH0 command; the three numbers are written with one, one and two bytes
unfoldable pub auth0_tlv :
    ℕ → ℕ → ℕ → Bytes → Bytes → Bytes → Option Bytes → Option Bytes → Result Tlv
auth0_tlv transaction policy version epubk transaction_id identifier vendor extra = do
  transaction_bytes ← to_bytes_big 1 transaction
  policy_bytes ← to_bytes_big 1 policy
  version_bytes ← to_bytes_big 2 version
  ok (
      add_optional 0xcf extra (
        add_optional 0xb1 vendor (
          element 0x41 (bytes transaction_bytes) (
            element 0x42 (bytes policy_bytes) (
              element 0x5c (bytes version_bytes) (
                element 0x87 (bytes epubk)
                  (element 0x4c (bytes transaction_id) (element 0x4d (bytes identifier) nil))))))))

unfoldable pub auth1_tlv : ℕ → Bytes → Option Bytes → Result Tlv
auth1_tlv response signature certificate = do
  parameters ← to_bytes_big 1 response
  ok (
      add_optional 0x90 certificate
        (element 0x41 (bytes parameters) (element 0x9e (bytes signature) nil)))

pub control_flow_tlv : ℕ → ℕ → Option Bytes → Result Tlv
control_flow_tlv s1 s2 domain = do
  s1_bytes ← to_bytes_big 1 s1
  s2_bytes ← to_bytes_big 1 s2
  ok (add_optional 0x63 domain (element 0x41 (bytes s1_bytes) (element 0x42 (bytes s2_bytes) nil)))

abbrev status_bytes : Option ℕ → Result (Option Bytes)
status_bytes none = ok none
status_bytes (some s) = do b ← to_bytes_big 2 s; ok (some b)

abbrev empty_if : Bool → Option Bytes
empty_if true = some []
empty_if false = none

pub exchange_tlv : Option Bytes → Option Bytes → Option ℕ → Bool → Option Bytes → Result Tlv
exchange_tlv mailbox_commands notify reader_status ursk update_doc = do
  reader_status_bytes ← status_bytes reader_status
  ok (
      add_optional 0x81 update_doc (
        add_optional 0x98 (empty_if ursk) (
          add_optional 0x97 reader_status_bytes
            (add_optional 0xae notify (add_optional 0xba mailbox_commands nil)))))

abbrev too_long : Option Bytes → ℕ → Bool
too_long none most = false
too_long (some b) most = ltb most (length b)

-- `bytes.__len__` of an optional value that must have the length `n`, under `check_validity`
abbrev check_field : Bool → Option Bytes → ℕ → Result (Unit {0})
check_field false b n = ok tt
check_field true none n = err create_command_error
check_field true (some b) n = guard (length b == n) create_command_error

abbrev check_optional : Bool → Option Bytes → ℕ → Result (Unit {0})
check_optional valid none n = ok tt
check_optional valid (some b) n = check_field valid (some b) n

-- the first field, a key slot or a public key; a value of None, which only goes through without the
-- checks, is refused by the encoder
pub auth1_first : Bool → ℕ → Option Bytes → Option Bytes → Result Tlv
auth1_first valid response key_slot public_key =
    if response == 0x00
    then (do
      check_field valid key_slot 8
      b ← or_raise type_error key_slot
      ok (element 0x4e (bytes b) nil))
    else if response == 0x01
    then (do
      check_field valid public_key 65
      b ← or_raise type_error public_key
      ok (element 0x5a (bytes b) nil))
    else ok nil

abbrev or_zero_bitmap : Option Bytes → Bytes
or_zero_bitmap none = replicate 2 0x00
or_zero_bitmap (some b) = b

pub auth1_response_tlv :
    Bool
    → ℕ
    → Option Bytes
    → Option Bytes
    → Bytes
    → Option Bytes
    → Option Bytes
    → Option Bytes
    → Option Bytes
    → Option Bytes
    → Result Tlv
auth1_response_tlv valid response key_slot public_key signature mailbox_data bitmap credential
      revocation extra =
    do
      first ← auth1_first valid response key_slot public_key
      check_field valid (some signature) 64
      check_field valid (some (or_zero_bitmap bitmap)) 2
      check_optional valid credential 20
      check_optional valid revocation 20
      ok (
          add_optional 0xcf extra (
            add_optional 0x92 revocation (
              add_optional 0x91 credential (
                add_value 0x5e (bytes (or_zero_bitmap bitmap))
                  (add_optional 0x4b mailbox_data (add_value 0x9e (bytes signature) first))))))

-- what an engine leaves, and what is made of the ciphertext with its tag
abbrev sealed {ℓ} :
    {A : Type ℓ}
    → EncryptionEngine × Result (Bytes × Bytes)
    → (Bytes → Result A)
    → EncryptionEngine × Result A
sealed (e, err x) f = (e, err x)
sealed (e, ok (b, tag)) f = (e, f (b ++ tag))

module _ (ber : BerTlv) where
  pub create_select_response :
      Apdu
      → Bytes
      → ℕ
      → List ℕ
      → Option ℕ
      → Option ℕ
      → Option Tlv
      → ℕ
      → Result (Apdu × List Response)
  create_select_response a aid type versions max_command max_response vendor status = do
    info ← create_proprietary_information type versions max_command max_response vendor
    info_bytes ← to_bytes ber info
    payload ←
        to_bytes ber
          (element 0x6f (tlv (element 0x84 (bytes aid) (element 0xa5 (bytes info_bytes) nil))) nil)
    create_response a (some payload) status

  unfoldable pub create_auth0_command :
      Apdu → ℕ → ℕ → ℕ → Bytes → Bytes → Bytes → Option Bytes → Option Bytes → Result (List Command)
  create_auth0_command a transaction policy version epubk transaction_id identifier vendor extra =
      do
        d ← auth0_tlv transaction policy version epubk transaction_id identifier vendor extra
        payload ← to_bytes ber d
        create_command a 0x80 ins_auth0 0x00 0x00 payload (some (expected_size a)) none

  pub create_auth0_response : Apdu → Bytes → ℕ → Option Bytes → Result (Apdu × List Response)
  create_auth0_response a epubk status cryptogram = do
    payload ← to_bytes ber (add_optional 0x9d cryptogram (element 0x86 (bytes epubk) nil))
    create_response a (some payload) status

  unfoldable pub create_auth1_command : Apdu → ℕ → Bytes → Option Bytes → Result (List Command)
  create_auth1_command a response signature certificate = do
    guard (length signature == 64) value_error
    d ← auth1_tlv response signature certificate
    payload ← to_bytes ber d
    create_command a 0x80 ins_auth1 0x00 0x00 payload (some (expected_size a)) none

  pub create_control_flow_command : Apdu → ℕ → ℕ → Option Bytes → Result (List Command)
  create_control_flow_command a s1 s2 domain = do
    guard (not (too_long domain 250)) value_error
    d ← control_flow_tlv s1 s2 domain
    payload ← to_bytes ber d
    create_command a 0x80 ins_control_flow 0x00 0x00 payload none none

-- LOAD CERT and CONTROL FLOW are answered with the status alone.
pub create_load_cert_response : Apdu → ℕ → Result (Apdu × List Response)
create_load_cert_response a status = create_response a none status

pub create_control_flow_response : Apdu → ℕ → Result (Apdu × List Response)
create_control_flow_response a status = create_response a none status

-- `response_list[0]`
unfoldable pub create_error_response : Apdu → ℕ → Result (Apdu × Response)
create_error_response a status = do
  (a', rs) ← create_response a none status
  guard (not (ltb 1 (length rs))) message_too_long_error
  elim rs [ [] ↦ err index_error | r ∷ rest ↦ ok (a', r) ]

module _ (aes : AesGcm) where
  -- the encrypted payload of a response
  pub create_exchange_response :
      Apdu → Bytes → EncryptionEngine → ℕ → EncryptionEngine × Result (Apdu × List Response)
  create_exchange_response a payload e status =
      sealed (Enc.encrypt aes e payload []) (λ b. create_response a (some b) status)

  abbrev to_seal {ℓ} :
      {A : Type ℓ}
      → EncryptionEngine
      → Result Bytes
      → (Bytes → Result A)
      → EncryptionEngine × Result A
  to_seal e (err x) f = (e, err x)
  to_seal e (ok b) f = sealed (Enc.encrypt aes e b []) f

  module _ (ber : BerTlv) where
    pub create_auth1_response :
        Apdu
        → Bool
        → ℕ
        → Option Bytes
        → Option Bytes
        → Bytes
        → Option Bytes
        → Option Bytes
        → Option Bytes
        → Option Bytes
        → Option Bytes
        → EncryptionEngine
        → ℕ
        → EncryptionEngine × Result (Apdu × List Response)
    create_auth1_response a valid response key_slot public_key signature mailbox_data bitmap
          credential revocation extra e status =
        to_seal e
          (do
            d ←
                auth1_response_tlv valid response key_slot public_key signature mailbox_data bitmap
                  credential revocation extra
            to_bytes ber d)
          (λ b. create_response a (some b) status)

    abbrev with_engine {ℓ} :
        {A : Type ℓ}
        → Option EncryptionEngine
        → (EncryptionEngine → EncryptionEngine × Result A)
        → Option EncryptionEngine × Result A
    with_engine none f = (none, err encryption_missing_error)
    with_engine (some e) f = let (e', r) = f e in (some e', r)

    pub create_exchange_command :
        Apdu
        → Option Bytes
        → Option Bytes
        → Option ℕ
        → Bool
        → Option Bytes
        → Option EncryptionEngine
        → Option EncryptionEngine × Result (List Command)
    create_exchange_command a mailbox_commands notify reader_status ursk update_doc engine =
        with_engine engine (λ e.
          to_seal e
            (do
              d ← exchange_tlv mailbox_commands notify reader_status ursk update_doc
              to_bytes ber d)
            (λ b. create_command a 0x80 ins_exchange 0x00 0x00 b (some (expected_size a)) none))

    pub create_envelope_command :
        Cbor → Apdu → Bytes → EncryptionEngine → EncryptionEngine × Result (List Command)
    create_envelope_command cbor a payload e = sealed (Enc.encrypt aes e payload []) (λ b. do
      d ← to_bytes ber (add_value 0x53 (bytes (cbor.dumps_data b)) nil)
      create_command a 0x00 ins_envelope 0x00 0x00 d (some (expected_size a)) none)

    pub create_envelope_response :
        Cbor
        → Apdu
        → Bytes
        → EncryptionEngine
        → ℕ
        → EncryptionEngine × Result (Apdu × List Response)
    create_envelope_response cbor a payload e status = sealed (Enc.encrypt aes e payload []) (λ b.
        do
          d ← to_bytes ber (add_value 0x53 (bytes (cbor.dumps_data b)) nil)
          create_response a (some d) status)
