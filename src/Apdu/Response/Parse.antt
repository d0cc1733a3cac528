-- ===== src/Apdu/Response/Parse.antt =====
-- The `parse_as_...` methods of the class `Response` of access_protocol/apdu.py, and `parse_response`
-- of the class `APDU`. The attributes that a method sets are the fields of a record.
use aliro_actuator.Common.{
  ℕ, Error, List, [], ◌∷◌, Option, none, some, Bool, true, false, ◌==◌, ◌%◌, if◌then◌else◌, length,
  drop_last, take_last, Bytes, Result, ok, or_raise, guard, type_error, invalid_response_data_error,
  ◌>>=◌, ◌>>◌,
}
use aliro_actuator.Tlv.{Tlv, BerTlv, from_bytes, to_bytes}
use aliro_actuator.Tlv.Tags.{TlvIndex, select_rsp, select_rsp_b7, auth0_rsp, auth1_rsp}
use aliro_actuator.Tlv.Sequence.{verify_sequence}
use aliro_actuator.Tlv.Fields.{
  get_bytes_from_tlv, get_optional_bytes_from_tlv, get_int_from_tlv, get_tlv_from_tlv,
  get_optional_tlv_from_tlv, data_to_2byte_list, on_tlv_error,
}
use aliro_actuator.Encryption.{AesGcm, EncryptionEngine}
use aliro_actuator.Trust.{same_bytes}
use aliro_actuator.Apdu.Parse.{Cbor, envelope_data, open_data, or_stop}
use aliro_actuator.Apdu.Response.{Response, status_success, check_status, check_empty_data}

-- `self.invalid_data_error` of a response
abbrev invalid : Error
invalid = invalid_response_data_error

abbrev pub expedited_phase_aid : Bytes
expedited_phase_aid = 0xa0 ∷ 0x00 ∷ 0x00 ∷ 0x09 ∷ 0x09 ∷ 0xac ∷ 0xce ∷ 0x55 ∷ 0x01 ∷ []

abbrev pub stepup_phase_aid : Bytes
stepup_phase_aid = 0xa0 ∷ 0x00 ∷ 0x00 ∷ 0x09 ∷ 0x09 ∷ 0xac ∷ 0xce ∷ 0x55 ∷ 0x02 ∷ []

-- The versions are set for the AID of the expedited phase only.
pub record SelectFields : Type 0 where
  pub compl_aid : Bytes
  pub application_type : ℕ
  pub versions : Option (List ℕ)
  pub maximum_command_apdu : Option ℕ
  pub maximum_response_apdu : Option ℕ
  pub proprietary_tlv : Tlv
  pub vendor_specific_extensions : Option Tlv
  pub user_device_descriptor : Option Bytes
  pub user_device_vendor_id : Option Bytes
  pub user_device_product_id : Option Bytes
  pub user_device_firmware_version : Option Bytes

pub record Auth0Response : Type 0 where
  pub credential_epubk : Bytes
  pub cryptogram : Option Bytes
  pub vendor_specific_extensions : Option Tlv

pub record Auth1Response : Type 0 where
  pub key_slot : Option Bytes
  pub credential_public_key : Option Bytes
  pub user_device_signature : Bytes
  pub private_mailbox_data : Option Bytes
  pub signaling_bitmap : Bytes
  pub credential_signed_timestamp : Option Bytes
  pub revocation_signed_timestamp : Option Bytes

pub record ExchangeResponse : Type 0 where
  pub status_code : Bytes
  pub read_data : Bytes

abbrev success : List ℕ
success = status_success ∷ []

abbrev pair_of {ℓ} : {A B : Type ℓ} → Result A → Result B → Result (A × B)
pair_of a b = do x ← a; y ← b; ok (x, y)

module _ (ber : BerTlv) where
  -- `_parse_tlv`
  unfoldable pub parse_tlv : Response → Result Tlv
  parse_tlv r = do b ← or_raise invalid r.payload; on_tlv_error invalid (from_bytes ber b none)

  abbrev versions_of : Bytes → Tlv → Result (Option (List ℕ))
  versions_of aid info =
      if same_bytes aid expedited_phase_aid
      then (do
        b ← get_bytes_from_tlv invalid 0x5c none none info
        guard (length b % 2 == 0) invalid
        ok (some (data_to_2byte_list b)))
      else ok none

  -- the lengths of a command and of a response, both with the tag 0x02
  abbrev lengths_of : Option Tlv → Result (Option ℕ × Option ℕ)
  lengths_of none = ok (none, none)
  lengths_of (some d) = do
    command ← get_int_from_tlv invalid 0x02 2 d 0
    response ← get_int_from_tlv invalid 0x02 2 d 1
    ok (some command, some response)

  abbrev Descriptor : Type 0
  Descriptor = Option Bytes × Option Bytes × Option Bytes × Option Bytes

  abbrev descriptor_of : Option Tlv → Result Descriptor
  descriptor_of none = ok (none, none, none, none)
  descriptor_of (some d) = do
    b ← to_bytes ber d
    verify_sequence b select_rsp_b7
    vendor ← get_bytes_from_tlv invalid 0x04 (some 3) none d
    product ← get_bytes_from_tlv invalid 0x80 none none d
    firmware ← get_bytes_from_tlv invalid 0x81 none none d
    ok (some b, some vendor, some product, some firmware)

  pub parse_as_select : Response → Result SelectFields
  parse_as_select r = do
    check_status success r
    d ← parse_tlv r
    fci ← get_tlv_from_tlv ber invalid 0x6f none none d
    aid ← get_bytes_from_tlv invalid 0x84 (some 9) none fci
    info ← get_tlv_from_tlv ber invalid 0xa5 none none fci
    type' ← get_int_from_tlv invalid 0x80 2 info 0
    versions ← versions_of aid info
    extended ← get_optional_tlv_from_tlv ber invalid 0x7f66 (some 8) none info
    (command, response) ← lengths_of extended
    vendor ← get_optional_tlv_from_tlv ber invalid 0xb3 none (some 127) info
    descriptor_tlv ← get_optional_tlv_from_tlv ber invalid 0xb7 none none d
    (descriptor, vendor_id, product_id, firmware) ← descriptor_of descriptor_tlv
    ok (record {
      compl_aid = aid;
      application_type = type';
      versions = versions;
      maximum_command_apdu = command;
      maximum_response_apdu = response;
      proprietary_tlv = info;
      vendor_specific_extensions = vendor;
      user_device_descriptor = descriptor;
      user_device_vendor_id = vendor_id;
      user_device_product_id = product_id;
      user_device_firmware_version = firmware;
    })

  unfoldable pub parse_as_auth0 : Response → Result Auth0Response
  parse_as_auth0 r = do
    check_status success r
    d ← parse_tlv r
    epubk ← get_bytes_from_tlv invalid 0x86 (some 65) none d
    cryptogram ← get_optional_bytes_from_tlv invalid 0x9d (some 64) none d
    vendor ← get_optional_tlv_from_tlv ber invalid 0xb1 none (some 128) d
    ok (record {
      credential_epubk = epubk;
      cryptogram = cryptogram;
      vendor_specific_extensions = vendor;
    })

  -- exactly one of the two keys
  abbrev one_key : Option Bytes → Option Bytes → Bool
  one_key none (some b) = true
  one_key (some b) none = true
  one_key _ _ = false

  -- the attributes of a decrypted AUTH1 response
  unfoldable pub auth1_payload : Bytes → Result Auth1Response
  auth1_payload plain = do
    verify_sequence plain auth1_rsp
    d ← on_tlv_error invalid (from_bytes ber plain none)
    key_slot ← get_optional_bytes_from_tlv invalid 0x4e (some 8) none d
    public_key ← get_optional_bytes_from_tlv invalid 0x5a (some 65) none d
    guard (one_key key_slot public_key) invalid
    signature ← get_bytes_from_tlv invalid 0x9e (some 64) none d
    mailbox_data ← get_optional_bytes_from_tlv invalid 0x4b none none d
    bitmap ← get_bytes_from_tlv invalid 0x5e (some 2) none d
    credential ← get_optional_bytes_from_tlv invalid 0x91 (some 20) none d
    revocation ← get_optional_bytes_from_tlv invalid 0x92 (some 20) none d
    ok (record {
      key_slot = key_slot;
      credential_public_key = public_key;
      user_device_signature = signature;
      private_mailbox_data = mailbox_data;
      signaling_bitmap = bitmap;
      credential_signed_timestamp = credential;
      revocation_signed_timestamp = revocation;
    })

pub parse_as_get_response : Response → Result (Unit {0})
parse_as_get_response r = check_status success r

-- LOAD CERT and CONTROL FLOW are answered with the status alone.
pub parse_as_load_cert : Response → Result (Unit {0})
parse_as_load_cert r = do check_empty_data r; check_status success r

pub parse_as_control_flow : Response → Result (Unit {0})
parse_as_control_flow r = do check_empty_data r; check_status success r

-- the last four bytes, and what stands before them
unfoldable pub exchange_payload : Bytes → ExchangeResponse
exchange_payload plain = record { status_code = take_last 4 plain; read_data = drop_last 4 plain }

-- The engine that decrypts moves on. Without an engine no attribute is set.
module _ (aes : AesGcm) (ber : BerTlv) where
  pub parse_as_envelope :
      Cbor → Option EncryptionEngine → Response → Option EncryptionEngine × Result (Option Bytes)
  parse_as_envelope cbor e r =
      or_stop aes e
        (do
          check_status success r
          payload ← or_raise invalid r.payload
          envelope_data ber cbor payload)
        (λ b. open_data aes e b (λ plain. ok plain))

  unfoldable pub parse_as_auth1 :
      Option EncryptionEngine → Response → Option EncryptionEngine × Result (Option Auth1Response)
  parse_as_auth1 e r =
      or_stop aes e (do check_status success r; or_raise invalid r.payload)
        (λ b. open_data aes e b (auth1_payload ber))

  pub parse_as_exchange :
      Option EncryptionEngine
      → Response
      → Option EncryptionEngine × Result (Option ExchangeResponse)
  parse_as_exchange e r =
      or_stop aes e (do check_status success r; or_raise invalid r.payload)
        (λ b. open_data aes e b (λ plain. ok (exchange_payload plain)))

-- `TLV.verifySequence(response.data, idx)`; None has no length
abbrev verify_data : Response → TlvIndex → Result (Unit {0})
verify_data r idx = do b ← or_raise type_error r.payload; verify_sequence b idx

-- `parse_response` for the SELECT and for the AUTH0 response, which are checked first
pub parse_select_response : BerTlv → Response → Result SelectFields
parse_select_response ber r = do verify_data r select_rsp; parse_as_select ber r

unfoldable pub parse_auth0_response : BerTlv → Response → Result Auth0Response
parse_auth0_response ber r = do verify_data r auth0_rsp; parse_as_auth0 ber r
