-- ===== src/Reader/Tests/Agreement.antt =====
-- A session of the reader and one of the user device after AUTH0, with the same messages behind them.
use aliro_actuator.Common.{
  List, [], ◌∷◌, none, some, true, false, replicate, Bytes, Result, ok, err,
}
use aliro_actuator.Tlv.{Tlv, nil, element, bytes, BerTlv}
use aliro_actuator.Encryption.Exchange.{Sent}
use aliro_actuator.Apdu.Chain.{nfc}
use aliro_actuator.Apdu.Response.Parse.{SelectFields, expedited_phase_aid}
use aliro_actuator.Trust.{AccessCredential}
use aliro_actuator.Trust as Trust
use aliro_actuator.Device.Tests.{a_key, a_pair, a_crypto, an_environment}
use aliro_actuator.Device.Session.{UserSession}
use aliro_actuator.Device.Session as UserSession
use aliro_actuator.Device.Session.Keys as UserKeys
use aliro_actuator.Reader.Session.{ReaderSession}
use aliro_actuator.Reader.Session.Keys as ReaderKeys
use aliro_actuator.Reader.Session.Agreement.{device_derives}

abbrev transaction : Bytes
transaction = replicate 16 9

abbrev identifier : Bytes
identifier = replicate 32 7

abbrev proprietary : Tlv
proprietary = element 0x80 (bytes (0 ∷ 0 ∷ [])) (element 0x5c (bytes (1 ∷ 0 ∷ [])) nil)

abbrev selected : SelectFields
selected = record {
  compl_aid = expedited_phase_aid;
  application_type = 0;
  versions = some (0x0100 ∷ []);
  maximum_command_apdu = none;
  maximum_response_apdu = none;
  proprietary_tlv = proprietary;
  vendor_specific_extensions = none;
  user_device_descriptor = none;
  user_device_vendor_id = none;
  user_device_product_id = none;
  user_device_firmware_version = none;
}

abbrev pub reader_side : ReaderSession
reader_side = record {
  reader_key = a_pair;
  reader_identifier = identifier;
  command_vendor_extension = none;
  response_vendor_extension = none;
  encryption_expedited = none;
  encryption_stepup = none;
  ble_encryption_engine = none;
  reader_system_issuer_ca = none;
  reader_ephemeral = some a_pair;
  transaction_identifier = some transaction;
  select_info = some selected;
  expedited_phase_supported_protocol_versions = some (0x0100 ∷ []);
  flag = some (1 ∷ 2 ∷ []);
  credential_ephemeral_key = some a_key;
  credential_pubk = none;
  received_cryptogram = none;
  private_mailbox_data = none;
  signaling_bitmap = none;
  credential_signed_timestamp = none;
  revocation_signed_timestamp = none;
  shared_key = none;
  expedited_sk_reader = none;
  expedited_sk_device = none;
  step_up_sk = none;
  ble_sk = none;
  ur_sk = none;
  cryptogram_sk = none;
}

abbrev credential : AccessCredential
credential = record {
  access_credential_key_pair = a_pair;
  reader_id_key_list = (replicate 16 7, a_key) ∷ [];
}

abbrev device_side : UserSession
device_side = record (UserSession.init (0x0100 ∷ []) none) {
  credential_ephemeral = some a_pair;
  reader_epubk = some a_key;
  transaction_identifier = some transaction;
  reader_identifier = some identifier;
  command_parameters = some 1;
  authentication_policy = some 2;
  expedited_phase_protocol_version = some 0x0100;
  access_credential = some credential;
}

abbrev ber : BerTlv
ber = an_environment.ber

abbrev or_same : Result UserSession → UserSession
or_same (ok u) = u
or_same (err x) = device_side

-- the session of the user device behind its derivation
abbrev derived_side : UserSession
derived_side = or_same (device_derives a_crypto ber nfc device_side)

abbrev two_messages : List Sent
two_messages =
    record { from_reader = true; text = 1 ∷ 2 ∷ []; ad = [] }
    ∷ record { from_reader = false; text = 3 ∷ []; ad = [] }
    ∷ []
