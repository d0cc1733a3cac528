-- ===== src/Device/Session.antt =====
-- The classes `UserSessionState`, `UserSession` and `UserStorage` of access_protocol/user_device.py.
-- An attribute that a session only gets later is `none` before, and reading it then is an
-- AttributeError. The certificates of trust_framework/certificate.py are the record `Certificates`.
pub mod Keys
use aliro_actuator.Common.{
  ℕ, List, [], ◌∷◌, Option, none, some, Bool, true, false, not, ◌==◌, ◌||◌, if◌then◌else◌, Bytes,
  Result, ok, err, or_raise, guard, attribute_error, index_error, access_protocol_error,
  key_lookup_failed, key_error, ◌>>=◌, ◌>>◌,
}
use aliro_actuator.Tlv.{Tlv}
use aliro_actuator.Encryption.{EncryptionEngine}
use aliro_actuator.Apdu.Parse.{Auth0Fields}
use aliro_actuator.Trust.{
  PublicKey, KeyPair, Crypto, AccessCredential, same_bytes, reader_identifier_of, get_group,
  get_group_sub, has_identifier, public_key_of,
}
use aliro_actuator.Trust as Trust

pub data UserSessionState : Type 0 where
  session_start select_done auth0_std_done auth0_fast_done auth1_done : UserSessionState
  exchange_done select_step_up_done envelope_done stepup_exchange_done : UserSessionState
  transaction_complete ble_reader_status_ap_completed : UserSessionState

-- the values of the members
unfoldable pub state_value : UserSessionState → ℕ
state_value session_start = 1
state_value select_done = 2
state_value auth0_std_done = 3
state_value auth0_fast_done = 4
state_value auth1_done = 5
state_value exchange_done = 6
state_value select_step_up_done = 7
state_value envelope_done = 8
state_value stepup_exchange_done = 9
state_value transaction_complete = 10
state_value ble_reader_status_ap_completed = 11

-- `Certificate.decode_compressed`, which raises a CertificateDecodingError where there is none,
-- `verify` and `get_public_key`, on the decoded certificate
pub record Certificates : Type 0 where
  pub decode_compressed : Bytes → Option Bytes
  pub verify : Bytes → PublicKey → Bool
  pub get_public_key : Bytes → PublicKey

pub record UserSession : Type 0 where
  pub state : UserSessionState
  pub supported_versions : List ℕ
  pub encryption_expedited : Option EncryptionEngine
  pub encryption_stepup : Option EncryptionEngine
  pub command_vendor_extension : Option Bytes
  pub response_vendor_extension : Option Bytes
  pub ursk_available : Bool
  pub ble_encryption_engine : Option EncryptionEngine
  pub credential_ephemeral : Option KeyPair
  pub maximum_command_apdu : Option ℕ
  pub maximum_response_apdu : Option ℕ
  pub select_vendor_tlv : Option Tlv
  pub command_parameters : Option ℕ
  pub authentication_policy : Option ℕ
  pub expedited_phase_protocol_version : Option ℕ
  pub reader_epubk : Option PublicKey
  pub transaction_identifier : Option Bytes
  pub reader_identifier : Option Bytes
  pub access_credential : Option AccessCredential
  pub shared_key : Option Bytes
  pub expedited_sk_reader : Option Bytes
  pub expedited_sk_device : Option Bytes
  pub step_up_sk : Option Bytes
  pub ble_sk : Option Bytes
  pub ur_sk : Option Bytes
  pub cryptogram_sk : Option Bytes
  pub cert_decoded : Option Bool
  pub cert_verified : Option Bool
  pub cert : Option Bytes

-- `UserSession(supported_version, vendor_extension)`
unfoldable pub init : List ℕ → Option Bytes → UserSession
init supported_version vendor_extension = record {
  state = session_start;
  supported_versions = supported_version;
  encryption_expedited = none;
  encryption_stepup = none;
  command_vendor_extension = none;
  response_vendor_extension = vendor_extension;
  ursk_available = false;
  ble_encryption_engine = none;
  credential_ephemeral = none;
  maximum_command_apdu = none;
  maximum_response_apdu = none;
  select_vendor_tlv = none;
  command_parameters = none;
  authentication_policy = none;
  expedited_phase_protocol_version = none;
  reader_epubk = none;
  transaction_identifier = none;
  reader_identifier = none;
  access_credential = none;
  shared_key = none;
  expedited_sk_reader = none;
  expedited_sk_device = none;
  step_up_sk = none;
  ble_sk = none;
  ur_sk = none;
  cryptogram_sk = none;
  cert_decoded = none;
  cert_verified = none;
  cert = none;
}

-- an attribute that has to be there
abbrev pub attribute : {A : Type 0} → Option A → Result A
attribute a = or_raise attribute_error a

abbrev pub update_state : UserSessionState → UserSession → UserSession
update_state state s = record s { state = state }

abbrev same_state : UserSessionState → UserSessionState → Bool
same_state a b = state_value a == state_value b

unfoldable pub state_in : UserSessionState → List UserSessionState → Bool
state_in a [] = false
state_in a (b ∷ bs) = same_state a b || state_in a bs

unfoldable pub state_valid : List UserSessionState → UserSession → Bool
state_valid states s = state_in s.state states

abbrev pub set_select_proprietary_data :
    Option ℕ → Option ℕ → Option Tlv → UserSession → UserSession
set_select_proprietary_data command_apdu response_apdu vendor s = record s {
  maximum_command_apdu = command_apdu;
  maximum_response_apdu = response_apdu;
  select_vendor_tlv = vendor;
}

-- The attributes are set one after the other, up to the one whose value is refused.
pub set_auth0_data : Crypto → Auth0Fields → UserSession → UserSession × Result (Unit {0})
set_auth0_data crypto fields s =
    let first : UserSession = record s {
      command_parameters = some fields.command_parameters;
      authentication_policy = some fields.authentication_policy;
      expedited_phase_protocol_version = some fields.expedited_phase_protocol_version;
    } in
    elim (public_key_of crypto fields.reader_epubk) [
      | err x ↦ (first, err x)
      | ok key ↦
          let second : UserSession = record first {
            reader_epubk = some key;
            transaction_identifier = some fields.transaction_identifier;
          } in
          elim (reader_identifier_of fields.reader_identifier) [
            | err x ↦ (second, err x)
            | ok identifier ↦ (
              record second {
                reader_identifier = some identifier;
                command_vendor_extension = fields.vendor_specific_extension;
              },
              ok tt,
            )
          ]
    ]

abbrev pub set_access_credential : AccessCredential → UserSession → UserSession
set_access_credential c s = record s { access_credential = some c }

unfoldable pub reader_group_identifier : UserSession → Result Bytes
reader_group_identifier s = do i ← attribute s.reader_identifier; ok (get_group i)

pub reader_group_sub_identifier : UserSession → Result Bytes
reader_group_sub_identifier s = do i ← attribute s.reader_identifier; ok (get_group_sub i)

pub get_credential_epubkey : UserSession → Result PublicKey
get_credential_epubkey s = do pair ← attribute s.credential_ephemeral; ok pair.public_key

-- `Transaction.FAST` is 1 and `Transaction.STANDARD` is 0; true stands for a fast one.
pub get_transaction_type : UserSession → Result Bool
get_transaction_type s = do
  parameters ← attribute s.command_parameters
  if parameters == 1 then ok true else if parameters == 0 then ok false else err index_error

pub set_cert_and_verify : Certificates → Bytes → PublicKey → UserSession → UserSession
set_cert_and_verify certificates compressed key s =
    elim (certificates.decode_compressed compressed) [
      | none ↦ record s { cert_decoded = some false }
      | some cert ↦
          if certificates.verify cert key
          then record s { cert_decoded = some true; cert = some cert; cert_verified = some true }
          else record s { cert_decoded = some true; cert_verified = some false }
    ]

-- `hasattr(self, name) and not self.name`
abbrev pub is_false : Option Bool → Bool
is_false (some false) = true
is_false _ = false

-- the key of the access credential for the group of the reader
abbrev credential_key : AccessCredential → Bytes → Result PublicKey
credential_key c group =
    if has_identifier c group then Trust.get_reader_public_key c group else err key_lookup_failed

abbrev key_of_credential : UserSession → Option AccessCredential → Result PublicKey
key_of_credential s none = err key_lookup_failed
key_of_credential s (some c) = do group ← reader_group_identifier s; credential_key c group

pub get_reader_public_key : Certificates → UserSession → Result PublicKey
get_reader_public_key certificates s =
    if is_false s.cert_decoded
    then err key_lookup_failed
    else if is_false s.cert_verified
    then err key_lookup_failed
    else elim s.cert [
      | some cert ↦ ok (certificates.get_public_key cert)
      | none ↦ key_of_credential s s.access_credential
    ]

unfoldable pub get_reader_group_identifier_key : UserSession → Result PublicKey
get_reader_group_identifier_key s = key_of_credential s s.access_credential

pub set_ursk : UserSession → Result UserSession
set_ursk s =
    if s.ursk_available then err access_protocol_error else ok (record s { ursk_available = true })

-- `UserStorage`: the map from the sub identifiers of readers to Kpersistent
abbrev pub UserStorage : Type 0
UserStorage = List (Bytes × Bytes)

pub find_kpersistent : UserStorage → Bytes → Option Bytes
find_kpersistent [] sub_id = none
find_kpersistent ((i, k) ∷ rest) sub_id =
    if same_bytes i sub_id then some k else find_kpersistent rest sub_id

pub add_kpersistent : Bytes → Bytes → UserStorage → UserStorage
add_kpersistent kpersistent sub_id [] = (sub_id, kpersistent) ∷ []
add_kpersistent kpersistent sub_id ((i, k) ∷ rest) =
    let rest' = add_kpersistent kpersistent sub_id rest in
    if same_bytes i sub_id then (i, kpersistent) ∷ rest else (i, k) ∷ rest'

-- `dict.pop`, which raises a KeyError where there is no such key
pub remove_kpersistent : Bytes → UserStorage → Result UserStorage
remove_kpersistent sub_id [] = err key_error
remove_kpersistent sub_id ((i, k) ∷ rest) =
    let rest' = remove_kpersistent sub_id rest in
    if same_bytes i sub_id then ok rest else rest' >>= λ shorter. ok ((i, k) ∷ shorter)
