-- ===== src/Device.antt =====
-- The class `UserDevice` of access_protocol/user_device.py: the device with its session, its mailbox
-- and its storage, and computations on it. What was done to the device stays done after an exception.
pub mod Session
pub mod Frame
pub mod Failure
pub mod Bounds
pub mod Tests
pub mod Send
pub mod Authentication
pub mod Exchange
pub mod Receive
pub mod Transaction
use aliro_actuator.Common.{
  ℕ, List, [], ◌∷◌, Option, none, some, Bool, true, false, if◌then◌else◌, bit_or, to_bytes_big,
  Bytes, Result, ok, err, Error, or_raise, session_error, ◌+◌, ◌++◌, ◌^◌, ◌*◌, ◌&&◌,
}
use aliro_actuator.Apdu.Chain.{Apdu, TransportProtocol, ble_uwb, socket_ble}
use aliro_actuator.Apdu.Chain.Receive.{Incoming}
use aliro_actuator.Apdu.Response.{Response}
use aliro_actuator.Apdu.Parse.{Cbor}
use aliro_actuator.Encryption.{AesGcm}
use aliro_actuator.Mailbox.{Mailbox, data_is_set}
use aliro_actuator.Mailbox.Session.{MailboxSession}
use aliro_actuator.Tlv.{BerTlv}
use aliro_actuator.Trust.{KeyPair, Crypto, AccessCredential}
use aliro_actuator.Device.Session.{UserSession, UserStorage, Certificates}
use aliro_actuator.Device.Session as Session

pub data UserMode : Type 0 where
  test user : UserMode

-- `inbox` is what `get_message` answers, one call after the other, and `sent` what `send_message` was
-- given. `ble_versions` is what `get_ble_versions` answers where the transport is a BLEUWB, and
-- `session_key` and `uwb_session_id` what was handed to its driver. `drawn` counts the random values.
pub record UserDevice : Type 0 where
  pub transport : TransportProtocol
  pub apdu : Apdu
  pub access_credentials : List AccessCredential
  pub supported_versions : List ℕ
  pub session : Option UserSession
  pub access_document : Option Bytes
  pub revocation_document : Option Bytes
  pub access_document_updatable : Bool
  pub storage : UserStorage
  pub mailbox : Option Mailbox
  pub mailbox_session : MailboxSession
  pub vendor_extension : Option Bytes
  pub fast_transaction_implemented : Bool
  pub step_up_aid_required : Bool
  pub has_issuer_backend : Bool
  pub has_bound_application : Bool
  pub ephemeral_key_list : List KeyPair
  pub mode : UserMode
  pub support_step_up_notify : Bool
  pub support_step_up_update_doc : Bool
  pub enable_uwb : Bool
  pub inbox : List Incoming
  pub sent : List Response
  pub connected : Bool
  pub timer_started : Bool
  pub ble_versions : Option (ℕ × List ℕ)
  pub session_key : Option Bytes
  pub uwb_session_id : Option Bytes
  pub drawn : ℕ

-- The packages and the documents that the device uses: `get_timestamp` of an access document and of a
-- revocation document, and the CBOR of a device response with the documents.
pub record Environment : Type 0 where
  pub aes : AesGcm
  pub ber : BerTlv
  pub cbor : Cbor
  pub crypto : Crypto
  pub certificates : Certificates
  pub doc_timestamp : Bytes → Result Bytes
  pub revoke_timestamp : Bytes → Result Bytes
  pub dumps_response : List Bytes → Result Bytes

abbrev pub Action : Type 0 → Type 0
Action A = UserDevice → UserDevice × Result A

module _ {A : Type 0} where
  abbrev pub pure : A → Action A
  pure a d = (d, ok a)

  abbrev pub raise : Error → Action A
  raise x d = (d, err x)

  -- what is computed without a change of the device
  abbrev pub lift : Result A → Action A
  lift r d = (d, r)

  abbrev pub gets : (UserDevice → A) → Action A
  gets f d = (d, ok (f d))

infixl 5 ◌>>=◌ ◌>>◌
unfoldable pub ◌>>=◌ : {A B : Type 0} → Action A → (A → Action B) → Action B
(m >>= f) d = let (d', r) = m d in elim r [ ok a ↦ f a d' | err x ↦ raise x d' ]

abbrev pub ◌>>◌ : {A B : Type 0} → Action A → Action B → Action B
m >> k = m >>= λ _. k

abbrev pub modify : (UserDevice → UserDevice) → Action (Unit {0})
modify f d = (f d, ok tt)

-- `if test: ...` on its own
unfoldable pub when : Bool → Action (Unit {0}) → Action (Unit {0})
when true m = m
when false m = pure tt

-- `try: m` with an `except` for the exceptions
unfoldable pub catch : {A : Type 0} → Action A → (Error → Action A) → Action A
catch m handler d = let (d', r) = m d in elim r [ ok a ↦ (d', ok a) | err x ↦ handler x d' ]

-- `if self.session is None: raise SessionError`, and otherwise the session
abbrev pub the_session : Action UserSession
the_session d = (d, or_raise session_error d.session)

abbrev pub set_session : UserSession → Action (Unit {0})
set_session s = modify (λ d. record d { session = some s })

abbrev pub is_ble : TransportProtocol → Bool
is_ble ble_uwb = true
is_ble socket_ble = true
is_ble _ = false

abbrev is_given : Option Bytes → Bool
is_given none = false
is_given (some b) = true

abbrev of_mailbox : (Mailbox → Bool) → Option Mailbox → Bool
of_mailbox f none = false
of_mailbox f (some m) = f m

abbrev bit : ℕ → Bool → ℕ
bit k true = 2 ^ k
bit k false = 0

pub signaling_bits : UserDevice → ℕ
signaling_bits d =
    bit 0 (is_given d.access_document)
    + bit 1 (is_given d.revocation_document)
    + bit 2 d.step_up_aid_required
    + bit 3 (of_mailbox data_is_set d.mailbox)
    + bit 4 (of_mailbox (λ m. m.read_permission) d.mailbox)
    + bit 5 (of_mailbox (λ m. m.write_permission) d.mailbox)
    + bit 6 d.has_issuer_backend
    + bit 7 d.has_bound_application
    + bit 9 (is_given d.access_document && d.access_document_updatable)
    + bit 10 (of_mailbox (λ m. m.step_up_permission) d.mailbox)
    + bit 11 d.support_step_up_notify
    + bit 12 d.support_step_up_update_doc

pub get_signaling_bitmap : UserDevice → Result Bytes
get_signaling_bitmap d = to_bytes_big 2 (signaling_bits d)

-- a generated key pair where there is none
abbrev key_list : KeyPair → List KeyPair → List KeyPair
key_list fresh [] = fresh ∷ []
key_list fresh (key ∷ keys) = key ∷ keys

abbrev one_if_empty : List KeyPair → ℕ
one_if_empty [] = 1
one_if_empty (key ∷ keys) = 0

-- `generate_credential_ephemeral_key`
abbrev pub generate_credential_ephemeral_key : Crypto → UserDevice → UserDevice
generate_credential_ephemeral_key crypto d = record d {
  ephemeral_key_list = key_list (crypto.generate d.drawn) d.ephemeral_key_list;
  drawn = d.drawn + one_if_empty d.ephemeral_key_list;
}

abbrev pub start_new_session : Crypto → UserDevice → UserDevice
start_new_session crypto d =
    generate_credential_ephemeral_key crypto
      (record d { session = some (Session.init d.supported_versions d.vendor_extension) })

-- the first key of the list, and the others; the list is not empty then
abbrev pop_key : KeyPair → List KeyPair → KeyPair × List KeyPair
pop_key default [] = (default, [])
pop_key default (key ∷ keys) = (key, keys)

-- The first key of the list becomes the session's; where the list is empty, one is generated.
unfoldable pub set_credential_ephemeral_key : Crypto → UserSession → Action UserSession
set_credential_ephemeral_key crypto s = do
  modify (generate_credential_ephemeral_key crypto)
  (key, keys) ← gets (λ d. pop_key (crypto.generate d.drawn) d.ephemeral_key_list)
  let s' : UserSession = record s { credential_ephemeral = some key }
  modify (λ d. record d { ephemeral_key_list = keys; session = some s' })
  pure s'

abbrev pub end_session : UserDevice → UserDevice
end_session d = record d { session = none }

-- `transaction_termination`, with `disconnect` of the transport
abbrev pub transaction_termination : UserDevice → UserDevice
transaction_termination d = record d { session = none; connected = false }
