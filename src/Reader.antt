-- ===== src/Reader.antt =====
-- The class `Reader` of access_protocol/reader.py: the reader with its session and its storage, and
-- computations on it. What was done to the reader stays done after an exception.
pub mod Storage
pub mod Session
pub mod Send
pub mod Frame
pub mod Exchange
pub mod Failure
pub mod Authentication
mod Tests
use aliro_actuator.Common.{
  ℕ, List, [], ◌∷◌, Option, none, some, Bool, true, false, Bytes, Result, ok, err, Error, or_raise,
  session_error, ◌+◌,
}
use aliro_actuator.Apdu.Chain.{Apdu, TransportProtocol}
use aliro_actuator.Apdu.Command.{Command}
use aliro_actuator.Apdu.Chain.Receive.{Incoming}
use aliro_actuator.Ble.Message.{BleMessage}
use aliro_actuator.Trust.{PublicKey, KeyObject, KeyPair, Crypto}
use aliro_actuator.Reader.Storage.{ReaderStorage}
use aliro_actuator.Reader.Session.{ReaderSession, set_transaction_identifier}
use aliro_actuator.Reader.Session as Session

pub data ReaderMode : Type 0 where
  test reader : ReaderMode

pub data FastTransactionHandling : Type 0 where
  continue_with_standard abort_transaction : FastTransactionHandling

-- `inbox` is what `get_message` answers, one call after the other, and `sent` the commands and
-- `notified` the BLE messages that `send_message` was given. `reader_cert` is the compressed form of
-- the certificate. `ble_versions` is what `get_ble_versions` answers where the transport is a BLEUWB,
-- and `session_key` what was handed to its driver. The two lists are empty where the source has None.
-- `drawn` counts the random values, and `created` is the identity of the next object of the class
-- `PublicKey` that is kept.
pub record Reader : Type 0 where
  pub transport : TransportProtocol
  pub apdu : Apdu
  pub reader_key : KeyPair
  pub reader_cert : Option Bytes
  pub reader_system_issuer_ca : Option PublicKey
  pub reader_identifier : Bytes
  pub vendor_extension : Option Bytes
  pub fast_transaction_implemented : Bool
  pub session : Option ReaderSession
  pub storage : ReaderStorage
  pub transaction_identifier_list : List Bytes
  pub ephemeral_key_list : List KeyPair
  pub key_slot_list : List (Bytes × KeyObject)
  pub fast_transaction_handling : FastTransactionHandling
  pub failure_process_started : Bool
  pub mode : ReaderMode
  pub inbox : List Incoming
  pub sent : List Command
  pub notified : List BleMessage
  pub connected : Bool
  pub timer_started : Bool
  pub ble_versions : Option (ℕ × List ℕ)
  pub session_key : Option Bytes
  pub drawn : ℕ
  pub created : ℕ

abbrev pub Action : Type 0 → Type 0
Action A = Reader → Reader × Result A

module _ {A : Type 0} where
  abbrev pub pure : A → Action A
  pure a d = (d, ok a)

  abbrev pub raise : Error → Action A
  raise x d = (d, err x)

  -- what is computed without a change of the reader
  abbrev pub lift : Result A → Action A
  lift r d = (d, r)

  abbrev pub gets : (Reader → A) → Action A
  gets f d = (d, ok (f d))

infixl 5 ◌>>=◌ ◌>>◌
unfoldable pub ◌>>=◌ : {A B : Type 0} → Action A → (A → Action B) → Action B
(m >>= f) d = let (d', r) = m d in elim r [ ok a ↦ f a d' | err x ↦ raise x d' ]

abbrev pub ◌>>◌ : {A B : Type 0} → Action A → Action B → Action B
m >> k = m >>= λ _. k

abbrev pub modify : (Reader → Reader) → Action (Unit {0})
modify f d = (f d, ok tt)

-- `if test: ...` on its own
unfoldable pub when : Bool → Action (Unit {0}) → Action (Unit {0})
when true m = m
when false m = pure tt

-- `try: m` with an `except` for the exceptions
unfoldable pub catch : {A : Type 0} → Action A → (Error → Action A) → Action A
catch m handler d = let (d', r) = m d in elim r [ ok a ↦ (d', ok a) | err x ↦ handler x d' ]

-- `if self.session is None: raise SessionError`, and otherwise the session
abbrev pub the_session : Action ReaderSession
the_session d = (d, or_raise session_error d.session)

abbrev pub set_session : ReaderSession → Action (Unit {0})
set_session s = modify (λ d. record d { session = some s })

-- a generated key pair where there is none
abbrev key_list : KeyPair → List KeyPair → List KeyPair
key_list fresh [] = fresh ∷ []
key_list fresh (key ∷ keys) = key ∷ keys

abbrev one_if_empty : {A : Type 0} → List A → ℕ
one_if_empty [] = 1
one_if_empty (x ∷ xs) = 0

-- the first value, or a random one, and the values left
abbrev pop_or {ℓ} : {A : Type ℓ} → A → List A → A × List A
pop_or fresh [] = (fresh, [])
pop_or fresh (x ∷ xs) = (x, xs)

module _ (crypto : Crypto) where
  unfoldable pub generate_reader_ephemeral_key : Reader → Reader
  generate_reader_ephemeral_key d = record d {
    ephemeral_key_list = key_list (crypto.generate d.drawn) d.ephemeral_key_list;
    drawn = d.drawn + one_if_empty d.ephemeral_key_list;
  }

  unfoldable pub start_new_session : Action (Unit {0})
  start_new_session = do
    started ← λ d. (
      d,
      Session.init d.reader_key d.reader_identifier d.vendor_extension d.reader_system_issuer_ca,
    )
    set_session started
    (identifier, rest) ←
        gets (λ d. pop_or (crypto.urandom d.drawn 16) d.transaction_identifier_list)
    modify (λ d. record d {
      transaction_identifier_list = rest;
      drawn = d.drawn + one_if_empty d.transaction_identifier_list;
    })
    s ← lift (set_transaction_identifier identifier started)
    set_session s
    modify generate_reader_ephemeral_key
    modify (λ d. record d { failure_process_started = false })

  -- The first key of the list becomes the session's; where the list is empty, one is generated.
  unfoldable pub set_reader_ephemeral_key : ReaderSession → Action ReaderSession
  set_reader_ephemeral_key s = do
    modify generate_reader_ephemeral_key
    (key, keys) ← gets (λ d. pop_or (crypto.generate d.drawn) d.ephemeral_key_list)
    let s' : ReaderSession = record s { reader_ephemeral = some key }
    modify (λ d. record d { ephemeral_key_list = keys; session = some s' })
    pure s'

unfoldable pub end_session : Reader → Reader
end_session d = record d { session = none }

-- `transaction_termination`, with `disconnect` of the transport
unfoldable pub transaction_termination : Reader → Reader
transaction_termination d = record d { session = none; connected = false }
