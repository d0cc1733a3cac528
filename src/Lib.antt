-- ===== src/Lib.antt =====
-- A verification of the Python actuator of the Aliro access protocol: a reader and a user device that
-- exchange command and response APDUs over NFC, sockets or Bluetooth.
--
-- The parts, and the files that model them. Paths are those of the repository, below
-- src/aliro_actuator/.
--
-- - Common and its children: Booleans and tests on native numbers, Python sequences (Common/Lists),
--   `int.to_bytes` and `int.from_bytes` (Common/Ints), and exceptions as values (Common/Errors).
-- - Tlv: the class `TLV` of access_protocol/tlv.py. Tlv/Tags has its tables, Tlv/Sequence the check
--   `verifySequence`, Tlv/Fields the field readers of the class `Message` in
--   transport_protocol/message.py. The package ber_tlv is the record `BerTlv`, a parameter.
-- - Apdu: access_protocol/apdu.py. Apdu/Command and Apdu/Response are the two kinds of APDU and their
--   bytes, Apdu/Chain is the class `APDU` with its state and the cutting of commands and responses
--   into chains, and Apdu/Chain/Receive is the receiving end of a chain. Apdu/Create and Apdu/Parse
--   are the single commands and responses that are created, and the commands that are parsed;
--   Apdu/Response/Parse are the responses that are parsed. The package cbor2 is the record `Cbor`, a
--   parameter. The transport layer is the list of the messages
--   that `get_message` answers.
-- - Encryption: access_protocol/encryption.py. The state of an engine, with its two counters, is the
--   record `EncryptionEngine`; an operation answers the new state and what it returns or raises. The
--   cipher of the package Crypto is the record `AesGcm`, a parameter; `IsAesGcm` states what is
--   documented of it.
-- - Mailbox: access_protocol/mailbox.py, and Mailbox/Session the class `MailboxSession` of
--   access_protocol/user_device.py. The mailbox that Python changes in place is passed on as state.
-- - Ble: transport_protocol/ble_message_format.py. Ble/Attribute and Ble/Message are the two classes
--   and their bytes, Ble/Create and Ble/Parse the messages that are created and parsed. The messages
--   are encrypted with an engine of Encryption, where there is one.
-- - Trust: the keys, access credentials and reader identifiers of trust_framework/, and
--   access_protocol/authentication.py. The packages cryptography and hashlib, and random values, are
--   the record `Crypto`, a parameter.
-- - Device: the class `UserDevice` of access_protocol/user_device.py. Device/Session has the session,
--   its keys and the storage, Device/Send what is sent, Device/Receive `wait_for_message`,
--   Device/Authentication and Device/Exchange the handlers, and Device/Transaction what
--   `single_transaction` does with a command. A method is an `Action`, from the device to the new
--   device and what the method returns or raises. The transport is the list of the messages that
--   `get_message` answers and the list of what was sent; the other packages, certificates and
--   documents are the record `Environment`, a parameter. Device/Frame is about what operations leave
--   alone, and Device/Bounds about the mailbox and its atomic sessions.
-- - Reader: access_protocol/reader.py. The record `Reader` is the state of the class, and a method is
--   an `Action`, as for the user device, with the same `Environment`. Reader/Storage is the cache of
--   Kpersistent. Reader/Session is the session, with its keys in Reader/Session/Keys;
--   Reader/Session/Agreement sets them beside those of the user device, which agree only where the
--   response of AUTH0 has no vendor extension. Reader/Send sends commands
--   and reads their responses, with `handle_chaining_send_command` of access_protocol/apdu.py.
--   Reader/Authentication has the handlers of SELECT and AUTH0 and the search for a cryptogram over
--   the storage, Reader/Authentication/Standard those of LOAD CERT, AUTH1 and ENVELOPE and the two
--   expedited transactions, Reader/Exchange those of EXCHANGE and CONTROL FLOW, which take the
--   failure process as an argument, and Reader/Failure the failure process, which calls them.
--   Reader/Frame is about the storage: what leaves it alone, and what was verified before it changes.
--
-- A public key is its bytes and its x coordinate. Where the source compares two objects of the class
-- `PublicKey`, in the cache of the reader, the object is the record `KeyObject`, with an identity that
-- is given out when the key of an AUTH1 response is made. Sending raises a NoDeviceConnectedError
-- where no device is connected; a connection that breaks while something is sent is not modelled.
--
-- Numbers are natural numbers, and a bytes object is the list of its values. Exceptions are the
-- constructors of `Error`; their texts, the logging and the timeouts are left out. `stuck` is no
-- exception of the program: it stands for a loop that ran out of its fuel. The loops with fuel are
-- the cutting of data (one more than the length of the data, which each round shortens for a
-- positive limit; with the limit 0 the loop of the source does not end either), the loop over a
-- response (the same bound), `verifySequence` (one more than the length of the buffer, in which each
-- round moves on), the search for the lowest bit of a mask (the mask, which each round halves), the
-- loop over the data of an EXCHANGE response (the length of the data, of which each round takes two
-- bytes or more), and the failure process of the reader (2, since the flag that it sets stops every
-- further one).
--
-- Not modelled are the drivers (hw_driver/), the transports, the inner structure of certificates and
-- access documents, the constructors, the setup of a connection, the Bluetooth messages and the
-- ranging of reader.py and user_device.py, and the three Bluetooth messages that carry a TLV, whose
-- parsing is a parameter of Ble/Parse.
pub mod Common
pub mod Tlv
pub mod Apdu
pub mod Encryption
pub mod Mailbox
pub mod Ble
pub mod Trust
pub mod Device
pub mod Reader
