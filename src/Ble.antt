-- ===== src/Ble.antt =====
-- transport_protocol/ble_message_format.py.
mod Tests
pub mod Attribute
pub mod Message
pub mod Create
pub mod Parse
mod Laws
mod Secure
mod Setup
