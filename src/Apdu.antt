-- ===== src/Apdu.antt =====
-- access_protocol/apdu.py: command and response APDUs, and their chaining.
mod Tests
pub mod Command
pub mod Response
pub mod Chain
pub mod Parse
pub mod Create
