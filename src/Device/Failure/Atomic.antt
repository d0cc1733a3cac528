-- ===== src/Device/Failure/Atomic.antt =====
-- What `single_transaction` of access_protocol/user_device.py does with a command that breaks into an
-- atomic session.
