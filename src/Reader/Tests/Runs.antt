-- ===== src/Reader/Tests/Runs.antt =====
-- The two transactions of the reader with the answers of a user device, to their ends.
use aliro_actuator.Common.{◌≡◌, refl, length, ok, false}
use aliro_actuator.Reader.Authentication.Standard.{
  expedited_transaction_standard, expedited_transaction_fast,
}
use aliro_actuator.Reader.Tests.Answers.{answered}
use aliro_actuator.Reader.Tests.Transactions.{answered_standard, answered_fast}

-- AUTH1 was accepted; there is now a second entry for the same key.
standard_run :
    let r = expedited_transaction_standard answered 1 false answered_standard in
    (r.1 ≡ ok tt) × (length r.0.storage ≡ 2)
unfolding aliro_actuator.Reader.Authentication.Standard.expedited_transaction_standard
    aliro_actuator.Reader.◌>>=◌ aliro_actuator.Reader.Authentication.handle_auth0
    aliro_actuator.Reader.set_reader_ephemeral_key aliro_actuator.Reader.when
    aliro_actuator.Reader.Exchange.with_failure aliro_actuator.Reader.catch
    aliro_actuator.Reader.Session.get_reader_epubkey aliro_actuator.Reader.Send.command_auth0
    aliro_actuator.Apdu.Create.create_auth0_command aliro_actuator.Apdu.Create.auth0_tlv
    aliro_actuator.Tlv.to_bytes aliro_actuator.Apdu.Chain.create_command
    aliro_actuator.Reader.generate_reader_ephemeral_key aliro_actuator.Apdu.Chain.init
    aliro_actuator.Apdu.Chain.split_data aliro_actuator.Apdu.Chain.split_standard
    aliro_actuator.Apdu.Chain.split aliro_actuator.Apdu.Chain.create_commands
    aliro_actuator.Apdu.Command.create_from_parameters aliro_actuator.Apdu.Command.data_field
    aliro_actuator.Reader.Send.handle_chaining_send_command aliro_actuator.Reader.Send.send_chain
    aliro_actuator.Reader.Send.fetch_rest aliro_actuator.Apdu.Chain.Receive.is_busy
    aliro_actuator.Trust.Authentication.create_user_device_authentication
    aliro_actuator.Trust.verify aliro_actuator.Reader.Authentication.Standard.keep_auth1
    aliro_actuator.Reader.Authentication.Standard.store_kpersistent
    aliro_actuator.Reader.Session.Keys.derive_key_persistent
    aliro_actuator.Apdu.Chain.Receive.check_ble_message_type_for_response
    aliro_actuator.Apdu.Response.create_from_bytestring
    aliro_actuator.Apdu.Response.check_chaining_response aliro_actuator.Apdu.Response.sw1_of
    aliro_actuator.Apdu.Response.set_sw2 aliro_actuator.Apdu.Response.set_sw1
    aliro_actuator.Apdu.Response.Parse.parse_auth0_response
    aliro_actuator.Tlv.Sequence.verify_sequence aliro_actuator.Tlv.Sequence.verify_loop
    aliro_actuator.Tlv.Sequence.round aliro_actuator.Tlv.Sequence.read_tag
    aliro_actuator.Tlv.Sequence.take_value aliro_actuator.Tlv.Sequence.contains
    aliro_actuator.Tlv.Sequence.accept_sub_tag aliro_actuator.Tlv.Sequence.known_tag
    aliro_actuator.Tlv.Sequence.index_of aliro_actuator.Tlv.Sequence.read_length
    aliro_actuator.Tlv.Sequence.check_tags aliro_actuator.Tlv.Sequence.in_order
    aliro_actuator.Apdu.Response.Parse.parse_as_auth0 aliro_actuator.Apdu.Response.check_status
    aliro_actuator.Apdu.Response.contains_status aliro_actuator.Apdu.Response.Parse.parse_tlv
    aliro_actuator.Tlv.from_bytes aliro_actuator.Tlv.Fields.get_bytes_from_tlv
    aliro_actuator.Tlv.get_bytes aliro_actuator.Tlv.get_value
    aliro_actuator.Tlv.Fields.get_optional_bytes_from_tlv
    aliro_actuator.Tlv.Fields.get_optional_tlv_from_tlv aliro_actuator.Tlv.get_tlv
    aliro_actuator.Reader.Authentication.epubk_of aliro_actuator.Trust.public_key_of
    aliro_actuator.Reader.Authentication.check_cryptogram
    aliro_actuator.Reader.Authentication.Standard.handle_auth1
    aliro_actuator.Reader.Authentication.Standard.create_shared_keys
    aliro_actuator.Reader.Session.Keys.set_shared_key
    aliro_actuator.Reader.Session.Keys.derive_key_volatile
    aliro_actuator.Reader.Session.Keys.key_info aliro_actuator.Reader.Session.Keys.key_salt
    aliro_actuator.Encryption.create_salt
    aliro_actuator.Reader.Session.get_reader_group_identifier_key
    aliro_actuator.Reader.Session.Keys.create_encryption_engine_expedited
    aliro_actuator.Reader.Session.Keys.volatile_keys
    aliro_actuator.Reader.Session.Keys.create_encryption_engine_stepup
    aliro_actuator.Reader.Send.command_auth1
    aliro_actuator.Trust.Authentication.create_reader_authentication aliro_actuator.Trust.sign
    aliro_actuator.Apdu.Create.create_auth1_command aliro_actuator.Apdu.Create.auth1_tlv
    aliro_actuator.Reader.Send.with_engine aliro_actuator.Apdu.Response.Parse.parse_as_auth1
    aliro_actuator.Reader.Send.engine_of aliro_actuator.Encryption.decrypt
    aliro_actuator.Apdu.Response.Parse.auth1_payload
    aliro_actuator.Reader.Authentication.Standard.handle_auth1_credential_public_key
    aliro_actuator.Reader.Authentication.Standard.requested_key
    aliro_actuator.Reader.Authentication.Standard.new_key
    aliro_actuator.Reader.Authentication.Standard.accept_auth1
    aliro_actuator.Reader.Session.check_user_device_authentication
    aliro_actuator.Reader.Storage.add_kpersistent aliro_actuator.Reader.Storage.remove_kpersistent
standard_run = (refl, refl)

-- The cryptogram was decrypted with the only entry of the storage.
fast_run : (expedited_transaction_fast answered 1 answered_fast).1 ≡ ok tt
unfolding aliro_actuator.Reader.Authentication.Standard.expedited_transaction_standard
    aliro_actuator.Reader.◌>>=◌ aliro_actuator.Reader.Authentication.handle_auth0
    aliro_actuator.Reader.set_reader_ephemeral_key aliro_actuator.Reader.when
    aliro_actuator.Reader.Exchange.with_failure aliro_actuator.Reader.catch
    aliro_actuator.Reader.Session.get_reader_epubkey aliro_actuator.Reader.Send.command_auth0
    aliro_actuator.Apdu.Create.create_auth0_command aliro_actuator.Apdu.Create.auth0_tlv
    aliro_actuator.Tlv.to_bytes aliro_actuator.Apdu.Chain.create_command
    aliro_actuator.Reader.generate_reader_ephemeral_key aliro_actuator.Apdu.Chain.init
    aliro_actuator.Apdu.Chain.split_data aliro_actuator.Apdu.Chain.split_standard
    aliro_actuator.Apdu.Chain.split aliro_actuator.Apdu.Chain.create_commands
    aliro_actuator.Apdu.Command.create_from_parameters aliro_actuator.Apdu.Command.data_field
    aliro_actuator.Reader.Send.handle_chaining_send_command aliro_actuator.Reader.Send.send_chain
    aliro_actuator.Reader.Send.fetch_rest aliro_actuator.Apdu.Chain.Receive.is_busy
    aliro_actuator.Trust.Authentication.create_user_device_authentication
    aliro_actuator.Trust.verify aliro_actuator.Reader.Authentication.Standard.keep_auth1
    aliro_actuator.Reader.Authentication.Standard.store_kpersistent
    aliro_actuator.Reader.Session.Keys.derive_key_persistent
    aliro_actuator.Apdu.Chain.Receive.check_ble_message_type_for_response
    aliro_actuator.Apdu.Response.create_from_bytestring
    aliro_actuator.Apdu.Response.check_chaining_response aliro_actuator.Apdu.Response.sw1_of
    aliro_actuator.Apdu.Response.set_sw2 aliro_actuator.Apdu.Response.set_sw1
    aliro_actuator.Apdu.Response.Parse.parse_auth0_response
    aliro_actuator.Tlv.Sequence.verify_sequence aliro_actuator.Tlv.Sequence.verify_loop
    aliro_actuator.Tlv.Sequence.round aliro_actuator.Tlv.Sequence.read_tag
    aliro_actuator.Tlv.Sequence.take_value aliro_actuator.Tlv.Sequence.contains
    aliro_actuator.Tlv.Sequence.accept_sub_tag aliro_actuator.Tlv.Sequence.known_tag
    aliro_actuator.Tlv.Sequence.index_of aliro_actuator.Tlv.Sequence.read_length
    aliro_actuator.Tlv.Sequence.check_tags aliro_actuator.Tlv.Sequence.in_order
    aliro_actuator.Apdu.Response.Parse.parse_as_auth0 aliro_actuator.Apdu.Response.check_status
    aliro_actuator.Apdu.Response.contains_status aliro_actuator.Apdu.Response.Parse.parse_tlv
    aliro_actuator.Tlv.from_bytes aliro_actuator.Tlv.Fields.get_bytes_from_tlv
    aliro_actuator.Tlv.get_bytes aliro_actuator.Tlv.get_value
    aliro_actuator.Tlv.Fields.get_optional_bytes_from_tlv
    aliro_actuator.Tlv.Fields.get_optional_tlv_from_tlv aliro_actuator.Tlv.get_tlv
    aliro_actuator.Reader.Authentication.epubk_of aliro_actuator.Trust.public_key_of
    aliro_actuator.Reader.Authentication.check_cryptogram
    aliro_actuator.Reader.Authentication.Standard.handle_auth1
    aliro_actuator.Reader.Authentication.Standard.create_shared_keys
    aliro_actuator.Reader.Session.Keys.set_shared_key
    aliro_actuator.Reader.Session.Keys.derive_key_volatile
    aliro_actuator.Reader.Session.Keys.key_info aliro_actuator.Reader.Session.Keys.key_salt
    aliro_actuator.Encryption.create_salt
    aliro_actuator.Reader.Session.get_reader_group_identifier_key
    aliro_actuator.Reader.Session.Keys.create_encryption_engine_expedited
    aliro_actuator.Reader.Session.Keys.volatile_keys
    aliro_actuator.Reader.Session.Keys.create_encryption_engine_stepup
    aliro_actuator.Reader.Send.command_auth1
    aliro_actuator.Trust.Authentication.create_reader_authentication aliro_actuator.Trust.sign
    aliro_actuator.Apdu.Create.create_auth1_command aliro_actuator.Apdu.Create.auth1_tlv
    aliro_actuator.Reader.Send.with_engine aliro_actuator.Apdu.Response.Parse.parse_as_auth1
    aliro_actuator.Reader.Send.engine_of aliro_actuator.Encryption.decrypt
    aliro_actuator.Apdu.Response.Parse.auth1_payload
    aliro_actuator.Reader.Authentication.Standard.handle_auth1_credential_public_key
    aliro_actuator.Reader.Authentication.Standard.requested_key
    aliro_actuator.Reader.Authentication.Standard.new_key
    aliro_actuator.Reader.Authentication.Standard.accept_auth1
    aliro_actuator.Reader.Session.check_user_device_authentication
    aliro_actuator.Reader.Authentication.Standard.expedited_transaction_fast
    aliro_actuator.Reader.Authentication.decrypt_received
    aliro_actuator.Reader.Authentication.search_storage
    aliro_actuator.Reader.Authentication.try_entries
    aliro_actuator.Reader.Session.Keys.derive_key_volatile_fast
    aliro_actuator.Reader.Authentication.after_trial aliro_actuator.Encryption.decrypt_cryptogram
    aliro_actuator.Reader.Authentication.accept aliro_actuator.Reader.Session.set_cryptogram_info
    aliro_actuator.Reader.Authentication.or_not_found
fast_run = refl
