-- ===== src/Apdu/Create/Tests.antt =====
-- A LOAD CERT command with a certificate of two bytes.
use aliro_actuator.Common.{◌≡◌, refl, [], ◌∷◌, none, some, Bool, false, ok, arith}
use aliro_actuator.Tlv.{BerTlv, nil}
use aliro_actuator.Encryption.Tests.{clear}
use aliro_actuator.Apdu.Command.{Command}
use aliro_actuator.Apdu.Command as Cmd
use aliro_actuator.Apdu.Chain.{
  Apdu, init, nfc, create_command, create_commands, split_data, split_standard, split, split_loop,
}
use aliro_actuator.Apdu.Chain.Receive.{receive_command}
use aliro_actuator.Apdu.Chain.Receive.Commands.{frames}
use aliro_actuator.Apdu.Create.{create_load_cert_command}
use aliro_actuator.Apdu.Create.RoundTrip.{parse_command-create_load_cert_command}
use aliro_actuator.Apdu.Parse.{Cbor, load_cert, parse_command}

abbrev on_nfc : Apdu
on_nfc = init nfc 255 256

abbrev empty_ber : BerTlv
empty_ber = record { parse = λ b recursive. some nil; build = λ d. some [] }

abbrev plain_cbor : Cbor
plain_cbor = record { loads_data = λ b. some (some b); dumps_data = λ b. b }

abbrev load_two_bytes : Command
load_two_bytes = record {
  as_bytes = 0x80 ∷ 0xd1 ∷ 0 ∷ 0 ∷ 2 ∷ 1 ∷ 2 ∷ 0 ∷ [];
  cla = 0x80;
  ins = 0xd1;
  p1 = 0;
  p2 = 0;
  lc = some 2;
  le = some 0;
  payload = some (1 ∷ 2 ∷ []);
  chaining_control_bit = false;
}

parse_command-create_load_cert_command_example :
    (d : Command) × (chained : Bool) × (receive_command false load_two_bytes.as_bytes
        (frames none none [])
      ≡ ok (d, chained))
    × (parse_command clear empty_ber plain_cbor none d ≡ (none, ok (load_cert (1 ∷ 2 ∷ []))))
unfolding create_load_cert_command create_command create_commands split_data split_standard split
    split_loop Cmd.create_from_parameters Cmd.data_field init
parse_command-create_load_cert_command_example =
    parse_command-create_load_cert_command clear empty_ber plain_cbor none on_nfc false none none 1
      (2 ∷ []) refl refl (omega arith) refl
