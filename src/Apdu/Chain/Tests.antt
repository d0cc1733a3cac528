-- ===== src/Apdu/Chain/Tests.antt =====
-- Chains on small inputs.
use aliro_actuator.Common.{
  ◌≡◌, ◌≤◌, refl, List, [], ◌∷◌, none, some, Bool, true, length, Bytes, ok, All, arith,
}
use aliro_actuator.Apdu.Command.{Command, new_command, optional_data}
use aliro_actuator.Apdu.Command as Cmd
use aliro_actuator.Apdu.Chain.{
  Apdu, init, nfc, split, create_command, create_commands, split_data, split_standard, split_loop,
}
use aliro_actuator.Apdu.Chain.Split.{split_lem, split_ok, concat}
use aliro_actuator.Apdu.Chain.Commands.{create_command-IsChain, payloads, IsChain}
use aliro_actuator.Apdu.Chain.Receive.{receive_command}
use aliro_actuator.Apdu.Chain.Receive.Commands.{frames, receive_command-create_command}

abbrev two_bytes : Apdu
two_bytes = init nfc 2 256

abbrev two_parts : List Bytes
two_parts = (1 ∷ 2 ∷ []) ∷ (3 ∷ []) ∷ []

abbrev first : Command
first = new_command 0x90 0x81 0 0 (1 ∷ 2 ∷ []) none (2 ∷ 1 ∷ 2 ∷ []) []

abbrev second : Command
second = new_command 0x80 0x81 0 0 (3 ∷ []) none (1 ∷ 3 ∷ []) []

split_ok_example : (parts : List Bytes) × (split 2 (1 ∷ 2 ∷ 3 ∷ []) ≡ ok parts)
split_ok_example = split_ok 2 (1 ∷ 2 ∷ 3 ∷ []) (omega arith)

split_lem_example :
    (concat two_parts ≡ 1 ∷ 2 ∷ 3 ∷ []) × All (λ (p : Bytes). length p ≤ 2) two_parts × Unit {0}
unfolding split split_loop
split_lem_example = split_lem 2 (1 ∷ 2 ∷ 3 ∷ []) refl

create_command-IsChain_example :
    (payloads (first ∷ second ∷ []) ≡ 1 ∷ 2 ∷ 3 ∷ []) × IsChain 0x80 (first ∷ second ∷ [])
unfolding create_command create_commands split_data split_standard split split_loop
    Cmd.create_from_parameters Cmd.data_field init
create_command-IsChain_example =
    create_command-IsChain two_bytes 0x80 0x81 0 0 (1 ∷ 2 ∷ 3 ∷ []) none none (omega arith) refl

receive_command-create_command_example :
    (d : Command) × (chained : Bool) × (receive_command true first.as_bytes
        (frames none none (second ∷ []))
      ≡ ok (d, chained))
    × (d.cla ≡ 0x80)
    × (d.ins ≡ 0x81)
    × (d.p1 ≡ 0)
    × (d.p2 ≡ 0)
    × (d.payload ≡ some (1 ∷ 2 ∷ 3 ∷ []))
unfolding create_command create_commands split_data split_standard split split_loop
    Cmd.create_from_parameters Cmd.data_field init
receive_command-create_command_example =
    receive_command-create_command two_bytes true none none 0x80 0x81 0 0 (1 ∷ 2 ∷ 3 ∷ []) none none
      refl refl (omega arith) (omega arith) (omega arith) (omega arith) refl (omega arith) tt refl
