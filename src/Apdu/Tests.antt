-- ===== src/Apdu/Tests.antt =====
-- Commands and responses on small inputs.
use aliro_actuator.Common.{◌≡◌, refl, [], ◌∷◌, none, some, ok, arith}
use aliro_actuator.Apdu.Command.{Command, new_command, optional_data}
use aliro_actuator.Apdu.Command as Cmd
use aliro_actuator.Apdu.Command.RoundTrip.{create_from_bytestring-create_from_parameters, read_le}
use aliro_actuator.Apdu.Response.{Response}
use aliro_actuator.Apdu.Response as Rsp
use aliro_actuator.Apdu.Response.RoundTrip.{
  response_create_from_bytestring-create_from_parameters, read_data,
}

abbrev second : Command
second = new_command 0x80 0x81 0 0 (3 ∷ []) none (1 ∷ 3 ∷ []) []

create_from_bytestring-create_from_parameters_example :
    Cmd.create_from_bytestring (0x80 ∷ 0x81 ∷ 0 ∷ 0 ∷ 1 ∷ 3 ∷ [])
    ≡ ok (record second { lc = some 1; le = some (read_le (3 ∷ []) none) })
unfolding Cmd.create_from_parameters Cmd.data_field
create_from_bytestring-create_from_parameters_example =
    create_from_bytestring-create_from_parameters 0x80 0x81 0 0 (3 ∷ []) none (omega arith) tt refl

abbrev more_data : Response
more_data = record { as_bytes = 5 ∷ 0x61 ∷ 0x10 ∷ []; status = 0x6110; payload = some (5 ∷ []) }

response_create_from_bytestring-create_from_parameters_example :
    Rsp.create_from_bytestring (5 ∷ 0x61 ∷ 0x10 ∷ [])
    ≡ ok (record more_data { payload = read_data (some (5 ∷ [])) })
unfolding Rsp.create_from_parameters Rsp.sw1_of Rsp.sw2_of
response_create_from_bytestring-create_from_parameters_example =
    response_create_from_bytestring-create_from_parameters (some (5 ∷ [])) 0x6110 (omega arith) refl
