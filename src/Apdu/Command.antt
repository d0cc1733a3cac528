-- ===== src/Apdu/Command.antt =====
-- The class `Command` of access_protocol/apdu.py.
pub mod RoundTrip
use aliro_actuator.Common.{
  ℕ, ◌+◌, ◌-◌, List, [], ◌∷◌, ◌++◌, Option, none, some, Bool, true, false, ◌==◌, ◌&&◌, ltb,
  if◌then◌else◌, length, get_elem?, slice, bit_and, Bytes, to_bytes_big, from_bytes_big, Result, ok,
  err, index_error, guard, or_raise, create_command_error, invalid_command_error, invalid_cla_error,
  invalid_ins_error, invalid_parameter_error, invalid_lc_error, invalid_le_error,
  invalid_command_data_error, not, ◌>>=◌, ◌>>◌,
}

-- `lc` and `le` are `none` where the source leaves the initial -1.
pub record Command : Type 0 where
  pub as_bytes : Bytes
  pub cla : ℕ
  pub ins : ℕ
  pub p1 : ℕ
  pub p2 : ℕ
  pub lc : Option ℕ
  pub le : Option ℕ
  pub payload : Option Bytes
  pub chaining_control_bit : Bool

abbrev pub max_value_byte : ℕ
max_value_byte = 0xff

-- `cla & 0x10 == 0x10`
abbrev pub chaining_bit : ℕ → Bool
chaining_bit cla = bit_and cla 0x10 == 0x10

abbrev short_le : Option ℕ → Bool
short_le none = true
short_le (some le) = ltb le 256

-- the length field and the data
unfoldable pub data_field : Bytes → Option ℕ → Result Bytes
data_field [] le = ok []
data_field (d ∷ ds) le =
    if ltb (length (d ∷ ds)) 256 && short_le le
    then ok (length (d ∷ ds) ∷ d ∷ ds)
    else (do lc ← to_bytes_big 3 (length (d ∷ ds)); ok (lc ++ d ∷ ds))

-- the number of bytes of the le field
abbrev pub le_len : Bytes → ℕ → ℕ
le_len payload le =
    if ltb le 256 && ltb (length payload) 256 then 1 else if length payload == 0 then 3 else 2

abbrev pub le_field : Bytes → Option ℕ → Result Bytes
le_field payload none = ok []
le_field payload (some le) = to_bytes_big (le_len payload le) le

abbrev pub optional_length : Bytes → Option ℕ
optional_length [] = none
optional_length (d ∷ ds) = some (length (d ∷ ds))

abbrev pub optional_data : Bytes → Option Bytes
optional_data [] = none
optional_data (d ∷ ds) = some (d ∷ ds)

-- the attributes of the new command, from its parameters and its two encoded fields
abbrev pub new_command : ℕ → ℕ → ℕ → ℕ → Bytes → Option ℕ → Bytes → Bytes → Command
new_command cla ins p1 p2 payload le fields le_bytes = record {
  as_bytes = cla ∷ ins ∷ p1 ∷ p2 ∷ (fields ++ le_bytes);
  cla = cla;
  ins = ins;
  p1 = p1;
  p2 = p2;
  lc = optional_length payload;
  le = le;
  payload = optional_data payload;
  chaining_control_bit = chaining_bit cla;
}

unfoldable pub create_from_parameters : ℕ → ℕ → ℕ → ℕ → Bytes → Option ℕ → Result Command
create_from_parameters cla ins p1 p2 payload le = do
  guard (not (ltb max_value_byte cla)) create_command_error
  guard (not (ltb max_value_byte ins)) create_command_error
  guard (not (ltb max_value_byte p1)) create_command_error
  guard (not (ltb max_value_byte p2)) create_command_error
  fields ← data_field payload le
  le_bytes ← le_field payload le
  ok (new_command cla ins p1 p2 payload le fields le_bytes)

-- a byte of zero in a short le field stands for 256
abbrev short_value : ℕ → ℕ
short_value le = if le == 0x00 then 256 else le

-- the extended form: the length in the bytes 5 and 6
pub parse_extended : Bytes → Result (ℕ × Option Bytes × ℕ)
parse_extended command =
    let lc = from_bytes_big (slice 5 7 command) in
    let payload = slice 7 (7 + lc) command in
    if length command == 7 + lc + 2
    then ok (lc, some payload, from_bytes_big (slice (7 + lc) (7 + lc + 2) command))
    else if length command == 7 + lc
    then ok (lc, some payload, 0)
    else err invalid_lc_error

-- the short form: the length in the byte 4
pub parse_short : Bytes → ℕ → Result (ℕ × Option Bytes × ℕ)
parse_short command lc =
    let payload = slice 5 (5 + lc) command in
    if length command == 5 + lc + 1
    then (do
      le ← or_raise index_error (get_elem? command (5 + lc))
      ok (lc, some payload, short_value le))
    else if length command == 5 + lc
    then ok (lc, some payload, 0)
    else err invalid_lc_error

-- `_parse_data`: the lc, data and le fields
pub parse_data : Bytes → Result (ℕ × Option Bytes × ℕ)
parse_data command =
    if ltb (length command) 4
    then err invalid_command_error
    else if length command == 4
    then ok (0, none, 0)
    else do
      fifth ← or_raise index_error (get_elem? command 4)
      if length command == 5
          then ok (0, none, short_value fifth)
          else if length command == 7 && fifth == 0x00
          then ok (0, none, from_bytes_big (slice 5 7 command))
          else if fifth == 0x00
          then parse_extended command
          else parse_short command fifth

pub create_from_bytestring : Bytes → Result Command
create_from_bytestring bytestring = do
  guard (not (ltb (length bytestring) 4)) invalid_command_error
  cla ← or_raise index_error (get_elem? bytestring 0)
  ins ← or_raise index_error (get_elem? bytestring 1)
  p1 ← or_raise index_error (get_elem? bytestring 2)
  p2 ← or_raise index_error (get_elem? bytestring 3)
  (lc, payload, le) ← parse_data bytestring
  ok (record {
    as_bytes = bytestring;
    cla = cla;
    ins = ins;
    p1 = p1;
    p2 = p2;
    lc = some lc;
    le = some le;
    payload = payload;
    chaining_control_bit = chaining_bit cla;
  })

-- `_check_cla`: 0x00 or 0x10 for interindustry instructions, 0x80 or 0x90 for others
unfoldable pub check_cla : Bool → Command → Result (Unit {0})
check_cla true c = if c.cla == 0x00 then ok tt else guard (c.cla == 0x10) invalid_cla_error
check_cla false c = if c.cla == 0x80 then ok tt else guard (c.cla == 0x90) invalid_cla_error

unfoldable pub check_ins : ℕ → Command → Result (Unit {0})
check_ins expected c = guard (c.ins == expected) invalid_ins_error

unfoldable pub check_parameters : ℕ → ℕ → Command → Result (Unit {0})
check_parameters p1 p2 c = guard (c.p1 == p1 && c.p2 == p2) invalid_parameter_error

abbrev equals : Option ℕ → ℕ → Bool
equals none n = false
equals (some m) n = m == n

unfoldable pub check_le : Option ℕ → Command → Result (Unit {0})
check_le none c = ok tt
check_le (some expected) c = guard (equals c.le expected) invalid_le_error

abbrev pub ins_select : ℕ
ins_select = 0xa4

abbrev pub ins_get_response : ℕ
ins_get_response = 0xc0

abbrev pub aid_len : ℕ
aid_len = 9

-- `parse_as_select`: the AID
pub parse_as_select : Command → Result Bytes
parse_as_select c = do
  check_cla true c
  check_ins ins_select c
  check_parameters 0x04 0x00 c
  aid ← or_raise invalid_command_data_error c.payload
  guard (equals c.lc aid_len && length aid == aid_len) invalid_command_data_error
  check_le none c
  ok aid

abbrev no_data : Option Bytes → Bool
no_data none = true
no_data (some d) = false

pub parse_as_get_response : Command → Result (Unit {0})
parse_as_get_response c = do
  check_cla true c
  check_ins ins_get_response c
  check_parameters 0x00 0x00 c
  guard (no_data c.payload) invalid_command_data_error
