-- ===== src/Mailbox.antt =====
-- The class `Mailbox` of access_protocol/mailbox.py. The mailbox object is the state; its data is one
-- byte array, and the index lists where the parts of the initial data start.
mod Tests
mod Laws
pub mod Session
use aliro_actuator.Common.{
  ℕ, zero, suc, ◌+◌, List, [], ◌∷◌, ◌++◌, Option, none, some, Bool, true, false, not, ◌==◌, ltb,
  leb, if◌then◌else◌, length, replicate, take, drop, slice, to_bytes_big, byte, Bytes, Result, ok,
  err, guard, mailbox_permission_error, ◌>>=◌, ◌>>◌,
}
use aliro_actuator.Tlv.{Tlv, nil, element, bytes, tlv, BerTlv, to_bytes}

-- one line of the index: OUI, type and offset
pub record Line : Type 0 where
  pub oui : Bytes
  pub type : ℕ
  pub offset : ℕ

pub record Mailbox : Type 0 where
  pub read_permission : Bool
  pub write_permission : Bool
  pub step_up_permission : Bool
  pub index : List Line
  pub data_set : Bool
  pub content : Bytes

abbrev is_zero : ℕ → Bool
is_zero n = n == 0x00

-- `all(element == 0x00 for element in self.data)`
pub all_zero : Bytes → Bool
all_zero [] = true
all_zero (b ∷ bs) = if is_zero b then all_zero bs else false

pub record Initial : Type 0 where
  pub oui : Bytes
  pub type : ℕ
  pub content : Bytes

-- the index and the data of some initial data, from an offset on
pub lay_out : ℕ → List Initial → List Line × Bytes
lay_out offset [] = ([], [])
lay_out offset (e ∷ es) =
    let (lines, rest) = lay_out (offset + length e.content) es in
    (record { oui = e.oui; type = e.type; offset = offset } ∷ lines, e.content ++ rest)

pub init : Option (List Initial) → ℕ → Bool → Bool → Bool → Mailbox
init none size read_permission write_permission step_up = record {
  read_permission = read_permission;
  write_permission = write_permission;
  step_up_permission = false;
  index = [];
  data_set = false;
  content = replicate size 0;
}
init (some initial_data) size read_permission write_permission step_up =
    let (lines, content) = lay_out 0 initial_data in
    record {
      read_permission = read_permission;
      write_permission = write_permission;
      step_up_permission = false;
      index = lines;
      data_set = not (all_zero content);
      content = content;
    }

pub data_is_set : Mailbox → Bool
data_is_set m = if m.data_set then not (all_zero m.content) else false

-- `self.data[start:end] = new`, where `end` is not below `start`
pub splice : ℕ → ℕ → Bytes → Bytes → Bytes
splice start stop new old = take start old ++ (new ++ drop stop old)

pub set : ℕ → ℕ → ℕ → Mailbox → Result Mailbox
set offset size value m = do
  guard m.write_permission mailbox_permission_error
  one ← to_bytes_big 1 value
  ok (record m {
    content = splice offset (offset + size) (replicate size value) m.content;
    data_set = true;
  })

pub read : ℕ → ℕ → Mailbox → Result Bytes
read offset size m = do
  guard m.read_permission mailbox_permission_error
  ok (slice offset (size + offset) m.content)

pub write : ℕ → Bytes → Mailbox → Result Mailbox
write offset new m = do
  guard m.write_permission mailbox_permission_error
  ok (record m { content = splice offset (offset + length new) new m.content; data_set = true })

unfoldable pub check_boundaries : ℕ → ℕ → Mailbox → Bool
check_boundaries offset size m = leb (offset + size) (length m.content)

-- A line of the index is the OUI, a byte for the type and two bytes for the offset.
abbrev index_bytes : List Line → Result Bytes
index_bytes [] = ok []
index_bytes (line ∷ lines) = do
  type ← byte line.type
  offset ← to_bytes_big 2 line.offset
  rest ← index_bytes lines
  ok (line.oui ++ type ++ offset ++ rest)

pub get_tlv : Mailbox → Result Tlv
get_tlv m = do
  index ← index_bytes m.index
  ok (element 0x60 (tlv (element 0x81 (bytes index) (element 0x82 (bytes m.content) nil))) nil)

pub get_raw : BerTlv → Mailbox → Result Bytes
get_raw ber m = do d ← get_tlv m; to_bytes ber d
