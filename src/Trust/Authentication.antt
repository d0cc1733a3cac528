-- ===== src/Trust/Authentication.antt =====
-- access_protocol/authentication.py: the data that the reader and the user device sign.
use aliro_actuator.Common.{◌∷◌, [], to_bytes_big, Bytes, Result, ok, ◌>>=◌}
use aliro_actuator.Tlv.{Tlv, nil, element, bytes}
use aliro_actuator.Trust.{PublicKey}

abbrev reader_usage : Bytes
reader_usage = 0x41 ∷ 0x5d ∷ 0x95 ∷ 0x69 ∷ []

abbrev user_device_usage : Bytes
user_device_usage = 0x4e ∷ 0x88 ∷ 0x7b ∷ 0x4c ∷ []

abbrev authentication_fields : Bytes → Bytes → Bytes → Bytes → Bytes → Tlv
authentication_fields identifier credential_x reader_x transaction usage =
    element 0x4d (bytes identifier) (
      element 0x86 (bytes credential_x) (
        element 0x87 (bytes reader_x)
          (element 0x4c (bytes transaction) (element 0x93 (bytes usage) nil))))

unfoldable pub create_reader_authentication : Bytes → PublicKey → PublicKey → Bytes → Result Tlv
create_reader_authentication identifier credential_epubk reader_epubk transaction = do
  credential_x ← to_bytes_big 32 credential_epubk.get_x
  reader_x ← to_bytes_big 32 reader_epubk.get_x
  ok (authentication_fields identifier credential_x reader_x transaction reader_usage)

unfoldable pub create_user_device_authentication :
    Bytes → PublicKey → PublicKey → Bytes → Result Tlv
create_user_device_authentication identifier credential_epubk reader_epubk transaction = do
  credential_x ← to_bytes_big 32 credential_epubk.get_x
  reader_x ← to_bytes_big 32 reader_epubk.get_x
  ok (authentication_fields identifier credential_x reader_x transaction user_device_usage)
