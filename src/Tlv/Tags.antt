-- ===== src/Tlv/Tags.antt =====
-- The tables of access_protocol/tlv.py: for each known TLV structure the tags in their order, and
-- the length of each value. `none` stands for the -1 of the source, any length.
use aliro_actuator.Common.{ℕ, List, [], ◌∷◌, Option, none, some}

pub data TlvIndex : Type 0 where
  select_rsp select_rsp_6f select_rsp_a5 select_rsp_7f66 select_rsp_b7 : TlvIndex
  controlflow_cmd auth0_cmd auth0_rsp auth0_rsp_9d auth0_rsp_b2 : TlvIndex
  auth1_cmd auth1_rsp auth1_rsp_9d auth1_rsp_b2 auth1_rsp_rd_auth auth1_rsp_ud_auth : TlvIndex
  exchange_cmd exchange_cmd_ba exchange_cmd_ae exchange_cmd_b5 : TlvIndex

abbrev pub expected_tags : TlvIndex → List ℕ
expected_tags select_rsp = 0x6f ∷ 0xb7 ∷ []
expected_tags select_rsp_6f = 0x84 ∷ 0xa5 ∷ []
expected_tags select_rsp_a5 = 0x80 ∷ 0x5c ∷ 0x7f66 ∷ 0xb3 ∷ []
expected_tags select_rsp_7f66 = 0x02 ∷ []
expected_tags select_rsp_b7 = 0x04 ∷ 0x80 ∷ 0x81 ∷ []
expected_tags controlflow_cmd = 0x41 ∷ 0x42 ∷ 0x63 ∷ []
expected_tags auth0_cmd = 0x41 ∷ 0x42 ∷ 0x5c ∷ 0x87 ∷ 0x4c ∷ 0x4d ∷ 0xb1 ∷ []
expected_tags auth0_rsp = 0x86 ∷ 0x9d ∷ 0xb2 ∷ []
expected_tags auth0_rsp_9d = 0x5e ∷ 0x91 ∷ 0x92 ∷ []
expected_tags auth0_rsp_b2 = 0x30 ∷ []
expected_tags auth1_cmd = 0x41 ∷ 0x9e ∷ 0x90 ∷ []
expected_tags auth1_rsp = 0x4e ∷ 0x5a ∷ 0x9e ∷ 0x4b ∷ 0x5e ∷ 0x91 ∷ 0x92 ∷ []
expected_tags auth1_rsp_9d = 0x5e ∷ 0x91 ∷ 0x92 ∷ []
expected_tags auth1_rsp_b2 = 0x30 ∷ []
expected_tags auth1_rsp_rd_auth = 0x4d ∷ 0x86 ∷ 0x87 ∷ 0x4c ∷ 0x93 ∷ []
expected_tags auth1_rsp_ud_auth = 0x4d ∷ 0x86 ∷ 0x87 ∷ 0x4c ∷ 0x93 ∷ []
expected_tags exchange_cmd = 0xba ∷ 0xae ∷ 0x97 ∷ 0x98 ∷ 0x81 ∷ []
expected_tags exchange_cmd_ba = 0x8c ∷ 0x87 ∷ 0x8a ∷ 0x95 ∷ []
expected_tags exchange_cmd_ae = 0x82 ∷ 0xb5 ∷ 0x9f00 ∷ []
expected_tags exchange_cmd_b5 = 0x04 ∷ 0x80 ∷ 0x81 ∷ []

abbrev pub expected_length : TlvIndex → List (Option ℕ)
expected_length select_rsp = none ∷ none ∷ []
expected_length select_rsp_6f = some 9 ∷ none ∷ []
expected_length select_rsp_a5 = some 2 ∷ none ∷ some 8 ∷ none ∷ []
expected_length select_rsp_7f66 = some 2 ∷ []
expected_length select_rsp_b7 = some 3 ∷ none ∷ none ∷ []
expected_length controlflow_cmd = some 1 ∷ some 1 ∷ none ∷ []
expected_length auth0_cmd = some 1 ∷ some 1 ∷ some 2 ∷ some 65 ∷ some 16 ∷ some 32 ∷ none ∷ []
expected_length auth0_rsp = some 65 ∷ some 64 ∷ none ∷ []
expected_length auth0_rsp_9d = some 2 ∷ some 20 ∷ some 20 ∷ []
expected_length auth0_rsp_b2 = none ∷ []
expected_length auth1_cmd = some 1 ∷ some 64 ∷ none ∷ []
expected_length auth1_rsp = some 8 ∷ some 65 ∷ some 64 ∷ none ∷ some 2 ∷ some 20 ∷ some 20 ∷ []
expected_length auth1_rsp_9d = some 2 ∷ some 20 ∷ some 20 ∷ []
expected_length auth1_rsp_b2 = none ∷ []
expected_length auth1_rsp_rd_auth = some 32 ∷ some 32 ∷ some 32 ∷ some 16 ∷ some 4 ∷ []
expected_length auth1_rsp_ud_auth = some 32 ∷ some 32 ∷ some 32 ∷ some 16 ∷ some 4 ∷ []
expected_length exchange_cmd = none ∷ none ∷ some 2 ∷ some 0 ∷ none ∷ []
expected_length exchange_cmd_ba = some 1 ∷ some 4 ∷ none ∷ some 5 ∷ []
expected_length exchange_cmd_ae = some 2 ∷ none ∷ none ∷ []
expected_length exchange_cmd_b5 = some 3 ∷ none ∷ none ∷ []
