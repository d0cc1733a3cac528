-- ===== src/Tlv/Sequence/Tests.antt =====
-- `verifySequence` on small buffers.
use aliro_actuator.Common.{◌≡◌, ◌≢◌, refl, [], ◌∷◌, some, ok, err, tlv_error, stuck, arith}
use aliro_actuator.Tlv.Tags.{controlflow_cmd}
use aliro_actuator.Tlv.Sequence.{verify_sequence, index_of, contains, in_order, seek}
use aliro_actuator.Tlv.Sequence.Progress.{verify_sequence-ne-stuck}
use aliro_actuator.Tlv.Sequence.Items.{Item, IsExpected, item_bytes, items_bytes}
use aliro_actuator.Tlv.Sequence.Order.{verify_sequence_items, verify_sequence-unknown_last}

verify_sequence-ne-stuck_example : verify_sequence (0x41 ∷ 1 ∷ 0 ∷ []) controlflow_cmd ≢ err stuck
verify_sequence-ne-stuck_example = verify_sequence-ne-stuck (0x41 ∷ 1 ∷ 0 ∷ []) controlflow_cmd

abbrev item41 : Item
item41 = record { tag = 0x41; value = 7 ∷ [] }

abbrev item42 : Item
item42 = record { tag = 0x42; value = 8 ∷ [] }

abbrev item77 : Item
item77 = record { tag = 0x77; value = [] }

item41-IsExpected : IsExpected controlflow_cmd item41
unfolding index_of
item41-IsExpected = record {
  plain = record { byte_tag = omega arith; one_byte = refl; short = omega arith };
  position = 0;
  found = refl;
  el = some 1;
  expects = refl;
  fits = refl;
}

item42-IsExpected : IsExpected controlflow_cmd item42
unfolding index_of
item42-IsExpected = record {
  plain = record { byte_tag = omega arith; one_byte = refl; short = omega arith };
  position = 1;
  found = refl;
  el = some 1;
  expects = refl;
  fits = refl;
}

verify_sequence_items_example :
    verify_sequence (0x42 ∷ 1 ∷ 8 ∷ 0x41 ∷ 1 ∷ 7 ∷ []) controlflow_cmd ≡ err tlv_error
unfolding item_bytes items_bytes in_order seek
verify_sequence_items_example =
    verify_sequence_items controlflow_cmd (item42 ∷ []) item41 refl (item42-IsExpected, tt)
      item41-IsExpected

verify_sequence-unknown_last_example :
    verify_sequence (0x42 ∷ 1 ∷ 8 ∷ 0x41 ∷ 1 ∷ 7 ∷ 0x77 ∷ 0 ∷ []) controlflow_cmd ≡ ok tt
unfolding item_bytes items_bytes contains
verify_sequence-unknown_last_example =
    verify_sequence-unknown_last controlflow_cmd (item42 ∷ item41 ∷ []) item77 refl
      (item42-IsExpected, (item41-IsExpected, tt))
      (record { byte_tag = omega arith; one_byte = refl; short = omega arith }) refl
