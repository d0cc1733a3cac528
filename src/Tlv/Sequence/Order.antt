-- ===== src/Tlv/Sequence/Order.antt =====
-- `verifySequence` of access_protocol/tlv.py on sequences of expected elements.
use aliro_actuator.Common.{
  ℕ, suc, ◌+◌, ◌-◌, ◌≡◌, ◌≤◌, ◌<◌, ◌∙◌, ap, refl, List, [], ◌∷◌, ◌++◌, false, length, length-append,
  append_assoc, append-nil, All, Bytes, if◌then◌else◌, ok, err, tlv_error, arith,
}
use aliro_actuator.Tlv.Tags.{TlvIndex, expected_tags}
use aliro_actuator.Tlv.Sequence.{
  in_order, contains, round, take_value, skip_unknown, verify_loop, verify_sequence, is_mailbox,
}
use aliro_actuator.Tlv.Sequence.Progress.{verify_loop_done, verify_loop_step}
use aliro_actuator.Tlv.Sequence.Items.{
  Item, IsPlain, length-layout, length_at, read_tag-item, accept_sub_tag_plain, item_bytes,
  items_bytes, tags_of, IsExpected, step_inner, step_last,
}

-- a round for each element, before `fuel` more rounds
abbrev rounds : List Item → ℕ → ℕ
rounds [] fuel = fuel
rounds (x ∷ xs) fuel = suc (rounds xs fuel)

rounds_lem : (xs : List Item) (fuel : ℕ) → rounds xs fuel ≡ length xs + fuel
rounds_lem [] fuel = omega arith
rounds_lem (x ∷ xs) fuel = omega (arith, rounds_lem xs fuel)

length-items_bytes : (xs : List Item) → length xs ≤ length (items_bytes xs)
unfolding items_bytes item_bytes
length-items_bytes [] = omega arith
length-items_bytes (x ∷ xs) =
    omega (arith, length-items_bytes xs, length-append {0} x.value (items_bytes xs))

shift :
    (x : Item) (xs : List Item) (i : ℕ)
    → i + 2 + length x.value + length (items_bytes xs) ≡ i + length (item_bytes x ++ items_bytes xs)
unfolding item_bytes
shift x xs i = omega (arith, length-append {0} x.value (items_bytes xs))

module _ (idx : TlvIndex) (other : is_mailbox idx ≡ false) (rest buf : Bytes)
    (more : 0 < length rest) where
  -- The loop over expected elements with bytes behind them collects their tags.
  pub items_step :
      (xs : List Item) (front : Bytes) (i : ℕ) (seen : List ℕ) (fuel : ℕ)
      → All (IsExpected idx) xs
      → buf ≡ front ++ (items_bytes xs ++ rest)
      → i ≡ length front
      → verify_loop (rounds xs fuel) idx buf i seen (expected_tags idx)
        ≡ verify_loop fuel idx buf
            (i + length (items_bytes xs))
            (seen ++ tags_of xs)
            (expected_tags idx)
  unfolding items_bytes item_bytes
  items_step [] front i seen fuel h layout start =
      let e : i + 0 ≡ i = omega arith in rw (e, append-nil)
  items_step (x ∷ xs) front i seen fuel (h, hs) layout start =
      step_inner idx x h front (items_bytes xs ++ rest) buf i
        (layout
          ∙ ap (λ (t : Bytes). front ++ t) (append_assoc (item_bytes x) (items_bytes xs) rest))
        start seen (rounds xs fuel) other (omega (arith, length-append {0} (items_bytes xs) rest))
      ∙ items_step xs (front ++ item_bytes x) (i + 2 + length x.value) (seen ++ x.tag ∷ []) fuel hs
          (layout ∙ rw (append_assoc, append_assoc))
          (omega (arith, length-append {0} front (item_bytes x)))
      ∙ rw (shift x xs i, append_assoc)

-- fuel for a round on each element, two more rounds, and what is left over
spare : List Item → Item → ℕ
spare xs x = length (items_bytes xs ++ item_bytes x) - length xs - 1

fuel_split :
    (xs : List Item) (x : Item)
    → suc (length (items_bytes xs ++ item_bytes x)) ≡ rounds xs (suc (suc (spare xs x)))
unfolding spare item_bytes
fuel_split xs x = omega (
  arith,
  rounds_lem xs (suc (suc (spare xs x))),
  length-items_bytes xs,
  length-append {0} (items_bytes xs) (item_bytes x),
)

module _ (idx : TlvIndex) (xs : List Item) (x : Item) (other : is_mailbox idx ≡ false)
    (hs : All (IsExpected idx) xs) where
  -- the loop up to the last element
  upto_last :
      verify_sequence (items_bytes xs ++ item_bytes x) idx
      ≡ verify_loop
          (suc (suc (spare xs x)))
          idx
          (items_bytes xs ++ item_bytes x)
          (0 + length (items_bytes xs))
          (tags_of xs)
          (expected_tags idx)
  unfolding verify_sequence item_bytes
  upto_last =
      ap (λ (n : ℕ). verify_loop n idx (items_bytes xs ++ item_bytes x) 0 [] (expected_tags idx))
        (fuel_split xs x)
      ∙ items_step idx other (item_bytes x) (items_bytes xs ++ item_bytes x) (omega arith) xs [] 0
          [] (suc (suc (spare xs x))) hs refl refl

  layout_last : items_bytes xs ++ item_bytes x ≡ items_bytes xs ++ (item_bytes x ++ [])
  layout_last = rw (append-nil (item_bytes x))

  -- Elements that the structure expects, with the lengths that it expects, with tags of one byte and with values shorter than 128 bytes, are accepted exactly when their tags are found one behind the other in the expected tags; otherwise a TlvError is raised. There is at least one element, and the mailbox structure, which has no order, is excluded.
  pub verify_sequence_items :
      IsExpected idx x
      → verify_sequence (items_bytes xs ++ item_bytes x) idx
        ≡ (if in_order (tags_of xs ++ x.tag ∷ []) (expected_tags idx) then ok tt else err tlv_error)
  verify_sequence_items h =
      upto_last
      ∙ step_last idx x h (items_bytes xs) [] (items_bytes xs ++ item_bytes x)
          (0 + length (items_bytes xs)) layout_last (omega arith) (tags_of xs) (spare xs x) other
          refl

  unknown_round :
      IsPlain x
      → contains x.tag (expected_tags idx) ≡ false
      → (seen : List ℕ)
      → round idx
          (items_bytes xs ++ item_bytes x)
          (0 + length (items_bytes xs))
          seen
          (expected_tags idx)
        ≡ ok (0 + length (items_bytes xs) + 1 + (length x.value + 1), seen, expected_tags idx)
  unfolding round take_value skip_unknown
  unknown_round p unknown seen =
      let i : ℕ = 0 + length (items_bytes xs) in
      let front : Bytes = items_bytes xs in
      let buf : Bytes = items_bytes xs ++ item_bytes x in
      rw (
        read_tag-item idx x p front [] buf i layout_last (omega arith),
        accept_sub_tag_plain x.tag (expected_tags idx) p.byte_tag,
        unknown,
        length_at idx x p front [] buf i layout_last (omega arith),
      )

  -- Behind a last element with an unknown tag the order of the expected elements before it is not checked: the sequence is accepted in every order. All tags have one byte, all values are shorter than 128 bytes, the elements before have the lengths that the structure expects, and the mailbox structure is excluded.
  pub verify_sequence-unknown_last :
      IsPlain x
      → contains x.tag (expected_tags idx) ≡ false
      → verify_sequence (items_bytes xs ++ item_bytes x) idx ≡ ok tt
  verify_sequence-unknown_last p unknown =
      let i : ℕ = 0 + length (items_bytes xs) in
      let buf : Bytes = items_bytes xs ++ item_bytes x in
      upto_last
      ∙ verify_loop_step (suc (spare xs x)) idx buf i (tags_of xs) (expected_tags idx)
          (omega (arith, length-layout idx x p (items_bytes xs) [] buf i layout_last (omega arith)))
          (unknown_round p unknown (tags_of xs))
      ∙ verify_loop_done (spare xs x) idx buf (i + 1 + (length x.value + 1)) (tags_of xs)
          (expected_tags idx)
          (omega (arith, length-layout idx x p (items_bytes xs) [] buf i layout_last (omega arith)))
