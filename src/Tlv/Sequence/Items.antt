-- ===== src/Tlv/Sequence/Items.antt =====
-- `verifySequence` on buffers that are sequences of elements with a tag of one byte and a length of
-- one byte, against the plain reading of such a sequence.
use aliro_actuator.Common.{
  ℕ, suc, ◌+◌, ◌≡◌, ◌≤◌, ◌<◌, ◌∙◌, ap, refl, List, [], ◌∷◌, ◌++◌, Option, some, true, false, ◌==◌,
  all_below, all_below_lem, inl, inr, length, length-append, get_elem?, get_elem?-append, Bytes,
  bit_and, if◌then◌else◌, ok, err, tlv_error, guard, ◌>>◌, Bool-cases, >>=-eq-ok, bind-ok, le→leb,
  arith,
}
use aliro_actuator.Tlv.Tags.{TlvIndex, expected_tags, expected_length}
use aliro_actuator.Tlv.Sequence.{
  contains, index_of, in_order, take_value, read_tag, accept_sub_tag, read_length, check_tags,
  known_tag, round, verify_loop, is_mailbox, wrong_length,
}
use aliro_actuator.Tlv.Sequence.Progress.{verify_loop_done, verify_loop_step, verify_loop_raise}

pub record Item : Type 0 where
  pub tag : ℕ
  pub value : Bytes

unfoldable pub item_bytes : Item → Bytes
item_bytes x = x.tag ∷ length x.value ∷ x.value

unfoldable pub items_bytes : List Item → Bytes
items_bytes [] = []
items_bytes (x ∷ xs) = item_bytes x ++ items_bytes xs

abbrev pub tags_of : List Item → List ℕ
tags_of [] = []
tags_of (x ∷ xs) = x.tag ∷ tags_of xs

-- A tag of one byte, and a value whose length fits one byte of the short form.
pub record IsPlain (x : Item) : Type 0 where
  pub byte_tag : x.tag < 256
  pub one_byte : (bit_and x.tag 0x1f == 0x1f) ≡ false
  pub short : length x.value < 128

-- The structure knows the tag, and gives it a length that the value has.
pub record IsExpected (idx : TlvIndex) (x : Item) : Type 0 where
  pub plain : IsPlain x
  pub position : ℕ
  pub found : index_of x.tag (expected_tags idx) ≡ ok position
  pub el : Option ℕ
  pub expects : get_elem? (expected_length idx) position ≡ some el
  pub fits : wrong_length el (length x.value) ≡ false

high_byte_table : all_below 256 (λ x. bit_and x 0xff00 == 0) ≡ true
unfolding all_below
high_byte_table = refl

short_form_table : all_below 128 (λ x. bit_and x 0x80 == 0) ≡ true
unfolding all_below
short_form_table = refl

pub accept_sub_tag_plain :
    (tag : ℕ) (checked : List ℕ) → tag < 256 → accept_sub_tag tag checked ≡ checked
unfolding accept_sub_tag
accept_sub_tag_plain tag checked h =
    ground (arith, all_below_lem 256 (λ (x : ℕ). bit_and x 0xff00 == 0) tag high_byte_table)

contains-index_of :
    (tag : ℕ) (tags : List ℕ) {k : ℕ} → index_of tag tags ≡ ok k → contains tag tags ≡ true
unfolding contains index_of
contains-index_of tag [] h = cc
contains-index_of tag (t ∷ ts) h = elim (Bool-cases (t == tag)) [
  | inl e ↦ rw e
  | inr e ↦
      let (j, r, _) = >>=-eq-ok (index_of tag ts) _ (rw e at h) in
      rw (e, contains-index_of tag ts r)
]

-- The buffer from index `length front` on is the bytes of `x`, and then `rest`.
module _ (idx : TlvIndex) (x : Item) (plain : IsPlain x) (front rest buf : Bytes) (i : ℕ)
    (layout : buf ≡ front ++ (item_bytes x ++ rest)) (start : i ≡ length front) where
  tag_at : get_elem? buf i ≡ some x.tag
  unfolding item_bytes
  tag_at = let e : i ≡ length front + 0 = omega arith in rw (layout, e) (get_elem?-append front _ 0)

  pub length_at : get_elem? buf (i + 1) ≡ some (length x.value)
  unfolding item_bytes
  length_at =
      let e : i + 1 ≡ length front + 1 = omega arith in rw (layout, e) (get_elem?-append front _ 1)

  pub length-layout : length buf ≡ i + 2 + length x.value + length rest
  unfolding item_bytes
  length-layout = rw layout (
      omega (arith, length-append {0} front (item_bytes x ++ rest), length-append {0} x.value rest))

  pub read_tag-item : read_tag buf i ≡ ok (x.tag, i + 1)
  unfolding read_tag
  read_tag-item = rw (tag_at, plain.one_byte)

  read_length-item : read_length buf (i + 1) ≡ (length x.value, i + 1)
  unfolding read_length
  read_length-item = ground (
    arith,
    length_at,
    length-layout,
    plain.short,
    all_below_lem 128 (λ (b : ℕ). bit_and b 0x80 == 0) (length x.value) short_form_table,
  )

-- A round over an expected element adds its tag, and then checks the tags.
module _ (idx : TlvIndex) (x : Item) (known : IsExpected idx x) (front rest buf : Bytes) (i : ℕ)
    (layout : buf ≡ front ++ (item_bytes x ++ rest)) (start : i ≡ length front)
    (seen : List ℕ) where
  next : ℕ
  next = i + 2 + length x.value

  known_tag-item : known_tag idx buf x.tag (i + 1) seen (expected_tags idx) ≡ (
      check_tags idx next (length buf) (seen ++ x.tag ∷ []) (expected_tags idx)
      >> ok (next, seen ++ x.tag ∷ []))
  unfolding known_tag next
  known_tag-item =
      let e : i + 1 + 1 + length x.value ≡ i + 2 + length x.value = omega arith in
      rw
        (
          known.found,
          read_length-item idx x known.plain front rest buf i layout start,
          known.expects,
          known.fits,
          e,
        )
        (rw (
          le→leb (i + 2 + length x.value) (length buf)
            (omega (arith, length-layout idx x known.plain front rest buf i layout start))))

  round-item : round idx buf i seen (expected_tags idx) ≡ (
      check_tags idx next (length buf) (seen ++ x.tag ∷ []) (expected_tags idx)
      >> ok (next, seen ++ x.tag ∷ [], expected_tags idx))
  unfolding round take_value
  round-item =
      rw
        (
          read_tag-item idx x known.plain front rest buf i layout start,
          accept_sub_tag_plain x.tag (expected_tags idx) known.plain.byte_tag,
          contains-index_of x.tag (expected_tags idx) known.found,
          known_tag-item,
        )
        (bind-ok {A = Unit {0}} {B = ℕ × List ℕ}
          (check_tags idx next (length buf) (seen ++ x.tag ∷ []) (expected_tags idx))
          (next, seen ++ x.tag ∷ []) (λ s. ok (s.0, s.1, expected_tags idx)))

  check_inner :
      is_mailbox idx ≡ false
      → 0 < length rest
      → check_tags idx next (length buf) (seen ++ x.tag ∷ []) (expected_tags idx) ≡ ok tt
  unfolding check_tags next
  check_inner other more =
      ground (arith, length-layout idx x known.plain front rest buf i layout start)

  -- With more bytes behind the element, the loop goes on.
  pub step_inner :
      (fuel : ℕ)
      → is_mailbox idx ≡ false
      → 0 < length rest
      → verify_loop (suc fuel) idx buf i seen (expected_tags idx)
        ≡ verify_loop fuel idx buf (i + 2 + length x.value) (seen ++ x.tag ∷ []) (expected_tags idx)
  unfolding next
  step_inner fuel other more =
      verify_loop_step fuel idx buf i seen (expected_tags idx)
        (omega (arith, length-layout idx x known.plain front rest buf i layout start))
        (round-item ∙ rw (check_inner other more))

  check_last :
      is_mailbox idx ≡ false
      → rest ≡ []
      → check_tags idx next (length buf) (seen ++ x.tag ∷ []) (expected_tags idx)
        ≡ guard (in_order (seen ++ x.tag ∷ []) (expected_tags idx)) tlv_error
  unfolding check_tags next
  check_last other none_left =
      ground
        (arith, length-layout idx x known.plain front rest buf i layout start, ap length none_left)

  -- Behind the last element, the tags seen decide.
  pub step_last :
      (fuel : ℕ)
      → is_mailbox idx ≡ false
      → rest ≡ []
      → verify_loop (suc (suc fuel)) idx buf i seen (expected_tags idx)
        ≡ (if in_order (seen ++ x.tag ∷ []) (expected_tags idx) then ok tt else err tlv_error)
  unfolding next
  step_last fuel other none_left =
      let inside : i < length buf =
        omega (arith, length-layout idx x known.plain front rest buf i layout start) in
      let at_end : length buf ≤ i + 2 + length x.value = omega (
        arith,
        ap length none_left,
        length-layout idx x known.plain front rest buf i layout start,
      ) in
      elim (Bool-cases (in_order (seen ++ x.tag ∷ []) (expected_tags idx))) [
        | inl good ↦
            verify_loop_step (suc fuel) idx buf i seen (expected_tags idx) inside
              (round-item ∙ rw (check_last other none_left, good))
            ∙ verify_loop_done fuel idx buf (i + 2 + length x.value) (seen ++ x.tag ∷ [])
                (expected_tags idx) at_end
            ∙ rw good
        | inr bad ↦
            verify_loop_raise (suc fuel) idx buf i seen (expected_tags idx) {e = tlv_error} inside
              (round-item ∙ rw (check_last other none_left, bad))
            ∙ rw bad
      ]
