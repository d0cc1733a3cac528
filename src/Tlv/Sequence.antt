-- ===== src/Tlv/Sequence.antt =====
-- `TLV.verifySequence` of access_protocol/tlv.py, over indices into the buffer as the source has it.
mod Tests
mod Progress
mod Items
mod Order
use aliro_actuator.Common.{
  ℕ, zero, suc, ◌+◌, ◌*◌, ◌-◌, ◌≡◌, List, [], ◌∷◌, ◌++◌, Option, none, some, Bool, true, false,
  ◌==◌, ◌&&◌, ◌||◌, not, ltb, leb, if◌then◌else◌, get_elem?, length, bit_and, Bytes, Result, ok,
  err, index_error, tlv_error, stuck, value_error, or_raise, guard, ◌>>=◌, ◌>>◌,
}
use aliro_actuator.Tlv.Tags.{TlvIndex, exchange_cmd_ba, expected_tags, expected_length}

-- `tag in tags`
unfoldable pub contains : ℕ → List ℕ → Bool
contains tag [] = false
contains tag (t ∷ ts) = t == tag || contains tag ts

-- `tags.index(tag)`
unfoldable pub index_of : ℕ → List ℕ → Result ℕ
index_of tag [] = err value_error
index_of tag (t ∷ ts) = if t == tag then ok 0 else (do k ← index_of tag ts; ok (suc k))

-- `tags[tags.index(old)] = new`; nothing happens where `old` does not occur
pub replace_first : ℕ → ℕ → List ℕ → List ℕ
replace_first old new [] = []
replace_first old new (t ∷ ts) = if t == old then new ∷ ts else t ∷ replace_first old new ts

-- `set(tags).issubset(set(checked))`
pub subset : List ℕ → List ℕ → Bool
unfolding contains
subset [] checked = true
subset (t ∷ ts) checked = contains t checked && subset ts checked

-- What is left of an iterator after `tag in it`, or `none` where it is used up.
pub seek : ℕ → List ℕ → Option (List ℕ)
seek tag [] = none
seek tag (t ∷ ts) = if t == tag then some ts else seek tag ts

-- `it = iter(checked); all(i in it for i in tags)`
unfoldable pub in_order : List ℕ → List ℕ → Bool
unfolding seek
in_order [] it = true
in_order (t ∷ ts) it = elim (seek t it) [ none ↦ false | some it' ↦ in_order ts it' ]

-- The tag at index `i` and the index behind it.
unfoldable pub read_tag : Bytes → ℕ → Result (ℕ × ℕ)
read_tag buf i = do
  first ← or_raise index_error (get_elem? buf i)
  if bit_and first 0x1f == 0x1f
      then if ltb i (length buf - 1)
        then (do
          second ← or_raise index_error (get_elem? buf (i + 1))
          ok (first * 256 + second, i + 2))
        else err tlv_error
      else ok (first, i + 1)

-- A valid sub tag 0x9Fxx takes the place of the generic 0x9F00.
unfoldable pub accept_sub_tag : ℕ → List ℕ → List ℕ
unfolding contains replace_first
accept_sub_tag tag checked =
    if bit_and tag 0xff00 == 0x9f00 && contains 0x9f00 checked
    then if bit_and tag 0xffe0 == 0x9f20 || bit_and tag 0xffe0 == 0x9f40
      then replace_first 0x9f00 tag checked
      else checked
    else checked

-- `buf[i]`, where the source reads it after testing that `i` is in range
abbrev at : Bytes → ℕ → ℕ
at buf i = elim (get_elem? buf i) [ none ↦ 0 | some b ↦ b ]

-- The length field at index `i`: the length, and the index of the field's last byte.
unfoldable pub read_length : Bytes → ℕ → ℕ × ℕ
read_length buf i =
    if ltb i (length buf)
    then if bit_and (at buf i) 0x80 == 0
      then (at buf i, i)
      else if at buf i == 0x81 && ltb (i + 1) (length buf)
      then (at buf (i + 1), i + 1)
      else if at buf i == 0x82 && ltb (i + 2) (length buf)
      then (at buf (i + 1) * 256 + at buf (i + 2), i + 2)
      else (at buf i, i)
    else (0, i)

-- `el != valuelen and el != -1`
abbrev wrong_length : Option ℕ → ℕ → Bool
wrong_length none valuelen = false
wrong_length (some el) valuelen = not (el == valuelen)

abbrev is_mailbox : TlvIndex → Bool
is_mailbox exchange_cmd_ba = true
is_mailbox _ = false

-- The checks on the tags seen so far, at the end of a round.
unfoldable pub check_tags : TlvIndex → ℕ → ℕ → List ℕ → List ℕ → Result (Unit {0})
check_tags idx i buflen tags checked =
    if is_mailbox idx
    then guard (subset tags checked) tlv_error
    else if leb buflen i
    then guard (in_order tags checked) tlv_error
    else ok tt

-- The part of a round behind the test that the tag is known: the index behind the value, and the
-- tags seen. The source tests the length twice; the second test, by identity of small integers, is
-- the first.
unfoldable pub known_tag : TlvIndex → Bytes → ℕ → ℕ → List ℕ → List ℕ → Result (ℕ × List ℕ)
known_tag idx buf tag i tags checked = do
  found_idx ← index_of tag checked
  let valuelen = (read_length buf i).0
  let last = (read_length buf i).1
  el ← or_raise index_error (get_elem? (expected_length idx) found_idx)
  guard (not (wrong_length el valuelen)) tlv_error
  let i' = last + 1 + valuelen
  guard (not (wrong_length el valuelen)) tlv_error
  let tags' = if leb i' (length buf) then tags ++ tag ∷ [] else tags
  check_tags idx i' (length buf) tags' checked
  ok (i', tags')

-- An unknown tag: the byte behind it is taken for the length of its value, which is skipped.
pub skip_unknown : Bytes → ℕ → Result ℕ
skip_unknown buf i = do skip_len ← or_raise index_error (get_elem? buf i); ok (i + (skip_len + 1))

-- The rest of a round behind the tag: the new index, the tags seen and the tags to check against.
unfoldable pub take_value :
    TlvIndex → Bytes → ℕ → ℕ → List ℕ → List ℕ → Result (ℕ × List ℕ × List ℕ)
take_value idx buf tag i tags checked =
    if contains tag checked
    then (do (i', tags') ← known_tag idx buf tag i tags checked; ok (i', tags', checked))
    else (do i' ← skip_unknown buf i; ok (i', tags, checked))

-- One round of the loop.
unfoldable pub round : TlvIndex → Bytes → ℕ → List ℕ → List ℕ → Result (ℕ × List ℕ × List ℕ)
round idx buf i tags checked = do
  (tag, i') ← read_tag buf i
  take_value idx buf tag i' tags (accept_sub_tag tag checked)

-- `while i < buflen`, with fuel
unfoldable pub verify_loop : ℕ → TlvIndex → Bytes → ℕ → List ℕ → List ℕ → Result (Unit {0})
verify_loop zero idx buf i tags checked = err stuck
verify_loop (suc fuel) idx buf i tags checked = elim (ltb i (length buf)) [
  | false ↦ ok tt
  | true ↦ round idx buf i tags checked >>= λ s. verify_loop fuel idx buf s.0 s.1 s.2
]

-- Every round moves the index on, so that the length of the buffer bounds the rounds.
unfoldable pub verify_sequence : Bytes → TlvIndex → Result (Unit {0})
verify_sequence buf idx = verify_loop (suc (length buf)) idx buf 0 [] (expected_tags idx)
