-- ===== src/Tlv/Sequence/Progress.antt =====
-- The progress of `verifySequence` of access_protocol/tlv.py through its buffer.
use aliro_actuator.Common.{
  ℕ, zero, suc, ◌+◌, ◌≡◌, ◌≢◌, ◌∙◌, ◌≤◌, ◌<◌, List, [], ◌∷◌, inl, inr, lt→ltb, le→ltb_false, sym,
  Error, length, Bytes, ok, err, stuck, >>=-eq-ok, Result-cases, Bool-cases, arith,
}
use native.Mathlib.Decide.{dec_lt}
use aliro_actuator.Tlv.Tags.{TlvIndex, expected_tags}
use aliro_actuator.Tlv.Sequence.{
  contains, index_of, take_value, read_tag, accept_sub_tag, read_length, check_tags, known_tag,
  skip_unknown, round, verify_loop, verify_sequence,
}

read_tag-lt : (buf : Bytes) (i : ℕ) {s : ℕ × ℕ} → read_tag buf i ≡ ok s → i < s.1
unfolding read_tag
read_tag-lt buf i h = ground arith

read_length-le : (buf : Bytes) (i : ℕ) → i ≤ (read_length buf i).1
unfolding read_length
read_length-le buf i = ground arith

known_tag-lt :
    (idx : TlvIndex) (buf : Bytes) (tag i : ℕ) (tags checked : List ℕ) {s : ℕ × List ℕ}
    → known_tag idx buf tag i tags checked ≡ ok s
    → i < s.0
unfolding known_tag
known_tag-lt idx buf tag i tags checked h = ground (arith, read_length-le buf i)

skip_unknown-lt : (buf : Bytes) (i : ℕ) {j : ℕ} → skip_unknown buf i ≡ ok j → i < j
unfolding skip_unknown
skip_unknown-lt buf i h = ground arith

take_value-lt :
    (idx : TlvIndex) (buf : Bytes) (tag i : ℕ) (tags checked : List ℕ) {s : ℕ × List ℕ × List ℕ}
    → take_value idx buf tag i tags checked ≡ ok s
    → i < s.0
unfolding take_value
take_value-lt idx buf tag i tags checked {s} h = elim (Bool-cases (contains tag checked)) [
  | inl e ↦
      let (q, r, k) = >>=-eq-ok (known_tag idx buf tag i tags checked) _ (rw e at h) in
      ground (arith, known_tag-lt idx buf tag i tags checked r)
  | inr e ↦
      let (q, r, k) = >>=-eq-ok (skip_unknown buf i) _ (rw e at h) in
      ground (arith, skip_unknown-lt buf i r)
]

round-lt :
    (idx : TlvIndex) (buf : Bytes) (i : ℕ) (tags checked : List ℕ) {s : ℕ × List ℕ × List ℕ}
    → round idx buf i tags checked ≡ ok s
    → i < s.0
unfolding round
round-lt idx buf i tags checked h =
    let (t, r, k) = >>=-eq-ok (read_tag buf i) _ h in
    omega (arith, read_tag-lt buf i r, take_value-lt idx buf t.0 t.1 tags _ k)

index_of-ne-stuck : (tag : ℕ) (tags : List ℕ) → index_of tag tags ≢ err stuck
unfolding index_of
index_of-ne-stuck tag [] h = cc
index_of-ne-stuck tag (t ∷ ts) h = ground (arith, index_of-ne-stuck tag ts)

known_tag-ne-stuck :
    (idx : TlvIndex) (buf : Bytes) (tag i : ℕ) (tags checked : List ℕ)
    → known_tag idx buf tag i tags checked ≢ err stuck
unfolding known_tag check_tags
known_tag-ne-stuck idx buf tag i tags checked h = ground (arith, index_of-ne-stuck tag checked)

round-ne-stuck :
    (idx : TlvIndex) (buf : Bytes) (i : ℕ) (tags checked : List ℕ)
    → round idx buf i tags checked ≢ err stuck
unfolding round read_tag take_value skip_unknown
round-ne-stuck idx buf i tags checked h = elim (Result-cases (read_tag buf i)) [
  | inl (t, e) ↦
      ground (arith, known_tag-ne-stuck idx buf t.0 t.1 tags (accept_sub_tag t.0 checked))
  | inr (x, e) ↦ ground arith
]

-- One round of the loop, on each outcome.
module _ (fuel : ℕ) (idx : TlvIndex) (buf : Bytes) (i : ℕ) (tags checked : List ℕ) where
  pub verify_loop_done : length buf ≤ i → verify_loop (suc fuel) idx buf i tags checked ≡ ok tt
  unfolding verify_loop
  verify_loop_done h = rw (le→ltb_false i (length buf) h, verify_loop)

  pub verify_loop_step :
      {s : ℕ × List ℕ × List ℕ}
      → i < length buf
      → round idx buf i tags checked ≡ ok s
      → verify_loop (suc fuel) idx buf i tags checked ≡ verify_loop fuel idx buf s.0 s.1 s.2
  unfolding verify_loop
  verify_loop_step h r = rw (lt→ltb i (length buf) h, verify_loop, r)

  pub verify_loop_raise :
      {e : Error}
      → i < length buf
      → round idx buf i tags checked ≡ err e
      → verify_loop (suc fuel) idx buf i tags checked ≡ err e
  unfolding verify_loop
  verify_loop_raise h r = rw (lt→ltb i (length buf) h, verify_loop, r)

verify_loop-ne-stuck :
    (fuel : ℕ) (idx : TlvIndex) (buf : Bytes) (i : ℕ) (tags checked : List ℕ)
    → 0 < fuel
    → length buf < fuel + i
    → verify_loop fuel idx buf i tags checked ≢ err stuck
unfolding verify_loop
verify_loop-ne-stuck zero idx buf i tags checked pos h e = absurd (omega arith)
verify_loop-ne-stuck (suc fuel) idx buf i tags checked pos h e = elim (dec_lt i (length buf)) [
  | no done ↦ cc (e, verify_loop_done fuel idx buf i tags checked (omega arith))
  | yes more ↦ elim (Result-cases (round idx buf i tags checked)) [
    | inr (x, r) ↦
        round-ne-stuck idx buf i tags checked
          (cc (r, e, verify_loop_raise fuel idx buf i tags checked more r))
    | inl (s, r) ↦
        verify_loop-ne-stuck fuel idx buf s.0 s.1 s.2 (omega arith)
          (omega (arith, round-lt idx buf i tags checked r))
          (sym (verify_loop_step fuel idx buf i tags checked more r) ∙ e)
  ]
]

-- `verifySequence` ends on every buffer: it accepts, or raises an exception of the program.
pub verify_sequence-ne-stuck : (buf : Bytes) (idx : TlvIndex) → verify_sequence buf idx ≢ err stuck
unfolding verify_sequence
verify_sequence-ne-stuck buf idx =
    verify_loop-ne-stuck (suc (length buf)) idx buf 0 [] (expected_tags idx) (omega arith)
      (omega arith)
