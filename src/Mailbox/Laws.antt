-- ===== src/Mailbox/Laws.antt =====
-- Laws of the class `Mailbox` of access_protocol/mailbox.py.
use aliro_actuator.Common.{
  ℕ, zero, suc, ◌+◌, ◌-◌, ◌≡◌, ◌≤◌, ◌<◌, ◌∙◌, refl, sym, ap, subst, List, [], ◌∷◌, ◌++◌, Option,
  some, Bool, true, ltb, if◌then◌else◌, length, replicate, length-replicate, length-append,
  length-take, length-drop, take, drop, slice, get_elem?, slice-middle, Bytes, ok, guard,
  mailbox_permission_error, >>=-eq-ok, arith, leb→le, append_assoc,
}
use aliro_actuator.Mailbox.{
  Mailbox, Line, Initial, lay_out, init, splice, set, read, write, check_boundaries,
}

-- what a byte array has at `k` after `new` was put at `offset`
abbrev pub patched : ℕ → Bytes → Bytes → ℕ → Option ℕ
patched offset new old k =
    if ltb k offset
    then get_elem? old k
    else if ltb k (offset + length new)
    then get_elem? new (k - offset)
    else get_elem? old k

splice-start :
    (new old : Bytes) (k : ℕ)
    → length new ≤ length old
    → get_elem? (new ++ drop (length new) old) k
      ≡ (if ltb k (length new) then get_elem? new k else get_elem? old k)
splice-start [] old k h = ground arith
splice-start (x ∷ new) [] k h = absurd (omega arith)
splice-start (x ∷ new) (y ∷ old) zero h = ground arith
splice-start (x ∷ new) (y ∷ old) (suc k) h = ground (arith, splice-start new old k (omega arith))

patched-suc :
    (offset : ℕ) (new old : Bytes) (y k : ℕ)
    → patched (suc offset) new (y ∷ old) (suc k) ≡ patched offset new old k
patched-suc offset new old y k =
    let d : suc k - suc offset ≡ k - offset = omega arith in rw d (ground arith)

splice_lem :
    (offset : ℕ) (new old : Bytes) (k : ℕ)
    → offset + length new ≤ length old
    → get_elem? (splice offset (offset + length new) new old) k ≡ patched offset new old k
unfolding splice
splice_lem zero new old k h = ground (arith, splice-start new old k (omega arith))
splice_lem (suc offset) new [] k h = absurd (omega arith)
splice_lem (suc offset) new (y ∷ old) zero h = ground arith
splice_lem (suc offset) new (y ∷ old) (suc k) h =
    let d : suc offset + length new ≡ suc (offset + length new) = omega arith in
    ap (λ n. get_elem? (splice (suc offset) n new (y ∷ old)) (suc k)) d
    ∙ splice_lem offset new old k (omega arith)
    ∙ sym (patched-suc offset new old y k)

length-splice :
    (offset size : ℕ) (new old : Bytes)
    → length new ≡ size
    → offset + size ≤ length old
    → length (splice offset (offset + size) new old) ≡ length old
unfolding splice
length-splice offset size new old e h = omega (
  arith,
  e,
  h,
  length-append (take offset old) (new ++ drop (offset + size) old),
  length-append new (drop (offset + size) old),
  length-take offset old,
  length-drop (offset + size) old,
)

-- A write inside the boundaries keeps the size of the data, puts the new bytes at the offset, and
-- leaves every other byte as it was.
pub write_lem :
    (offset : ℕ) (new : Bytes) (m : Mailbox) {m' : Mailbox}
    → check_boundaries offset (length new) m ≡ true
    → write offset new m ≡ ok m'
    → (length m'.content ≡ length m.content)
      × ((k : ℕ) → get_elem? m'.content k ≡ patched offset new m.content k)
unfolding write check_boundaries
write_lem offset new m {m'} h e =
    let (_, _, k) = >>=-eq-ok (guard m.write_permission mailbox_permission_error) _ e in
    let inside = leb→le (offset + length new) (length m.content) h in
    let same : m'.content ≡ splice offset (offset + length new) new m.content = cc k in
    rw same (
      length-splice offset (length new) new m.content refl inside,
      (λ k. splice_lem offset new m.content k inside),
    )

-- A set of a block to one value, which is a byte, is a write of so many equal bytes, errors included.
pub set-write :
    (offset size value : ℕ) (m : Mailbox)
    → value < 256
    → set offset size value m ≡ write offset (replicate size value) m
unfolding set write
set-write offset size value m h = rw length-replicate (ground arith)

-- What was written is read back, from any offset inside the data; with a longer block at the end the
-- data grows.
pub read-write :
    (offset : ℕ) (new : Bytes) (m : Mailbox) {m' : Mailbox}
    → offset ≤ length m.content
    → m.read_permission ≡ true
    → write offset new m ≡ ok m'
    → read offset (length new) m' ≡ ok new
unfolding read write splice
read-write offset new m {m'} h allowed e =
    let (_, _, k) = >>=-eq-ok (guard m.write_permission mailbox_permission_error) _ e in
    let same : m' ≡ record m {
      content = take offset m.content ++ (new ++ drop (offset + length new) m.content);
      data_set = true;
    } =
      cc k in
    let start : offset ≡ length (take offset m.content) =
      omega (arith, length-take offset m.content) in
    rw
      (
        same,
        slice-middle (take offset m.content) new (drop (offset + length new) m.content) offset
            (length new + offset) start (omega (arith, start)),
      )
      (simp allowed)

-- The line of the index for a part of the initial data gives the offset where that part is found.
abbrev pub Found : Bytes → List Line → List Initial → Type 0
Found whole [] [] = Unit
Found whole (l ∷ ls) (e ∷ es) =
    (slice l.offset (l.offset + length e.content) whole ≡ e.content) × Found whole ls es
Found whole _ _ = ⊥

lay_out_lem :
    (front : Bytes) (es : List Initial)
    → Found (front ++ (lay_out (length front) es).1) (lay_out (length front) es).0 es
unfolding lay_out
lay_out_lem front [] = tt
lay_out_lem front (e ∷ es) =
    let n : length (front ++ e.content) ≡ length front + length e.content =
      length-append front e.content in
    (
      slice-middle front e.content (lay_out (length front + length e.content) es).1 (length front)
          (length front + length e.content) refl refl,
      subst (λ (at : ℕ). Found (front ++ (e.content ++ (lay_out at es).1)) (lay_out at es).0 es) n
          (subst (λ (whole : Bytes). Found whole (lay_out (length (front ++ e.content)) es).0 es)
            (append_assoc front e.content (lay_out (length (front ++ e.content)) es).1)
            (lay_out_lem (front ++ e.content) es)),
    )

-- Every part of the initial data stands in the mailbox where its line of the index says.
pub init-Found :
    (initial : List Initial) (size : ℕ) (r w s : Bool)
    → Found (init (some initial) size r w s).content (init (some initial) size r w s).index initial
unfolding init
init-Found initial size r w s = lay_out_lem [] initial

pub write_ok :
    (offset : ℕ) (new : Bytes) (m : Mailbox)
    → m.write_permission ≡ true
    → write offset new m
      ≡ ok (record m {
        content = splice offset (offset + length new) new m.content;
        data_set = true;
      })
unfolding write
write_ok offset new m h = simp h refl
