-- ===== src/Ble/Laws.antt =====
-- The bytes of the messages of transport_protocol/ble_message_format.py, written and read.
use aliro_actuator.Common.{
  ℕ, ◌+◌, ◌^◌, ◌≡◌, ◌<◌, ◌∙◌, refl, sym, ap, subst, List, [], ◌∷◌, ◌++◌, some, length,
  length-append, drop, drop-append, slice-middle, All, append_assoc, big_digits, to_bytes_big,
  from_bytes_big, from_bytes_big-digits, Bytes, ok, >>=-eq-ok, arith, ne→==_false, ==_refl,
}
use aliro_actuator.Ble.Attribute.{BleAttribute, new_attribute, check_tag}
use aliro_actuator.Ble.Attribute as Attribute
use aliro_actuator.Ble.Message.{BleMessage}
use aliro_actuator.Ble.Message as Message
use aliro_actuator.Ble.Create.{Field, number, raw, payload_of, field_attribute}
use aliro_actuator.Ble.Parse.{read_attribute, read_attributes}

from_bytes_lem :
    (tag : ℕ) (value rest : Bytes)
    → 0 < length value
    → Attribute.from_bytes (tag ∷ length value ∷ (value ++ rest))
      ≡ ok (new_attribute tag (some value))
unfolding Attribute.from_bytes
from_bytes_lem tag value rest some_value =
    rw (ne→==_false (length value) 0 (omega (arith, some_value))) (
      ap (λ (v : Bytes). ok (new_attribute tag (some v)))
        (slice-middle (tag ∷ length value ∷ []) value rest 2 (2 + length value) refl refl))

to_bytes-eq-ok :
    (tag : ℕ) (value : Bytes) {bs : Bytes}
    → Attribute.to_bytes (new_attribute tag (some value)) ≡ ok bs
    → bs ≡ tag ∷ length value ∷ value
unfolding Attribute.to_bytes
to_bytes-eq-ok tag value h = ground arith

-- An attribute with a value of at least one byte, written and read again, with anything behind it,
-- is the same attribute.
pub attribute_from_bytes-to_bytes :
    (tag : ℕ) (value rest : Bytes) {bs : Bytes}
    → 0 < length value
    → Attribute.to_bytes (new_attribute tag (some value)) ≡ ok bs
    → Attribute.from_bytes (bs ++ rest) ≡ ok (new_attribute tag (some value))
attribute_from_bytes-to_bytes tag value rest some_value h =
    rw (to_bytes-eq-ok tag value h) (from_bytes_lem tag value rest some_value)

message_bytes :
    (m : BleMessage) {bs : Bytes}
    → Message.to_bytes m ≡ ok bs
    → (length m.payload < 256 ^ 2)
      × (bs ≡ m.header ∷ m.id ∷ (big_digits 2 (length m.payload) [] ++ m.payload))
unfolding Message.to_bytes
message_bytes m h = ground (arith, h)

-- A message with at most 65535 bytes of payload is read back from its bytes, with anything behind
-- them.
pub message_from_bytes-to_bytes :
    (m : BleMessage) (rest : Bytes) {bs : Bytes}
    → Message.to_bytes m ≡ ok bs
    → Message.from_bytes (bs ++ rest) ≡ ok m
unfolding Message.from_bytes
message_from_bytes-to_bytes m rest {bs} h =
    let (short, same) = message_bytes m h in
    let size : from_bytes_big (big_digits 2 (length m.payload) []) ≡ length m.payload =
      from_bytes_big-digits 2 (length m.payload) short in
    rw (same, size)
      (ap (λ (p : Bytes). ok (record { header = m.header; id = m.id; payload = p }))
        (slice-middle (m.header ∷ m.id ∷ big_digits 2 (length m.payload) []) m.payload rest 4
          (4 + length m.payload) refl refl))

abbrev tag_of : Field → ℕ
tag_of (number tag width n) = tag
tag_of (raw tag value) = tag

abbrev pub field_value : Field → Bytes
field_value (number tag width n) = big_digits width n []
field_value (raw tag value) = value

abbrev attribute_of : Field → BleAttribute
attribute_of f = new_attribute (tag_of f) (some (field_value f))

abbrev pub attributes_of : List Field → List BleAttribute
attributes_of [] = []
attributes_of (f ∷ fs) = attribute_of f ∷ attributes_of fs

abbrev pub tags_of : List Field → List ℕ
tags_of [] = []
tags_of (f ∷ fs) = tag_of f ∷ tags_of fs

field_attribute-eq-ok :
    (f : Field) {a : BleAttribute} → field_attribute f ≡ ok a → a ≡ attribute_of f
unfolding field_attribute
field_attribute-eq-ok (number tag width n) h =
    let (v, e, k) = >>=-eq-ok (to_bytes_big width n) _ h in ground (arith, e, k)
field_attribute-eq-ok (raw tag value) h = cc h

read_attribute_lem :
    (payload : Bytes) (offset : ℕ) (f : Field) (rest : Bytes)
    → 0 < length (field_value f)
    → drop offset payload ≡ tag_of f ∷ length (field_value f) ∷ (field_value f ++ rest)
    → read_attribute payload offset (tag_of f) ≡ ok (attribute_of f)
unfolding read_attribute check_tag
read_attribute_lem payload offset f rest h e =
    rw (e, from_bytes_lem (tag_of f) (field_value f) rest h, ==_refl (tag_of f)) refl

read_attributes-step :
    (payload : Bytes) (offset tag : ℕ) (tags : List ℕ) {a : BleAttribute} {as' : List BleAttribute}
    {stop : ℕ}
    → read_attribute payload offset tag ≡ ok a
    → read_attributes payload (offset + a.size) tags ≡ ok (as', stop)
    → read_attributes payload offset (tag ∷ tags) ≡ ok (a ∷ as', stop)
unfolding read_attributes
read_attributes-step payload offset tag tags e e' = rw (read_attributes, e, e') refl

payload_of-cons :
    (f : Field) (fs : List Field) {p : Bytes}
    → payload_of (f ∷ fs) ≡ ok p
    → (q : Bytes) × (payload_of fs ≡ ok q)
      × (p ≡ (tag_of f ∷ length (field_value f) ∷ field_value f) ++ q)
unfolding payload_of
payload_of-cons f fs {p} e =
    let (a, ea, k) = >>=-eq-ok (field_attribute f) _ e in
    let (first, ef, k') = >>=-eq-ok (Attribute.to_bytes a) _ k in
    let (q, er, k'') = >>=-eq-ok (payload_of fs) _ k' in
    let of_field : Attribute.to_bytes (attribute_of f) ≡ ok first =
      ap (λ (a : BleAttribute). Attribute.to_bytes a) (sym (field_attribute-eq-ok f ea)) ∙ ef in
    let same : p ≡ first ++ q = cc k'' in
    (q, er, same ∙ ap (λ (b : Bytes). b ++ q) (to_bytes-eq-ok (tag_of f) (field_value f) of_field))

-- The fields that were written one after the other are read at their places, with any bytes before
-- and behind them, and each has a value.
pub read_attributes-payload_of :
    (fs : List Field) (front rest : Bytes) {p : Bytes}
    → All (λ f. 0 < length (field_value f)) fs
    → payload_of fs ≡ ok p
    → read_attributes (front ++ (p ++ rest)) (length front) (tags_of fs)
      ≡ ok (attributes_of fs, length front + length p)
unfolding payload_of
read_attributes-payload_of [] front rest h e = unfold read_attributes in ground arith
read_attributes-payload_of (f ∷ fs) front rest {p} (h, hs) e =
    let v = field_value f in
    let (q, er, same) = payload_of-cons f fs e in
    let written = tag_of f ∷ length v ∷ v in
    let here : drop (length front) (front ++ (p ++ rest))
        ≡ tag_of f ∷ length v ∷ (v ++ (q ++ rest)) =
      drop-append front (p ++ rest)
      ∙ ap (λ (b : Bytes). b ++ rest) same
      ∙ append_assoc written q rest in
    let whole : (front ++ written) ++ (q ++ rest) ≡ front ++ (p ++ rest) =
      append_assoc front written (q ++ rest)
      ∙ ap (λ (b : Bytes). front ++ b)
          (sym (append_assoc written q rest) ∙ ap (λ (b : Bytes). b ++ rest) (sym same)) in
    let behind : length (front ++ written) ≡ length front + (length v + 2) =
      omega (arith, length-append front written) in
    let stop : length (front ++ written) + length q ≡ length front + length p =
      omega (arith, behind, length-append written q, ap (λ (b : Bytes). length b) same) in
    read_attributes-step (front ++ (p ++ rest)) (length front) (tag_of f) (tags_of fs)
      (read_attribute_lem (front ++ (p ++ rest)) (length front) f (q ++ rest) h here)
      (subst
        (λ (n : ℕ).
          read_attributes (front ++ (p ++ rest)) n (tags_of fs)
          ≡ ok (attributes_of fs, length front + length p))
        behind
        (subst
          (λ (b : Bytes).
            read_attributes b (length (front ++ written)) (tags_of fs)
            ≡ ok (attributes_of fs, length front + length p))
          whole
          (read_attributes-payload_of fs (front ++ written) rest hs er
            ∙ ap (λ (n : ℕ). ok (attributes_of fs, n)) stop)))
