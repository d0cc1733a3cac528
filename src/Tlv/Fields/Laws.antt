-- ===== src/Tlv/Fields/Laws.antt =====
-- Laws of the field readers of transport_protocol/message.py.
use aliro_actuator.Common.{
  ℕ, zero, suc, ◌+◌, ◌/◌, ◌≡◌, ◌≢◌, ◌≤◌, ◌<◌, ◌↔◌, refl, List, [], ◌∷◌, Option, none, some, length,
  Bytes, Result, ok, err, Error, index_error, stuck, ◌>>=◌, ◌>>◌, >>=-eq-ok, arith, get_elem?,
  or_raise, tlv_error, All, big_digits,
}
use mathlib.Core.Path.{ap₂}
use aliro_actuator.Tlv.{Value, bytes, tlv, only_bytes, Tlv, get_bytes, get_all_of_tag}
use aliro_actuator.Tlv.Laws.{get_value-get_all_of_tag}
use aliro_actuator.Tlv.Fields.{
  get_bytes_from_tlv, get_optional_bytes_from_tlv, check_lengths, on_missing, none_if_missing,
  check_found, data_to_2byte_list, shift_loop, get_shift_from_bitmask,
}

abbrev HasLength : Option ℕ → ℕ → Type 0
HasLength none n = Unit
HasLength (some wanted) n = n ≡ wanted

abbrev HasMost : Option ℕ → ℕ → Type 0
HasMost none n = Unit
HasMost (some most) n = n ≤ most

-- what `get_bytes(tag)` makes of all the values of the tag
abbrev first_bytes : List Value → Result Bytes
first_bytes [] = err index_error
first_bytes (bytes b ∷ rest) = ok b
first_bytes (tlv t ∷ rest) = err tlv_error

get_bytes-first : (d : Tlv) (tag : ℕ) → get_bytes d tag 0 ≡ first_bytes (get_all_of_tag d tag)
unfolding get_bytes
get_bytes-first d tag = rw get_value-get_all_of_tag (cases (get_all_of_tag d tag))
  where
    cases : (l : List Value) → (or_raise index_error (get_elem? l 0) >>= only_bytes) ≡ first_bytes l
    cases [] = refl
    cases (bytes b ∷ rest) = refl
    cases (tlv t ∷ rest) = refl

module _ (invalid : Error) (wanted most : Option ℕ) where
  check_lengths_ok :
      (n : ℕ) → check_lengths invalid wanted most n ≡ ok tt → HasLength wanted n × HasMost most n
  check_lengths_ok n h = ground arith

  first_lem :
      (l : List Value) {v : Bytes}
      → (do
        value ← on_missing invalid (first_bytes l)
        check_lengths invalid wanted most (length value)
        ok value)
        ≡ ok v
      → (rest : List Value) × (l ≡ bytes v ∷ rest)
        × HasLength wanted (length v)
        × HasMost most (length v)
  first_lem [] h = cc
  first_lem (tlv t ∷ rest) h = cc
  first_lem (bytes b ∷ rest) {v} h =
      let (u, c, e) = >>=-eq-ok (check_lengths invalid wanted most (length b)) _ h in
      let (x, y) = check_lengths_ok (length b) c in
      let same : b ≡ v = cc e in rw (← same) (rest, refl, x, y)

  -- A value that is returned is the first of its tag, it is a bytes object, and it passes both tests
  -- on its length.
  pub get_bytes_from_tlv_lem :
      (tag : ℕ) (d : Tlv) {v : Bytes}
      → get_bytes_from_tlv invalid tag wanted most d ≡ ok v
      → (rest : List Value) × (get_all_of_tag d tag ≡ bytes v ∷ rest)
        × HasLength wanted (length v)
        × HasMost most (length v)
  unfolding get_bytes_from_tlv
  get_bytes_from_tlv_lem tag d h = first_lem (get_all_of_tag d tag) (rw get_bytes-first at h)

  optional_none :
      (l : List Value)
      → ((do found ← none_if_missing (first_bytes l); check_found invalid wanted most found)
          ≡ ok none)
        ↔ (l ≡ [])
  optional_none [] = ((λ h. refl), (λ h. refl))
  optional_none (tlv t ∷ rest) = ((λ h. cc), (λ h. cc))
  optional_none (bytes b ∷ rest) = ((λ h. ground arith), (λ h. cc))

  -- An optional field is read as missing exactly when no element has its tag.
  pub get_optional-none :
      (tag : ℕ) (d : Tlv)
      → (get_optional_bytes_from_tlv invalid tag wanted most d ≡ ok none)
        ↔ (get_all_of_tag d tag ≡ [])
  unfolding get_optional_bytes_from_tlv
  get_optional-none tag d = rw get_bytes-first (optional_none (get_all_of_tag d tag))

shift_loop-ne-stuck :
    (fuel shift bitmask : ℕ)
    → 0 < bitmask
    → bitmask ≤ fuel
    → shift_loop fuel shift bitmask ≢ err stuck
unfolding shift_loop
shift_loop-ne-stuck zero shift bitmask pos h e = absurd (omega arith)
shift_loop-ne-stuck (suc fuel) shift bitmask pos h e =
    ground (arith, shift_loop-ne-stuck fuel (shift + 1) (bitmask / 2))

-- The search for the lowest set bit of a mask ends, for every mask but 0.
pub get_shift-ne-stuck : (bitmask : ℕ) → bitmask ≢ 0 → get_shift_from_bitmask bitmask ≢ err stuck
unfolding get_shift_from_bitmask
get_shift-ne-stuck bitmask pos = shift_loop-ne-stuck bitmask 0 bitmask (omega arith) (omega arith)

abbrev versions_bytes : List ℕ → Bytes
versions_bytes [] = []
versions_bytes (v ∷ vs) = big_digits 2 v (versions_bytes vs)

-- Versions written with two bytes each are read back.
pub data_to_2byte_list-versions :
    (vs : List ℕ) → All (λ v. v < 65536) vs → data_to_2byte_list (versions_bytes vs) ≡ vs
unfolding data_to_2byte_list
data_to_2byte_list-versions [] h = refl
data_to_2byte_list-versions (v ∷ vs) (h, hs) =
    ap₂ (λ (a : ℕ) (l : List ℕ). a ∷ l) (omega arith) (data_to_2byte_list-versions vs hs)
