-- ===== src/Tlv/Laws.antt =====
-- Laws of the lookups of the class `TLV` of access_protocol/tlv.py.
use aliro_actuator.Common.{
  ℕ, zero, suc, ◌≡◌, refl, [], ◌∷◌, ◌++◌, ◌==◌, if◌then◌else◌, get_elem?, index_error, or_raise,
  arith, Bool-cases, inl, inr,
}
use aliro_actuator.Tlv.{Value, Tlv, nil, element, add_value, get_value, get_all_of_tag, to_tag}

-- The value of a tag at an index is the element at that index of all the values of the tag, and an
-- IndexError where there is none.
pub get_value-get_all_of_tag :
    (d : Tlv) (tag index : ℕ)
    → get_value d tag index ≡ or_raise index_error (get_elem? (get_all_of_tag d tag) index)
unfolding get_value get_all_of_tag
get_value-get_all_of_tag nil tag index = refl
get_value-get_all_of_tag (element t v rest) tag zero = elim (Bool-cases (t == tag)) [
  | inl e ↦ rw e
  | inr e ↦ rw e (get_value-get_all_of_tag rest tag zero)
]
get_value-get_all_of_tag (element t v rest) tag (suc index) = elim (Bool-cases (t == tag)) [
  | inl e ↦ rw e (get_value-get_all_of_tag rest tag index)
  | inr e ↦ rw e (get_value-get_all_of_tag rest tag (suc index))
]

pub get_all_of_tag-add_value :
    (d : Tlv) (t tag : ℕ) (v : Value)
    → get_all_of_tag (add_value t v d) tag
      ≡ get_all_of_tag d tag ++ (if t == tag then v ∷ [] else [])
unfolding get_all_of_tag add_value
get_all_of_tag-add_value nil t tag v = ground arith
get_all_of_tag-add_value (element u w rest) t tag v = elim (Bool-cases (u == tag)) [
  | inl e ↦ rw (e, get_all_of_tag-add_value rest t tag v)
  | inr e ↦ rw (e, get_all_of_tag-add_value rest t tag v)
]

pub to_tag-add_value : (d : Tlv) (t : ℕ) (v : Value) → to_tag (add_value t v d) ≡ t
unfolding to_tag add_value
to_tag-add_value nil t v = refl
to_tag-add_value (element u w nil) t v = refl
to_tag-add_value (element u w (element u' w' rest)) t v = to_tag-add_value (element u' w' rest) t v
