-- ===== src/Reader/Authentication/KeySlot.antt =====
-- `lookup_credential_public_key` of the class `Reader` of access_protocol/reader.py.
use aliro_actuator.Common.{
  ◌≡◌, ap, inl, inr, List, [], ◌∷◌, ◌++◌, true, false, Bool-cases, All, Bytes, ok,
}
use aliro_actuator.Trust.{KeyObject, same_bytes}
use aliro_actuator.Reader.Authentication.Standard.{
  valid_keys, the_only, lookup_credential_public_key,
}

-- the entries have other key slots
abbrev pub Others : Bytes → List (Bytes × KeyObject) → Type 0
Others slot = All (λ e. same_bytes e.0 slot ≡ false)

none_valid :
    (slot : Bytes) (entries : List (Bytes × KeyObject))
    → valid_keys slot entries ≡ []
    → Others slot entries
unfolding valid_keys
none_valid slot [] h = tt
none_valid slot ((s, key) ∷ entries) h = elim (Bool-cases (same_bytes s slot)) [
  | inl e ↦ let h' = rw e at h in cc h'
  | inr e ↦ let h' = rw e at h in (e, none_valid slot entries h')
]

-- the only entry with the slot, and the others around it
pub record Single (slot : Bytes) (key : KeyObject) (entries : List (Bytes × KeyObject))
    : Type 0 where
  pub front : List (Bytes × KeyObject)
  pub found : Bytes
  pub back : List (Bytes × KeyObject)
  pub place : entries ≡ front ++ (found, key) ∷ back
  pub fits : same_bytes found slot ≡ true
  pub before : Others slot front
  pub behind : Others slot back

one_valid :
    (slot : Bytes) (entries : List (Bytes × KeyObject)) {key : KeyObject}
    → valid_keys slot entries ≡ key ∷ []
    → Single slot key entries
unfolding valid_keys
one_valid slot [] h = cc h
one_valid slot ((s, k) ∷ entries) {key} h = elim (Bool-cases (same_bytes s slot)) [
  | inl e ↦
      let h' = rw e at h in
      record {
        front = [];
        found = s;
        back = entries;
        place = ap (λ (x : KeyObject). (s, x) ∷ entries) (cc h');
        fits = e;
        before = tt;
        behind = none_valid slot entries (cc h');
      }
  | inr e ↦
      let h' = rw e at h in
      let r = one_valid slot entries h' in
      record {
        front = (s, k) ∷ r.front;
        found = r.found;
        back = r.back;
        place = ap (λ es. (s, k) ∷ es) r.place;
        fits = r.fits;
        before = (e, r.before);
        behind = r.behind;
      }
]

only : (keys : List KeyObject) {key : KeyObject} → the_only keys ≡ ok key → keys ≡ key ∷ []
only [] h = cc h
only (k ∷ []) h = cc h
only (k ∷ l ∷ keys) h = cc h

-- Where a key slot is resolved to a public key, exactly one entry of the list has that slot, and the key is that of this entry.
pub lookup_credential_public_key-Single :
    (slot : Bytes) (entries : List (Bytes × KeyObject)) {key : KeyObject}
    → lookup_credential_public_key slot entries ≡ ok key
    → Single slot key entries
unfolding lookup_credential_public_key
lookup_credential_public_key-Single slot entries h =
    one_valid slot entries (only (valid_keys slot entries) h)
