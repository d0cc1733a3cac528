-- ===== src/Tlv.antt =====
-- The class `TLV` of access_protocol/tlv.py. Its `data` is a list of tags with values, and a value
-- is a bytes object or such a list again; `TLV(element)` around an inner list is the list itself.
-- The logging of `to_print` is left out.
pub mod Laws
pub mod Fields
pub mod Tags
pub mod Sequence
use aliro_actuator.Common.{
  ℕ, zero, suc, List, [], ◌∷◌, ◌++◌, Option, none, some, Bool, ◌==◌, if◌then◌else◌, Bytes, Result,
  ok, err, index_error, tlv_error, or_raise, ◌>>=◌,
}

mutual
  pub data Value : Type 0 where
    bytes : Bytes → Value
    tlv : Tlv → Value

  pub data Tlv : Type 0 where
    nil : Tlv
    element : ℕ → Value → Tlv → Tlv

-- self.data.append((tag, data))
pub add_value : ℕ → Value → Tlv → Tlv
add_value tag value nil = element tag value nil
add_value tag value (element t v rest) = element t v (add_value tag value rest)

-- `get_value(tag, index)`; the last argument counts down to the wanted occurrence.
unfoldable pub get_value : Tlv → ℕ → ℕ → Result Value
get_value nil tag index = err index_error
get_value (element t v rest) tag zero = if t == tag then ok v else get_value rest tag zero
get_value (element t v rest) tag (suc index) =
    get_value rest tag (if t == tag then index else suc index)

abbrev only_bytes : Value → Result Bytes
only_bytes (bytes b) = ok b
only_bytes (tlv d) = err tlv_error

abbrev only_tlv : Value → Result Tlv
only_tlv (bytes b) = err tlv_error
only_tlv (tlv d) = ok d

unfoldable pub get_bytes : Tlv → ℕ → ℕ → Result Bytes
get_bytes data' tag index = do value ← get_value data' tag index; only_bytes value

unfoldable pub get_tlv : Tlv → ℕ → ℕ → Result Tlv
get_tlv data' tag index = do value ← get_value data' tag index; only_tlv value

-- one TLV for each element of a list
pub to_tlv_list : Tlv → List Tlv
to_tlv_list nil = []
to_tlv_list (element t v rest) = element t v nil ∷ to_tlv_list rest

pub get_all_of_tag : Tlv → ℕ → List Value
get_all_of_tag nil tag = []
get_all_of_tag (element t v rest) tag =
    let values = get_all_of_tag rest tag in if t == tag then v ∷ values else values

abbrev all_only {ℓ} : {A : Type ℓ} → (Value → Result A) → List Value → Result (List A)
all_only only [] = ok []
all_only only (v ∷ vs) = do a ← only v; as' ← all_only only vs; ok (a ∷ as')

unfoldable pub get_all_bytes_of_tag : Tlv → ℕ → Result (List Bytes)
get_all_bytes_of_tag data' tag = all_only only_bytes (get_all_of_tag data' tag)

unfoldable pub get_all_tlv_of_tag : Tlv → ℕ → Result (List Tlv)
get_all_tlv_of_tag data' tag = all_only only_tlv (get_all_of_tag data' tag)

-- the tag of the last element, or 0
pub to_tag : Tlv → ℕ
to_tag nil = 0
to_tag (element t v nil) = t
to_tag (element t v rest) = to_tag rest

-- The package `ber_tlv`: `Tlv.parse(data, recursive)` and `Tlv.build(data)`, which raise one of four
-- exceptions where the answer here is `none`.
pub record BerTlv : Type 0 where
  pub parse : Bytes → Option Bool → Option Tlv
  pub build : Tlv → Option Bytes

module _ (ber : BerTlv) where
  -- the four exceptions become a TlvError
  unfoldable pub from_bytes : Bytes → Option Bool → Result Tlv
  from_bytes data_bytes recursive = or_raise tlv_error (ber.parse data_bytes recursive)

  unfoldable pub to_bytes : Tlv → Result Bytes
  to_bytes data' = or_raise tlv_error (ber.build data')
