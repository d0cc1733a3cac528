-- ===== src/Apdu/Chain/Commands.antt =====
-- The chains that `create_command` of access_protocol/apdu.py makes.
use aliro_actuator.Common.{
  ℕ, ◌+◌, ◌-◌, ◌≡◌, ◌≤◌, ◌<◌, refl, sym, ◌∙◌, List, [], ◌∷◌, ◌++◌, true, bit_or, Option, length,
  All, Bytes, ok, >>=-eq-ok, all_below, all_below_lem, ltb, arith, guard, ◌||◌,
  message_too_long_error, Bool-cases, inl, inr,
}
use mathlib.Core.Path.{ap₂}
use aliro_actuator.Apdu.Command.{Command, chaining_bit, optional_data}
use aliro_actuator.Apdu.Command as Cmd
use aliro_actuator.Apdu.Command.RoundTrip.{
  IsWord, create_from_parameters-eq-ok, create_from_parameters_ok,
}
use aliro_actuator.Apdu.Response.{given}
use aliro_actuator.Apdu.Chain.{
  Apdu, create_commands, create_command, split_data, split_less, split, split_extended,
  split_standard, is_ble, ble_lc_len, ble_le_len, extended_lc_len, extended_le_len, le_allowed,
  or_default,
}
use aliro_actuator.Apdu.Chain.Split.{concat, split_lem, IsNonempty, All-length-concat}

-- all but the last have the chaining bit, and the last has the given class byte
abbrev pub IsChain : ℕ → List Command → Type 0
IsChain cla [] = ⊥
IsChain cla (c ∷ []) = c.cla ≡ cla
IsChain cla (c ∷ d ∷ cs) = (c.chaining_control_bit ≡ true) × IsChain cla (d ∷ cs)

chaining_table : all_below 256 (λ x. chaining_bit (bit_or x 0x10)) ≡ true
unfolding all_below
chaining_table = refl

byte_table : all_below 256 (λ x. ltb (bit_or x 0x10) 256) ≡ true
unfolding all_below
byte_table = refl

pub chaining_class :
    (cla : ℕ) → cla < 256 → (chaining_bit (bit_or cla 0x10) ≡ true) × (bit_or cla 0x10 < 256)
chaining_class cla h =
    ground (arith, all_below_lem 256 _ cla chaining_table h, all_below_lem 256 _ cla byte_table h)

pub given-optional_data : (payload : Bytes) → given (optional_data payload) ≡ payload
given-optional_data [] = refl
given-optional_data (d ∷ ds) = refl

abbrev pub payloads : List Command → Bytes
payloads [] = []
payloads (c ∷ cs) = given c.payload ++ payloads cs

IsChain-cons :
    (cla : ℕ) (c : Command) (cs : List Command)
    → c.chaining_control_bit ≡ true
    → IsChain cla cs
    → IsChain cla (c ∷ cs)
IsChain-cons cla c [] bit chain = elim chain [ ]
IsChain-cons cla c (d ∷ cs) bit chain = (bit, chain)

module _ (cla ins p1 p2 : ℕ) (le : Option ℕ) (byte_class : cla < 256) where
  create_commands_lem :
      (parts : List Bytes) {cs : List Command}
      → IsNonempty parts
      → create_commands cla ins p1 p2 le parts ≡ ok cs
      → (payloads cs ≡ concat parts) × IsChain cla cs
  unfolding create_commands
  create_commands_lem [] n h = elim n [ ]
  create_commands_lem (part ∷ []) {cs} n h =
      let (c, e, k) = >>=-eq-ok (Cmd.create_from_parameters cla ins p1 p2 part le) _ h in
      let (fields, le_bytes, _, _, same) = create_from_parameters-eq-ok cla ins p1 p2 part le e in
      let all : cs ≡ c ∷ [] = cc k in rw (all, same) (rw given-optional_data, refl)
  create_commands_lem (part ∷ next ∷ parts) {cs} n h =
      let (c, e, k) =
        >>=-eq-ok (Cmd.create_from_parameters (bit_or cla 0x10) ins p1 p2 part le) _ h in
      let (rest, r, k') = >>=-eq-ok (create_commands cla ins p1 p2 le (next ∷ parts)) _ k in
      let (fields, le_bytes, _, _, same) =
        create_from_parameters-eq-ok (bit_or cla 0x10) ins p1 p2 part le e in
      let all : cs ≡ c ∷ rest = cc k' in
      let (loads, chain) = create_commands_lem (next ∷ parts) tt r in
      let bit : c.chaining_control_bit ≡ true = rw same (chaining_class cla byte_class).0 in
      let part_of : given c.payload ≡ part = rw same (given-optional_data part) in
      rw all (ap₂ (λ (a b : Bytes). a ++ b) part_of loads, IsChain-cons cla c rest bit chain)

  -- Bytes in the header, an le field of at most two bytes and parts of at most 65535 bytes are enough
  -- for all the commands to be created.
  create_commands_ok :
      (parts : List Bytes)
      → ins < 256
      → p1 < 256
      → p2 < 256
      → IsWord le
      → All (λ p. length p < 65536) parts
      → (cs : List Command) × (create_commands cla ins p1 p2 le parts ≡ ok cs)
  unfolding create_commands
  create_commands_ok [] hi h1 h2 w a = ([], refl)
  create_commands_ok (part ∷ []) hi h1 h2 w (a, _) =
      let (c, e, _, _) = create_from_parameters_ok cla ins p1 p2 part le byte_class hi h1 h2 a w in
      (c ∷ [], rw e)
  create_commands_ok (part ∷ next ∷ parts) hi h1 h2 w (a, as') =
      let byte' : bit_or cla 0x10 < 256 = (chaining_class cla byte_class).1 in
      let (c, e, _, _) =
        create_from_parameters_ok (bit_or cla 0x10) ins p1 p2 part le byte' hi h1 h2 a w in
      let (cs, es) = create_commands_ok (next ∷ parts) hi h1 h2 w as' in (c ∷ cs, rw (e, es))

-- Both ways to cut the data end in one call of the loop.
abbrev IsSplit : Bytes → List Bytes → Type 0
IsSplit payload parts = (most : ℕ) × (split most payload ≡ ok parts)

split_less-IsSplit :
    (most used : ℕ) (payload : Bytes) {parts : List Bytes}
    → split_less most used payload ≡ ok parts
    → IsSplit payload parts
split_less-IsSplit most used payload h = (most - used, ground arith)

split_standard-IsSplit :
    (a : Apdu) (payload : Bytes) (le : Option ℕ) (max_data_len : ℕ) {parts : List Bytes}
    → split_standard a payload le max_data_len ≡ ok parts
    → IsSplit payload parts
unfolding split_standard
split_standard-IsSplit a payload le max_data_len h = elim (Bool-cases (is_ble a.transport)) [
  | inr other ↦ (max_data_len, rw other at h)
  | inl ble ↦
      let (lc, _, k) = >>=-eq-ok (ble_lc_len payload) _ (rw ble at h) in
      let (len, _, k') = >>=-eq-ok (ble_le_len le) _ k in
      split_less-IsSplit max_data_len (lc + len) payload k'
]

split_data-IsSplit :
    (a : Apdu) (payload : Bytes) (le max_data_len : Option ℕ) {parts : List Bytes}
    → split_data a payload le max_data_len ≡ ok parts
    → IsSplit payload parts
unfolding split_data split_extended
split_data-IsSplit a payload le max_data_len h = elim (Bool-cases a.support_extended_length_apdu) [
  | inr standard ↦
      split_standard-IsSplit a payload le (or_default a.apdu_command_length max_data_len)
        (simp standard at h)
  | inl extended ↦
      let (lc, _, k) =
        >>=-eq-ok (extended_lc_len payload (extended_le_len payload le)) _ (simp extended at h) in
      split_less-IsSplit a.maximum_command_apdu (4 + lc + extended_le_len payload le) payload k
]

pub create_command_parts :
    (a : Apdu) (cla ins p1 p2 : ℕ) (payload : Bytes) (le max_data_len : Option ℕ)
    {cs : List Command}
    → create_command a cla ins p1 p2 payload le max_data_len ≡ ok cs
    → (parts : List Bytes) × (concat parts ≡ payload)
      × All (λ p. length p ≤ length payload) parts
      × IsNonempty parts
      × (create_commands cla ins p1 p2 le parts ≡ ok cs)
unfolding create_command
create_command_parts a cla ins p1 p2 payload le max_data_len e =
    let (_, _, k) =
      >>=-eq-ok (guard (a.support_extended_length_apdu || le_allowed le) message_too_long_error) _
        e in
    let (parts, s, k') = >>=-eq-ok (split_data a payload le max_data_len) _ k in
    let (most, t) = split_data-IsSplit a payload le max_data_len s in
    let (whole, _, some_part) = split_lem most payload t in
    (parts, whole, rw (sym whole) (All-length-concat parts), some_part, k')

-- A created chain carries the whole data, in order: the payloads of its commands are the data, every
-- command but the last has the chaining bit, and the last has the class byte that was asked for.
pub create_command-IsChain :
    (a : Apdu) (cla ins p1 p2 : ℕ) (payload : Bytes) (le max_data_len : Option ℕ)
    {cs : List Command}
    → cla < 256
    → create_command a cla ins p1 p2 payload le max_data_len ≡ ok cs
    → (payloads cs ≡ payload) × IsChain cla cs
create_command-IsChain a cla ins p1 p2 payload le max_data_len h e =
    let (parts, whole, _, some_part, k) =
      create_command_parts a cla ins p1 p2 payload le max_data_len e in
    let (loads, chain) = create_commands_lem cla ins p1 p2 le h parts some_part k in
    (loads ∙ whole, chain)
