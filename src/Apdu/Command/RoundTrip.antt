-- ===== src/Apdu/Command/RoundTrip.antt =====
-- The bytes of the class `Command` of access_protocol/apdu.py, written and read.
use aliro_actuator.Common.{
  ℕ, ◌+◌, ◌*◌, ◌/◌, ◌%◌, ◌≡◌, ◌<◌, refl, [], ◌∷◌, ◌++◌, Option, none, some, false, ◌==◌, ◌&&◌, ltb,
  if◌then◌else◌, length, length-append, slice-middle, get_elem?-middle, Bytes, ok, >>=-eq-ok, guard,
  not, create_command_error, Bool-cases, inl, inr, big_digits, arith, lt→ltb, le→ltb_false,
  append-nil,
}
use native.Mathlib.Decide.{dec_lt}
use aliro_actuator.Apdu.Command.{
  Command, optional_data, le_field, create_from_parameters, create_from_bytestring, data_field,
  short_le, le_len, new_command, parse_data, parse_short, parse_extended,
}

-- What a reader finds for the le field: 0 if there was none, and 256 for a zero in the short form.
pub read_le : Bytes → Option ℕ → ℕ
read_le payload none = 0
read_le payload (some le) = if ltb (length payload) 256 && le == 0 then 256 else le

abbrev pub IsWord : Option ℕ → Type 0
IsWord none = Unit
IsWord (some n) = n < 65536

pub read_le-IsWord : (payload : Bytes) (le : Option ℕ) → IsWord le → read_le payload le < 65536
unfolding read_le
read_le-IsWord payload none w = omega arith
read_le-IsWord payload (some le) w = ground (arith, w)

parse_data-short :
    (a b c d : ℕ) (x : ℕ) (xs : Bytes)
    → length (x ∷ xs) < 256
    → parse_data (a ∷ b ∷ c ∷ d ∷ length (x ∷ xs) ∷ ((x ∷ xs) ++ []))
      ≡ ok (length (x ∷ xs), some (x ∷ xs), 0)
unfolding parse_data parse_short
parse_data-short a b c d x xs h =
    let n : ℕ = length (x ∷ xs) in
    let len : length (x ∷ (xs ++ [])) ≡ n = rw append-nil in
    ground (arith, len, slice-middle (a ∷ b ∷ c ∷ d ∷ n ∷ []) (x ∷ xs) [] 5 (5 + n) refl refl)

parse_data-short_le :
    (a b c d : ℕ) (x : ℕ) (xs : Bytes) (le : ℕ)
    → length (x ∷ xs) < 256
    → parse_data (a ∷ b ∷ c ∷ d ∷ length (x ∷ xs) ∷ ((x ∷ xs) ++ le ∷ []))
      ≡ ok (length (x ∷ xs), some (x ∷ xs), (if le == 0 then 256 else le))
unfolding parse_data parse_short
parse_data-short_le a b c d x xs le h =
    let n : ℕ = length (x ∷ xs) in
    let front : Bytes = a ∷ b ∷ c ∷ d ∷ n ∷ [] in
    ground (
      arith,
      length-append (x ∷ xs) (le ∷ []),
      slice-middle front (x ∷ xs) (le ∷ []) 5 (5 + n) refl refl,
      get_elem?-middle (front ++ x ∷ xs) le [] (5 + n) (omega arith),
    )

-- an extended length field of the number `n`
abbrev extended : ℕ → Bytes → Bytes
extended n rest = 0 ∷ (n / 256 % 256) ∷ (n % 256) ∷ rest

parse_data-extended :
    (a b c d : ℕ) (x : ℕ) (xs : Bytes)
    → length (x ∷ xs) < 65536
    → parse_data (a ∷ b ∷ c ∷ d ∷ extended (length (x ∷ xs)) ((x ∷ xs) ++ []))
      ≡ ok (length (x ∷ xs), some (x ∷ xs), 0)
unfolding parse_data parse_extended
parse_data-extended a b c d x xs h =
    let n : ℕ = length (x ∷ xs) in
    let front : Bytes = a ∷ b ∷ c ∷ d ∷ extended n [] in
    let len : length (x ∷ (xs ++ [])) ≡ n = rw append-nil in
    let value : (0 * 256 + n / 256 % 256) * 256 + n % 256 ≡ n = omega arith in
    rw value (ground (arith, len, slice-middle front (x ∷ xs) [] 7 (7 + n) refl refl))

parse_data-extended_le :
    (a b c d : ℕ) (x : ℕ) (xs : Bytes) (le : ℕ)
    → length (x ∷ xs) < 65536
    → le < 65536
    → parse_data (
        a ∷ b ∷ c ∷ d ∷ extended (length (x ∷ xs)) ((x ∷ xs) ++ (le / 256 % 256) ∷ (le % 256) ∷ []))
      ≡ ok (length (x ∷ xs), some (x ∷ xs), le)
unfolding parse_data parse_extended
parse_data-extended_le a b c d x xs le h hle =
    let n : ℕ = length (x ∷ xs) in
    let le_bytes : Bytes = (le / 256 % 256) ∷ (le % 256) ∷ [] in
    let front : Bytes = a ∷ b ∷ c ∷ d ∷ extended n [] in
    let value : (0 * 256 + n / 256 % 256) * 256 + n % 256 ≡ n = omega arith in
    let le_value : (0 * 256 + le / 256 % 256) * 256 + le % 256 ≡ le = omega arith in
    rw value (
      ground (
        arith,
        le_value,
        length-append (x ∷ xs) le_bytes,
        slice-middle front (x ∷ xs) le_bytes 7 (7 + n) refl refl,
        slice-middle (front ++ x ∷ xs) le_bytes [] (7 + n) (7 + n + 2) (omega arith) (omega arith),
      ))

-- Commands with no data.
parse_data-no_data : (a b c d : ℕ) → parse_data (a ∷ b ∷ c ∷ d ∷ []) ≡ ok (0, none, 0)
unfolding parse_data
parse_data-no_data a b c d = refl

parse_data-only_le :
    (a b c d le : ℕ)
    → parse_data (a ∷ b ∷ c ∷ d ∷ le ∷ []) ≡ ok (0, none, (if le == 0 then 256 else le))
unfolding parse_data
parse_data-only_le a b c d le = refl

parse_data-only_extended_le :
    (a b c d le : ℕ) → le < 65536 → parse_data (a ∷ b ∷ c ∷ d ∷ extended le []) ≡ ok (0, none, le)
unfolding parse_data
parse_data-only_extended_le a b c d le h = ground arith

-- What `_parse_data` finds behind the header of a command that was created.
parse_data-fields :
    (a b c d : ℕ) (payload : Bytes) (le : Option ℕ) {fields le_bytes : Bytes}
    → length payload < 65536
    → IsWord le
    → data_field payload le ≡ ok fields
    → le_field payload le ≡ ok le_bytes
    → parse_data (a ∷ b ∷ c ∷ d ∷ (fields ++ le_bytes))
      ≡ ok (length payload, optional_data payload, read_le payload le)
unfolding data_field read_le
parse_data-fields a b c d [] none h w f l = unfold parse_data in ground arith
parse_data-fields a b c d [] (some le) {fields} {le_bytes} h w f l =
    let none_left : fields ≡ [] = cc in
    elim (dec_lt le 256) [
      | yes short ↦
          let e : le_bytes ≡ le ∷ [] = ground arith in
          rw (none_left, e) (parse_data-only_le a b c d le)
      | no long ↦
          let e : le_bytes ≡ extended le [] = ground arith in
          rw (none_left, e) (ground (arith, parse_data-only_extended_le a b c d le))
    ]
parse_data-fields a b c d (x ∷ xs) none {fields} {le_bytes} h w f l =
    let n : ℕ = length (x ∷ xs) in
    let none_left : le_bytes ≡ [] = cc in
    elim (dec_lt n 256) [
      | yes short ↦
          let e : fields ≡ n ∷ x ∷ xs = ground arith in
          rw (none_left, e) (parse_data-short a b c d x xs short)
      | no long ↦
          let e : fields ≡ extended n (x ∷ xs) = ground arith in
          rw (none_left, e) (parse_data-extended a b c d x xs h)
    ]
parse_data-fields a b c d (x ∷ xs) (some le) {fields} {le_bytes} h w f l =
    let n : ℕ = length (x ∷ xs) in
    elim (dec_lt n 256) [
      | yes short ↦ elim (dec_lt le 256) [
        | yes short_le ↦
            let e : fields ≡ n ∷ x ∷ xs = ground arith in
            let k : le_bytes ≡ le ∷ [] = ground arith in
            rw (e, k) (ground (arith, parse_data-short_le a b c d x xs le short))
        | no long_le ↦
            let e : fields ≡ extended n (x ∷ xs) = ground arith in
            let k : le_bytes ≡ (le / 256 % 256) ∷ (le % 256) ∷ [] = ground arith in
            rw (e, k) (ground (arith, parse_data-extended_le a b c d x xs le h w))
      ]
      | no long ↦
          let e : fields ≡ extended n (x ∷ xs) = ground arith in
          let k : le_bytes ≡ (le / 256 % 256) ∷ (le % 256) ∷ [] = ground arith in
          rw (e, k) (ground (arith, parse_data-extended_le a b c d x xs le h w))
    ]

module _ (cla ins p1 p2 : ℕ) (payload : Bytes) (le : Option ℕ) where
  pub create_from_parameters-eq-ok :
      {c : Command}
      → create_from_parameters cla ins p1 p2 payload le ≡ ok c
      → (fields : Bytes) × (le_bytes : Bytes) × (data_field payload le ≡ ok fields)
        × (le_field payload le ≡ ok le_bytes)
        × (c ≡ new_command cla ins p1 p2 payload le fields le_bytes)
  unfolding create_from_parameters
  create_from_parameters-eq-ok e =
      let (_, _, e1) = >>=-eq-ok (guard (not (ltb 255 cla)) create_command_error) _ e in
      let (_, _, e2) = >>=-eq-ok (guard (not (ltb 255 ins)) create_command_error) _ e1 in
      let (_, _, e3) = >>=-eq-ok (guard (not (ltb 255 p1)) create_command_error) _ e2 in
      let (_, _, e4) = >>=-eq-ok (guard (not (ltb 255 p2)) create_command_error) _ e3 in
      let (fields, f, e5) = >>=-eq-ok (data_field payload le) _ e4 in
      let (le_bytes, l, e6) = >>=-eq-ok (le_field payload le) _ e5 in
      (fields, le_bytes, f, l, cc e6)

not_above : (n : ℕ) → n < 256 → ltb 255 n ≡ false
not_above n h = le→ltb_false 255 n (omega arith)

data_field_ok :
    (payload : Bytes) (le : Option ℕ)
    → length payload < 65536
    → (fields : Bytes) × (data_field payload le ≡ ok fields)
unfolding data_field
data_field_ok [] le h = ([], refl)
data_field_ok (x ∷ xs) le h = elim (Bool-cases (ltb (length (x ∷ xs)) 256 && short_le le)) [
  | inl short ↦ (length (x ∷ xs) ∷ x ∷ xs, rw short)
  | inr long ↦ (
    big_digits 3 (length (x ∷ xs)) [] ++ x ∷ xs,
    rw (long, lt→ltb (length (x ∷ xs)) 16777216 (omega arith)),
  )
]

le_field_ok :
    (payload : Bytes) (le : Option ℕ)
    → IsWord le
    → (le_bytes : Bytes) × (le_field payload le ≡ ok le_bytes)
le_field_ok payload none w = ([], refl)
le_field_ok payload (some le) w = (big_digits (le_len payload le) le [], ground arith)

-- A command that was created, with at most 65535 bytes of data and an le field below 65536, is read
-- back from its bytes: the same header, the same data, the length of the data as lc, and an le of 0
-- where there was none and of 256 where a short le field held 0.
pub create_from_bytestring-create_from_parameters :
    (cla ins p1 p2 : ℕ) (payload : Bytes) (le : Option ℕ) {c : Command}
    → length payload < 65536
    → IsWord le
    → create_from_parameters cla ins p1 p2 payload le ≡ ok c
    → create_from_bytestring c.as_bytes
      ≡ ok (record c { lc = some (length payload); le = some (read_le payload le) })
unfolding create_from_parameters create_from_bytestring
create_from_bytestring-create_from_parameters cla ins p1 p2 payload le {c} h w e =
    let (fields, le_bytes, f, l, same) = create_from_parameters-eq-ok cla ins p1 p2 payload le e in
    rw (same, parse_data-fields cla ins p1 p2 payload le h w f l) (ground arith)

-- Every header of bytes with such data and such an le field makes a command.
pub create_from_parameters_ok :
    (cla ins p1 p2 : ℕ) (payload : Bytes) (le : Option ℕ)
    → cla < 256
    → ins < 256
    → p1 < 256
    → p2 < 256
    → length payload < 65536
    → IsWord le
    → (c : Command) × (create_from_parameters cla ins p1 p2 payload le ≡ ok c)
      × (c.cla ≡ cla)
      × (c.payload ≡ optional_data payload)
unfolding create_from_parameters
create_from_parameters_ok cla ins p1 p2 payload le hc hi h1 h2 h w =
    let (fields, f) = data_field_ok payload le h in
    let (le_bytes, l) = le_field_ok payload le w in
    (
      new_command cla ins p1 p2 payload le fields le_bytes,
      rw (not_above cla hc, not_above ins hi, not_above p1 h1, not_above p2 h2, f, l),
      refl,
      refl,
    )
