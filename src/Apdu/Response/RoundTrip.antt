-- ===== src/Apdu/Response/RoundTrip.antt =====
-- The bytes of the class `Response` of access_protocol/apdu.py, written and read.
use aliro_actuator.Common.{
  ℕ, ◌+◌, ◌-◌, ◌/◌, ◌%◌, ◌≡◌, ◌<◌, refl, ◌∙◌, [], ◌∷◌, ◌++◌, Option, none, some, true, false, ◌==◌,
  all_below, all_below_lem, if◌then◌else◌, length, length-append, get_elem?, get_elem?-append,
  get_elem?-middle, take-append, Bytes, ok, lt→ltb, le→ltb_false, arith,
}
use aliro_actuator.Apdu.Response.{
  Response, sw1_of, sw2_of, set_sw1, set_sw2, given, data_before_status, create_from_bytestring,
  create_from_parameters,
}

status_table :
    all_below 65536 (λ s.
      if sw1_of s == s / 256
      then (if sw2_of s == s % 256 then set_sw2 (set_sw1 0 (s / 256)) (s % 256) == s else false)
      else false)
    ≡ true
unfolding all_below sw1_of sw2_of set_sw1 set_sw2
status_table = refl

status_facts :
    (s : ℕ)
    → s < 65536
    → (sw1_of s ≡ s / 256) × (sw2_of s ≡ s % 256) × (set_sw2 (set_sw1 0 (s / 256)) (s % 256) ≡ s)
status_facts s h = ground (arith, all_below_lem 65536 _ s status_table)

-- the data that a reader finds: none where it is empty
abbrev pub read_data : Option Bytes → Option Bytes
read_data none = none
read_data (some []) = none
read_data (some (d ∷ ds)) = some (d ∷ ds)

-- The bytes of a response are its data and the two bytes of its status.
pub create_from_parameters_bytes :
    (payload : Option Bytes) (status : ℕ)
    → status < 65536
    → create_from_parameters payload status
      ≡ ok (record {
        as_bytes = given payload ++ (status / 256) ∷ (status % 256) ∷ [];
        status = status;
        payload = payload;
      })
unfolding create_from_parameters
create_from_parameters_bytes payload status h =
    let (f1, f2, f3) = status_facts status h in
    rw (
      le→ltb_false 0xffff status (omega arith),
      f1,
      f2,
      lt→ltb (status / 256) 256 (omega arith),
      lt→ltb (status % 256) 256 (omega arith),
    )

abbrev nonempty : Bytes → Option Bytes
nonempty [] = none
nonempty (d ∷ ds) = some (d ∷ ds)

read_data-given : (payload : Option Bytes) → nonempty (given payload) ≡ read_data payload
read_data-given none = refl
read_data-given (some []) = refl
read_data-given (some (d ∷ ds)) = refl

data_before_status_lem :
    (d : Bytes) (hi lo : ℕ) → data_before_status (d ++ hi ∷ lo ∷ []) ≡ nonempty d
data_before_status_lem [] hi lo = refl
data_before_status_lem (x ∷ xs) hi lo =
    let len : length ((x ∷ xs) ++ hi ∷ lo ∷ []) ≡ length (x ∷ xs) + 2 =
      length-append (x ∷ xs) (hi ∷ lo ∷ []) in
    let cut : length (x ∷ xs) + 2 - 2 ≡ length (x ∷ xs) = omega arith in
    rw (len, lt→ltb 2 (length (x ∷ xs) + 2) (omega arith), cut, take-append (x ∷ xs) (hi ∷ lo ∷ []))

-- The data and the status that a reader finds in any bytes that end with a status.
pub create_from_bytestring-status :
    (d : Bytes) (status : ℕ)
    → status < 65536
    → create_from_bytestring (d ++ (status / 256) ∷ (status % 256) ∷ [])
      ≡ ok (record {
        as_bytes = d ++ (status / 256) ∷ (status % 256) ∷ [];
        status = status;
        payload = nonempty d;
      })
unfolding create_from_bytestring
create_from_bytestring-status d status h =
    let (_, _, f3) = status_facts status h in
    let hi : ℕ = status / 256 in
    let lo : ℕ = status % 256 in
    let len : length (d ++ hi ∷ lo ∷ []) ≡ length d + 2 = length-append d (hi ∷ lo ∷ []) in
    let whole : Bytes = d ++ hi ∷ lo ∷ [] in
    let second : length whole - 1 ≡ length d + 1 = omega (arith, len) in
    let hi_at : get_elem? whole (length whole - 2) ≡ some hi =
      get_elem?-middle d hi (lo ∷ []) (length whole - 2) (omega (arith, len)) in
    let lo_at : get_elem? whole (length whole - 1) ≡ some lo =
      rw second (get_elem?-append d (hi ∷ lo ∷ []) 1) in
    rw (
      le→ltb_false (length whole) 2 (omega (arith, len)),
      hi_at,
      lo_at,
      f3,
      data_before_status_lem d hi lo,
    )

-- A response that was created is read back from its bytes with the same status and data; empty data
-- is read as none.
pub response_create_from_bytestring-create_from_parameters :
    (payload : Option Bytes) (status : ℕ) {r : Response}
    → status < 65536
    → create_from_parameters payload status ≡ ok r
    → create_from_bytestring r.as_bytes ≡ ok (record r { payload = read_data payload })
response_create_from_bytestring-create_from_parameters payload status {r} h e =
    let (f1, f2, f3) = status_facts status h in
    let d : Bytes = given payload in
    let hi : ℕ = status / 256 in
    let lo : ℕ = status % 256 in
    let same : r ≡ record { as_bytes = d ++ hi ∷ lo ∷ []; status = status; payload = payload } =
      cc (e, create_from_parameters_bytes payload status h) in
    rw same (create_from_bytestring-status d status h ∙ rw (read_data-given payload))
