-- ===== src/Reader/Exchange/ReadData.antt =====
-- The data that the user device of access_protocol/user_device.py puts into the answer to an EXCHANGE
-- command, and the loop of the reader of access_protocol/reader.py that takes it out again.
use aliro_actuator.Common.{
  ℕ, zero, suc, ◌+◌, ◌≡◌, ◌≤◌, ◌<◌, ==_refl, refl, List, [], ◌∷◌, ◌++◌, some, length, length-append,
  take-append, drop-append, drop_last-append, take_last-append, to_bytes_big, big_digits, ltb→lt,
  ltb, Bool-cases, inl, inr, ◌⊎◌, ◌/◌, ◌*◌, ◌%◌, Bytes, ok, >>=-eq-ok, arith,
}
use mathlib.Core.List.{append_assoc}
use aliro_actuator.Device.Exchange.Requests.{read_payload}
use aliro_actuator.Apdu.Response.Parse.{exchange_payload}
use aliro_actuator.Reader.Exchange.{read_loop, read_data}

abbrev status : Bytes
status = 0x00 ∷ 0x02 ∷ 0x00 ∷ 0x00 ∷ []

two_bytes : (n : ℕ) {b : Bytes} → to_bytes_big 2 n ≡ ok b → (n < 65536) × (b ≡ big_digits 2 n [])
two_bytes n h = elim (Bool-cases (ltb n 65536)) [
  | inl e ↦ let h' = rw e at h in (ltb→lt n 65536 e, cc h')
  | inr e ↦ let h' = rw e at h in cc h'
]

-- one piece with its length before it, and what stands behind
read_loop-piece :
    (fuel : ℕ) (b rest : Bytes) {pieces : List Bytes}
    → length b < 65536
    → read_loop fuel rest ≡ ok pieces
    → read_loop (suc fuel) (big_digits 2 (length b) (b ++ rest)) ≡ ok (b ∷ pieces)
unfolding read_loop
read_loop-piece fuel b rest short h =
    let n = length b in
    let value : (0 + n / 256 % 256) * 256 + n % 256 ≡ n = omega (arith, short) in
    let past : 2 + n ≡ suc (suc n) = omega arith in
    rw (value, past, drop-append b rest, take-append b rest, h) refl

read_loop-framed :
    (fuel : ℕ) (b rest : Bytes) {pieces : List Bytes}
    → length b < 65536
    → ((fuel' : ℕ) → length rest ≤ fuel' → read_loop fuel' rest ≡ ok pieces)
    → length (big_digits 2 (length b) (b ++ rest)) ≤ fuel
    → read_loop fuel (big_digits 2 (length b) (b ++ rest)) ≡ ok (b ∷ pieces)
read_loop-framed zero b rest short h below = absurd (omega (arith, below))
read_loop-framed (suc fuel) b rest short h below =
    read_loop-piece fuel b rest short (h fuel (omega (arith, below, length-append b rest)))

-- what stands before the status, and the loop over it
record Reads (pieces : List Bytes) (plain : Bytes) : Type 0 where
  body : Bytes
  whole : plain ≡ body ++ status
  loop : (fuel : ℕ) → length body ≤ fuel → read_loop fuel body ≡ ok pieces
  none_or_some : (pieces ≡ []) × (body ≡ []) ⊎ (0 < length body)

framed :
    (b body : Bytes) {plain size rest : Bytes}
    → size ≡ big_digits 2 (length b) []
    → rest ≡ body ++ status
    → plain ≡ size ++ (b ++ rest)
    → plain ≡ big_digits 2 (length b) (b ++ body) ++ status
framed b body sized behind h = rw (h, sized, behind, append_assoc b body status) refl

Reads-read_payload :
    (pieces : List Bytes) {plain : Bytes} → read_payload pieces ≡ ok plain → Reads pieces plain
unfolding read_payload read_loop
Reads-read_payload [] h = record {
  body = [];
  whole = cc h;
  loop = λ fuel below. refl;
  none_or_some = inl (refl, refl);
}
Reads-read_payload (b ∷ bs) {plain} h =
    let (size, e, k) = >>=-eq-ok (to_bytes_big 2 (length b)) _ h in
    let (rest, f, g) = >>=-eq-ok (read_payload bs) _ k in
    let (short, sized) = two_bytes (length b) e in
    let r = Reads-read_payload bs f in
    record {
      body = big_digits 2 (length b) (b ++ r.body);
      whole = framed b r.body sized r.whole (cc g);
      loop = λ fuel below. read_loop-framed fuel b r.body short r.loop below;
      none_or_some = inr (omega arith);
    }

taken :
    (pieces : List Bytes) (requests : List (ℕ × ℕ)) (body : Bytes)
    → length requests ≡ length pieces
    → ((fuel : ℕ) → length body ≤ fuel → read_loop fuel body ≡ ok pieces)
    → ((pieces ≡ []) × (body ≡ [])) ⊎ (0 < length body)
    → read_data (some requests) body ≡ ok pieces
unfolding read_data
taken pieces requests [] many h (inl (p, b)) = let many' = rw p at many in rw (p, many') refl
taken pieces requests [] many h (inr p) = absurd (omega (arith, p))
taken pieces requests (x ∷ body) many h _ =
    rw (h (length (x ∷ body)) (omega arith), many, ==_refl (length pieces)) refl

-- The answer of the user device to some reads, each of fewer than 65536 bytes as the two bytes of a length demand, is taken apart by the reader into the same data, whatever it is, if it asked for so many reads, and the last four bytes are the status of a success.
pub read_data-read_payload :
    (pieces : List Bytes) (requests : List (ℕ × ℕ)) {plain : Bytes}
    → length requests ≡ length pieces
    → read_payload pieces ≡ ok plain
    → (read_data (some requests) (exchange_payload plain).read_data ≡ ok pieces)
      × ((exchange_payload plain).status_code ≡ status)
unfolding read_data exchange_payload
read_data-read_payload pieces requests {plain} many h =
    let r = Reads-read_payload pieces h in
    (
      rw (r.whole, drop_last-append 4 r.body status refl)
          (taken pieces requests r.body many r.loop r.none_or_some),
      rw (r.whole) (take_last-append 4 r.body status refl),
    )
