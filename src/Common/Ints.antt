-- ===== src/Common/Ints.antt =====
-- `int.to_bytes` and `int.from_bytes` of Python, for numbers that are not negative.
-- A bytes or bytearray object is the list of its values.
use Prim.Native.Nat.{ℕ, zero, suc, ◌+◌, ◌*◌, ◌/◌, ◌%◌, ◌^◌, ◌<◌}
use mathlib.Core.Path.{◌≡◌, refl, ◌∙◌, ap}
use mathlib.Core.List.{List, [], ◌∷◌}
use native.Mathlib.Omega.{arith}
use native.Mathlib.Nat.{pow-suc}
use aliro_actuator.Common.Tests.{ltb, if◌then◌else◌}
use aliro_actuator.Common.Lists.{length, All}
use aliro_actuator.Common.Errors.{Result, ok, err, overflow_error, value_error}

abbrev pub Bytes : Type 0
Bytes = List ℕ

abbrev pub IsByte : ℕ → Type 0
IsByte b = b < 256

-- the `k` lowest digits of `n` to the base 256, highest first, before `rest`
abbrev pub big_digits : ℕ → ℕ → Bytes → Bytes
big_digits zero n rest = rest
big_digits (suc k) n rest = big_digits k (n / 256) ((n % 256) ∷ rest)

abbrev pub little_digits : ℕ → ℕ → Bytes
little_digits zero n = []
little_digits (suc k) n = (n % 256) ∷ little_digits k (n / 256)

-- n.to_bytes(k, "big")
abbrev pub to_bytes_big : ℕ → ℕ → Result Bytes
to_bytes_big k n = if ltb n (256 ^ k) then ok (big_digits k n []) else err overflow_error

-- n.to_bytes(k, "little")
abbrev pub to_bytes_little : ℕ → ℕ → Result Bytes
to_bytes_little k n = if ltb n (256 ^ k) then ok (little_digits k n) else err overflow_error

abbrev pub big_value : ℕ → Bytes → ℕ
big_value acc [] = acc
big_value acc (b ∷ bs) = big_value (acc * 256 + b) bs

-- int.from_bytes(bs, "big")
abbrev pub from_bytes_big : Bytes → ℕ
from_bytes_big bs = big_value 0 bs

-- int.from_bytes(bs, "little")
abbrev pub from_bytes_little : Bytes → ℕ
from_bytes_little [] = 0
from_bytes_little (b ∷ bs) = b + from_bytes_little bs * 256

-- bytearray.append, which takes a byte only
abbrev pub byte : ℕ → Result Bytes
byte b = if ltb b 256 then ok (b ∷ []) else err value_error

pub big_value-big_digits :
    (k acc n : ℕ) (rest : Bytes)
    → n < 256 ^ k
    → big_value acc (big_digits k n rest) ≡ big_value (acc * 256 ^ k + n) rest
big_value-big_digits zero acc n rest h = ap (λ (t : ℕ). big_value t rest) (omega arith)
big_value-big_digits (suc k) acc n rest h =
    big_value-big_digits k acc (n / 256) ((n % 256) ∷ rest) (omega (arith, pow-suc 256 k))
    ∙ ap (λ (t : ℕ). big_value t rest) (omega (arith, ap (λ (t : ℕ). acc * t) (pow-suc 256 k)))

-- What `to_bytes` writes, `from_bytes` reads back.
pub from_bytes_big-digits : (k n : ℕ) → n < 256 ^ k → from_bytes_big (big_digits k n []) ≡ n
from_bytes_big-digits k n h = big_value-big_digits k 0 n [] h ∙ omega arith

pub from_bytes_little-digits : (k n : ℕ) → n < 256 ^ k → from_bytes_little (little_digits k n) ≡ n
from_bytes_little-digits zero n h = omega arith
from_bytes_little-digits (suc k) n h =
    omega (arith, from_bytes_little-digits k (n / 256) (omega (arith, pow-suc 256 k)))

pub length-big_digits : (k n : ℕ) (rest : Bytes) → length (big_digits k n rest) ≡ k + length rest
length-big_digits zero n rest = omega arith
length-big_digits (suc k) n rest = omega (arith, length-big_digits k (n / 256) ((n % 256) ∷ rest))

pub length-little_digits : (k n : ℕ) → length (little_digits k n) ≡ k
length-little_digits zero n = refl
length-little_digits (suc k) n = ap suc (length-little_digits k (n / 256))

pub big_digits-IsByte :
    (k n : ℕ) (rest : Bytes) → All IsByte rest → All IsByte (big_digits k n rest)
big_digits-IsByte zero n rest h = h
big_digits-IsByte (suc k) n rest h =
    big_digits-IsByte k (n / 256) ((n % 256) ∷ rest) (omega arith, h)
