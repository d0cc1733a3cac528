-- ===== src/Trust.antt =====
-- The keys and credentials of trust_framework/key.py, trust_framework/access_credential.py,
-- trust_framework/key_slot.py and trust_framework/reader_identifier.py. The packages cryptography and
-- hashlib, and the random numbers, are the record `Crypto`, a parameter.
pub mod Authentication
pub mod Laws
mod Tests
use aliro_actuator.Common.{
  ℕ, zero, suc, List, [], ◌∷◌, ◌++◌, Option, none, some, Bool, true, false, ◌==◌, ◌&&◌, ◌||◌,
  if◌then◌else◌, length, take, drop, slice, to_bytes_big, from_bytes_big, Bytes, Result, ok, err,
  or_raise, guard, invalid_identifier_error, invalid_key_error, key_lookup_failed, ◌>>=◌, ◌>>◌,
}

-- a key by what `as_bytes()` and `get_x()` answer
pub record PublicKey : Type 0 where
  pub as_bytes : Bytes
  pub get_x : ℕ

pub record KeyPair : Type 0 where
  pub private_key : Bytes
  pub public_key : PublicKey

-- `from_encoded_point` on the curve P-256, which raises a ValueError where there is none; ECDSA with
-- SHA-256 on the private key and the data, with the two numbers of a signature; ECDH followed by the
-- X9.63 derivation; HKDF on the key, the info, the length and the salt; SHA-1; and the key pairs and
-- the random bytes that are generated, one after the other.
pub record Crypto : Type 0 where
  pub from_encoded_point : Bytes → Option PublicKey
  pub ecdsa_sign : Bytes → Bytes → ℕ × ℕ
  pub ecdsa_verify : PublicKey → Bytes → ℕ → ℕ → Bool
  pub exchange : Bytes → PublicKey → Bytes → Bytes
  pub derive_key : Bytes → Bytes → ℕ → Bytes → Bytes
  pub sha1 : Bytes → Bytes
  pub generate : ℕ → KeyPair
  pub urandom : ℕ → ℕ → Bytes

-- two bytes objects are equal
unfoldable pub same_bytes : Bytes → Bytes → Bool
same_bytes [] [] = true
same_bytes (x ∷ xs) (y ∷ ys) = x == y && same_bytes xs ys
same_bytes _ _ = false

abbrev pub reader_group_id_length : ℕ
reader_group_id_length = 16

abbrev pub reader_id_length : ℕ
reader_id_length = 32

-- `ReaderIdentifier(identifier)`
unfoldable pub reader_identifier_of : Bytes → Result Bytes
reader_identifier_of identifier = do
  guard (length identifier == reader_id_length) invalid_identifier_error
  ok identifier

abbrev pub get_group : Bytes → Bytes
get_group identifier = take reader_group_id_length identifier

abbrev pub get_group_sub : Bytes → Bytes
get_group_sub identifier = drop reader_group_id_length identifier

-- An object of the class `PublicKey`. The class has no `__eq__`, so that `==` on two objects compares
-- their identities, whatever their bytes.
pub record KeyObject : Type 0 where
  pub key : PublicKey
  pub identity : ℕ

pub record AccessCredential : Type 0 where
  pub access_credential_key_pair : KeyPair
  pub reader_id_key_list : List (Bytes × PublicKey)

-- the key of the first pair with the identifier
unfoldable pub find_key : List (Bytes × PublicKey) → Bytes → Option PublicKey
find_key [] identifier = none
find_key ((i, k) ∷ pairs) identifier =
    if same_bytes i identifier then some k else find_key pairs identifier

abbrev is_found : Option PublicKey → Bool
is_found none = false
is_found (some k) = true

-- `group_identifier in self.get_all_reader_id()`
unfoldable pub has_identifier : AccessCredential → Bytes → Bool
has_identifier c identifier = is_found (find_key c.reader_id_key_list identifier)

unfoldable pub get_reader_public_key : AccessCredential → Bytes → Result PublicKey
get_reader_public_key c identifier =
    or_raise key_lookup_failed (find_key c.reader_id_key_list identifier)

module _ (crypto : Crypto) where
  -- `PublicKey(key)` of a bytes object
  unfoldable pub public_key_of : Bytes → Result PublicKey
  public_key_of key = or_raise invalid_key_error (crypto.from_encoded_point key)

  -- `PrivateKey.sign`
  unfoldable pub sign : Bytes → Bytes → Result Bytes
  sign private_key content = do
    let (r, s) = crypto.ecdsa_sign private_key content
    first ← to_bytes_big 32 r
    second ← to_bytes_big 32 s
    ok (first ++ second)

  -- `PublicKey.verify`
  unfoldable pub verify : PublicKey → Bytes → Bytes → Bool
  verify key content signature =
      crypto.ecdsa_verify key content (from_bytes_big (take 32 signature))
        (from_bytes_big (slice 32 64 signature))

  pub get_key_slot : PublicKey → Bytes
  get_key_slot key = take 8 (crypto.sha1 key.as_bytes)
