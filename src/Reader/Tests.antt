-- ===== src/Reader/Tests.antt =====
-- The storage of a reader on small inputs.
pub mod Transactions
mod Runs
mod Answers
mod Agreement
use aliro_actuator.Common.{ℕ, ◌≡◌, ◌≤◌, [], ◌∷◌, ◌++◌, replicate, length, arith}
use aliro_actuator.Trust.{PublicKey, KeyObject}
use aliro_actuator.Reader.Storage.{ReaderStorage, add_kpersistent, Before, add_kpersistent-last}

-- a key, and an object with the key
abbrev a_key : ℕ → PublicKey
a_key n = record { as_bytes = 4 ∷ replicate 64 n; get_x = n }

abbrev an_object : ℕ → ℕ → KeyObject
an_object n i = record { key = a_key n; identity = i }

abbrev full : ReaderStorage
full = replicate 16 (record { access_credential = an_object 1 7; kpersistent = replicate 32 1 })

add_kpersistent-last_example :
    (length (add_kpersistent (an_object 1 8) (replicate 32 2) full) ≤ 16)
    × (front : ReaderStorage) × (add_kpersistent (an_object 1 8) (replicate 32 2) full
        ≡ front ++ record { access_credential = an_object 1 8; kpersistent = replicate 32 2 } ∷ [])
    × Before (an_object 1 8) full front
add_kpersistent-last_example =
    add_kpersistent-last (an_object 1 8) (replicate 32 2) full (omega arith)
