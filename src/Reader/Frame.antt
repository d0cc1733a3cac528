-- ===== src/Reader/Frame.antt =====
-- Operations of the reader of access_protocol/reader.py that leave its storage alone.
pub mod Handlers
pub mod Authentication
pub mod Outcomes
pub mod Accepted
pub mod Held
pub mod Opened
pub mod Cryptogram
pub mod Transactions
use aliro_actuator.Common.{
  ℕ, ◌≡◌, if◌then◌else◌, refl, ◌∙◌, Bool, true, false, Result, Error, ok, err, Option, Result-cases,
  inl, inr,
}
use aliro_actuator.Encryption.{EncryptionEngine}
use aliro_actuator.Reader.{Reader, Action, ◌>>=◌, when, catch}
use aliro_actuator.Reader.Send.{ReaderState, with_engine}

-- The operation leaves the storage as it was, exceptions included.
unfoldable pub KeepsStorage : {A : Type 0} → Action A → Type 0
KeepsStorage m = (d : Reader) → (m d).0.storage ≡ d.storage

pub reads-KeepsStorage : {A : Type 0} (f : Reader → Result A) → KeepsStorage (λ d. (d, f d))
unfolding KeepsStorage
reads-KeepsStorage f d = refl

pub bind-KeepsStorage :
    {A B : Type 0} (m : Action A) (f : A → Action B)
    → KeepsStorage m
    → ((a : A) → KeepsStorage (f a))
    → KeepsStorage (m >>= f)
unfolding ◌>>=◌ KeepsStorage
bind-KeepsStorage m f h k d = elim (Result-cases (m d).1) [
  | inl (a, e) ↦ rw (◌>>=◌, e) (k a (m d).0 ∙ h d)
  | inr (x, e) ↦ rw (◌>>=◌, e) (h d)
]

pub when-KeepsStorage :
    (b : Bool) (m : Action (Unit {0})) → KeepsStorage m → KeepsStorage (when b m)
unfolding when KeepsStorage
when-KeepsStorage true m h d = h d
when-KeepsStorage false m h d = refl

pub catch-KeepsStorage :
    {A : Type 0} (m : Action A) (handler : Error → Action A)
    → KeepsStorage m
    → ((x : Error) → KeepsStorage (handler x))
    → KeepsStorage (catch m handler)
unfolding catch KeepsStorage
catch-KeepsStorage m handler h k d = elim (Result-cases (m d).1) [
  | inl (a, e) ↦ rw (catch, e) (h d)
  | inr (x, e) ↦ rw (catch, e) (k x (m d).0 ∙ h d)
]

pub if-KeepsStorage :
    {A : Type 0} (b : Bool) (m n : Action A)
    → KeepsStorage m
    → KeepsStorage n
    → KeepsStorage (if b then m else n)
if-KeepsStorage true m n h k = h
if-KeepsStorage false m n h k = k

pub with_engine-KeepsStorage :
    {A : Type 0} (state : ReaderState)
    (f : Option EncryptionEngine → Option EncryptionEngine × Result A)
    → KeepsStorage (with_engine state f)
unfolding with_engine KeepsStorage
with_engine-KeepsStorage state f d = refl

pub ruleset keeps = (
  bind-KeepsStorage, catch-KeepsStorage, when-KeepsStorage, if-KeepsStorage, reads-KeepsStorage,
  with_engine-KeepsStorage,
)
