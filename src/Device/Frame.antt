-- ===== src/Device/Frame.antt =====
-- Operations of the user device of access_protocol/user_device.py that leave its mailbox alone.
pub mod Handlers
pub mod Standard
pub mod Receive
pub mod Commands
pub mod Exchange
use aliro_actuator.Common.{
  ℕ, ◌≡◌, if◌then◌else◌, refl, ◌∙◌, Bool, true, false, Result, Error, ok, err, Option, Result-cases,
  inl, inr,
}
use aliro_actuator.Device.{UserDevice, Action, ◌>>=◌, when, catch}
use aliro_actuator.Mailbox.{Mailbox}
use aliro_actuator.Mailbox.Session.{MailboxSession}
use aliro_actuator.Apdu.Chain.{Apdu}
use aliro_actuator.Device.Send.{with_apdu, send_error, failure_process}

abbrev pub mailboxes : UserDevice → Option Mailbox × MailboxSession
mailboxes d = (d.mailbox, d.mailbox_session)

-- The operation leaves the mailbox and its session as they were, exceptions included.
unfoldable pub KeepsMailbox : {A : Type 0} → Action A → Type 0
KeepsMailbox m = (d : UserDevice) → mailboxes (m d).0 ≡ mailboxes d

pub reads-KeepsMailbox : {A : Type 0} (f : UserDevice → Result A) → KeepsMailbox (λ d. (d, f d))
unfolding KeepsMailbox
reads-KeepsMailbox f d = refl

pub bind-KeepsMailbox :
    {A B : Type 0} (m : Action A) (f : A → Action B)
    → KeepsMailbox m
    → ((a : A) → KeepsMailbox (f a))
    → KeepsMailbox (m >>= f)
unfolding ◌>>=◌ KeepsMailbox
bind-KeepsMailbox m f h k d = elim (Result-cases (m d).1) [
  | inl (a, e) ↦ rw (◌>>=◌, e) (k a (m d).0 ∙ h d)
  | inr (x, e) ↦ rw (◌>>=◌, e) (h d)
]

pub when-KeepsMailbox :
    (b : Bool) (m : Action (Unit {0})) → KeepsMailbox m → KeepsMailbox (when b m)
unfolding when KeepsMailbox
when-KeepsMailbox true m h d = h d
when-KeepsMailbox false m h d = refl

pub catch-KeepsMailbox :
    {A : Type 0} (m : Action A) (handler : Error → Action A)
    → KeepsMailbox m
    → ((x : Error) → KeepsMailbox (handler x))
    → KeepsMailbox (catch m handler)
unfolding catch KeepsMailbox
catch-KeepsMailbox m handler h k d = elim (Result-cases (m d).1) [
  | inl (a, e) ↦ rw (catch, e) (h d)
  | inr (x, e) ↦ rw (catch, e) (k x (m d).0 ∙ h d)
]

pub if-KeepsMailbox :
    {A : Type 0} (b : Bool) (m n : Action A)
    → KeepsMailbox m
    → KeepsMailbox n
    → KeepsMailbox (if b then m else n)
if-KeepsMailbox true m n h k = h
if-KeepsMailbox false m n h k = k

pub with_apdu-KeepsMailbox :
    {A : Type 0} (create : Apdu → Result (Apdu × A)) → KeepsMailbox (with_apdu create)
unfolding with_apdu KeepsMailbox
with_apdu-KeepsMailbox create d = elim (Result-cases (create d.apdu)) [
  | inl (ar, e) ↦ rw (with_apdu, e) refl
  | inr (x, e) ↦ rw (with_apdu, e) refl
]

pub ruleset keeps = (
  bind-KeepsMailbox, catch-KeepsMailbox, when-KeepsMailbox, if-KeepsMailbox, reads-KeepsMailbox,
  with_apdu-KeepsMailbox,
)

pub failure_process-KeepsMailbox : (status : ℕ) → KeepsMailbox (failure_process status)
unfolding failure_process send_error KeepsMailbox
failure_process-KeepsMailbox status = search keeps
