-- ===== src/Device/Bounds.antt =====
-- The atomic sessions of the user device of access_protocol/user_device.py and the boundaries of its
-- mailbox.
pub mod Accepted
pub mod Change
pub mod Atomic
pub mod Reach
use aliro_actuator.Common.{
  ℕ, ◌≡◌, ◌≢◌, ◌≤◌, ◌<◌, refl, List, [], ◌∷◌, Option, none, some, Bool, true, ◌⊎◌, length,
  get_elem?, All, Bytes,
}
use aliro_actuator.Mailbox.{Mailbox}
use aliro_actuator.Mailbox.Session.{MailboxSession, Command, Fits}
use aliro_actuator.Apdu.Parse.Exchange.{ExchangeFields, MailboxFields}

-- a write request with its offset, and a set request with its value
abbrev pub IsWriteRequest : Bytes → Type 0
IsWriteRequest b = 2 ≤ length b

abbrev pub IsSetRequest : Bytes → Type 0
IsSetRequest b = (value : ℕ) × (get_elem? b 4 ≡ some value) × (value < 256)

abbrev pub AreRequests : MailboxFields → Type 0
AreRequests f = All IsWriteRequest f.write_requests × All IsSetRequest f.set_requests

-- The commands that a mailbox session keeps stand inside the mailbox, which may be written if there are any.
abbrev pub InBounds : Option Mailbox × MailboxSession → Type 0
InBounds (none, s) = Unit
InBounds (some m, s) =
    All (Fits (length m.content)) s.commands × ((s.commands ≡ []) ⊎ (m.write_permission ≡ true))

abbrev pub size : Option Mailbox → ℕ
size none = 0
size (some m) = length m.content
