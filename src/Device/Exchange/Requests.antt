-- ===== src/Device/Exchange/Requests.antt =====
-- The requests of an EXCHANGE command, in `handle_exchange` of access_protocol/user_device.py: the
-- checks, the notifications, the reads, and the sets and writes.
use aliro_actuator.Common.{
  ℕ, ◌+◌, List, [], ◌∷◌, ◌++◌, Option, none, some, Bool, true, false, not, ◌==◌, ◌&&◌, ◌||◌, ltb,
  leb, if◌then◌else◌, length, take, slice, bit_and, to_bytes_big, from_bytes_big, Bytes, Result, ok,
  err, access_protocol_error, ◌>>=◌, ◌>>◌,
}
use aliro_actuator.Tlv.{Tlv, BerTlv, from_bytes, to_tlv_list, to_tag, get_all_bytes_of_tag}
use aliro_actuator.Mailbox.{Mailbox, read, check_boundaries}
use aliro_actuator.Mailbox.Session.{MailboxSession, add_set, add_write, execute_commands}
use aliro_actuator.Mailbox.Session as Session
use aliro_actuator.Apdu.Parse.Exchange.{MailboxFields}
use aliro_actuator.Device.Session.{UserSession, envelope_done, state_valid}

-- accepted, refused, or refused with an error response
pub data Verdict : Type 0 where
  accepted refused out_of_boundaries : Verdict

abbrev pub request_offset : Bytes → ℕ
request_offset b = from_bytes_big (take 2 b)

abbrev pub request_size : Bytes → ℕ
request_size b = from_bytes_big (slice 2 4 b)

-- the block of a read or a set request
unfoldable pub fits_block : Mailbox → Bytes → Bool
fits_block m b = check_boundaries (request_offset b) (request_size b) m

-- `check_boundaries(offset, len(write) - 2)`, where the size may be negative
unfoldable pub fits_write : Mailbox → Bytes → Bool
fits_write m b = leb (request_offset b + length b) (length m.content + 2)

abbrev pub all_fit : (Bytes → Bool) → List Bytes → Bool
all_fit f [] = true
all_fit f (b ∷ bs) = if f b then all_fit f bs else false

abbrev pub any_request : List Bytes → Bool
any_request [] = false
any_request (b ∷ bs) = true

abbrev pub needs_mailbox : MailboxFields → Bool
needs_mailbox f =
    any_request f.read_requests || (any_request f.write_requests || any_request f.set_requests)

abbrev pub boundaries : MailboxFields → Mailbox → Verdict
boundaries f m =
    if all_fit (fits_block m) f.read_requests
      && (all_fit (fits_write m) f.write_requests && all_fit (fits_block m) f.set_requests)
    then accepted
    else out_of_boundaries

-- the permissions, and then the boundaries
abbrev pub check_mailbox : MailboxFields → UserSession → Mailbox → Verdict
check_mailbox f s m =
    if state_valid (envelope_done ∷ []) s && not m.step_up_permission
    then refused
    else if any_request f.read_requests && not m.read_permission
    then refused
    else if (any_request f.write_requests || any_request f.set_requests) && not m.write_permission
    then refused
    else boundaries f m

unfoldable pub check_requests : MailboxFields → UserSession → Option Mailbox → Verdict
check_requests f s mailbox =
    if needs_mailbox f
    then elim mailbox [ none ↦ out_of_boundaries | some m ↦ check_mailbox f s m ]
    else accepted

-- a notification for a bound application, or for the backend of the credential issuer
pub check_backend_tag : ℕ → Result (Unit {0})
check_backend_tag tag =
    if bit_and tag 0xffe0 == 0x9f20
    then ok tt
    else if bit_and tag 0xffe0 == 0x9f40
    then (if ltb (bit_and tag 0x0007) 5 then ok tt else err access_protocol_error)
    else err access_protocol_error

pub check_notification : Tlv → Result (Unit {0})
check_notification d =
    if to_tag d == 0x82 || to_tag d == 0xb5
    then get_all_bytes_of_tag d (to_tag d) >> ok tt
    else if bit_and (to_tag d) 0xff00 == 0x9f00
    then check_backend_tag (to_tag d)
    else err access_protocol_error

pub check_notifications : List Tlv → Result (Unit {0})
check_notifications [] = ok tt
check_notifications (d ∷ ds) = check_notification d >> check_notifications ds

pub check_notify : BerTlv → Option Bytes → Result (Unit {0})
check_notify ber none = ok tt
check_notify ber (some notify) = do
  d ← from_bytes ber notify (some false)
  check_notifications (to_tlv_list d)

pub read_all : List Bytes → Mailbox → Result (List Bytes)
read_all [] m = ok []
read_all (b ∷ bs) m = do
  found ← read (request_offset b) (request_size b) m
  rest ← read_all bs m
  ok (found ∷ rest)

unfoldable pub add_sets : List Bytes → MailboxSession → Result MailboxSession
add_sets [] s = ok s
add_sets (b ∷ bs) s = add_set (some b) s >>= λ s'. add_sets bs s'

unfoldable pub add_writes : List Bytes → MailboxSession → Result MailboxSession
add_writes [] s = ok s
add_writes (b ∷ bs) s = add_write (some b) s >>= λ s'. add_writes bs s'

abbrev pub add_all : List Bytes → List Bytes → MailboxSession → Result MailboxSession
add_all sets writes s = add_sets sets s >>= λ s'. add_writes writes s'

-- The commands of a session are carried out, and the session is stopped; after an exception it is not.
abbrev pub finish : MailboxSession → Mailbox → MailboxSession × Mailbox × Result (Unit {0})
finish s m =
    let (m', outcome) = execute_commands s m in
    elim outcome [ ok u ↦ (Session.stop s, m', ok tt) | err x ↦ (s, m', err x) ]

-- on their own, in a new session that the device does not keep
abbrev pub at_once :
    MailboxSession → MailboxSession → Mailbox → MailboxSession × Mailbox × Result (Unit {0})
at_once kept s m = let (m', outcome) = execute_commands s m in (kept, m', outcome)

abbrev pub added :
    MailboxSession
    → Mailbox
    → Result MailboxSession
    → (MailboxSession → MailboxSession × Mailbox × Result (Unit {0}))
    → MailboxSession × Mailbox × Result (Unit {0})
added kept m (err x) f = (kept, m, err x)
added kept m (ok s) f = f s

-- The new session and mailbox of the device. An atomic command starts a session; in a started session
-- the commands are kept, up to one that is not atomic.
unfoldable pub change :
    Bool
    → List Bytes
    → List Bytes
    → MailboxSession
    → Mailbox
    → MailboxSession × Mailbox × Result (Unit {0})
change true sets writes s m =
    added (Session.start s) m (add_all sets writes (Session.start s)) (λ s'. (s', m, ok tt))
change false sets writes s m =
    if Session.is_started s
    then added s m (add_all sets writes s) (λ s'. finish s' m)
    else added s m (add_all sets writes Session.init) (λ s'. at_once s s' m)

-- the length and the bytes of each block, and the status
unfoldable pub read_payload : List Bytes → Result Bytes
read_payload [] = ok (0x00 ∷ 0x02 ∷ 0x00 ∷ 0x00 ∷ [])
read_payload (b ∷ bs) = do
  size ← to_bytes_big 2 (length b)
  rest ← read_payload bs
  ok (size ++ (b ++ rest))
