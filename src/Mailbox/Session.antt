-- ===== src/Mailbox/Session.antt =====
-- The class `MailboxSession` of access_protocol/user_device.py: an atomic session of mailbox
-- commands, which are kept and carried out at its end.
use aliro_actuator.Common.{
  ℕ, ◌+◌, ◌≡◌, ◌∙◌, refl, sym, subst, ◌≤◌, le→leb, List, [], ◌∷◌, ◌++◌, Option, none, some, Bool,
  true, false, get_elem?, take, drop, slice, length, from_bytes_big, Bytes, Result, ok, err,
  or_raise, index_error, access_protocol_error, ◌>>=◌, arith, ◌<◌, All, length-replicate, replicate,
}
use aliro_actuator.Mailbox.{Mailbox, write, set, check_boundaries}
use aliro_actuator.Mailbox.Laws.{write_lem, set-write, write_ok}

-- `MailboxSession.Command` with its data
pub data Command : Type 0 where
  set_command write_command : Bytes → Command

pub record MailboxSession : Type 0 where
  pub commands : List Command
  pub started : Bool

unfoldable pub init : MailboxSession
init = record { commands = []; started = false }

unfoldable pub start : MailboxSession → MailboxSession
start s = record s { started = true }

unfoldable pub stop : MailboxSession → MailboxSession
stop s = record { commands = []; started = false }

unfoldable pub is_started : MailboxSession → Bool
is_started s = s.started

unfoldable pub add_write : Option Bytes → MailboxSession → Result MailboxSession
add_write none s = err access_protocol_error
add_write (some b) s = ok (record s { commands = s.commands ++ write_command b ∷ [] })

unfoldable pub add_set : Option Bytes → MailboxSession → Result MailboxSession
add_set none s = err access_protocol_error
add_set (some b) s = ok (record s { commands = s.commands ++ set_command b ∷ [] })

abbrev pub offset_of : Bytes → ℕ
offset_of b = from_bytes_big (take 2 b)

abbrev pub size_of : Bytes → ℕ
size_of b = from_bytes_big (slice 2 4 b)

abbrev execute : Command → Mailbox → Result Mailbox
execute (write_command b) m = write (offset_of b) (drop 2 b) m
execute (set_command b) m = do
  value ← or_raise index_error (get_elem? b 4)
  set (offset_of b) (size_of b) value m

-- An exception leaves the mailbox as the commands before made it.
unfoldable pub execute_all : List Command → Mailbox → Mailbox × Result (Unit {0})
execute_all [] m = (m, ok tt)
execute_all (c ∷ cs) m = elim (execute c m) [ ok m' ↦ execute_all cs m' | err x ↦ (m, err x) ]

unfoldable pub execute_commands : MailboxSession → Mailbox → Mailbox × Result (Unit {0})
execute_commands s m = execute_all s.commands m

-- The block of a command stands inside `n` bytes, and a set command has its value.
abbrev pub Fits : ℕ → Command → Type 0
Fits n (write_command b) = offset_of b + length (drop 2 b) ≤ n
Fits n (set_command b) =
    (value : ℕ) × (get_elem? b 4 ≡ some value) × (value < 256) × (offset_of b + size_of b ≤ n)

write-after :
    (offset : ℕ) (new : Bytes) (m : Mailbox)
    → m.write_permission ≡ true
    → offset + length new ≤ length m.content
    → (m' : Mailbox) × (write offset new m ≡ ok m')
      × (length m'.content ≡ length m.content)
      × (m'.write_permission ≡ true)
unfolding check_boundaries
write-after offset new m allowed inside =
    let e = write_ok offset new m allowed in
    let h : check_boundaries offset (length new) m ≡ true =
      le→leb (offset + length new) (length m.content) inside in
    (_, e, (write_lem offset new m h e).0, allowed)

execute-after :
    (c : Command) (m : Mailbox)
    → m.write_permission ≡ true
    → Fits (length m.content) c
    → (m' : Mailbox) × (execute c m ≡ ok m')
      × (length m'.content ≡ length m.content)
      × (m'.write_permission ≡ true)
execute-after (write_command b) m allowed h = write-after (offset_of b) (drop 2 b) m allowed h
execute-after (set_command b) m allowed (value, v, small, inside) =
    let (m', e, n, w) =
      write-after (offset_of b) (replicate (size_of b) value) m allowed
        (omega (arith, inside, length-replicate (size_of b) value)) in
    (m', rw v (set-write (offset_of b) (size_of b) value m small ∙ e), n, w)

execute_all-step :
    (c : Command) (cs : List Command) (m : Mailbox) {m' : Mailbox}
    → execute c m ≡ ok m'
    → execute_all (c ∷ cs) m ≡ execute_all cs m'
unfolding execute_all
execute_all-step c cs m e = rw (execute_all, e) refl

pub execute_all_ok :
    (cs : List Command) (m : Mailbox)
    → m.write_permission ≡ true
    → All (Fits (length m.content)) cs
    → ((execute_all cs m).1 ≡ ok tt) × (length (execute_all cs m).0.content ≡ length m.content)
unfolding execute_all
execute_all_ok [] m allowed h = (refl, refl)
execute_all_ok (c ∷ cs) m allowed (h, hs) =
    let (m', e, n, w) = execute-after c m allowed h in
    let (done, size) = execute_all_ok cs m' w (subst (λ k. All (Fits k) cs) (sym n) hs) in
    rw (execute_all-step c cs m e) (done, size ∙ n)

-- A session whose commands all stand inside the mailbox, on a mailbox that may be written, is carried
-- out to its end without an exception, and the mailbox keeps its size.
pub execute_commands_ok :
    (s : MailboxSession) (m : Mailbox)
    → m.write_permission ≡ true
    → All (Fits (length m.content)) s.commands
    → ((execute_commands s m).1 ≡ ok tt)
      × (length (execute_commands s m).0.content ≡ length m.content)
unfolding execute_commands
execute_commands_ok s m allowed h = execute_all_ok s.commands m allowed h

-- Commands that stand inside leave the permission to write.
pub execute_all-write_permission :
    (cs : List Command) (m : Mailbox)
    → m.write_permission ≡ true
    → All (Fits (length m.content)) cs
    → (execute_all cs m).0.write_permission ≡ true
unfolding execute_all
execute_all-write_permission [] m allowed h = allowed
execute_all-write_permission (c ∷ cs) m allowed (h, hs) =
    let (m', e, n, w) = execute-after c m allowed h in
    rw (execute_all-step c cs m e)
      (execute_all-write_permission cs m' w (subst (λ k. All (Fits k) cs) (sym n) hs))
