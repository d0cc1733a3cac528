-- ===== src/Device/Bounds/Atomic.antt =====
-- An atomic session of the user device of access_protocol/user_device.py as one run of its commands.
use aliro_actuator.Common.{
  ◌≡◌, refl, ◌∙◌, sym, subst, List, [], ◌∷◌, ◌++◌, append_assoc, append-nil, true, false, ok,
  Result-cases, inl, inr,
}
use aliro_actuator.Mailbox.{Mailbox}
use aliro_actuator.Mailbox.Session.{
  MailboxSession, Command, execute_all, execute_commands, init, start, stop, is_started,
}
use aliro_actuator.Apdu.Parse.Exchange.{MailboxFields}
use aliro_actuator.Device.Exchange.Requests.{change, finish}
use aliro_actuator.Device.Bounds.Accepted.{commands_of}
use aliro_actuator.Device.Bounds.Change.{with_commands, change-start, change-finish}

-- the session and the mailbox after atomic commands, one after the other
pub atomic_commands : List MailboxFields → MailboxSession → Mailbox → MailboxSession × Mailbox
atomic_commands [] s m = (s, m)
atomic_commands (f ∷ fs) s m =
    let (s', m', outcome) = change true f.set_requests f.write_requests s m in
    atomic_commands fs s' m'

-- all their commands, in order
abbrev pub all_commands : List MailboxFields → List Command
all_commands [] = []
all_commands (f ∷ fs) = commands_of f.set_requests f.write_requests ++ all_commands fs

abbrev started_with : List Command → MailboxSession
started_with cs = record { commands = cs; started = true }

atomic_commands_lem :
    (fs : List MailboxFields) (cs : List Command) (m : Mailbox)
    → atomic_commands fs (started_with cs) m ≡ (started_with (cs ++ all_commands fs), m)
unfolding atomic_commands with_commands start
atomic_commands_lem [] cs m = rw (append-nil cs) refl
atomic_commands_lem (f ∷ fs) cs m = rw (change-start f (started_with cs) m) (
    atomic_commands_lem fs (cs ++ commands_of f.set_requests f.write_requests) m
    ∙ rw (append_assoc cs (commands_of f.set_requests f.write_requests) (all_commands fs)) refl)

finish-run :
    (s : MailboxSession) (m : Mailbox)
    → ((finish s m).1 ≡ (execute_commands s m).0)
      × ((finish s m).2 ≡ (execute_commands s m).1)
      × ((execute_commands s m).1 ≡ ok tt → (finish s m).0 ≡ stop s)
finish-run s m = elim (Result-cases (execute_commands s m).1) [
  | inl (u, e) ↦ rw (finish, e) (refl, refl, λ _. refl)
  | inr (x, e) ↦ rw (finish, e) (refl, refl, λ h. cc)
]

-- what a last command that is not atomic does to a session with the commands `cs`
abbrev Ends : List Command → MailboxFields → Mailbox → MailboxSession × Mailbox → Type 0
Ends cs last m before =
    let after = change false last.set_requests last.write_requests before.0 before.1 in
    let run = execute_all (cs ++ commands_of last.set_requests last.write_requests) m in
    (before.1 ≡ m) × (after.1 ≡ run.0) × (after.2 ≡ run.1) × (run.1 ≡ ok tt → after.0 ≡ init)

started_with-Ends :
    (cs : List Command) (last : MailboxFields) (m : Mailbox) → Ends cs last m (started_with cs, m)
unfolding execute_commands with_commands is_started stop init
started_with-Ends cs last m =
    let (mailbox, outcome, over) = finish-run (with_commands (started_with cs) last) m in
    rw (change-finish last (started_with cs) m refl) (refl, mailbox, outcome, over)

first-atomic_commands :
    (first : MailboxFields) (fs : List MailboxFields) (m : Mailbox)
    → atomic_commands (first ∷ fs) init m ≡ (started_with (all_commands (first ∷ fs)), m)
unfolding atomic_commands with_commands start init
first-atomic_commands first fs m =
    rw (change-start first init m)
      (atomic_commands_lem fs (commands_of first.set_requests first.write_requests) m)

-- The mailbox is untouched by atomic commands, from the first on, and a last command that is not atomic carries out the requests of all of them as one run: command after command in the order in which these came, the last one at the end, and of each command first its sets and then its writes. Where the run raises no exception, the session is over.
pub change-atomic_commands :
    (first : MailboxFields) (fs : List MailboxFields) (last : MailboxFields) (m : Mailbox)
    → let before = atomic_commands (first ∷ fs) init m in
      let after = change false last.set_requests last.write_requests before.0 before.1 in
      let run =
        execute_all
          (all_commands (first ∷ fs) ++ commands_of last.set_requests last.write_requests)
          m in
      (before.1 ≡ m) × (after.1 ≡ run.0) × (after.2 ≡ run.1) × (run.1 ≡ ok tt → after.0 ≡ init)
change-atomic_commands first fs last m =
    subst (Ends (all_commands (first ∷ fs)) last m) (sym (first-atomic_commands first fs m))
      (started_with-Ends (all_commands (first ∷ fs)) last m)
