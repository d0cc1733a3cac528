-- ===== src/Device/Bounds/Change.antt =====
-- The sets and writes of an accepted command keep an atomic session inside the mailbox.
use aliro_actuator.Common.{
  ◌≡◌, refl, ◌∙◌, sym, subst, List, [], ◌∷◌, ◌++◌, append_assoc, All, All-append, some, Bool, true,
  false, ◌⊎◌, inl, inr, length, Bytes, ok, Bool-cases, Result,
}
use aliro_actuator.Mailbox.{Mailbox}
use aliro_actuator.Mailbox.Session.{
  MailboxSession, Command, Fits, execute_all, execute_all_ok, execute_all-write_permission,
  execute_commands, init, start, stop, is_started,
}
use aliro_actuator.Apdu.Parse.Exchange.{MailboxFields}
use aliro_actuator.Device.Session.{UserSession}
use aliro_actuator.Device.Exchange.Requests.{
  accepted, check_requests, change, add_all, finish, at_once,
}
use aliro_actuator.Device.Bounds.{AreRequests, InBounds}
use aliro_actuator.Device.Bounds.Accepted.{
  commands_of, commands_of-Fits, add_sets_lem, add_writes_lem,
}

-- The commands stand inside the mailbox, which may be written if there are any.
abbrev Ready : Mailbox → List Command → Type 0
Ready m cs = All (Fits (length m.content)) cs × ((cs ≡ []) ⊎ (m.write_permission ≡ true))

Ready-append : (m : Mailbox) (cs ds : List Command) → Ready m cs → Ready m ds → Ready m (cs ++ ds)
Ready-append m cs ds (h, inr allowed) (k, _) = (All-append _ cs ds h k, inr allowed)
Ready-append m cs ds (h, inl _) (k, inr allowed) = (All-append _ cs ds h k, inr allowed)
Ready-append m cs ds (h, inl e) (k, inl e') = (All-append _ cs ds h k, inl (rw (e, e') refl))

run_lem :
    (cs : List Command) (m : Mailbox)
    → Ready m cs
    → ((execute_all cs m).1 ≡ ok tt)
      × (length (execute_all cs m).0.content ≡ length m.content)
      × (m.write_permission ≡ true → (execute_all cs m).0.write_permission ≡ true)
unfolding execute_all
run_lem [] m h = (refl, refl, λ allowed. allowed)
run_lem (c ∷ cs) m (h, inl e) = cc
run_lem (c ∷ cs) m (h, inr allowed) =
    let (done, size) = execute_all_ok (c ∷ cs) m allowed h in
    (done, size, λ _. execute_all-write_permission (c ∷ cs) m allowed h)

add_all_lem :
    (sets writes : List Bytes) (s : MailboxSession)
    → add_all sets writes s ≡ ok (record s { commands = s.commands ++ commands_of sets writes })
add_all_lem sets writes s =
    rw (add_sets_lem sets s) (add_writes_lem writes _ ∙ rw (append_assoc s.commands _ _) refl)

-- What a run of ready commands leaves, and a session that is kept beside it.
abbrev Kept : MailboxSession → Mailbox → MailboxSession × Mailbox × Result (Unit {0}) → Type 0
Kept s m r = (r.2 ≡ ok tt) × InBounds (some r.1, r.0) × (length r.1.content ≡ length m.content)

Kept-eq :
    (kept : MailboxSession) (m : Mailbox) {r r' : MailboxSession × Mailbox × Result (Unit {0})}
    → r ≡ r'
    → Kept kept m r'
    → Kept kept m r
Kept-eq kept m e h = subst (λ x. Kept kept m x) (sym e) h

pub finish_lem :
    (s : MailboxSession) (m : Mailbox)
    → (execute_commands s m).1 ≡ ok tt
    → finish s m ≡ (stop s, (execute_commands s m).0, ok tt)
finish_lem s m e = rw (finish, e) refl

finish-Kept :
    (kept s : MailboxSession) (m : Mailbox) → Ready m s.commands → Kept kept m (finish s m)
unfolding execute_commands stop
finish-Kept kept s m h =
    let (done, same, _) = run_lem s.commands m h in
    Kept-eq kept m (finish_lem s m done) (refl, (tt, inl refl), same)

at_once-Kept :
    (kept s : MailboxSession) (m : Mailbox)
    → Ready m s.commands
    → InBounds (some m, kept)
    → Kept kept m (at_once kept s m)
unfolding execute_commands
at_once-Kept kept s m h (old, writable) =
    let (done, same, allowed) = run_lem s.commands m h in
    (
      done,
      (
        subst (λ n. All (Fits n) kept.commands) (sym same) old,
        elim writable [ inl e ↦ inl e | inr w ↦ inr (allowed w) ],
      ),
      same,
    )

unfoldable pub with_commands : MailboxSession → MailboxFields → MailboxSession
with_commands s f = record s {
  commands = s.commands ++ commands_of f.set_requests f.write_requests;
}

pub change-start :
    (f : MailboxFields) (kept : MailboxSession) (m : Mailbox)
    → change true f.set_requests f.write_requests kept m ≡ (with_commands (start kept) f, m, ok tt)
unfolding change with_commands
change-start f kept m = rw (add_all_lem f.set_requests f.write_requests (start kept)) refl

pub change-finish :
    (f : MailboxFields) (kept : MailboxSession) (m : Mailbox)
    → is_started kept ≡ true
    → change false f.set_requests f.write_requests kept m ≡ finish (with_commands kept f) m
unfolding change with_commands
change-finish f kept m e = rw (e, add_all_lem f.set_requests f.write_requests kept) refl

change-at_once :
    (f : MailboxFields) (kept : MailboxSession) (m : Mailbox)
    → is_started kept ≡ false
    → change false f.set_requests f.write_requests kept m ≡ at_once kept (with_commands init f) m
unfolding change with_commands
change-at_once f kept m e = rw (e, add_all_lem f.set_requests f.write_requests init) refl

-- The sets and writes of a command that passes the check of its requests, atomic or not, are kept or carried out without an exception: the mailbox keeps its size, and the commands that the session keeps still stand inside it. Required is that the write requests have at least two bytes and the set requests a value, and that the commands kept before stand inside the mailbox. The notification and the response of the command are not part of it.
pub change-InBounds :
    (atomic : Bool) (f : MailboxFields) (s : UserSession) (m : Mailbox) (kept : MailboxSession)
    → AreRequests f
    → check_requests f s (some m) ≡ accepted
    → InBounds (some m, kept)
    → ((change atomic f.set_requests f.write_requests kept m).2 ≡ ok tt)
      × InBounds (
        some (change atomic f.set_requests f.write_requests kept m).1,
        (change atomic f.set_requests f.write_requests kept m).0,
      )
      × (length (change atomic f.set_requests f.write_requests kept m).1.content ≡ length m.content)
unfolding with_commands start init
change-InBounds true f s m kept requests h inside =
    Kept-eq kept m (change-start f kept m)
      (refl, Ready-append m kept.commands _ inside (commands_of-Fits f s m requests h), refl)
change-InBounds false f s m kept requests h inside =
    let ready = commands_of-Fits f s m requests h in
    elim (Bool-cases (is_started kept)) [
      | inl e ↦
          Kept-eq kept m (change-finish f kept m e) (
            finish-Kept kept (with_commands kept f) m (Ready-append m kept.commands _ inside ready))
      | inr e ↦
          Kept-eq kept m (change-at_once f kept m e)
            (at_once-Kept kept (with_commands init f) m ready inside)
    ]
