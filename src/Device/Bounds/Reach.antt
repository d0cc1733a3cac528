-- ===== src/Device/Bounds/Reach.antt =====
-- The atomic sessions of the user device over any sequence of its operations.
use aliro_actuator.Common.{◌≡◌, refl, ◌∙◌, sym, ℕ, Option, none, some, Bool, subst}
use aliro_actuator.Mailbox.{Mailbox}
use aliro_actuator.Mailbox.Session.{MailboxSession}
use aliro_actuator.Apdu.Parse.{ParsedCommand}
use aliro_actuator.Apdu.Parse.Exchange.{ExchangeFields}
use aliro_actuator.Device.{UserDevice, Environment, start_new_session, transaction_termination}
use aliro_actuator.Device.Send.{failure_process}
use aliro_actuator.Device.Receive.{wait_for_message}
use aliro_actuator.Device.Transaction.{command_step}
use aliro_actuator.Device.Frame.{KeepsMailbox, mailboxes, failure_process-KeepsMailbox}
use aliro_actuator.Device.Frame.Exchange.{Served}
use aliro_actuator.Device.Frame.Receive.{wait_for_message-KeepsMailbox}
use aliro_actuator.Device.Frame.Commands.{
  Outcome, untouched, served, exchange_of, command_step-Outcome,
}
use aliro_actuator.Device.Bounds.{AreRequests, InBounds, size}
use aliro_actuator.Device.Bounds.Change.{change-InBounds}

abbrev pub WithRequests : Option ExchangeFields → Type 0
WithRequests none = Unit
WithRequests (some fields) = AreRequests fields.mailbox_fields

-- The operations of the transaction loops, in any order and on any messages.
pub data Step (env : Environment) : UserDevice → UserDevice → Type 0 where
  session : (d : UserDevice) → Step env d (start_new_session env.crypto d)
  receive : (d : UserDevice) → Step env d (wait_for_message env d).0
  command :
      (d : UserDevice) (terminate_at_end : Bool) (p : ParsedCommand)
      → WithRequests (exchange_of p)
      → Step env d (command_step env terminate_at_end p d).0
  failure : (d : UserDevice) (status : ℕ) → Step env d (failure_process status d).0
  termination : (d : UserDevice) → Step env d (transaction_termination d)

pub data Reach (env : Environment) (start : UserDevice) : UserDevice → Type 0 where
  here : Reach env start start
  next : {d d' : UserDevice} → Reach env start d → Step env d d' → Reach env start d'

-- The kept commands stand inside a mailbox of the size.
abbrev pub Steady : ℕ → Option Mailbox × MailboxSession → Type 0
Steady n b = InBounds b × (size b.0 ≡ n)

Served-Steady :
    (n : ℕ) (fields : ExchangeFields) (b a : Option Mailbox × MailboxSession)
    → AreRequests fields.mailbox_fields
    → Served fields b a
    → Steady n b
    → Steady n a
Served-Steady n fields (mailbox, kept) a requests answer (inside, same) =
    let inside' : InBounds (some answer.mailbox, kept) =
      subst (λ m. InBounds (m, kept)) answer.present inside in
    let same' : size (some answer.mailbox) ≡ n = subst (λ m. size m ≡ n) answer.present same in
    let (_, kept', size') =
      change-InBounds answer.atomic fields.mailbox_fields answer.session answer.mailbox kept
        requests answer.allowed inside' in
    subst (λ x. Steady n x) (sym answer.result) (kept', size' ∙ same')

Step-Steady :
    (env : Environment) (n : ℕ) {d d' : UserDevice}
    → Step env d d'
    → Steady n (mailboxes d)
    → Steady n (mailboxes d')
unfolding KeepsMailbox
Step-Steady env n (session d) h = h
Step-Steady env n (receive d) h =
    subst (λ x. Steady n x) (sym (wait_for_message-KeepsMailbox env d)) h
Step-Steady env n (command d terminate p requests) h =
    from_outcome (exchange_of p) (command_step-Outcome env terminate p d) requests
  where
    from_outcome :
        (given : Option ExchangeFields) {d' : UserDevice}
        → Outcome given d d'
        → WithRequests given
        → Steady n (mailboxes d')
    from_outcome given (untouched same) requests' = subst (λ x. Steady n x) (sym same) h
    from_outcome given {d'} (served fields s e g found state engine counters answer) requests' =
        Served-Steady n fields (mailboxes d) (mailboxes d') (subst WithRequests g requests') answer
          h
Step-Steady env n (failure d status) h =
    subst (λ x. Steady n x) (sym (failure_process-KeepsMailbox status d)) h
Step-Steady env n (termination d) h = h

-- Whatever happens to a device, in any order, as long as its write requests have at least two bytes
-- and its set requests a value: the commands that it keeps for an atomic session stand inside its
-- mailbox, which may be written if there are any, and the mailbox keeps its size.
pub Reach-InBounds :
    (env : Environment) (start d : UserDevice)
    → Reach env start d
    → InBounds (mailboxes start)
    → InBounds (mailboxes d) × (size d.mailbox ≡ size start.mailbox)
Reach-InBounds env start d here h = (h, refl)
Reach-InBounds env start d (next r step) h =
    Step-Steady env (size start.mailbox) step (Reach-InBounds env start _ r h)
