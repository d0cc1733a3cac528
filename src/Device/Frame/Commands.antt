-- ===== src/Device/Frame/Commands.antt =====
-- What a command does to the mailbox of the user device of access_protocol/user_device.py.
use aliro_actuator.Common.{
  ℕ, ◌≡◌, refl, ◌∙◌, sym, subst, Error, ok, or_raise, not, Option, none, some, Result, Bool, true,
  false, if◌then◌else◌, Result-cases, inl, inr,
}
use aliro_actuator.Encryption.{EncryptionEngine, check_counters_valid}
use aliro_actuator.Apdu.Parse.{
  ControlFlowFields, ParsedCommand, exchange, select, auth0, auth1, load_cert, control_flow,
  envelope, get_response,
}
use aliro_actuator.Apdu.Parse.Exchange.{ExchangeFields}
use aliro_actuator.Device.{UserDevice, Environment, Action, ◌>>=◌, ◌>>◌, when, catch, set_session}
use aliro_actuator.Device.Session.{UserSession, state_valid, update_state}
use aliro_actuator.Device.Send.{Phase, engine_of, failure_process, status_invalid_instruction}
use aliro_actuator.Device.Authentication.{fail_with}
use aliro_actuator.Device.Exchange.{
  handle_exchange, exchange_with, take_fields, exchange_states, phase_of, next_state,
}
use aliro_actuator.Device.Transaction.{handle_command, take_command, command_step, on_error}
use aliro_actuator.Device.Frame.{
  KeepsMailbox, mailboxes, keeps, failure_process-KeepsMailbox, reads-KeepsMailbox,
  bind-KeepsMailbox,
}
use aliro_actuator.Device.Frame.Handlers.{
  fail_with-KeepsMailbox, handle_select-KeepsMailbox, handle_auth0-KeepsMailbox,
}
use aliro_actuator.Device.Frame.Standard.{
  handle_load_cert-KeepsMailbox, handle_auth1-KeepsMailbox, handle_control_flow-KeepsMailbox,
  handle_envelope-KeepsMailbox,
}
use aliro_actuator.Device.Frame.Exchange.{
  Serves, Served, Raises, bind-Raises, bind-KeepsMailbox_raise, bind-Serves, serve_requests-Serves,
  take_reader_status-KeepsMailbox, take_ursk-KeepsMailbox, bind-eq-ok, bind-eq-err,
}

set_session-KeepsMailbox : (s : UserSession) → KeepsMailbox (set_session s)
unfolding KeepsMailbox
set_session-KeepsMailbox s d = refl

take_fields-Serves :
    (env : Environment) (phase : Phase) (e : EncryptionEngine) (s : UserSession)
    (fields : ExchangeFields) (d : UserDevice)
    → Serves fields d (take_fields env phase e s fields d)
unfolding take_fields
take_fields-Serves env phase e s fields =
    bind-Serves fields _ _ (take_reader_status-KeepsMailbox _ _) (λ s1.
      bind-Serves fields _ _ (take_ursk-KeepsMailbox _ _)
        (λ s2. serve_requests-Serves env phase e fields s2))

-- The mailbox and its session are as before, or the command was an EXCHANGE with an engine, in a state
-- that allows it, and they are what its requests make of them.
pub data Outcome (given : Option ExchangeFields) (d d' : UserDevice) : Type 0 where
  untouched : mailboxes d' ≡ mailboxes d → Outcome given d d'
  served :
      (fields : ExchangeFields) (s : UserSession) (e : EncryptionEngine)
      → given ≡ some fields
      → d.session ≡ some s
      → state_valid exchange_states s ≡ true
      → engine_of (phase_of s) s ≡ some e
      → check_counters_valid e ≡ true
      → Served fields (mailboxes d) (mailboxes d')
      → Outcome given d d'

bind-Outcome :
    {A B : Type 0} (given : Option ExchangeFields) (g : UserDevice → Result A) (f : A → Action B)
    (d : UserDevice)
    → ((a : A) → g d ≡ ok a → Outcome given d (f a d).0)
    → Outcome given d (((λ (d' : UserDevice). (d', g d')) >>= f) d).0
bind-Outcome given g f d h = elim (Result-cases (g d)) [
  | inl (a, e) ↦ rw (bind-eq-ok (λ (d' : UserDevice). (d', g d')) f d e) (h a e)
  | inr (x, e) ↦ rw (bind-eq-err (λ (d' : UserDevice). (d', g d')) f d e) (untouched refl)
]

Keeps-Outcome :
    {A : Type 0} (given : Option ExchangeFields) (m : Action A) (d : UserDevice)
    → KeepsMailbox m
    → Outcome given d (m d).0
unfolding KeepsMailbox
Keeps-Outcome given m d h = untouched (h d)

or_raise-eq-ok : {A : Type 0} (x : Error) (o : Option A) {a : A} → or_raise x o ≡ ok a → o ≡ some a
or_raise-eq-ok x none h = cc
or_raise-eq-ok x (some a) h = cc

exchange_with-Outcome :
    (env : Environment) (given : Option ExchangeFields) (s : UserSession) (e : EncryptionEngine)
    (d : UserDevice)
    → d.session ≡ some s
    → state_valid exchange_states s ≡ true
    → engine_of (phase_of s) s ≡ some e
    → check_counters_valid e ≡ true
    → Outcome given d (exchange_with env (phase_of s) e given s d).0
unfolding exchange_with ◌>>=◌ Serves
exchange_with-Outcome env none s e d found state engine counters = untouched refl
exchange_with-Outcome env (some fields) s e d found state engine counters =
    elim (take_fields-Serves env (phase_of s) e (update_state (next_state s) s) fields
      (record d { session = some (update_state (next_state s) s) })) [
        | inl same ↦ untouched same
        | inr answer ↦ served fields s e refl found state engine counters answer
      ]

fail_with-Raises : (A : Type 0) (status : ℕ) (x : Error) → Raises (fail_with {A = A} status x)
unfolding fail_with
fail_with-Raises A status x = bind-Raises _ _ (failure_process status) x

-- Where a test fails, the rest is not reached.
after_test :
    (given : Option ExchangeFields) (wrong : Bool) (status : ℕ) (x : Error) (A : Type 0)
    (rest : Action A) (d : UserDevice)
    → (wrong ≡ false → Outcome given d (rest d).0)
    → Outcome given d ((when wrong (fail_with {A = Unit {0}} status x) >> rest) d).0
unfolding when
after_test given false status x A rest d h =
    bind-Outcome given (λ d'. ok tt) (λ _. rest) d (λ _ _. h refl)
after_test given true status x A rest d h =
    Keeps-Outcome given (fail_with {A = Unit {0}} status x >> rest) d (
      bind-KeepsMailbox_raise _ (λ _. rest) (fail_with-KeepsMailbox _ status x)
        (fail_with-Raises _ status x))

not-eq-false : (b : Bool) → not b ≡ false → b ≡ true
not-eq-false true h = refl
not-eq-false false h = cc

Outcome-after :
    {given : Option ExchangeFields} {d d' d'' : UserDevice}
    → Outcome given d d'
    → mailboxes d'' ≡ mailboxes d'
    → Outcome given d d''
Outcome-after (untouched same) h = untouched (h ∙ same)
Outcome-after {d = d} (served fields s e g found state engine counters answer) h =
    served fields s e g found state engine counters
      (subst (λ after. Served fields (mailboxes d) after) (sym h) answer)

then-Outcome :
    {A B : Type 0} (given : Option ExchangeFields) (m : Action A) (f : A → Action B)
    (d : UserDevice)
    → Outcome given d (m d).0
    → ((a : A) → KeepsMailbox (f a))
    → Outcome given d ((m >>= f) d).0
unfolding KeepsMailbox
then-Outcome given m f d h k = elim (Result-cases (m d).1) [
  | inl (a, e) ↦ rw (bind-eq-ok m f d e) (Outcome-after h (k a (m d).0))
  | inr (x, e) ↦ rw (bind-eq-err m f d e) h
]

catch-Outcome :
    {A : Type 0} (given : Option ExchangeFields) (m : Action A) (handler : Error → Action A)
    (d : UserDevice)
    → Outcome given d (m d).0
    → ((x : Error) → KeepsMailbox (handler x))
    → Outcome given d (catch m handler d).0
unfolding KeepsMailbox catch
catch-Outcome given m handler d h k = elim (Result-cases (m d).1) [
  | inl (a, e) ↦ rw (catch, e) h
  | inr (x, e) ↦ rw (catch, e) (Outcome-after h (k x (m d).0))
]

with_counters :
    (env : Environment) (given : Option ExchangeFields) (s : UserSession) (e : EncryptionEngine)
    (valid : Bool) (d : UserDevice)
    → d.session ≡ some s
    → state_valid exchange_states s ≡ true
    → engine_of (phase_of s) s ≡ some e
    → check_counters_valid e ≡ valid
    → Outcome given d
        ((if valid
            then exchange_with env (phase_of s) e given s
            else failure_process status_invalid_instruction)
          d).0
with_counters env given s e true d found state engine counters =
    exchange_with-Outcome env given s e d found state engine counters
with_counters env given s e false d found state engine counters =
    Keeps-Outcome given _ d (failure_process-KeepsMailbox status_invalid_instruction)

handle_exchange-Outcome :
    (env : Environment) (given : Option ExchangeFields) (d : UserDevice)
    → Outcome given d (handle_exchange env (exchange given) d).0
unfolding handle_exchange
handle_exchange-Outcome env given d = bind-Outcome given _ _ d (λ s found.
    after_test given (not (state_valid exchange_states s)) _ _ _ _ d (λ allowed.
      bind-Outcome given _ _ d (λ e engine.
        with_counters env given s e (check_counters_valid e) d (or_raise-eq-ok _ _ found)
          (not-eq-false _ allowed) (or_raise-eq-ok _ _ engine) refl)))

abbrev pub exchange_of : ParsedCommand → Option ExchangeFields
exchange_of (exchange given) = given
exchange_of _ = none

control_flow-KeepsMailbox :
    (env : Environment) (terminate : Bool) (fields : ControlFlowFields)
    → KeepsMailbox (handle_command env terminate (control_flow fields))
unfolding handle_command KeepsMailbox
control_flow-KeepsMailbox env terminate fields =
    search (keeps, handle_control_flow-KeepsMailbox) depth 8

answered :
    {A B : Type 0} (m : Action A) (b : B) → KeepsMailbox m → KeepsMailbox (m >>= λ _ d. (d, ok b))
answered m b h = bind-KeepsMailbox m _ h (λ _. reads-KeepsMailbox (λ _. ok b))

handle_command-Outcome :
    (env : Environment) (terminate : Bool) (p : ParsedCommand) (d : UserDevice)
    → Outcome (exchange_of p) d (handle_command env terminate p d).0
unfolding handle_command
handle_command-Outcome env terminate (exchange given) d =
    then-Outcome given _ _ d (handle_exchange-Outcome env given d) (λ _. reads-KeepsMailbox _)
handle_command-Outcome env terminate (control_flow fields) d =
    Keeps-Outcome none _ d (control_flow-KeepsMailbox env terminate fields)
handle_command-Outcome env terminate (select aid) d =
    Keeps-Outcome none _ d (answered _ _ (handle_select-KeepsMailbox env (select aid)))
handle_command-Outcome env terminate (auth0 checked fields) d =
    Keeps-Outcome none _ d (answered _ _ (handle_auth0-KeepsMailbox env (auth0 checked fields)))
handle_command-Outcome env terminate (auth1 fields) d =
    Keeps-Outcome none _ d (answered _ _ (handle_auth1-KeepsMailbox env none (auth1 fields)))
handle_command-Outcome env terminate (load_cert certificate) d =
    Keeps-Outcome none _ d
      (answered _ _ (handle_load_cert-KeepsMailbox env (load_cert certificate)))
handle_command-Outcome env terminate (envelope request) d =
    Keeps-Outcome none _ d (answered _ _ (handle_envelope-KeepsMailbox env (envelope request)))
handle_command-Outcome env terminate get_response d = untouched refl

on_error-KeepsMailbox : (env : Environment) (x : Error) → KeepsMailbox (on_error env x)
on_error-KeepsMailbox env x = search (keeps, failure_process-KeepsMailbox) depth 8

-- A command, whatever its outcome, leaves the mailbox and its atomic session as they were, or it was
-- an EXCHANGE whose payload was decrypted, in a state after the authentication that allows it, with
-- an engine for that state whose counters are not used up, and requests that were accepted; then the
-- new mailbox and session are what its set and write requests make of them.
pub command_step-Outcome :
    (env : Environment) (terminate_at_end : Bool) (p : ParsedCommand) (d : UserDevice)
    → Outcome (exchange_of p) d (command_step env terminate_at_end p d).0
unfolding command_step take_command
command_step-Outcome env terminate_at_end p d =
    catch-Outcome _ _ (on_error env) d
      (bind-Outcome _ _ _ d (λ started _.
        after_test _ _ _ _ _ _ d (λ _. handle_command-Outcome env terminate_at_end p d)))
      (on_error-KeepsMailbox env)
