-- ===== src/Reader/Failure/Fuel.antt =====
-- The fuel of the failure process of the reader in access_protocol/reader.py: the handlers that it calls
-- find the flag set, and do not start it again.
use aliro_actuator.Common.{
  ℕ, suc, ◌≡◌, ◌∙◌, refl, sym, ap, inl, inr, Option, none, some, Bool, true, false, Bytes, List,
  Result, ok, err, Error, Result-cases, Bool-cases,
}
use aliro_actuator.Encryption.{EncryptionEngine}
use aliro_actuator.Tlv.{Tlv}
use aliro_actuator.Apdu.Command.{Command}
use aliro_actuator.Apdu.Response.Parse.{ExchangeResponse}
use aliro_actuator.Device.{Environment}
use aliro_actuator.Reader.{Reader, Action, ◌>>=◌, when, catch, end_session, transaction_termination}
use aliro_actuator.Reader.Send.{
  ReaderState, with_engine, handle_chaining_send_command, command_exchange, command_control_flow,
}
use aliro_actuator.Reader.Exchange.{
  Fail, ReaderFailureState, run_refusal, fail_with, with_failure, Requests, check_status_code,
  handle_exchange, handle_control_flow,
}
use aliro_actuator.Reader.Frame.Outcomes.{bind-ok, bind-err}
use aliro_actuator.Reader.Failure.{
  handle_error_event_ble_message, failure_messages, end_transaction, first_failure, failure_fuel,
}

-- the operation leaves the flag as it was
unfoldable KeepsStarted : {A : Type 0} → Action A → Type 0
KeepsStarted m = (d : Reader) → (m d).0.failure_process_started ≡ d.failure_process_started

reads-KeepsStarted : {A : Type 0} (f : Reader → Result A) → KeepsStarted (λ d. (d, f d))
unfolding KeepsStarted
reads-KeepsStarted f d = refl

with_engine-KeepsStarted :
    {A : Type 0} (state : ReaderState)
    (f : Option EncryptionEngine → Option EncryptionEngine × Result A)
    → KeepsStarted (with_engine state f)
unfolding with_engine KeepsStarted
with_engine-KeepsStarted state f d = refl

send-KeepsStarted : (commands : List Command) → KeepsStarted (handle_chaining_send_command commands)
unfolding handle_chaining_send_command KeepsStarted
send-KeepsStarted commands d = refl

-- With the flag set, the two operations do the same, and leave it set.
unfoldable SameOnce : {A : Type 0} → Action A → Action A → Type 0
SameOnce m m' =
    (d : Reader)
    → d.failure_process_started ≡ true
    → (m d ≡ m' d) × ((m d).0.failure_process_started ≡ true)

keep-SameOnce : {A : Type 0} (m : Action A) → KeepsStarted m → SameOnce m m
unfolding KeepsStarted SameOnce
keep-SameOnce m k d h = (refl, k d ∙ h)

bind-SameOnce :
    {A B : Type 0} (m m' : Action A) (f f' : A → Action B)
    → SameOnce m m'
    → ((a : A) → SameOnce (f a) (f' a))
    → SameOnce (m >>= f) (m' >>= f')
unfolding SameOnce
bind-SameOnce m m' f f' h k d s =
    let (e, set) = h d s in
    elim (Result-cases (m d).1) [
      | inl (a, r) ↦
          let (e', set') = k a (m d).0 set in
          (
            bind-ok m f d r
                ∙ e'
                ∙ ap (λ d'. f' a d'.0) e
                ∙ sym (bind-ok m' f' d (ap (λ d'. d'.1) (sym e) ∙ r)),
            ap (λ d'. d'.0.failure_process_started) (bind-ok m f d r) ∙ set',
          )
      | inr (x, r) ↦ (
        bind-err m f d r
            ∙ ap (λ d'. (d'.0, err x)) e
            ∙ sym (bind-err m' f' d (ap (λ d'. d'.1) (sym e) ∙ r)),
        ap (λ d'. d'.0.failure_process_started) (bind-err m f d r) ∙ set,
      )
    ]

catch-ok :
    {A : Type 0} (m : Action A) (f : Error → Action A) (d : Reader) {a : A}
    → (m d).1 ≡ ok a
    → catch m f d ≡ m d
unfolding catch
catch-ok m f d e = rw (catch, e) refl

catch-err :
    {A : Type 0} (m : Action A) (f : Error → Action A) (d : Reader) {x : Error}
    → (m d).1 ≡ err x
    → catch m f d ≡ f x (m d).0
unfolding catch
catch-err m f d e = rw (catch, e) refl

catch-SameOnce :
    {A : Type 0} (m m' : Action A) (f f' : Error → Action A)
    → SameOnce m m'
    → ((x : Error) → SameOnce (f x) (f' x))
    → SameOnce (catch m f) (catch m' f')
unfolding SameOnce
catch-SameOnce m m' f f' h k d s =
    let (e, set) = h d s in
    elim (Result-cases (m d).1) [
      | inl (a, r) ↦ (
        catch-ok m f d r ∙ e ∙ sym (catch-ok m' f' d (ap (λ d'. d'.1) (sym e) ∙ r)),
        ap (λ d'. d'.0.failure_process_started) (catch-ok m f d r) ∙ set,
      )
      | inr (x, r) ↦
          let (e', set') = k x (m d).0 set in
          (
            catch-err m f d r
                ∙ e'
                ∙ ap (λ d'. f' x d'.0) e
                ∙ sym (catch-err m' f' d (ap (λ d'. d'.1) (sym e) ∙ r)),
            ap (λ d'. d'.0.failure_process_started) (catch-err m f d r) ∙ set',
          )
    ]

when-SameOnce :
    (b : Bool) (m m' : Action (Unit {0})) → SameOnce m m' → SameOnce (when b m) (when b m')
unfolding when SameOnce
when-SameOnce true m m' h d s = h d s
when-SameOnce false m m' h d s = (refl, s)

ruleset same = (
  bind-SameOnce, catch-SameOnce, when-SameOnce, keep-SameOnce, reads-KeepsStarted,
  with_engine-KeepsStarted, send-KeepsStarted,
)

command_exchange-SameOnce :
    (env : Environment) (state : ReaderState) (commands notify : Option Bytes) (status : Option ℕ)
    (ursk : Bool) (doc : Option Bytes)
    → SameOnce
        (command_exchange env state commands notify status ursk doc)
        (command_exchange env state commands notify status ursk doc)
unfolding command_exchange KeepsStarted
command_exchange-SameOnce env state commands notify status ursk doc = search same depth 16

command_control_flow-SameOnce :
    (env : Environment) (s1 s2 : ℕ) (domain : Option Bytes)
    → SameOnce (command_control_flow env s1 s2 domain) (command_control_flow env s1 s2 domain)
unfolding command_control_flow KeepsStarted
command_control_flow-SameOnce env s1 s2 domain = search same depth 10

-- two failure processes that do the same where the flag is set
module _ (fail fail' : Fail)
    (h : (code : ℕ) (state : ReaderFailureState)
      → SameOnce (fail code state) (fail' code state)) where
  fail_with-SameOnce :
      (A : Type 0) (code : ℕ) (state : ReaderFailureState) (x : Error)
      → SameOnce (fail_with {A = A} fail code state x) (fail_with {A = A} fail' code state x)
  unfolding fail_with KeepsStarted
  fail_with-SameOnce A code state x = search (same, h) depth 8

  run_refusal-SameOnce :
      (A : Type 0) (x : Error) (r : Option (ℕ × ReaderFailureState))
      → SameOnce (run_refusal {A = A} fail x r) (run_refusal {A = A} fail' x r)
  unfolding KeepsStarted
  run_refusal-SameOnce A x none = search same depth 6
  run_refusal-SameOnce A x (some (code, state)) = fail_with-SameOnce A code state x

  with_failure-SameOnce :
      {A : Type 0} (refusal : Error → Option (ℕ × ReaderFailureState)) (m : Action A)
      → SameOnce m m
      → SameOnce (with_failure fail refusal m) (with_failure fail' refusal m)
  unfolding with_failure
  with_failure-SameOnce {A} refusal m k =
      catch-SameOnce m m _ _ k (λ x. run_refusal-SameOnce A x (refusal x))

  check_status_code-SameOnce :
      (env : Environment) (response : ExchangeResponse)
      → SameOnce (check_status_code env fail response) (check_status_code env fail' response)
  unfolding check_status_code KeepsStarted
  check_status_code-SameOnce env response = search (same, fail_with-SameOnce) depth 10

  handle_exchange-SameOnce :
      (env : Environment) (requests : Requests) (notify : Option Tlv) (ursk : Bool)
      (doc : Option Bytes) (status : Option ℕ) (state : ReaderState)
      → SameOnce
          (handle_exchange env fail requests notify ursk doc status state)
          (handle_exchange env fail' requests notify ursk doc status state)
  unfolding handle_exchange KeepsStarted
  handle_exchange-SameOnce env requests notify ursk doc status state =
      search (same, with_failure-SameOnce, command_exchange-SameOnce, check_status_code-SameOnce)
        depth 14

  handle_control_flow-SameOnce :
      (env : Environment) (s2 : ℕ)
      → SameOnce (handle_control_flow env fail s2) (handle_control_flow env fail' s2)
  unfolding handle_control_flow end_session KeepsStarted
  handle_control_flow-SameOnce env s2 =
      search (same, with_failure-SameOnce, command_control_flow-SameOnce) depth 10

  failure_messages-SameOnce :
      (env : Environment) (code : ℕ) (nfc plain : Bool)
      → SameOnce
          (failure_messages env fail code nfc plain)
          (failure_messages env fail' code nfc plain)
  unfolding failure_messages handle_error_event_ble_message KeepsStarted
  failure_messages-SameOnce env code true true =
      search (same, handle_control_flow-SameOnce) depth 10
  failure_messages-SameOnce env code true false = search (same, handle_exchange-SameOnce) depth 10
  failure_messages-SameOnce env code false true = search same depth 14
  failure_messages-SameOnce env code false false = search (same, handle_exchange-SameOnce) depth 16

  end_transaction-SameOnce :
      (env : Environment) (code : ℕ) (state : ReaderFailureState)
      → SameOnce (end_transaction env fail code state) (end_transaction env fail' code state)
  unfolding end_transaction transaction_termination KeepsStarted
  end_transaction-SameOnce env code state = search (same, failure_messages-SameOnce) depth 14

again :
    (env : Environment) (n : ℕ) (code : ℕ) (state : ReaderFailureState)
    → SameOnce (failure_fuel env (suc n) code state) (failure_fuel env 1 code state)
unfolding failure_fuel SameOnce ◌>>=◌
again env n code state d s = rw s (refl, refl)

-- The failure process never runs out of its fuel of 2: with more fuel it does the same, on every reader and every transport, whatever the handlers do that it calls.
pub failure_fuel-enough :
    (env : Environment) (n code : ℕ) (state : ReaderFailureState) (d : Reader)
    → failure_fuel env (suc (suc n)) code state d ≡ failure_fuel env 2 code state d
unfolding failure_fuel first_failure SameOnce ◌>>=◌
failure_fuel-enough env n code state d = elim (Bool-cases d.failure_process_started) [
  | inl set ↦ rw set refl
  | inr clear ↦
      rw clear
        (end_transaction-SameOnce (failure_fuel env (suc n)) (failure_fuel env 1) (again env n) env
          code state (record d { failure_process_started = true }) refl).0
]
