-- ===== src/Reader/Frame/Handlers.antt =====
-- Sending, the failure process and the handlers up to AUTH1 of the reader, and its storage.
use aliro_actuator.Common.{ℕ, suc, zero, List, Bool, true, false, Bytes, Option, none, some, Error}
use aliro_actuator.Apdu.Command.{Command}
use aliro_actuator.Device.{Environment}
use aliro_actuator.Tlv.{Tlv}
use aliro_actuator.Common.{refl}
use aliro_actuator.Apdu.Response.Parse.{ExchangeResponse}
use aliro_actuator.Reader.{Action, transaction_termination, end_session}
use aliro_actuator.Reader.Send.{
  handle_chaining_send_command, ReaderState, command_exchange, command_control_flow,
}
use aliro_actuator.Reader.Exchange.{
  Fail, ReaderFailureState, run_refusal, fail_with, with_failure, Requests, handle_exchange,
  check_status_code, handle_control_flow,
}
use aliro_actuator.Reader.Failure.{
  failure_messages, end_transaction, first_failure, failure_fuel, failure_process,
  handle_error_event_ble_message,
}
use aliro_actuator.Reader.Frame.{KeepsStorage, keeps, catch-KeepsStorage}

pub handle_chaining_send_command-KeepsStorage :
    (commands : List Command) → KeepsStorage (handle_chaining_send_command commands)
unfolding handle_chaining_send_command KeepsStorage
handle_chaining_send_command-KeepsStorage commands d = refl

pub ruleset sends = (keeps, handle_chaining_send_command-KeepsStorage)

command_exchange-KeepsStorage :
    (env : Environment) (state : ReaderState) (commands notify : Option Bytes) (status : Option ℕ)
    (ursk : Bool) (doc : Option Bytes)
    → KeepsStorage (command_exchange env state commands notify status ursk doc)
unfolding command_exchange KeepsStorage
command_exchange-KeepsStorage env state commands notify status ursk doc = search sends depth 14

command_control_flow-KeepsStorage :
    (env : Environment) (s1 s2 : ℕ) (domain : Option Bytes)
    → KeepsStorage (command_control_flow env s1 s2 domain)
unfolding command_control_flow KeepsStorage
command_control_flow-KeepsStorage env s1 s2 domain = search sends depth 10

-- a failure process that leaves the storage alone
abbrev FailKeeps : Fail → Type 0
FailKeeps fail = (code : ℕ) (state : ReaderFailureState) → KeepsStorage (fail code state)

module _ (fail : Fail) (h : FailKeeps fail) where
  pub fail_with-KeepsStorage :
      (A : Type 0) (code : ℕ) (state : ReaderFailureState) (x : Error)
      → KeepsStorage (fail_with {A = A} fail code state x)
  unfolding fail_with KeepsStorage
  fail_with-KeepsStorage A code state x = search (keeps, h) depth 8

  run_refusal-KeepsStorage :
      (A : Type 0) (x : Error) (r : Option (ℕ × ReaderFailureState))
      → KeepsStorage (run_refusal {A = A} fail x r)
  unfolding KeepsStorage fail_with
  run_refusal-KeepsStorage A x none d = refl
  run_refusal-KeepsStorage A x (some (code, state)) d = fail_with-KeepsStorage A code state x d

  pub with_failure-KeepsStorage :
      {A : Type 0} (refusal : Error → Option (ℕ × ReaderFailureState)) (m : Action A)
      → KeepsStorage m
      → KeepsStorage (with_failure fail refusal m)
  unfolding with_failure
  with_failure-KeepsStorage {A} refusal m k =
      catch-KeepsStorage m _ k (λ x. run_refusal-KeepsStorage A x (refusal x))

  check_status_code-KeepsStorage :
      (env : Environment) (response : ExchangeResponse)
      → KeepsStorage (check_status_code env fail response)
  unfolding check_status_code KeepsStorage
  check_status_code-KeepsStorage env response = search (keeps, fail_with-KeepsStorage) depth 10

  pub handle_exchange-KeepsStorage :
      (env : Environment) (requests : Requests) (notify : Option Tlv) (ursk : Bool)
      (doc : Option Bytes) (status : Option ℕ) (state : ReaderState)
      → KeepsStorage (handle_exchange env fail requests notify ursk doc status state)
  unfolding handle_exchange KeepsStorage
  handle_exchange-KeepsStorage env requests notify ursk doc status state =
      search
        (
          keeps, with_failure-KeepsStorage, command_exchange-KeepsStorage,
          check_status_code-KeepsStorage,
        )
        depth 14

  pub handle_control_flow-KeepsStorage :
      (env : Environment) (s2 : ℕ) → KeepsStorage (handle_control_flow env fail s2)
  unfolding handle_control_flow end_session KeepsStorage
  handle_control_flow-KeepsStorage env s2 =
      search (keeps, with_failure-KeepsStorage, command_control_flow-KeepsStorage) depth 10

  failure_messages-KeepsStorage :
      (env : Environment) (code : ℕ) (nfc plain : Bool)
      → KeepsStorage (failure_messages env fail code nfc plain)
  unfolding failure_messages handle_error_event_ble_message KeepsStorage
  failure_messages-KeepsStorage env code true true =
      search (keeps, handle_control_flow-KeepsStorage) depth 10
  failure_messages-KeepsStorage env code true false =
      search (keeps, handle_exchange-KeepsStorage) depth 10
  failure_messages-KeepsStorage env code false true = search keeps depth 14
  failure_messages-KeepsStorage env code false false =
      search (keeps, handle_exchange-KeepsStorage) depth 16

  first_failure-KeepsStorage : (env : Environment) → FailKeeps (first_failure env fail)
  unfolding first_failure end_transaction transaction_termination KeepsStorage
  first_failure-KeepsStorage env code state = search (keeps, failure_messages-KeepsStorage) depth 14

pub failure_fuel-KeepsStorage : (env : Environment) (n : ℕ) → FailKeeps (failure_fuel env n)
unfolding failure_fuel KeepsStorage
failure_fuel-KeepsStorage env zero code state = search keeps
failure_fuel-KeepsStorage env (suc n) code state =
    search
      (keeps, first_failure-KeepsStorage (failure_fuel env n) (failure_fuel-KeepsStorage env n) env)
      depth 10

pub failure_process-KeepsStorage : (env : Environment) → FailKeeps (failure_process env)
unfolding failure_process
failure_process-KeepsStorage env = failure_fuel-KeepsStorage env 2
