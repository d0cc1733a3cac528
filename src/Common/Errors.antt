-- ===== src/Common/Errors.antt =====
-- The exceptions that the modelled code raises, and computations that may raise one.
-- The builtin ones stand first; the others are declared in access_protocol/errors.py,
-- access_protocol/tlv.py, access_protocol/mailbox.py, access_protocol/encryption.py, trust_framework/errors.py,
-- transport_protocol/errors.py and hw_driver/murata_driver/errors.py. The texts that they carry for
-- the log are left out.
use mathlib.Core.Path.{◌≡◌, refl}
use mathlib.Core.Logic.{◌⊎◌, inl, inr}
use mathlib.Core.Bool.{Bool, true, false}
use mathlib.Core.Option.{Option, none, some}

pub data Error : Type 0 where
  index_error overflow_error value_error key_error type_error unbound_local_error : Error
  -- no Python exception: the fuel of a loop ran out
  stuck : Error
  not_implemented_error attribute_error : Error
  tlv_error access_protocol_error verification_error session_error : Error
  mailbox_permission_error encryption_missing_error version_error cryptogram_not_found : Error
  create_command_error create_response_error message_too_long_error : Error
  invalid_command_error invalid_cla_error invalid_ins_error invalid_parameter_error : Error
  invalid_lc_error invalid_le_error invalid_command_data_error : Error
  invalid_status_error invalid_response_data_error unexpected_ble_message_error : Error
  ble_message_error invalid_checksum_error stx_error no_response_error : Error
  no_device_connected_error : Error
  error_returned_error unexpected_response_error invalid_identifier_error : Error
  invalid_aid_error unexpected_command_error unexpected_message_type_error : Error
  invalid_key_error key_lookup_failed certificate_decoding_error invalid_protocol_type_error : Error
  invalid_pulse_shape_combo invalid_ran_multiplier invalid_hopping_config : Error
  invalid_sync_code_index invalid_uwb_session_id invalid_sts_index : Error

-- what a call returns, or the exception that it raises
pub data Result {ℓ} (A : Type ℓ) : Type ℓ where
  err : Error → Result A
  ok : A → Result A

-- the value, or the exception where there is none
abbrev pub or_raise {ℓ} : {A : Type ℓ} → Error → Option A → Result A
or_raise x (some a) = ok a
or_raise x none = err x

-- `if not test: raise x`
abbrev pub guard : Bool → Error → Result (Unit {0})
guard false x = err x
guard true x = ok tt

infixl 5 ◌>>=◌ ◌>>◌
abbrev pub ◌>>=◌ {ℓ κ} : {A : Type ℓ} {B : Type κ} → Result A → (A → Result B) → Result B
err x >>= rest = err x
ok a >>= rest = rest a

abbrev pub ◌>>◌ {ℓ κ} : {A : Type ℓ} {B : Type κ} → Result A → Result B → Result B
first >> rest = first >>= λ _. rest

-- A computation of two parts that returns went through both.
pub >>=-eq-ok {ℓ κ} :
    {A : Type ℓ} {B : Type κ} (first : Result A) (rest : A → Result B) {result : B}
    → (first >>= rest) ≡ ok result
    → (a : A) × (first ≡ ok a) × (rest a ≡ ok result)
>>=-eq-ok (err x) rest returned = cc
>>=-eq-ok (ok a) rest returned = (a, refl, returned)

pub Result-cases {ℓ} :
    {A : Type ℓ} (r : Result A) → ((a : A) × (r ≡ ok a)) ⊎ ((e : Error) × (r ≡ err e))
Result-cases (ok a) = inl (a, refl)
Result-cases (err e) = inr (e, refl)

pub bind-ok {ℓ κ μ} :
    {A : Type ℓ} {B : Type κ} {C : Type μ} (m : Result A) (b : B) (f : B → Result C)
    → (m >> ok b >>= f) ≡ (m >> f b)
bind-ok (ok a) b f = refl
bind-ok (err e) b f = refl
