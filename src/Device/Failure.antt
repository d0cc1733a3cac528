-- ===== src/Device/Failure.antt =====
-- `failure_process` of the class `UserDevice` of access_protocol/user_device.py.
pub mod Atomic
use aliro_actuator.Common.{
  ℕ, ◌≡◌, ◌∙◌, ap, ◌<◌, ◌/◌, ◌%◌, refl, [], ◌∷◌, ◌++◌, false, true, none, Bool-cases, err,
  no_device_connected_error, inl, inr, Result, ok, Bool, Error, if◌then◌else◌,
}
use aliro_actuator.Apdu.Chain.{Apdu, create_response}
use aliro_actuator.Apdu.Response.{Response}
use aliro_actuator.Apdu.Response.RoundTrip.{create_from_parameters_bytes}
use aliro_actuator.Apdu.Create.{create_error_response}
use aliro_actuator.Device.{UserDevice, Action, ◌>>=◌}
use aliro_actuator.Device.Send.{check_connected, failure_process, send_error, with_apdu}

-- the response with a status and no data
abbrev pub status_response : ℕ → Response
status_response status = record {
  as_bytes = (status / 256) ∷ (status % 256) ∷ [];
  status = status;
  payload = none;
}

pub created :
    (a : Apdu) (status : ℕ)
    → status < 65536
    → (a' : Apdu) × (create_error_response a status ≡ ok (a', status_response status))
unfolding create_error_response create_response
created a status small =
    let e = create_from_parameters_bytes none status small in
    elim (Bool-cases a.support_extended_length_apdu) [
      | inl extended ↦ (a, simp (extended, e) refl)
      | inr short ↦
          (record a { apdu_response_length = a.apdu_max_response_length }, simp (short, e) refl)
    ]

pub bind-at :
    {A B : Type 0} (m : Action A) (f : A → Action B) (d : UserDevice) {d' : UserDevice} {a : A}
    → m d ≡ (d', ok a)
    → (m >>= f) d ≡ f a d'
unfolding ◌>>=◌
bind-at m f d {a = a} e = rw (◌>>=◌, e) (ap (λ x. f a x.0) e)

with_apdu-at :
    {A : Type 0} (create : Apdu → Result (Apdu × A)) (d : UserDevice) {a : Apdu} {r : A}
    → create d.apdu ≡ ok (a, r)
    → with_apdu create d ≡ (record d { apdu = a }, ok r)
unfolding with_apdu
with_apdu-at create d e = rw (with_apdu, e) refl

pub bind-fails :
    {A B : Type 0} (m : Action A) (f : A → Action B) (d : UserDevice) {d' : UserDevice} {x : Error}
    → m d ≡ (d', err x)
    → (m >>= f) d ≡ (d', err x)
unfolding ◌>>=◌
bind-fails m f d {x = x} e = rw (◌>>=◌, e) (ap (λ r. (r.0, err x)) e)

connection :
    (d : UserDevice) {on : Bool}
    → d.connected ≡ on
    → check_connected d ≡ (d, if on then ok tt else err no_device_connected_error)
connection d e = ap (λ c. (d, if c then ok tt else err no_device_connected_error)) e

pub sent_error :
    (status : ℕ) (d : UserDevice) {a : Apdu} {r : Response}
    → create_error_response d.apdu status ≡ ok (a, r)
    → d.connected ≡ true
    → failure_process status d
      ≡ (record d { apdu = a; sent = d.sent ++ r ∷ []; session = none; connected = false }, ok tt)
unfolding failure_process send_error
sent_error status d {a} e on = bind-at (send_error status) _ d (
    bind-at (with_apdu (λ a. create_error_response a status)) _ d (with_apdu-at _ d e)
    ∙ bind-at check_connected _ (record d { apdu = a }) (connection (record d { apdu = a }) on))

pub not_sent :
    (status : ℕ) (d : UserDevice) {a : Apdu} {r : Response}
    → create_error_response d.apdu status ≡ ok (a, r)
    → d.connected ≡ false
    → failure_process status d ≡ (record d { apdu = a }, err no_device_connected_error)
unfolding failure_process send_error
not_sent status d {a} e off = bind-fails (send_error status) _ d (
    bind-at (with_apdu (λ a. create_error_response a status)) _ d (with_apdu-at _ d e)
    ∙ bind-fails check_connected _ (record d { apdu = a }) (connection (record d { apdu = a }) off))
