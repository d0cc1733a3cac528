-- ===== src/Device/Frame/Exchange.antt =====
-- What EXCHANGE does to the mailbox of the user device of access_protocol/user_device.py.
use aliro_actuator.Common.{
  ℕ, ◌≡◌, refl, ◌∙◌, sym, subst, Bytes, Error, err, ok, Option, none, some, Result,
  access_protocol_error, Bool, Result-cases, ◌⊎◌, inl, inr,
}
use aliro_actuator.Encryption.{EncryptionEngine}
use aliro_actuator.Apdu.Parse.Exchange.{ExchangeFields}
use aliro_actuator.Mailbox.{Mailbox}
use aliro_actuator.Mailbox.Session.{MailboxSession}
use aliro_actuator.Device.{UserDevice, Environment, Action, ◌>>=◌, ◌>>◌}
use aliro_actuator.Device.Session.{UserSession}
use aliro_actuator.Device.Send.{Phase, response_exchange}
use aliro_actuator.Device.Exchange.{
  serve_requests, changed, change_mailbox, on_verdict, return_exchange_error, take_reader_status,
  take_ursk,
}
use aliro_actuator.Device.Exchange.Requests.{
  Verdict, accepted, refused, out_of_boundaries, check_requests, change,
}
use aliro_actuator.Device.Frame.{
  KeepsMailbox, mailboxes, keeps, reads-KeepsMailbox, bind-KeepsMailbox,
}
use aliro_actuator.Device.Frame.Handlers.{answers}

-- The mailbox and its session after the requests, which were accepted in the session `s`.
pub record Served (fields : ExchangeFields) (before after : Option Mailbox × MailboxSession)
    : Type 0 where
  pub mailbox : Mailbox
  pub atomic : Bool
  pub session : UserSession
  pub present : before.0 ≡ some mailbox
  pub asked : fields.mailbox_fields.atomic_session ≡ some atomic
  pub allowed : check_requests fields.mailbox_fields session (some mailbox) ≡ accepted
  pub result : after ≡ (
    some
        (change atomic fields.mailbox_fields.set_requests fields.mailbox_fields.write_requests
          before.1 mailbox).1,
    (change atomic fields.mailbox_fields.set_requests fields.mailbox_fields.write_requests before.1
        mailbox).0,
  )

-- The operation leaves both alone, or serves the requests.
unfoldable pub Serves : ExchangeFields → {A : Type 0} → UserDevice → UserDevice × Result A → Type 0
Serves fields d r = (mailboxes r.0 ≡ mailboxes d) ⊎ Served fields (mailboxes d) (mailboxes r.0)

-- every run of the operation ends with an exception
unfoldable pub Raises : {A : Type 0} → Action A → Type 0
Raises m = (d : UserDevice) → (x : Error) × ((m d).1 ≡ err x)

pub bind-eq-err :
    {A B : Type 0} (m : Action A) (f : A → Action B) (d : UserDevice) {x : Error}
    → (m d).1 ≡ err x
    → (m >>= f) d ≡ ((m d).0, err x)
unfolding ◌>>=◌
bind-eq-err m f d e = rw (◌>>=◌, e) refl

pub bind-eq-ok :
    {A B : Type 0} (m : Action A) (f : A → Action B) (d : UserDevice) {a : A}
    → (m d).1 ≡ ok a
    → (m >>= f) d ≡ f a (m d).0
unfolding ◌>>=◌
bind-eq-ok m f d e = rw (◌>>=◌, e) refl

-- What follows an operation that raises is not reached.
pub bind-KeepsMailbox_raise :
    {A B : Type 0} (m : Action A) (f : A → Action B)
    → KeepsMailbox m
    → Raises m
    → KeepsMailbox (m >>= f)
unfolding KeepsMailbox Raises
bind-KeepsMailbox_raise m f h r d = let (x, e) = r d in rw (bind-eq-err m f d e) (h d)

pub bind-Raises :
    (A B : Type 0) (m : Action A) (x : Error) → Raises {A = B} (m >>= λ a d. (d, err x))
unfolding Raises
bind-Raises A B m x d = elim (Result-cases (m d).1) [
  | inl (a, e) ↦ (x, rw (bind-eq-ok m (λ a' d'. (d', err x)) d e) refl)
  | inr (y, e) ↦ (y, rw (bind-eq-err m (λ a' d'. (d', err x)) d e) refl)
]

return_exchange_error-KeepsMailbox :
    (env : Environment) (phase : Phase) (e : EncryptionEngine)
    → KeepsMailbox (return_exchange_error env phase e)
unfolding return_exchange_error response_exchange KeepsMailbox
return_exchange_error-KeepsMailbox env phase e = search answers

response_exchange-KeepsMailbox :
    (env : Environment) (phase : Phase) (e : EncryptionEngine) (payload : Bytes)
    → KeepsMailbox (response_exchange env phase e payload)
unfolding response_exchange KeepsMailbox
response_exchange-KeepsMailbox env phase e payload = search answers

Served-before :
    {fields : ExchangeFields} {b b' a : Option Mailbox × MailboxSession}
    → b ≡ b'
    → Served fields b a
    → Served fields b' a
Served-before {fields} {a = a} e h = subst (λ b. Served fields b a) e h

pub bind-Serves :
    {A B : Type 0} (fields : ExchangeFields) (m : Action A) (f : A → Action B)
    → KeepsMailbox m
    → ((a : A) (d : UserDevice) → Serves fields d (f a d))
    → (d : UserDevice) → Serves fields d ((m >>= f) d)
unfolding Serves KeepsMailbox
bind-Serves fields m f h k d = elim (Result-cases (m d).1) [
  | inl (a, e) ↦ rw (bind-eq-ok m f d e) (elim (k a (m d).0) [
    | inl same ↦ inl (same ∙ h d)
    | inr served ↦ inr (Served-before (h d) served)
  ])
  | inr (x, e) ↦ rw (bind-eq-err m f d e) (inl (h d))
]

pub Keeps-Serves :
    {A : Type 0} (fields : ExchangeFields) (m : Action A)
    → KeepsMailbox m
    → (d : UserDevice) → Serves fields d (m d)
unfolding Serves KeepsMailbox
Keeps-Serves fields m h d = inl (h d)

-- An operation that serves the requests, and then one that leaves them alone.
serve-then :
    {A B : Type 0} (fields : ExchangeFields) (m : Action A) (f : A → Action B) (d : UserDevice)
    → Serves fields d (m d)
    → ((a : A) → KeepsMailbox (f a))
    → Serves fields d ((m >>= f) d)
unfolding Serves KeepsMailbox
serve-then fields m f d h k = elim (Result-cases (m d).1) [
  | inl (a, e) ↦ rw (bind-eq-ok m f d e) (elim h [
    | inl same ↦ inl (k a (m d).0 ∙ same)
    | inr served ↦
        inr (subst (λ after. Served fields (mailboxes d) after) (sym (k a (m d).0)) served)
  ])
  | inr (x, e) ↦ rw (bind-eq-err m f d e) h
]

changed-Served :
    (fields : ExchangeFields) (s : UserSession) (atomic : Option Bool) (mailbox : Option Mailbox)
    (session : MailboxSession)
    → fields.mailbox_fields.atomic_session ≡ atomic
    → check_requests fields.mailbox_fields s mailbox ≡ accepted
    → let r =
        changed atomic fields.mailbox_fields.set_requests fields.mailbox_fields.write_requests
          mailbox session in
      (◌≡◌ {A = Option Mailbox × MailboxSession} (r.0, r.1) (mailbox, session))
      ⊎ Served fields (mailbox, session) (r.0, r.1)
unfolding changed
changed-Served fields s atomic none session e h = inl refl
changed-Served fields s none (some m) session e h = inl refl
changed-Served fields s (some atomic) (some m) session e h = inr (record {
  mailbox = m;
  atomic = atomic;
  session = s;
  present = refl;
  asked = e;
  allowed = h;
  result = refl;
})

change_mailbox-Serves :
    (fields : ExchangeFields) (s : UserSession) (d : UserDevice)
    → check_requests fields.mailbox_fields s d.mailbox ≡ accepted
    → Serves fields d (change_mailbox fields.mailbox_fields d)
unfolding Serves change_mailbox
change_mailbox-Serves fields s d h =
    changed-Served fields s fields.mailbox_fields.atomic_session d.mailbox d.mailbox_session refl h

-- What only reads the device leaves it for the rest.
pub bind-Serves_reads :
    {A B : Type 0} (fields : ExchangeFields) (g : UserDevice → Result A) (f : A → Action B)
    (d : UserDevice)
    → ((a : A) → g d ≡ ok a → Serves fields d (f a d))
    → Serves fields d (((λ (d' : UserDevice). (d', g d')) >>= f) d)
bind-Serves_reads fields g f d h = elim (Result-cases (g d)) [
  | inl (a, e) ↦ rw (bind-eq-ok (λ (d' : UserDevice). (d', g d')) f d e) (h a e)
  | inr (x, e) ↦
      rw (bind-eq-err (λ (d' : UserDevice). (d', g d')) f d e)
        (Keeps-Serves fields (λ d'. (d', err x)) (reads-KeepsMailbox (λ d'. err x)) d)
]

on_verdict-Raises :
    (env : Environment) (phase : Phase) (e : EncryptionEngine)
    → Raises (on_verdict env phase e out_of_boundaries)
unfolding on_verdict
on_verdict-Raises env phase e = bind-Raises _ _ (return_exchange_error env phase e) _

after_verdict :
    (env : Environment) (phase : Phase) (e : EncryptionEngine) (fields : ExchangeFields)
    (s : UserSession) (rest : Action (Unit {0})) (d : UserDevice) (v : Verdict)
    → (check_requests fields.mailbox_fields s d.mailbox ≡ accepted → Serves fields d (rest d))
    → check_requests fields.mailbox_fields s d.mailbox ≡ v
    → Serves fields d ((on_verdict env phase e v >> rest) d)
unfolding on_verdict
after_verdict env phase e fields s rest d accepted h v =
    bind-Serves_reads fields (λ d'. ok tt) (λ _. rest) d (λ _ _. h v)
after_verdict env phase e fields s rest d refused h v =
    bind-Serves_reads fields (λ d'. err access_protocol_error) (λ _. rest) d (λ _ impossible. cc)
after_verdict env phase e fields s rest d out_of_boundaries h v =
    Keeps-Serves fields (on_verdict env phase e out_of_boundaries >> rest)
      (bind-KeepsMailbox_raise _ (λ _. rest)
        (bind-KeepsMailbox _ _ (return_exchange_error-KeepsMailbox env phase e)
          (λ _. reads-KeepsMailbox _))
        (on_verdict-Raises env phase e))
      d

ok-injective : {A : Type 0} {a b : A} → Result.ok a ≡ ok b → a ≡ b
ok-injective h = cc

pub serve_requests-Serves :
    (env : Environment) (phase : Phase) (e : EncryptionEngine) (fields : ExchangeFields)
    (s : UserSession) (d : UserDevice)
    → Serves fields d (serve_requests env phase e fields s d)
unfolding serve_requests
serve_requests-Serves env phase e fields s d = bind-Serves_reads fields _ _ d (λ v ev.
    after_verdict env phase e fields s _ d v
      (λ allowed. bind-Serves_reads fields _ _ d (λ _ _. bind-Serves_reads fields _ _ d (λ reads _.
        serve-then fields (change_mailbox fields.mailbox_fields) _ d
          (change_mailbox-Serves fields s d allowed)
          (λ _.
            bind-KeepsMailbox _ _ (reads-KeepsMailbox _)
              (response_exchange-KeepsMailbox env phase e)))))
      (ok-injective ev))

pub take_reader_status-KeepsMailbox :
    (status : Option ℕ) (s : UserSession) → KeepsMailbox (take_reader_status status s)
unfolding take_reader_status KeepsMailbox
take_reader_status-KeepsMailbox none s = search keeps
take_reader_status-KeepsMailbox (some status) s = search keeps depth 10

pub take_ursk-KeepsMailbox :
    (ursk : Option Bytes) (s : UserSession) → KeepsMailbox (take_ursk ursk s)
unfolding take_ursk KeepsMailbox
take_ursk-KeepsMailbox none s = search keeps
take_ursk-KeepsMailbox (some b) s = search keeps depth 8
