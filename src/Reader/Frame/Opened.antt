-- ===== src/Reader/Frame/Opened.antt =====
-- What the reader of access_protocol/reader.py has verified, and holds in its session, where AUTH0 of a
-- fast transaction returns.
use aliro_actuator.Common.{
  ◌≡◌, ◌⊎◌, ◌∙◌, refl, sym, ap, inl, inr, [], ◌∷◌, ◌++◌, Option, none, some, Bytes, Result, ok, err,
  Result-cases, Option-cases, verification_error, drop_last, take_last, attribute_error,
}
use aliro_actuator.Encryption.{decrypt_cryptogram}
use aliro_actuator.Apdu.Chain.{TransportProtocol}
use aliro_actuator.Device.{Environment}
use aliro_actuator.Reader.{Reader, Action, ◌>>=◌}
use aliro_actuator.Reader.Storage.{ReaderStorage, ReaderFastCacheEntry}
use aliro_actuator.Reader.Session.{ReaderSession}
use aliro_actuator.Reader.Session.Keys.{derive_key_volatile_fast}
use aliro_actuator.Reader.Authentication.{accept, after_trial, try_entries}
use aliro_actuator.Reader.Frame.Outcomes.{Fails, ok-ne-err}
use aliro_actuator.Reader.Frame.Held.{Holds, accept-Holds, derived-received}

module _ (env : Environment) where
  -- The session of the reader holds a cryptogram and the access credential of one of the entries, and
  -- with a key derived from that entry the cryptogram is decrypted and its tag verified.
  pub record OpenedBy (entries : ReaderStorage) (after : Reader) : Type 0 where
    pub front : ReaderStorage
    pub entry : ReaderFastCacheEntry
    pub back : ReaderStorage
    pub place : entries ≡ front ++ entry ∷ back
    pub transport : TransportProtocol
    pub session : ReaderSession
    pub earlier : ReaderSession
    pub derived : ReaderSession
    pub sk : Bytes
    pub cryptogram : Bytes
    pub held : after.session ≡ some session
    pub received : session.received_cryptogram ≡ some cryptogram
    pub identified : session.credential_pubk ≡ some entry.access_credential
    pub plain : Bytes
    pub derives :
        derive_key_volatile_fast env.crypto env.ber transport entry.access_credential.key
          entry.kpersistent earlier
        ≡ ok derived
    pub keyed : derived.cryptogram_sk ≡ some sk
    pub opened :
        decrypt_cryptogram env.aes sk (drop_last 16 cryptogram) (take_last 16 cryptogram) ≡ ok plain

  -- It raises an exception, finds nothing, or an entry opened the cryptogram.
  unfoldable pub Opens : ReaderStorage → Action (Option ReaderSession) → Type 0
  Opens entries m = (d : Reader) → Fails (m d).1 ⊎ (((m d).1 ≡ ok none) ⊎ OpenedBy entries (m d).0)

  module _ (cryptogram : Bytes) (entry : ReaderFastCacheEntry) (entries : ReaderStorage)
      (transport : TransportProtocol) (s derived : ReaderSession) (sk : Bytes)
      (derives : derive_key_volatile_fast env.crypto env.ber transport entry.access_credential.key
          entry.kpersistent s
        ≡ ok derived)
      (keyed : derived.cryptogram_sk ≡ some sk) where
    further : (after : Reader) → OpenedBy entries after → OpenedBy (entry ∷ entries) after
    further after o = record {
      front = entry ∷ o.front;
      place = ap (λ es. entry ∷ es) o.place;
      entry = o.entry;
      transport = o.transport;
      earlier = o.earlier;
      derived = o.derived;
      sk = o.sk;
      cryptogram = o.cryptogram;
      plain = o.plain;
      held = o.held;
      received = o.received;
      identified = o.identified;
      derives = o.derives;
      keyed = o.keyed;
      opened = o.opened;
      session = o.session;
      back = o.back;
    }

    opened_here :
        (plain : Bytes) (after : Reader)
        → decrypt_cryptogram env.aes sk (drop_last 16 cryptogram) (take_last 16 cryptogram)
          ≡ ok plain
        → Holds env entry cryptogram after
        → OpenedBy (entry ∷ entries) after
    opened_here plain after e (final, (held, (received, identified))) = record {
      front = [];
      entry = entry;
      back = entries;
      place = refl;
      transport = transport;
      session = final;
      earlier = s;
      derived = derived;
      sk = sk;
      cryptogram = cryptogram;
      plain = plain;
      held = held;
      received = received;
      identified = identified;
      derives = derives;
      keyed = keyed;
      opened = e;
    }

    after_trial-Opens :
        (rest : Action (Option ReaderSession)) (r : Result Bytes)
        → derived.received_cryptogram ≡ some cryptogram
        → decrypt_cryptogram env.aes sk (drop_last 16 cryptogram) (take_last 16 cryptogram) ≡ r
        → Opens entries rest
        → Opens (entry ∷ entries) (after_trial env entry derived rest r)
    unfolding after_trial Opens ◌>>=◌
    after_trial-Opens rest (ok plain) received e h d =
        elim (Result-cases (accept env entry plain derived d).1) [
          | inr (x, f) ↦ rw (◌>>=◌, f) (inl (x, refl))
          | inl (done, f) ↦
              rw (◌>>=◌, f)
                (elim (accept-Holds env entry plain cryptogram derived received d) [
                  | inl (x, g) ↦ absurd (ok-ne-err (sym f ∙ g))
                  | inr holds ↦
                      inr (inr (opened_here plain (accept env entry plain derived d).0 e holds))
                ])
        ]
    after_trial-Opens rest (err verification_error) received e h d = elim (h d) [
      | inl fails ↦ inl fails
      | inr (inl nothing) ↦ inr (inl nothing)
      | inr (inr o) ↦ inr (inr (further (rest d).0 o))
    ]
    after_trial-Opens rest (err x) received e h d = inl (x, refl)

  pub try_entries-Opens :
      (cryptogram : Bytes) (entries : ReaderStorage) (s : ReaderSession)
      → s.received_cryptogram ≡ some cryptogram
      → Opens entries (try_entries env cryptogram entries s)
  unfolding try_entries Opens ◌>>=◌
  try_entries-Opens cryptogram [] s received d = inr (inl refl)
  try_entries-Opens cryptogram (entry ∷ entries) s received d =
      elim (Result-cases (
        derive_key_volatile_fast env.crypto env.ber d.transport entry.access_credential.key
          entry.kpersistent s)) [
            | inr (x, e) ↦ rw e (inl (x, refl))
            | inl (derived, e) ↦ rw e (elim (Option-cases derived.cryptogram_sk) [
              | inl missing ↦ simp missing (inl (attribute_error, refl))
              | inr (sk, keyed) ↦
                  let received' = derived-received env d.transport entry s e ∙ received in
                  simp keyed (
                    after_trial-Opens cryptogram entry entries d.transport s derived sk e keyed
                      (try_entries env cryptogram entries derived) _ received' refl
                      (try_entries-Opens cryptogram entries derived received')
                      (record d { session = some derived }))
            ])
          ]
