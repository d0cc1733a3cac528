-- ===== src/Reader/Frame/Outcomes.antt =====
-- How operations of the reader of access_protocol/reader.py end: with an exception, or with evidence
-- about the storage before and the reader after.
use aliro_actuator.Common.{
  ◌≡◌, ◌⊎◌, ◌∙◌, refl, sym, subst, inl, inr, Option, none, some, Result, ok, err, Error,
  Result-cases, or_raise, attribute_error,
}
use aliro_actuator.Reader.{Reader, Action, ◌>>=◌, lift}
use aliro_actuator.Reader.Storage.{ReaderStorage}
use aliro_actuator.Reader.Frame.{KeepsStorage}

-- the operation raised an exception
abbrev pub Fails : {A : Type 0} → Result A → Type 0
Fails r = (x : Error) × (r ≡ err x)

-- An operation that fails leaves the storage alone; one that does not has the evidence `E` on the
-- storage before it and the reader after it.
unfoldable pub Safe : {A : Type 0} → (ReaderStorage → Reader → Type 0) → Action A → Type 0
Safe E m = (d : Reader) → (((m d).0.storage ≡ d.storage) × Fails (m d).1) ⊎ E d.storage (m d).0

pub ok-ne-err : {A : Type 0} {a : A} {x : Error} → ok a ≡ err x → ⊥
ok-ne-err h = cc

pub bind-ok :
    {A B : Type 0} (m : Action A) (f : A → Action B) (d : Reader) {a : A}
    → (m d).1 ≡ ok a
    → (m >>= f) d ≡ f a (m d).0
unfolding ◌>>=◌
bind-ok m f d e = rw (◌>>=◌, e) refl

pub bind-err :
    {A B : Type 0} (m : Action A) (f : A → Action B) (d : Reader) {x : Error}
    → (m d).1 ≡ err x
    → (m >>= f) d ≡ ((m d).0, err x)
unfolding ◌>>=◌
bind-err m f d e = rw (◌>>=◌, e) refl

pub then-Fails :
    {A B : Type 0} (m : Action A) (f : A → Action B) (d : Reader)
    → ((a : A) (d' : Reader) → Fails (f a d').1)
    → Fails ((m >>= f) d).1
unfolding ◌>>=◌
then-Fails m f d k = elim (Result-cases (m d).1) [
  | inl (a, e) ↦ rw (◌>>=◌, e) (k a (m d).0)
  | inr (x, e) ↦ rw (◌>>=◌, e) (x, refl)
]

pub attribute-eq-ok :
    {A : Type 0} (o : Option A) {a : A} → or_raise attribute_error o ≡ ok a → o ≡ some a
attribute-eq-ok (some b) h = cc
attribute-eq-ok none h = cc

module _ (E : ReaderStorage → Reader → Type 0) where
  pub bind-Safe :
      {A B : Type 0} (m : Action A) (f : A → Action B)
      → KeepsStorage m
      → ((a : A) → Safe E (f a))
      → Safe E (m >>= f)
  unfolding ◌>>=◌ KeepsStorage Safe
  bind-Safe m f h k d = elim (Result-cases (m d).1) [
    | inr (x, e) ↦ rw (◌>>=◌, e) (inl (h d, (x, refl)))
    | inl (a, e) ↦
        rw (◌>>=◌, e)
          (elim (k a (m d).0) [
            | inl (same, fails) ↦ inl (same ∙ h d, fails)
            | inr evidence ↦ inr (subst (λ before. E before (f a (m d).0).0) (h d) evidence)
          ])
  ]

  pub lift-Safe :
      {A B : Type 0} (r : Result A) (f : A → Action B)
      → ((a : A) → r ≡ ok a → Safe E (f a))
      → Safe E (lift r >>= f)
  unfolding ◌>>=◌ Safe
  lift-Safe (ok a) f h d = h a refl d
  lift-Safe (err x) f h d = inl (refl, (x, refl))

  pub failed-Safe :
      {A : Type 0} (m : Action A) → KeepsStorage m → ((d : Reader) → Fails (m d).1) → Safe E m
  unfolding Safe KeepsStorage
  failed-Safe m h k d = inl (h d, k d)

  -- what is done behind the evidence, and leaves the storage alone
  pub then-Safe :
      {A B : Type 0} (m : Action A) (f : A → Action B)
      → Safe E m
      → ((a : A) (before : ReaderStorage) (d : Reader) → E before d → E before (f a d).0)
      → Safe E (m >>= f)
  unfolding ◌>>=◌ Safe
  then-Safe m f h j d = elim (Result-cases (m d).1) [
    | inr (x, e) ↦
        rw (◌>>=◌, e)
          (elim (h d) [ inl (same, fails) ↦ inl (same, (x, refl)) | inr evidence ↦ inr evidence ])
    | inl (a, e) ↦
        rw (◌>>=◌, e)
          (elim (h d) [
            | inl (same, (x, fails)) ↦ absurd (ok-ne-err (sym e ∙ fails))
            | inr evidence ↦ inr (j a d.storage (m d).0 evidence)
          ])
  ]
