-- ===== src/Reader/Send/Order.antt =====
-- What `handle_chaining_send_command` of access_protocol/apdu.py sends, and in which order.
use aliro_actuator.Common.{
  ℕ, suc, ◌+◌, ◌≡◌, ◌≤◌, refl, ap, inl, inr, List, [], ◌∷◌, ◌++◌, Option, none, some, Bool, true,
  false, length, All, Bytes, Result, ok, err, Error, arith, ◌⊎◌,
}
use aliro_actuator.Apdu.Command.{Command}
use aliro_actuator.Apdu.Response.{Response, given}
use aliro_actuator.Apdu.Chain.{Apdu}
use aliro_actuator.Apdu.Chain.Receive.{Incoming, is_busy}
use aliro_actuator.Reader.Send.{
  wait_response, fetch_rest, send_chain, get_response_command, answer, Sending, behind,
}

-- what holds on every branch of a split holds of the split
either :
    {A : Type 0} (P : A → Type 0) (b : Bool) (x y : A)
    → P x
    → P y
    → P (elim b [ true ↦ x | false ↦ y ])
either P true x y p q = p
either P false x y p q = q

outcome :
    {A B : Type 0} (P : B → Type 0) (r : Result A) (f : Error → B) (g : A → B)
    → ((x : Error) → P (f x))
    → ((a : A) → r ≡ ok a → P (g a))
    → P (elim r [ err x ↦ f x | ok a ↦ g a ])
outcome P (err x) f g p q = p x
outcome P (ok a) f g p q = q a refl

optional :
    {A B : Type 0} (P : B → Type 0) (o : Option A) (x : B) (g : A → B)
    → P x
    → ((a : A) → P (g a))
    → P (elim o [ none ↦ x | some a ↦ g a ])
optional P none x g p q = p
optional P (some a) x g p q = q a

module _ (a : Apdu) (timer : Bool) where
  -- a GET RESPONSE of the class `cla`, as it is created for some number of bytes left
  abbrev pub IsGetResponse : ℕ → Command → Type 0
  IsGetResponse cla c = (left : ℕ) × (get_response_command a cla left ≡ ok c)

  -- only such commands, and a message read for each of them
  abbrev Fetches : ℕ → ℕ → Sending (Response × Bytes) → Type 0
  Fetches cla n s = All (IsGetResponse cla) s.0 × (length s.0 + length s.1 ≤ n)

  fetch_rest-Fetches :
      (cla : ℕ) (total : Bytes) (ms : List Incoming)
      → Fetches cla (length ms) (fetch_rest a cla timer total ms)
  unfolding fetch_rest
  fetch_rest-Fetches cla total [] = (tt, omega arith)
  fetch_rest-Fetches cla total (m ∷ ms) =
      let ih = λ (t : Bytes). fetch_rest-Fetches cla t ms in
      outcome (Fetches cla (suc (length ms))) (is_busy m) _ _ (λ x. (tt, omega arith))
        (λ busy _.
          either (Fetches cla (suc (length ms))) busy _ _
            (either (Fetches cla (suc (length ms))) timer _ _
              ((ih total).0, omega (arith, (ih total).1)) (tt, omega arith))
            (outcome (Fetches cla (suc (length ms))) (answer m) _ _ (λ x. (tt, omega arith))
              (λ r _.
                optional (Fetches cla (suc (length ms))) r.1 _ _ (tt, omega arith)
                  (λ left.
                    outcome (Fetches cla (suc (length ms))) (get_response_command a cla left) _ _
                      (λ x. (tt, omega arith))
                      (λ c e.
                        let t = total ++ given r.0.payload in
                        (((left, e), (ih t).0), omega (arith, (ih t).1)))))))

  -- the class of the last command
  abbrev pub last_cla : Command → List Command → ℕ
  last_cla c [] = c.cla
  last_cla c (next ∷ cs) = last_cla next cs

  -- All commands were sent, and then GET RESPONSE commands; or some of the first commands were sent, and
  -- there was an exception.
  abbrev pub InOrder : List Command → ℕ → Sending (Response × Bytes) → Type 0
  InOrder commands cla s =
      ((gets : List Command) × (s.0 ≡ commands ++ gets) × All (IsGetResponse cla) gets)
      ⊎ ((front rest : List Command) × (commands ≡ front ++ rest)
          × (s.0 ≡ front)
          × (x : Error) × (s.2 ≡ err x))

  behind-InOrder :
      (c : Command) (commands : List Command) (cla : ℕ) (s : Sending (Response × Bytes))
      → InOrder commands cla s
      → InOrder (c ∷ commands) cla (behind c s)
  behind-InOrder c commands cla s (inl (gets, e, all)) = inl (gets, ap (λ cs. c ∷ cs) e, all)
  behind-InOrder c commands cla s (inr (front, rest, e, f, x, g)) =
      inr (c ∷ front, rest, ap (λ cs. c ∷ cs) e, ap (λ cs. c ∷ cs) f, x, g)

  -- Whatever the answers, the commands of a chain are sent in their order and each once: all of them, and behind them only GET RESPONSE commands of the class of the last one, or, where there is an exception, possibly only the first of them.
  pub send_chain-InOrder :
      (c : Command) (cs : List Command) (ms : List Incoming)
      → InOrder (c ∷ cs) (last_cla c cs) (send_chain a timer (c ∷ cs) ms)
  unfolding send_chain
  send_chain-InOrder c [] ms =
      inl ((fetch_rest a c.cla timer [] ms).0, refl, (fetch_rest-Fetches c.cla [] ms).0)
  send_chain-InOrder c (next ∷ cs) ms =
      outcome (InOrder (c ∷ next ∷ cs) (last_cla next cs)) (wait_response timer ms).1 _ _
        (λ x. inr (c ∷ [], next ∷ cs, refl, refl, x, refl))
        (λ r _.
          behind-InOrder c (next ∷ cs) (last_cla next cs)
            (send_chain a timer (next ∷ cs) (wait_response timer ms).0)
            (send_chain-InOrder next cs (wait_response timer ms).0))
