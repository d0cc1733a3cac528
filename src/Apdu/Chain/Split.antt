-- ===== src/Apdu/Chain/Split.antt =====
-- The cutting of data in `create_command` of access_protocol/apdu.py.
use aliro_actuator.Common.{
  ℕ, zero, suc, ◌≡◌, ◌≤◌, ◌<◌, sym, ◌∙◌, List, [], ◌∷◌, ◌++◌, true, false, inl, inr, ltb, ltb→lt,
  length, length-append, length-take, length-drop, take, drop, take-append-drop, append-nil, All,
  Bytes, ok, ◌>>=◌, >>=-eq-ok, Bool-cases, arith,
}
use aliro_actuator.Apdu.Chain.{split_loop, split}

abbrev pub concat : List Bytes → Bytes
concat [] = []
concat (p ∷ ps) = p ++ concat ps

-- at least one part
abbrev pub IsNonempty {ℓ} : {A : Type ℓ} → List A → Type 0
IsNonempty [] = ⊥
IsNonempty (x ∷ xs) = Unit

module _ (fuel most : ℕ) (payload : Bytes) where
  split_loop_done :
      ltb most (length payload) ≡ false → split_loop (suc fuel) most payload ≡ ok (payload ∷ [])
  unfolding split_loop
  split_loop_done done = rw (done, split_loop)

  split_loop_step :
      ltb most (length payload) ≡ true
      → split_loop (suc fuel) most payload
        ≡ (split_loop fuel most (drop most payload) >>= λ parts. ok (take most payload ∷ parts))
  unfolding split_loop
  split_loop_step more = rw (more, split_loop)

split_loop_lem :
    (fuel most : ℕ) (payload : Bytes) {parts : List Bytes}
    → split_loop fuel most payload ≡ ok parts
    → (concat parts ≡ payload) × All (λ p. length p ≤ most) parts × IsNonempty parts
unfolding split_loop
split_loop_lem zero most payload h = cc
split_loop_lem (suc fuel) most payload {parts} h = elim (Bool-cases (ltb most (length payload))) [
  | inr done ↦
      let same : parts ≡ payload ∷ [] = cc (h, split_loop_done fuel most payload done) in
      rw same (append-nil payload, (ground arith, tt), tt)
  | inl more ↦
      let (rest, r, k) =
        >>=-eq-ok (split_loop fuel most (drop most payload)) _
          (sym (split_loop_step fuel most payload more) ∙ h) in
      let same : parts ≡ take most payload ∷ rest = cc k in
      let (whole, short, _) = split_loop_lem fuel most (drop most payload) r in
      rw (same, whole)
        (take-append-drop most payload, (omega (arith, length-take most payload), short), tt)
]

split_loop_ok :
    (fuel most : ℕ) (payload : Bytes)
    → 0 < most
    → length payload < fuel
    → (parts : List Bytes) × (split_loop fuel most payload ≡ ok parts)
unfolding split_loop
split_loop_ok zero most payload pos h = absurd (omega arith)
split_loop_ok (suc fuel) most payload pos h = elim (Bool-cases (ltb most (length payload))) [
  | inr done ↦ (payload ∷ [], rw (done, split_loop))
  | inl more ↦
      let (parts, e) =
        split_loop_ok fuel most (drop most payload) pos
          (omega (arith, ltb→lt most (length payload) more, length-drop most payload)) in
      (take most payload ∷ parts, rw (more, split_loop, e))
]

-- A positive limit is enough for the cutting to end with a result.
pub split_ok :
    (most : ℕ) (payload : Bytes) → 0 < most → (parts : List Bytes) × (split most payload ≡ ok parts)
unfolding split
split_ok most payload pos = split_loop_ok (suc (length payload)) most payload pos (omega arith)

-- The parts that data is cut into are together the data, none is longer than the limit, and there is
-- at least one.
pub split_lem :
    (most : ℕ) (payload : Bytes) {parts : List Bytes}
    → split most payload ≡ ok parts
    → (concat parts ≡ payload) × All (λ p. length p ≤ most) parts × IsNonempty parts
unfolding split
split_lem most payload h = split_loop_lem (suc (length payload)) most payload h

pub All-length-concat : (ps : List Bytes) → All (λ p. length p ≤ length (concat ps)) ps
All-length-concat ps = go ps (length (concat ps)) (omega arith)
  where
    go : (ps : List Bytes) (n : ℕ) → length (concat ps) ≤ n → All (λ p. length p ≤ n) ps
    go [] n h = tt
    go (p ∷ ps) n h = (
      omega (arith, length-append p (concat ps)),
      go ps n (omega (arith, length-append p (concat ps))),
    )
