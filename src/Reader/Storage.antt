-- ===== src/Reader/Storage.antt =====
-- The class `ReaderStorage` of access_protocol/reader.py: Kpersistent of the user devices that a
-- reader has met, the latest last. The credentials are compared as Python compares two objects, by
-- their identities.
use aliro_actuator.Common.{
  ℕ, suc, length-drop, ap, ◌⊎◌, ◌∙◌, ◌-◌, drop, All, ◌≡◌, ◌≤◌, refl, List, [], ◌∷◌, ◌++◌, true,
  false, ◌==◌, ltb, if◌then◌else◌, length, length-append, Bytes, Result, ok, err, value_error,
  ◌>>=◌, arith, inl, inr, Bool-cases,
}
use aliro_actuator.Trust.{KeyObject}

pub record ReaderFastCacheEntry : Type 0 where
  pub access_credential : KeyObject
  pub kpersistent : Bytes

abbrev pub ReaderStorage : Type 0
ReaderStorage = List ReaderFastCacheEntry

abbrev pub fast_cache_size_limit : ℕ
fast_cache_size_limit = 16

-- The first entry for the credential is removed; where there is none, `index` raises a ValueError.
unfoldable pub remove_kpersistent : KeyObject → ReaderStorage → Result ReaderStorage
remove_kpersistent key [] = err value_error
remove_kpersistent key (e ∷ es) =
    let rest = remove_kpersistent key es in
    if e.access_credential.identity == key.identity then ok es else rest >>= λ es'. ok (e ∷ es')

-- `try: remove_kpersistent(...) except ValueError: pass`
abbrev without : ReaderStorage → Result ReaderStorage → ReaderStorage
without es (ok es') = es'
without es (err x) = es

-- `pop(0)` on a cache over the limit
abbrev limited : ReaderStorage → ReaderStorage
limited [] = []
limited (e ∷ es) = if ltb fast_cache_size_limit (length (e ∷ es)) then es else e ∷ es

unfoldable pub add_kpersistent : KeyObject → Bytes → ReaderStorage → ReaderStorage
add_kpersistent key kpersistent es = limited (
    without es (remove_kpersistent key es)
    ++ record { access_credential = key; kpersistent = kpersistent } ∷ [])

-- the entries hold other objects, whatever the bytes of their keys
abbrev pub Others : KeyObject → ReaderStorage → Type 0
Others key = All (λ e. (e.access_credential.identity == key.identity) ≡ false)

-- The first entry that holds the object is taken out, and the others stay.
pub record Removed (key : KeyObject) (es left : ReaderStorage) : Type 0 where
  pub front : ReaderStorage
  pub entry : ReaderFastCacheEntry
  pub back : ReaderStorage
  pub place : es ≡ front ++ entry ∷ back
  pub same : (entry.access_credential.identity == key.identity) ≡ true
  pub before : Others key front
  pub kept : left ≡ front ++ back

-- with the first entry for the object removed, or as they are
Leaves : KeyObject → ReaderStorage → Result ReaderStorage → Type 0
Leaves key es (ok left) = Removed key es left
Leaves key es (err x) = Others key es

further :
    (key : KeyObject) (e : ReaderFastCacheEntry) (es : ReaderStorage) (r : Result ReaderStorage)
    → (e.access_credential.identity == key.identity) ≡ false
    → Leaves key es r
    → Leaves key (e ∷ es) (r >>= λ es'. ok (e ∷ es'))
unfolding Leaves
further key e es (ok left) other h = record {
  front = e ∷ h.front;
  entry = h.entry;
  back = h.back;
  place = ap (λ l. e ∷ l) h.place;
  same = h.same;
  before = (other, h.before);
  kept = ap (λ l. e ∷ l) h.kept;
}
further key e es (err x) other h = (other, h)

remove-Leaves : (key : KeyObject) (es : ReaderStorage) → Leaves key es (remove_kpersistent key es)
unfolding remove_kpersistent Leaves
remove-Leaves key [] = tt
remove-Leaves key (e ∷ es) = elim (Bool-cases (e.access_credential.identity == key.identity)) [
  | inl same ↦ rw same (record {
    front = [];
    entry = e;
    back = es;
    place = refl;
    same = same;
    before = tt;
    kept = refl;
  })
  | inr other ↦ rw other (further key e es (remove_kpersistent key es) other (remove-Leaves key es))
]

limited-drop :
    (es : ReaderStorage) (e : ReaderFastCacheEntry)
    → length es ≤ fast_cache_size_limit
    → limited (es ++ e ∷ []) ≡ drop (length es - 15) es ++ e ∷ []
limited-drop [] e h = refl
limited-drop (x ∷ es) e h =
    let n = length-append es (e ∷ []) in
    elim (Bool-cases (ltb fast_cache_size_limit (length (x ∷ (es ++ e ∷ []))))) [
      | inl over ↦
          let one : suc (length es) - 15 ≡ 1 = ground (arith, n, h, over) in rw (over, one) refl
      | inr inside ↦
          let zero' : suc (length es) - 15 ≡ 0 = ground (arith, n, h, inside) in
          rw (inside, zero') refl
    ]

-- What stands before the added entry: the entries without the first that held the object; or all of
-- them, but for the oldest of 16.
abbrev pub Before : KeyObject → ReaderStorage → ReaderStorage → Type 0
Before key es front = Removed key es front ⊎ (Others key es × (front ≡ drop (length es - 15) es))

length-drop_16 : (es : ReaderStorage) → length es ≤ 16 → length (drop (length es - 15) es) ≤ 15
length-drop_16 es h = omega (arith, length-drop (length es - 15) es, h)

Removed-length :
    (key : KeyObject) (es left : ReaderStorage)
    → Removed key es left
    → suc (length left) ≡ length es
Removed-length key es left r =
    rw (r.place, r.kept, length-append r.front (r.entry ∷ r.back), length-append r.front r.back)
      (omega arith)

added :
    (key : KeyObject) (e : ReaderFastCacheEntry) (es : ReaderStorage) (r : Result ReaderStorage)
    → Leaves key es r
    → length es ≤ fast_cache_size_limit
    → (front : ReaderStorage) × (limited (without es r ++ e ∷ []) ≡ front ++ e ∷ [])
      × (length front ≤ 15)
      × Before key es front
unfolding Leaves
added key e es (ok left) r h =
    let n = Removed-length key es left r in
    let none_over : length left - 15 ≡ 0 = omega (arith, n, h) in
    (
      left,
      limited-drop left e (omega (arith, n, h)) ∙ rw none_over refl,
      omega (arith, n, h),
      inl r,
    )
added key e es (err x) others h =
    (drop (length es - 15) es, limited-drop es e h, length-drop_16 es h, inr (others, refl))

-- An addition to a cache of at most 16 entries puts the new entry at the end, and the cache still has at most 16 entries. Before it stand the old entries without the first that held the same object, or, where none held it, all of them but for the oldest of 16: an older entry for the same key in another object stays.
pub add_kpersistent-last :
    (key : KeyObject) (kpersistent : Bytes) (es : ReaderStorage)
    → length es ≤ fast_cache_size_limit
    → (length (add_kpersistent key kpersistent es) ≤ fast_cache_size_limit)
      × (front : ReaderStorage) × (add_kpersistent key kpersistent es
          ≡ front ++ record { access_credential = key; kpersistent = kpersistent } ∷ [])
      × Before key es front
unfolding add_kpersistent
add_kpersistent-last key kpersistent es h =
    let e : ReaderFastCacheEntry = record { access_credential = key; kpersistent = kpersistent } in
    let (front, last, few, before) =
      added key e es (remove_kpersistent key es) (remove-Leaves key es) h in
    (rw (last, length-append front (e ∷ [])) (omega (arith, few)), front, last, before)
