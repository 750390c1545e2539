-- ===== src/Common/Tables.antt =====
-- A database table as the list of its rows, each with a key that the database issues. A query is
-- a test on a row.
use Prim.Native.Nat.{ℕ, ◌+◌, ◌≤◌, ◌<◌}
use mathlib.Core.Path.{◌≡◌, refl}
use mathlib.Core.Logic.{◌≢◌, ◌⊎◌, inl, inr}
use mathlib.Core.Bool.{Bool, true, false}
use mathlib.Core.Option.{Option, none, some}
use mathlib.Core.List.{List, [], ◌∷◌, ◌++◌}
use native.Mathlib.Omega.{arith}
use diaspora_equb_product.Common.Tests.{◌==◌, if◌then◌else◌, Bool-cases}
use diaspora_equb_product.Common.Lists.{In, any}

module _ {ℓ} {A : Type ℓ} where
  -- `repo.findOne({ where })`
  abbrev pub find_one : (A → Bool) → List A → Option A
  find_one p [] = none
  find_one p (x ∷ xs) = if p x then some x else find_one p xs

  -- `repo.save` of a row that is stored: it takes the place of the row with its key.
  abbrev pub update_row : (A → ℕ) → A → List A → List A
  update_row key a [] = []
  update_row key a (x ∷ xs) = if key x == key a then a ∷ xs else x ∷ update_row key a xs

  pub find_one-In : (p : A → Bool) (xs : List A) {a : A} → find_one p xs ≡ some a → In a xs
  find_one-In p [] h = absurd (ground arith)
  find_one-In p (x ∷ xs) {a} h = elim (Bool-cases (p x)) [
    | inl e ↦ inl (ground arith)
    | inr e ↦ inr (find_one-In p xs (ground arith))
  ]

  pub find_one_passes : (p : A → Bool) (xs : List A) {a : A} → find_one p xs ≡ some a → p a ≡ true
  find_one_passes p [] h = absurd (ground arith)
  find_one_passes p (x ∷ xs) {a} h = ground (arith, find_one_passes p xs {a = a})

module _ {ℓ} {A : Type ℓ} (key : A → ℕ) where
  -- No row of the table has the key `k`.
  abbrev pub NoKey : ℕ → List A → Type 0
  NoKey k [] = Unit {0}
  NoKey k (x ∷ xs) = (key x ≢ k) × NoKey k xs

  -- The keys of a table are distinct, positive and below the next one that is issued.
  abbrev pub IsKeyed : ℕ → List A → Type 0
  IsKeyed n [] = Unit {0}
  IsKeyed n (x ∷ xs) = (0 < key x) × (key x < n) × NoKey (key x) xs × IsKeyed n xs

  pub IsKeyed-mono : (n m : ℕ) (xs : List A) → n ≤ m → IsKeyed n xs → IsKeyed m xs
  IsKeyed-mono n m [] h k = tt
  IsKeyed-mono n m (x ∷ xs) h (p, q, d, k) = (p, omega arith, d, IsKeyed-mono n m xs h k)

  NoKey-of_IsKeyed : (n : ℕ) (xs : List A) → IsKeyed n xs → NoKey n xs
  NoKey-of_IsKeyed n [] k = tt
  NoKey-of_IsKeyed n (x ∷ xs) (p, q, d, k) = (omega arith, NoKey-of_IsKeyed n xs k)

  NoKey-append : (k : ℕ) (a : A) (xs : List A) → key a ≢ k → NoKey k xs → NoKey k (xs ++ a ∷ [])
  NoKey-append k a [] h d = (h, tt)
  NoKey-append k a (x ∷ xs) h (e, d) = (e, NoKey-append k a xs h d)

  -- A row under the next key keeps the table keyed.
  pub append-IsKeyed :
      (n : ℕ) (a : A) (xs : List A)
      → 0 < n
      → key a ≡ n
      → IsKeyed n xs
      → IsKeyed (n + 1) (xs ++ a ∷ [])
  append-IsKeyed n a [] z e k = (omega arith, omega arith, tt, tt)
  append-IsKeyed n a (x ∷ xs) z e (p, q, d, k) =
      (p, omega arith, NoKey-append (key x) a xs (omega arith) d, append-IsKeyed n a xs z e k)

  NoKey-update_row : (k : ℕ) (a : A) (xs : List A) → NoKey k xs → NoKey k (update_row key a xs)
  NoKey-update_row k a [] d = tt
  NoKey-update_row k a (x ∷ xs) d = ground (arith, NoKey-update_row k a xs)

  pub update_row-IsKeyed :
      (n : ℕ) (a : A) (xs : List A) → IsKeyed n xs → IsKeyed n (update_row key a xs)
  update_row-IsKeyed n a [] k = tt
  update_row-IsKeyed n a (x ∷ xs) k =
      ground (arith, update_row-IsKeyed n a xs, NoKey-update_row (key x) a xs)

  -- The row under a key.
  abbrev pub has_id : ℕ → A → Bool
  has_id k x = key x == k

  find_one-ne-key :
      (p : A → Bool) (xs : List A) {a : A} {k : ℕ} → find_one p xs ≡ some a → NoKey k xs → key a ≢ k
  find_one-ne-key p [] h d = absurd (ground arith)
  find_one-ne-key p (x ∷ xs) {a} {k} h d = elim (Bool-cases (p x)) [
    | inl e ↦ λ same. d.0 (ground arith)
    | inr e ↦ find_one-ne-key p xs (ground arith) d.1
  ]

  -- A row that some query finds is the one under its key.
  pub find_one-has_id :
      (p : A → Bool) (n : ℕ) (xs : List A) {a : A}
      → IsKeyed n xs
      → find_one p xs ≡ some a
      → find_one (has_id (key a)) xs ≡ some a
  find_one-has_id p n [] k h = absurd (ground arith)
  find_one-has_id p n (x ∷ xs) {a} k h = elim (Bool-cases (p x)) [
    | inl e ↦ ground arith
    | inr e ↦
        let found : find_one p xs ≡ some a = ground arith in
        let other = find_one-ne-key p xs found k.2 in
        let ih = find_one-has_id p n xs k.3 found in ground arith
  ]

  pub find_one-append :
      (k : ℕ) (a : A) (xs : List A)
      → key a ≡ k
      → NoKey k xs
      → find_one (has_id k) (xs ++ a ∷ []) ≡ some a
  find_one-append k a [] e d = ground arith
  find_one-append k a (x ∷ xs) e d = ground (arith, find_one-append k a xs)

  -- The new row is found under its key.
  pub find_one-append_next :
      (n : ℕ) (a : A) (xs : List A)
      → key a ≡ n
      → IsKeyed n xs
      → find_one (has_id n) (xs ++ a ∷ []) ≡ some a
  find_one-append_next n a xs e k = find_one-append n a xs e (NoKey-of_IsKeyed n xs k)

  -- After an update the row is found under its key, if there was one.
  pub find_one-update_row :
      (a : A) (xs : List A) {b : A}
      → find_one (has_id (key a)) xs ≡ some b
      → find_one (has_id (key a)) (update_row key a xs) ≡ some a
  find_one-update_row a [] h = absurd (ground arith)
  find_one-update_row a (x ∷ xs) {b} h = ground (arith, find_one-update_row a xs {b = b})

  -- The rows under other keys are not touched.
  pub find_one-update_row_ne :
      (k : ℕ) (a : A) (xs : List A)
      → key a ≢ k
      → find_one (has_id k) (update_row key a xs) ≡ find_one (has_id k) xs
  find_one-update_row_ne k a [] h = refl
  find_one-update_row_ne k a (x ∷ xs) h = ground (arith, find_one-update_row_ne k a xs)

pub find_one-append_none {ℓ} :
    {A : Type ℓ} (p : A → Bool) (a : A) (xs : List A)
    → find_one p xs ≡ none
    → p a ≡ true
    → find_one p (xs ++ a ∷ []) ≡ some a
find_one-append_none p a [] h e = ground arith
find_one-append_none p a (x ∷ xs) h e = ground (arith, find_one-append_none p a xs)

pub find_one-append_some {ℓ} :
    {A : Type ℓ} (p : A → Bool) (b : A) (xs : List A) {a : A}
    → find_one p xs ≡ some a
    → find_one p (xs ++ b ∷ []) ≡ some a
find_one-append_some p b [] h = absurd (ground arith)
find_one-append_some p b (x ∷ xs) {a} h = ground (arith, find_one-append_some p b xs {a = a})

-- A row that takes the place of the one that a query found, and passes the query, is found.
pub find_one-update_passes {ℓ} :
    {A : Type ℓ} (key : A → ℕ) (p : A → Bool) (a x : A) (xs : List A)
    → p a ≡ true
    → find_one p xs ≡ some x
    → key x ≡ key a
    → find_one p (update_row key a xs) ≡ some a
find_one-update_passes key p a x [] h e k = absurd (ground arith)
find_one-update_passes key p a x (y ∷ xs) h e k =
    ground (arith, find_one-update_passes key p a x xs h)

-- After an update that a query does not see, it finds the row that it found before, or the new one
-- in its place.
pub find_one-update_some {ℓ} :
    {A : Type ℓ} (key : A → ℕ) (p : A → Bool) (a x : A) (xs : List A) {b : A}
    → find_one (has_id key (key a)) xs ≡ some x
    → p a ≡ p x
    → find_one p xs ≡ some b
    → (find_one p (update_row key a xs) ≡ some b)
      ⊎ ((find_one p (update_row key a xs) ≡ some a) × (key a ≡ key b))
find_one-update_some key p a x [] f e h = absurd (ground arith)
find_one-update_some key p a x (y ∷ ys) {b} f e h = elim (Bool-cases (key y == key a)) [
  | inl k ↦ elim (Bool-cases (p y)) [
    | inl g ↦ inr (ground arith, ground arith)
    | inr g ↦ inl (ground arith)
  ]
  | inr k ↦ elim (Bool-cases (p y)) [
    | inl g ↦ inl (ground arith)
    | inr g ↦ elim (find_one-update_some key p a x ys {b = b} (ground arith) e (ground arith)) [
      | inl found ↦ inl (ground arith)
      | inr (found, same) ↦ inr (ground arith, same)
    ]
  ]
]

pub any-find_one {ℓ} :
    {A : Type ℓ} (p : A → Bool) (xs : List A) {x : A} → find_one p xs ≡ some x → any p xs ≡ true
any-find_one p [] h = absurd (ground arith)
any-find_one p (y ∷ xs) {x} h = ground (arith, any-find_one p xs {x = x})

pub any-find_one-none {ℓ} :
    {A : Type ℓ} (p : A → Bool) (xs : List A) → find_one p xs ≡ none → any p xs ≡ false
any-find_one-none p [] h = refl
any-find_one-none p (y ∷ xs) h = ground (arith, any-find_one-none p xs)
