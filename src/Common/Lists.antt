-- ===== src/Common/Lists.antt =====
-- Lists measured and indexed by native numbers, membership and filters by recursion.
use Prim.Native.Nat.{ℕ, zero, suc, ◌+◌, ◌-◌, ◌<◌}
use mathlib.Core.Path.{◌≡◌, refl, ap}
use mathlib.Core.Logic.{◌⊎◌, inl, inr}
use mathlib.Core.Bool.{Bool, true, false, ◌||◌}
use mathlib.Core.List.{List, [], ◌∷◌, ◌++◌}
use mathlib.Core.Option.{Option, none, some}
use native.Mathlib.Omega.{arith}
use diaspora_equb_product.Common.Tests.{◌==◌, if◌then◌else◌, Bool-cases}

module _ {ℓ} {A : Type ℓ} where
  abbrev pub length : List A → ℕ
  length [] = 0
  length (x ∷ xs) = suc (length xs)

  abbrev pub get_elem? : List A → ℕ → Option A
  get_elem? [] i = none
  get_elem? (x ∷ xs) zero = some x
  get_elem? (x ∷ xs) (suc i) = get_elem? xs i

  abbrev pub is_empty : List A → Bool
  is_empty [] = true
  is_empty (x ∷ xs) = false

  -- `xs.filter(p)`
  abbrev pub filter_by : (A → Bool) → List A → List A
  filter_by p [] = []
  filter_by p (x ∷ xs) = let rest = filter_by p xs in if p x then x ∷ rest else rest

  -- `xs.some(p)`
  -- `xs.slice(0, n)`
  abbrev pub take : ℕ → List A → List A
  take n [] = []
  take n (x ∷ xs) = if n == 0 then [] else x ∷ take (n - 1) xs

  abbrev pub reverse : List A → List A
  reverse [] = []
  reverse (x ∷ xs) = reverse xs ++ x ∷ []

  pub reverse-append : (a : A) (xs : List A) → reverse (xs ++ a ∷ []) ≡ a ∷ reverse xs
  reverse-append a [] = refl
  reverse-append a (x ∷ xs) = ap (λ ys. ys ++ x ∷ []) (reverse-append a xs)

  abbrev pub any : (A → Bool) → List A → Bool
  any p [] = false
  any p (x ∷ xs) = p x || any p xs

  -- Membership with the witness kept.
  abbrev pub In : A → List A → Type ℓ
  In a [] = Unit {ℓ} × ⊥
  In a (x ∷ xs) = (a ≡ x) ⊎ In a xs

  pub length-append : (xs ys : List A) → length (xs ++ ys) ≡ length xs + length ys
  length-append [] ys = omega arith
  length-append (x ∷ xs) ys = omega (arith, length-append xs ys)

  pub get_elem?_lt : (xs : List A) (i : ℕ) → i < length xs → (a : A) × (get_elem? xs i ≡ some a)
  get_elem?_lt [] i h = elim h [ ]
  get_elem?_lt (x ∷ xs) zero h = (x, refl)
  get_elem?_lt (x ∷ xs) (suc i) h = get_elem?_lt xs i (omega arith)

  pub get_elem?-In : (xs : List A) (i : ℕ) {a : A} → get_elem? xs i ≡ some a → In a xs
  get_elem?-In [] i h = absurd (ground arith)
  get_elem?-In (x ∷ xs) zero h = inl (ground arith)
  get_elem?-In (x ∷ xs) (suc i) h = inr (get_elem?-In xs i h)

  pub In-filter_by :
      (p : A → Bool) (xs : List A) {a : A} → In a (filter_by p xs) → In a xs × (p a ≡ true)
  In-filter_by p [] h = absurd h.1
  In-filter_by p (x ∷ xs) {a} h = kept (In-filter_by p xs) (Bool-cases (p x)) h
    where
      kept :
          (In a (filter_by p xs) → In a xs × (p a ≡ true))
          → (p x ≡ true) ⊎ (p x ≡ false)
          → In a (if p x then x ∷ filter_by p xs else filter_by p xs)
          → In a (x ∷ xs) × (p a ≡ true)
      kept ih (inl e) m = kept_head ih e (rw e at m)
        where
          kept_head :
              (In a (filter_by p xs) → In a xs × (p a ≡ true))
              → p x ≡ true
              → (a ≡ x) ⊎ In a (filter_by p xs)
              → In a (x ∷ xs) × (p a ≡ true)
          kept_head ih e (inl same) = (inl same, rw same e)
          kept_head ih e (inr m) = let (m', q) = ih m in (inr m', q)
      kept ih (inr e) m = let (m', q) = ih (rw e at m) in (inr m', q)
