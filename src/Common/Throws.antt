-- ===== src/Common/Throws.antt =====
-- What a service throws, and the calls that may throw: a call takes the state and gives its
-- result with the state reached, so that what was written before a throw stays written.
-- `common/filters` reads the HTTP status from the exception; `status` is that of its class.
use Prim.Native.Nat.{ℕ}
use mathlib.Core.Bool.{Bool}
use mathlib.Core.Option.{Option, none, some}
use mathlib.Core.Path.{◌≡◌, refl}
use mathlib.Core.Logic.{◌⊎◌, inl, inr}
use native.Mathlib.Omega.{arith}
use diaspora_equb_product.Common.Tests.{if◌then◌else◌}

-- The first block are `explicitError` codes; `unique_violation` is the database's refusal of a
-- second row under a unique index, `numeric_overflow` its refusal of an amount too large for its column, `syntax_error` is BigInt's on a text that is no integer.
pub data Fault : Type 0 where
  not_pool_admin season_complete round_not_open validation_error idempotency_replay_conflict : Fault
  winner_before_close round_already_picked no_eligible_winner season_not_completed : Fault
  not_found conflict bad_request forbidden too_many_requests : Fault
  unique_violation numeric_overflow chain_error invalid_address type_error syntax_error
        division_by_zero :
      Fault

pub status : Fault → ℕ
status Fault.not_pool_admin = 403
status Fault.season_complete = 409
status Fault.round_not_open = 409
status Fault.validation_error = 400
status Fault.idempotency_replay_conflict = 409
status Fault.winner_before_close = 409
status Fault.round_already_picked = 409
status Fault.no_eligible_winner = 409
status Fault.season_not_completed = 409
status Fault.not_found = 404
status Fault.conflict = 409
status Fault.bad_request = 400
status Fault.forbidden = 403
status Fault.too_many_requests = 429
status _ = 500

pub data Result {ℓ} (A : Type ℓ) : Type ℓ where
  ok : A → Result A
  err : Fault → Result A

-- A call on the state `S`.
abbrev pub Action : Type 0 → Type 0 → Type 0
Action S A = S → Result A × S

module _ {S A : Type 0} where
  abbrev pub pure : A → Action S A
  pure a s = (ok a, s)

  abbrev pub throw : Fault → Action S A
  throw e s = (err e, s)

  abbrev pub gets : (S → A) → Action S A
  gets f s = (ok (f s), s)

  -- `if (!x) throw …`
  abbrev pub some_or : Option A → Fault → Action S A
  some_or none e = throw e
  some_or (some a) e = pure a

  -- A result of code that touches no state.
  abbrev pub lift : Result A → Action S A
  lift r s = (r, s)

  -- `dataSource.transaction`: the writes of a callback that throws are rolled back.
  abbrev pub transaction : Action S A → Action S A
  transaction m s = let (r, s') = m s in elim r [ ok a ↦ (ok a, s') | err e ↦ (err e, s) ]

infixl 5 ◌>>=◌ ◌>>◌
abbrev pub ◌>>=◌ : {S A B : Type 0} → Action S A → (A → Action S B) → Action S B
◌>>=◌ m f s = let (r, s') = m s in elim r [ ok a ↦ f a s' | err e ↦ (err e, s') ]

abbrev pub ◌>>◌ : {S A B : Type 0} → Action S A → Action S B → Action S B
m >> k = m >>= λ _. k

-- `if (c) throw …`
abbrev pub throw_if : {S : Type 0} → Bool → Fault → Action S (Unit {0})
throw_if c e s = (if c then err e else ok tt, s)

abbrev pub modify : {S : Type 0} → (S → S) → Action S (Unit {0})
modify f s = (ok tt, f s)

-- To split on how a call ends.
pub outcome_cases :
    {S A : Type 0} (p : Result A × S)
    → ((a : A) × (t : S) × (p ≡ (ok a, t))) ⊎ ((e : Fault) × (t : S) × (p ≡ (err e, t)))
outcome_cases (ok a, t) = inl (a, t, refl)
outcome_cases (err e, t) = inr (e, t, refl)

-- A transaction that ends well is its callback.
pub transaction-ok :
    {S A : Type 0} (m : Action S A) (s : S) {a : A} {s' : S}
    → transaction m s ≡ (ok a, s')
    → m s ≡ (ok a, s')
transaction-ok m s h = elim (outcome_cases (m s)) [
  | inl (a, t, e) ↦ ground arith
  | inr (e, t, k) ↦ absurd (ground arith)
]

pub result_cases {ℓ} :
    {A : Type ℓ} (r : Result A) → ((a : A) × (r ≡ ok a)) ⊎ ((e : Fault) × (r ≡ err e))
result_cases (ok a) = inl (a, refl)
result_cases (err e) = inr (e, refl)

-- A transitive relation between the states before and after a call, for one call after another.
module _ {S : Type 0} (R : S → S → Type 0) (trans : (a b c : S) → R a b → R b c → R a c) where
  then_related :
      {A B : Type 0} (f : A → Action S B) (s : S) (p : Result A × S)
      → R s p.1
      → ((a : A) → R p.1 (f a p.1).1)
      → R s ((lift p.0 >>= f) p.1).1
  then_related f s (ok a, t) k l = trans s t (f a t).1 k (l a)
  then_related f s (err e, t) k l = k

  pub bind_related :
      {A B : Type 0} (m : Action S A) (f : A → Action S B) (s : S)
      → R s (m s).1
      → ((a : A) → R (m s).1 (f a (m s).1).1)
      → R s ((m >>= f) s).1
  bind_related m f s k l = then_related f s (m s) k l
