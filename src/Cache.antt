-- ===== src/Cache.antt =====
-- CacheService (backend/src/cache/cache.service.ts): a map from keys to values with the time until
-- which they count.
pub mod Refines
mod Tests
use diaspora_equb_product.Common.{
  ℕ, ◌+◌, ◌*◌, Bool, true, false, not, ◌&&◌, Option, none, some, List, [], ◌∷◌, Text, ltb, ◌==◌,
  if◌then◌else◌, text_eq, filter_by,
}

-- A stored value may be `null`.
pub record Entry {ℓ} (V : Type ℓ) : Type ℓ where
  pub value : Option V
  pub expires_at : ℕ

abbrev pub starts_with : Text → Text → Bool
starts_with [] s = true
starts_with (c ∷ p) [] = false
starts_with (c ∷ p) (d ∷ s) = let rest = starts_with p s in c == d && rest

module _ {ℓ} {V : Type ℓ} where
  abbrev pub lookup : Text → List (Text × Entry V) → Option (Entry V)
  lookup k [] = none
  lookup k ((j, e) ∷ c) = let rest = lookup k c in if text_eq j k then some e else rest

  -- `cache.set`
  abbrev pub insert : Text → Entry V → List (Text × Entry V) → List (Text × Entry V)
  insert k e [] = (k, e) ∷ []
  insert k e ((j, x) ∷ c) =
      let rest = insert k e c in if text_eq j k then (k, e) ∷ c else (j, x) ∷ rest

  abbrev pub is_expired : ℕ → Entry V → Bool
  is_expired now e = ltb e.expires_at now

  -- `del`
  unfoldable pub del : Text → List (Text × Entry V) → List (Text × Entry V)
  del k c = filter_by (λ x. not (text_eq x.0 k)) c

  unfoldable pub get : ℕ → Text → List (Text × Entry V) → Option V × List (Text × Entry V)
  get now k c = elim (lookup k c) [
    | none ↦ (none, c)
    | some e ↦ if is_expired now e then (none, del k c) else (e.value, c)
  ]

  unfoldable pub set : ℕ → Text → Option V → ℕ → List (Text × Entry V) → List (Text × Entry V)
  set now k value ttl_seconds c =
      insert k (record { value = value; expires_at = now + ttl_seconds * 1000 }) c

  unfoldable pub del_by_prefix : Text → List (Text × Entry V) → List (Text × Entry V)
  del_by_prefix prefix c = filter_by (λ x. not (starts_with prefix x.0)) c

  unfoldable pub cleanup : ℕ → List (Text × Entry V) → List (Text × Entry V)
  cleanup now c = filter_by (λ x. not (is_expired now x.1)) c

  -- `getOrSet`; the factory ends at `later` with `made`.
  unfoldable pub get_or_set :
      ℕ → ℕ → Text → ℕ → Option V → List (Text × Entry V) → Option V × List (Text × Entry V)
  get_or_set now later k ttl_seconds made c =
      let (cached, rest) = get now k c in
      elim cached [ some v ↦ (some v, rest) | none ↦ (made, set later k made ttl_seconds rest) ]
