-- ===== src/Cache/Refines.antt =====
-- The cache implements a function from keys to values with expiry.
use diaspora_equb_product.Common.{
  ℕ, ◌+◌, ◌*◌, ◌≡◌, refl, sym, subst, ◌⊎◌, ◌∙◌, ◌≤◌, Bool, not, Option, none, some, List, [], ◌∷◌,
  Text, arith, if◌then◌else◌, text_eq, text_eq_iff, text_eq→eq, text_eq_self, filter_by, Bool-cases,
  Option-cases, inl, inr,
}
use diaspora_equb_product.Cache.{
  Entry, starts_with, lookup, insert, is_expired, del, get, set, del_by_prefix, cleanup, get_or_set,
}

module _ {ℓ} {V : Type ℓ} where
  -- The value that counts at a time.
  abbrev pub live : ℕ → Option (Entry V) → Option V
  live t none = none
  live t (some e) = if is_expired t e then none else e.value

  lookup-insert :
      (j k : Text) (e : Entry V) (c : List (Text × Entry V))
      → lookup j (insert k e c) ≡ (if text_eq k j then some e else lookup j c)
  lookup-insert j k e [] = refl
  lookup-insert j k e ((i, x) ∷ c) =
      ground (arith, lookup-insert j k e c, text_eq_iff i k, text_eq_iff k j, text_eq_iff i j)

  lookup-del :
      (j k : Text) (c : List (Text × Entry V))
      → lookup j (del k c) ≡ (if text_eq k j then none else lookup j c)
  unfolding del
  lookup-del j k [] = ground arith
  lookup-del j k ((i, x) ∷ c) =
      ground (arith, lookup-del j k c, text_eq_iff i k, text_eq_iff k j, text_eq_iff i j)

  lookup-del_by_prefix :
      (j p : Text) (c : List (Text × Entry V))
      → lookup j (del_by_prefix p c) ≡ (if starts_with p j then none else lookup j c)
  unfolding del_by_prefix
  lookup-del_by_prefix j p [] = ground arith
  lookup-del_by_prefix j p ((i, x) ∷ c) =
      ground (arith, lookup-del_by_prefix j p c, text_eq_iff i j)

  -- No key has two entries.
  abbrev pub Unique : List (Text × Entry V) → Type ℓ
  Unique [] = Unit {ℓ}
  Unique ((k, e) ∷ c) = (lookup k c ≡ none) × Unique c

  lookup-filter_by-none :
      (p : Text × Entry V → Bool) (j : Text) (c : List (Text × Entry V))
      → lookup j c ≡ none
      → lookup j (filter_by p c) ≡ none
  lookup-filter_by-none p j [] h = refl
  lookup-filter_by-none p j ((i, x) ∷ c) h = ground (arith, lookup-filter_by-none p j c)

  filter_by-Unique :
      (p : Text × Entry V → Bool) (c : List (Text × Entry V)) → Unique c → Unique (filter_by p c)
  filter_by-Unique p [] h = h
  filter_by-Unique p ((i, x) ∷ c) (h, u) = elim (Bool-cases (p (i, x))) [
    | inl e ↦ rw e (lookup-filter_by-none p i c h, filter_by-Unique p c u)
    | inr e ↦ rw e (filter_by-Unique p c u)
  ]

  insert-Unique :
      (k : Text) (e : Entry V) (c : List (Text × Entry V)) → Unique c → Unique (insert k e c)
  insert-Unique k e [] h = (refl, tt)
  insert-Unique k e ((i, x) ∷ c) (h, u) = elim (Bool-cases (text_eq i k)) [
    | inl s ↦ let same = text_eq→eq i k s in rw s (ground arith, u)
    | inr s ↦ rw s (
      ground (arith, lookup-insert i k e c, text_eq_iff k i, text_eq_iff i k),
      insert-Unique k e c u,
    )
  ]

  -- Removing what has expired does not show later.
  live-cleanup :
      (now t : ℕ) (j : Text) (c : List (Text × Entry V))
      → Unique c
      → now ≤ t
      → live t (lookup j (cleanup now c)) ≡ live t (lookup j c)
  unfolding cleanup
  live-cleanup now t j [] u h = refl
  live-cleanup now t j ((i, x) ∷ c) (n, u) h = elim (Bool-cases (text_eq i j)) [
    | inl s ↦
        let same = text_eq→eq i j s in
        let gone = lookup-filter_by-none (λ y. not (is_expired now y.1)) i c n in
        ground (arith, live-cleanup now t j c u h)
    | inr s ↦ ground (arith, live-cleanup now t j c u h)
  ]

  live-get :
      (now t : ℕ) (k j : Text) (c : List (Text × Entry V))
      → now ≤ t
      → live t (lookup j (get now k c).1) ≡ live t (lookup j c)
  unfolding get
  live-get now t k j c h = elim (Option-cases (lookup k c)) [
    | inl e ↦ ground arith
    | inr (x, e) ↦ ground (arith, lookup-del j k c, text_eq_iff k j)
  ]

  get-live :
      (now : ℕ) (k : Text) (c : List (Text × Entry V)) → (get now k c).0 ≡ live now (lookup k c)
  unfolding get
  get-live now k c = elim (Option-cases (lookup k c)) [
    | inl e ↦ ground arith
    | inr (x, e) ↦ ground arith
  ]

-- The calls that change the cache, and the timer.
pub data Op {ℓ} (V : Type ℓ) : Type ℓ where
  get_op : Text → Op V
  set_op : Text → Option V → ℕ → Op V
  del_op : Text → Op V
  del_by_prefix_op : Text → Op V
  cleanup_op : Op V

module _ {ℓ} {V : Type ℓ} where
  abbrev pub step : ℕ → Op V → List (Text × Entry V) → List (Text × Entry V)
  step now (get_op k) c = (get now k c).1
  step now (set_op k v ttl) c = set now k v ttl c
  step now (del_op k) c = del k c
  step now (del_by_prefix_op p) c = del_by_prefix p c
  step now cleanup_op c = cleanup now c

  abbrev pub run : List (ℕ × Op V) → List (Text × Entry V) → List (Text × Entry V)
  run [] c = c
  run ((now, o) ∷ ops) c = run ops (step now o c)

  -- The same calls on a function, where a read and the timer do nothing.
  abbrev pub ideal_step : ℕ → Op V → (Text → Option (Entry V)) → Text → Option (Entry V)
  ideal_step now (get_op k) s j = s j
  ideal_step now (set_op k v ttl) s j =
      if text_eq k j then some (record { value = v; expires_at = now + ttl * 1000 }) else s j
  ideal_step now (del_op k) s j = if text_eq k j then none else s j
  ideal_step now (del_by_prefix_op p) s j = if starts_with p j then none else s j
  ideal_step now cleanup_op s j = s j

  abbrev pub ideal : List (ℕ × Op V) → (Text → Option (Entry V)) → Text → Option (Entry V)
  ideal [] s = s
  ideal ((now, o) ∷ ops) s = ideal ops (ideal_step now o s)

  -- The calls come one after the other, from `t0` on and up to `t`.
  abbrev pub Ordered : ℕ → List (ℕ × Op V) → ℕ → Type 0
  Ordered t0 [] t = t0 ≤ t
  Ordered t0 ((now, o) ∷ ops) t = (t0 ≤ now) × Ordered now ops t

  abbrev Agree : ℕ → List (Text × Entry V) → (Text → Option (Entry V)) → Type ℓ
  Agree t0 c s = (t : ℕ) (j : Text) → t0 ≤ t → live t (lookup j c) ≡ live t (s j)

  get_cases :
      (now : ℕ) (k : Text) (c : List (Text × Entry V))
      → ((get now k c).1 ≡ c) ⊎ ((get now k c).1 ≡ del k c)
  unfolding get
  get_cases now k c = elim (Option-cases (lookup k c)) [
    | inl e ↦ inl (ground arith)
    | inr (x, e) ↦ elim (Bool-cases (is_expired now x)) [
      | inl b ↦ inr (ground arith)
      | inr b ↦ inl (ground arith)
    ]
  ]

  step-Unique : (now : ℕ) (o : Op V) (c : List (Text × Entry V)) → Unique c → Unique (step now o c)
  unfolding get set del del_by_prefix cleanup
  step-Unique now (get_op k) c u = elim (get_cases now k c) [
    | inl e ↦ subst Unique (sym e) u
    | inr e ↦ subst Unique (sym e) (filter_by-Unique _ c u)
  ]
  step-Unique now (set_op k v ttl) c u = insert-Unique k _ c u
  step-Unique now (del_op k) c u = filter_by-Unique _ c u
  step-Unique now (del_by_prefix_op p) c u = filter_by-Unique _ c u
  step-Unique now cleanup_op c u = filter_by-Unique _ c u

  step-Agree :
      (t0 now : ℕ) (o : Op V) (c : List (Text × Entry V)) (s : Text → Option (Entry V))
      → t0 ≤ now
      → Unique c
      → Agree t0 c s
      → Agree now (step now o c) (ideal_step now o s)
  unfolding set
  step-Agree t0 now (get_op k) c s h u a t j b = live-get now t k j c b ∙ a t j (omega arith)
  step-Agree t0 now (set_op k v ttl) c s h u a t j b =
      let old = a t j (omega arith) in
      ground (arith, lookup-insert j k (record { value = v; expires_at = now + ttl * 1000 }) c)
  step-Agree t0 now (del_op k) c s h u a t j b =
      let old = a t j (omega arith) in ground (arith, lookup-del j k c)
  step-Agree t0 now (del_by_prefix_op p) c s h u a t j b =
      let old = a t j (omega arith) in ground (arith, lookup-del_by_prefix j p c)
  step-Agree t0 now cleanup_op c s h u a t j b = live-cleanup now t j c u b ∙ a t j (omega arith)

  run-Agree :
      (ops : List (ℕ × Op V)) (t0 t : ℕ) (c : List (Text × Entry V)) (s : Text → Option (Entry V))
      (j : Text)
      → Ordered t0 ops t
      → Unique c
      → Agree t0 c s
      → live t (lookup j (run ops c)) ≡ live t (ideal ops s j)
  run-Agree [] t0 t c s j o u a = a t j o
  run-Agree ((now, x) ∷ ops) t0 t c s j (h, o) u a =
      run-Agree ops now t (step now x c) (ideal_step now x s) j o (step-Unique now x c u)
        (step-Agree t0 now x c s h u a)

  -- After any calls in the order of time on the empty cache, evictions by reads and by the timer
  -- among them, a read answers what the calls make of a function from keys to values, where only
  -- `set`, `del` and `delByPrefix` count, and nothing for what has expired.
  pub get-run :
      (ops : List (ℕ × Op V)) (t : ℕ) (k : Text)
      → Ordered 0 ops t
      → (get t k (run ops [])).0 ≡ live t (ideal ops (λ j. none) k)
  get-run ops t k o =
      get-live t k (run ops []) ∙ run-Agree ops 0 t [] (λ j. none) k o tt (λ t' j b. refl)

  -- What the factory made for a missing key is given again by the next `getOrSet` before it
  -- expires, which makes nothing and changes nothing.
  pub get_or_set_again :
      (now later soon made_at ttl ttl' : ℕ) (k : Text) (v : V) (other : Option V)
      (c : List (Text × Entry V))
      → (get now k c).0 ≡ none
      → soon ≤ later + ttl * 1000
      → let c' = (get_or_set now later k ttl (some v) c).1 in
        get_or_set soon made_at k ttl' other c' ≡ (some v, c')
  unfolding get_or_set set get
  get_or_set_again now later soon made_at ttl ttl' k v other c h l = ground (
    arith,
    text_eq_self k,
    lookup-insert k k (record { value = some v; expires_at = later + ttl * 1000 }) (get now k c).1,
  )
