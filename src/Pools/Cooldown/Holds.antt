-- ===== src/Pools/Cooldown/Holds.antt =====
-- After an accepted attempt the same caller is refused for eight seconds, whatever others do.
use diaspora_equb_product.Common.{
  ℕ, ◌+◌, ◌-◌, ◌≡◌, ◌∙◌, ◌≢◌, ◌<◌, ◌≤◌, true, not, some, List, [], ◌∷◌, Text, arith, ok, err, Fault,
  ltb, filter_by, text_eq, text_eq_iff, text_eq_self, Bool-cases, inl, inr,
}
use diaspora_equb_product.Pools.Cooldown.{
  Guard, lookup, insert, is_cooling, prune, enforce_cooldown,
}

lookup-insert_self : (k : Text) (t : ℕ) (g : Guard) → lookup k (insert k t g) ≡ some t
lookup-insert_self k t [] = ground (arith, text_eq_self k)
lookup-insert_self k t ((j, u) ∷ g) = ground (arith, text_eq_self k, lookup-insert_self k t g)

lookup-insert_ne : (k j : Text) (t : ℕ) (g : Guard) → k ≢ j → lookup k (insert j t g) ≡ lookup k g
lookup-insert_ne k j t [] h = ground (arith, text_eq_iff j k)
lookup-insert_ne k j t ((i, u) ∷ g) h =
    ground (arith, text_eq_iff j k, text_eq_iff i j, text_eq_iff i k, lookup-insert_ne k j t g h)

-- An entry younger than two cooldowns is not pruned.
lookup-filter_by :
    (k : Text) (t cutoff : ℕ) (g : Guard)
    → lookup k g ≡ some t
    → cutoff ≤ t
    → lookup k (filter_by (λ e. not (ltb e.1 cutoff)) g) ≡ some t
lookup-filter_by k t cutoff [] e h = absurd (ground arith)
lookup-filter_by k t cutoff ((j, u) ∷ g) e h = ground (arith, lookup-filter_by k t cutoff g)

lookup-prune :
    (k : Text) (t now : ℕ) (g : Guard)
    → lookup k g ≡ some t
    → now ≤ t + 16000
    → lookup k (prune now g) ≡ some t
unfolding prune
lookup-prune k t now g e h = ground (arith, lookup-filter_by k t (now - 16000) g e)

-- Attempts of any callers, each with its time.
abbrev pub attempts : List (ℕ × Text) → Guard → Guard
attempts [] g = g
attempts ((now, k) ∷ more) g = attempts more (enforce_cooldown now k g).1

-- All the attempts fall within eight seconds after `t`.
abbrev pub Within : ℕ → List (ℕ × Text) → Type 0
Within t [] = Unit {0}
Within t ((now, k) ∷ more) = (now < t + 8000) × Within t more

is_cooling-some : (t now : ℕ) → 0 < t → now < t + 8000 → is_cooling now (some t) ≡ true
unfolding is_cooling
is_cooling-some t now z h = ground arith

attempt_keeps :
    (k j : Text) (t now : ℕ) (g : Guard)
    → 0 < t
    → lookup k g ≡ some t
    → now < t + 8000
    → lookup k (enforce_cooldown now j g).1 ≡ some t
unfolding enforce_cooldown
attempt_keeps k j t now g z e h = elim (Bool-cases (text_eq j k)) [
  | inl same ↦
      let eq = (text_eq_iff j k).0 same in
      let busy = is_cooling-some t now z h in rw (eq, e, busy) e
  | inr ne ↦ elim (Bool-cases (is_cooling now (lookup j g))) [
    | inl busy ↦ rw busy e
    | inr free ↦ rw free (
        lookup-prune k t now (insert j now g)
          (lookup-insert_ne k j now g (ground (arith, text_eq_iff j k)) ∙ e) (omega arith))
  ]
]

attempts_keep :
    (k : Text) (t : ℕ) (more : List (ℕ × Text)) (g : Guard)
    → 0 < t
    → lookup k g ≡ some t
    → Within t more
    → lookup k (attempts more g) ≡ some t
attempts_keep k t [] g z e h = e
attempts_keep k t ((now, j) ∷ more) g z e h =
    attempts_keep k t more _ z (attempt_keeps k j t now g z e h.0) h.1

-- Once an attempt at time `t` is accepted, a later one of the same pool and caller before `t +
-- 8000` is refused and changes nothing, whatever other attempts before that time come in between.
pub enforce_cooldown_holds :
    (k : Text) (t now : ℕ) (g g' : Guard) (more : List (ℕ × Text))
    → 0 < t
    → enforce_cooldown t k g ≡ (ok tt, g')
    → Within t more
    → now < t + 8000
    → enforce_cooldown now k (attempts more g') ≡ (err Fault.too_many_requests, attempts more g')
unfolding enforce_cooldown
enforce_cooldown_holds k t now g g' more z h w n = elim (Bool-cases (is_cooling t (lookup k g))) [
  | inl busy ↦ absurd (ground arith)
  | inr free ↦
      let next : g' ≡ prune t (insert k t g) = ground arith in
      let stored : lookup k g' ≡ some t =
        rw next (lookup-prune k t t (insert k t g) (lookup-insert_self k t g) (omega arith)) in
      let kept = attempts_keep k t more g' z stored w in rw (kept, is_cooling-some t now z n)
]
