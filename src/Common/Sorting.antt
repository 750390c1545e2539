-- ===== src/Common/Sorting.antt =====
-- The stable sort of a list by a pair of numbers, first number first.
use Prim.Native.Nat.{ℕ}
use mathlib.Core.Path.{◌≡◌, refl, ap, sym, ◌∙◌}
use mathlib.Core.Logic.{inl, inr}
use mathlib.Core.Bool.{Bool, true, false, ◌&&◌, ◌||◌}
use mathlib.Core.List.{List, [], ◌∷◌, ◌++◌}
use native.Mathlib.Omega.{arith}
use diaspora_equb_product.Common.Tests.{ltb, ◌==◌, if◌then◌else◌, Bool-cases}
use diaspora_equb_product.Common.Lists.{filter_by}

-- `a` comes before `b`.
abbrev pub before : ℕ × ℕ → ℕ × ℕ → Bool
before (a, i) (b, j) = ltb a b || (a == b && ltb i j)

module _ {A : Type 0} (key : A → ℕ × ℕ) where
  abbrev pub insert_sorted : A → List A → List A
  insert_sorted a [] = a ∷ []
  insert_sorted a (x ∷ xs) =
      let rest = insert_sorted a xs in if before (key x) (key a) then x ∷ rest else a ∷ x ∷ xs

  -- `xs.sort((a, b) => …)`
  abbrev pub sort_by : List A → List A
  sort_by [] = []
  sort_by (x ∷ xs) = insert_sorted x (sort_by xs)

  -- Every element comes after `a`.
  abbrev pub AllAfter : A → List A → Type 0
  AllAfter a [] = Unit {0}
  AllAfter a (x ∷ xs) = (before (key a) (key x) ≡ true) × AllAfter a xs

  abbrev pub Ascending : List A → Type 0
  Ascending [] = Unit {0}
  Ascending (x ∷ xs) = AllAfter x xs × Ascending xs

  pub insert_sorted_of_AllAfter :
      (a : A) (xs : List A) → AllAfter a xs → insert_sorted a xs ≡ a ∷ xs
  insert_sorted_of_AllAfter a [] h = refl
  insert_sorted_of_AllAfter a (x ∷ xs) h = ground arith

  -- Elements with different keys are inserted in either order.
  insert_sorted_comm :
      (a b : A) (xs : List A)
      → before (key a) (key b) ≡ true
      → insert_sorted a (insert_sorted b xs) ≡ insert_sorted b (insert_sorted a xs)
  insert_sorted_comm a b [] h = ground arith
  insert_sorted_comm a b (x ∷ xs) h = ground (arith, insert_sorted_comm a b xs h)

  sort_by-append_insert :
      (ws ys : List A) (zs : List A) (a : A)
      → AllAfter a ws
      → sort_by zs ≡ insert_sorted a (sort_by ys)
      → sort_by (ws ++ zs) ≡ insert_sorted a (sort_by (ws ++ ys))
  sort_by-append_insert [] ys zs a h e = e
  sort_by-append_insert (x ∷ ws) ys zs a (h, k) e =
      ap (insert_sorted x) (sort_by-append_insert ws ys zs a k e)
      ∙ sym (insert_sorted_comm a x (sort_by (ws ++ ys)) h)

  pub AllAfter-filter_by :
      (p : A → Bool) (a : A) (xs : List A) → AllAfter a xs → AllAfter a (filter_by p xs)
  AllAfter-filter_by p a [] h = tt
  AllAfter-filter_by p a (x ∷ xs) (h, k) = elim (Bool-cases (p x)) [
    | inl e ↦ rw e (h, AllAfter-filter_by p a xs k)
    | inr e ↦ rw e (AllAfter-filter_by p a xs k)
  ]

  -- The results of several queries, put together and sorted, are those of one query that asks for
  -- any of them, where no element answers two queries.
  abbrev pub collect : List (A → Bool) → List A → List A
  collect [] xs = []
  collect (p ∷ ps) xs = filter_by p xs ++ collect ps xs

  abbrev pub any_of : List (A → Bool) → A → Bool
  any_of [] a = false
  any_of (p ∷ ps) a = p a || any_of ps a

  abbrev pub Disjoint : List (A → Bool) → Type 0
  Disjoint [] = Unit {0}
  Disjoint (p ∷ ps) = ((a : A) → p a ≡ true → any_of ps a ≡ false) × Disjoint ps

  collect_none :
      (ps : List (A → Bool)) (x : A) (xs : List A)
      → any_of ps x ≡ false
      → collect ps (x ∷ xs) ≡ collect ps xs
  collect_none [] x xs h = refl
  collect_none (p ∷ ps) x xs h = ground (arith, collect_none ps x xs)

  collect_some :
      (ps : List (A → Bool)) (x : A) (xs : List A)
      → Disjoint ps
      → AllAfter x xs
      → any_of ps x ≡ true
      → sort_by (collect ps (x ∷ xs)) ≡ insert_sorted x (sort_by (collect ps xs))
  collect_some [] x xs d h e = absurd (ground arith)
  collect_some (p ∷ ps) x xs (d, ds) h e = elim (Bool-cases (p x)) [
    | inl q ↦ rw (q, collect_none ps x xs (d x q)) refl
    | inr q ↦ rw q (
        sort_by-append_insert (filter_by p xs) (collect ps xs) (collect ps (x ∷ xs)) x
          (AllAfter-filter_by p x xs h) (collect_some ps x xs ds h (ground arith)))
  ]

  pub sort_by-collect :
      (ps : List (A → Bool)) (xs : List A)
      → Disjoint ps
      → Ascending xs
      → sort_by (collect ps xs) ≡ filter_by (any_of ps) xs
  sort_by-collect ps [] d h = nothing ps
    where
      nothing : (qs : List (A → Bool)) → sort_by (collect qs []) ≡ []
      nothing [] = refl
      nothing (q ∷ qs) = nothing qs
  sort_by-collect ps (x ∷ xs) d (h, k) = elim (Bool-cases (any_of ps x)) [
    | inl e ↦ rw e (
        collect_some ps x xs d h e
        ∙ ap (insert_sorted x) (sort_by-collect ps xs d k)
        ∙ insert_sorted_of_AllAfter x _ (AllAfter-filter_by (any_of ps) x xs h))
    | inr e ↦ rw e (ap sort_by (collect_none ps x xs e) ∙ sort_by-collect ps xs d k)
  ]
