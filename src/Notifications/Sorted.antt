-- ===== src/Notifications/Sorted.antt =====
-- The rows of a table with unique keys in the order of their times and keys, and a part of them.
use diaspora_equb_product.Common.{
  ◌≡◌, refl, sym, ap, ◌∙◌, arith, Bool, true, false, ◌||◌, List, [], ◌∷◌, ◌==◌, any, if◌then◌else◌,
  Bool-cases, inl, inr, filter_by, sort_by, insert_sorted, before, AllAfter, Ascending,
  AllAfter-filter_by, insert_sorted_of_AllAfter,
}
use diaspora_equb_product.Notifications.{Notification, note_key}

-- No key stands twice.
abbrev pub UniqueIds : List Notification → Type 0
UniqueIds [] = Unit {0}
UniqueIds (n ∷ ns) = (any (λ m. m.id == n.id) ns ≡ false) × UniqueIds ns

AllAfter-trans :
    (a x : Notification) (xs : List Notification)
    → before (note_key a) (note_key x) ≡ true
    → AllAfter note_key x xs
    → AllAfter note_key a xs
AllAfter-trans a x [] h k = tt
AllAfter-trans a x (y ∷ xs) h (e, k) = (ground arith, AllAfter-trans a x xs h k)

AllAfter-not_before :
    (a y : Notification) (xs : List Notification)
    → before (note_key y) (note_key a) ≡ false
    → AllAfter note_key y xs
    → AllAfter note_key a xs
AllAfter-not_before a y [] h k = tt
AllAfter-not_before a y (z ∷ xs) h (e, k) = (ground arith, AllAfter-not_before a y xs h k)

insert_sorted-AllAfter :
    (a x : Notification) (xs : List Notification)
    → before (note_key a) (note_key x) ≡ true
    → AllAfter note_key a xs
    → AllAfter note_key a (insert_sorted note_key x xs)
insert_sorted-AllAfter a x [] h k = (h, tt)
insert_sorted-AllAfter a x (y ∷ xs) h (e, k) =
    elim (Bool-cases (before (note_key y) (note_key x))) [
      | inl b ↦ rw b (e, insert_sorted-AllAfter a x xs h k)
      | inr b ↦ rw b (h, (e, k))
    ]

insert_sorted-Ascending :
    (a : Notification) (xs : List Notification)
    → any (λ m. m.id == a.id) xs ≡ false
    → Ascending note_key xs
    → Ascending note_key (insert_sorted note_key a xs)
insert_sorted-Ascending a [] h k = (tt, tt)
insert_sorted-Ascending a (y ∷ xs) h (e, k) = elim (Bool-cases (before (note_key y) (note_key a))) [
  | inl b ↦ rw b (insert_sorted-AllAfter y a xs b e, insert_sorted-Ascending a xs (ground arith) k)
  | inr b ↦
      let first : before (note_key a) (note_key y) ≡ true = ground arith in
      rw b ((first, AllAfter-trans a y xs first e), (e, k))
]

module _ (p : Notification → Bool) where
  any-insert_sorted :
      (a : Notification) (xs : List Notification)
      → any p (insert_sorted note_key a xs) ≡ p a || any p xs
  any-insert_sorted a [] = refl
  any-insert_sorted a (y ∷ xs) = ground (arith, any-insert_sorted a xs)

  any-sort_by : (xs : List Notification) → any p (sort_by note_key xs) ≡ any p xs
  any-sort_by [] = refl
  any-sort_by (x ∷ xs) =
      any-insert_sorted x (sort_by note_key xs) ∙ ap (λ b. p x || b) (any-sort_by xs)

  filter_by-insert_sorted :
      (a : Notification) (xs : List Notification)
      → Ascending note_key xs
      → filter_by p (insert_sorted note_key a xs)
        ≡ (if p a then insert_sorted note_key a (filter_by p xs) else filter_by p xs)
  filter_by-insert_sorted a [] k = refl
  filter_by-insert_sorted a (y ∷ xs) (e, k) = elim (Bool-cases (before (note_key y) (note_key a))) [
    | inl b ↦ ground (arith, filter_by-insert_sorted a xs k)
    | inr b ↦ elim (Bool-cases (p y)) [
      | inl q ↦ ground arith
      | inr q ↦
          let after = AllAfter-filter_by note_key p a xs (AllAfter-not_before a y xs b e) in
          ground (arith, insert_sorted_of_AllAfter note_key a (filter_by p xs) after)
    ]
  ]

pub sort_by-Ascending :
    (xs : List Notification) → UniqueIds xs → Ascending note_key (sort_by note_key xs)
sort_by-Ascending [] u = tt
sort_by-Ascending (x ∷ xs) (h, u) =
    insert_sorted-Ascending x (sort_by note_key xs) (any-sort_by (λ m. m.id == x.id) xs ∙ h)
      (sort_by-Ascending xs u)

-- Sorting what a test keeps is keeping of what is sorted.
pub sort_by-filter_by :
    (p : Notification → Bool) (xs : List Notification)
    → UniqueIds xs
    → sort_by note_key (filter_by p xs) ≡ filter_by p (sort_by note_key xs)
sort_by-filter_by p [] u = refl
sort_by-filter_by p (x ∷ xs) (h, u) =
    let rest = sort_by-filter_by p xs u in
    let inserted = filter_by-insert_sorted p x (sort_by note_key xs) (sort_by-Ascending xs u) in
    elim (Bool-cases (p x)) [
      | inl e ↦ rw e (ap (insert_sorted note_key x) rest ∙ sym (rw e at inserted))
      | inr e ↦ rw e (rest ∙ sym (rw e at inserted))
    ]

any-filter_by :
    (p q : Notification → Bool) (xs : List Notification)
    → any q xs ≡ false
    → any q (filter_by p xs) ≡ false
any-filter_by p q [] h = refl
any-filter_by p q (x ∷ xs) h = ground (arith, any-filter_by p q xs)

pub UniqueIds-filter_by :
    (p : Notification → Bool) (xs : List Notification) → UniqueIds xs → UniqueIds (filter_by p xs)
UniqueIds-filter_by p [] u = tt
UniqueIds-filter_by p (x ∷ xs) (h, u) = elim (Bool-cases (p x)) [
  | inl e ↦ rw e (any-filter_by p (λ m. m.id == x.id) xs h, UniqueIds-filter_by p xs u)
  | inr e ↦ rw e (UniqueIds-filter_by p xs u)
]
