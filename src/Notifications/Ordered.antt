-- ===== src/Notifications/Ordered.antt =====
-- Lists of notifications in the order of their times and keys, cut at a cursor.
use diaspora_equb_product.Common.{
  ℕ, ◌+◌, ◌-◌, ◌≡◌, refl, ap, subst, ◌∙◌, arith, Bool, true, false, not, Option, none, some, List,
  [], ◌∷◌, ◌++◌, ltb, ◌==◌, if◌then◌else◌, Bool-cases, inl, inr, In, filter_by, length, take,
  is_empty, before, AllAfter, Ascending, AllAfter-filter_by,
}
use diaspora_equb_product.Notifications.{
  Notification, Cursor, note_key, read_time, is_after, last_key,
}

-- What is left of a list after its first `n` items.
abbrev pub drop : ℕ → List Notification → List Notification
drop n [] = []
drop n (x ∷ xs) = if n == 0 then x ∷ xs else drop (n - 1) xs

pub take_0 : (xs : List Notification) → take 0 xs ≡ []
take_0 [] = refl
take_0 (x ∷ xs) = refl

pub take-drop : (n : ℕ) (xs : List Notification) → xs ≡ take n xs ++ drop n xs
take-drop n [] = refl
take-drop n (x ∷ xs) = elim (Bool-cases (n == 0)) [
  | inl e ↦ ground arith
  | inr e ↦ ground (arith, take-drop (n - 1) xs)
]

-- One item more than the page asks for tells whether there are more.
pub page_items :
    (n : ℕ) (xs : List Notification) → ltb n (length (take (n + 1) xs)) ≡ not (is_empty (drop n xs))
page_items n [] = ground arith
page_items n (x ∷ xs) = elim (Bool-cases (n == 0)) [
  | inl e ↦ ground arith
  | inr e ↦ ground (arith, page_items (n - 1) xs)
]

pub page_take :
    (n : ℕ) (xs : List Notification)
    → (if ltb n (length (take (n + 1) xs)) then take n (take (n + 1) xs) else take (n + 1) xs)
      ≡ take n xs
page_take n [] = ground arith
page_take n (x ∷ xs) = elim (Bool-cases (n == 0)) [
  | inl e ↦ ground (arith, take_0 xs)
  | inr e ↦ ground (arith, page_take (n - 1) xs)
]

pub filter_by-all :
    (p : Notification → Bool) (a : Notification) (xs : List Notification)
    → ((y : Notification) → before (note_key a) (note_key y) ≡ true → p y ≡ true)
    → AllAfter note_key a xs
    → filter_by p xs ≡ xs
filter_by-all p a [] h k = refl
filter_by-all p a (x ∷ xs) h (e, k) = ground (arith, h x e, filter_by-all p a xs h k)

-- The row comes after `m`, by the column's time and the key.
abbrev pub follows : Notification → Notification → Bool
follows m y = before (note_key m) (note_key y)

-- The cursor that a row gives.
abbrev pub key_of : Notification → Cursor
key_of m = (read_time m, m.id)

not_follows : (x m : Notification) → before (note_key x) (note_key m) ≡ true → follows m x ≡ false
not_follows x m h = ground arith

AllAfter-In :
    (x m : Notification) (xs ys : List Notification)
    → AllAfter note_key x (xs ++ ys)
    → In m xs
    → before (note_key x) (note_key m) ≡ true
AllAfter-In x m [] ys h i = absurd i.1
AllAfter-In x m (z ∷ xs) ys (e, h) (inl i) = ap (λ w. before (note_key x) (note_key w)) i ∙ e
AllAfter-In x m (z ∷ xs) ys (e, h) (inr i) = AllAfter-In x m xs ys h i

-- The last item of the first part of an ascending list: what follows it is the second part.
pub last_of_part :
    (x : Notification) (xs ys : List Notification)
    → Ascending note_key (x ∷ xs ++ ys)
    → (m : Notification) × (last_key (x ∷ xs) ≡ some (key_of m))
      × In m (x ∷ xs)
      × (filter_by (follows m) (x ∷ xs ++ ys) ≡ ys)
last_of_part x [] ys (h, k) =
    let self : follows x x ≡ false = ground arith in
    let rest = filter_by-all (follows x) x ys (λ y e. e) h in (x, refl, inl refl, rw self rest)
last_of_part x (z ∷ xs) ys (h, k) =
    let (m, e, i, rest) = last_of_part z xs ys k in
    let skipped = not_follows x m (AllAfter-In x m (z ∷ xs) ys h i) in
    (m, e, inr i, rw skipped rest)

filter_by-kept :
    (p : Notification → Bool) (x : Notification) (xs : List Notification)
    → p x ≡ true
    → filter_by p (x ∷ xs) ≡ x ∷ filter_by p xs
filter_by-kept p x xs e = ground arith

filter_by-left :
    (p : Notification → Bool) (x : Notification) (xs : List Notification)
    → p x ≡ false
    → filter_by p (x ∷ xs) ≡ filter_by p xs
filter_by-left p x xs e = ground arith

pub In-filter_by :
    (p : Notification → Bool) (m : Notification) (xs : List Notification)
    → In m (filter_by p xs)
    → p m ≡ true
In-filter_by p m [] i = absurd i.1
In-filter_by p m (x ∷ xs) i = elim (Bool-cases (p x)) [
  | inl e ↦ elim (subst (λ ys. In m ys) (filter_by-kept p x xs e) i) [
    | inl same ↦ ap p (same) ∙ e
    | inr j ↦ In-filter_by p m xs j
  ]
  | inr e ↦ In-filter_by p m xs (subst (λ ys. In m ys) (filter_by-left p x xs e) i)
]

pub In-append : (m : Notification) (xs ys : List Notification) → In m xs → In m (xs ++ ys)
In-append m [] ys i = absurd i.1
In-append m (x ∷ xs) ys (inl i) = inl i
In-append m (x ∷ xs) ys (inr i) = inr (In-append m xs ys i)

-- What follows a row after the cursor is after the cursor.
after_trans :
    (cursor : Option Cursor) (m n : Notification)
    → is_after cursor m ≡ true
    → follows m n ≡ true
    → is_after cursor n ≡ true
after_trans none m n h k = refl
after_trans (some (time, id)) m n h k = ground arith

pub filter_by-later :
    (cursor : Option Cursor) (m : Notification) (xs : List Notification)
    → is_after cursor m ≡ true
    → filter_by (follows m) xs ≡ filter_by (follows m) (filter_by (is_after cursor) xs)
filter_by-later cursor m [] h = refl
filter_by-later cursor m (x ∷ xs) h =
    let rest = filter_by-later cursor m xs h in
    elim (Bool-cases (follows m x)) [
      | inl e ↦ let wide = after_trans cursor m x h e in ground (arith, rest)
      | inr e ↦ ground (arith, rest)
    ]

pub Ascending-filter_by :
    (p : Notification → Bool) (xs : List Notification)
    → Ascending note_key xs
    → Ascending note_key (filter_by p xs)
Ascending-filter_by p [] a = tt
Ascending-filter_by p (x ∷ xs) (h, a) = elim (Bool-cases (p x)) [
  | inl e ↦ rw e (AllAfter-filter_by note_key p x xs h, Ascending-filter_by p xs a)
  | inr e ↦ rw e (Ascending-filter_by p xs a)
]

follows_trans :
    (m x y : Notification) → follows m x ≡ true → follows x y ≡ true → follows m y ≡ true
follows_trans m x y h k = ground arith

pub follows-after : (m y : Notification) → follows m y ≡ true → is_after (some (key_of m)) y ≡ true
follows-after m y h = ground arith

same_time :
    (m y : Notification)
    → is_after (some (key_of m)) y ≡ true
    → follows m y ≡ false
    → read_time y ≡ read_time m
same_time m y h k = ground arith

-- The rows after the cursor of `m` are those that follow `m`, and before them some of the
-- millisecond of `m`.
pub after_cursor :
    (m : Notification) (xs : List Notification)
    → Ascending note_key xs
    → (again : List Notification) × (filter_by (is_after (some (key_of m))) xs
        ≡ again ++ filter_by (follows m) xs)
      × ((y : Notification) → In y again → read_time y ≡ read_time m)
after_cursor m [] a = ([], refl, λ y i. absurd i.1)
after_cursor m (x ∷ xs) (h, a) = elim (Bool-cases (follows m x)) [
  | inl e ↦
      let exact = filter_by-all (follows m) x xs (λ y k. follows_trans m x y e k) h in
      let wide =
        filter_by-all (is_after (some (key_of m))) x xs
          (λ y k. follows-after m y (follows_trans m x y e k)) h in
      let first = follows-after m x e in ([], ground arith, λ y i. absurd i.1)
  | inr e ↦
      let (again, split, same) = after_cursor m xs a in
      elim (Bool-cases (is_after (some (key_of m)) x)) [
        | inl b ↦ (
          x ∷ again,
          ground arith,
          λ y. elim [ inl k ↦ ap read_time k ∙ same_time m x b e | inr i ↦ same y i ],
        )
        | inr b ↦ (again, ground arith, same)
      ]
]
