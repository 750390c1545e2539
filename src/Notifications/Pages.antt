-- ===== src/Notifications/Pages.antt =====
-- `findForWalletIncremental`, page after page.
use diaspora_equb_product.Common.{
  ℕ, ◌-◌, ◌*◌, ◌<◌, ◌≡◌, refl, sym, ap, subst, ◌∙◌, arith, min, max, Bool, true, false, not, ◌&&◌,
  Option, none, some, List, [], ◌∷◌, ◌++◌, Text, ◌==◌, ◌⊎◌, inl, inr, In, filter_by, take, is_empty,
  Ascending, sort_by,
}
use diaspora_equb_product.Notifications.{
  Notification, Inbox, Cursor, Page, note_key, read_time, normal_wallet, is_of, is_after, last_key,
  find_for_wallet_incremental,
}
use diaspora_equb_product.Notifications.Ordered.{
  drop, take_0, take-drop, page_items, page_take, key_of, follows, last_of_part, In-filter_by,
  In-append, Ascending-filter_by, filter_by-later, filter_by-all, follows-after, after_cursor,
}
use diaspora_equb_product.Notifications.Sorted.{
  UniqueIds, UniqueIds-filter_by, sort_by-Ascending, sort_by-filter_by,
}

-- A wallet's notifications in the order of their times and keys.
abbrev rows_of : Text → Inbox → List Notification
rows_of wallet s = sort_by note_key (filter_by (is_of (normal_wallet wallet)) s.rows)

rows_of-Ascending :
    (wallet : Text) (s : Inbox) → UniqueIds s.rows → Ascending note_key (rows_of wallet s)
rows_of-Ascending wallet s u =
    sort_by-Ascending (filter_by (is_of (normal_wallet wallet)) s.rows)
      (UniqueIds-filter_by (is_of (normal_wallet wallet)) s.rows u)

-- Those after a cursor.
abbrev pub listing : Text → Option Cursor → Inbox → List Notification
listing wallet cursor s = filter_by (is_after cursor) (rows_of wallet s)

filter_by_both :
    (p q : Notification → Bool) (xs : List Notification)
    → filter_by (λ n. p n && q n) xs ≡ filter_by q (filter_by p xs)
filter_by_both p q [] = refl
filter_by_both p q (x ∷ xs) = ground (arith, filter_by_both p q xs)

-- What the query selects, in its order, is the listing.
query-listing :
    (wallet : Text) (cursor : Option Cursor) (s : Inbox)
    → UniqueIds s.rows
    → sort_by note_key (filter_by (λ n. is_of (normal_wallet wallet) n && is_after cursor n) s.rows)
      ≡ listing wallet cursor s
query-listing wallet cursor s u =
    let p : Notification → Bool = λ n. is_of (normal_wallet wallet) n in
    ap (sort_by note_key) (filter_by_both p (is_after cursor) s.rows)
    ∙ sort_by-filter_by (is_after cursor) (filter_by p s.rows) (UniqueIds-filter_by p s.rows u)

abbrev page_size : ℕ → ℕ
page_size limit = max 1 (min 200 limit)

-- The page that starts a listing.
abbrev page_of : ℕ → List Notification → Page
page_of n all = record {
  items = take n all;
  next_cursor = last_key (take n all);
  has_more = not (is_empty (drop n all));
}

find-page_of :
    (wallet : Text) (cursor : Option Cursor) (limit : ℕ) (s : Inbox)
    → UniqueIds s.rows
    → find_for_wallet_incremental wallet cursor limit s
      ≡ page_of (page_size limit) (listing wallet cursor s)
unfolding find_for_wallet_incremental
find-page_of wallet cursor limit s u =
    let all = listing wallet cursor s in
    let n = page_size limit in
    let sorted = query-listing wallet cursor s u in
    rw sorted (rw (page_take n all) (rw (page_items n all) refl))

list_cases :
    (xs : List Notification)
    → (xs ≡ []) ⊎ ((x : Notification) × (ys : List Notification) × (xs ≡ x ∷ ys))
list_cases [] = inl refl
list_cases (x ∷ xs) = inr (x, xs, refl)

-- How a page goes on: `left` follows its items in the listing, and the page says whether there is
-- anything; behind its cursor `left` comes in order, and before it at most items of the millisecond
-- of the last item, which come a second time.
pub record Continues (wallet : Text) (cursor : Option Cursor) (s : Inbox) (page : Page)
    : Type 0 where
  pub last : Notification
  pub left : List Notification
  pub again : List Notification
  pub is_last : In last page.items
  pub place : page.next_cursor ≡ some (key_of last)
  pub whole : listing wallet cursor s ≡ page.items ++ left
  pub more : page.has_more ≡ not (is_empty left)
  pub next : listing wallet page.next_cursor s ≡ again ++ left
  pub repeated : (y : Notification) → In y again → read_time y ≡ read_time last

page_of-Continues :
    (wallet : Text) (cursor : Option Cursor) (n : ℕ) (s : Inbox) (x : Notification)
    (xs : List Notification)
    → UniqueIds s.rows
    → 0 < n
    → listing wallet cursor s ≡ x ∷ xs
    → Continues wallet cursor s (page_of n (listing wallet cursor s))
page_of-Continues wallet cursor n s x xs u z h =
    let all = listing wallet cursor s in
    let rows = rows_of wallet s in
    let ascending = rows_of-Ascending wallet s u in
    let some_left : (n == 0) ≡ false = ground arith in
    let first : take n all ≡ x ∷ take (n - 1) xs = ap (take n) h ∙ (rw some_left refl) in
    let parts : all ≡ x ∷ take (n - 1) xs ++ drop n all =
      take-drop n all ∙ ap (λ l. l ++ drop n all) first in
    let (m, e, i, rest) =
      last_of_part x (take (n - 1) xs) (drop n all)
        (subst (Ascending note_key) parts (Ascending-filter_by (is_after cursor) rows ascending)) in
    let listed =
      In-filter_by (is_after cursor) m rows
        (subst (λ l. In m l) (sym parts) (In-append m (x ∷ take (n - 1) xs) (drop n all) i)) in
    let left : filter_by (follows m) rows ≡ drop n all =
      filter_by-later cursor m rows listed ∙ ap (filter_by (follows m)) parts ∙ rest in
    let (again, split, same) = after_cursor m rows ascending in
    let place : last_key (take n all) ≡ some (key_of m) = ap last_key first ∙ e in
    record {
      last = m;
      left = drop n all;
      again = again;
      is_last = subst (λ l. In m l) (sym first) i;
      place = place;
      whole = take-drop n all;
      more = refl;
      next = ap (λ c. listing wallet c s) place ∙ split ∙ ap (λ l. again ++ l) left;
      repeated = same;
    }

-- Whatever the order of the table's rows, in a table whose keys are unique: either nothing is after
-- the cursor of a request, or the items of the page are the first that are, in the order of time and
-- key, and it says whether more follow; behind its next cursor come all that follow, in this order,
-- and before them at most some items of the last item's millisecond.
pub find_for_wallet_incremental-Continues :
    (wallet : Text) (cursor : Option Cursor) (limit : ℕ) (s : Inbox)
    → UniqueIds s.rows
    → (listing wallet cursor s ≡ [])
      ⊎ Continues wallet cursor s (find_for_wallet_incremental wallet cursor limit s)
find_for_wallet_incremental-Continues wallet cursor limit s u =
    elim (list_cases (listing wallet cursor s)) [
      | inl h ↦ inl h
      | inr (x, xs, h) ↦ inr (
          subst (Continues wallet cursor s) (sym (find-page_of wallet cursor limit s u))
            (page_of-Continues wallet cursor (page_size limit) s x xs u (omega arith) h))
    ]

filter_by-none : (xs : List Notification) → filter_by (is_after none) xs ≡ xs
filter_by-none [] = refl
filter_by-none (x ∷ xs) = ap (λ ys. x ∷ ys) (filter_by-none xs)

-- Behind the cursor of the first item, whose time is within a millisecond, is the whole listing.
listing_again :
    (x : Notification) (xs : List Notification)
    → Ascending note_key (x ∷ xs)
    → 1000 * read_time x < x.created_at
    → filter_by (is_after (some (key_of x))) (x ∷ xs) ≡ x ∷ xs
listing_again x xs (h, a) l =
    let self : is_after (some (key_of x)) x ≡ true = ground arith in
    let rest = filter_by-all (is_after (some (key_of x))) x xs (λ y k. follows-after x y k) h in
    ground arith

-- In a table whose keys are unique, where the time of a wallet's first notification is not whole
-- milliseconds: a reader who asks for one notification gets it, and who goes on from its cursor
-- gets the same page again.
pub find_for_wallet_incremental_stays :
    (wallet : Text) (s : Inbox) (x : Notification) (xs : List Notification)
    → UniqueIds s.rows
    → listing wallet none s ≡ x ∷ xs
    → 1000 * read_time x < x.created_at
    → let page = find_for_wallet_incremental wallet none 1 s in
      (page.items ≡ x ∷ []) × (find_for_wallet_incremental wallet page.next_cursor 1 s ≡ page)
find_for_wallet_incremental_stays wallet s x xs u h l =
    let page = find_for_wallet_incremental wallet none 1 s in
    let rows : rows_of wallet s ≡ x ∷ xs = sym (filter_by-none (rows_of wallet s)) ∙ h in
    let ascending = subst (Ascending note_key) rows (rows_of-Ascending wallet s u) in
    let found = find-page_of wallet none 1 s u in
    let first = found ∙ ap (page_of 1) h in
    let items : page.items ≡ x ∷ [] =
      ap (λ (p : Page). p.items) first ∙ ap (λ l. x ∷ l) (take_0 xs) in
    let next : page.next_cursor ≡ some (key_of x) =
      ap (λ (p : Page). p.next_cursor) first ∙ ap (λ l. last_key (x ∷ l)) (take_0 xs) in
    let same : listing wallet page.next_cursor s ≡ listing wallet none s =
      ap (λ c. listing wallet c s) next
      ∙ ap (filter_by (is_after (some (key_of x)))) rows
      ∙ listing_again x xs ascending l
      ∙ sym h in
    (items, find-page_of wallet page.next_cursor 1 s u ∙ ap (page_of 1) same ∙ sym found)
