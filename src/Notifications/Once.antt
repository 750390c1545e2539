-- ===== src/Notifications/Once.antt =====
-- `create` asked for the same notification again. Times are in microseconds.
use diaspora_equb_product.Common.{
  ℕ, ◌+◌, ◌*◌, ◌/◌, ◌≤◌, ◌<◌, ◌≡◌, sym, ap, subst, ◌∙◌, arith, Bool, true, false, none, some, List,
  [], ◌∷◌, ◌++◌, Text, Bool-cases, inl, inr, filter_by, take, reverse, reverse-append, sort_by,
  insert_sorted, before, text_eq_self,
}
use diaspora_equb_product.Notifications.{
  NotificationType, Metadata, Notification, Inbox, idempotency_window_ms, type_text, normal_wallet,
  clean_key, extract_metadata_idempotency_key, normalize_metadata, resolve_idempotency_key,
  note_key, is_kind_of, scan_recent, find_duplicate, new_notification, create,
}

-- Every row is as old as the clock, under a key that has been issued.
abbrev pub AllIssued : ℕ → ℕ → List Notification → Type 0
AllIssued now next [] = Unit {0}
AllIssued now next (n ∷ ns) = (n.created_at ≤ now) × (n.id < next) × AllIssued now next ns

insert_sorted-append :
    (y a : Notification) (xs : List Notification)
    → before (note_key a) (note_key y) ≡ false
    → insert_sorted note_key y (xs ++ a ∷ []) ≡ insert_sorted note_key y xs ++ a ∷ []
insert_sorted-append y a [] h = ground arith
insert_sorted-append y a (x ∷ xs) h = ground (arith, insert_sorted-append y a xs h)

-- A newer row that passes the test stands last.
sort_by-newest :
    (p : Notification → Bool) (a : Notification) (xs : List Notification)
    → p a ≡ true
    → AllIssued a.created_at a.id xs
    → sort_by note_key (filter_by p (xs ++ a ∷ [])) ≡ sort_by note_key (filter_by p xs) ++ a ∷ []
sort_by-newest p a [] e h = ground arith
sort_by-newest p a (x ∷ xs) e (c, i, h) =
    let rest = sort_by-newest p a xs e h in
    let older : before (note_key a) (note_key x) ≡ false = ground arith in
    elim (Bool-cases (p x)) [
      | inl g ↦ rw (g) (
          ap (insert_sorted note_key x) rest
          ∙ insert_sorted-append x a (sort_by note_key (filter_by p xs)) older)
      | inr g ↦ rw (g) rest
    ]

-- The newest row with the key, within the window.
scan_recent-newest :
    (later : ℕ) (key : Text) (n : Notification) (ns : List Notification)
    → extract_metadata_idempotency_key n.metadata ≡ some key
    → later ≤ n.created_at + 1000 * idempotency_window_ms
    → scan_recent (later / 1000) key (take 100 (n ∷ ns)) ≡ some n
unfolding scan_recent
scan_recent-newest later key n ns e l = ground (arith, text_eq_self key)

-- The stored row is found.
found_again :
    (now later : ℕ) (wallet : Text) (type : NotificationType) (title body key : Text) (m : Metadata)
    (s : Inbox)
    → AllIssued now s.next_id s.rows
    → clean_key key ≡ some key
    → later ≤ now + 1000 * idempotency_window_ms
    → let n = new_notification now wallet type title body key m s.next_id in
      find_duplicate later wallet type key
        (record { rows = s.rows ++ n ∷ []; sent = s.sent ++ n ∷ []; next_id = s.next_id + 1 })
      ≡ some n
unfolding find_duplicate new_notification extract_metadata_idempotency_key
found_again now later wallet type title body key m s h c l =
    let n = new_notification now wallet type title body key m s.next_id in
    let mine : is_kind_of wallet type n ≡ true =
      ground (arith, text_eq_self wallet, text_eq_self (type_text type)) in
    let sorted = sort_by-newest (is_kind_of wallet type) n s.rows mine h in
    let newest =
      ap reverse sorted
      ∙ reverse-append n (sort_by note_key (filter_by (is_kind_of wallet type) s.rows)) in
    ap (λ ns. scan_recent (later / 1000) key (take 100 ns)) newest
    ∙ scan_recent-newest later key n _ c l

-- The inbox with a new row.
abbrev with_new : Notification → Inbox → Inbox
with_new n s = record { rows = s.rows ++ n ∷ []; sent = s.sent ++ n ∷ []; next_id = s.next_id + 1 }

create_stored :
    (now : ℕ) (wallet : Text) (type : NotificationType) (title body key : Text) (m : Metadata)
    (s : Inbox)
    → resolve_idempotency_key (normal_wallet wallet) type title body (normalize_metadata type m)
      ≡ key
    → find_duplicate now (normal_wallet wallet) type key s ≡ none
    → let n =
        new_notification now
          (normal_wallet wallet)
          type
          title
          body
          key
          (normalize_metadata type m)
          s.next_id in
      create now wallet type title body m s ≡ (n, with_new n s)
unfolding create
create_stored now wallet type title body key m s k f = ground arith

create_found :
    (now : ℕ) (wallet : Text) (type : NotificationType) (title body key : Text) (m : Metadata)
    (s : Inbox) (n : Notification)
    → resolve_idempotency_key (normal_wallet wallet) type title body (normalize_metadata type m)
      ≡ key
    → find_duplicate now (normal_wallet wallet) type key s ≡ some n
    → create now wallet type title body m s ≡ (n, s)
unfolding create
create_found now wallet type title body key m s n k f = ground arith

-- A request whose notification was stored as new, in a table whose rows are not newer than the
-- clock and stand under issued keys: a later one of the same wallet and type, letter case and outer
-- space of the wallet aside, with the same idempotency key, within 24 hours, is answered with that
-- notification, stores nothing and sends nothing. The key is one that trimming and lower-casing
-- leave as it is.
pub create_again :
    (now later : ℕ) (wallet wallet' : Text) (type : NotificationType)
    (title title' body body' key : Text) (m m' : Metadata) (s : Inbox)
    → AllIssued now s.next_id s.rows
    → normal_wallet wallet' ≡ normal_wallet wallet
    → resolve_idempotency_key (normal_wallet wallet) type title body (normalize_metadata type m)
      ≡ key
    → resolve_idempotency_key (normal_wallet wallet') type title' body' (normalize_metadata type m')
      ≡ key
    → clean_key key ≡ some key
    → find_duplicate now (normal_wallet wallet) type key s ≡ none
    → later ≤ now + 1000 * idempotency_window_ms
    → let (n, t) = create now wallet type title body m s in
      create later wallet' type title' body' m' t ≡ (n, t)
create_again now later wallet wallet' type title title' body body' key m m' s h w k k' c f l =
    let again =
      found_again now later (normal_wallet wallet) type title body key (normalize_metadata type m) s
        h c l in
    let n =
      new_notification now (normal_wallet wallet) type title body key (normalize_metadata type m)
        s.next_id in
    let second =
      create_found later wallet' type title' body' key m' (with_new n s) n k'
        (ap (λ x. find_duplicate later x type key (with_new n s)) w ∙ again) in
    subst (λ p. create later wallet' type title' body' m' p.1 ≡ p)
      (sym (create_stored now wallet type title body key m s k f)) second
