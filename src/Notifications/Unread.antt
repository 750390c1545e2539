-- ===== src/Notifications/Unread.antt =====
-- `markAllRead` and `unreadCount`.
use diaspora_equb_product.Common.{
  ◌≡◌, refl, ap, ◌∙◌, arith, false, List, [], ◌∷◌, map, Text, if◌then◌else◌, Bool-cases, inl, inr,
  filter_by, length, text_eq, text_eq_self, text_eq→eq, to_lower,
}
use diaspora_equb_product.Notifications.{
  Notification, Inbox, normal_wallet, is_unread, read_if, unread_count, mark_all_read,
}

unread_after :
    (reader : Text) (n : Notification) → is_unread reader (read_if (is_unread reader) n) ≡ false
unread_after reader n = elim (Bool-cases (is_unread reader n)) [
  | inl e ↦ rw e (ground arith)
  | inr e ↦ rw e e
]

unread_other :
    (reader wallet : Text) (n : Notification)
    → text_eq wallet reader ≡ false
    → is_unread wallet (read_if (is_unread reader) n) ≡ is_unread wallet n
unread_other reader wallet n h = elim (Bool-cases (is_unread reader n)) [
  | inl e ↦
      let reader_is = text_eq→eq (to_lower n.wallet_address) reader (ground arith) in
      let other : text_eq (to_lower n.wallet_address) wallet ≡ false =
        elim (Bool-cases (text_eq (to_lower n.wallet_address) wallet)) [
          | inl g ↦
              absurd (
                ground
                  (arith, text_eq→eq (to_lower n.wallet_address) wallet g, text_eq_self wallet))
          | inr g ↦ g
        ] in
      rw e (ground arith)
  | inr e ↦ rw e refl
]

count_own :
    (reader : Text) (ns : List Notification)
    → length (filter_by (is_unread reader) (map (read_if (is_unread reader)) ns)) ≡ 0
count_own reader [] = refl
count_own reader (n ∷ ns) = rw (unread_after reader n) (count_own reader ns)

count_other :
    (reader wallet : Text) (ns : List Notification)
    → text_eq wallet reader ≡ false
    → length (filter_by (is_unread wallet) (map (read_if (is_unread reader)) ns))
      ≡ length (filter_by (is_unread wallet) ns)
count_other reader wallet [] h = refl
count_other reader wallet (n ∷ ns) h =
    let rest = count_other reader wallet ns h in
    let head = unread_other reader wallet n h in ground (arith, rest, head)

-- After a wallet marks everything as read it has nothing unread, and every other wallet, letter
-- case and outer space aside, has as much as before.
pub unread_count-mark_all_read :
    (reader wallet : Text) (s : Inbox)
    → unread_count wallet (mark_all_read reader s)
      ≡ (if text_eq (normal_wallet wallet) (normal_wallet reader) then 0 else unread_count wallet s)
unfolding unread_count mark_all_read
unread_count-mark_all_read reader wallet s =
    elim (Bool-cases (text_eq (normal_wallet wallet) (normal_wallet reader))) [
      | inl e ↦
          rw e
            let same = text_eq→eq (normal_wallet wallet) (normal_wallet reader) e in
              ap
                (λ w. length (
                  filter_by (is_unread w)
                    (map (read_if (is_unread (normal_wallet reader))) s.rows)))
                same
              ∙ count_own (normal_wallet reader) s.rows
      | inr e ↦ rw e (count_other (normal_wallet reader) (normal_wallet wallet) s.rows e)
    ]
