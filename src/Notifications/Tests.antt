-- ===== src/Notifications/Tests.antt =====
-- A notification that is asked for again 23 hours later, and a reader with two wallets' rows.
use diaspora_equb_product.Common.{
  ◌⊎◌, ◌+◌, ◌≡◌, refl, arith, false, none, some, [], ◌∷◌, codes, text_eq, to_lower, trim,
}
use diaspora_equb_product.Notifications.{
  NotificationType, Metadata, Notification, Inbox, Page, normal_wallet, clean_key,
  extract_metadata_idempotency_key, normalize_metadata, resolve_idempotency_key, find_duplicate,
  scan_recent, create, new_notification, unread_count, mark_all_read, find_for_wallet_incremental,
  resolve_notification_status, resolve_notification_kind,
}
use diaspora_equb_product.Notifications.Once.{create_again}
use diaspora_equb_product.Notifications.Unread.{unread_count-mark_all_read}
use diaspora_equb_product.Notifications.Pages.{
  listing, Continues, find_for_wallet_incremental-Continues, find_for_wallet_incremental_stays,
}

abbrev metadata : Metadata
metadata = record {
  idempotency_key = some (codes " Pool_Joined:7:0xA1 ");
  tx_hash = some (codes "0xAB");
  pool_id = none;
  round = none;
  amount = none;
  status = none;
  kind = none;
}

abbrev old : Notification
old = record {
  id = 1;
  wallet_address = codes "0xa1";
  type = NotificationType.round_closed;
  title = codes "Round Closed";
  body = [];
  metadata = none;
  read = false;
  created_at = 400;
}

abbrev inbox : Inbox
inbox = record { rows = old ∷ []; sent = []; next_id = 2 }

evaluation : Unit {0}
unfolding create new_notification normal_wallet clean_key extract_metadata_idempotency_key
    normalize_metadata resolve_idempotency_key find_duplicate scan_recent
    resolve_notification_status resolve_notification_kind unread_count mark_all_read
    find_for_wallet_incremental text_eq to_lower trim
evaluation = tt

abbrev joined : Notification × Inbox
joined = create 500 (codes "0xA1") NotificationType.pool_joined (codes "Joined") [] metadata inbox

create_again_example :
    create 82_800_000_000
      (codes " 0xa1")
      NotificationType.pool_joined
      (codes "Joined Pool")
      []
      metadata
      joined.1
    ≡ joined
unfolding evaluation
create_again_example =
    create_again 500 82_800_000_000 (codes "0xA1") (codes " 0xa1") NotificationType.pool_joined
      (codes "Joined") (codes "Joined Pool") [] [] (codes "pool_joined:7:0xa1") metadata metadata
      inbox (omega arith) refl refl refl refl refl (omega arith)

unread_count-mark_all_read_example :
    unread_count (codes "0xB0") (mark_all_read (codes "0xA1") joined.1) ≡ 0
unfolding evaluation
unread_count-mark_all_read_example =
    unread_count-mark_all_read (codes "0xA1") (codes "0xB0") joined.1

-- The reader's own count.
read_all_test :
    unread_count (codes "0xA1") joined.1
    ≡ 2 + unread_count (codes "0xA1") (mark_all_read (codes "0xa1") joined.1)
unfolding evaluation
read_all_test = refl

-- A page of one notification of two, whose times are within one millisecond: it comes again.
abbrev first_page : Page
first_page = find_for_wallet_incremental (codes "0xA1") none 1 joined.1

find_for_wallet_incremental-Continues_example :
    (listing (codes "0xA1") none joined.1 ≡ []) ⊎ Continues (codes "0xA1") none joined.1 first_page
unfolding evaluation
find_for_wallet_incremental-Continues_example =
    find_for_wallet_incremental-Continues (codes "0xA1") none 1 joined.1 (refl, (refl, tt))

find_for_wallet_incremental_stays_example :
    (first_page.items ≡ old ∷ [])
    × (find_for_wallet_incremental (codes "0xA1") first_page.next_cursor 1 joined.1 ≡ first_page)
unfolding evaluation
find_for_wallet_incremental_stays_example =
    find_for_wallet_incremental_stays (codes "0xA1") joined.1 old (joined.0 ∷ []) (refl, (refl, tt))
      refl (omega arith)
