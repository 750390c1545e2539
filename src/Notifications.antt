-- ===== src/Notifications.antt =====
-- NotificationsService (backend/src/notifications/notifications.service.ts) and its entity. Of a
-- notification's metadata the fields that the service reads are kept, as texts.
mod Types
unfoldable pub use Types.*
pub mod Once
pub mod Unread
pub mod Ordered
pub mod Sorted
pub mod Pages
mod Tests
use diaspora_equb_product.Common.{
  ℕ, ◌+◌, ◌*◌, ◌/◌, max, min, Bool, true, false, not, ◌&&◌, ◌||◌, Option, none, some, List, [], ◌∷◌,
  ◌++◌, map, Text, codes, ◌==◌, ltb, length, filter_by, take, reverse, if◌then◌else◌, or_else,
  text_eq, to_lower, trim, is_blank, sort_by, leb,
}

-- `none` for a field that is missing, or whose value the service takes for missing.
pub record Metadata : Type 0 where
  pub idempotency_key : Option Text
  pub tx_hash : Option Text
  pub pool_id : Option Text
  pub round : Option Text
  pub amount : Option Text
  pub status : Option Text
  pub kind : Option Text

pub record Notification : Type 0 where
  pub id : ℕ
  pub wallet_address : Text
  pub type : NotificationType
  pub title : Text
  pub body : Text
  pub metadata : Option Metadata
  pub read : Bool
  pub created_at : ℕ

-- `createdAt` as the service reads it: a Date has whole milliseconds, the column microseconds.
abbrev pub read_time : Notification → ℕ
read_time n = n.created_at / 1000

-- The table, and what the event bus has sent.
pub record Inbox : Type 0 where
  pub rows : List Notification
  pub sent : List Notification
  pub next_id : ℕ

abbrev pub idempotency_window_ms : ℕ
idempotency_window_ms = 86_400_000

unfoldable pub normal_wallet : Text → Text
normal_wallet w = to_lower (trim w)

abbrev pub string_or_empty : Option Text → Text
string_or_empty none = []
string_or_empty (some t) = trim t

abbrev pub unless_blank : Text → Option Text
unless_blank t = if is_blank t then none else some t

-- A key without the space around it and in lower case, where something is left.
unfoldable pub clean_key : Text → Option Text
clean_key raw = unless_blank (to_lower (trim raw))

unfoldable pub extract_metadata_idempotency_key : Option Metadata → Option Text
unfolding clean_key
extract_metadata_idempotency_key none = none
extract_metadata_idempotency_key (some m) = elim m.idempotency_key [
  | none ↦ none
  | some raw ↦ clean_key raw
]

abbrev default_status : NotificationType → NotificationStatus
default_status NotificationType.transfer_built = NotificationStatus.pending
default_status NotificationType.withdraw_built = NotificationStatus.pending
default_status _ = NotificationStatus.confirmed

unfoldable pub resolve_notification_status : NotificationType → Option Text → NotificationStatus
resolve_notification_status type none = default_status type
resolve_notification_status type (some raw) =
    let explicit = to_lower (trim raw) in
    if text_eq explicit (codes "pending")
    then NotificationStatus.pending
    else if text_eq explicit (codes "confirmed")
    then NotificationStatus.confirmed
    else if text_eq explicit (codes "failed")
    then NotificationStatus.failed
    else default_status type

abbrev default_kind : NotificationType → NotificationKind
default_kind NotificationType.default_triggered = NotificationKind.risk
default_kind NotificationType.collateral_slashed = NotificationKind.risk
default_kind NotificationType.stream_frozen = NotificationKind.risk
default_kind NotificationType.system_type = NotificationKind.system_kind
default_kind _ = NotificationKind.transaction

unfoldable pub resolve_notification_kind : NotificationType → Option Text → NotificationKind
resolve_notification_kind type none = default_kind type
resolve_notification_kind type (some raw) =
    if text_eq raw (codes "transaction")
    then NotificationKind.transaction
    else if text_eq raw (codes "risk")
    then NotificationKind.risk
    else if text_eq raw (codes "system")
    then NotificationKind.system_kind
    else default_kind type

unfoldable pub normalize_metadata : NotificationType → Metadata → Metadata
unfolding resolve_notification_status resolve_notification_kind
normalize_metadata type m = record m {
  tx_hash = unless_blank (to_lower (string_or_empty m.tx_hash));
  status = some (status_text (resolve_notification_status type m.status));
  kind = some (kind_text (resolve_notification_kind type m.kind));
}

-- `parts.join('|')`
abbrev pub join_bars : List Text → Text
join_bars [] = []
join_bars (p ∷ []) = p
join_bars (p ∷ q ∷ ps) = p ++ b'|' ∷ join_bars (q ∷ ps)

unfoldable pub resolve_idempotency_key : Text → NotificationType → Text → Text → Metadata → Text
unfolding extract_metadata_idempotency_key
resolve_idempotency_key wallet type title body m =
    or_else (extract_metadata_idempotency_key (some m)) (
      to_lower (
        join_bars (
          codes "notif"
          ∷ wallet
          ∷ type_text type
          ∷ string_or_empty m.tx_hash
          ∷ string_or_empty m.pool_id
          ∷ string_or_empty m.round
          ∷ string_or_empty m.amount
          ∷ string_or_empty m.status
          ∷ string_or_empty m.kind
          ∷ title
          ∷ body
          ∷ [])))

abbrev pub note_key : Notification → ℕ × ℕ
note_key n = (n.created_at, n.id)

abbrev pub is_kind_of : Text → NotificationType → Notification → Bool
is_kind_of wallet type n =
    text_eq n.wallet_address wallet && text_eq (type_text n.type) (type_text type)

abbrev has_key_of : Text → Notification → Bool
has_key_of key n = elim (extract_metadata_idempotency_key n.metadata) [
  | none ↦ false
  | some k ↦ text_eq k key
]

-- From the newest on, up to the first that is older than the window; `now` is `Date.now()`.
unfoldable pub scan_recent : ℕ → Text → List Notification → Option Notification
unfolding extract_metadata_idempotency_key
scan_recent now key [] = none
scan_recent now key (n ∷ ns) =
    let rest = scan_recent now key ns in
    if ltb (read_time n + idempotency_window_ms) now
    then none
    else if has_key_of key n
    then some n
    else rest

-- The newest hundred; those of one moment in the order of their keys. `now` is in microseconds.
unfoldable pub find_duplicate : ℕ → Text → NotificationType → Text → Inbox → Option Notification
unfolding scan_recent
find_duplicate now wallet type key s =
    scan_recent (now / 1000) key
      (take 100 (reverse (sort_by note_key (filter_by (is_kind_of wallet type) s.rows))))

-- The row that `create` stores; `now` is the time of the database, in microseconds.
unfoldable pub new_notification :
    ℕ → Text → NotificationType → Text → Text → Text → Metadata → ℕ → Notification
new_notification now wallet type title body key m id = record {
  id = id;
  wallet_address = wallet;
  type = type;
  title = title;
  body = body;
  metadata = some (record m { idempotency_key = some key });
  read = false;
  created_at = now;
}

unfoldable pub create :
    ℕ → Text → NotificationType → Text → Text → Metadata → Inbox → Notification × Inbox
unfolding normal_wallet normalize_metadata resolve_idempotency_key find_duplicate new_notification
create now wallet_address type title body metadata s =
    let wallet = normal_wallet wallet_address in
    let m = normalize_metadata type metadata in
    let key = resolve_idempotency_key wallet type title body m in
    elim (find_duplicate now wallet type key s) [
      | some n ↦ (n, s)
      | none ↦
          let n = new_notification now wallet type title body key m s.next_id in
          (n, record { rows = s.rows ++ n ∷ []; sent = s.sent ++ n ∷ []; next_id = s.next_id + 1 })
    ]

-- `LOWER(walletAddress) = :wallet`
abbrev pub is_of : Text → Notification → Bool
is_of wallet n = text_eq (to_lower n.wallet_address) wallet

-- A place in the list: the time of the last item in milliseconds, as `toISOString` prints it, and
-- its key.
abbrev pub Cursor : Type 0
Cursor = ℕ × ℕ

abbrev pub is_after : Option Cursor → Notification → Bool
is_after none n = true
is_after (some (time, id)) n =
    ltb (1000 * time) n.created_at || (n.created_at == 1000 * time && ltb id n.id)

pub record Page : Type 0 where
  pub items : List Notification
  pub next_cursor : Option Cursor
  pub has_more : Bool

abbrev pub last_key : List Notification → Option Cursor
last_key [] = none
last_key (n ∷ []) = some (read_time n, n.id)
last_key (n ∷ m ∷ ns) = last_key (m ∷ ns)

unfoldable pub find_for_wallet_incremental : Text → Option Cursor → ℕ → Inbox → Page
unfolding normal_wallet
find_for_wallet_incremental wallet cursor limit s =
    let safe_limit = max 1 (min 200 limit) in
    let wanted = filter_by (λ n. is_of (normal_wallet wallet) n && is_after cursor n) s.rows in
    let rows = take (safe_limit + 1) (sort_by note_key wanted) in
    let has_more = ltb safe_limit (length rows) in
    let items = if has_more then take safe_limit rows else rows in
    record { items = items; next_cursor = last_key items; has_more = has_more }

abbrev pub is_unread : Text → Notification → Bool
is_unread wallet n = is_of wallet n && not n.read

unfoldable pub unread_count : Text → Inbox → ℕ
unfolding normal_wallet
unread_count wallet s = length (filter_by (is_unread (normal_wallet wallet)) s.rows)

abbrev pub read_if : (Notification → Bool) → Notification → Notification
read_if p n = if p n then record n { read = true } else n

unfoldable pub mark_read : ℕ → Text → Inbox → Inbox
unfolding normal_wallet
mark_read id wallet s = record s {
  rows = map (read_if (λ n. n.id == id && is_of (normal_wallet wallet) n)) s.rows;
}

unfoldable pub mark_all_read : Text → Inbox → Inbox
unfolding normal_wallet
mark_all_read wallet s = record s { rows = map (read_if (is_unread (normal_wallet wallet))) s.rows }
