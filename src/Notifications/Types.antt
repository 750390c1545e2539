-- ===== src/Notifications/Types.antt =====
-- The types, statuses and kinds of notifications (backend/src/entities/notification.entity.ts), and
-- their texts in the columns.
use diaspora_equb_product.Common.{Text, codes}

pub data NotificationType : Type 0 where
  round_closed all_contributed payout_received contribution_confirmed default_triggered :
      NotificationType
  collateral_slashed collateral_deposit_confirmed collateral_released pool_joined pool_created :
      NotificationType
  stream_frozen transfer_built withdraw_built faucet_credited wallet_bound : NotificationType
  credit_updated system_type : NotificationType

pub data NotificationStatus : Type 0 where
  pending confirmed failed : NotificationStatus

pub data NotificationKind : Type 0 where
  transaction risk system_kind : NotificationKind

-- The text in the column.
abbrev pub type_text : NotificationType → Text
type_text NotificationType.round_closed = codes "round_closed"
type_text NotificationType.all_contributed = codes "all_contributed"
type_text NotificationType.payout_received = codes "payout_received"
type_text NotificationType.contribution_confirmed = codes "contribution_confirmed"
type_text NotificationType.default_triggered = codes "default_triggered"
type_text NotificationType.collateral_slashed = codes "collateral_slashed"
type_text NotificationType.collateral_deposit_confirmed = codes "collateral_deposit_confirmed"
type_text NotificationType.collateral_released = codes "collateral_released"
type_text NotificationType.pool_joined = codes "pool_joined"
type_text NotificationType.pool_created = codes "pool_created"
type_text NotificationType.stream_frozen = codes "stream_frozen"
type_text NotificationType.transfer_built = codes "transfer_built"
type_text NotificationType.withdraw_built = codes "withdraw_built"
type_text NotificationType.faucet_credited = codes "faucet_credited"
type_text NotificationType.wallet_bound = codes "wallet_bound"
type_text NotificationType.credit_updated = codes "credit_updated"
type_text NotificationType.system_type = codes "system"

abbrev pub status_text : NotificationStatus → Text
status_text NotificationStatus.pending = codes "pending"
status_text NotificationStatus.confirmed = codes "confirmed"
status_text NotificationStatus.failed = codes "failed"

abbrev pub kind_text : NotificationKind → Text
kind_text NotificationKind.transaction = codes "transaction"
kind_text NotificationKind.risk = codes "risk"
kind_text NotificationKind.system_kind = codes "system"
