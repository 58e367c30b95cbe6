-- ===== src/Bot/Delivery.antt =====
-- `InMemoryOutboundDeliveryLedger` (backend/src/app/persistence/in_memory.py): each method runs under
-- its lock, so it is one step.
pub mod Final
use startprojectformillion.Base.{ℕ, String, Option, none, some, Dict, put, empty, string_eq}
use startprojectformillion.Shared.{Exec, ok}

pub data DeliveryStatus : Type 0 where
  pending sent : DeliveryStatus

pub record OutboundDeliveryRecord : Type 0 where
  pub status : DeliveryStatus
  pub telegram_message_id : Option ℕ

pub record DeliveryLedger : Type 0 where
  pub status_by_key : Dict String DeliveryStatus
  pub message_id : Dict String ℕ

abbrev pub no_deliveries : DeliveryLedger
no_deliveries = record { status_by_key = empty; message_id = empty }

unfoldable pub ensure_pending : String → Exec DeliveryLedger Unit
ensure_pending key l = elim (l.status_by_key key) [
  | some DeliveryStatus.sent ↦ (ok tt, l)
  | _ ↦ (ok tt, record l { status_by_key = put l.status_by_key key DeliveryStatus.pending })
]

-- The text of the status is always one of the two.
unfoldable pub get_status : String → Exec DeliveryLedger (Option OutboundDeliveryRecord)
get_status key l = elim (l.status_by_key key) [
  | none ↦ (ok none, l)
  | some DeliveryStatus.pending ↦
      (ok (some (record { status = DeliveryStatus.pending; telegram_message_id = none })), l)
  | some DeliveryStatus.sent ↦ (
    ok (some (record { status = DeliveryStatus.sent; telegram_message_id = l.message_id key })),
    l,
  )
]

unfoldable pub mark_sent : String → ℕ → Exec DeliveryLedger Unit
mark_sent key telegram_message_id l = elim (l.status_by_key key) [
  | some DeliveryStatus.pending ↦ (
    ok tt,
    record {
      status_by_key = put l.status_by_key key DeliveryStatus.sent;
      message_id = put l.message_id key telegram_message_id;
    },
  )
  | _ ↦ (ok tt, l)
]
