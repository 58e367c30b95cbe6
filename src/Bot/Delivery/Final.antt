-- ===== src/Bot/Delivery/Final.antt =====
-- What becomes of a delivery's row, over any sequence of the ledger's calls.
use startprojectformillion.Base.{ℕ, String, some, List, [], ◌∷◌, ◌≡◌, ap, arith, eq_iff}
use startprojectformillion.Shared.{Result}
use startprojectformillion.Bot.Delivery.{
  DeliveryStatus, OutboundDeliveryRecord, DeliveryLedger, ensure_pending, get_status, mark_sent,
}

-- The calls that write.
pub data LedgerCall : Type 0 where
  ensure : String → LedgerCall
  mark : String → ℕ → LedgerCall

unfoldable pub ledger_call : LedgerCall → DeliveryLedger → DeliveryLedger
unfolding ensure_pending mark_sent
ledger_call (ensure key) l = (ensure_pending key l).1
ledger_call (mark key id) l = (mark_sent key id l).1

unfoldable pub ledger_calls : List LedgerCall → DeliveryLedger → DeliveryLedger
unfolding ledger_call
ledger_calls [] l = l
ledger_calls (call ∷ calls) l = ledger_calls calls (ledger_call call l)

abbrev pub sent_as : ℕ → OutboundDeliveryRecord
sent_as id = record { status = DeliveryStatus.sent; telegram_message_id = some id }

-- The row says that the message `id` was sent.
abbrev pub IsSent : String → ℕ → DeliveryLedger → Type 0
IsSent key id l = (l.status_by_key key ≡ some DeliveryStatus.sent) × (l.message_id key ≡ some id)

call-IsSent :
    (call : LedgerCall) (key : String) (id : ℕ) (l : DeliveryLedger)
    → IsSent key id l
    → IsSent key id (ledger_call call l)
unfolding ledger_call ensure_pending mark_sent
call-IsSent (ensure other) key id l h = ground (arith, h, eq_iff other key, eq_iff key other)
call-IsSent (mark other other_id) key id l h = ground (arith, h, eq_iff other key, eq_iff key other)

calls-IsSent :
    (calls : List LedgerCall) (key : String) (id : ℕ) (l : DeliveryLedger)
    → IsSent key id l
    → IsSent key id (ledger_calls calls l)
unfolding ledger_calls
calls-IsSent [] key id l h = h
calls-IsSent (call ∷ calls) key id l h =
    calls-IsSent calls key id (ledger_call call l) (call-IsSent call key id l h)

mark-IsSent :
    (key : String) (id : ℕ) (l : DeliveryLedger)
    → l.status_by_key key ≡ some DeliveryStatus.pending
    → IsSent key id (mark_sent key id l).1
unfolding mark_sent
mark-IsSent key id l h = ground (arith, h, eq_iff key key)

get-IsSent :
    (key : String) (id : ℕ) (l : DeliveryLedger)
    → IsSent key id l
    → get_status key l ≡ (Result.ok (some (sent_as id)), l)
unfolding get_status
get-IsSent key id l h = ground (arith, h)

-- Once a pending delivery is marked as sent with a message's id, the ledger reports it as sent with
-- that id after any further calls that ensure or mark deliveries, whatever their keys and ids.
pub sent_is_final :
    (key : String) (id : ℕ) (l : DeliveryLedger) (calls : List LedgerCall)
    → l.status_by_key key ≡ some DeliveryStatus.pending
    → (get_status key (ledger_calls calls (mark_sent key id l).1)).0 ≡ Result.ok (some (sent_as id))
sent_is_final key id l calls h =
    let later = ledger_calls calls (mark_sent key id l).1 in
    ap (λ r. r.0)
      (get-IsSent key id later
        (calls-IsSent calls key id (mark_sent key id l).1 (mark-IsSent key id l h)))
