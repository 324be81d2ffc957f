-- ===== src/Outbox.antt =====
-- The transactional outbox of shared/types/src/outbox.ts, which the account service and the
-- transfer service each keep in their own database.
pub mod Publisher
use cn_banking_transaction_s.Base.{ℕ, Option, none}
use cn_banking_transaction_s.Base.Table.{Table, insert}
use cn_banking_transaction_s.Effect.{Message}
use cn_banking_transaction_s.Types.{Topic, SupportedEvent, event_type, Fresh}

pub record OutboxRow : Type 0 where
  pub row_event_type : Topic
  pub topic : Topic
  pub event_key : ℕ
  pub payload : SupportedEvent
  pub last_error : Option Message
  pub created_at : ℕ
  pub published_at : Option ℕ

abbrev pub Outbox : Type 0
Outbox = Table OutboxRow

-- `enqueueOutboxEvent`: the row that it inserts.
abbrev pub outbox_row : ℕ → Topic → ℕ → SupportedEvent → OutboxRow
outbox_row now topic event_key payload = record {
  row_event_type = event_type payload;
  topic = topic;
  event_key = event_key;
  payload = payload;
  last_error = none;
  created_at = now;
  published_at = none;
}

-- INSERT INTO outbox_events. The id that is drawn is taken to be new: the primary key is not checked.
abbrev pub enqueue_outbox_event : Fresh → Topic → ℕ → SupportedEvent → Outbox → Outbox
enqueue_outbox_event fresh topic event_key payload =
    insert fresh.uuid (outbox_row fresh.now topic event_key payload)
