-- ===== src/Outbox/Publisher.antt =====
-- `createOutboxPublisher` of shared/types/src/outbox.ts: the state of one publisher with the table
-- that it reads and the messages that Kafka has accepted.
pub mod Sound
pub mod Selected
pub mod Rounds
pub mod Batch
pub mod Drains
use cn_banking_transaction_s.Base.{
  ℕ, Bool, true, false, Option, none, some, List, [], ◌∷◌, ◌++◌, take, leb, if◌then◌else◌,
}
use cn_banking_transaction_s.Base.Table.{lookup, set}
use cn_banking_transaction_s.Effect.{
  Message, reported, not_created, Thrown, plain, Result, ok, Exec, pure, call, query, catch, ◌>>=◌,
  ◌>>◌,
}
use cn_banking_transaction_s.Types.{Topic, SupportedEvent}
use cn_banking_transaction_s.Outbox.{OutboxRow, Outbox}

-- What `producer.send` hands to Kafka: the topic, the key and the event that is serialized.
pub record Sent : Type 0 where
  pub topic : Topic
  pub key : ℕ
  pub value : SupportedEvent

pub record Publisher : Type 0 where
  pub outbox : Outbox
  pub sent : List Sent
  pub producer_connected : Bool
  pub publish_timer : Bool
  pub publishing : Bool

-- A statement that sees and changes the publisher's own variables only.
abbrev pub local : (Publisher → Publisher) → Exec Publisher (Unit {0})
local change f p = (ok tt, f, change p)

-- The error of a call of Kafka, whose message is stored and never looked at.
abbrev pub kafka_failure : Thrown
kafka_failure = plain not_created

-- `ensureProducer`
unfoldable pub ensure_producer : Exec Publisher (Unit {0})
ensure_producer f p =
    if p.producer_connected
    then (ok tt, f, p)
    else (call kafka_failure (λ s. (ok tt, record s { producer_connected = true }))) f p

-- ORDER BY created_at ASC, where rows of one time stay in the order of the table.
abbrev pub insert_by_time : ℕ × OutboxRow → Outbox → Outbox
insert_by_time row [] = row ∷ []
insert_by_time row (r ∷ rows) =
    if leb row.1.created_at r.1.created_at then row ∷ r ∷ rows else r ∷ insert_by_time row rows

unfoldable pub order_by_time : Outbox → Outbox
order_by_time [] = []
order_by_time (r ∷ rows) = insert_by_time r (order_by_time rows)

-- WHERE published_at IS NULL
abbrev pub is_pending : OutboxRow → Bool
is_pending row = elim row.published_at [ none ↦ true | some t ↦ false ]

unfoldable pub pending_rows : Outbox → Outbox
pending_rows [] = []
pending_rows (r ∷ rows) = if is_pending r.1 then r ∷ pending_rows rows else pending_rows rows

-- LIMIT 20
abbrev pub batch_limit : ℕ
batch_limit = 20

unfoldable pub select_pending : Outbox → Outbox
unfolding order_by_time pending_rows
select_pending t = take batch_limit (order_by_time (pending_rows t))

abbrev pub message_of : OutboxRow → Sent
message_of row = record { topic = row.topic; key = row.event_key; value = row.payload }

-- `producer.send`
abbrev pub send : OutboxRow → Publisher → Result (Unit {0}) × Publisher
send row p = (ok tt, record p { sent = p.sent ++ message_of row ∷ [] })

abbrev pub change_row : (OutboxRow → OutboxRow) → ℕ → Outbox → Option OutboxRow → Outbox
change_row change id t none = t
change_row change id t (some row) = set id (change row) t

-- SET published_at = NOW(), last_error = NULL WHERE id = $1
abbrev pub published : ℕ → OutboxRow → OutboxRow
published now row = record row { published_at = some now; last_error = none }

abbrev pub mark_published : ℕ → ℕ → Publisher → Result (Unit {0}) × Publisher
mark_published now id p =
    (ok tt, record p { outbox = change_row (published now) id p.outbox (lookup id p.outbox) })

-- SET last_error = $1 WHERE id = $2
abbrev pub refused : Thrown → OutboxRow → OutboxRow
refused e row = record row { last_error = some (reported e) }

abbrev pub mark_error : Thrown → ℕ → Publisher → Result (Unit {0}) × Publisher
mark_error e id p =
    (ok tt, record p { outbox = change_row (refused e) id p.outbox (lookup id p.outbox) })

-- The body of the loop over the rows.
unfoldable pub publish_row : ℕ → ℕ × OutboxRow → Exec Publisher (Unit {0})
publish_row now (id, row) =
    catch (call kafka_failure (send row) >> query (mark_published now id))
      (λ e. query (mark_error e id))

unfoldable pub publish_rows : ℕ → Outbox → Exec Publisher (Unit {0})
publish_rows now [] = pure tt
publish_rows now (r ∷ rows) = publish_row now r >> publish_rows now rows

-- The `try` of `publishPendingOutboxEvents`.
unfoldable pub publish_pending : ℕ → Exec Publisher (Unit {0})
unfolding ensure_producer select_pending
publish_pending now = do
  ensure_producer
  rows ← query (λ p. (ok (select_pending p.outbox), p))
  publish_rows now rows

-- `publishPendingOutboxEvents`: errors are logged, and `finally` clears the flag.
unfoldable pub publish_pending_outbox_events : ℕ → Exec Publisher (Unit {0})
publish_pending_outbox_events now f p =
    if p.publishing
    then (ok tt, f, p)
    else (do
      local (λ s. record s { publishing = true })
      catch (publish_pending now) (λ e. pure tt)
      local (λ s. record s { publishing = false }))
        f p

-- `startOutboxPublisher`
unfoldable pub start_outbox_publisher : ℕ → Exec Publisher (Unit {0})
unfolding ensure_producer
start_outbox_publisher now = do
  ensure_producer
  publish_pending_outbox_events now
  local (λ s. record s { publish_timer = true })

-- The end of `stopOutboxPublisher`
unfoldable pub disconnect : Exec Publisher (Unit {0})
disconnect f p =
    if p.producer_connected
    then (call kafka_failure (λ s. (ok tt, record s { producer_connected = false }))) f p
    else (ok tt, f, p)

-- `stopOutboxPublisher`
unfoldable pub stop_outbox_publisher : Exec Publisher (Unit {0})
unfolding disconnect
stop_outbox_publisher = local (λ s. record s { publish_timer = false }) >> disconnect
