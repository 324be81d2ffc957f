-- ===== src/LedgerService.antt =====
-- services/ledger-service/src/consumer.ts: the collection `ledger_entries` and the consumer of the
-- transfer events. A Kafka message is its topic, partition, offset and parsed payload; a payload
-- that is missing or that a schema refuses is part of the message.
pub mod Redelivery
pub mod Queries
pub mod Stats
use cn_banking_transaction_s.Base.{
  ℕ, Bool, true, false, ◌&&◌, ◌||◌, String, Option, none, some, List, [], ◌∷◌, ◌++◌, ◌==◌,
  if◌then◌else◌,
}
use cn_banking_transaction_s.Base.Table.{Table, lookup}
use cn_banking_transaction_s.Effect.{
  Thrown, axios, plain, not_created, Result, ok, err, Exec, pure, throw, call, query, catch, ◌>>=◌,
  ◌>>◌,
}
use cn_banking_transaction_s.Types.{
  Topic, account_created, transfer_initiated, transfer_completed, transfer_failed_topic,
  fraud_alert, TransferCompletedEvent, TransferFailedEvent, Transfer, TransferStatus,
  compensation_failed,
}
use cn_banking_transaction_s.Events.{create_ledger_entry_id}

pub data EntryType : Type 0 where
  debit_entry credit_entry : EntryType

pub data EntryStatus : Type 0 where
  entry_completed entry_failed entry_reversed : EntryStatus

pub record LedgerEntry : Type 0 where
  pub entry_id : List ℕ
  pub transfer_id : ℕ
  pub account_id : ℕ
  pub from_account_id : ℕ
  pub to_account_id : ℕ
  pub amount : ℕ
  pub entry_type : EntryType
  pub status : EntryStatus
  pub source_event : Topic
  pub created_at : ℕ

-- What `buildEntries` reads of an event of either type.
pub record TransferFacts : Type 0 where
  pub transfer_id : ℕ
  pub from_account_id : ℕ
  pub to_account_id : ℕ
  pub amount : ℕ
  pub event_type : Topic

abbrev pub completed_facts : TransferCompletedEvent → TransferFacts
completed_facts e = record {
  transfer_id = e.transfer_id;
  from_account_id = e.from_account_id;
  to_account_id = e.to_account_id;
  amount = e.amount;
  event_type = e.base.event_type;
}

abbrev pub failed_facts : TransferFailedEvent → TransferFacts
failed_facts e = record {
  transfer_id = e.transfer_id;
  from_account_id = e.from_account_id;
  to_account_id = e.to_account_id;
  amount = e.amount;
  event_type = e.base.event_type;
}

-- Where a message stands in Kafka.
pub record Position : Type 0 where
  pub topic : Topic
  pub partition : ℕ
  pub offset : ℕ

abbrev pub entry_type_name : EntryType → String
entry_type_name debit_entry = "debit"
entry_type_name credit_entry = "credit"

-- The account that an entry is listed under.
abbrev pub entry_account : EntryType → TransferFacts → ℕ
entry_account debit_entry facts = facts.from_account_id
entry_account credit_entry facts = facts.to_account_id

abbrev pub build_entry :
    (List ℕ → List ℕ) → Position → TransferFacts → EntryStatus → ℕ → EntryType → LedgerEntry
build_entry sha1 at facts status created_at entry_type = record {
  entry_id =
      create_ledger_entry_id sha1 at.topic at.partition at.offset (entry_type_name entry_type);
  transfer_id = facts.transfer_id;
  account_id = entry_account entry_type facts;
  from_account_id = facts.from_account_id;
  to_account_id = facts.to_account_id;
  amount = facts.amount;
  entry_type = entry_type;
  status = status;
  source_event = facts.event_type;
  created_at = created_at;
}

-- `buildEntries`
unfoldable pub build_entries :
    (List ℕ → List ℕ) → Position → TransferFacts → EntryStatus → ℕ → List LedgerEntry
build_entries sha1 at facts status created_at =
    build_entry sha1 at facts status created_at debit_entry
    ∷ build_entry sha1 at facts status created_at credit_entry
    ∷ []

-- The ledger's collection, and the transfers that GET /v1/transfers/:id answers from.
pub record LedgerWorld : Type 0 where
  pub entries : List LedgerEntry
  pub transfers : Table Transfer

abbrev pub same_text : List ℕ → List ℕ → Bool
same_text [] [] = true
same_text [] (b ∷ t) = false
same_text (a ∷ s) [] = false
same_text (a ∷ s) (b ∷ t) = a == b && same_text s t

unfoldable pub has_entry : List ℕ → List LedgerEntry → Bool
has_entry id [] = false
has_entry id (e ∷ es) = same_text id e.entry_id || has_entry id es

-- updateOne({ entryId }, { $setOnInsert: entry }, { upsert: true })
unfoldable pub upsert : LedgerEntry → List LedgerEntry → List LedgerEntry
unfolding has_entry
upsert e es = if has_entry e.entry_id es then es else es ++ e ∷ []

unfoldable pub upsert_entry : LedgerEntry → Exec LedgerWorld (Unit {0})
unfolding upsert
upsert_entry e = query (λ w. (ok tt, record w { entries = upsert e w.entries }))

-- `Promise.all`: every call is made, and the first error is thrown.
abbrev pub join : Result (Unit {0}) → Result (Unit {0}) → Result (Unit {0})
join (ok a) r = r
join (err e) r = err e

-- `upsertEntries`
unfoldable pub upsert_entries : List LedgerEntry → Exec LedgerWorld (Unit {0})
unfolding upsert_entry
upsert_entries [] f w = (ok tt, f, w)
upsert_entries (e ∷ es) f w =
    let (r, f', w') = upsert_entry e f w in
    let (r', f'', w'') = upsert_entries es f' w' in (join r r', f'', w'')

-- `fetchTransfer`: `null` for a transfer that is not there and for every error.
unfoldable pub fetch_transfer : ℕ → Exec LedgerWorld (Option Transfer)
fetch_transfer id =
    catch (call (axios none) (λ w. (ok (lookup id w.transfers), w))) (λ e. pure none)

-- A payload, by what each schema makes of it: `none` where `parseEvent` throws.
pub record Payload : Type 0 where
  pub as_completed : Option TransferCompletedEvent
  pub as_failed : Option TransferFailedEvent

abbrev pub invalid_payload : Thrown
invalid_payload = plain not_created

-- transfer.status === COMPENSATION_FAILED ? 'failed' : 'reversed'
abbrev pub failed_status : TransferStatus → EntryStatus
failed_status compensation_failed = entry_failed
failed_status _ = entry_reversed

module _ (sha1 : List ℕ → List ℕ) (at : Position) where
  unfoldable pub process_completed : Option TransferCompletedEvent → Exec LedgerWorld (Unit {0})
  unfolding upsert_entries build_entries
  process_completed none = throw invalid_payload
  process_completed (some e) =
      upsert_entries (build_entries sha1 at (completed_facts e) entry_completed e.completed_at)

  -- if (!transfer?.saga_state.debit_completed) return
  unfoldable pub record_failed : TransferFailedEvent → Option Transfer → Exec LedgerWorld (Unit {0})
  unfolding upsert_entries build_entries
  record_failed e none = pure tt
  record_failed e (some t) =
      if t.saga_state.debit_completed
      then upsert_entries
          (build_entries sha1 at (failed_facts e) (failed_status t.status) e.base.timestamp)
      else pure tt

  unfoldable pub process_failed : Option TransferFailedEvent → Exec LedgerWorld (Unit {0})
  unfolding record_failed fetch_transfer
  process_failed none = throw invalid_payload
  process_failed (some e) = fetch_transfer e.transfer_id >>= record_failed e

  unfoldable pub process_topic : Topic → Payload → Exec LedgerWorld (Unit {0})
  unfolding process_completed process_failed
  process_topic transfer_completed p = process_completed p.as_completed
  process_topic transfer_failed_topic p = process_failed p.as_failed
  process_topic account_created p = pure tt
  process_topic transfer_initiated p = pure tt
  process_topic fraud_alert p = pure tt

  -- `processLedgerEvent`; a message without a value is skipped.
  unfoldable pub process_ledger_event : Option Payload → Exec LedgerWorld (Unit {0})
  unfolding process_topic
  process_ledger_event none = pure tt
  process_ledger_event (some p) = process_topic at.topic p

-- `payload.heartbeat()`: a call of Kafka.
abbrev pub heartbeat : Exec LedgerWorld (Unit {0})
heartbeat = call (plain not_created) (λ w. (ok tt, w))

-- `eachBatch`: a message or a heartbeat that throws ends the batch.
unfoldable pub each_batch :
    (List ℕ → List ℕ) → List (Position × Option Payload) → Exec LedgerWorld (Unit {0})
each_batch sha1 [] = pure tt
each_batch sha1 ((at, value) ∷ rest) =
    process_ledger_event sha1 at value >> heartbeat >> each_batch sha1 rest
