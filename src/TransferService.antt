-- ===== src/TransferService.antt =====
-- services/transfer-service/src/saga.ts: the database of the transfer service, and the calls that
-- the saga makes of it and of the account service.
pub mod Saga
pub mod Routes
pub mod Moved
pub mod Patch
pub mod Accounting
pub mod Answers
pub mod Phases
pub mod Delivered
pub mod Completes
pub mod Created
use cn_banking_transaction_s.Base.{
  ℕ, ◌+◌, Bool, true, false, ◌&&◌, ◌||◌, String, Option, none, some, List, [], ◌∷◌, ltb, leb, ◌==◌,
  str_eq, if◌then◌else◌,
}
use cn_banking_transaction_s.Base.Table.{Table, lookup, set, insert}
use cn_banking_transaction_s.Effect.{
  Thrown, axios, pg, plain, unique_violation, check_violation, numeric_overflow, Message,
  not_created, Result, ok, err, Script, Exec, pure, throw, call, request, query, transaction, ping,
  catch, ◌>>=◌, ◌>>◌, Response, success, failure,
}
use cn_banking_transaction_s.Types.{
  Account, SagaState, SagaStep, create, Transfer, TransferStatus, initiated, TransferInitiatedEvent,
  SupportedEvent, transfer_initiated_event, Topic, transfer_initiated, event_type, Fresh,
  build_base_event,
}
use cn_banking_transaction_s.Money.{cents}
use cn_banking_transaction_s.Outbox.{Outbox, enqueue_outbox_event}
use cn_banking_transaction_s.AccountService.{AccountsDb, numeric_limit}
use cn_banking_transaction_s.AccountService.Routes.{AmountRequest, debit_account, credit_account}

-- The two databases, and the object `sagaState` of the run.
pub record World : Type 0 where
  pub accounts_db : AccountsDb
  pub transfers : Table Transfer
  pub outbox : Outbox
  pub saga_state : SagaState

-- INTERNAL_SERVICE_SECRET of the two services.
pub record Config : Type 0 where
  pub account_secret : Option String
  pub transfer_secret : Option String

-- The transfer that the saga runs for; the amount is the text of the request.
pub record Order : Type 0 where
  pub from_account_id : ℕ
  pub to_account_id : ℕ
  pub amount : List ℕ

-- What one run draws: random ids, and the time at each statement.
pub record SagaFresh : Type 0 where
  pub row : Fresh
  pub initiated_event : Fresh
  pub initiated_row : Fresh
  pub completed_event : Fresh
  pub completed_row : Fresh
  pub failed_event : Fresh
  pub failed_row : Fresh
  pub debit_at : ℕ
  pub credit_at : ℕ
  pub refund_at : ℕ
  pub completed_at : ℕ
  pub step_at : ℕ
  pub end_at : ℕ

-- `buildRequestConfig`: the header x-internal-service-token, for a secret that is set.
abbrev pub service_header : Option String → Option String
service_header none = none
service_header (some secret) = if str_eq secret "" then none else some secret

-- axios resolves for a success and rejects for every other status.
abbrev pub accept {ℓ} : {S A : Type ℓ} → Response A → Exec S A
accept (success c a) = pure a
accept (failure c code) = throw (axios (some c))

-- A route of the account service, run on its own database.
abbrev pub on_account_service : {A : Type 0} → Exec AccountsDb A → Exec World A
on_account_service m f w =
    let (r, f', db) = m f w.accounts_db in (r, f', record w { accounts_db = db })

abbrev pub patch : Exec AccountsDb (Response Account) → Exec World Account
patch m = request (axios none) (on_account_service m >>= accept)

abbrev pub amount_request : Config → ℕ → List ℕ → AmountRequest
amount_request config id amount = record {
  service_token = service_header config.transfer_secret;
  id = some id;
  amount = some amount;
}

-- PATCH `${ACCOUNT_SERVICE_URL}/v1/accounts/${id}/debit`
unfoldable pub patch_debit : Config → ℕ → ℕ → List ℕ → Exec World Account
patch_debit config now id amount =
    patch (debit_account config.account_secret now (amount_request config id amount))

-- PATCH `${ACCOUNT_SERVICE_URL}/v1/accounts/${id}/credit`
unfoldable pub patch_credit : Config → ℕ → ℕ → List ℕ → Exec World Account
patch_credit config now id amount =
    patch (credit_account config.account_secret now (amount_request config id amount))

abbrev pub row_taken : Option Transfer → Bool
row_taken none = false
row_taken (some t) = true

abbrev pub new_transfer : Fresh → Order → SagaState → Transfer
new_transfer fresh order saga = record {
  id = fresh.uuid;
  from_account_id = order.from_account_id;
  to_account_id = order.to_account_id;
  amount = cents order.amount;
  status = initiated;
  saga_state = saga;
  error_message = none;
  created_at = fresh.now;
  updated_at = fresh.now;
}

-- INSERT INTO transfers ... RETURNING id, under NUMERIC(18, 2), CHECK (amount > 0), the check that
-- the two accounts differ, and the primary key.
unfoldable pub insert_transfer : Fresh → Order → World → Result ℕ × World
insert_transfer fresh order w =
    if leb numeric_limit (cents order.amount)
    then (err (pg numeric_overflow), w)
    else if (cents order.amount == 0) || order.from_account_id == order.to_account_id
    then (err (pg check_violation), w)
    else if row_taken (lookup fresh.uuid w.transfers)
    then (err (pg unique_violation), w)
    else (
      ok fresh.uuid,
      record w {
        transfers = insert fresh.uuid (new_transfer fresh order w.saga_state) w.transfers;
      },
    )

abbrev pub enqueue : Fresh → ℕ → SupportedEvent → World → Result (Unit {0}) × World
enqueue fresh id event w =
    (ok tt, record w { outbox = enqueue_outbox_event fresh (event_type event) id event w.outbox })

abbrev pub transfer_initiated_of : Fresh → ℕ → Order → SupportedEvent
transfer_initiated_of fresh id order = transfer_initiated_event (record {
  base = build_base_event fresh transfer_initiated;
  transfer_id = id;
  from_account_id = order.from_account_id;
  to_account_id = order.to_account_id;
  amount = cents order.amount;
})

-- `createTransferRecord`
unfoldable pub create_transfer_record : SagaFresh → Order → Exec World ℕ
create_transfer_record fresh order =
    ping
    >> transaction
        (do
          id ← query (insert_transfer fresh.row order)
          query (
              enqueue fresh.initiated_row id (transfer_initiated_of fresh.initiated_event id order))
          pure id)
        throw

-- UPDATE transfers SET saga_state = $1 WHERE id = $2; the trigger sets `updated_at`.
abbrev pub write_saga_state : ℕ → ℕ → World → Option Transfer → Result (Unit {0}) × World
write_saga_state now id w none = (ok tt, w)
write_saga_state now id w (some t) = (
  ok tt,
  record w {
    transfers = set id (record t { saga_state = w.saga_state; updated_at = now }) w.transfers;
  },
)

abbrev pub set_saga_state : ℕ → ℕ → World → Result (Unit {0}) × World
set_saga_state now id w = write_saga_state now id w (lookup id w.transfers)

-- `updateSagaState`
unfoldable pub update_saga_state : ℕ → ℕ → Exec World (Unit {0})
update_saga_state now id = query (set_saga_state now id)

-- UPDATE transfers SET status = $1, saga_state = $2, error_message = $3 WHERE id = $4 RETURNING ...
abbrev pub new_state : ℕ → TransferStatus → Option Message → SagaState → Transfer → Transfer
new_state now status message saga t = record t {
  status = status;
  saga_state = saga;
  error_message = message;
  updated_at = now;
}

abbrev pub write_transfer_state :
    ℕ
    → ℕ
    → TransferStatus
    → Option Message
    → World
    → Option Transfer
    → Result (Option Transfer) × World
write_transfer_state now id status message w none = (ok none, w)
write_transfer_state now id status message w (some t) = (
  ok (some (new_state now status message w.saga_state t)),
  record w { transfers = set id (new_state now status message w.saga_state t) w.transfers },
)

abbrev pub set_transfer_state :
    ℕ → ℕ → TransferStatus → Option Message → World → Result (Option Transfer) × World
set_transfer_state now id status message w =
    write_transfer_state now id status message w (lookup id w.transfers)

-- The event goes to the outbox only if a row was updated and an event was given.
abbrev pub enqueue_for :
    Fresh → ℕ → Option SupportedEvent → Option Transfer → Exec World (Option Transfer)
enqueue_for fresh id none t = pure t
enqueue_for fresh id (some event) none = pure none
enqueue_for fresh id (some event) (some t) = query (enqueue fresh id event) >> pure (some t)

-- `updateTransferState`
unfoldable pub update_transfer_state :
    Fresh
    → ℕ
    → ℕ
    → TransferStatus
    → Option Message
    → Option SupportedEvent
    → Exec World (Option Transfer)
update_transfer_state fresh now id status message event =
    ping
    >> transaction (query (set_transfer_state now id status message) >>= enqueue_for fresh id event)
        throw
