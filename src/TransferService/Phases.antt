-- ===== src/TransferService/Phases.antt =====
-- services/transfer-service/src/saga.ts: where a run of the saga stands that has met no error, and
-- the statements on the tables of the transfer service, each of which is delivered.
use cn_banking_transaction_s.Base.{ℕ, ◌≡◌, refl, ap, Bool, Option, none, some}
use cn_banking_transaction_s.Base.Table.{lookup, lookup-set_self}
use cn_banking_transaction_s.Effect.{Message, throw}
use cn_banking_transaction_s.Effect.Lives.{
  Replies, Lives, Lives-pure, Lives-call, Lives-bind, Lives-transaction,
}
use cn_banking_transaction_s.Types.{
  SagaState, Transfer, TransferStatus, SupportedEvent, event_type, Fresh,
}
use cn_banking_transaction_s.Money.{cents}
use cn_banking_transaction_s.Outbox.{Outbox, enqueue_outbox_event}
use cn_banking_transaction_s.AccountService.{AccountsDb}
use cn_banking_transaction_s.TransferService.{
  World, Order, enqueue, set_saga_state, update_saga_state, set_transfer_state, enqueue_for,
  update_transfer_state, new_state,
}
use cn_banking_transaction_s.TransferService.Saga.{assign}

-- The row of the order's transfer.
pub record RowOf (order : Order) (status : TransferStatus) (message : Option Message) (t : Transfer)
    : Type 0 where
  pub from_same : t.from_account_id ≡ order.from_account_id
  pub to_same : t.to_account_id ≡ order.to_account_id
  pub amount_same : t.amount ≡ cents order.amount
  pub status_now : t.status ≡ status
  pub message_now : t.error_message ≡ message

-- The row under `id`, the flags, the accounts and the outbox of the transfer service.
pub record Phase (order : Order) (id : ℕ) (status : TransferStatus) (debited credited : Bool)
    (db : AccountsDb) (out : Outbox) (w : World) : Type 0 where
  pub stored : Transfer
  pub found : lookup id w.transfers ≡ some stored
  pub row : RowOf order status none stored
  pub debited_now : w.saga_state.debit_completed ≡ debited
  pub credited_now : w.saga_state.credit_completed ≡ credited
  pub accounts_now : w.accounts_db ≡ db
  pub outbox_now : w.outbox ≡ out

-- An assignment makes no call.
pub Lives-assign :
    {P Q : World → Type 0} (change : SagaState → SagaState)
    → ((w : World) → P w → Q (record w { saga_state = change w.saga_state }))
    → Lives P (assign change) (λ _. Q)
Lives-assign change h = record { at = h }

module _ (order : Order) (id : ℕ) (debited credited : Bool) (db : AccountsDb) where
  abbrev pub In : TransferStatus → Outbox → World → Type 0
  In status out = Phase order id status debited credited db out

  saga_state_written :
      (now : ℕ) (status : TransferStatus) (out : Outbox) (w : World)
      → In status out w
      → Replies (λ _. In status out) (set_saga_state now id w)
  saga_state_written now status out w h = rw (h.found) (record {
    stored = record h.stored { saga_state = w.saga_state; updated_at = now };
    found = lookup-set_self id _ h.stored w.transfers h.found;
    row = record {
      from_same = h.row.from_same;
      to_same = h.row.to_same;
      amount_same = h.row.amount_same;
      status_now = h.row.status_now;
      message_now = h.row.message_now;
    };
    debited_now = h.debited_now;
    credited_now = h.credited_now;
    accounts_now = h.accounts_now;
    outbox_now = h.outbox_now;
  })

  pub Lives-update_saga_state :
      (now : ℕ) (status : TransferStatus) (out : Outbox)
      → Lives (In status out) (update_saga_state now id) (λ _. In status out)
  unfolding update_saga_state
  Lives-update_saga_state now status out =
      Lives-call _ (set_saga_state now id) (saga_state_written now status out)

  -- The answer of the UPDATE is the row that is stored.
  abbrev pub Row : TransferStatus → Outbox → Option Transfer → World → Type 0
  Row status out none w = ⊥
  Row status out (some t) w =
      In status out w × (lookup id w.transfers ≡ some t) × RowOf order status none t

  transfer_state_written :
      (now : ℕ) (old status : TransferStatus) (out : Outbox) (w : World)
      → In old out w
      → Replies (Row status out) (set_transfer_state now id status none w)
  transfer_state_written now old status out w h =
      let t = new_state now status none w.saga_state h.stored in
      let written = lookup-set_self id t h.stored w.transfers h.found in
      let row : RowOf order status none t = record {
        from_same = h.row.from_same;
        to_same = h.row.to_same;
        amount_same = h.row.amount_same;
        status_now = refl;
        message_now = refl;
      } in
      rw (h.found) (
        record {
          stored = t;
          found = written;
          row = row;
          debited_now = h.debited_now;
          credited_now = h.credited_now;
          accounts_now = h.accounts_now;
          outbox_now = h.outbox_now;
        },
        written,
        row,
      )

  abbrev pub with_event : Fresh → SupportedEvent → Outbox → Outbox
  with_event fresh event = enqueue_outbox_event fresh (event_type event) id event

  enqueue_replies :
      (fresh : Fresh) (event : SupportedEvent) (status : TransferStatus) (out : Outbox) (w : World)
      → In status out w
      → In status (with_event fresh event out) (enqueue fresh id event w).1
  enqueue_replies fresh event status out w h = record {
    stored = h.stored;
    found = h.found;
    row = h.row;
    debited_now = h.debited_now;
    credited_now = h.credited_now;
    accounts_now = h.accounts_now;
    outbox_now = ap (with_event fresh event) h.outbox_now;
  }

  Lives-enqueue_for :
      (fresh : Fresh) (event : SupportedEvent) (status : TransferStatus) (out : Outbox)
      (o : Option Transfer)
      → Lives
          (Row status out o)
          (enqueue_for fresh id (some event) o)
          (Row status (with_event fresh event out))
  Lives-enqueue_for fresh event status out none = record { at = λ w h. absurd h }
  Lives-enqueue_for fresh event status out (some t) =
      Lives-bind _ _
        (Lives-call {Q = λ _. Row status (with_event fresh event out) (some t)} _ _
          (λ w h. (enqueue_replies fresh event status out w h.0, h.1, h.2)))
        (λ _. Lives-pure (some t) (λ w h. h))

  pub Lives-update_transfer_state :
      (fresh : Fresh) (now : ℕ) (old status : TransferStatus) (event : SupportedEvent)
      (out : Outbox)
      → Lives
          (In old out)
          (update_transfer_state fresh now id status none (some event))
          (Row status (with_event fresh event out))
  unfolding update_transfer_state
  Lives-update_transfer_state fresh now old status event out =
      Lives-bind {Q = λ _. In old out} _ _ (Lives-call _ _ (λ w h. h)) (λ _.
        Lives-transaction _ throw (
          Lives-bind _ _ (Lives-call _ _ (transfer_state_written now old status out))
            (Lives-enqueue_for fresh event status out)))
