-- ===== src/TransferService/Accounting.antt =====
-- The flags of the saga's state account for the money that the steps of a run have moved.
pub mod Recovery
use cn_banking_transaction_s.Base.{
  ℕ, ◌≡◌, refl, Bool, true, false, Option, none, some, List, arith, Option-cases, inl, inr,
  Bool-cases, ◌⊎◌,
}
use cn_banking_transaction_s.Base.Table.{lookup}
use cn_banking_transaction_s.Effect.{
  Script, keeps_replies, Thrown, Message, Result, ok, err, Exec, pure, throw, ◌>>=◌, ◌>>◌, catch,
}
use cn_banking_transaction_s.Effect.Runs.{
  Ends, Gives, Runs, Runs-pure, Runs-throw, Runs-call, Runs-bind, Runs-catch, Runs-transaction,
  Runs-weaken,
}
use cn_banking_transaction_s.Types.{
  Account, SagaState, Transfer, TransferStatus, SupportedEvent, Fresh, debit, credit, compensation,
  failed, compensating, compensation_failed,
}
use cn_banking_transaction_s.Money.{cents}
use cn_banking_transaction_s.AccountService.{AccountsDb}
use cn_banking_transaction_s.TransferService.{
  World, Config, Order, SagaFresh, patch_debit, patch_credit, create_transfer_record,
  update_saga_state, update_transfer_state, enqueue_for, write_transfer_state, write_saga_state,
  insert_transfer, enqueue,
}
use cn_banking_transaction_s.TransferService.Saga.{
  initial_saga_state, assign, enter, set_debited, set_credited, set_compensated, set_error,
  original_error_message, run_debit, run_credit, run_complete, or_not_persisted, refund,
  refund_failed, compensate, fail, fail_or_compensate, on_error, run_steps, execute,
}
use cn_banking_transaction_s.TransferService.Moved.{
  Moved, Moved-none, Moved-Debit, Moved-Credit, Moved-refund,
}
use cn_banking_transaction_s.TransferService.Patch.{
  Runs-patch_debit, Runs-patch_credit, with_accounts,
}

-- The flags of `sagaState`, and what has been moved since the database was `base`.
pub record Stage (order : Order) (base : AccountsDb) (d c r moved_d moved_c moved_r : Bool)
    (w : World) : Type 0 where
  pub debited : w.saga_state.debit_completed ≡ d
  pub credited : w.saga_state.credit_completed ≡ c
  pub compensated : w.saga_state.compensation_completed ≡ r
  pub moved :
      Moved order.from_account_id order.to_account_id
        (cents order.amount)
        moved_d
        moved_c
        moved_r
        base
        w.accounts_db

pub Stage-fields :
    {order : Order} {base : AccountsDb} {d c r md mc mr : Bool} {w : World}
    → w.saga_state.debit_completed ≡ d
    → w.saga_state.credit_completed ≡ c
    → w.saga_state.compensation_completed ≡ r
    → Moved order.from_account_id order.to_account_id
        (cents order.amount)
        md
        mc
        mr
        base
        w.accounts_db
    → Stage order base d c r md mc mr w
Stage-fields d c r m = record { debited = d; credited = c; compensated = r; moved = m }

pub Stage-same :
    (order : Order) (base : AccountsDb) {d c r md mc mr : Bool} (w w' : World)
    → w'.accounts_db ≡ w.accounts_db
    → w'.saga_state ≡ w.saga_state
    → Stage order base d c r md mc mr w
    → Stage order base d c r md mc mr w'
Stage-same order base w w' e s h = record {
  debited = rw s (h.debited);
  credited = rw s (h.credited);
  compensated = rw s (h.compensated);
  moved = rw e (h.moved);
}

abbrev pub At : Order → AccountsDb → Bool → Bool → Bool → World → Type 0
At order base d c r = Stage order base d c r d c r

-- The statements on the tables of the transfer service leave a stage as it is.
module _ (order : Order) (base : AccountsDb) (d c r : Bool) where
  write_saga_state-At :
      (now id : ℕ) (w : World) (t : Option Transfer)
      → At order base d c r w
      → Gives (λ _. At order base d c r) (At order base d c r) (write_saga_state now id w t)
  write_saga_state-At now id w none h = h
  write_saga_state-At now id w (some t) h = Stage-same order base w _ refl refl h

  pub Runs-update_saga_state :
      (now id : ℕ)
      → Runs
          (At order base d c r)
          (update_saga_state now id)
          (λ _. At order base d c r)
          (At order base d c r)
  unfolding update_saga_state
  Runs-update_saga_state now id =
      Runs-call _ _ (λ w. write_saga_state-At now id w (lookup id w.transfers)) (λ w h. h)

  write_transfer_state-At :
      (now id : ℕ) (status : TransferStatus) (message : Option Message) (w : World)
      (t : Option Transfer)
      → At order base d c r w
      → Gives
          (λ _. At order base d c r)
          (At order base d c r)
          (write_transfer_state now id status message w t)
  write_transfer_state-At now id status message w none h = h
  write_transfer_state-At now id status message w (some t) h = Stage-same order base w _ refl refl h

  pub Runs-enqueue_for :
      (fresh : Fresh) (id : ℕ) (event : Option SupportedEvent) (t : Option Transfer)
      → Runs
          (At order base d c r)
          (enqueue_for fresh id event t)
          (λ _. At order base d c r)
          (At order base d c r)
  Runs-enqueue_for fresh id none t = Runs-pure t (λ w h. h)
  Runs-enqueue_for fresh id (some event) none = Runs-pure none (λ w h. h)
  Runs-enqueue_for fresh id (some event) (some t) =
      Runs-bind _ _ (Runs-call _ _ (λ w h. Stage-same order base w _ refl refl h) (λ w h. h))
        (λ _. Runs-pure (some t) (λ w h. h))

  pub Runs-update_transfer_state :
      (fresh : Fresh) (now id : ℕ) (status : TransferStatus) (message : Option Message)
      (event : Option SupportedEvent)
      → Runs
          (At order base d c r)
          (update_transfer_state fresh now id status message event)
          (λ _. At order base d c r)
          (At order base d c r)
  unfolding update_transfer_state
  Runs-update_transfer_state fresh now id status message event =
      Runs-bind _ _ (Runs-call _ _ (λ w h. h) (λ w h. h)) (λ _.
        Runs-transaction _ throw
          (Runs-bind _ _
            (Runs-call _ _
              (λ w. write_transfer_state-At now id status message w (lookup id w.transfers))
              (λ w h. h))
            (Runs-enqueue_for fresh id event))
          (λ e. Runs-throw e (λ w h. h)) (λ w h. h) (λ w h. h))

-- An assignment makes no call, so it does not throw.
pub Runs-assign :
    {P Q R : World → Type 0} (change : SagaState → SagaState)
    → ((w : World) → P w → Q (record w { saga_state = change w.saga_state }))
    → Runs P (assign change) (λ _. Q) R
Runs-assign change h = record { at = λ f w k p. (h w p, k) }

-- Some stage: the flags that are set account for what has been moved.
pub record Accounted (order : Order) (base : AccountsDb) (w : World) : Type 0 where
  pub d : Bool
  pub c : Bool
  pub r : Bool
  pub stage : At order base d c r w

module _ (config : Config) (fresh : SagaFresh) (order : Order) (id : ℕ) (base : AccountsDb) where
  abbrev AtStage : Bool → Bool → Bool → World → Type 0
  AtStage = At order base

  accounted : (d c r : Bool) (w : World) → AtStage d c r w → Accounted order base w
  accounted d c r w h = record { d = d; c = c; r = r; stage = h }

  Runs-run_debit :
      Runs
        (AtStage false false false)
        (run_debit config fresh order id)
        (λ _. AtStage true false false)
        (AtStage false false false)
  unfolding run_debit
  Runs-run_debit =
      Runs-bind _ _
        (Runs-assign (enter debit) (λ w h. Stage-fields h.debited h.credited h.compensated h.moved))
        (λ _.
          Runs-bind _ _ (Runs-update_saga_state order base false false false fresh.step_at id) (λ _.
            Runs-bind _ _
              (Runs-patch_debit config fresh.debit_at order.from_account_id order.amount
                (AtStage false false false) (Stage order base false false false true false false)
                (λ w db a h e.
                  Stage-fields h.debited h.credited h.compensated
                    (Moved-Debit _ _ _ false false base w.accounts_db db a e h.moved)))
              (λ _.
                Runs-assign set_debited
                  (λ w h. Stage-fields refl h.credited h.compensated h.moved))))

  Runs-run_credit :
      Runs
        (AtStage true false false)
        (run_credit config fresh order id)
        (λ _. AtStage true true false)
        (AtStage true false false)
  unfolding run_credit
  Runs-run_credit =
      Runs-bind _ _
        (Runs-assign (enter credit)
          (λ w h. Stage-fields h.debited h.credited h.compensated h.moved))
        (λ _.
          Runs-bind _ _ (Runs-update_saga_state order base true false false fresh.step_at id) (λ _.
            Runs-bind _ _
              (Runs-patch_credit config fresh.credit_at order.to_account_id order.amount
                (AtStage true false false) (Stage order base true false false true true false)
                (λ w db a h e.
                  Stage-fields h.debited h.credited h.compensated
                    (Moved-Credit _ _ _ true false base w.accounts_db db a e h.moved)))
              (λ _.
                Runs-assign set_credited
                  (λ w h. Stage-fields h.debited refl h.compensated h.moved))))

  Runs-or_not_persisted :
      (t : Option Transfer)
      → Runs
          (AtStage true true false)
          (or_not_persisted config fresh order id t)
          (λ _. AtStage true true false)
          (AtStage true true false)
  Runs-or_not_persisted none = Runs-throw _ (λ w h. h)
  Runs-or_not_persisted (some t) = Runs-pure t (λ w h. h)

  Runs-run_complete :
      Runs
        (AtStage true true false)
        (run_complete config fresh order id)
        (λ _. AtStage true true false)
        (AtStage true true false)
  unfolding run_complete
  Runs-run_complete =
      Runs-bind _ _ (Runs-update_transfer_state order base true true false _ _ id _ _ _)
        Runs-or_not_persisted

  -- Behind a throw of a step: nothing was debited, or the debit was made.
  abbrev pub Stopped : World → Type 0
  Stopped w = AtStage false false false w ⊎ ((c : Bool) × AtStage true c false w)

  pub Runs-run_steps :
      Runs
        (AtStage false false false)
        (run_steps config fresh order id)
        (λ _. AtStage true true false)
        Stopped
  unfolding run_steps
  Runs-run_steps =
      Runs-bind _ _
        (Runs-bind _ _ (Runs-weaken _ Runs-run_debit (λ w h. h) (λ a w h. h) (λ w h. inl h))
          (λ _. Runs-weaken _ Runs-run_credit (λ w h. h) (λ a w h. h) (λ w h. inr (false, h))))
        (λ _. Runs-weaken _ Runs-run_complete (λ w h. h) (λ a w h. h) (λ w h. inr (true, h)))
