-- ===== src/TransferService/Saga.antt =====
-- services/transfer-service/src/saga.ts: `TransferSaga.execute`. The object `sagaState` is part of
-- the state, so that what was written to it before a throw is seen by the handler.
use cn_banking_transaction_s.Base.{ℕ, true, false, Option, none, some, ◌==◌, if◌then◌else◌}
use cn_banking_transaction_s.Base.Table.{lookup}
use cn_banking_transaction_s.Effect.{
  Thrown, axios, pg, plain, Message, insufficient_funds, not_persisted, reported, both_failed, ok,
  Exec, pure, throw, query, catch, ◌>>=◌, ◌>>◌,
}
use cn_banking_transaction_s.Types.{
  SagaState, SagaStep, create, debit, credit, compensation, completed_step, Transfer, completed,
  failed, compensating, compensation_failed, SupportedEvent, transfer_completed_event,
  transfer_failed_event, transfer_completed, transfer_failed_topic, build_base_event,
}
use cn_banking_transaction_s.Money.{cents}
use cn_banking_transaction_s.TransferService.{
  World, Config, Order, SagaFresh, patch_debit, patch_credit, create_transfer_record,
  update_saga_state, update_transfer_state,
}

abbrev pub initial_saga_state : SagaState
initial_saga_state = record {
  current_step = create;
  debit_completed = false;
  credit_completed = false;
  compensation_completed = false;
  error = none;
}

-- sagaState.current_step = step
abbrev pub enter : SagaStep → SagaState → SagaState
enter step s = record s { current_step = step }

-- sagaState.debit_completed = true
abbrev pub set_debited : SagaState → SagaState
set_debited s = record s { debit_completed = true }

-- sagaState.credit_completed = true; sagaState.current_step = SagaStep.COMPLETED
abbrev pub set_credited : SagaState → SagaState
set_credited s = record s { credit_completed = true; current_step = completed_step }

-- sagaState.compensation_completed = true
abbrev pub set_compensated : SagaState → SagaState
set_compensated s = record s { compensation_completed = true }

-- sagaState.error = message
abbrev pub set_error : Message → SagaState → SagaState
set_error message s = record s { error = some message }

-- An assignment to fields of `sagaState`.
abbrev pub assign : (SagaState → SagaState) → Exec World (Unit {0})
assign change f w = (ok tt, f, record w { saga_state = change w.saga_state })

-- isAxiosError(error) && error.response?.status === 422 ? 'Insufficient funds' : getErrorMessage(error)
unfoldable pub original_error_message : Thrown → Message
original_error_message (axios (some status)) =
    if status == 422 then insufficient_funds else reported (axios (some status))
original_error_message (axios none) = reported (axios none)
original_error_message (pg e) = reported (pg e)
original_error_message (plain m) = reported (plain m)

module _ (config : Config) (fresh : SagaFresh) (order : Order) (id : ℕ) where
  abbrev pub completed_event_of : SupportedEvent
  completed_event_of = transfer_completed_event (record {
    base = build_base_event fresh.completed_event transfer_completed;
    transfer_id = id;
    from_account_id = order.from_account_id;
    to_account_id = order.to_account_id;
    amount = cents order.amount;
    completed_at = fresh.completed_at;
  })

  -- `buildFailedEvent`
  abbrev pub build_failed_event : Message → SupportedEvent
  build_failed_event reason = transfer_failed_event (record {
    base = build_base_event fresh.failed_event transfer_failed_topic;
    transfer_id = id;
    from_account_id = order.from_account_id;
    to_account_id = order.to_account_id;
    amount = cents order.amount;
    reason = reason;
  })

  unfoldable pub run_debit : Exec World (Unit {0})
  run_debit = do
    assign (enter debit)
    update_saga_state fresh.step_at id
    patch_debit config fresh.debit_at order.from_account_id order.amount
    assign set_debited

  unfoldable pub run_credit : Exec World (Unit {0})
  run_credit = do
    assign (enter credit)
    update_saga_state fresh.step_at id
    patch_credit config fresh.credit_at order.to_account_id order.amount
    assign set_credited

  -- if (!completedTransfer) throw
  abbrev pub or_not_persisted : Option Transfer → Exec World Transfer
  or_not_persisted none = throw (plain not_persisted)
  or_not_persisted (some t) = pure t

  unfoldable pub run_complete : Exec World Transfer
  run_complete =
      update_transfer_state fresh.completed_row fresh.end_at id completed none
        (some completed_event_of)
      >>= or_not_persisted

  -- The inner `try` of the compensation: the refund, and the terminal state.
  unfoldable pub refund : Message → Exec World (Unit {0})
  refund message = do
    patch_credit config fresh.refund_at order.from_account_id order.amount
    assign set_compensated
    update_transfer_state fresh.failed_row fresh.end_at id failed (some message)
        (some (build_failed_event message))
    pure tt

  -- The inner `catch` of the compensation.
  unfoldable pub refund_failed : Message → Thrown → Exec World (Unit {0})
  refund_failed message e = do
    assign (set_error (both_failed message (reported e)))
    update_transfer_state fresh.failed_row fresh.end_at id compensation_failed
        (some (both_failed message (reported e)))
        (some (build_failed_event (both_failed message (reported e))))
    pure tt

  unfoldable pub compensate : Thrown → Exec World Transfer
  unfolding refund refund_failed
  compensate e = do
    assign (enter compensation)
    update_transfer_state fresh.failed_row fresh.step_at id compensating
        (some (original_error_message e)) none
    catch (refund (original_error_message e)) (refund_failed (original_error_message e))
    throw e

  unfoldable pub fail : Thrown → Exec World Transfer
  fail e = do
    update_transfer_state fresh.failed_row fresh.end_at id failed (some (original_error_message e))
        (some (build_failed_event (original_error_message e)))
    throw e

  -- if (!sagaState.debit_completed)
  abbrev pub fail_or_compensate : Thrown → Exec World Transfer
  fail_or_compensate e f w = if w.saga_state.debit_completed then compensate e f w else fail e f w

  -- The `catch` of `execute`.
  unfoldable pub on_error : Thrown → Exec World Transfer
  on_error e = assign (set_error (original_error_message e)) >> fail_or_compensate e

  unfoldable pub run_steps : Exec World Transfer
  run_steps = run_debit >> run_credit >> run_complete

-- `TransferSaga.execute`
unfoldable pub execute : Config → SagaFresh → Order → Exec World Transfer
execute config fresh order = do
  assign (λ s. initial_saga_state)
  id ← create_transfer_record fresh order
  catch (run_steps config fresh order id) (on_error config fresh order id)

-- `getTransferById`
unfoldable pub get_transfer_by_id : ℕ → Exec World (Option Transfer)
get_transfer_by_id id = query (λ w. (ok (lookup id w.transfers), w))
