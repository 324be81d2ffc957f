-- ===== src/Tests/Sagas.antt =====
-- services/transfer-service/src/saga.ts: runs of `execute` on small data.
use cn_banking_transaction_s.Base.{
  ℕ, zero, suc, ◌≡◌, refl, Bool, true, false, Option, none, some, [], ◌∷◌,
}
use cn_banking_transaction_s.Effect.{
  delivered, lost, reply_lost, Script, Result, ok, err, transaction,
}
use cn_banking_transaction_s.Types.{Transfer, TransferStatus, completed, SagaState}
use cn_banking_transaction_s.Money.{cents, money_regex, after_digit, fraction, positive_money}
use cn_banking_transaction_s.AccountService.{debit_statement, may_debit, debited, credit_statement}
use cn_banking_transaction_s.AccountService.Routes.{
  require_service_token, debit_account, debit_valid, debit_reply, credit_account, credit_valid,
  credit_reply, refuse_debit, refuse_credit, database_failure,
}
use cn_banking_transaction_s.AccountService.Moves.{total}
use cn_banking_transaction_s.TransferService.{
  World, insert_transfer, create_transfer_record, update_saga_state, update_transfer_state,
  patch_debit, patch_credit,
}
use cn_banking_transaction_s.TransferService.Saga.{
  execute, run_steps, run_debit, run_credit, run_complete, on_error, original_error_message,
  compensate, refund, refund_failed, fail,
}
use cn_banking_transaction_s.Tests.Data.{config, saga_fresh, order, world}

abbrev with_fates : Script → Result Transfer × Script × World
with_fates f = execute config saga_fresh order f world

-- How a run ended: its status, if it returned, the total, and the flags.
abbrev status_of : Result Transfer → Option TransferStatus
status_of (ok t) = some t.status
status_of (err e) = none

abbrev flags : SagaState → Bool × Bool × Bool
flags s = (s.debit_completed, s.credit_completed, s.compensation_completed)

abbrev Outcome : Type 0
Outcome = Option TransferStatus × ℕ × (Bool × Bool × Bool)

abbrev outcome : Result Transfer × Script × World → Outcome
outcome (r, f, w) = (status_of r, total w.accounts_db, flags w.saga_state)

unfoldable outcome_of : Script → Outcome
unfolding execute run_steps run_debit run_credit run_complete on_error original_error_message
    compensate refund refund_failed fail insert_transfer create_transfer_record update_saga_state
    update_transfer_state patch_debit patch_credit require_service_token debit_account debit_valid
    debit_reply credit_account credit_valid credit_reply refuse_debit refuse_credit database_failure
    debit_statement may_debit debited credit_statement cents money_regex after_digit fraction
    positive_money transaction
outcome_of f = outcome (with_fates f)

-- `n` calls that are delivered, before the others.
abbrev after : ℕ → Script → Script
after zero f = f
after (suc n) f = delivered ∷ after n f

-- Every call is delivered.
all_delivered : outcome_of [] ≡ (some completed, 10_800, (true, true, false))
unfolding outcome_of
all_delivered = refl

-- The credit does not reach the account service: the debit is refunded.
credit_lost : outcome_of ((after 9 (lost ∷ []))) ≡ (none, 10_800, (true, false, true))
unfolding outcome_of
credit_lost = refl

-- The credit is made and COMPLETED is not persisted: the source gets a refund all the same, and
-- the total has grown by the amount.
not_persisted_twice_paid : outcome_of ((after 11 (lost ∷ []))) ≡ (none, 12_050, (true, true, true))
unfolding outcome_of
not_persisted_twice_paid = refl

-- The debit is made and its reply is lost: the amount is gone, and nothing is refunded.
debit_reply_lost : outcome_of ((after 6 (reply_lost ∷ []))) ≡ (none, 9_550, (false, false, false))
unfolding outcome_of
debit_reply_lost = refl

-- The credit fails, and then COMPENSATING is not persisted: nothing is refunded.
compensating_not_persisted :
    outcome_of ((after 9 (lost ∷ lost ∷ []))) ≡ (none, 9_550, (true, false, false))
unfolding outcome_of
compensating_not_persisted = refl
