-- ===== src/TransferService/Created.antt =====
-- services/transfer-service/src/routes.ts: the answer of POST /transfers where every call is
-- delivered and nothing stands against the transfer.
use cn_banking_transaction_s.Base.{
  ℕ, ◌+◌, ◌<◌, ◌≤◌, ◌≡◌, ◌≢◌, refl, true, false, String, Option, none, some, [], ◌∷◌,
}
use cn_banking_transaction_s.Base.Table.{lookup}
use cn_banking_transaction_s.Effect.{Script, Result, ok, err, catch, ◌>>=◌, Response, success}
use cn_banking_transaction_s.Effect.Lives.{Returns}
use cn_banking_transaction_s.Types.{Account, Transfer, completed}
use cn_banking_transaction_s.Money.{positive_money}
use cn_banking_transaction_s.AccountService.{numeric_limit, is_suspended, is_verified}
use cn_banking_transaction_s.AccountService.Routes.{require_service_token}
use cn_banking_transaction_s.TransferService.{World, Config, Order, SagaFresh, service_header}
use cn_banking_transaction_s.TransferService.Saga.{execute}
use cn_banking_transaction_s.TransferService.Routes.{
  CreateTransferBody, create_transfer_schema, create_parsed, create_transfer, transfer_error,
  created,
}
use cn_banking_transaction_s.TransferService.Phases.{RowOf}
use cn_banking_transaction_s.TransferService.Completes.{
  moved_accounts, both_events, Completed, execute-Completed,
}

-- 201 with the transfer `t`, which is stored; the accounts, and the outbox with two new rows.
pub record CreatedTransfer (config : Config) (fresh : SagaFresh) (order : Order) (n : ℕ)
    (a b : Account) (base : World) (r : Response Transfer) (w : World) : Type 0 where
  pub transfer : Transfer
  pub answer : r ≡ success 201 transfer
  pub row : RowOf order completed none transfer
  pub stored : lookup fresh.row.uuid w.transfers ≡ some transfer
  pub accounts : w.accounts_db ≡ moved_accounts fresh order n a b base.accounts_db
  pub events : w.outbox ≡ both_events config fresh order base.outbox

-- POST /transfers succeeds whenever it can: if every call is delivered, the account service takes
-- the transfer service's token, the schema takes the body, the two ids are different, the source is
-- a verified account that is not suspended, whose balance fits the column and covers the amount,
-- the destination is not suspended and can hold the amount, and the drawn id is free, then the
-- answer is 201 with a COMPLETED transfer of the order's ids and amount, which is stored; the amount
-- has moved from the source to the destination, and nothing else has changed in the accounts but
-- the times of those two rows; and the initiated event and the completed event are the new rows of
-- the outbox, in that order.
pub create_transfer-CreatedTransfer :
    (uuid_of : String → Option ℕ) (config : Config) (fresh : SagaFresh) (body : CreateTransferBody)
    (order : Order) (n : ℕ) (a b : Account) (base : World)
    → require_service_token config.account_secret (service_header config.transfer_secret) ≡ true
    → create_transfer_schema uuid_of body ≡ some order
    → positive_money (some order.amount) ≡ some n
    → order.from_account_id ≢ order.to_account_id
    → lookup fresh.row.uuid base.transfers ≡ none
    → lookup order.from_account_id base.accounts_db.accounts ≡ some a
    → is_suspended a.status ≡ false
    → is_verified a.kyc_status ≡ true
    → n ≤ a.balance
    → a.balance < numeric_limit
    → lookup order.to_account_id base.accounts_db.accounts ≡ some b
    → is_suspended b.status ≡ false
    → b.balance + n < numeric_limit
    → Returns
        (CreatedTransfer config fresh order n a b base)
        (create_transfer uuid_of config fresh body [] base)
unfolding create_transfer create_parsed
create_transfer-CreatedTransfer uuid_of config fresh body order n a b base trusted schema money
      distinct unused source live verified covered fits target target_live target_fits =
    rw schema (
      answered (execute config fresh order [] base) (
        execute-Completed config fresh order n a b base trusted money distinct unused source live
          verified covered fits target target_live target_fits))
  where
    answered :
        (r : Result Transfer × Script × World)
        → Returns
            (Completed config fresh order n a b base trusted money distinct unused source live
              verified covered fits target target_live target_fits)
            r
        → Returns
            (CreatedTransfer config fresh order n a b base)
            (catch ((λ f s. r) >>= created) transfer_error r.1 base)
    answered (ok t, [], w) h = record {
      transfer = t;
      answer = refl;
      row = h.2;
      stored = h.1;
      accounts = h.0.accounts_now;
      events = h.0.outbox_now;
    }
    answered (ok t, fate ∷ f, w) h = absurd h
    answered (err e, f, w) h = absurd h
