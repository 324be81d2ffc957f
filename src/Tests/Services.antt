-- ===== src/Tests/Services.antt =====
-- The theorems on sequences of requests and on runs without failures, at the data of the tests.
use cn_banking_transaction_s.Base.{true, ℕ, ◌≡◌, refl, some, List, [], ◌∷◌, map, arith}
use cn_banking_transaction_s.Base.Table.{lookup}
use cn_banking_transaction_s.Effect.{reply_lost, Script}
use cn_banking_transaction_s.Effect.Lives.{Returns}
use cn_banking_transaction_s.AccountService.Router.{
  AccountRequest, create_request, debit_request, serve,
}
use cn_banking_transaction_s.AccountService.Routes.{require_service_token}
use cn_banking_transaction_s.Money.{positive_money, money_regex, after_digit, fraction, cents}
use cn_banking_transaction_s.TransferService.{service_header}
use cn_banking_transaction_s.AccountService.Bank.{balances, BankRun}
use cn_banking_transaction_s.AccountService.Bank.Served.{serve-BankRun}
use cn_banking_transaction_s.TransferService.Routes.{create_transfer, create_transfer_schema}
use cn_banking_transaction_s.TransferService.Created.{
  CreatedTransfer, create_transfer-CreatedTransfer,
}
use cn_banking_transaction_s.Outbox.{OutboxRow}
use cn_banking_transaction_s.Outbox.Publisher.{message_of, pending_rows}
use cn_banking_transaction_s.Outbox.Publisher.Sound.{IsSound, Within}
use cn_banking_transaction_s.Outbox.Publisher.Drains.{publish_rounds, publish_rounds-drained}
use cn_banking_transaction_s.Tests.Data.{
  amount_text, sender, receiver, db, amount_request, ids, body, requests, create_fresh,
  new_customer, config, saga_fresh, order, world, publisher,
}

-- An account is opened, a debit loses its reply, and the requests of the frozen account follow.
abbrev busy_day : List (AccountRequest × Script)
busy_day =
    (create_request create_fresh new_customer (some 30), [])
    ∷ (debit_request 62 (amount_request 7), reply_lost ∷ [])
    ∷ requests

serve-BankRun_example :
    BankRun
      (some "s3cret")
      (map (λ r. r.0) busy_day)
      (balances db)
      (balances (serve (some "s3cret") busy_day db))
serve-BankRun_example = serve-BankRun (some "s3cret") busy_day db

trusted : require_service_token config.account_secret (service_header config.transfer_secret) ≡ true
unfolding require_service_token
trusted = refl

money : positive_money (some amount_text) ≡ some 1_250
unfolding positive_money money_regex after_digit fraction cents
money = refl

accepted : create_transfer_schema ids body ≡ some order
unfolding create_transfer_schema
accepted = rw money refl

create_transfer-CreatedTransfer_example :
    Returns
      (CreatedTransfer config saga_fresh order 1_250 sender receiver world)
      (create_transfer ids config saga_fresh body [] world)
create_transfer-CreatedTransfer_example =
    create_transfer-CreatedTransfer ids config saga_fresh body order 1_250 sender receiver world
      trusted accepted money (λ e. ground arith) refl refl refl refl (ground arith) (ground arith)
      refl refl (ground arith)

none_waits : IsSound publisher
none_waits id r e m = ground arith

publish_rounds-drained_example :
    Returns
      (λ _ q.
        (pending_rows q.outbox ≡ [])
        × ((i : ℕ) (row : OutboxRow)
            → lookup i publisher.outbox ≡ some row
            → Within (message_of row) q.sent))
      (publish_rounds (2_000 ∷ []) [] publisher)
publish_rounds-drained_example =
    publish_rounds-drained (2_000 ∷ []) publisher (refl, (refl, tt)) refl none_waits (ground arith)
