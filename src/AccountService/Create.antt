-- ===== src/AccountService/Create.antt =====
-- services/account-service/src/routes.ts: POST /accounts.
use cn_banking_transaction_s.Base.{ℕ, String, Option, none, some, List}
use cn_banking_transaction_s.Effect.{
  Thrown, axios, pg, plain, unique_violation, ok, Exec, pure, query, ping, transaction, ◌>>=◌, ◌>>◌,
  Response, success, failure, validation_error, conflict, database_error,
}
use cn_banking_transaction_s.Types.{
  Account, SupportedEvent, account_created_event, account_created, Fresh, build_base_event,
}
use cn_banking_transaction_s.Money.{non_negative_money}
use cn_banking_transaction_s.Outbox.{enqueue_outbox_event}
use cn_banking_transaction_s.AccountService.{AccountsDb, insert_account, on_accounts}

-- The body: a field that is missing or that zod's string checks refuse is `none`; an
-- `initial_balance` that is there and no text is `some none`.
pub record CreateAccountBody : Type 0 where
  pub name : Option String
  pub email : Option String
  pub initial_balance : Option (Option (List ℕ))

pub record CreateAccountInput : Type 0 where
  pub name : String
  pub email : String
  pub initial_balance : Option ℕ

abbrev pub with_balance : String → String → Option ℕ → Option CreateAccountInput
with_balance name email none = none
with_balance name email (some c) =
    some (record { name = name; email = email; initial_balance = some c })

-- `CreateAccountSchema`
unfoldable pub create_account_schema : CreateAccountBody → Option CreateAccountInput
create_account_schema body = go body.name body.email body.initial_balance
  where
    go : Option String → Option String → Option (Option (List ℕ)) → Option CreateAccountInput
    go none e b = none
    go (some n) none b = none
    go (some n) (some e) none = some (record { name = n; email = e; initial_balance = none })
    go (some n) (some e) (some b) = with_balance n e (non_negative_money b)

-- initial_balance ?? '0.00'
abbrev pub or_zero : Option ℕ → ℕ
or_zero none = 0
or_zero (some c) = c

unfoldable pub account_created_of : Fresh → Account → SupportedEvent
account_created_of fresh a = account_created_event (record {
  base = build_base_event fresh account_created;
  account_id = a.id;
  owner_name = a.name;
  email = a.email;
  initial_deposit = a.balance;
})

-- The random ids and times that one request draws: of the row, of the event, of the outbox row.
pub record CreateFresh : Type 0 where
  pub row : Fresh
  pub event : Fresh
  pub outbox_entry : Fresh

unfoldable pub create_error : Thrown → Exec AccountsDb (Response Account)
create_error (pg unique_violation) = pure (failure 409 conflict)
create_error (pg _) = pure (failure 500 database_error)
create_error (axios _) = pure (failure 500 database_error)
create_error (plain _) = pure (failure 500 database_error)

unfoldable pub insert_and_enqueue :
    CreateFresh → CreateAccountInput → Option ℕ → Exec AccountsDb (Response Account)
unfolding account_created_of
insert_and_enqueue fresh input owner = do
  account ← query (
      on_accounts
        (insert_account fresh.row input.name input.email (or_zero input.initial_balance) owner))
  query (λ db. (
    ok tt,
    record db {
      outbox =
          enqueue_outbox_event fresh.outbox_entry account_created account.id
            (account_created_of fresh.event account) db.outbox;
    },
  ))
  pure (success 201 account)

unfoldable pub create_valid :
    CreateFresh → CreateAccountInput → Option ℕ → Exec AccountsDb (Response Account)
unfolding insert_and_enqueue create_error
create_valid fresh input owner =
    ping >> transaction (insert_and_enqueue fresh input owner) create_error

unfoldable pub create_parsed :
    CreateFresh → Option ℕ → Option CreateAccountInput → Exec AccountsDb (Response Account)
unfolding create_valid
create_parsed fresh owner none = pure (failure 400 validation_error)
create_parsed fresh owner (some input) = create_valid fresh input owner

-- POST /accounts, where `owner` is the header x-user-id.
unfoldable pub create_account :
    CreateFresh → CreateAccountBody → Option ℕ → Exec AccountsDb (Response Account)
unfolding create_parsed create_account_schema
create_account fresh body owner = create_parsed fresh owner (create_account_schema body)
