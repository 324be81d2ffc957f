-- ===== src/AccountService/Closed/Router.antt =====
-- services/account-service/src/routes.ts: what every statement keeps, every route and every sequence
-- of requests keeps, whatever calls of the database fail.
use cn_banking_transaction_s.Base.{
  ℕ, String, Option, none, some, List, [], ◌∷◌, Bool-cases, inl, inr, Option-cases,
}
use cn_banking_transaction_s.Base.Table.{Table}
use cn_banking_transaction_s.Effect.{Script, Result, query}
use cn_banking_transaction_s.Effect.Keeps.{
  Keeps, Keeps-pure, Keeps-call, Keeps-bind, Keeps-catch, Keeps-transaction,
}
use cn_banking_transaction_s.Types.{Account, AccountKycStatus}
use cn_banking_transaction_s.AccountService.{AccountsDb, on_accounts}
use cn_banking_transaction_s.AccountService.Routes.{
  AmountRequest, database_failure, found_or_404, debit_reply, debit_valid, debit_account,
  credit_reply, credit_valid, credit_account, freeze_account, update_kyc_status,
  require_service_token,
}
use cn_banking_transaction_s.AccountService.Create.{
  CreateFresh, CreateAccountBody, create_account, create_parsed, CreateAccountInput, create_error,
  insert_and_enqueue, create_account_schema,
}
use cn_banking_transaction_s.Money.{positive_money}
use cn_banking_transaction_s.Outbox.{Outbox}
use cn_banking_transaction_s.AccountService.Closed.{
  IsClosed, OnTable, debit-Closed, credit-Closed, freeze-Closed, kyc-Closed, insert-Closed,
}
use cn_banking_transaction_s.AccountService.Router.{
  AccountRequest, debit_request, credit_request, freeze_request, kyc_request, get_request,
  balance_request, create_request, handle, serve,
}
use cn_banking_transaction_s.AccountService.Reading.{
  failure-Keeps, found-Keeps, debit_reply-Keeps, credit_reply-Keeps, get_account-Keeps,
  get_balance-Keeps, create_error-Keeps,
}

module _ {P : AccountsDb → Type 0} (c : IsClosed P) where
  statement-Closed :
      {A : Type 0} (op : Table Account → Result A × Table Account)
      → ((outbox : Outbox) (t : Table Account) → OnTable P outbox t → OnTable P outbox (op t).1)
      → Keeps P (query (on_accounts op))
  statement-Closed op keep = Keeps-call _ (on_accounts op) (λ db h. keep db.outbox db.accounts h)

  debit_valid-Closed : (now k amount : ℕ) → Keeps P (debit_valid now k amount)
  unfolding debit_valid
  debit_valid-Closed now k amount =
      Keeps-catch _ database_failure
        (Keeps-bind _ (debit_reply k) (statement-Closed _ (λ o. debit-Closed c o now amount k))
          (debit_reply-Keeps k))
        failure-Keeps

  credit_valid-Closed : (now k amount : ℕ) → Keeps P (credit_valid now k amount)
  unfolding credit_valid
  credit_valid-Closed now k amount =
      Keeps-catch _ database_failure
        (Keeps-bind _ (credit_reply k) (statement-Closed _ (λ o. credit-Closed c o now amount k))
          (credit_reply-Keeps k))
        failure-Keeps

  debit_account-Closed :
      (secret : Option String) (now : ℕ) (req : AmountRequest)
      → Keeps P (debit_account secret now req)
  unfolding debit_account
  debit_account-Closed secret now req =
      elim (Bool-cases (require_service_token secret req.service_token)) [
        | inr closed ↦ rw closed (Keeps-pure _)
        | inl opened ↦ elim (Option-cases req.id) [
          | inl no_id ↦ rw (opened, no_id) (Keeps-pure _)
          | inr (k, i) ↦ elim (Option-cases (positive_money req.amount)) [
            | inl no_amount ↦ rw (opened, i, no_amount) (Keeps-pure _)
            | inr (amount, m) ↦ rw (opened, i, m) (debit_valid-Closed now k amount)
          ]
        ]
      ]

  credit_account-Closed :
      (secret : Option String) (now : ℕ) (req : AmountRequest)
      → Keeps P (credit_account secret now req)
  unfolding credit_account
  credit_account-Closed secret now req =
      elim (Bool-cases (require_service_token secret req.service_token)) [
        | inr closed ↦ rw closed (Keeps-pure _)
        | inl opened ↦ elim (Option-cases req.id) [
          | inl no_id ↦ rw (opened, no_id) (Keeps-pure _)
          | inr (k, i) ↦ elim (Option-cases (positive_money req.amount)) [
            | inl no_amount ↦ rw (opened, i, no_amount) (Keeps-pure _)
            | inr (amount, m) ↦ rw (opened, i, m) (credit_valid-Closed now k amount)
          ]
        ]
      ]

  freeze_account-Closed : (now : ℕ) (k : Option ℕ) → Keeps P (freeze_account now k)
  unfolding freeze_account
  freeze_account-Closed now none = Keeps-pure _
  freeze_account-Closed now (some k) =
      Keeps-catch _ database_failure
        (Keeps-bind _ found_or_404 (statement-Closed _ (λ o. freeze-Closed c o now k)) found-Keeps)
        failure-Keeps

  update_kyc_status-Closed :
      (now : ℕ) (kyc : Option AccountKycStatus) (k : Option ℕ)
      → Keeps P (update_kyc_status now kyc k)
  unfolding update_kyc_status
  update_kyc_status-Closed now kyc none = Keeps-pure _
  update_kyc_status-Closed now none (some k) = Keeps-pure _
  update_kyc_status-Closed now (some kyc) (some k) =
      Keeps-catch _ database_failure
        (Keeps-bind _ found_or_404 (statement-Closed _ (λ o. kyc-Closed c o now kyc k)) found-Keeps)
        failure-Keeps

  create_parsed-Closed :
      (fresh : CreateFresh) (owner : Option ℕ) (input : Option CreateAccountInput)
      → Keeps P (create_parsed fresh owner input)
  unfolding create_parsed insert_and_enqueue
  create_parsed-Closed fresh owner none = Keeps-pure _
  create_parsed-Closed fresh owner (some input) = Keeps-bind _ _ (Keeps-call _ _ (λ db h. h)) (λ _.
      Keeps-transaction _ create_error
        (Keeps-bind _ _ (statement-Closed _ (λ o. insert-Closed c o fresh.row _ _ _ owner))
          (λ a. Keeps-bind _ _ (Keeps-call _ _ (λ db h. c.enqueues _ db h)) (λ _. Keeps-pure _)))
        create_error-Keeps)

  create_account-Closed :
      (fresh : CreateFresh) (body : CreateAccountBody) (owner : Option ℕ)
      → Keeps P (create_account fresh body owner)
  unfolding create_account
  create_account-Closed fresh body owner =
      create_parsed-Closed fresh owner (create_account_schema body)

  handle-Closed : (secret : Option String) (req : AccountRequest) → Keeps P (handle secret req)
  unfolding handle
  handle-Closed secret (debit_request now req) =
      Keeps-bind _ _ (debit_account-Closed secret now req) (λ r. Keeps-pure tt)
  handle-Closed secret (credit_request now req) =
      Keeps-bind _ _ (credit_account-Closed secret now req) (λ r. Keeps-pure tt)
  handle-Closed secret (freeze_request now k) =
      Keeps-bind _ _ (freeze_account-Closed now k) (λ r. Keeps-pure tt)
  handle-Closed secret (kyc_request now kyc k) =
      Keeps-bind _ _ (update_kyc_status-Closed now kyc k) (λ r. Keeps-pure tt)
  handle-Closed secret (get_request caller k) =
      Keeps-bind _ _ (get_account-Keeps caller k) (λ r. Keeps-pure tt)
  handle-Closed secret (balance_request caller k) =
      Keeps-bind _ _ (get_balance-Keeps caller k) (λ r. Keeps-pure tt)
  handle-Closed secret (create_request fresh body owner) =
      Keeps-bind _ _ (create_account-Closed fresh body owner) (λ r. Keeps-pure tt)

  -- `P` holds behind any sequence of requests, whatever calls fail.
  pub serve-Closed :
      (secret : Option String) (reqs : List (AccountRequest × Script)) (db : AccountsDb)
      → P db
      → P (serve secret reqs db)
  unfolding serve
  serve-Closed secret [] db h = h
  serve-Closed secret ((req, f) ∷ reqs) db h =
      serve-Closed secret reqs (handle secret req f db).2 ((handle-Closed secret req).at f db h)
