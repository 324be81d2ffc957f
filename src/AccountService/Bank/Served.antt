-- ===== src/AccountService/Bank/Served.antt =====
-- services/account-service/src/routes.ts: each request, and each sequence of requests, as steps of
-- the abstract bank.
use cn_banking_transaction_s.Base.{
  ℕ, ◌≡◌, refl, sym, ap, ◌∙◌, ◌⊎◌, String, Option, none, some, List, [], ◌∷◌, map, Bool-cases, inl,
  inr, Option-cases, arith,
}
use cn_banking_transaction_s.Base.Table.{Table, lookup}
use cn_banking_transaction_s.Effect.{Script, Result, ok, err, ◌>>=◌, Response}
use cn_banking_transaction_s.Effect.Once.{once}
use cn_banking_transaction_s.Types.{Account, AccountKycStatus}
use cn_banking_transaction_s.Money.{positive_money}
use cn_banking_transaction_s.AccountService.{
  AccountsDb, any_row, frozen, reviewed, freeze_statement, kyc_statement, debit_statement,
  credit_statement, on_accounts,
}
use cn_banking_transaction_s.AccountService.Routes.{
  AmountRequest, require_service_token, database_failure, found_or_404, debit_reply, debit_valid,
  debit_account, credit_reply, credit_valid, credit_account, freeze_account, update_kyc_status,
}
use cn_banking_transaction_s.AccountService.Reading.{
  failure-Keeps, found-Keeps, debit_reply-Keeps, credit_reply-Keeps, get_account-Keeps,
  get_balance-Keeps,
}
use cn_banking_transaction_s.AccountService.Reads.{get_account, get_balance}
use cn_banking_transaction_s.AccountService.Create.{
  CreateFresh, CreateAccountBody, CreateAccountInput, create_account_schema, create_account,
  create_parsed,
}
use cn_banking_transaction_s.AccountService.Router.{
  AccountRequest, debit_request, credit_request, freeze_request, kyc_request, get_request,
  balance_request, create_request, handle, serve, drop_reply,
}
use cn_banking_transaction_s.AccountService.Bank.{
  Bank, balance_of_row, balances, Carries, BankStep, unchanged, opened, BankRun, done, next,
}
use cn_banking_transaction_s.AccountService.Bank.Opening.{create_valid-Added}
use cn_banking_transaction_s.AccountService.Bank.Refinement.{
  update-insert, debit-BankStep, credit-BankStep, same-BankStep,
}

drop_reply-state :
    {A : Type 0} (r : Result (Response A)) (f : Script) (db : AccountsDb)
    → (((λ f db. (r, f, db)) >>= drop_reply) f db).2 ≡ db
drop_reply-state (ok a) f db = refl
drop_reply-state (err e) f db = refl

abbrev table_balances : Table Account → Bank
table_balances t i = balance_of_row (lookup i t)

module _ (secret : Option String) where
  -- The step that a request has made, from one database to the next.
  abbrev Steps : AccountRequest → AccountsDb → AccountsDb → Type 0
  Steps req db db' = BankStep secret req (balances db) (balances db')

  stays : (req : AccountRequest) (db db' : AccountsDb) → db' ≡ db → Steps req db db'
  stays req db db' same = unchanged (ap balances same)

  -- A run whose state is as before, or is one that makes the step.
  by_write :
      (req : AccountRequest) (db db' written : AccountsDb)
      → Steps req db written
      → (db' ≡ db) ⊎ (db' ≡ written)
      → Steps req db db'
  by_write req db db' written step (inl same) = stays req db db' same
  by_write req db db' written step (inr e) = rw e step

  debit_valid-Steps :
      (now : ℕ) (r : AmountRequest) (id amount : ℕ) (f : Script) (db : AccountsDb)
      → Carries secret r id amount
      → Steps (debit_request now r) db (debit_valid now id amount f db).2
  unfolding debit_valid
  debit_valid-Steps now r id amount f db asks =
      by_write _ db _ _ (debit-BankStep secret now db r id amount asks) (
        once (on_accounts (debit_statement now amount id)) (debit_reply id) database_failure
          (λ o s. debit_reply-Keeps id o) (λ e s. failure-Keeps e) f db)

  credit_valid-Steps :
      (now : ℕ) (r : AmountRequest) (id amount : ℕ) (f : Script) (db : AccountsDb)
      → Carries secret r id amount
      → Steps (credit_request now r) db (credit_valid now id amount f db).2
  unfolding credit_valid
  credit_valid-Steps now r id amount f db asks =
      by_write _ db _ _ (credit-BankStep secret now db r id amount asks) (
        once (on_accounts (credit_statement now amount id)) (credit_reply id) database_failure
          (λ o s. credit_reply-Keeps id o) (λ e s. failure-Keeps e) f db)

  debit_routed :
      (P : AccountsDb → Type 0) (now : ℕ) (r : AmountRequest) (f : Script) (db : AccountsDb)
      → P db
      → ((id amount : ℕ) → Carries secret r id amount → P (debit_valid now id amount f db).2)
      → P (debit_account secret now r f db).2
  unfolding debit_account
  debit_routed P now r f db refused valid =
      elim (Bool-cases (require_service_token secret r.service_token)) [
        | inr closed ↦ rw closed refused
        | inl passes ↦ elim (Option-cases r.id) [
          | inl no_id ↦ rw (passes, no_id) refused
          | inr (id, i) ↦ elim (Option-cases (positive_money r.amount)) [
            | inl no_amount ↦ rw (passes, i, no_amount) refused
            | inr (amount, m) ↦
                let reached = valid id amount (passes, i, m) in rw (passes, i, m) reached
          ]
        ]
      ]

  debit_account-Steps :
      (now : ℕ) (r : AmountRequest) (f : Script) (db : AccountsDb)
      → Steps (debit_request now r) db (debit_account secret now r f db).2
  debit_account-Steps now r f db =
      debit_routed (Steps (debit_request now r) db) now r f db (unchanged refl)
        (λ id amount asks. debit_valid-Steps now r id amount f db asks)

  credit_routed :
      (P : AccountsDb → Type 0) (now : ℕ) (r : AmountRequest) (f : Script) (db : AccountsDb)
      → P db
      → ((id amount : ℕ) → Carries secret r id amount → P (credit_valid now id amount f db).2)
      → P (credit_account secret now r f db).2
  unfolding credit_account
  credit_routed P now r f db refused valid =
      elim (Bool-cases (require_service_token secret r.service_token)) [
        | inr closed ↦ rw closed refused
        | inl passes ↦ elim (Option-cases r.id) [
          | inl no_id ↦ rw (passes, no_id) refused
          | inr (id, i) ↦ elim (Option-cases (positive_money r.amount)) [
            | inl no_amount ↦ rw (passes, i, no_amount) refused
            | inr (amount, m) ↦
                let reached = valid id amount (passes, i, m) in rw (passes, i, m) reached
          ]
        ]
      ]

  credit_account-Steps :
      (now : ℕ) (r : AmountRequest) (f : Script) (db : AccountsDb)
      → Steps (credit_request now r) db (credit_account secret now r f db).2
  credit_account-Steps now r f db =
      credit_routed (Steps (credit_request now r) db) now r f db (unchanged refl)
        (λ id amount asks. credit_valid-Steps now r id amount f db asks)

  freeze_account-Steps :
      (now : ℕ) (k : Option ℕ) (f : Script) (db : AccountsDb)
      → Steps (freeze_request now k) db (freeze_account now k f db).2
  unfolding freeze_account freeze_statement
  freeze_account-Steps now none f db = unchanged refl
  freeze_account-Steps now (some id) f db =
      by_write _ db _ _
        (same-BankStep secret now db (freeze_request now (some id)) id any_row frozen
          (λ a b e. ground arith))
        (once (on_accounts (freeze_statement now id)) found_or_404 database_failure
          (λ o s. found-Keeps o) (λ e s. failure-Keeps e) f db)

  update_kyc_status-Steps :
      (now : ℕ) (kyc : Option AccountKycStatus) (k : Option ℕ) (f : Script) (db : AccountsDb)
      → Steps (kyc_request now kyc k) db (update_kyc_status now kyc k f db).2
  unfolding update_kyc_status kyc_statement
  update_kyc_status-Steps now kyc none f db = unchanged refl
  update_kyc_status-Steps now none (some id) f db = unchanged refl
  update_kyc_status-Steps now (some kyc) (some id) f db =
      by_write _ db _ _
        (same-BankStep secret now db (kyc_request now (some kyc) (some id)) id any_row
          (reviewed kyc) (λ a b e. ground arith))
        (once (on_accounts (kyc_statement now kyc id)) found_or_404 database_failure
          (λ o s. found-Keeps o) (λ e s. failure-Keeps e) f db)

  create_parsed-Steps :
      (fresh : CreateFresh) (body : CreateAccountBody) (owner : Option ℕ) (f : Script)
      (db : AccountsDb) (parsed : Option CreateAccountInput)
      → create_account_schema body ≡ parsed
      → Steps (create_request fresh body owner) db (create_parsed fresh owner parsed f db).2
  unfolding create_parsed
  create_parsed-Steps fresh body owner f db none e = unchanged refl
  create_parsed-Steps fresh body owner f db (some input) e =
      elim ((create_valid-Added fresh input owner db).at f db (inl refl)) [
        | inl same ↦ unchanged (ap table_balances same)
        | inr (a, added, was_free, amount) ↦
            opened fresh.row.uuid a.balance (refl, input, e, sym amount)
              (ap balance_of_row was_free)
              (ap table_balances added ∙ update-insert fresh.row.uuid a db was_free)
      ]

  create_account-Steps :
      (fresh : CreateFresh) (body : CreateAccountBody) (owner : Option ℕ) (f : Script)
      (db : AccountsDb)
      → Steps (create_request fresh body owner) db (create_account fresh body owner f db).2
  unfolding create_account
  create_account-Steps fresh body owner f db =
      create_parsed-Steps fresh body owner f db (create_account_schema body) refl

  handle-Steps :
      (req : AccountRequest) (f : Script) (db : AccountsDb)
      → Steps req db (handle secret req f db).2
  unfolding handle
  handle-Steps (debit_request now r) f db =
      let (reply, f', db') = debit_account secret now r f db in
      rw (drop_reply-state reply f' db') (debit_account-Steps now r f db)
  handle-Steps (credit_request now r) f db =
      let (reply, f', db') = credit_account secret now r f db in
      rw (drop_reply-state reply f' db') (credit_account-Steps now r f db)
  handle-Steps (freeze_request now k) f db =
      let (reply, f', db') = freeze_account now k f db in
      rw (drop_reply-state reply f' db') (freeze_account-Steps now k f db)
  handle-Steps (kyc_request now kyc k) f db =
      let (reply, f', db') = update_kyc_status now kyc k f db in
      rw (drop_reply-state reply f' db') (update_kyc_status-Steps now kyc k f db)
  handle-Steps (get_request caller k) f db =
      let (reply, f', db') = get_account caller k f db in
      rw (drop_reply-state reply f' db')
        (stays _ db _ ((get_account-Keeps {P = λ s. s ≡ db} caller k).at f db refl))
  handle-Steps (balance_request caller k) f db =
      let (reply, f', db') = get_balance caller k f db in
      rw (drop_reply-state reply f' db')
        (stays _ db _ ((get_balance-Keeps {P = λ s. s ≡ db} caller k).at f db refl))
  handle-Steps (create_request fresh body owner) f db =
      let (reply, f', db') = create_account fresh body owner f db in
      rw (drop_reply-state reply f' db') (create_account-Steps fresh body owner f db)

  -- The account service refines the abstract bank: whatever calls of the database fail and whatever
  -- replies are lost, a sequence of requests moves the balances by one step for each request in
  -- their order. A step leaves all balances as they are; or it is that of a debit request which
  -- passes the check of the service token, and takes exactly its amount from the account that it
  -- names, whose balance covers it; or of a credit request which passes that check, and adds exactly
  -- its amount to the account that it names; or of a request that opens an account under a key that
  -- was free, with the initial balance in its body. No other balance changes.
  pub serve-BankRun :
      (reqs : List (AccountRequest × Script)) (db : AccountsDb)
      → BankRun secret (map (λ r. r.0) reqs) (balances db) (balances (serve secret reqs db))
  unfolding serve
  serve-BankRun [] db = done
  serve-BankRun ((req, f) ∷ reqs) db =
      next (handle-Steps req f db) (serve-BankRun reqs (handle secret req f db).2)
