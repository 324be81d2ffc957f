-- ===== src/AccountService/Bank.antt =====
-- services/account-service/src/routes.ts as an abstract bank: what is left of the database is the
-- balance of each account, and each request may do the one thing that it asks for, or nothing.
pub mod Refinement
pub mod Opening
pub mod Served
use cn_banking_transaction_s.Base.{
  ℕ, ◌+◌, ◌-◌, ◌≤◌, ◌≡◌, true, String, Option, none, some, List, [], ◌∷◌, ◌==◌, if◌then◌else◌,
}
use cn_banking_transaction_s.Base.Table.{lookup}
use cn_banking_transaction_s.Types.{Account}
use cn_banking_transaction_s.Money.{positive_money}
use cn_banking_transaction_s.AccountService.{AccountsDb}
use cn_banking_transaction_s.AccountService.Routes.{AmountRequest, require_service_token}
use cn_banking_transaction_s.AccountService.Create.{
  CreateFresh, CreateAccountBody, CreateAccountInput, create_account_schema, or_zero,
}
use cn_banking_transaction_s.AccountService.Router.{
  AccountRequest, debit_request, credit_request, freeze_request, kyc_request, get_request,
  balance_request, create_request,
}

abbrev pub Bank : Type 0
Bank = ℕ → Option ℕ

abbrev pub balance_of_row : Option Account → Option ℕ
balance_of_row none = none
balance_of_row (some a) = some a.balance

-- The abstraction: the balances.
abbrev pub balances : AccountsDb → Bank
balances db i = balance_of_row (lookup i db.accounts)

abbrev pub update : Bank → ℕ → ℕ → Bank
update s id n i = if i == id then some n else s i

-- The request passes the check of the service token, and has the id and the amount.
abbrev pub Carries : Option String → AmountRequest → ℕ → ℕ → Type 0
Carries secret r id amount =
    (require_service_token secret r.service_token ≡ true)
    × (r.id ≡ some id)
    × (positive_money r.amount ≡ some amount)

-- The debit, the credit and the opening that a request asks for.
abbrev pub AsksDebit : Option String → AccountRequest → ℕ → ℕ → Type 0
AsksDebit secret (debit_request now r) id amount = Carries secret r id amount
AsksDebit secret _ id amount = ⊥

abbrev pub AsksCredit : Option String → AccountRequest → ℕ → ℕ → Type 0
AsksCredit secret (credit_request now r) id amount = Carries secret r id amount
AsksCredit secret _ id amount = ⊥

abbrev pub AsksOpening : AccountRequest → ℕ → ℕ → Type 0
AsksOpening (create_request fresh body owner) id amount =
    (fresh.row.uuid ≡ id)
    × (input : CreateAccountInput) × (create_account_schema body ≡ some input)
    × (or_zero input.initial_balance ≡ amount)
AsksOpening _ id amount = ⊥

-- One request.
pub data BankStep (secret : Option String) (req : AccountRequest) (s s' : Bank) : Type 0 where
  unchanged : s' ≡ s → BankStep secret req s s'
  withdrawn :
      (id amount old : ℕ)
      → AsksDebit secret req id amount
      → s id ≡ some old
      → amount ≤ old
      → s' ≡ update s id (old - amount)
      → BankStep secret req s s'
  deposited :
      (id amount old : ℕ)
      → AsksCredit secret req id amount
      → s id ≡ some old
      → s' ≡ update s id (old + amount)
      → BankStep secret req s s'
  opened :
      (id amount : ℕ)
      → AsksOpening req id amount
      → s id ≡ none
      → s' ≡ update s id amount
      → BankStep secret req s s'

-- A list of requests, one step each.
pub data BankRun (secret : Option String) : List AccountRequest → Bank → Bank → Type 0 where
  done : {s : Bank} → BankRun secret [] s s
  next :
      {req : AccountRequest} {reqs : List AccountRequest} {s s' s'' : Bank}
      → BankStep secret req s s'
      → BankRun secret reqs s' s''
      → BankRun secret (req ∷ reqs) s s''
