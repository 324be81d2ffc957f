-- ===== src/AccountService/Bank/Refinement.antt =====
-- services/account-service/src/routes.ts: the UPDATEs of a balance as steps of the abstract bank.
use cn_banking_transaction_s.Base.{
  ℕ, ◌≡◌, refl, sym, ap, ◌∙◌, Bool, true, String, Option, none, some, arith, Bool-cases, inl, inr,
  ◌⊎◌, Option-cases, leb, ◌==◌,
}
use cn_banking_transaction_s.Base.Table.{
  Table, lookup, set, insert, lookup-set_self, lookup-set_ne, lookup-insert_self, lookup-insert_ne,
}
use cn_banking_transaction_s.Effect.{Result, ok, err}
use cn_banking_transaction_s.Types.{Account}
use cn_banking_transaction_s.AccountService.{
  AccountsDb, numeric_limit, write_row, update_account, may_debit, debited, debit_statement,
  may_credit, credited, credit_statement, on_accounts,
}
use cn_banking_transaction_s.AccountService.Routes.{AmountRequest}
use cn_banking_transaction_s.AccountService.Router.{AccountRequest, debit_request, credit_request}
use cn_banking_transaction_s.AccountService.Bank.{
  Bank, balance_of_row, balances, update, Carries, BankStep, unchanged, withdrawn, deposited,
}

fun_ext : (f g : Bank) → ((i : ℕ) → f i ≡ g i) → f ≡ g
fun_ext f g h j i = h i j

update-set :
    (id : ℕ) (a b : Account) (db : AccountsDb)
    → lookup id db.accounts ≡ some a
    → balances (record db { accounts = set id b db.accounts }) ≡ update (balances db) id b.balance
update-set id a b db e = fun_ext _ _ (λ i. elim (Bool-cases (i == id)) [
  | inl self ↦
      let same : i ≡ id = ground arith in
      rw (self) (rw same (ap balance_of_row (lookup-set_self id b a db.accounts e)))
  | inr other ↦ rw other (ap balance_of_row (lookup-set_ne i id b db.accounts (ground arith)))
])

update-same : (s : Bank) (id n : ℕ) → s id ≡ some n → update s id n ≡ s
update-same s id n e = fun_ext _ _ (λ i. elim (Bool-cases (i == id)) [
  | inl self ↦ let same : i ≡ id = ground arith in rw self (rw same (sym e))
  | inr other ↦ rw other refl
])

pub update-insert :
    (id : ℕ) (a : Account) (db : AccountsDb)
    → lookup id db.accounts ≡ none
    → balances (record db { accounts = insert id a db.accounts })
      ≡ update (balances db) id a.balance
update-insert id a db e = fun_ext _ _ (λ i. elim (Bool-cases (i == id)) [
  | inl self ↦
      let same : i ≡ id = ground arith in
      rw self (rw same (ap balance_of_row (lookup-insert_self id a db.accounts e)))
  | inr other ↦ rw other (ap balance_of_row (lookup-insert_ne i id a db.accounts (ground arith)))
])

-- What an UPDATE does to the table: nothing, or it writes what it makes of the row.
abbrev Updated :
    (Account → Bool) → (Account → Result Account) → ℕ → ℕ → Table Account → Table Account → Type 0
Updated test change now id t t' =
    (a : Account) × (b : Account) × (lookup id t ≡ some a)
    × (test a ≡ true)
    × (change a ≡ ok b)
    × (t' ≡ set id (record b { updated_at = now }) t)

module _ (now id : ℕ) (test : Account → Bool) (change : Account → Result Account)
    (t : Table Account) where
  write_cases :
      (a : Account) (r : Result Account)
      → ((write_row now id t r).1 ≡ t)
        ⊎ ((b : Account) × (r ≡ ok b)
            × ((write_row now id t r).1 ≡ set id (record b { updated_at = now }) t))
  write_cases a (err x) = inl refl
  write_cases a (ok b) = elim (Bool-cases (leb numeric_limit b.balance)) [
    | inl over ↦ inl (rw over refl)
    | inr fits ↦ inr (b, refl, rw fits refl)
  ]

  update_cases :
      ((update_account now id test change t).1 ≡ t)
      ⊎ Updated test change now id t (update_account now id test change t).1
  update_cases = elim (Option-cases (lookup id t)) [
    | inl e ↦ inl (rw e refl)
    | inr (a, e) ↦ elim (Bool-cases (test a)) [
      | inr no_row ↦ inl (rw (e, no_row) refl)
      | inl row ↦ elim (write_cases a (change a)) [
        | inl same ↦ inl (rw (e, row) same)
        | inr (b, f, written) ↦ inr (a, b, e, row, f, rw (e, row) written)
      ]
    ]
  ]

module _ (secret : Option String) (now : ℕ) (db : AccountsDb) where
  pub debit-BankStep :
      (r : AmountRequest) (id amount : ℕ)
      → Carries secret r id amount
      → BankStep secret
          (debit_request now r)
          (balances db)
          (balances (on_accounts (debit_statement now amount id) db).1)
  unfolding debit_statement debited
  debit-BankStep r id amount asks =
      elim (update_cases now id (may_debit amount) (debited amount) db.accounts) [
        | inl same ↦ unchanged (rw same refl)
        | inr (a, b, e, row, f, t) ↦
            withdrawn id amount a.balance asks (ap balance_of_row e) (ground arith) (
              rw t (
                update-set id a (record b { updated_at = now }) db e
                ∙ ap (update (balances db) id) (ground arith)))
      ]

  pub credit-BankStep :
      (r : AmountRequest) (id amount : ℕ)
      → Carries secret r id amount
      → BankStep secret
          (credit_request now r)
          (balances db)
          (balances (on_accounts (credit_statement now amount id) db).1)
  unfolding credit_statement
  credit-BankStep r id amount asks =
      elim (update_cases now id may_credit (credited amount) db.accounts) [
        | inl same ↦ unchanged (rw same refl)
        | inr (a, b, e, row, f, t) ↦ deposited id amount a.balance asks (ap balance_of_row e) (
            rw t (
              update-set id a (record b { updated_at = now }) db e
              ∙ ap (update (balances db) id) (ground arith)))
      ]

  -- An UPDATE that keeps the balance.
  pub same-BankStep :
      (req : AccountRequest) (id : ℕ) (test : Account → Bool) (change : Account → Result Account)
      → ((a b : Account) → change a ≡ ok b → b.balance ≡ a.balance)
      → BankStep secret req
          (balances db)
          (balances (on_accounts (update_account now id test change) db).1)
  same-BankStep req id test change keep = elim (update_cases now id test change db.accounts) [
    | inl same ↦ unchanged (rw same refl)
    | inr (a, b, e, row, f, t) ↦ unchanged (
        rw t (
          update-set id a (record b { updated_at = now }) db e
          ∙ (ap (update (balances db) id) (keep a b f)
              ∙ update-same (balances db) id a.balance (ap balance_of_row e))))
  ]
