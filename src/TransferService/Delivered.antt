-- ===== src/TransferService/Delivered.antt =====
-- services/transfer-service/src/saga.ts: the two calls of the account service that the saga makes,
-- where they are delivered and the account service has no reason to refuse them.
use cn_banking_transaction_s.Base.{
  ℕ, ◌+◌, ◌-◌, ◌≡◌, refl, sym, ap, subst, true, false, some, List, [], arith, leb,
}
use cn_banking_transaction_s.Base.Table.{lookup, set}
use cn_banking_transaction_s.Effect.{Script, Result, ok, ◌>>=◌, Exec, Response, success}
use cn_banking_transaction_s.Effect.Lives.{Returns}
use cn_banking_transaction_s.Types.{Account}
use cn_banking_transaction_s.Money.{positive_money}
use cn_banking_transaction_s.AccountService.{
  AccountsDb, numeric_limit, is_suspended, may_debit, debited, debit_statement, credit_statement,
}
use cn_banking_transaction_s.AccountService.Moves.{after_update}
use cn_banking_transaction_s.AccountService.Routes.{
  require_service_token, debit_reply, debit_valid, debit_account, credit_reply, credit_valid,
  credit_account,
}
use cn_banking_transaction_s.TransferService.{
  World, Config, service_header, accept, amount_request, patch, patch_debit, patch_credit,
}
use cn_banking_transaction_s.TransferService.Patch.{with_accounts}

abbrev pub debited_row : ℕ → ℕ → Account → Account
debited_row now n a = record a { balance = a.balance - n; updated_at = now }

abbrev pub credited_row : ℕ → ℕ → Account → Account
credited_row now n b = record b { balance = b.balance + n; updated_at = now }

abbrev pub with_row : ℕ → Account → AccountsDb → AccountsDb
with_row id a db = record db { accounts = set id a db.accounts }

-- A call of the account service, behind its answer.
abbrev patch_end :
    World → Result (Response Account) × Script × AccountsDb → Result Account × Script × World
patch_end w (r, f, db) = ((λ f w'. (r, f, w')) >>= accept) f (with_accounts w db)

patch_returns :
    (m : Exec AccountsDb (Response Account)) (w : World) (a : Account) (db : AccountsDb)
    → m [] w.accounts_db ≡ (ok (success 200 a), [], db)
    → Returns (λ _ w'. w' ≡ with_accounts w db) (patch m [] w)
patch_returns m w a db e =
    subst (λ r. Returns (λ _ w'. w' ≡ with_accounts w db) (patch_end w r)) (sym e) refl

module _ (now id n : ℕ) (a : Account) (db : AccountsDb)
    (held : lookup id db.accounts ≡ some a) where
  debit_writes :
      may_debit n a ≡ true
      → leb numeric_limit a.balance ≡ false
      → debit_statement now n id db.accounts
        ≡ (ok (some (debited_row now n a)), set id (debited_row now n a) db.accounts)
  unfolding debit_statement debited may_debit
  debit_writes may fits =
      let covered : leb n a.balance ≡ true = ground arith in
      let left : leb numeric_limit (a.balance - n) ≡ false = ground arith in
      rw (held, may, covered, left) refl

  debit_valid_succeeds :
      may_debit n a ≡ true
      → leb numeric_limit a.balance ≡ false
      → debit_valid now id n [] db
        ≡ (ok (success 200 (debited_row now n a)), [], with_row id (debited_row now n a) db)
  unfolding debit_valid debit_reply
  debit_valid_succeeds may fits = ap (after_update (debit_reply id) [] db) (debit_writes may fits)

  credit_writes :
      is_suspended a.status ≡ false
      → leb numeric_limit (a.balance + n) ≡ false
      → credit_statement now n id db.accounts
        ≡ (ok (some (credited_row now n a)), set id (credited_row now n a) db.accounts)
  unfolding credit_statement
  credit_writes live fits = rw (held, live, fits) refl

  credit_valid_succeeds :
      is_suspended a.status ≡ false
      → leb numeric_limit (a.balance + n) ≡ false
      → credit_valid now id n [] db
        ≡ (ok (success 200 (credited_row now n a)), [], with_row id (credited_row now n a) db)
  unfolding credit_valid credit_reply
  credit_valid_succeeds live fits =
      ap (after_update (credit_reply id) [] db) (credit_writes live fits)

module _ (config : Config) (now id n : ℕ) (amount : List ℕ) (a : Account) (w : World)
    (trusted : require_service_token config.account_secret (service_header config.transfer_secret)
      ≡ true)
    (money : positive_money (some amount) ≡ some n)
    (held : lookup id w.accounts_db.accounts ≡ some a) where
  pub patch_debit_returns :
      may_debit n a ≡ true
      → leb numeric_limit a.balance ≡ false
      → Returns
          (λ _ w'. w' ≡ with_accounts w (with_row id (debited_row now n a) w.accounts_db))
          (patch_debit config now id amount [] w)
  unfolding patch_debit debit_account
  patch_debit_returns may fits =
      patch_returns (debit_account config.account_secret now (amount_request config id amount)) w
        (debited_row now n a) (with_row id (debited_row now n a) w.accounts_db)
        (rw (trusted, money) (debit_valid_succeeds now id n a w.accounts_db held may fits))

  pub patch_credit_returns :
      is_suspended a.status ≡ false
      → leb numeric_limit (a.balance + n) ≡ false
      → Returns
          (λ _ w'. w' ≡ with_accounts w (with_row id (credited_row now n a) w.accounts_db))
          (patch_credit config now id amount [] w)
  unfolding patch_credit credit_account
  patch_credit_returns live fits =
      patch_returns (credit_account config.account_secret now (amount_request config id amount)) w
        (credited_row now n a) (with_row id (credited_row now n a) w.accounts_db)
        (rw (trusted, money) (credit_valid_succeeds now id n a w.accounts_db held live fits))
