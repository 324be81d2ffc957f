-- ===== src/AccountService/Reading.antt =====
-- services/account-service/src/routes.ts: the parts of the routes that only read, which keep every
-- predicate.
use cn_banking_transaction_s.Base.{ℕ, Option, none, some}
use cn_banking_transaction_s.Effect.{Thrown, axios, pg, plain, unique_violation, query}
use cn_banking_transaction_s.Effect.Keeps.{Keeps, Keeps-pure, Keeps-call, Keeps-bind, Keeps-catch}
use cn_banking_transaction_s.Types.{Account}
use cn_banking_transaction_s.AccountService.{AccountsDb, select_account}
use cn_banking_transaction_s.AccountService.Routes.{
  database_failure, found_or_404, debit_reply, credit_reply,
}
use cn_banking_transaction_s.AccountService.Reads.{
  Caller, get_account, get_balance, read_reply, balance_reply,
}
use cn_banking_transaction_s.AccountService.Create.{create_error}

module _ {P : AccountsDb → Type 0} where
  pub failure-Keeps : {A : Type 0} (e : Thrown) → Keeps P (database_failure {A = A} e)
  unfolding database_failure
  failure-Keeps e = Keeps-pure _

  pub found-Keeps : (r : Option Account) → Keeps P (found_or_404 r)
  unfolding found_or_404
  found-Keeps none = Keeps-pure _
  found-Keeps (some a) = Keeps-pure _

  pub select-Keeps : (k : ℕ) → Keeps P (query (select_account k))
  select-Keeps k = Keeps-call _ (select_account k) (λ db h. h)

  pub debit_reply-Keeps : (k : ℕ) (r : Option Account) → Keeps P (debit_reply k r)
  unfolding debit_reply
  debit_reply-Keeps k (some a) = Keeps-pure _
  debit_reply-Keeps k none = Keeps-bind _ _ (select-Keeps k) (λ x. Keeps-pure _)

  pub credit_reply-Keeps : (k : ℕ) (r : Option Account) → Keeps P (credit_reply k r)
  unfolding credit_reply
  credit_reply-Keeps k (some a) = Keeps-pure _
  credit_reply-Keeps k none = Keeps-bind _ _ (select-Keeps k) (λ x. Keeps-pure _)

  pub read_reply-Keeps : (caller : Caller) (r : Option Account) → Keeps P (read_reply caller r)
  unfolding read_reply
  read_reply-Keeps caller none = Keeps-pure _
  read_reply-Keeps caller (some a) = Keeps-pure _

  pub get_account-Keeps : (caller : Caller) (k : Option ℕ) → Keeps P (get_account caller k)
  unfolding get_account
  get_account-Keeps caller none = Keeps-pure _
  get_account-Keeps caller (some k) =
      Keeps-catch _ database_failure
        (Keeps-bind _ (read_reply caller) (select-Keeps k) (read_reply-Keeps caller)) failure-Keeps

  pub balance_reply-Keeps :
      (caller : Caller) (r : Option Account) → Keeps P (balance_reply caller r)
  unfolding balance_reply
  balance_reply-Keeps caller none = Keeps-pure _
  balance_reply-Keeps caller (some a) = Keeps-pure _

  pub get_balance-Keeps : (caller : Caller) (k : Option ℕ) → Keeps P (get_balance caller k)
  unfolding get_balance
  get_balance-Keeps caller none = Keeps-pure _
  get_balance-Keeps caller (some k) =
      Keeps-catch _ database_failure
        (Keeps-bind _ (balance_reply caller) (select-Keeps k) (balance_reply-Keeps caller))
        failure-Keeps

  pub create_error-Keeps : (e : Thrown) → Keeps P (create_error e)
  unfolding create_error
  create_error-Keeps (pg unique_violation) = Keeps-pure _
  create_error-Keeps (pg _) = Keeps-pure _
  create_error-Keeps (axios _) = Keeps-pure _
  create_error-Keeps (plain _) = Keeps-pure _
