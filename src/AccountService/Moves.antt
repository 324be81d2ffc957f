-- ===== src/AccountService/Moves.antt =====
-- What the debit and the credit route share: the frame of an update, and the rest of the route.
use cn_banking_transaction_s.Base.{ℕ, ◌≡◌, ◌≢◌, Option}
use cn_banking_transaction_s.Base.Table.{Table, lookup, sum_by}
use cn_banking_transaction_s.Effect.{Script, Result, Response, Exec, catch, ◌>>=◌}
use cn_banking_transaction_s.Types.{Account}
use cn_banking_transaction_s.Outbox.{Outbox}
use cn_banking_transaction_s.AccountService.{AccountsDb}
use cn_banking_transaction_s.AccountService.Routes.{database_failure}

-- The money in all accounts together.
abbrev pub total : AccountsDb → ℕ
total db = sum_by (λ a. a.balance) db.accounts

-- The rows other than `id`, and the outbox, are as before.
pub record Untouched (id : ℕ) (db db' : AccountsDb) : Type 0 where
  pub others : (i : ℕ) → i ≢ id → lookup i db'.accounts ≡ lookup i db.accounts
  pub same_outbox : db'.outbox ≡ db.outbox

abbrev pub with_table : Outbox → Table Account → AccountsDb
with_table outbox t = record { accounts = t; outbox = outbox }

-- The rest of a route, behind its UPDATE.
abbrev pub after_update :
    (Option Account → Exec AccountsDb (Response Account))
    → Script
    → AccountsDb
    → Result (Option Account) × Table Account
    → Result (Response Account) × Script × AccountsDb
after_update reply f db (r, t) =
    catch ((λ f s. (r, f, record s { accounts = t })) >>= reply) database_failure f db
