-- ===== src/AccountService.antt =====
-- services/account-service/src/routes.ts: the database of the account service and the SQL
-- statements that the routes send to it.
pub mod Routes
pub mod Reads
pub mod Owners
pub mod Create
pub mod Opened
pub mod Moves
pub mod Debits
pub mod Credits
pub mod Router
pub mod Reading
pub mod Closed
pub mod Frozen
pub mod Bank
use cn_banking_transaction_s.Base.{
  ℕ, ◌+◌, ◌-◌, Bool, true, false, not, ◌&&◌, ◌||◌, String, Option, none, some, List, [], ◌∷◌, ltb,
  leb, str_eq, if◌then◌else◌,
}
use cn_banking_transaction_s.Base.Table.{Table, lookup, set, insert}
use cn_banking_transaction_s.Effect.{
  Result, ok, err, pg, unique_violation, check_violation, numeric_overflow,
}
use cn_banking_transaction_s.Types.{
  Account, AccountKycStatus, pending, verified, rejected, AccountStatus, active, inactive,
  suspended, Fresh, SupportedEvent, Topic,
}
use cn_banking_transaction_s.Outbox.{Outbox, enqueue_outbox_event}

pub record AccountsDb : Type 0 where
  pub accounts : Table Account
  pub outbox : Outbox

-- The first amount, in cents, that NUMERIC(18, 2) cannot hold.
abbrev pub numeric_limit : ℕ
numeric_limit = 1_000_000_000_000_000_000

abbrev pub is_suspended : AccountStatus → Bool
is_suspended suspended = true
is_suspended _ = false

abbrev pub is_verified : AccountKycStatus → Bool
is_verified verified = true
is_verified _ = false

-- UNIQUE (email)
unfoldable pub email_taken : String → Table Account → Bool
email_taken email [] = false
email_taken email ((_, a) ∷ t) = str_eq a.email email || email_taken email t

-- PRIMARY KEY (id)
abbrev pub key_taken : Option Account → Bool
key_taken none = false
key_taken (some a) = true

abbrev pub new_account : Fresh → String → String → ℕ → Option ℕ → Account
new_account fresh name email balance owner = record {
  id = fresh.uuid;
  owner_id = owner;
  name = name;
  email = email;
  balance = balance;
  kyc_status = pending;
  status = active;
  created_at = fresh.now;
  updated_at = fresh.now;
}

-- INSERT INTO accounts ... RETURNING ..., with the constraints of schema.sql on the id, the e-mail and
-- the balance; the lengths of VARCHAR(255) are not checked.
unfoldable pub insert_account :
    Fresh → String → String → ℕ → Option ℕ → Table Account → Result Account × Table Account
insert_account fresh name email balance owner t =
    if leb numeric_limit balance
    then (err (pg numeric_overflow), t)
    else if key_taken (lookup fresh.uuid t) || email_taken email t
    then (err (pg unique_violation), t)
    else (
      ok (new_account fresh name email balance owner),
      insert fresh.uuid (new_account fresh name email balance owner) t,
    )

-- UPDATE accounts SET ... WHERE id = $2 AND ... RETURNING ...: the row written, where one is. The
-- trigger `update_accounts_updated_at` sets `updated_at`.
abbrev pub write_row :
    ℕ → ℕ → Table Account → Result Account → Result (Option Account) × Table Account
write_row now id t (ok a) =
    let b : Account = record a { updated_at = now } in
    if leb numeric_limit b.balance
    then (err (pg numeric_overflow), t)
    else (ok (some b), set id b t)
write_row now id t (err e) = (err e, t)

abbrev pub update_found :
    ℕ
    → ℕ
    → (Account → Bool)
    → (Account → Result Account)
    → Table Account
    → Option Account
    → Result (Option Account) × Table Account
update_found now id test change t none = (ok none, t)
update_found now id test change t (some a) =
    if test a then write_row now id t (change a) else (ok none, t)

abbrev pub update_account :
    ℕ
    → ℕ
    → (Account → Bool)
    → (Account → Result Account)
    → Table Account
    → Result (Option Account) × Table Account
update_account now id test change t = update_found now id test change t (lookup id t)

-- status <> $3 AND kyc_status = $4 AND balance >= $1
unfoldable pub may_debit : ℕ → Account → Bool
may_debit amount a = not (is_suspended a.status) && is_verified a.kyc_status && leb amount a.balance

-- balance = balance - $1, under CHECK (balance >= 0)
unfoldable pub debited : ℕ → Account → Result Account
debited amount a =
    if leb amount a.balance
    then ok (record a { balance = a.balance - amount })
    else err (pg check_violation)

unfoldable pub debit_statement : ℕ → ℕ → ℕ → Table Account → Result (Option Account) × Table Account
unfolding may_debit debited
debit_statement now amount id = update_account now id (may_debit amount) (debited amount)

-- status <> $3
abbrev pub may_credit : Account → Bool
may_credit a = not (is_suspended a.status)

-- balance = balance + $1
abbrev pub credited : ℕ → Account → Result Account
credited amount a = ok (record a { balance = a.balance + amount })

unfoldable pub credit_statement :
    ℕ → ℕ → ℕ → Table Account → Result (Option Account) × Table Account
credit_statement now amount id = update_account now id may_credit (credited amount)

-- WHERE id = $2, and nothing else
abbrev pub any_row : Account → Bool
any_row a = true

-- SET status = $1, with 'suspended'
abbrev pub frozen : Account → Result Account
frozen a = ok (record a { status = suspended })

unfoldable pub freeze_statement : ℕ → ℕ → Table Account → Result (Option Account) × Table Account
freeze_statement now id = update_account now id any_row frozen

-- SET kyc_status = $1
abbrev pub reviewed : AccountKycStatus → Account → Result Account
reviewed kyc_status a = ok (record a { kyc_status = kyc_status })

unfoldable pub kyc_statement :
    ℕ → AccountKycStatus → ℕ → Table Account → Result (Option Account) × Table Account
kyc_statement now kyc_status id = update_account now id any_row (reviewed kyc_status)

-- A statement on the table, in the database.
abbrev pub on_accounts {ℓ} :
    {A : Type ℓ} → (Table Account → Result A × Table Account) → AccountsDb → Result A × AccountsDb
on_accounts op db = let (r, t) = op db.accounts in (r, record db { accounts = t })

-- SELECT ... WHERE id = $1
abbrev pub select_account : ℕ → AccountsDb → Result (Option Account) × AccountsDb
select_account id db = (ok (lookup id db.accounts), db)
