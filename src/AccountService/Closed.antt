-- ===== src/AccountService/Closed.antt =====
-- services/account-service/src/routes.ts: properties of the database that every statement keeps, as
-- an interface, and what the statements write.
pub mod Router
use cn_banking_transaction_s.Base.{
  ℕ, ◌+◌, ◌-◌, ◌≤◌, ◌<◌, ◌≡◌, refl, Bool, true, false, ◌||◌, String, Option, none, some, arith,
  Bool-cases, inl, inr, Option-cases, leb,
}
use cn_banking_transaction_s.Base.Table.{Table, lookup, set, insert}
use cn_banking_transaction_s.Effect.{Result, ok, err}
use cn_banking_transaction_s.Types.{Account, AccountKycStatus, suspended, Fresh}
use cn_banking_transaction_s.Outbox.{Outbox}
use cn_banking_transaction_s.AccountService.{
  AccountsDb, is_suspended, is_verified, numeric_limit, write_row, update_account, may_debit,
  debited, debit_statement, may_credit, credited, credit_statement, any_row, frozen,
  freeze_statement, reviewed, kyc_statement, new_account, insert_account, key_taken, email_taken,
}

-- What an UPDATE makes of the row `a`.
pub data Written (a b : Account) : Type 0 where
  debit_written :
      (now amount : ℕ)
      → is_suspended a.status ≡ false
      → is_verified a.kyc_status ≡ true
      → amount ≤ a.balance
      → b ≡ record a { balance = a.balance - amount; updated_at = now }
      → Written a b
  credit_written :
      (now amount : ℕ)
      → is_suspended a.status ≡ false
      → b ≡ record a { balance = a.balance + amount; updated_at = now }
      → Written a b
  freeze_written : (now : ℕ) → b ≡ record a { status = suspended; updated_at = now } → Written a b
  kyc_written :
      (now : ℕ) (kyc : AccountKycStatus)
      → b ≡ record a { kyc_status = kyc; updated_at = now }
      → Written a b

-- `P` is kept by each UPDATE, by the INSERT and by a change of the outbox.
pub record IsClosed (P : AccountsDb → Type 0) : Type 0 where
  pub updates :
      (k : ℕ) (a b : Account) (db : AccountsDb)
      → lookup k db.accounts ≡ some a
      → Written a b
      → b.balance < numeric_limit
      → P db
      → P (record db { accounts = set k b db.accounts })
  pub inserts :
      (fresh : Fresh) (name email : String) (balance : ℕ) (owner : Option ℕ) (db : AccountsDb)
      → lookup fresh.uuid db.accounts ≡ none
      → email_taken email db.accounts ≡ false
      → balance < numeric_limit
      → P db
      → P (record db {
        accounts = insert fresh.uuid (new_account fresh name email balance owner) db.accounts;
      })
  pub enqueues : (outbox : Outbox) (db : AccountsDb) → P db → P (record db { outbox = outbox })

key_free : (o : Option Account) → key_taken o ≡ false → o ≡ none
key_free none h = refl
key_free (some a) h = cc

-- `P` of the database with this table.
abbrev pub OnTable : (AccountsDb → Type 0) → Outbox → Table Account → Type 0
OnTable P outbox t = P (record { accounts = t; outbox = outbox })

module _ {P : AccountsDb → Type 0} (c : IsClosed P) where
  module _ (outbox : Outbox) where
    write-Closed :
        (now k : ℕ) (a : Account) (t : Table Account) (r : Result Account)
        → lookup k t ≡ some a
        → ((b : Account) → r ≡ ok b → Written a (record b { updated_at = now }))
        → OnTable P outbox t
        → OnTable P outbox (write_row now k t r).1
    write-Closed now k a t (err x) e w h = h
    write-Closed now k a t (ok b) e w h = elim (Bool-cases (leb numeric_limit b.balance)) [
      | inl over ↦ rw over h
      | inr fits ↦ rw fits (
          c.updates k a (record b { updated_at = now }) (record { accounts = t; outbox = outbox }) e
            (w b refl) (ground arith) h)
    ]

    update-Closed :
        (now k : ℕ) (test : Account → Bool) (change : Account → Result Account)
        → ((a b : Account)
            → test a ≡ true
            → change a ≡ ok b
            → Written a (record b { updated_at = now }))
        → (t : Table Account) → OnTable P outbox t
        → OnTable P outbox (update_account now k test change t).1
    update-Closed now k test change w t h = elim (Option-cases (lookup k t)) [
      | inl e ↦ rw e h
      | inr (a, e) ↦ elim (Bool-cases (test a)) [
        | inr no_row ↦ rw (e, no_row) h
        | inl row ↦ rw (e, row) (write-Closed now k a t (change a) e (λ b f. w a b row f) h)
      ]
    ]

    pub debit-Closed :
        (now amount k : ℕ) (t : Table Account)
        → OnTable P outbox t
        → OnTable P outbox (debit_statement now amount k t).1
    unfolding debit_statement may_debit debited
    debit-Closed now amount k =
        update-Closed now k (may_debit amount) (debited amount) (λ a b row e.
          debit_written now amount (ground arith) (ground arith) (ground arith) (ground arith))

    pub credit-Closed :
        (now amount k : ℕ) (t : Table Account)
        → OnTable P outbox t
        → OnTable P outbox (credit_statement now amount k t).1
    unfolding credit_statement
    credit-Closed now amount k =
        update-Closed now k may_credit (credited amount)
          (λ a b row e. credit_written now amount (ground arith) (ground arith))

    pub freeze-Closed :
        (now k : ℕ) (t : Table Account)
        → OnTable P outbox t
        → OnTable P outbox (freeze_statement now k t).1
    unfolding freeze_statement
    freeze-Closed now k =
        update-Closed now k any_row frozen (λ a b row e. freeze_written now (ground arith))

    pub kyc-Closed :
        (now : ℕ) (kyc : AccountKycStatus) (k : ℕ) (t : Table Account)
        → OnTable P outbox t
        → OnTable P outbox (kyc_statement now kyc k t).1
    unfolding kyc_statement
    kyc-Closed now kyc k =
        update-Closed now k any_row (reviewed kyc) (λ a b row e. kyc_written now kyc (ground arith))

    pub insert-Closed :
        (fresh : Fresh) (name email : String) (b : ℕ) (owner : Option ℕ) (t : Table Account)
        → OnTable P outbox t
        → OnTable P outbox (insert_account fresh name email b owner t).1
    unfolding insert_account
    insert-Closed fresh name email b owner t h = elim (Bool-cases (leb numeric_limit b)) [
      | inl over ↦ rw over h
      | inr fits ↦ elim (Bool-cases (key_taken (lookup fresh.uuid t) || email_taken email t)) [
        | inl taken ↦ rw (fits, taken) h
        | inr new ↦
            rw (fits, new)
              (c.inserts fresh name email b owner (record { accounts = t; outbox = outbox })
                (key_free (lookup fresh.uuid t) (ground arith)) (ground arith) (ground arith) h)
      ]
    ]
