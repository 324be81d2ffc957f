-- ===== src/AccountService/Bank/Opening.antt =====
-- services/account-service/src/routes.ts: what the transaction of POST /accounts does to the table of
-- accounts, whatever calls of the database fail.
use cn_banking_transaction_s.Base.{
  ℕ, ◌≡◌, refl, sym, ap, ◌⊎◌, Option, none, some, Bool-cases, inl, inr, Option-cases, leb,
}
use cn_banking_transaction_s.Base.Table.{lookup, insert, lookup-insert_self}
use cn_banking_transaction_s.Effect.Keeps.{
  Keeps, Keeps-pure, Keeps-call, Keeps-bind, Keeps-transaction,
}
use cn_banking_transaction_s.Types.{Account}
use cn_banking_transaction_s.AccountService.{
  AccountsDb, numeric_limit, insert_account, email_taken, on_accounts,
}
use cn_banking_transaction_s.AccountService.Reading.{create_error-Keeps}
use cn_banking_transaction_s.AccountService.Create.{
  CreateFresh, CreateAccountInput, or_zero, create_valid, create_error, insert_and_enqueue,
}

-- What an opening does to the table: nothing, or it adds the row under a key that was free.
abbrev pub Added : CreateFresh → CreateAccountInput → AccountsDb → AccountsDb → Type 0
Added fresh input base db =
    (db.accounts ≡ base.accounts)
    ⊎ ((a : Account) × (db.accounts ≡ insert fresh.row.uuid a base.accounts)
        × (lookup fresh.row.uuid base.accounts ≡ none)
        × (a.balance ≡ or_zero input.initial_balance))

module _ (fresh : CreateFresh) (input : CreateAccountInput) (owner : Option ℕ)
    (base : AccountsDb) where
  insert_row-Added :
      (db : AccountsDb)
      → Added fresh input base db
      → Added fresh input base
          (on_accounts
            (insert_account fresh.row input.name input.email (or_zero input.initial_balance) owner)
            db).1
  unfolding insert_account
  insert_row-Added db h = elim (Bool-cases (leb numeric_limit (or_zero input.initial_balance))) [
    | inl over ↦ rw over h
    | inr fits ↦ elim (Option-cases (lookup fresh.row.uuid db.accounts)) [
      | inr (b, taken) ↦ rw (fits, taken) h
      | inl free ↦ elim (Bool-cases (email_taken input.email db.accounts)) [
        | inl used ↦ rw (fits, free, used) h
        | inr unused ↦
            rw (fits, free, unused)
              (elim h [
                | inl same ↦ inr (_, ap (insert fresh.row.uuid _) same, rw (sym same) free, refl)
                | inr (a, added, was_free, amount) ↦
                    let held : lookup fresh.row.uuid db.accounts ≡ some a =
                      rw added (lookup-insert_self fresh.row.uuid a base.accounts was_free) in
                    cc
              ])
      ]
    ]
  ]

  pub create_valid-Added : Keeps (Added fresh input base) (create_valid fresh input owner)
  unfolding create_valid insert_and_enqueue
  create_valid-Added = Keeps-bind _ _ (Keeps-call _ _ (λ db h. h)) (λ u.
      Keeps-transaction _ create_error
        (Keeps-bind _ _ (Keeps-call _ _ insert_row-Added)
          (λ a. Keeps-bind _ _ (Keeps-call _ _ (λ db h. h)) (λ v. Keeps-pure _)))
        create_error-Keeps)
