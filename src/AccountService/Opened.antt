-- ===== src/AccountService/Opened.antt =====
-- What POST /accounts does to the database, whatever calls of the database fail.
use cn_banking_transaction_s.Base.{
  ℕ, ◌≡◌, refl, true, false, ◌||◌, Option, none, some, leb, Bool-cases, inl, inr,
}
use cn_banking_transaction_s.Base.Table.{lookup, insert}
use cn_banking_transaction_s.Effect.{
  Script, keeps_replies, Thrown, axios, pg, plain, unique_violation, check_violation,
  numeric_overflow, connection_failure, Response, success, failure,
}
use cn_banking_transaction_s.Effect.Runs.{
  Ends, Gives, Runs, Runs-pure, Runs-call, Runs-bind, Runs-transaction, Runs-weaken,
}
use cn_banking_transaction_s.Types.{Account, pending, account_created}
use cn_banking_transaction_s.Outbox.{enqueue_outbox_event}
use cn_banking_transaction_s.AccountService.{
  AccountsDb, insert_account, on_accounts, key_taken, email_taken, numeric_limit,
}
use cn_banking_transaction_s.AccountService.Create.{
  CreateFresh, CreateAccountBody, CreateAccountInput, create_account_schema, or_zero,
  account_created_of, create_error, insert_and_enqueue, create_valid, create_parsed, create_account,
}

-- The row of the account is behind the old ones, under a key that was free.
abbrev Inserted : CreateFresh → AccountsDb → Account → AccountsDb → Type 0
Inserted fresh base a db =
    (db ≡ record base { accounts = insert fresh.row.uuid a base.accounts })
    × (key_taken (lookup fresh.row.uuid base.accounts) || email_taken a.email base.accounts ≡ false)
    × (a.kyc_status ≡ pending)

-- What an answer of POST /accounts says: with 201, the row and the event are both there, for a key
-- and an e-mail address that were free; with an error, nothing has changed.
abbrev pub Opened : CreateFresh → AccountsDb → Response Account → AccountsDb → Type 0
Opened fresh base (success c a) db =
    (c ≡ 201)
    × (db.accounts ≡ insert fresh.row.uuid a base.accounts)
    × (db.outbox
        ≡ enqueue_outbox_event fresh.outbox_entry account_created a.id
            (account_created_of fresh.event a) base.outbox)
    × (key_taken (lookup fresh.row.uuid base.accounts) || email_taken a.email base.accounts ≡ false)
    × (a.kyc_status ≡ pending)
Opened fresh base (failure c x) db = db ≡ base

module _ (fresh : CreateFresh) (input : CreateAccountInput) (owner : Option ℕ)
    (base : AccountsDb) where
  abbrev Same : AccountsDb → Type 0
  Same db = db ≡ base

  insert-Gives : Gives (Inserted fresh base) Same (
      on_accounts
        (insert_account fresh.row input.name input.email (or_zero input.initial_balance) owner)
        base)
  unfolding insert_account
  insert-Gives = elim (Bool-cases (leb numeric_limit (or_zero input.initial_balance))) [
    | inl over ↦ rw over refl
    | inr fits ↦
        elim (Bool-cases (
          key_taken (lookup fresh.row.uuid base.accounts)
          || email_taken input.email base.accounts)) [
            | inl taken ↦ rw (fits, taken) refl
            | inr free ↦ rw (fits, free) (refl, free, refl)
          ]
  ]

  Runs-create_error : (e : Thrown) → Runs Same (create_error e) (Opened fresh base) Same
  unfolding create_error
  Runs-create_error (pg unique_violation) = Runs-pure _ (λ db h. h)
  Runs-create_error (pg check_violation) = Runs-pure _ (λ db h. h)
  Runs-create_error (pg numeric_overflow) = Runs-pure _ (λ db h. h)
  Runs-create_error (pg connection_failure) = Runs-pure _ (λ db h. h)
  Runs-create_error (axios s) = Runs-pure _ (λ db h. h)
  Runs-create_error (plain m) = Runs-pure _ (λ db h. h)

  insert-Gives_at :
      (db : AccountsDb)
      → Same db
      → Gives (Inserted fresh base) Same (
          on_accounts
            (insert_account fresh.row input.name input.email (or_zero input.initial_balance) owner)
            db)
  insert-Gives_at db h = rw h insert-Gives

  -- Inside the transaction a throw may leave anything behind.
  Runs-insert_and_enqueue :
      Runs Same (insert_and_enqueue fresh input owner) (Opened fresh base) (λ db. Unit {0})
  unfolding insert_and_enqueue
  Runs-insert_and_enqueue =
      Runs-bind _ _
        (Runs-weaken _ (Runs-call _ _ insert-Gives_at (λ db h. h)) (λ db h. h) (λ a db h. h)
          (λ db h. tt))
        (λ a.
          Runs-bind _ _
            (Runs-call {Q = λ u. Opened fresh base (success 201 a)} _ _
              (λ db h. rw (h.0) (refl, refl, refl, h.1, h.2)) (λ db h. tt))
            (λ u. Runs-pure _ (λ db h. h)))

  Runs-create_valid : Runs Same (create_valid fresh input owner) (Opened fresh base) Same
  unfolding create_valid
  Runs-create_valid = Runs-bind _ _ (Runs-call _ _ (λ db h. h) (λ db h. h)) (λ u.
      Runs-transaction _ create_error Runs-insert_and_enqueue Runs-create_error (λ db h. tt)
        (λ db h. h))

-- Where no reply is lost, POST /accounts answers with 201 only if the new account is there, pending
-- its KYC review, under a key and an e-mail address that were free, with the event for it in the
-- outbox. If it answers with an error, or does not answer, nothing has changed: there is never the
-- account without its event, or the event without its account. No later reply is lost either.
pub create_account-Opened :
    (fresh : CreateFresh) (body : CreateAccountBody) (owner : Option ℕ) (f : Script)
    (db : AccountsDb)
    → keeps_replies f ≡ true
    → Ends (Opened fresh db) (λ db'. db' ≡ db) (create_account fresh body owner f db)
unfolding create_account create_parsed
create_account-Opened fresh body owner f db k = parsed (create_account_schema body)
  where
    parsed :
        (o : Option CreateAccountInput)
        → Ends (Opened fresh db) (λ db'. db' ≡ db) (create_parsed fresh owner o f db)
    parsed none = (refl, k)
    parsed (some input) = (Runs-create_valid fresh input owner db).at f db k refl
