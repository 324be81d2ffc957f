-- ===== src/AccountService/Credits.antt =====
-- What the credit route does to the accounts, whatever calls of the database fail.
use cn_banking_transaction_s.Base.{
  ℕ, ◌+◌, leb, Bool-cases, ◌≡◌, refl, true, false, String, Option, none, some, arith, inl, inr,
  Option-cases, [], ◌∷◌,
}
use cn_banking_transaction_s.Base.Table.{
  Table, lookup, set, lookup-set_self, lookup-set_ne, sum_by-set,
}
use cn_banking_transaction_s.Effect.{
  delivered, lost, reply_lost, Script, keeps_replies, Result, ok, err, Response, success, failure,
  catch,
}
use cn_banking_transaction_s.Types.{Account}
use cn_banking_transaction_s.Money.{positive_money}
use cn_banking_transaction_s.Outbox.{Outbox}
use cn_banking_transaction_s.AccountService.{
  update_found, may_credit, credited, may_credit, credited, AccountsDb, is_suspended,
  credit_statement, numeric_limit,
}
use cn_banking_transaction_s.AccountService.Moves.{total, Untouched, with_table, after_update}
use cn_banking_transaction_s.AccountService.Routes.{
  require_service_token, database_failure, refuse_credit, AmountRequest, credit_valid,
  credit_account, credit_reply,
}

-- `amount` was added to the account `id`, which is not suspended.
pub record Credit (id amount : ℕ) (db db' : AccountsDb) (a : Account) : Type 0 where
  pub old : Account
  pub found : lookup id db.accounts ≡ some old
  pub not_suspended : is_suspended old.status ≡ false
  pub added : a.balance ≡ old.balance + amount
  pub stored : lookup id db'.accounts ≡ some a
  pub untouched : Untouched id db db'
  pub total_rises : total db' ≡ total db + amount

abbrev StatementCredits : ℕ → ℕ → Table Account → Result (Option Account) × Table Account → Type 0
StatementCredits id amount t (ok none, t') = t' ≡ t
StatementCredits id amount t (err _, t') = t' ≡ t
StatementCredits id amount t (ok (some a), t') =
    (outbox : Outbox)
    → Credit id amount (record { accounts = t; outbox = outbox })
        (record { accounts = t'; outbox = outbox }) a

abbrev after_credit : ℕ → ℕ → Account → Account
after_credit now amount old = record old { balance = old.balance + amount; updated_at = now }

module _ (now amount id : ℕ) (t : Table Account) (old : Account) (e : lookup id t ≡ some old) where
  Credit-row :
      (outbox : Outbox)
      → is_suspended old.status ≡ false
      → Credit id amount
          (with_table outbox t)
          (with_table outbox (set id (after_credit now amount old) t))
          (after_credit now amount old)
  Credit-row outbox m = record {
    old = old;
    found = e;
    not_suspended = m;
    added = refl;
    stored = lookup-set_self id (after_credit now amount old) old t e;
    untouched = record { others = λ i h. lookup-set_ne i id _ t h; same_outbox = refl };
    total_rises =
        ground (arith, sum_by-set (λ a. a.balance) id (after_credit now amount old) old t e);
  }

  credit-found :
      StatementCredits id amount t (update_found now id may_credit (credited amount) t (some old))
  credit-found = elim (Bool-cases (is_suspended old.status)) [
    | inl frozen ↦ rw frozen refl
    | inr row ↦ elim (Bool-cases (leb numeric_limit (old.balance + amount))) [
      | inl over ↦ rw (row, over) refl
      | inr fits ↦ rw (row, fits) (λ outbox. Credit-row outbox row)
    ]
  ]

credit_statement-Credits :
    (now amount id : ℕ) (t : Table Account)
    → StatementCredits id amount t (credit_statement now amount id t)
unfolding credit_statement
credit_statement-Credits now amount id t = elim (Option-cases (lookup id t)) [
  | inl e ↦ rw e refl
  | inr (old, e) ↦ rw e (credit-found now amount id t old e)
]

-- How a credit request ends, and what it has done: the route always answers, with 200 only if it
-- added the amount, and with an error only if it changed nothing.
abbrev pub Credited : ℕ → ℕ → AccountsDb → Result (Response Account) × Script × AccountsDb → Type 0
Credited id amount db (ok (success c a), f, db') =
    (c ≡ 200) × Credit id amount db db' a × (keeps_replies f ≡ true)
Credited id amount db (ok (failure c x), f, db') = (db' ≡ db) × (keeps_replies f ≡ true)
Credited id amount db (err e, f, db') = ⊥

refused-Credited :
    (id amount : ℕ) (f : Script) (db : AccountsDb)
    → keeps_replies f ≡ true
    → Credited id amount db (catch (credit_reply id none) database_failure f db)
unfolding credit_reply database_failure refuse_credit
refused-Credited id amount [] db k = ground arith
refused-Credited id amount (delivered ∷ f) db k = ground arith
refused-Credited id amount (lost ∷ f) db k = ground arith
refused-Credited id amount (reply_lost ∷ f) db k = cc

after_update-Credited :
    (id amount : ℕ) (f : Script) (db : AccountsDb) (p : Result (Option Account) × Table Account)
    → keeps_replies f ≡ true
    → StatementCredits id amount db.accounts p
    → Credited id amount db (after_update (credit_reply id) f db p)
unfolding credit_reply database_failure refuse_credit
after_update-Credited id amount f db (ok none, t) k h = rw h (refused-Credited id amount f db k)
after_update-Credited id amount f db (ok (some a), t) k h = (refl, h db.outbox, k)
after_update-Credited id amount f db (err e, t) k h = (rw h refl, k)

pub credit_valid-Credited :
    (now id amount : ℕ) (f : Script) (db : AccountsDb)
    → keeps_replies f ≡ true
    → Credited id amount db (credit_valid now id amount f db)
unfolding credit_valid
credit_valid-Credited now id amount [] db k =
    after_update-Credited id amount [] db _ k (credit_statement-Credits now amount id db.accounts)
credit_valid-Credited now id amount (delivered ∷ f) db k =
    after_update-Credited id amount f db _ k (credit_statement-Credits now amount id db.accounts)
credit_valid-Credited now id amount (lost ∷ f) db k = ground arith
credit_valid-Credited now id amount (reply_lost ∷ f) db k = cc

-- A credit request that is answered with 200 passed the check of the service token, with a UUID and a positive
-- amount, and added this amount.
abbrev pub CreditAnswered :
    Option String
    → AmountRequest
    → AccountsDb
    → Result (Response Account) × Script × AccountsDb
    → Type 0
CreditAnswered secret req db (ok (success c a), f, db') =
    (require_service_token secret req.service_token ≡ true)
    × (id : ℕ) × (amount : ℕ) × (req.id ≡ some id)
    × (positive_money req.amount ≡ some amount)
    × Credit id amount db db' a
    × (keeps_replies f ≡ true)
CreditAnswered secret req db (ok (failure c x), f, db') = (db' ≡ db) × (keeps_replies f ≡ true)
CreditAnswered secret req db (err e, f, db') = ⊥

answered :
    (secret : Option String) (req : AmountRequest) (id amount : ℕ) (db : AccountsDb)
    → require_service_token secret req.service_token ≡ true
    → req.id ≡ some id
    → positive_money req.amount ≡ some amount
    → (p : Result (Response Account) × Script × AccountsDb) → Credited id amount db p
    → CreditAnswered secret req db p
answered secret req id amount db t i m (ok (success c a), f, db') h =
    (t, id, amount, i, m, h.1, h.2)
answered secret req id amount db t i m (ok (failure c x), f, db') h = h
answered secret req id amount db t i m (err e, f, db') h = h

-- Where no reply of the database is lost, PATCH /accounts/:id/credit always answers. It answers
-- with a success only to a request that passes the check of the service token, which every request
-- passes where the secret is unset or empty, with a UUID and a positive amount, for an account that
-- is not suspended: then exactly this amount has been added to this account and to the total, and no
-- other row and no outbox row has changed. With an error it has changed nothing. No later reply is
-- lost either.
pub credit_account-CreditAnswered :
    (secret : Option String) (now : ℕ) (req : AmountRequest) (f : Script) (db : AccountsDb)
    → keeps_replies f ≡ true
    → CreditAnswered secret req db (credit_account secret now req f db)
unfolding credit_account
credit_account-CreditAnswered secret now req f db k =
    elim (Bool-cases (require_service_token secret req.service_token)) [
      | inr closed ↦ rw closed (refl, k)
      | inl opened ↦ elim (Option-cases req.id) [
        | inl no_id ↦ rw (opened, no_id) (refl, k)
        | inr (id, i) ↦ elim (Option-cases (positive_money req.amount)) [
          | inl no_amount ↦ rw (opened, i, no_amount) (refl, k)
          | inr (amount, m) ↦
              rw (opened, i, m)
                (answered secret req id amount db opened i m _
                  (credit_valid-Credited now id amount f db k))
        ]
      ]
    ]
