-- ===== src/AccountService/Debits.antt =====
-- What the debit route does to the accounts, whatever calls of the database fail.
use cn_banking_transaction_s.Base.{
  ℕ, ◌+◌, ◌-◌, leb, Bool-cases, ◌≡◌, refl, true, false, String, Option, none, some, arith, inl, inr,
  Option-cases, [], ◌∷◌,
}
use cn_banking_transaction_s.Base.Table.{
  Table, lookup, set, lookup-set_self, lookup-set_ne, sum_by-set,
}
use cn_banking_transaction_s.Effect.{
  delivered, lost, reply_lost, Script, keeps_replies, Result, ok, err, Response, success, failure,
  catch,
}
use cn_banking_transaction_s.Types.{Account}
use cn_banking_transaction_s.Money.{positive_money}
use cn_banking_transaction_s.Outbox.{Outbox}
use cn_banking_transaction_s.AccountService.{
  update_found, may_debit, debited, AccountsDb, is_suspended, is_verified, debit_statement,
  numeric_limit,
}
use cn_banking_transaction_s.AccountService.Moves.{total, Untouched, with_table, after_update}
use cn_banking_transaction_s.AccountService.Routes.{
  require_service_token, database_failure, refuse_debit, AmountRequest, debit_valid, debit_account,
  debit_reply,
}

-- `amount` was taken from the account `id`, which may be debited by as much.
pub record Debit (id amount : ℕ) (db db' : AccountsDb) (a : Account) : Type 0 where
  pub old : Account
  pub found : lookup id db.accounts ≡ some old
  pub not_suspended : is_suspended old.status ≡ false
  pub is_verified_account : is_verified old.kyc_status ≡ true
  pub taken : a.balance + amount ≡ old.balance
  pub stored : lookup id db'.accounts ≡ some a
  pub untouched : Untouched id db db'
  pub total_falls : total db' + amount ≡ total db

abbrev StatementDebits : ℕ → ℕ → Table Account → Result (Option Account) × Table Account → Type 0
StatementDebits id amount t (ok none, t') = t' ≡ t
StatementDebits id amount t (err _, t') = t' ≡ t
StatementDebits id amount t (ok (some a), t') =
    (outbox : Outbox)
    → Debit id amount (record { accounts = t; outbox = outbox })
        (record { accounts = t'; outbox = outbox }) a

abbrev after_debit : ℕ → ℕ → Account → Account
after_debit now amount old = record old { balance = old.balance - amount; updated_at = now }

module _ (now amount id : ℕ) (t : Table Account) (old : Account) (e : lookup id t ≡ some old) where
  Debit-row :
      (outbox : Outbox)
      → may_debit amount old ≡ true
      → Debit id amount
          (with_table outbox t)
          (with_table outbox (set id (after_debit now amount old) t))
          (after_debit now amount old)
  unfolding may_debit
  Debit-row outbox m = record {
    old = old;
    found = e;
    not_suspended = ground arith;
    is_verified_account = ground arith;
    taken = ground arith;
    stored = lookup-set_self id (after_debit now amount old) old t e;
    untouched = record { others = λ i h. lookup-set_ne i id _ t h; same_outbox = refl };
    total_falls =
        ground (arith, sum_by-set (λ a. a.balance) id (after_debit now amount old) old t e);
  }

  debit-found :
      StatementDebits id amount t
        (update_found now id (may_debit amount) (debited amount) t (some old))
  unfolding debited
  debit-found = elim (Bool-cases (may_debit amount old)) [
    | inr no_row ↦ rw no_row refl
    | inl row ↦ elim (Bool-cases (leb amount old.balance)) [
      | inr short ↦ absurd (unfold may_debit in ground arith)
      | inl enough ↦ elim (Bool-cases (leb numeric_limit (old.balance - amount))) [
        | inl over ↦ rw (row, enough, over) refl
        | inr fits ↦ rw (row, enough, fits) (λ outbox. Debit-row outbox row)
      ]
    ]
  ]

debit_statement-Debits :
    (now amount id : ℕ) (t : Table Account)
    → StatementDebits id amount t (debit_statement now amount id t)
unfolding debit_statement
debit_statement-Debits now amount id t = elim (Option-cases (lookup id t)) [
  | inl e ↦ rw e refl
  | inr (old, e) ↦ rw e (debit-found now amount id t old e)
]

-- How a debit request ends, and what it has done: the route always answers, with 200 only if it
-- took the amount, and with an error only if it changed nothing.
abbrev pub Debited : ℕ → ℕ → AccountsDb → Result (Response Account) × Script × AccountsDb → Type 0
Debited id amount db (ok (success c a), f, db') =
    (c ≡ 200) × Debit id amount db db' a × (keeps_replies f ≡ true)
Debited id amount db (ok (failure c x), f, db') = (db' ≡ db) × (keeps_replies f ≡ true)
Debited id amount db (err e, f, db') = ⊥

refused-Debited :
    (id amount : ℕ) (f : Script) (db : AccountsDb)
    → keeps_replies f ≡ true
    → Debited id amount db (catch (debit_reply id none) database_failure f db)
unfolding debit_reply database_failure refuse_debit
refused-Debited id amount [] db k = ground arith
refused-Debited id amount (delivered ∷ f) db k = ground arith
refused-Debited id amount (lost ∷ f) db k = ground arith
refused-Debited id amount (reply_lost ∷ f) db k = cc

after_update-Debited :
    (id amount : ℕ) (f : Script) (db : AccountsDb) (p : Result (Option Account) × Table Account)
    → keeps_replies f ≡ true
    → StatementDebits id amount db.accounts p
    → Debited id amount db (after_update (debit_reply id) f db p)
unfolding debit_reply database_failure refuse_debit
after_update-Debited id amount f db (ok none, t) k h = rw h (refused-Debited id amount f db k)
after_update-Debited id amount f db (ok (some a), t) k h = (refl, h db.outbox, k)
after_update-Debited id amount f db (err e, t) k h = (rw h refl, k)

pub debit_valid-Debited :
    (now id amount : ℕ) (f : Script) (db : AccountsDb)
    → keeps_replies f ≡ true
    → Debited id amount db (debit_valid now id amount f db)
unfolding debit_valid
debit_valid-Debited now id amount [] db k =
    after_update-Debited id amount [] db _ k (debit_statement-Debits now amount id db.accounts)
debit_valid-Debited now id amount (delivered ∷ f) db k =
    after_update-Debited id amount f db _ k (debit_statement-Debits now amount id db.accounts)
debit_valid-Debited now id amount (lost ∷ f) db k = ground arith
debit_valid-Debited now id amount (reply_lost ∷ f) db k = cc

-- A debit request that is answered with 200 passed the check of the service token, with a UUID and a positive
-- amount, and took this amount.
abbrev pub DebitAnswered :
    Option String
    → AmountRequest
    → AccountsDb
    → Result (Response Account) × Script × AccountsDb
    → Type 0
DebitAnswered secret req db (ok (success c a), f, db') =
    (require_service_token secret req.service_token ≡ true)
    × (id : ℕ) × (amount : ℕ) × (req.id ≡ some id)
    × (positive_money req.amount ≡ some amount)
    × Debit id amount db db' a
    × (keeps_replies f ≡ true)
DebitAnswered secret req db (ok (failure c x), f, db') = (db' ≡ db) × (keeps_replies f ≡ true)
DebitAnswered secret req db (err e, f, db') = ⊥

answered :
    (secret : Option String) (req : AmountRequest) (id amount : ℕ) (db : AccountsDb)
    → require_service_token secret req.service_token ≡ true
    → req.id ≡ some id
    → positive_money req.amount ≡ some amount
    → (p : Result (Response Account) × Script × AccountsDb) → Debited id amount db p
    → DebitAnswered secret req db p
answered secret req id amount db t i m (ok (success c a), f, db') h =
    (t, id, amount, i, m, h.1, h.2)
answered secret req id amount db t i m (ok (failure c x), f, db') h = h
answered secret req id amount db t i m (err e, f, db') h = h

-- Where no reply of the database is lost, PATCH /accounts/:id/debit always answers. It answers
-- with a success only to a request that passes the check of the service token, which every request
-- passes where the secret is unset or empty, with a UUID and a positive amount, for a verified
-- account that is not suspended and holds the amount: then exactly this amount has left this account
-- and the total, and no other row and no outbox row has changed. With an error it has changed
-- nothing. No later reply is lost either.
pub debit_account-DebitAnswered :
    (secret : Option String) (now : ℕ) (req : AmountRequest) (f : Script) (db : AccountsDb)
    → keeps_replies f ≡ true
    → DebitAnswered secret req db (debit_account secret now req f db)
unfolding debit_account
debit_account-DebitAnswered secret now req f db k =
    elim (Bool-cases (require_service_token secret req.service_token)) [
      | inr closed ↦ rw closed (refl, k)
      | inl opened ↦ elim (Option-cases req.id) [
        | inl no_id ↦ rw (opened, no_id) (refl, k)
        | inr (id, i) ↦ elim (Option-cases (positive_money req.amount)) [
          | inl no_amount ↦ rw (opened, i, no_amount) (refl, k)
          | inr (amount, m) ↦
              rw (opened, i, m)
                (answered secret req id amount db opened i m _
                  (debit_valid-Debited now id amount f db k))
        ]
      ]
    ]
