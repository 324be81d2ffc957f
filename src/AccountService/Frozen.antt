-- ===== src/AccountService/Frozen.antt =====
-- A frozen account under every statement of the account service.
use cn_banking_transaction_s.Base.{
  ℕ, ◌≡◌, String, Option, some, List, arith, Bool-cases, inl, inr, ◌==◌, ap, ◌∙◌,
}
use cn_banking_transaction_s.Base.Table.{
  Table, lookup, set, lookup-set_self, lookup-set_ne, lookup-insert_old,
}
use cn_banking_transaction_s.Effect.{Script}
use cn_banking_transaction_s.Types.{Account, suspended}
use cn_banking_transaction_s.AccountService.{AccountsDb}
use cn_banking_transaction_s.Effect.{Script}
use cn_banking_transaction_s.Base.{List}
use cn_banking_transaction_s.AccountService.Router.{AccountRequest, serve}
use cn_banking_transaction_s.AccountService.Closed.{
  IsClosed, Written, debit_written, credit_written, freeze_written, kyc_written,
}
use cn_banking_transaction_s.AccountService.Closed.Router.{serve-Closed}

-- The account `id` is suspended and holds `balance`.
pub record FrozenRow (id balance : ℕ) (t : Table Account) : Type 0 where
  pub row : Account
  pub there : lookup id t ≡ some row
  pub is_frozen : row.status ≡ suspended
  pub holds : row.balance ≡ balance

abbrev pub IsFrozen : ℕ → ℕ → AccountsDb → Type 0
IsFrozen id balance db = FrozenRow id balance db.accounts

module _ (id balance : ℕ) where
  set-Frozen :
      (k : ℕ) (a b : Account) (t : Table Account)
      → lookup k t ≡ some a
      → (a.status ≡ suspended → (b.status ≡ suspended) × (b.balance ≡ a.balance))
      → FrozenRow id balance t
      → FrozenRow id balance (set k b t)
  set-Frozen k a b t e same h = elim (Bool-cases (id == k)) [
    | inl self ↦
        let e' : id ≡ k = ground arith in
        let a-row : a ≡ h.row = ground (arith, ap (λ i. lookup i t) e') in
        record {
          row = b;
          there = rw e' (lookup-set_self k b a t e);
          is_frozen = ground (arith, same);
          holds = ground (arith, same);
        }
    | inr other ↦ record {
      row = h.row;
      there = lookup-set_ne id k b t (ground arith) ∙ h.there;
      is_frozen = h.is_frozen;
      holds = h.holds;
    }
  ]

  Written-Frozen :
      (a b : Account)
      → Written a b
      → a.status ≡ suspended
      → (b.status ≡ suspended) × (b.balance ≡ a.balance)
  Written-Frozen a b (debit_written now amount n v e w) z = ground arith
  Written-Frozen a b (credit_written now amount n w) z = ground arith
  Written-Frozen a b (freeze_written now w) z = ground arith
  Written-Frozen a b (kyc_written now kyc w) z = ground arith

  IsFrozen-IsClosed : IsClosed (IsFrozen id balance)
  IsFrozen-IsClosed = record {
    updates = λ k a b db e w fits h. set-Frozen k a b db.accounts e (Written-Frozen a b w) h;
    inserts = λ fresh name email n owner db free new fits h. record {
      row = h.row;
      there = lookup-insert_old id fresh.uuid _ h.row db.accounts h.there;
      is_frozen = h.is_frozen;
      holds = h.holds;
    };
    enqueues = λ outbox db h. h;
  }

  -- A suspended account stays suspended and keeps its balance, whatever requests the account
  -- service gets in whatever order and whatever calls of the database fail.
  pub serve-IsFrozen :
      (secret : Option String) (reqs : List (AccountRequest × Script)) (db : AccountsDb)
      → IsFrozen id balance db
      → IsFrozen id balance (serve secret reqs db)
  serve-IsFrozen secret reqs db h = serve-Closed IsFrozen-IsClosed secret reqs db h
