-- ===== src/TransferService/Patch.antt =====
-- The two calls of the account service that the saga makes, where no reply is lost.
use cn_banking_transaction_s.Base.{ℕ, ◌≡◌, some, List, arith, inl, inr, ltb, ◌&&◌, Bool-cases}
use cn_banking_transaction_s.Effect.{Script, Result, ok, err, Response, success, failure, ◌>>=◌}
use cn_banking_transaction_s.Effect.Runs.{Ends, Runs, Runs-request}
use cn_banking_transaction_s.Types.{Account}
use cn_banking_transaction_s.Money.{cents, positive_money, money_regex}
use cn_banking_transaction_s.AccountService.{AccountsDb}
use cn_banking_transaction_s.AccountService.Debits.{
  Debit, DebitAnswered, debit_account-DebitAnswered,
}
use cn_banking_transaction_s.AccountService.Credits.{
  Credit, CreditAnswered, credit_account-CreditAnswered,
}
use cn_banking_transaction_s.TransferService.{
  World, Config, accept, amount_request, patch_debit, patch_credit,
}

abbrev pub with_accounts : World → AccountsDb → World
with_accounts w db = record w { accounts_db = db }

pub positive_money-cents : (s : List ℕ) (n : ℕ) → positive_money (some s) ≡ some n → n ≡ cents s
unfolding positive_money
positive_money-cents s n h = elim (Bool-cases (money_regex s && ltb 0 (cents s))) [
  | inl t ↦ ground arith
  | inr t ↦ ground arith
]

module _ (config : Config) (now id : ℕ) (amount : List ℕ) (P : World → Type 0)
    (Q : World → Type 0) where
  -- The rest of `patch_debit`, behind the route's answer.
  after_debit :
      (w : World) (p : Result (Response Account) × Script × AccountsDb)
      → DebitAnswered config.account_secret (amount_request config id amount) w.accounts_db p
      → ((db : AccountsDb) (a : Account)
          → Debit id (cents amount) w.accounts_db db a
          → Q (with_accounts w db))
      → P w
      → Ends (λ _ w'. Q w') P (((λ f w'. (p.0, f, w')) >>= accept) p.1 (with_accounts w p.2))
  after_debit w (ok (success c a), f, db) h keep p =
      let same_id : h.1 ≡ id = ground arith in
      let same_amount : h.2 ≡ cents amount = positive_money-cents amount h.2 h.4 in
      (keep db a (rw (same_id, same_amount) at (h.5)), h.6)
  after_debit w (ok (failure c x), f, db) h keep p = (rw (h.0) p, h.1)
  after_debit w (err e, f, db) h keep p = absurd h

  -- The debit is made, or the call throws and nothing has changed.
  pub Runs-patch_debit :
      ((w : World) (db : AccountsDb) (a : Account)
        → P w
        → Debit id (cents amount) w.accounts_db db a
        → Q (with_accounts w db))
      → Runs P (patch_debit config now id amount) (λ _ w. Q w) P
  unfolding patch_debit
  Runs-patch_debit keep =
      Runs-request _ _
        (record {
          at = λ f w k p.
              after_debit w _
                (debit_account-DebitAnswered config.account_secret now
                  (amount_request config id amount) f w.accounts_db k)
                (λ db a d. keep w db a p d) p;
        })
        (λ w p. p)

  after_credit :
      (w : World) (p : Result (Response Account) × Script × AccountsDb)
      → CreditAnswered config.account_secret (amount_request config id amount) w.accounts_db p
      → ((db : AccountsDb) (a : Account)
          → Credit id (cents amount) w.accounts_db db a
          → Q (with_accounts w db))
      → P w
      → Ends (λ _ w'. Q w') P (((λ f w'. (p.0, f, w')) >>= accept) p.1 (with_accounts w p.2))
  after_credit w (ok (success c a), f, db) h keep p =
      let same_id : h.1 ≡ id = ground arith in
      let same_amount : h.2 ≡ cents amount = positive_money-cents amount h.2 h.4 in
      (keep db a (rw (same_id, same_amount) at (h.5)), h.6)
  after_credit w (ok (failure c x), f, db) h keep p = (rw (h.0) p, h.1)
  after_credit w (err e, f, db) h keep p = absurd h

  -- The credit is made, or the call throws and nothing has changed.
  pub Runs-patch_credit :
      ((w : World) (db : AccountsDb) (a : Account)
        → P w
        → Credit id (cents amount) w.accounts_db db a
        → Q (with_accounts w db))
      → Runs P (patch_credit config now id amount) (λ _ w. Q w) P
  unfolding patch_credit
  Runs-patch_credit keep =
      Runs-request _ _
        (record {
          at = λ f w k p.
              after_credit w _
                (credit_account-CreditAnswered config.account_secret now
                  (amount_request config id amount) f w.accounts_db k)
                (λ db a d. keep w db a p d) p;
        })
        (λ w p. p)
