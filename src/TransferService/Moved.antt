-- ===== src/TransferService/Moved.antt =====
-- What a run of the saga has moved between the accounts: an amount out of the source, into the
-- destination, and back into the source, each if its flag is set.
use cn_banking_transaction_s.Base.{
  ℕ, ◌+◌, ◌≡◌, Bool, true, false, ◌&&◌, Option, none, some, arith, ◌==◌, Bool-cases, inl, inr,
  if◌then◌else◌,
}
use cn_banking_transaction_s.Base.Table.{lookup}
use cn_banking_transaction_s.Types.{Account}
use cn_banking_transaction_s.AccountService.{AccountsDb}
use cn_banking_transaction_s.AccountService.Moves.{total}
use cn_banking_transaction_s.AccountService.Debits.{Debit}
use cn_banking_transaction_s.AccountService.Credits.{Credit}

abbrev pub balance_of : Option Account → ℕ
balance_of none = 0
balance_of (some a) = a.balance

-- What the account `i` holds; nothing, if there is none.
abbrev pub held : ℕ → AccountsDb → ℕ
held i db = balance_of (lookup i db.accounts)

-- `amount`, if the flag is set and the account is the one.
abbrev pub part : ℕ → Bool → ℕ → ℕ → ℕ
part amount flag i j = if flag && i == j then amount else 0

abbrev pub share : ℕ → Bool → ℕ
share amount flag = if flag then amount else 0

pub record Moved (from to amount : ℕ) (debited credited refunded : Bool) (db0 db : AccountsDb)
    : Type 0 where
  pub each :
      (i : ℕ)
      → held i db + part amount debited i from
        ≡ held i db0 + part amount credited i to + part amount refunded i from
  pub in_total :
      total db + share amount debited ≡ total db0 + share amount credited + share amount refunded

held-Debit :
    (id amount : ℕ) (db db' : AccountsDb) (a : Account)
    → Debit id amount db db' a
    → (i : ℕ) → held i db' + part amount true i id ≡ held i db
held-Debit id amount db db' a d i = elim (Bool-cases (i == id)) [
  | inl self ↦ let e : i ≡ id = ground arith in rw (e, d.stored, d.found) (ground arith)
  | inr other ↦ rw (d.untouched.others i (ground arith)) (ground arith)
]

held-Credit :
    (id amount : ℕ) (db db' : AccountsDb) (a : Account)
    → Credit id amount db db' a
    → (i : ℕ) → held i db' ≡ held i db + part amount true i id
held-Credit id amount db db' a d i = elim (Bool-cases (i == id)) [
  | inl self ↦ let e : i ≡ id = ground arith in rw (e, d.stored, d.found) (ground arith)
  | inr other ↦ rw (d.untouched.others i (ground arith)) (ground arith)
]

pub Moved-none :
    (from to amount : ℕ) (db : AccountsDb) → Moved from to amount false false false db db
Moved-none from to amount db = record { each = λ i. omega arith; in_total = omega arith }

module _ (from to amount : ℕ) (credited refunded : Bool) (db0 db db' : AccountsDb)
    (a : Account) where
  pub Moved-Debit :
      Debit from amount db db' a
      → Moved from to amount false credited refunded db0 db
      → Moved from to amount true credited refunded db0 db'
  Moved-Debit d m = record {
    each = λ i. omega (arith, held-Debit from amount db db' a d i, m.each i);
    in_total = omega (arith, d.total_falls, m.in_total);
  }

module _ (from to amount : ℕ) (debited other : Bool) (db0 db db' : AccountsDb) (a : Account) where
  pub Moved-Credit :
      Credit to amount db db' a
      → Moved from to amount debited false other db0 db
      → Moved from to amount debited true other db0 db'
  Moved-Credit d m = record {
    each = λ i. omega (arith, held-Credit to amount db db' a d i, m.each i);
    in_total = omega (arith, d.total_rises, m.in_total);
  }

  pub Moved-refund :
      Credit from amount db db' a
      → Moved from to amount debited other false db0 db
      → Moved from to amount debited other true db0 db'
  Moved-refund d m = record {
    each = λ i. omega (arith, held-Credit from amount db db' a d i, m.each i);
    in_total = omega (arith, d.total_rises, m.in_total);
  }
