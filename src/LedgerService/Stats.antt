-- ===== src/LedgerService/Stats.antt =====
-- services/ledger-service/src/index.ts: the entries of one transfer, and the statistics of one
-- account. What MongoDB's driver throws is not caught.
use cn_banking_transaction_s.Base.{
  ℕ, ◌+◌, ◌≡◌, Bool, true, false, ◌&&◌, List, [], ◌∷◌, ◌++◌, arith, leb, ◌==◌, if◌then◌else◌, ap,
  ◌∙◌, Option, none, some,
}
use cn_banking_transaction_s.Effect.{
  ok, Exec, pure, query, Response, success, failure, validation_error,
}
use cn_banking_transaction_s.LedgerService.{
  LedgerWorld, LedgerEntry, EntryType, debit_entry, credit_entry, EntryStatus, Position,
  TransferFacts, build_entries,
}

abbrev pub insert_oldest : LedgerEntry → List LedgerEntry → List LedgerEntry
insert_oldest e [] = e ∷ []
insert_oldest e (x ∷ xs) =
    if leb e.created_at x.created_at then e ∷ x ∷ xs else x ∷ insert_oldest e xs

-- .find({ transferId }).sort({ createdAt: 1 })
unfoldable pub of_transfer : ℕ → List LedgerEntry → List LedgerEntry
of_transfer id [] = []
of_transfer id (e ∷ es) =
    let rest = of_transfer id es in if id == e.transfer_id then insert_oldest e rest else rest

-- GET /v1/ledger/transfer/:transferId
unfoldable pub transfer_entries : Option ℕ → Exec LedgerWorld (Response (List LedgerEntry))
unfolding of_transfer
transfer_entries none = pure (failure 400 validation_error)
transfer_entries (some id) = query (λ w. (ok (success 200 (of_transfer id w.entries)), w))

abbrev pub same_type : EntryType → EntryType → Bool
same_type debit_entry debit_entry = true
same_type credit_entry credit_entry = true
same_type _ _ = false

-- $sum of $cond: [{ $eq: ['$entryType', type] }, '$amount', ZERO_DECIMAL]
unfoldable pub total_of : EntryType → ℕ → List LedgerEntry → ℕ
total_of type account [] = 0
total_of type account (e ∷ es) =
    let rest = total_of type account es in
    if account == e.account_id && same_type type e.entry_type then e.amount + rest else rest

-- entryCount: { $sum: 1 }
unfoldable pub count_of : ℕ → List LedgerEntry → ℕ
count_of account [] = 0
count_of account (e ∷ es) =
    let rest = count_of account es in if account == e.account_id then rest + 1 else rest

pub record LedgerStats (N : Type 0) : Type 0 where
  pub total_debits : N
  pub total_credits : N
  pub net : N
  pub entry_count : ℕ

-- The JavaScript numbers, with `toNumber` of an amount in cents, 0 and `-`.
module _ {N : Type 0} (to_number : ℕ → N) (nought : N) (minus : N → N → N) where
  -- Where no entry is found there is no group, and both totals are 0.
  abbrev pub total_or_zero : ℕ → ℕ → N
  total_or_zero count total = if count == 0 then nought else to_number total

  abbrev pub stats_of : N → N → ℕ → LedgerStats N
  stats_of debits credits count = record {
    total_debits = debits;
    total_credits = credits;
    net = minus credits debits;
    entry_count = count;
  }

  -- GET /v1/ledger/stats/:accountId
  unfoldable pub ledger_stats : Option ℕ → Exec LedgerWorld (Response (LedgerStats N))
  unfolding total_of count_of
  ledger_stats none = pure (failure 400 validation_error)
  ledger_stats (some account) = query (λ w.
      let count = count_of account w.entries in
      (
        ok (
            success 200 (
              stats_of (total_or_zero count (total_of debit_entry account w.entries))
                (total_or_zero count (total_of credit_entry account w.entries)) count)),
        w,
      ))

total_of-append :
    (type : EntryType) (account : ℕ) (es es' : List LedgerEntry)
    → total_of type account (es ++ es') ≡ total_of type account es + total_of type account es'
unfolding total_of
total_of-append type account [] es' = ground arith
total_of-append type account (e ∷ es) es' = ground (arith, total_of-append type account es es')

module _ (sha1 : List ℕ → List ℕ) (at : Position) (facts : TransferFacts) (status : EntryStatus)
    (t : ℕ) where
  debit_total :
      (account : ℕ)
      → total_of debit_entry account (build_entries sha1 at facts status t)
        ≡ (if account == facts.from_account_id then facts.amount else 0)
  unfolding total_of build_entries
  debit_total account = ground arith

  credit_total :
      (account : ℕ)
      → total_of credit_entry account (build_entries sha1 at facts status t)
        ≡ (if account == facts.to_account_id then facts.amount else 0)
  unfolding total_of build_entries
  credit_total account = ground arith

-- The entries of one transfer, behind those of a ledger, add its amount to the debits of its source
-- and to the credits of its destination, and nothing to any other total.
pub total_of-build_entries :
    (sha1 : List ℕ → List ℕ) (at : Position) (facts : TransferFacts) (status : EntryStatus) (t : ℕ)
    (account : ℕ) (es : List LedgerEntry)
    → (total_of debit_entry account (es ++ build_entries sha1 at facts status t)
        ≡ total_of debit_entry account es
          + (if account == facts.from_account_id then facts.amount else 0))
      × (total_of credit_entry account (es ++ build_entries sha1 at facts status t)
          ≡ total_of credit_entry account es
            + (if account == facts.to_account_id then facts.amount else 0))
total_of-build_entries sha1 at facts status t account es = (
  total_of-append debit_entry account es (build_entries sha1 at facts status t)
      ∙ ap (λ n. total_of debit_entry account es + n) (debit_total sha1 at facts status t account),
  total_of-append credit_entry account es (build_entries sha1 at facts status t)
      ∙ ap (λ n. total_of credit_entry account es + n)
          (credit_total sha1 at facts status t account),
)
