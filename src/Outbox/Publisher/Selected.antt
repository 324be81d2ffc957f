-- ===== src/Outbox/Publisher/Selected.antt =====
-- shared/types/src/outbox.ts: the rows that a round of the publisher reads.
use cn_banking_transaction_s.Base.{
  ℕ, zero, suc, ◌+◌, ◌≡◌, ◌≢◌, refl, ◌∙◌, true, none, [], ◌∷◌, Bool-cases, inl, inr, ◌-◌, All,
  All-take, length, take, leb, arith, if◌then◌else◌,
}
use cn_banking_transaction_s.Base.Table.{lookup, sum_by}
use cn_banking_transaction_s.Base.Table.Keys.{UniqueKeys}
use cn_banking_transaction_s.Outbox.{OutboxRow, Outbox}
use cn_banking_transaction_s.Outbox.Publisher.{
  is_pending, pending_rows, insert_by_time, order_by_time, select_pending, batch_limit,
}

-- What holds of every row of the table holds of every row that is read.
module _ (P : ℕ × OutboxRow → Type 0) where
  All-pending_rows : (rs : Outbox) → All P rs → All P (pending_rows rs)
  unfolding pending_rows
  All-pending_rows [] h = tt
  All-pending_rows (r ∷ rs) h = elim (Bool-cases (is_pending r.1)) [
    | inl waits ↦ rw waits (h.0, All-pending_rows rs h.1)
    | inr sent ↦ rw sent (All-pending_rows rs h.1)
  ]

  All-insert_by_time :
      (r : ℕ × OutboxRow) (rs : Outbox) → P r → All P rs → All P (insert_by_time r rs)
  All-insert_by_time r [] one h = (one, tt)
  All-insert_by_time r (x ∷ rs) one h = elim (Bool-cases (leb r.1.created_at x.1.created_at)) [
    | inl before ↦ rw before (one, h)
    | inr after ↦ rw after (h.0, All-insert_by_time r rs one h.1)
  ]

  All-order_by_time : (rs : Outbox) → All P rs → All P (order_by_time rs)
  unfolding order_by_time
  All-order_by_time [] h = tt
  All-order_by_time (r ∷ rs) h =
      All-insert_by_time r (order_by_time rs) h.0 (All-order_by_time rs h.1)

  pub All-select_pending : (t : Outbox) → All P t → All P (select_pending t)
  unfolding select_pending
  All-select_pending t h =
      All-take P batch_limit (order_by_time (pending_rows t))
        (All-order_by_time (pending_rows t) (All-pending_rows t h))

-- How many rows wait.
abbrev pub waiting : OutboxRow → ℕ
waiting row = if is_pending row then 1 else 0

abbrev pub backlog : Outbox → ℕ
backlog t = sum_by waiting t

abbrev pub AllPending : Outbox → Type 0
AllPending rs = All (λ r. is_pending r.1 ≡ true) rs

pending_rows-AllPending : (t : Outbox) → AllPending (pending_rows t)
unfolding pending_rows
pending_rows-AllPending [] = tt
pending_rows-AllPending (r ∷ t) = elim (Bool-cases (is_pending r.1)) [
  | inl waits ↦ rw waits (waits, pending_rows-AllPending t)
  | inr sent ↦ rw sent (pending_rows-AllPending t)
]

pub select_pending-AllPending : (t : Outbox) → AllPending (select_pending t)
unfolding select_pending
select_pending-AllPending t =
    All-take _ batch_limit (order_by_time (pending_rows t))
      (All-order_by_time _ (pending_rows t) (pending_rows-AllPending t))

length-pending_rows : (t : Outbox) → length (pending_rows t) ≡ backlog t
unfolding pending_rows
length-pending_rows [] = refl
length-pending_rows ((i, row) ∷ t) = elim (Bool-cases (is_pending row)) [
  | inl waits ↦ rw waits (omega (arith, length-pending_rows t))
  | inr sent ↦ rw sent (omega (arith, length-pending_rows t))
]

length-insert_by_time :
    (r : ℕ × OutboxRow) (rs : Outbox) → length (insert_by_time r rs) ≡ suc (length rs)
length-insert_by_time r [] = refl
length-insert_by_time r (x ∷ rs) = elim (Bool-cases (leb r.1.created_at x.1.created_at)) [
  | inl before ↦ rw before refl
  | inr after ↦ rw after (omega (arith, length-insert_by_time r rs))
]

length-order_by_time : (rs : Outbox) → length (order_by_time rs) ≡ length rs
unfolding order_by_time
length-order_by_time [] = refl
length-order_by_time (r ∷ rs) =
    omega (arith, length-insert_by_time r (order_by_time rs), length-order_by_time rs)

-- A round reads all rows that wait, or as many as a round may read.
length-take_rest : (n : ℕ) (rs : Outbox) → length rs ≡ length (take n rs) + (length rs - n)
length-take_rest zero rs = omega arith
length-take_rest (suc n) [] = omega arith
length-take_rest (suc n) (r ∷ rs) = omega (arith, length-take_rest n rs)

pub length-select_pending :
    (t : Outbox) → backlog t ≡ length (select_pending t) + (backlog t - batch_limit)
unfolding select_pending
length-select_pending t =
    let sorted = length-order_by_time (pending_rows t) ∙ length-pending_rows t in
    rw (sorted) at (length-take_rest batch_limit (order_by_time (pending_rows t)))

-- The keys stay different.
lookup-pending_rows : (k : ℕ) (t : Outbox) → lookup k t ≡ none → lookup k (pending_rows t) ≡ none
unfolding pending_rows
lookup-pending_rows k [] h = refl
lookup-pending_rows k ((j, row) ∷ t) h = ground (arith, lookup-pending_rows k t)

UniqueKeys-pending_rows : (t : Outbox) → UniqueKeys t → UniqueKeys (pending_rows t)
unfolding pending_rows
UniqueKeys-pending_rows [] h = tt
UniqueKeys-pending_rows ((j, row) ∷ t) h = elim (Bool-cases (is_pending row)) [
  | inl waits ↦ rw waits (lookup-pending_rows j t h.0, UniqueKeys-pending_rows t h.1)
  | inr sent ↦ rw sent (UniqueKeys-pending_rows t h.1)
]

lookup-insert_by_time :
    (k : ℕ) (r : ℕ × OutboxRow) (rs : Outbox)
    → k ≢ r.0
    → lookup k rs ≡ none
    → lookup k (insert_by_time r rs) ≡ none
lookup-insert_by_time k (i, row) [] n h = ground arith
lookup-insert_by_time k (i, row) ((j, x) ∷ rs) n h =
    ground (arith, lookup-insert_by_time k (i, row) rs n)

UniqueKeys-insert_by_time :
    (r : ℕ × OutboxRow) (rs : Outbox)
    → lookup r.0 rs ≡ none
    → UniqueKeys rs
    → UniqueKeys (insert_by_time r rs)
UniqueKeys-insert_by_time (i, row) [] n h = (refl, tt)
UniqueKeys-insert_by_time (i, row) ((j, x) ∷ rs) n h =
    elim (Bool-cases (leb row.created_at x.created_at)) [
      | inl before ↦ rw before (n, h)
      | inr after ↦ rw after (
        lookup-insert_by_time j (i, row) rs (λ e. ground arith) h.0,
        UniqueKeys-insert_by_time (i, row) rs (ground arith) h.1,
      )
    ]

lookup-order_by_time :
    (k : ℕ) (rs : Outbox) → lookup k rs ≡ none → lookup k (order_by_time rs) ≡ none
unfolding order_by_time
lookup-order_by_time k [] h = refl
lookup-order_by_time k ((j, row) ∷ rs) h =
    lookup-insert_by_time k (j, row) (order_by_time rs) (λ e. ground arith)
      (lookup-order_by_time k rs (ground arith))

UniqueKeys-order_by_time : (rs : Outbox) → UniqueKeys rs → UniqueKeys (order_by_time rs)
unfolding order_by_time
UniqueKeys-order_by_time [] h = tt
UniqueKeys-order_by_time ((j, row) ∷ rs) h =
    UniqueKeys-insert_by_time (j, row) (order_by_time rs) (lookup-order_by_time j rs h.0)
      (UniqueKeys-order_by_time rs h.1)

lookup-take : (k n : ℕ) (rs : Outbox) → lookup k rs ≡ none → lookup k (take n rs) ≡ none
lookup-take k zero rs h = refl
lookup-take k (suc n) [] h = refl
lookup-take k (suc n) ((j, row) ∷ rs) h = ground (arith, lookup-take k n rs)

UniqueKeys-take : (n : ℕ) (rs : Outbox) → UniqueKeys rs → UniqueKeys (take n rs)
UniqueKeys-take zero rs h = tt
UniqueKeys-take (suc n) [] h = tt
UniqueKeys-take (suc n) ((j, row) ∷ rs) h = (lookup-take j n rs h.0, UniqueKeys-take n rs h.1)

pub UniqueKeys-select_pending : (t : Outbox) → UniqueKeys t → UniqueKeys (select_pending t)
unfolding select_pending
UniqueKeys-select_pending t h =
    UniqueKeys-take batch_limit (order_by_time (pending_rows t))
      (UniqueKeys-order_by_time (pending_rows t) (UniqueKeys-pending_rows t h))
