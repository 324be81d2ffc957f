-- ===== src/Outbox/Publisher/Batch.antt =====
-- shared/types/src/outbox.ts: the rows of one round, where every call is delivered.
use cn_banking_transaction_s.Base.{ℕ, ◌+◌, ◌≡◌, refl, ◌∙◌, none, [], ◌∷◌, All, length, arith}
use cn_banking_transaction_s.Base.Table.{lookup, set, lookup-set_ne, sum_by-set}
use cn_banking_transaction_s.Base.Table.Keys.{UniqueKeys, UniqueKeys-set, Found}
use cn_banking_transaction_s.Effect.{query}
use cn_banking_transaction_s.Effect.Lives.{Lives, Lives-pure, Lives-call, Lives-bind, Lives-catch}
use cn_banking_transaction_s.Outbox.{OutboxRow, Outbox}
use cn_banking_transaction_s.Outbox.Publisher.{
  Publisher, kafka_failure, send, published, mark_published, mark_error, publish_row, publish_rows,
}
use cn_banking_transaction_s.Outbox.Publisher.Sound.{Stays, All-change}
use cn_banking_transaction_s.Outbox.Publisher.Selected.{waiting, backlog, AllPending}

Found-set :
    (id : ℕ) (row : OutboxRow) (t rs : Outbox)
    → lookup id rs ≡ none
    → Found t rs
    → Found (set id row t) rs
Found-set id row t [] n h = tt
Found-set id row t ((j, x) ∷ rs) n h =
    (lookup-set_ne j id row t (λ e. ground arith) ∙ h.0, Found-set id row t rs (ground arith) h.1)

pub Found-Stays : (t rs : Outbox) → Found t rs → All (Stays t) rs
Found-Stays t [] h = tt
Found-Stays t ((i, row) ∷ rs) h = ((row, h.0, refl), Found-Stays t rs h.1)

-- `old` are the rows at the start, `rs` the rows that the round has still to publish, and `rest`
-- counts the rows that wait for a later round.
pub record Loop (old rs : Outbox) (rest : ℕ) (p : Publisher) : Type 0 where
  pub keys : UniqueKeys p.outbox
  pub distinct : UniqueKeys rs
  pub found : Found p.outbox rs
  pub waits : AllPending rs
  pub count : backlog p.outbox ≡ length rs + rest
  pub kept : All (Stays p.outbox) old

module _ (old : Outbox) (rest now : ℕ) where
  marked :
      (id : ℕ) (row : OutboxRow) (rs : Outbox) (p : Publisher)
      → Loop old ((id, row) ∷ rs) rest p
      → Loop old rs rest (record p { outbox = set id (published now row) p.outbox })
  marked id row rs p h = record {
    keys = UniqueKeys-set id (published now row) p.outbox h.keys;
    distinct = h.distinct.1;
    found = Found-set id (published now row) p.outbox rs h.distinct.0 h.found.1;
    waits = h.waits.1;
    count =
        let changed = sum_by-set waiting id (published now row) row p.outbox h.found.0 in
        let one : waiting row ≡ 1 = rw (h.waits.0) refl in omega (arith, changed, one, h.count);
    kept = rw (h.found.0) at (All-change (published now) (λ r. refl) id p.outbox old h.kept);
  }

  mark_replies :
      (id : ℕ) (row : OutboxRow) (rs : Outbox) (p : Publisher)
      → Loop old ((id, row) ∷ rs) rest p
      → Loop old rs rest (mark_published now id p).1
  mark_replies id row rs p h = rw (h.found.0) (marked id row rs p h)

  same_outbox :
      (rs : Outbox) (p q : Publisher)
      → q.outbox ≡ p.outbox
      → Loop old rs rest p
      → Loop old rs rest q
  same_outbox rs p q e h = record {
    keys = rw e (h.keys);
    distinct = h.distinct;
    found = rw e (h.found);
    waits = h.waits;
    count = rw e (h.count);
    kept = rw e (h.kept);
  }

  Lives-publish_row :
      (id : ℕ) (row : OutboxRow) (rs : Outbox)
      → Lives (Loop old ((id, row) ∷ rs) rest) (publish_row now (id, row)) (λ _. Loop old rs rest)
  unfolding publish_row
  Lives-publish_row id row rs =
      Lives-catch _ (λ e. query (mark_error e id))
        (Lives-bind {Q = λ _. Loop old ((id, row) ∷ rs) rest} _ _
          (Lives-call kafka_failure (send row) (λ p h. same_outbox _ p _ refl h))
          (λ _. Lives-call _ (mark_published now id) (mark_replies id row rs)))

  pub Lives-publish_rows :
      (rs : Outbox) → Lives (Loop old rs rest) (publish_rows now rs) (λ _. Loop old [] rest)
  unfolding publish_rows
  Lives-publish_rows [] = Lives-pure tt (λ p h. h)
  Lives-publish_rows ((id, row) ∷ rs) =
      Lives-bind _ _ (Lives-publish_row id row rs) (λ _. Lives-publish_rows rs)
