-- ===== src/Outbox/Publisher/Drains.antt =====
-- shared/types/src/outbox.ts: rounds of the publisher in which every call is delivered.
use cn_banking_transaction_s.Base.{
  ℕ, Bool, ◌-◌, ◌*◌, ◌≤◌, ◌≡◌, refl, sym, ◌∙◌, true, false, some, List, [], ◌∷◌, All, length, arith,
  inl, inr, Bool-cases, ◌==◌, if◌then◌else◌, subst,
}
use cn_banking_transaction_s.Base.Table.{lookup}
use cn_banking_transaction_s.Base.Table.Keys.{UniqueKeys, UniqueKeys-Found}
use cn_banking_transaction_s.Effect.{Script, Result, ok, err, Exec, pure, catch, ◌>>◌}
use cn_banking_transaction_s.Effect.Lives.{
  Returns, Returns-map, Lives, Lives-pure, Lives-call, Lives-bind,
}
use cn_banking_transaction_s.Outbox.{OutboxRow, Outbox}
use cn_banking_transaction_s.Outbox.Publisher.{
  Publisher, local, ensure_producer, select_pending, pending_rows, is_pending, message_of,
  publish_rows, publish_pending, publish_pending_outbox_events, batch_limit,
}
use cn_banking_transaction_s.Outbox.Publisher.Sound.{IsSound, Within, Stays}
use cn_banking_transaction_s.Outbox.Publisher.Selected.{
  All-select_pending, waiting, backlog, select_pending-AllPending, length-select_pending,
  UniqueKeys-select_pending,
}
use cn_banking_transaction_s.Outbox.Publisher.Rounds.{
  Round, either, publish_pending_outbox_events-Round,
}
use cn_banking_transaction_s.Outbox.Publisher.Batch.{Loop, Lives-publish_rows, Found-Stays}

-- Between two rounds: `n` rows wait.
record Waiting (old : Outbox) (n : ℕ) (p : Publisher) : Type 0 where
  unique : UniqueKeys p.outbox
  backlog_is : backlog p.outbox ≡ n
  kept_rows : All (Stays p.outbox) old

-- No round runs, and every row marked as published is in Kafka.
abbrev Idle : Outbox → ℕ → Publisher → Type 0
Idle old n p = Waiting old n p × (p.publishing ≡ false) × IsSound p

module _ (old : Outbox) (n now : ℕ) where
  selected :
      (p : Publisher) → Waiting old n p → Loop old (select_pending p.outbox) (n - batch_limit) p
  selected p h = record {
    keys = h.unique;
    distinct = UniqueKeys-select_pending p.outbox h.unique;
    found = All-select_pending _ p.outbox (UniqueKeys-Found p.outbox h.unique);
    waits = select_pending-AllPending p.outbox;
    count = h.backlog_is ∙ (rw (h.backlog_is) at (length-select_pending p.outbox));
    kept = h.kept_rows;
  }

  published_all :
      (p : Publisher) → Loop old [] (n - batch_limit) p → Waiting old (n - batch_limit) p
  published_all p h = record {
    unique = h.keys;
    backlog_is = omega (arith, h.count);
    kept_rows = h.kept;
  }

  Lives-ensure_producer : Lives (Waiting old n) ensure_producer (λ _. Waiting old n)
  unfolding ensure_producer
  Lives-ensure_producer = record {
    at = λ p h.
        either {A = Result (Unit {0}) × Script × Publisher} (Returns (λ _. Waiting old n))
          p.producer_connected _ _ h
          (record { unique = h.unique; backlog_is = h.backlog_is; kept_rows = h.kept_rows });
  }

  Lives-publish_pending :
      Lives (Waiting old n) (publish_pending now) (λ _. Waiting old (n - batch_limit))
  unfolding publish_pending
  Lives-publish_pending = Lives-bind _ _ Lives-ensure_producer (λ _.
      Lives-bind {Q = λ rs. Loop old rs (n - batch_limit)} _ (publish_rows now)
        (Lives-call _ _ selected)
        (λ rs. record {
          at = λ p h.
              Returns-map _ (λ a q. published_all q)
                ((Lives-publish_rows old (n - batch_limit) now rs).at p h);
        }))

  tick_frees :
      (p : Publisher) (r : Result (Unit {0}) × Script × Publisher)
      → Idle old n p
      → Returns (λ _. Waiting old (n - batch_limit)) r
      → Round p.publishing r
      → Returns (λ _. Idle old (n - batch_limit)) r
  tick_frees p (ok a, [], q) i h r = (h, r.flag_restored ∙ i.1, r.sound)
  tick_frees p (ok a, fate ∷ f, q) i h r = absurd h
  tick_frees p (err e, f, q) i h r = absurd h

  with_flag :
      (b : Bool) (k : ℕ) (p : Publisher)
      → Waiting old k p
      → Waiting old k (record p { publishing = b })
  with_flag b k p h = record {
    unique = h.unique;
    backlog_is = h.backlog_is;
    kept_rows = h.kept_rows;
  }

  ended :
      (r : Result (Unit {0}) × Script × Publisher)
      → Returns (λ _. Waiting old (n - batch_limit)) r
      → Returns
          (λ _. Waiting old (n - batch_limit))
          (((catch (λ f p. r) (λ e. pure tt)) >> local (λ s. record s { publishing = false })) r.1
            r.2)
  ended (ok a, [], p) h = with_flag false (n - batch_limit) p h
  ended (ok a, fate ∷ f, p) h = absurd h
  ended (err e, f, p) h = absurd h

  tick_drains :
      (p : Publisher)
      → Idle old n p
      → Returns (λ _. Waiting old (n - batch_limit)) (publish_pending_outbox_events now [] p)
  unfolding publish_pending_outbox_events
  tick_drains p i = round p.publishing i.1
    where
      round :
          (b : Bool)
          → b ≡ false
          → Returns
              (λ _. Waiting old (n - batch_limit))
              (if b
                then (ok tt, [], p)
                else (do
                  local (λ s. record s { publishing = true })
                  catch (publish_pending now) (λ e. pure tt)
                  local (λ s. record s { publishing = false }))
                    [] p)
      round true e = cc
      round false e =
          ended (publish_pending now [] (record p { publishing = true }))
            (Lives-publish_pending.at (record p { publishing = true }) (with_flag true n p i.0))

  Lives-round :
      Lives (Idle old n) (publish_pending_outbox_events now) (λ _. Idle old (n - batch_limit))
  Lives-round = record {
    at = λ p i. tick_frees p (publish_pending_outbox_events now [] p) i (tick_drains p i) (
        publish_pending_outbox_events-Round now [] p
          (Found-Stays p.outbox p.outbox (UniqueKeys-Found p.outbox i.0.unique)) i.2);
  }

-- Rounds, one after the other, each at its time.
abbrev pub publish_rounds : List ℕ → Exec Publisher (Unit {0})
publish_rounds [] = pure tt
publish_rounds (now ∷ nows) = publish_pending_outbox_events now >> publish_rounds nows

Lives-rounds :
    (old : Outbox) (n : ℕ) (nows : List ℕ)
    → Lives (Idle old n) (publish_rounds nows) (λ _. Idle old (n - batch_limit * length nows))
Lives-rounds old n [] = Lives-pure tt (λ p i. subst (λ k. Idle old k p) (omega arith) i)
Lives-rounds old n (now ∷ nows) =
    Lives-bind _ (λ _. publish_rounds nows) (Lives-round old n now)
      (λ _. record {
        at = λ p i.
            let count : n - batch_limit - batch_limit * length nows
                ≡ n - batch_limit * length (now ∷ nows) =
              omega arith in
            Returns-map _ (λ a q j. subst (λ k. Idle old k q) count j)
              ((Lives-rounds old (n - batch_limit) nows).at p i);
      })

-- Nothing waits: every row has been sent.
nothing_pending : (t : Outbox) → backlog t ≡ 0 → pending_rows t ≡ []
unfolding pending_rows
nothing_pending [] e = refl
nothing_pending ((i, row) ∷ t) e = elim (Bool-cases (is_pending row)) [
  | inl waits ↦ let one : waiting row ≡ 1 = rw waits refl in absurd (omega (arith, e, one))
  | inr sent ↦
      let none_here : waiting row ≡ 0 = rw sent refl in
      rw sent (nothing_pending t (omega (arith, e, none_here)))
]

not_pending :
    (t : Outbox) (i : ℕ) (row : OutboxRow)
    → backlog t ≡ 0
    → lookup i t ≡ some row
    → is_pending row ≡ false
not_pending [] i row e f = cc
not_pending ((j, x) ∷ t) i row e f = elim (Bool-cases (is_pending x)) [
  | inl waits ↦ let one : waiting x ≡ 1 = rw waits refl in absurd (omega (arith, e, one))
  | inr sent ↦
      let none_here : waiting x ≡ 0 = rw sent refl in
      let rest : backlog t ≡ 0 = omega (arith, e, none_here) in
      ground (arith, not_pending t i row rest)
]

found_again :
    (t rs : Outbox) (i : ℕ) (row : OutboxRow)
    → All (Stays t) rs
    → lookup i rs ≡ some row
    → Stays t (i, row)
found_again t [] i row h f = cc
found_again t ((j, x) ∷ rs) i row h f = elim (Bool-cases (i == j)) [
  | inl self ↦
      let same : i ≡ j = ground arith in
      let one : x ≡ row = ground arith in rw (same, sym one) (h.0)
  | inr other ↦ found_again t rs i row h.1 (ground arith)
]

-- Where every call is delivered, the publisher empties its outbox: if the key of the table is
-- primary, no round runs, every row marked as published is in Kafka, and the rounds may read as
-- many rows as wait, then the rounds return, no row waits after them, and Kafka has the message of
-- every row that the table had before them.
pub publish_rounds-drained :
    (nows : List ℕ) (p : Publisher)
    → UniqueKeys p.outbox
    → p.publishing ≡ false
    → IsSound p
    → backlog p.outbox ≤ batch_limit * length nows
    → Returns
        (λ _ q.
          (pending_rows q.outbox ≡ [])
          × ((i : ℕ) (row : OutboxRow)
              → lookup i p.outbox ≡ some row
              → Within (message_of row) q.sent))
        (publish_rounds nows [] p)
publish_rounds-drained nows p unique idle sound enough =
    let rows = Found-Stays p.outbox p.outbox (UniqueKeys-Found p.outbox unique) in
    Returns-map {S = Publisher} {A = Unit {0}}
      {Q = λ a. Idle p.outbox (backlog p.outbox - batch_limit * length nows)}
      (publish_rounds nows [] p)
      (λ a q j.
        let drained : backlog q.outbox ≡ 0 = j.0.backlog_is ∙ omega arith in
        (
          nothing_pending q.outbox drained,
          λ i row f.
              let (x, held, same) = found_again q.outbox p.outbox i row j.0.kept_rows f in
              rw (same) at (j.2 i x held (not_pending q.outbox i x drained held)),
        ))
      ((Lives-rounds p.outbox (backlog p.outbox) nows).at p
        (record { unique = unique; backlog_is = refl; kept_rows = rows }, idle, sound))
