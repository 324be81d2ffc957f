-- ===== src/Outbox/Publisher/Rounds.antt =====
-- shared/types/src/outbox.ts: a round of the publisher, whatever calls fail.
use cn_banking_transaction_s.Base.{ℕ, ◌≡◌, refl, Bool, true, false, [], ◌∷◌, All, if◌then◌else◌}
use cn_banking_transaction_s.Effect.{
  delivered, lost, reply_lost, Script, Result, ok, err, Exec, pure, query, catch, ◌>>=◌, ◌>>◌,
}
use cn_banking_transaction_s.Effect.Keeps.{Keeps, Keeps-call}
use cn_banking_transaction_s.Outbox.{OutboxRow, Outbox}
use cn_banking_transaction_s.Outbox.Publisher.{
  Publisher, kafka_failure, local, ensure_producer, publish_pending, publish_pending_outbox_events,
  publish_row, publish_rows, select_pending,
}
use cn_banking_transaction_s.Outbox.Publisher.Selected.{All-select_pending}
use cn_banking_transaction_s.Outbox.Publisher.Sound.{IsSound, Stays, Ready, publish_row-Ready}

abbrev rows_end : ℕ → Outbox → Result (Unit {0}) × Script × Publisher → Publisher
rows_end now rs (r, f, p) = (((λ f p. (r, f, p)) >> publish_rows now rs) f p).2

-- The rows behind one row, by what they do from each state.
behind_row :
    (now id : ℕ) (row : OutboxRow) (rs : Outbox) (r : Result (Unit {0}) × Script × Publisher)
    → ((f : Script) (p : Publisher)
        → IsSound p
        → All (Stays p.outbox) rs
        → IsSound (publish_rows now rs f p).2)
    → Ready now id row rs r.2
    → IsSound (rows_end now rs r)
behind_row now id row rs (ok a, f, p) go h = go f p h.sound h.behind
behind_row now id row rs (err e, f, p) go h = h.sound

publish_rows-IsSound :
    (now : ℕ) (rs : Outbox) (f : Script) (p : Publisher)
    → IsSound p
    → All (Stays p.outbox) rs
    → IsSound (publish_rows now rs f p).2
unfolding publish_rows
publish_rows-IsSound now [] f p s h = s
publish_rows-IsSound now ((id, row) ∷ rs) f p s h =
    behind_row now id row rs (publish_row now (id, row) f p) (publish_rows-IsSound now rs)
      (publish_row-Ready now id row rs f p (record { sound = s; stays = h.0; behind = h.1 }))

-- Every row of the table is found under its key: the key is primary.
abbrev pub IsKeyed : Publisher → Type 0
IsKeyed p = All (Stays p.outbox) p.outbox

select_pending-Stays : (t : Outbox) → All (Stays t) t → All (Stays t) (select_pending t)
select_pending-Stays t h = All-select_pending (Stays t) t h

abbrev Holds : Publisher → Type 0
Holds p = IsKeyed p × IsSound p

abbrev select_and_publish : ℕ → Exec Publisher (Unit {0})
select_and_publish now = query (λ p. (ok (select_pending p.outbox), p)) >>= publish_rows now

select_and_publish-IsSound :
    (now : ℕ) (f : Script) (p : Publisher) → Holds p → IsSound (select_and_publish now f p).2
select_and_publish-IsSound now [] p h =
    publish_rows-IsSound now (select_pending p.outbox) [] p h.1 (select_pending-Stays p.outbox h.0)
select_and_publish-IsSound now (delivered ∷ f) p h =
    publish_rows-IsSound now (select_pending p.outbox) f p h.1 (select_pending-Stays p.outbox h.0)
select_and_publish-IsSound now (lost ∷ f) p h = h.1
select_and_publish-IsSound now (reply_lost ∷ f) p h = h.1

pub either {ℓ κ} :
    {A : Type ℓ} (C : A → Type κ) (b : Bool) (x y : A) → C x → C y → C (if b then x else y)
either C true x y cx cy = cx
either C false x y cx cy = cy

ensure_producer-Holds : Keeps Holds ensure_producer
unfolding ensure_producer
ensure_producer-Holds = record {
  at = λ f p h.
      either {A = Result (Unit {0}) × Script × Publisher} (λ r. Holds r.2) p.producer_connected _ _
        h
        ((Keeps-call {A = Unit {0}} {P = Holds} kafka_failure
            (λ s. (ok tt, record s { producer_connected = true })) (λ s k. k)).at
          f p h);
}

behind_ensure :
    (now : ℕ) (r : Result (Unit {0}) × Script × Publisher)
    → Holds r.2
    → IsSound (((λ f p. r) >> select_and_publish now) r.1 r.2).2
behind_ensure now (ok a, f, p) h = select_and_publish-IsSound now f p h
behind_ensure now (err e, f, p) h = h.1

publish_pending-IsSound :
    (now : ℕ) (f : Script) (p : Publisher) → Holds p → IsSound (publish_pending now f p).2
unfolding publish_pending
publish_pending-IsSound now f p h =
    behind_ensure now (ensure_producer f p) (ensure_producer-Holds.at f p h)

-- The end of a round: every row that is marked as published is in Kafka, nothing was thrown, and
-- the flag is as `flag`.
pub record Round (flag : Bool) (r : Result (Unit {0}) × Script × Publisher) : Type 0 where
  pub sound : IsSound r.2
  pub returned : r.0 ≡ ok tt
  pub flag_restored : r.2.publishing ≡ flag

logged :
    (r : Result (Unit {0}) × Script × Publisher)
    → IsSound r.2
    → Round false (
        ((catch (λ f p. r) (λ e. pure tt)) >> local (λ s. record s { publishing = false })) r.1 r.2)
logged (ok a, f, p) h = record { sound = h; returned = refl; flag_restored = refl }
logged (err e, f, p) h = record { sound = h; returned = refl; flag_restored = refl }

-- `publishPendingOutboxEvents` never throws, leaves the flag `publishing` as it found it, and
-- marks a row as published only if Kafka has accepted its message, whatever calls fail: if before
-- the round the key of the table was primary and every row marked as published was in Kafka, then
-- the latter holds after it.
pub publish_pending_outbox_events-Round :
    (now : ℕ) (f : Script) (p : Publisher)
    → IsKeyed p
    → IsSound p
    → Round p.publishing (publish_pending_outbox_events now f p)
unfolding publish_pending_outbox_events
publish_pending_outbox_events-Round now f p k s = round p.publishing refl
  where
    round :
        (b : Bool)
        → p.publishing ≡ b
        → Round b (
            if b
            then (ok tt, f, p)
            else (do
              local (λ s. record s { publishing = true })
              catch (publish_pending now) (λ e. pure tt)
              local (λ s. record s { publishing = false }))
                f p)
    round true e = record { sound = s; returned = refl; flag_restored = e }
    round false e =
        logged (publish_pending now f (record p { publishing = true }))
          (publish_pending-IsSound now f (record p { publishing = true }) (k, s))
