-- ===== src/Outbox/Publisher/Sound.antt =====
-- shared/types/src/outbox.ts: a row is marked as published only if Kafka has its message.
use cn_banking_transaction_s.Base.{
  ℕ, ◌≡◌, refl, sym, ap, ◌∙◌, false, Option, none, some, List, [], ◌∷◌, ◌++◌, ◌==◌, arith,
  Bool-cases, inl, inr, ◌⊎◌, All,
}
use cn_banking_transaction_s.Base.Table.{lookup, lookup-set_self, lookup-set_ne}
use cn_banking_transaction_s.Effect.{delivered, lost, reply_lost, Script, Thrown, query, catch}
use cn_banking_transaction_s.Effect.Keeps.{Keeps, Keeps-call, Keeps-catch}
use cn_banking_transaction_s.Outbox.{OutboxRow, Outbox}
use cn_banking_transaction_s.Outbox.Publisher.{
  Sent, Publisher, message_of, send, published, refused, change_row, mark_published, mark_error,
  kafka_failure, publish_row, is_pending,
}

-- The message is in the list.
abbrev pub Within : Sent → List Sent → Type 0
Within m [] = ⊥
Within m (s ∷ rest) = (m ≡ s) ⊎ Within m rest

Within-old : (m : Sent) (ss ts : List Sent) → Within m ss → Within m (ss ++ ts)
Within-old m [] ts h = absurd h
Within-old m (s ∷ ss) ts (inl e) = inl e
Within-old m (s ∷ ss) ts (inr h) = inr (Within-old m ss ts h)

Within-new : (m : Sent) (ss : List Sent) → Within m (ss ++ m ∷ [])
Within-new m [] = inl refl
Within-new m (s ∷ ss) = inr (Within-new m ss)

-- Every row that is marked as published has its message in Kafka.
abbrev pub IsSound : Publisher → Type 0
IsSound p =
    (id : ℕ) (row : OutboxRow)
    → lookup id p.outbox ≡ some row
    → is_pending row ≡ false
    → Within (message_of row) p.sent

-- The table still has the row under its key, with the same message.
abbrev pub Stays : Outbox → ℕ × OutboxRow → Type 0
Stays t (id, row) =
    (now_ : OutboxRow) × (lookup id t ≡ some now_) × (message_of now_ ≡ message_of row)

some_inj : (x y : OutboxRow) → some x ≡ some y → x ≡ y
some_inj x y h = cc

module _ (change : OutboxRow → OutboxRow)
    (keep : (r : OutboxRow) → message_of (change r) ≡ message_of r) (id : ℕ) (t : Outbox) where
  change_row-Stays_at :
      (o : Option OutboxRow)
      → lookup id t ≡ o
      → (r : ℕ × OutboxRow) → Stays t r
      → Stays (change_row change id t o) r
  change_row-Stays_at none e r h = h
  change_row-Stays_at (some x) e (i, row) (y, f, m) = elim (Bool-cases (i == id)) [
    | inl self ↦
        let same : i ≡ id = ground arith in
        let one : x ≡ y = cc in
        (
          change x,
          rw same (lookup-set_self id (change x) x t e),
          keep x ∙ (ap (λ z. message_of z) one ∙ m),
        )
    | inr other ↦ (y, lookup-set_ne i id (change x) t (ground arith) ∙ f, m)
  ]

  pub change_row-Stays :
      (r : ℕ × OutboxRow) → Stays t r → Stays (change_row change id t (lookup id t)) r
  change_row-Stays r h = change_row-Stays_at (lookup id t) refl r h

  change_row-IsSound_at :
      (p : Publisher)
      → p.outbox ≡ t
      → IsSound p
      → (o : Option OutboxRow) → lookup id t ≡ o
      → ((x : OutboxRow)
          → lookup id t ≡ some x
          → is_pending (change x) ≡ false
          → Within (message_of x) p.sent)
      → IsSound (record p { outbox = change_row change id t o })
  change_row-IsSound_at p same sound none e ready i row f m = sound i row (rw same f) m
  change_row-IsSound_at p same sound (some x) e ready i row f m = elim (Bool-cases (i == id)) [
    | inl self ↦
        let here : i ≡ id = ground arith in
        let one : change x ≡ row =
          some_inj _ _ (sym (lookup-set_self id (change x) x t e) ∙ (rw here at f)) in
        rw (sym one, keep x) (ready x e (rw one m))
    | inr other ↦ sound i row (rw same (sym (lookup-set_ne i id (change x) t (ground arith)) ∙ f)) m
  ]

pub All-change :
    (change : OutboxRow → OutboxRow)
    → ((r : OutboxRow) → message_of (change r) ≡ message_of r)
    → (id : ℕ) (t : Outbox) (rs : Outbox) → All (Stays t) rs
    → All (Stays (change_row change id t (lookup id t))) rs
All-change change keep id t [] h = tt
All-change change keep id t (r ∷ rs) h =
    (change_row-Stays change keep id t r h.0, All-change change keep id t rs h.1)

module _ (now id : ℕ) (row : OutboxRow) (rs : Outbox) where
  -- Before the body of the loop: the row and the rows behind it are in the table.
  pub record Ready (p : Publisher) : Type 0 where
    pub sound : IsSound p
    pub stays : Stays p.outbox (id, row)
    pub behind : All (Stays p.outbox) rs

  abbrev SentReady : Publisher → Type 0
  SentReady p = Ready p × Within (message_of row) p.sent

  send-SentReady : (p : Publisher) → Ready p → SentReady (send row p).1
  send-SentReady p h = (
    record {
      sound = λ i r f m. Within-old (message_of r) p.sent _ (h.sound i r f m);
      stays = h.stays;
      behind = h.behind;
    },
    Within-new (message_of row) p.sent,
  )

  mark_published-SentReady : (p : Publisher) → SentReady p → SentReady (mark_published now id p).1
  mark_published-SentReady p (h, w) = (
    record {
      sound =
          change_row-IsSound_at (published now) (λ r. refl) id p.outbox p refl h.sound
            (lookup id p.outbox) refl
            (λ x e m.
              let (y, f, same) = h.stays in
              let one : x ≡ y = some_inj x y (sym e ∙ f) in rw (one, same) w);
      stays = change_row-Stays (published now) (λ r. refl) id p.outbox (id, row) h.stays;
      behind = All-change (published now) (λ r. refl) id p.outbox rs h.behind;
    },
    w,
  )

  mark_error-Ready : (e : Thrown) (p : Publisher) → Ready p → Ready (mark_error e id p).1
  mark_error-Ready e p h = record {
    sound =
        change_row-IsSound_at (refused e) (λ r. refl) id p.outbox p refl h.sound
          (lookup id p.outbox) refl (λ x f m. h.sound id x f m);
    stays = change_row-Stays (refused e) (λ r. refl) id p.outbox (id, row) h.stays;
    behind = All-change (refused e) (λ r. refl) id p.outbox rs h.behind;
  }

  handler-Ready : (e : Thrown) → Keeps Ready (query (mark_error e id))
  handler-Ready e = Keeps-call _ (mark_error e id) (mark_error-Ready e)

  marked-SentReady :
      Keeps SentReady (catch (query (mark_published now id)) (λ e. query (mark_error e id)))
  marked-SentReady =
      Keeps-catch _ (λ e. query (mark_error e id))
        (Keeps-call _ (mark_published now id) mark_published-SentReady)
        (λ e. Keeps-call _ (mark_error e id) (λ p h. (mark_error-Ready e p h.0, h.1)))

  pub publish_row-Ready :
      (f : Script) (p : Publisher) → Ready p → Ready (publish_row now (id, row) f p).2
  unfolding publish_row
  publish_row-Ready [] p h = (marked-SentReady.at [] (send row p).1 (send-SentReady p h)).0
  publish_row-Ready (delivered ∷ f) p h =
      (marked-SentReady.at f (send row p).1 (send-SentReady p h)).0
  publish_row-Ready (lost ∷ f) p h = (handler-Ready kafka_failure).at f p h
  publish_row-Ready (reply_lost ∷ f) p h =
      (handler-Ready kafka_failure).at f (send row p).1 (send-SentReady p h).0
