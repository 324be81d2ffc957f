-- ===== src/TransferService/Completes.antt =====
-- services/transfer-service/src/saga.ts: the run of `execute` in which every call is delivered.
use cn_banking_transaction_s.Base.{
  ℕ, ◌+◌, ◌<◌, ◌≤◌, ◌≡◌, ◌≢◌, refl, sym, ap, ◌∙◌, Bool, true, false, ◌||◌, Option, none, some, [],
  arith, leb, ◌==◌,
}
use cn_banking_transaction_s.Base.Table.{lookup, lookup-set_ne, lookup-insert_self}
use cn_banking_transaction_s.Effect.{throw, catch}
use cn_banking_transaction_s.Effect.Lives.{
  Returns, Returns-map, Replies, Lives, Lives-pure, Lives-call, Lives-bind, Lives-catch,
  Lives-transaction,
}
use cn_banking_transaction_s.Types.{
  Account, SagaState, Transfer, initiated, completed, debit, credit, transfer_completed,
  transfer_initiated,
}
use cn_banking_transaction_s.Money.{cents, positive_money}
use cn_banking_transaction_s.Outbox.{Outbox, enqueue_outbox_event}
use cn_banking_transaction_s.AccountService.{
  AccountsDb, numeric_limit, is_suspended, is_verified, may_debit,
}
use cn_banking_transaction_s.AccountService.Routes.{require_service_token}
use cn_banking_transaction_s.TransferService.{
  World, Config, Order, SagaFresh, service_header, new_transfer, insert_transfer,
  create_transfer_record, transfer_initiated_of, patch_debit, patch_credit,
}
use cn_banking_transaction_s.TransferService.Saga.{
  initial_saga_state, enter, set_debited, set_credited, completed_event_of, run_debit, run_credit,
  run_complete, or_not_persisted, run_steps, on_error, execute,
}
use cn_banking_transaction_s.TransferService.Patch.{positive_money-cents, with_accounts}
use cn_banking_transaction_s.TransferService.Phases.{
  Phase, Row, Lives-assign, Lives-update_saga_state, Lives-update_transfer_state,
}
use cn_banking_transaction_s.TransferService.Delivered.{
  debited_row, credited_row, with_row, patch_debit_returns, patch_credit_returns,
}

-- The accounts and the outbox as a run leaves them that has moved `n` from `a` to `b`.
abbrev pub moved_accounts : SagaFresh → Order → ℕ → Account → Account → AccountsDb → AccountsDb
moved_accounts fresh order n a b db =
    with_row order.to_account_id (credited_row fresh.credit_at n b)
      (with_row order.from_account_id (debited_row fresh.debit_at n a) db)

abbrev pub both_events : Config → SagaFresh → Order → Outbox → Outbox
both_events config fresh order out =
    let id = fresh.row.uuid in
    enqueue_outbox_event fresh.completed_row transfer_completed id
      (completed_event_of config fresh order id)
      (enqueue_outbox_event fresh.initiated_row transfer_initiated id
        (transfer_initiated_of fresh.initiated_event id order) out)

module _ (config : Config) (fresh : SagaFresh) (order : Order) (n : ℕ) (a b : Account)
    (base : World)
    (trusted : require_service_token config.account_secret (service_header config.transfer_secret)
      ≡ true)
    (money : positive_money (some order.amount) ≡ some n)
    (distinct : order.from_account_id ≢ order.to_account_id)
    (unused : lookup fresh.row.uuid base.transfers ≡ none)
    (source : lookup order.from_account_id base.accounts_db.accounts ≡ some a)
    (source_live : is_suspended a.status ≡ false)
    (source_verified : is_verified a.kyc_status ≡ true) (covered : n ≤ a.balance)
    (source_fits : a.balance < numeric_limit)
    (target : lookup order.to_account_id base.accounts_db.accounts ≡ some b)
    (target_live : is_suspended b.status ≡ false)
    (target_fits : b.balance + n < numeric_limit) where
  abbrev id : ℕ
  id = fresh.row.uuid

  abbrev db1 : AccountsDb
  db1 = with_row order.from_account_id (debited_row fresh.debit_at n a) base.accounts_db

  abbrev db2 : AccountsDb
  db2 = moved_accounts fresh order n a b base.accounts_db

  abbrev out1 : Outbox
  out1 =
      enqueue_outbox_event fresh.initiated_row transfer_initiated id
        (transfer_initiated_of fresh.initiated_event id order) base.outbox

  abbrev Started : World → Type 0
  Started w = w ≡ record base { saga_state = initial_saga_state }

  abbrev Initiated : Bool → Bool → AccountsDb → World → Type 0
  Initiated d c db = Phase order id initiated d c db out1

  amount_is : n ≡ cents order.amount
  amount_is = positive_money-cents order.amount n money

  pub n_positive : 0 < n
  unfolding positive_money
  n_positive = ground arith

  insert_written :
      (w : World)
      → Started w
      → Replies
          (λ i w. (i ≡ id) × Phase order id initiated false false base.accounts_db base.outbox w)
          (insert_transfer fresh.row order w)
  unfolding insert_transfer
  insert_written w e =
      let fits : leb numeric_limit (cents order.amount) ≡ false = ground (arith, amount_is) in
      let proper : (cents order.amount == 0) || order.from_account_id == order.to_account_id
          ≡ false =
        ground (arith, amount_is, n_positive) in
      rw (e, fits, proper, unused)
        (
          refl,
          record {
            stored = new_transfer fresh.row order initial_saga_state;
            found = lookup-insert_self id _ base.transfers unused;
            row = record {
              from_same = refl;
              to_same = refl;
              amount_same = refl;
              status_now = refl;
              message_now = refl;
            };
            debited_now = refl;
            credited_now = refl;
            accounts_now = refl;
            outbox_now = refl;
          },
        )

  Lives-create_transfer_record :
      Lives Started
        (create_transfer_record fresh order)
        (λ i w. (i ≡ id) × Initiated false false base.accounts_db w)
  unfolding create_transfer_record
  Lives-create_transfer_record = Lives-bind {Q = λ _. Started} _ _ (Lives-call _ _ (λ w h. h)) (λ _.
      Lives-transaction _ throw (
        Lives-bind _ _ (Lives-call _ (insert_transfer fresh.row order) insert_written) (λ i.
          Lives-bind {Q = λ _ w. (i ≡ id) × Initiated false false base.accounts_db w} _ _
            (Lives-call _ _ (λ w h. (
              h.0,
              rw (h.0) (record {
                stored = h.1.stored;
                found = h.1.found;
                row = h.1.row;
                debited_now = h.1.debited_now;
                credited_now = h.1.credited_now;
                accounts_now = h.1.accounts_now;
                outbox_now =
                    ap
                      (enqueue_outbox_event fresh.initiated_row transfer_initiated id
                        (transfer_initiated_of fresh.initiated_event id order))
                      h.1.outbox_now;
              }),
            )))
            (λ _. Lives-pure i (λ w h. h)))))

  -- The accounts after a call of the account service.
  moved_to :
      (d c : Bool) (db : AccountsDb) (i : ℕ) (x : Account) (w w' : World)
      → Initiated d c db w
      → w' ≡ with_accounts w (with_row i x w.accounts_db)
      → Initiated d c (with_row i x db) w'
  moved_to d c db i x w w' h e = rw e (record {
    stored = h.stored;
    found = h.found;
    row = h.row;
    debited_now = h.debited_now;
    credited_now = h.credited_now;
    accounts_now = ap (with_row i x) h.accounts_now;
    outbox_now = h.outbox_now;
  })

  assigned :
      (d c : Bool) (db : AccountsDb) (w : World) (change : SagaState → SagaState)
      → (change w.saga_state).debit_completed ≡ d
      → (change w.saga_state).credit_completed ≡ c
      → {d' c' : Bool} → Initiated d' c' db w
      → Initiated d c db (record w { saga_state = change w.saga_state })
  assigned d c db w change de ce h = record {
    stored = h.stored;
    found = h.found;
    row = h.row;
    debited_now = de;
    credited_now = ce;
    accounts_now = h.accounts_now;
    outbox_now = h.outbox_now;
  }

  Lives-patch_debit :
      Lives
        (Initiated false false base.accounts_db)
        (patch_debit config fresh.debit_at order.from_account_id order.amount)
        (λ _. Initiated false false db1)
  unfolding may_debit
  Lives-patch_debit = record {
    at = λ w h.
        let may : may_debit n a ≡ true = ground arith in
        Returns-map
          {Q = λ x w'.
            w'
            ≡ with_accounts w
                (with_row order.from_account_id (debited_row fresh.debit_at n a) w.accounts_db)}
          (patch_debit config fresh.debit_at order.from_account_id order.amount [] w)
          (λ x w' e.
            moved_to false false base.accounts_db order.from_account_id
              (debited_row fresh.debit_at n a) w w' h e)
          (patch_debit_returns config fresh.debit_at order.from_account_id n order.amount a w
            trusted money (rw (h.accounts_now) source) may (ground arith));
  }

  Lives-run_debit :
      Lives
        (Initiated false false base.accounts_db)
        (run_debit config fresh order id)
        (λ _. Initiated true false db1)
  unfolding run_debit
  Lives-run_debit =
      Lives-bind _ _
        (Lives-assign {Q = Initiated false false base.accounts_db} (enter debit)
          (λ w h. assigned _ _ _ w (enter debit) h.debited_now h.credited_now h))
        (λ _.
          Lives-bind _ _
            (Lives-update_saga_state order id false false base.accounts_db fresh.step_at initiated
              out1)
            (λ _. Lives-bind _ _ Lives-patch_debit (λ _.
              Lives-assign set_debited
                (λ w h. assigned _ _ _ w set_debited refl h.credited_now h))))

  target_untouched : lookup order.to_account_id db1.accounts ≡ some b
  target_untouched =
      lookup-set_ne order.to_account_id order.from_account_id _ base.accounts_db.accounts
        (λ e. distinct (sym e))
      ∙ target

  Lives-patch_credit :
      Lives
        (Initiated true false db1)
        (patch_credit config fresh.credit_at order.to_account_id order.amount)
        (λ _. Initiated true false db2)
  Lives-patch_credit = record {
    at = λ w h.
        Returns-map
          {Q = λ x w'.
            w'
            ≡ with_accounts w
                (with_row order.to_account_id (credited_row fresh.credit_at n b) w.accounts_db)}
          (patch_credit config fresh.credit_at order.to_account_id order.amount [] w)
          (λ x w' e.
            moved_to true false db1 order.to_account_id (credited_row fresh.credit_at n b) w w' h e)
          (patch_credit_returns config fresh.credit_at order.to_account_id n order.amount b w
            trusted money (rw (h.accounts_now) target_untouched) target_live (ground arith));
  }

  Lives-run_credit :
      Lives
        (Initiated true false db1)
        (run_credit config fresh order id)
        (λ _. Initiated true true db2)
  unfolding run_credit
  Lives-run_credit =
      Lives-bind _ _
        (Lives-assign {Q = Initiated true false db1} (enter credit)
          (λ w h. assigned _ _ _ w (enter credit) h.debited_now h.credited_now h))
        (λ _.
          Lives-bind _ _
            (Lives-update_saga_state order id true false db1 fresh.step_at initiated out1)
            (λ _. Lives-bind _ _ Lives-patch_credit (λ _.
              Lives-assign set_credited
                (λ w h. assigned _ _ _ w set_credited h.debited_now refl h))))

  abbrev pub Completed : Transfer → World → Type 0
  Completed t =
      Row order id true true db2 completed (both_events config fresh order base.outbox) (some t)

  Lives-run_complete :
      Lives (Initiated true true db2) (run_complete config fresh order id) Completed
  unfolding run_complete
  Lives-run_complete =
      Lives-bind _ _
        (Lives-update_transfer_state order id true true db2 fresh.completed_row fresh.end_at
          initiated completed (completed_event_of config fresh order id) out1)
        persisted
    where
      persisted :
          (o : Option Transfer)
          → Lives
              (Row order id true true db2 completed (both_events config fresh order base.outbox) o)
              (or_not_persisted config fresh order id o)
              Completed
      persisted none = record { at = λ w h. absurd h }
      persisted (some t) = Lives-pure t (λ w h. h)

  Lives-run_steps :
      Lives (Initiated false false base.accounts_db) (run_steps config fresh order id) Completed
  unfolding run_steps
  Lives-run_steps =
      Lives-bind _ _ (Lives-bind _ _ Lives-run_debit (λ _. Lives-run_credit))
        (λ _. Lives-run_complete)

  steps_under :
      (i : ℕ)
      → Lives
          (λ w. (i ≡ id) × Initiated false false base.accounts_db w)
          (catch (run_steps config fresh order i) (on_error config fresh order i))
          Completed
  steps_under i = record {
    at =
        λ w h. rw (h.0) ((Lives-catch _ (on_error config fresh order id) Lives-run_steps).at w h.1);
  }

  pub execute-Completed : Returns Completed (execute config fresh order [] base)
  unfolding execute
  execute-Completed =
      (Lives-bind _ _
          (Lives-assign {P = λ w. w ≡ base} {Q = Started} (λ s. initial_saga_state)
            (λ w h. rw h refl))
          (λ _. Lives-bind _ _ Lives-create_transfer_record steps_under)).at
        base refl
