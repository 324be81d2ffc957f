-- ===== src/TransferService/Accounting/Recovery.antt =====
-- The handler of the saga, and the whole run: whatever calls fail, the flags account for the money.
use cn_banking_transaction_s.Base.{
  ℕ, ◌≡◌, refl, Bool, true, false, none, some, inl, inr, Bool-cases, leb, ◌==◌, ◌||◌, if◌then◌else◌,
}
use cn_banking_transaction_s.Base.Table.{lookup}
use cn_banking_transaction_s.Effect.{
  Script, keeps_replies, Thrown, Message, both_failed, reported, throw, catch,
}
use cn_banking_transaction_s.Effect.Runs.{
  Ends, Gives, Runs, Runs-pure, Runs-throw, Runs-call, Runs-bind, Runs-catch, Runs-transaction,
  Runs-weaken,
}
use cn_banking_transaction_s.Types.{Fresh, compensation, failed, compensating, compensation_failed}
use cn_banking_transaction_s.Money.{cents}
use cn_banking_transaction_s.AccountService.{AccountsDb, numeric_limit}
use cn_banking_transaction_s.TransferService.{
  row_taken, World, Config, Order, SagaFresh, create_transfer_record, insert_transfer,
}
use cn_banking_transaction_s.TransferService.Saga.{
  initial_saga_state, enter, set_compensated, set_error, original_error_message, build_failed_event,
  refund, refund_failed, compensate, fail, fail_or_compensate, on_error, run_steps, execute,
}
use cn_banking_transaction_s.TransferService.Moved.{Moved-none, Moved-refund}
use cn_banking_transaction_s.TransferService.Patch.{Runs-patch_credit}
use cn_banking_transaction_s.TransferService.Accounting.{
  Stage, At, Accounted, Stage-fields, Stage-same, Runs-assign, Runs-update_transfer_state,
  Runs-run_steps, Stopped,
}

if-true {ℓ} :
    {A : Type ℓ} (C : A → Type ℓ) (b : Bool) (x y : A) → b ≡ true → C x → C (if b then x else y)
if-true C b x y e c = rw e c

if-false {ℓ} :
    {A : Type ℓ} (C : A → Type ℓ) (b : Bool) (x y : A) → b ≡ false → C y → C (if b then x else y)
if-false C b x y e c = rw e c

module _ (config : Config) (fresh : SagaFresh) (order : Order) (id : ℕ) (base : AccountsDb) where
  abbrev AtStage : Bool → Bool → Bool → World → Type 0
  AtStage = At order base

  accounted : (d c r : Bool) (w : World) → AtStage d c r w → Accounted order base w
  accounted d c r w h = record { d = d; c = c; r = r; stage = h }

  -- The handler enters with the flags of the debit and the credit.
  module _ (c : Bool) where
    abbrev RefundedOrNot : World → Type 0
    RefundedOrNot w = (r : Bool) × AtStage true c r w

    Runs-refund :
        (message : Message)
        → Runs
            (AtStage true c false)
            (refund config fresh order id message)
            (λ _. RefundedOrNot)
            RefundedOrNot
    unfolding refund
    Runs-refund message =
        Runs-bind _ _
          (Runs-weaken _
            (Runs-patch_credit config fresh.refund_at order.from_account_id order.amount
              (AtStage true c false) (Stage order base true c false true c true)
              (λ w db a h e.
                Stage-fields h.debited h.credited h.compensated
                  (Moved-refund _ _ _ true c base w.accounts_db db a e h.moved)))
            (λ w h. h) (λ a w h. h) (λ w h. (false, h)))
          (λ _.
            Runs-bind _ _
              (Runs-assign set_compensated (λ w h. Stage-fields h.debited h.credited refl h.moved))
              (λ _.
                Runs-bind _ _
                  (Runs-weaken _
                    (Runs-update_transfer_state order base true c true fresh.failed_row fresh.end_at
                      id failed (some message)
                      (some (build_failed_event config fresh order id message)))
                    (λ w h. h) (λ a w h. (true, h)) (λ w h. (true, h)))
                  (λ _. Runs-pure tt (λ w h. h))))

    refund_failed_at :
        (message : Message) (e : Thrown) (r : Bool)
        → Runs
            (AtStage true c r)
            (refund_failed config fresh order id message e)
            (λ _. RefundedOrNot)
            RefundedOrNot
    unfolding refund_failed
    refund_failed_at message e r =
        Runs-bind _ _
          (Runs-assign (set_error (both_failed message (reported e)))
            (λ w h. Stage-fields h.debited h.credited h.compensated h.moved))
          (λ _.
            Runs-bind _ _
              (Runs-weaken _
                (Runs-update_transfer_state order base true c r fresh.failed_row fresh.end_at id
                  compensation_failed (some (both_failed message (reported e)))
                  (some
                    (build_failed_event config fresh order id (both_failed message (reported e)))))
                (λ w h. h) (λ a w h. (r, h)) (λ w h. (r, h)))
              (λ _. Runs-pure tt (λ w h. h)))

    Runs-refund_failed :
        (message : Message) (e : Thrown)
        → Runs RefundedOrNot
            (refund_failed config fresh order id message e)
            (λ _. RefundedOrNot)
            RefundedOrNot
    Runs-refund_failed message e = record {
      at = λ f w k p. (refund_failed_at message e p.0).at f w k p.1;
    }

    Runs-compensate :
        (e : Thrown)
        → Runs (AtStage true c false) (compensate config fresh order id e) (λ _ _. ⊥) RefundedOrNot
    unfolding compensate
    Runs-compensate e =
        Runs-bind _ _
          (Runs-assign (enter compensation)
            (λ w h. Stage-fields h.debited h.credited h.compensated h.moved))
          (λ _.
            Runs-bind _ _
              (Runs-weaken _
                (Runs-update_transfer_state order base true c false fresh.failed_row fresh.step_at
                  id compensating (some (original_error_message e)) none)
                (λ w h. h) (λ a w h. h) (λ w h. (false, h)))
              (λ _.
                Runs-bind _ _
                  (Runs-catch _ _ (Runs-refund (original_error_message e))
                    (Runs-refund_failed (original_error_message e)))
                  (λ _. Runs-throw e (λ w h. h))))

  Runs-fail :
      (e : Thrown)
      → Runs
          (AtStage false false false)
          (fail config fresh order id e)
          (λ _ _. ⊥)
          (AtStage false false false)
  unfolding fail
  Runs-fail e =
      Runs-bind _ _
        (Runs-update_transfer_state order base false false false fresh.failed_row fresh.end_at id
          failed (some (original_error_message e))
          (some (build_failed_event config fresh order id (original_error_message e))))
        (λ _. Runs-throw e (λ w h. h))

  -- `catch (error)`: it compensates exactly if the debit was made, and never returns a transfer.
  on_error_ends :
      (e : Thrown) (f : Script) (w : World)
      → keeps_replies f ≡ true
      → Stopped config fresh order id base w
      → Ends (λ _ _. ⊥) (Accounted order base) (fail_or_compensate config fresh order id e f w)
  on_error_ends e f w k (inl h) =
      if-false (Ends (λ _ _. ⊥) (Accounted order base)) _ _ _ h.debited (
        (Runs-weaken _ (Runs-fail e) (λ w h. h) (λ a w h. h) (accounted false false false)).at f w k
          h)
  on_error_ends e f w k (inr (c, h)) =
      if-true (Ends (λ _ _. ⊥) (Accounted order base)) _ _ _ h.debited (
        (Runs-weaken _ (Runs-compensate c e) (λ w h. h) (λ a w h. h)
            (λ w h. accounted true c h.0 w h.1)).at
          f w k h)

  relabel :
      (e : Thrown) (w : World)
      → Stopped config fresh order id base w
      → Stopped config fresh order id base
          (record w { saga_state = set_error (original_error_message e) w.saga_state })
  relabel e w (inl h) = inl (Stage-fields h.debited h.credited h.compensated h.moved)
  relabel e w (inr (c, h)) = inr (c, Stage-fields h.debited h.credited h.compensated h.moved)

  Runs-on_error :
      (e : Thrown)
      → Runs
          (Stopped config fresh order id base)
          (on_error config fresh order id e)
          (λ _ _. ⊥)
          (Accounted order base)
  unfolding on_error
  Runs-on_error e =
      Runs-bind _ _ (Runs-assign (set_error (original_error_message e)) (relabel e))
        (λ _. record { at = on_error_ends e })

  Runs-steps :
      Runs
        (AtStage false false false)
        (catch (run_steps config fresh order id) (on_error config fresh order id))
        (λ _. AtStage true true false)
        (Accounted order base)
  Runs-steps =
      Runs-catch _ _ (Runs-run_steps config fresh order id base)
        (λ e. Runs-weaken _ (Runs-on_error e) (λ w h. h) (λ a w h. absurd h) (λ w h. h))

module _ (order : Order) (base : AccountsDb) where
  insert_transfer-At :
      (fresh : Fresh) (w : World)
      → At order base false false false w
      → Gives
          (λ _. At order base false false false)
          (At order base false false false)
          (insert_transfer fresh order w)
  unfolding insert_transfer
  insert_transfer-At fresh w h = elim (Bool-cases (leb numeric_limit (cents order.amount))) [
    | inl over ↦ rw over h
    | inr fits ↦
        elim (Bool-cases
          ((cents order.amount == 0) || order.from_account_id == order.to_account_id)) [
            | inl refused ↦ rw (fits, refused) h
            | inr valid ↦ elim (Bool-cases (row_taken (lookup fresh.uuid w.transfers))) [
              | inl taken ↦ rw (fits, valid, taken) h
              | inr new ↦ rw (fits, valid, new) (Stage-same order base w _ refl refl h)
            ]
          ]
  ]

  Runs-create_transfer_record :
      (fresh : SagaFresh)
      → Runs
          (At order base false false false)
          (create_transfer_record fresh order)
          (λ _. At order base false false false)
          (At order base false false false)
  unfolding create_transfer_record
  Runs-create_transfer_record fresh = Runs-bind _ _ (Runs-call _ _ (λ w h. h) (λ w h. h)) (λ _.
      Runs-transaction _ throw
        (Runs-bind _ _ (Runs-call _ _ (insert_transfer-At fresh.row) (λ w h. h)) (λ id.
          Runs-bind _ _ (Runs-call _ _ (λ w h. Stage-same order base w _ refl refl h) (λ w h. h))
            (λ _. Runs-pure id (λ w h. h))))
        (λ e. Runs-throw e (λ w h. h)) (λ w h. h) (λ w h. h))

-- Where no reply is lost, `execute` returns a transfer only if it has moved the amount from the
-- source to the destination, once and with nothing else moved. If it throws, the flags
-- `debit_completed`, `credit_completed` and `compensation_completed` say exactly which of the
-- debit, the credit and the refund of the amount have been made: every account and the total
-- differ from the start by these, and by nothing else. No later reply is lost either.
pub execute-Accounted :
    (config : Config) (fresh : SagaFresh) (order : Order) (f : Script) (w : World)
    → keeps_replies f ≡ true
    → Ends
        (λ _. At order w.accounts_db true true false)
        (Accounted order w.accounts_db)
        (execute config fresh order f w)
unfolding execute
execute-Accounted config fresh order f w k = run.at f w k refl
  where
    base : AccountsDb
    base = w.accounts_db

    start :
        (w' : World)
        → w'.accounts_db ≡ base
        → At order base false false false (record w' { saga_state = initial_saga_state })
    start w' e =
        Stage-fields refl refl refl
          (rw e (Moved-none order.from_account_id order.to_account_id (cents order.amount) base))

    run :
        Runs
          (λ w'. w'.accounts_db ≡ base)
          (execute config fresh order)
          (λ _. At order base true true false)
          (Accounted order base)
    run = Runs-bind _ _ (Runs-assign (λ s. initial_saga_state) start) (λ _.
        Runs-bind _ _
          (Runs-weaken _ (Runs-create_transfer_record order base fresh) (λ w h. h) (λ a w h. h)
            (λ w h. record { d = false; c = false; r = false; stage = h }))
          (λ id. Runs-steps config fresh order id base))
