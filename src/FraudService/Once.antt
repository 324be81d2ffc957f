-- ===== src/FraudService/Once.antt =====
-- services/fraud-service/src/consumer.ts: a message of bank.transfer.initiated that comes again.
use cn_banking_transaction_s.Base.{
  ℕ, ◌≡◌, refl, ap, Bool, true, false, Option, none, some, List, [], ◌∷◌, ◌++◌, arith, Bool-cases,
  inl, inr, if◌then◌else◌,
}
use cn_banking_transaction_s.Effect.{
  Script, delivered, lost, reply_lost, Result, ok, err, axios, Exec, pure, request, ◌>>=◌, Response,
  success, failure,
}
use cn_banking_transaction_s.Effect.Keeps.{
  Keeps, Keeps-pure, Keeps-throw, Keeps-call, Keeps-request, Keeps-bind,
}
use cn_banking_transaction_s.Types.{TransferInitiatedEvent, FraudAlertEvent, Fresh}
use cn_banking_transaction_s.AccountService.{AccountsDb}
use cn_banking_transaction_s.AccountService.Routes.{freeze_account}
use cn_banking_transaction_s.AccountService.Reads.{get_balance}
use cn_banking_transaction_s.AccountService.Owners.{no_caller}
use cn_banking_transaction_s.TransferService.{accept}
use cn_banking_transaction_s.FraudService.{
  Doubles, Activity, FraudWorld, RuleResult, build_alert_event,
}
use cn_banking_transaction_s.FraudService.Consumer.{
  is_seen, activity_of, insert_activity, persist_activity, on_accounts_of, get_account_balance,
  freeze, evaluate_rules, is_alerted, insert_alert, is_critical, emit_alert, persist_and_emit_alert,
  emit_all, if_inserted, process_fraud_event,
}

-- The activity of the event is stored.
abbrev Seen : ℕ → FraudWorld → Type 0
Seen id w = is_seen id w.activity ≡ true

is_seen-snoc :
    (id : ℕ) (as_ : List Activity) (a : Activity)
    → id ≡ a.event_id
    → is_seen id (as_ ++ a ∷ []) ≡ true
unfolding is_seen
is_seen-snoc id [] a h = ground arith
is_seen-snoc id (b ∷ rest) a h = ground (arith, is_seen-snoc id rest a)

inserted-Seen :
    (e : TransferInitiatedEvent) (w : FraudWorld) → Seen e.base.event_id (insert_activity e w).1
unfolding insert_activity
inserted-Seen e w = elim (Bool-cases (is_seen e.base.event_id w.activity)) [
  | inl seen ↦ rw seen seen
  | inr new ↦ rw new (is_seen-snoc e.base.event_id w.activity (activity_of e) refl)
]

insert_alert-Seen :
    (k : ℕ) (source : TransferInitiatedEvent) (alert : FraudAlertEvent) (w : FraudWorld)
    → Seen k w
    → Seen k (insert_alert source alert w).1
unfolding insert_alert
insert_alert-Seen k source alert w h =
    elim (Bool-cases (is_alerted alert.alert_id w.fraud_events)) [
      | inl old ↦ rw old h
      | inr new ↦ rw new h
    ]

module _ (k : ℕ) where
  on_accounts-Seen : {A : Type 0} (m : Exec AccountsDb A) → Keeps (Seen k) (on_accounts_of m)
  on_accounts-Seen m = record { at = λ f w h. h }

  accept-Seen : {A : Type 0} (r : Response A) → Keeps (Seen k) (accept r)
  accept-Seen (success c a) = Keeps-pure a
  accept-Seen (failure c x) = Keeps-throw _

  request-Seen :
      {A : Type 0} (m : Exec AccountsDb (Response A))
      → Keeps (Seen k) (request (axios none) (on_accounts_of m >>= accept))
  request-Seen m =
      Keeps-request (axios none) _ (Keeps-bind _ accept (on_accounts-Seen m) accept-Seen)

  freeze-Seen : (now id : ℕ) → Keeps (Seen k) (freeze now id)
  unfolding freeze
  freeze-Seen now id =
      Keeps-bind _ _ (request-Seen (freeze_account now (some id))) (λ a. Keeps-pure tt)

  get_account_balance-Seen :
      {N : Type 0} (num : Doubles N) (id : ℕ) → Keeps (Seen k) (get_account_balance num id)
  unfolding get_account_balance
  get_account_balance-Seen num id =
      Keeps-bind _ _ (request-Seen (get_balance no_caller (some id))) (λ b. Keeps-pure _)

  evaluate_rules-Seen :
      {N : Type 0} (num : Doubles N) (e : TransferInitiatedEvent)
      → Keeps (Seen k) (evaluate_rules num e)
  unfolding evaluate_rules
  evaluate_rules-Seen num e = Keeps-bind _ _ (Keeps-call _ _ (λ w h. h)) (λ count.
      Keeps-bind _ _ (Keeps-call _ _ (λ w h. h)) (λ outgoing.
        Keeps-bind _ _ (get_account_balance-Seen num e.from_account_id) (λ b. Keeps-pure _)))

  freeze_if-Seen : (b : Bool) (now id : ℕ) → Keeps (Seen k) (if b then freeze now id else pure tt)
  freeze_if-Seen true now id = freeze-Seen now id
  freeze_if-Seen false now id = Keeps-pure tt

  emit_alert-Seen :
      (now : ℕ) (alert : FraudAlertEvent) (inserted : Bool)
      → Keeps (Seen k) (emit_alert now alert inserted)
  unfolding emit_alert
  emit_alert-Seen now alert false = Keeps-pure tt
  emit_alert-Seen now alert true =
      Keeps-bind _ _ (Keeps-call _ _ (λ w h. h))
        (λ sent. freeze_if-Seen (is_critical alert.severity) now alert.from_account_id)

  module _ {N : Type 0} (num : Doubles N) (sha1 : List ℕ → List ℕ) (fresh : Fresh) where
    emit_all-Seen :
        (e : TransferInitiatedEvent) (rs : List RuleResult)
        → Keeps (Seen k) (emit_all sha1 fresh e rs)
    unfolding emit_all persist_and_emit_alert
    emit_all-Seen e [] = Keeps-pure tt
    emit_all-Seen e (r ∷ rs) =
        Keeps-bind _ _
          (Keeps-bind _ _
            (Keeps-call _ _ (insert_alert-Seen k e (build_alert_event sha1 fresh e r)))
            (emit_alert-Seen fresh.now (build_alert_event sha1 fresh e r)))
          (λ _. emit_all-Seen e rs)

    if_inserted-Seen :
        (e : TransferInitiatedEvent) (inserted : Bool)
        → Keeps (Seen k) (if_inserted num sha1 fresh e inserted)
    unfolding if_inserted
    if_inserted-Seen e false = Keeps-pure tt
    if_inserted-Seen e true =
        Keeps-bind _ (emit_all sha1 fresh e) (evaluate_rules-Seen num e) (emit_all-Seen e)

module _ {N : Type 0} (num : Doubles N) (sha1 : List ℕ → List ℕ) where
  again_skipped :
      (fresh : Fresh) (e : TransferInitiatedEvent) (f : Script) (w : FraudWorld)
      → Seen e.base.event_id w
      → (process_fraud_event num sha1 fresh (some e) f w).2 ≡ w
  unfolding process_fraud_event persist_activity if_inserted
  again_skipped fresh e f w h = go f
    where
      old : insert_activity e w ≡ (ok false, w)
      old = unfold insert_activity in rw h refl

      nothing :
          (f : Script)
          → (((λ g v. ((insert_activity e w).0, f, (insert_activity e w).1))
                >>= if_inserted num sha1 fresh e)
              f w).2
            ≡ w
      nothing f = ap (λ r. (((λ g v. (r.0, f, r.1)) >>= if_inserted num sha1 fresh e) f w).2) old

      go : (f : Script) → (process_fraud_event num sha1 fresh (some e) f w).2 ≡ w
      go [] = nothing []
      go (delivered ∷ f) = nothing f
      go (lost ∷ f) = refl
      go (reply_lost ∷ f) = ap (λ r. r.1) old

  behind_activity :
      (fresh : Fresh) (e : TransferInitiatedEvent) (f : Script) (r : Result Bool × FraudWorld)
      → Seen e.base.event_id r.1
      → Seen e.base.event_id (((λ g w. (r.0, f, r.1)) >>= if_inserted num sha1 fresh e) f r.1).2
  behind_activity fresh e f (ok inserted, w) h =
      (if_inserted-Seen e.base.event_id num sha1 fresh e inserted).at f w h
  behind_activity fresh e f (err x, w) h = h

  processed-Seen :
      (fresh : Fresh) (e : TransferInitiatedEvent) (f : Script) (w : FraudWorld)
      → (process_fraud_event num sha1 fresh (some e) f w).0 ≡ ok tt
      → Seen e.base.event_id (process_fraud_event num sha1 fresh (some e) f w).2
  unfolding process_fraud_event persist_activity
  processed-Seen fresh e [] w h =
      behind_activity fresh e [] (insert_activity e w) (inserted-Seen e w)
  processed-Seen fresh e (delivered ∷ f) w h =
      behind_activity fresh e f (insert_activity e w) (inserted-Seen e w)
  processed-Seen fresh e (lost ∷ f) w h = cc
  processed-Seen fresh e (reply_lost ∷ f) w h = cc

-- A message that was processed without an error may come again: the second time no alert is stored
-- or sent, no account is frozen and nothing else changes, whatever calls fail then.
pub process_fraud_event-again :
    {N : Type 0} (num : Doubles N) (sha1 : List ℕ → List ℕ) (fresh fresh' : Fresh)
    (o : Option TransferInitiatedEvent) (f f' : Script) (w : FraudWorld)
    → (process_fraud_event num sha1 fresh o f w).0 ≡ ok tt
    → (process_fraud_event num sha1 fresh' o f' (process_fraud_event num sha1 fresh o f w).2).2
      ≡ (process_fraud_event num sha1 fresh o f w).2
process_fraud_event-again num sha1 fresh fresh' none f f' w h = unfold process_fraud_event in cc
process_fraud_event-again num sha1 fresh fresh' (some e) f f' w h =
    again_skipped num sha1 fresh' e f' (process_fraud_event num sha1 fresh (some e) f w).2
      (processed-Seen num sha1 fresh e f w h)
