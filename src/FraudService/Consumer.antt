-- ===== src/FraudService/Consumer.antt =====
-- services/fraud-service/src/consumer.ts: `processFraudEvent` and what it calls.
use cn_banking_transaction_s.Base.{
  ℕ, Bool, true, false, ◌||◌, Option, none, some, List, [], ◌∷◌, ◌++◌, ◌==◌, if◌then◌else◌,
}
use cn_banking_transaction_s.Effect.{
  Thrown, axios, plain, not_created, Result, ok, Exec, pure, throw, call, query, request, ◌>>=◌,
  ◌>>◌,
}
use cn_banking_transaction_s.Types.{
  FraudSeverity, critical, TransferInitiatedEvent, FraudAlertEvent, Fresh,
}
use cn_banking_transaction_s.LedgerService.{same_text}
use cn_banking_transaction_s.AccountService.{AccountsDb}
use cn_banking_transaction_s.AccountService.Routes.{freeze_account}
use cn_banking_transaction_s.AccountService.Reads.{get_balance}
use cn_banking_transaction_s.AccountService.Owners.{no_caller}
use cn_banking_transaction_s.TransferService.{accept}
use cn_banking_transaction_s.FraudService.{
  Doubles, RuleResult, Activity, FraudEvent, FraudWorld, recent_transfer_count,
  recent_outgoing_total, apply_rules, build_alert_event,
}

-- The unique index on `eventId`.
unfoldable pub is_seen : ℕ → List Activity → Bool
is_seen id [] = false
is_seen id (a ∷ rest) = id == a.event_id || is_seen id rest

abbrev pub activity_of : TransferInitiatedEvent → Activity
activity_of e = record {
  event_id = e.base.event_id;
  transfer_id = e.transfer_id;
  from_account_id = e.from_account_id;
  amount = e.amount;
  timestamp = e.base.timestamp;
}

-- insertOne into `transfer_activity`, where a duplicate key is answered by `false`.
unfoldable pub insert_activity : TransferInitiatedEvent → FraudWorld → Result Bool × FraudWorld
unfolding is_seen
insert_activity e w =
    if is_seen e.base.event_id w.activity
    then (ok false, w)
    else (ok true, record w { activity = w.activity ++ activity_of e ∷ [] })

-- `persistActivity`
unfoldable pub persist_activity : TransferInitiatedEvent → Exec FraudWorld Bool
unfolding insert_activity
persist_activity e = query (insert_activity e)

abbrev pub on_accounts_of : {A : Type 0} → Exec AccountsDb A → Exec FraudWorld A
on_accounts_of m f w = let (r, f', db) = m f w.accounts_db in (r, f', record w { accounts_db = db })

-- `getAccountBalance`
unfoldable pub get_account_balance : {N : Type 0} → Doubles N → ℕ → Exec FraudWorld N
get_account_balance num id = do
  balance ← request (axios none) (on_accounts_of (get_balance no_caller (some id)) >>= accept)
  pure (num.of_cents balance.balance)

-- `freezeAccount`
unfoldable pub freeze : ℕ → ℕ → Exec FraudWorld (Unit {0})
freeze now id = do
  request (axios none) (on_accounts_of (freeze_account now (some id)) >>= accept)
  pure tt

-- `evaluateRules`: the three reads, then the rules.
unfoldable pub evaluate_rules :
    {N : Type 0} → Doubles N → TransferInitiatedEvent → Exec FraudWorld (List RuleResult)
unfolding get_account_balance
evaluate_rules num e = do
  count ← query (λ w. (ok (recent_transfer_count e.base.timestamp e.from_account_id w.activity), w))
  outgoing ←
      query (λ w. (ok (recent_outgoing_total num e.base.timestamp e.from_account_id w.activity), w))
  balance ← get_account_balance num e.from_account_id
  pure (apply_rules num (num.of_cents e.amount) count outgoing balance)

-- The unique index on `alertId`.
unfoldable pub is_alerted : List ℕ → List FraudEvent → Bool
is_alerted id [] = false
is_alerted id (e ∷ rest) = same_text id e.alert_id || is_alerted id rest

abbrev pub fraud_event_of : TransferInitiatedEvent → FraudAlertEvent → FraudEvent
fraud_event_of source alert = record {
  alert_id = alert.alert_id;
  source_event_id = source.base.event_id;
  transfer_id = alert.transfer_id;
  from_account_id = alert.from_account_id;
  amount = alert.amount;
  rule_triggered = alert.rule_triggered;
  severity = alert.severity;
  created_at = alert.base.timestamp;
}

-- insertOne into `fraud_events`, where a duplicate key is answered by `false`.
unfoldable pub insert_alert :
    TransferInitiatedEvent → FraudAlertEvent → FraudWorld → Result Bool × FraudWorld
unfolding is_alerted
insert_alert source alert w =
    if is_alerted alert.alert_id w.fraud_events
    then (ok false, w)
    else (ok true, record w { fraud_events = w.fraud_events ++ fraud_event_of source alert ∷ [] })

abbrev pub is_critical : FraudSeverity → Bool
is_critical critical = true
is_critical _ = false

-- The error of a call of Kafka.
abbrev pub kafka_failure : Thrown
kafka_failure = plain not_created

-- Behind the insertion of an alert: it is sent, and a critical one freezes the account.
unfoldable pub emit_alert : ℕ → FraudAlertEvent → Bool → Exec FraudWorld (Unit {0})
unfolding freeze
emit_alert now alert false = pure tt
emit_alert now alert true = do
  call kafka_failure (λ w. (ok tt, record w { sent = w.sent ++ alert ∷ [] }))
  if is_critical alert.severity then freeze now alert.from_account_id else pure tt

-- `persistAndEmitAlert`
unfoldable pub persist_and_emit_alert :
    ℕ → TransferInitiatedEvent → FraudAlertEvent → Exec FraudWorld (Unit {0})
unfolding insert_alert emit_alert
persist_and_emit_alert now source alert = query (insert_alert source alert) >>= emit_alert now alert

module _ (sha1 : List ℕ → List ℕ) (fresh : Fresh) where
  unfoldable pub emit_all : TransferInitiatedEvent → List RuleResult → Exec FraudWorld (Unit {0})
  unfolding persist_and_emit_alert
  emit_all e [] = pure tt
  emit_all e (r ∷ rs) =
      persist_and_emit_alert fresh.now e (build_alert_event sha1 fresh e r) >> emit_all e rs

module _ {N : Type 0} (num : Doubles N) (sha1 : List ℕ → List ℕ) (fresh : Fresh) where
  unfoldable pub if_inserted : TransferInitiatedEvent → Bool → Exec FraudWorld (Unit {0})
  unfolding evaluate_rules emit_all
  if_inserted e false = pure tt
  if_inserted e true = evaluate_rules num e >>= emit_all sha1 fresh e

  -- `processFraudEvent`, where `none` is a payload that the schema refuses.
  unfoldable pub process_fraud_event : Option TransferInitiatedEvent → Exec FraudWorld (Unit {0})
  unfolding persist_activity if_inserted
  process_fraud_event none = throw (plain not_created)
  process_fraud_event (some e) = persist_activity e >>= if_inserted e
