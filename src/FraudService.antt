-- ===== src/FraudService.antt =====
-- services/fraud-service/src/rules.ts and consumer.ts: the rules, and the consumer of the event
-- transfer.initiated. Amounts are in cents; the rules compare JavaScript numbers, a parameter.
pub mod Consumer
pub mod Once
pub mod Owned
pub mod Alerts
use cn_banking_transaction_s.Base.{
  ℕ, ◌+◌, ◌*◌, ◌%◌, Bool, true, false, ◌&&◌, ◌||◌, String, Option, none, some, List, [], ◌∷◌, ◌++◌,
  ltb, leb, ◌==◌, if◌then◌else◌,
}
use cn_banking_transaction_s.Types.{
  RuleName, large_transfer, velocity_check, round_number, rapid_drain, FraudSeverity, low, medium,
  high, critical, TransferInitiatedEvent, FraudAlertEvent, Fresh, build_base_event, fraud_alert,
}
use cn_banking_transaction_s.Events.{create_deterministic_uuid, uuid_string, codes}
use cn_banking_transaction_s.AccountService.{AccountsDb}

pub record RuleResult : Type 0 where
  pub rule_triggered : RuleName
  pub severity : FraudSeverity

-- The JavaScript numbers, with what the rules use of them: `Number` of an amount's text, the numbers
-- that are written in the code, `+`, `*`, `%`, and the comparisons. They round, so that no law is
-- taken for granted.
pub record Doubles (N : Type 0) : Type 0 where
  pub of_cents : ℕ → N
  pub literal : ℕ → N
  pub four_fifths : N
  pub plus : N → N → N
  pub times : N → N → N
  pub remainder : N → N → N
  pub greater : N → N → Bool
  pub greater_equal : N → N → Bool
  pub strictly_equal : N → N → Bool

-- recentTransferCount > 5
unfoldable pub evaluate_velocity_check : ℕ → Option RuleResult
evaluate_velocity_check recent_transfer_count =
    if ltb 5 recent_transfer_count
    then some (record { rule_triggered = velocity_check; severity = medium })
    else none

module _ {N : Type 0} (num : Doubles N) where
  -- amount > 10000
  unfoldable pub evaluate_large_transfer : N → Option RuleResult
  evaluate_large_transfer amount =
      if num.greater amount (num.literal 10_000)
      then some (record { rule_triggered = large_transfer; severity = high })
      else none

  -- amount >= 1000 && amount % 1000 === 0
  unfoldable pub evaluate_round_number : N → Option RuleResult
  evaluate_round_number amount =
      if num.greater_equal amount (num.literal 1_000)
        && num.strictly_equal (num.remainder amount (num.literal 1_000)) (num.literal 0)
      then some (record { rule_triggered = round_number; severity = low })
      else none

  -- currentBalance > 0 && recentOutgoingTotal > currentBalance * 0.8
  unfoldable pub evaluate_rapid_drain : N → N → Option RuleResult
  evaluate_rapid_drain recent_outgoing_total current_balance =
      if num.greater current_balance (num.literal 0)
        && num.greater recent_outgoing_total (num.times current_balance num.four_fifths)
      then some (record { rule_triggered = rapid_drain; severity = critical })
      else none

-- A document of `transfer_activity`.
pub record Activity : Type 0 where
  pub event_id : ℕ
  pub transfer_id : ℕ
  pub from_account_id : ℕ
  pub amount : ℕ
  pub timestamp : ℕ

-- A document of `fraud_events`.
pub record FraudEvent : Type 0 where
  pub alert_id : List ℕ
  pub source_event_id : ℕ
  pub transfer_id : ℕ
  pub from_account_id : ℕ
  pub amount : ℕ
  pub rule_triggered : RuleName
  pub severity : FraudSeverity
  pub created_at : ℕ

-- The two collections, the alerts that Kafka has accepted, and the account service's database.
pub record FraudWorld : Type 0 where
  pub activity : List Activity
  pub fraud_events : List FraudEvent
  pub sent : List FraudAlertEvent
  pub accounts_db : AccountsDb

abbrev pub hour : ℕ
hour = 3_600_000

abbrev pub ten_minutes : ℕ
ten_minutes = 600_000

-- { fromAccountId: accountId, timestamp: { $gte: now - window } }
abbrev pub is_recent : ℕ → ℕ → ℕ → Activity → Bool
is_recent window now account a = account == a.from_account_id && leb now (a.timestamp + window)

-- `getRecentTransferCount`
unfoldable pub recent_transfer_count : ℕ → ℕ → List Activity → ℕ
recent_transfer_count now account [] = 0
recent_transfer_count now account (a ∷ as_) =
    let rest = recent_transfer_count now account as_ in
    if is_recent hour now account a then rest + 1 else rest

-- `getRecentOutgoingTotal`: the `reduce` of `+` from 0, over the documents in their order.
module _ {N : Type 0} (num : Doubles N) where
  unfoldable pub sum_outgoing : ℕ → ℕ → N → List Activity → N
  sum_outgoing now account sum [] = sum
  sum_outgoing now account sum (a ∷ as_) =
      sum_outgoing now account
        (if is_recent ten_minutes now account a then num.plus sum (num.of_cents a.amount) else sum)
        as_

  unfoldable pub recent_outgoing_total : ℕ → ℕ → List Activity → N
  unfolding sum_outgoing
  recent_outgoing_total now account as_ = sum_outgoing now account (num.literal 0) as_

-- .filter((result) => result !== null)
abbrev pub triggered : List (Option RuleResult) → List RuleResult
triggered [] = []
triggered (none ∷ rs) = triggered rs
triggered (some r ∷ rs) = r ∷ triggered rs

-- The rules of `evaluateRules`, on what its reads gave.
unfoldable pub apply_rules : {N : Type 0} → Doubles N → N → ℕ → N → N → List RuleResult
unfolding evaluate_large_transfer evaluate_velocity_check evaluate_round_number evaluate_rapid_drain
apply_rules num amount count outgoing balance = triggered (
    evaluate_large_transfer num amount
    ∷ evaluate_velocity_check count
    ∷ evaluate_round_number num amount
    ∷ evaluate_rapid_drain num outgoing balance
    ∷ [])

abbrev pub rule_name : RuleName → String
rule_name large_transfer = "large_transfer"
rule_name velocity_check = "velocity_check"
rule_name round_number = "round_number"
rule_name rapid_drain = "rapid_drain"

-- `buildAlertEvent`, with the id of `${event.eventId}:${result.ruleTriggered}`.
abbrev pub build_alert_event :
    (List ℕ → List ℕ) → Fresh → TransferInitiatedEvent → RuleResult → FraudAlertEvent
build_alert_event sha1 fresh event result = record {
  base = build_base_event fresh fraud_alert;
  alert_id =
      create_deterministic_uuid sha1
        (uuid_string event.base.event_id ++ (b':' ∷ codes (rule_name result.rule_triggered)));
  transfer_id = event.transfer_id;
  from_account_id = event.from_account_id;
  amount = event.amount;
  rule_triggered = result.rule_triggered;
  severity = result.severity;
}
