-- ===== src/Types.antt =====
-- The enums and the stored records of shared/types/src/index.ts and shared/types/src/events.ts.
-- A UUID is the 128-bit number that it stands for, an amount of money is in cents, a time is in
-- milliseconds.
use cn_banking_transaction_s.Base.{ℕ, Bool, String, Option, List}
use cn_banking_transaction_s.Effect.{Message}

pub data AccountKycStatus : Type 0 where
  pending verified rejected : AccountKycStatus

pub data AccountStatus : Type 0 where
  active inactive suspended : AccountStatus

pub data TransferStatus : Type 0 where
  initiated completed failed compensating compensation_failed : TransferStatus

pub data SagaStep : Type 0 where
  create debit credit compensation completed_step : SagaStep

pub record Account : Type 0 where
  pub id : ℕ
  pub owner_id : Option ℕ
  pub name : String
  pub email : String
  pub balance : ℕ
  pub kyc_status : AccountKycStatus
  pub status : AccountStatus
  pub created_at : ℕ
  pub updated_at : ℕ

pub record SagaState : Type 0 where
  pub current_step : SagaStep
  pub debit_completed : Bool
  pub credit_completed : Bool
  pub compensation_completed : Bool
  pub error : Option Message

pub record Transfer : Type 0 where
  pub id : ℕ
  pub from_account_id : ℕ
  pub to_account_id : ℕ
  pub amount : ℕ
  pub status : TransferStatus
  pub saga_state : SagaState
  pub error_message : Option Message
  pub created_at : ℕ
  pub updated_at : ℕ

-- `KafkaTopics`, which are the event types too.
pub data Topic : Type 0 where
  account_created transfer_initiated transfer_completed transfer_failed_topic fraud_alert : Topic

pub data FraudSeverity : Type 0 where
  low medium high critical : FraudSeverity

pub data RuleName : Type 0 where
  large_transfer velocity_check round_number rapid_drain : RuleName

pub record BaseEvent : Type 0 where
  pub event_id : ℕ
  pub event_type : Topic
  pub timestamp : ℕ
  pub version : String

pub record AccountCreatedEvent : Type 0 where
  pub base : BaseEvent
  pub account_id : ℕ
  pub owner_name : String
  pub email : String
  pub initial_deposit : ℕ

pub record TransferInitiatedEvent : Type 0 where
  pub base : BaseEvent
  pub transfer_id : ℕ
  pub from_account_id : ℕ
  pub to_account_id : ℕ
  pub amount : ℕ

pub record TransferCompletedEvent : Type 0 where
  pub base : BaseEvent
  pub transfer_id : ℕ
  pub from_account_id : ℕ
  pub to_account_id : ℕ
  pub amount : ℕ
  pub completed_at : ℕ

pub record TransferFailedEvent : Type 0 where
  pub base : BaseEvent
  pub transfer_id : ℕ
  pub from_account_id : ℕ
  pub to_account_id : ℕ
  pub amount : ℕ
  pub reason : Message

pub record FraudAlertEvent : Type 0 where
  pub base : BaseEvent
  pub alert_id : List ℕ
  pub transfer_id : ℕ
  pub from_account_id : ℕ
  pub amount : ℕ
  pub rule_triggered : RuleName
  pub severity : FraudSeverity

pub data SupportedEvent : Type 0 where
  account_created_event : AccountCreatedEvent → SupportedEvent
  transfer_initiated_event : TransferInitiatedEvent → SupportedEvent
  transfer_completed_event : TransferCompletedEvent → SupportedEvent
  transfer_failed_event : TransferFailedEvent → SupportedEvent
  fraud_alert_event : FraudAlertEvent → SupportedEvent

-- `payload.eventType`, which every event of the union has.
abbrev pub event_type : SupportedEvent → Topic
event_type (account_created_event e) = e.base.event_type
event_type (transfer_initiated_event e) = e.base.event_type
event_type (transfer_completed_event e) = e.base.event_type
event_type (transfer_failed_event e) = e.base.event_type
event_type (fraud_alert_event e) = e.base.event_type

-- What the runtime and the database give: a random UUID and the time.
pub record Fresh : Type 0 where
  pub uuid : ℕ
  pub now : ℕ

abbrev pub event_version : String
event_version = "v1"

-- `buildBaseEvent`
abbrev pub build_base_event : Fresh → Topic → BaseEvent
build_base_event fresh topic = record {
  event_id = fresh.uuid;
  event_type = topic;
  timestamp = fresh.now;
  version = event_version;
}
