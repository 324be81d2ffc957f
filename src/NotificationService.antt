-- ===== src/NotificationService.antt =====
-- services/notification-service/src/consumer.ts and adapters.ts: the plan of messages for an event,
-- and their sending. `fetch_email` is GET /v1/accounts/:id of the account service.
pub mod Owned
use cn_banking_transaction_s.Base.{
  ℕ, Bool, true, false, ◌||◌, String, Option, none, some, List, [], ◌∷◌, ◌++◌, if◌then◌else◌,
}
use cn_banking_transaction_s.Effect.{
  Thrown, axios, plain, not_created, Result, ok, Exec, pure, throw, call, request, ◌>>=◌, ◌>>◌,
  Response,
}
use cn_banking_transaction_s.Types.{
  Account, Topic, account_created, transfer_initiated, transfer_completed, transfer_failed_topic,
  fraud_alert, FraudSeverity, low, medium, high, critical, TransferCompletedEvent,
  TransferFailedEvent, FraudAlertEvent,
}
use cn_banking_transaction_s.AccountService.{AccountsDb}
use cn_banking_transaction_s.AccountService.Reads.{get_account}
use cn_banking_transaction_s.AccountService.Owners.{no_caller}
use cn_banking_transaction_s.TransferService.{accept}

pub data Channel : Type 0 where
  email sms : Channel

-- An e-mail address, or the text `account:${fromAccountId}`.
pub data Recipient : Type 0 where
  address : String → Recipient
  account_phone : ℕ → Recipient

-- An item of the plan, and a line of the log that `sendEmail` and `sendSms` write.
pub record Attempt : Type 0 where
  pub channel : Channel
  pub recipient : Recipient
  pub notification_type : Topic

pub record NotificationWorld : Type 0 where
  pub accounts_db : AccountsDb
  pub sent : List Attempt

pub data NotificationEvent : Type 0 where
  transfer_completed_note : TransferCompletedEvent → NotificationEvent
  transfer_failed_note : TransferFailedEvent → NotificationEvent
  fraud_alert_note : FraudAlertEvent → NotificationEvent

abbrev pub on_accounts_of : {A : Type 0} → Exec AccountsDb A → Exec NotificationWorld A
on_accounts_of m f w = let (r, f', db) = m f w.accounts_db in (r, f', record w { accounts_db = db })

-- `fetchAccountEmail`
unfoldable pub fetch_account_email : ℕ → Exec NotificationWorld String
fetch_account_email id = do
  account ← request (axios none) (on_accounts_of (get_account no_caller (some id)) >>= accept)
  pure account.email

abbrev pub email_to : Topic → String → Attempt
email_to type to = record { channel = email; recipient = address to; notification_type = type }

-- event.severity === 'high' || event.severity === 'critical'
abbrev pub wants_sms : FraudSeverity → Bool
wants_sms high = true
wants_sms critical = true
wants_sms _ = false

abbrev pub alert_sms : FraudAlertEvent → List Attempt
alert_sms e =
    if wants_sms e.severity
    then record {
      channel = sms;
      recipient = account_phone e.from_account_id;
      notification_type = e.base.event_type;
    }
      ∷ []
    else []

-- `buildNotificationPlan`
unfoldable pub build_notification_plan : NotificationEvent → Exec NotificationWorld (List Attempt)
unfolding fetch_account_email
build_notification_plan (transfer_completed_note e) = do
  sender ← fetch_account_email e.from_account_id
  receiver ← fetch_account_email e.to_account_id
  pure (email_to e.base.event_type sender ∷ email_to e.base.event_type receiver ∷ [])
build_notification_plan (transfer_failed_note e) = do
  sender ← fetch_account_email e.from_account_id
  pure (email_to e.base.event_type sender ∷ [])
build_notification_plan (fraud_alert_note e) = do
  owner ← fetch_account_email e.from_account_id
  pure (email_to e.base.event_type owner ∷ alert_sms e)

-- `sendEmail` and `sendSms`: an attempt is logged as sent, and nothing fails.
unfoldable pub send_attempt : Attempt → Exec NotificationWorld (Unit {0})
send_attempt a f w = (ok tt, f, record w { sent = w.sent ++ a ∷ [] })

unfoldable pub send_attempts : List Attempt → Exec NotificationWorld (Unit {0})
unfolding send_attempt
send_attempts [] = pure tt
send_attempts (a ∷ rest) = send_attempt a >> send_attempts rest

-- A payload, by what each schema makes of it.
pub record Payload : Type 0 where
  pub as_completed : Option TransferCompletedEvent
  pub as_failed : Option TransferFailedEvent
  pub as_alert : Option FraudAlertEvent

abbrev pub noted {ℓ} : {A : Type ℓ} → (A → NotificationEvent) → Option A → Option NotificationEvent
noted f none = none
noted f (some e) = some (f e)

-- The schema is chosen by the topic; every other topic is read as an alert.
unfoldable pub parse_note : Topic → Payload → Option NotificationEvent
parse_note transfer_completed p = noted transfer_completed_note p.as_completed
parse_note transfer_failed_topic p = noted transfer_failed_note p.as_failed
parse_note _ p = noted fraud_alert_note p.as_alert

unfoldable pub notify : Option NotificationEvent → Exec NotificationWorld (Unit {0})
unfolding build_notification_plan send_attempts
notify none = throw (plain not_created)
notify (some e) = build_notification_plan e >>= send_attempts

-- `handleNotificationEvent`
unfoldable pub handle_notification_event : Topic → Payload → Exec NotificationWorld (Unit {0})
unfolding notify parse_note
handle_notification_event topic p = notify (parse_note topic p)
