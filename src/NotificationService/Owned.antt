-- ===== src/NotificationService/Owned.antt =====
-- A notification about an account that has an owner: the notification service reads the address
-- without the headers of a caller, and the account service refuses.
use cn_banking_transaction_s.Base.{ℕ, ◌≡◌, Option, none, some, List, [], ◌∷◌, String, ap}
use cn_banking_transaction_s.Base.Table.{lookup}
use cn_banking_transaction_s.Effect.{
  Script, axios, Result, ok, err, Exec, pure, request, ◌>>=◌, Response, success, failure,
}
use cn_banking_transaction_s.Types.{Account, Topic}
use cn_banking_transaction_s.AccountService.{AccountsDb}
use cn_banking_transaction_s.AccountService.Reads.{get_account}
use cn_banking_transaction_s.TransferService.{accept}
use cn_banking_transaction_s.Effect.Throws.{Throws, bind-Throws, request-Throws}
use cn_banking_transaction_s.AccountService.Owners.{
  HasOwner, Refused, no_caller, get_account-Refused,
}
use cn_banking_transaction_s.NotificationService.{
  NotificationWorld, NotificationEvent, transfer_completed_note, transfer_failed_note,
  fraud_alert_note, on_accounts_of, fetch_account_email, build_notification_plan, Attempt, email_to,
  alert_sms, notify, parse_note, Payload, handle_notification_event, send_attempts,
}

accept-Throws :
    (w : NotificationWorld) (r : Result (Response Account) × Script × AccountsDb)
    → Refused w.accounts_db r
    → Throws w ((on_accounts_of (λ f db. r) >>= accept) r.1 w)
accept-Throws w (ok (success c b), f, db) h = absurd h
accept-Throws w (ok (failure c x), f, db) h = ap (λ d. record w { accounts_db = d }) h
accept-Throws w (err e, f, db) h = absurd h

fetch_account_email-Throws :
    (id : ℕ) (f : Script) (w : NotificationWorld)
    → HasOwner (lookup id w.accounts_db.accounts)
    → Throws w (fetch_account_email id f w)
unfolding fetch_account_email
fetch_account_email-Throws id f w h =
    let m : Exec NotificationWorld Account =
      on_accounts_of (get_account no_caller (some id)) >>= accept in
    bind-Throws w (request (axios none) m f w) (λ a. pure a.email)
      (request-Throws (axios none) m f w (λ f'.
        accept-Throws w (get_account no_caller (some id) f' w.accounts_db)
          (get_account-Refused id f' w.accounts_db h)))

-- The account that an event names as the source.
abbrev pub source_account : NotificationEvent → ℕ
source_account (transfer_completed_note e) = e.from_account_id
source_account (transfer_failed_note e) = e.from_account_id
source_account (fraud_alert_note e) = e.from_account_id

plan-Throws :
    (e : NotificationEvent) (f : Script) (w : NotificationWorld)
    → HasOwner (lookup (source_account e) w.accounts_db.accounts)
    → Throws w (build_notification_plan e f w)
unfolding build_notification_plan
plan-Throws (transfer_completed_note e) f w h =
    let rest : String → Exec NotificationWorld (List Attempt) = λ sender.
      fetch_account_email e.to_account_id >>= λ receiver.
      pure (email_to e.base.event_type sender ∷ email_to e.base.event_type receiver ∷ []) in
    bind-Throws w (fetch_account_email e.from_account_id f w) rest
      (fetch_account_email-Throws e.from_account_id f w h)
plan-Throws (transfer_failed_note e) f w h =
    let rest : String → Exec NotificationWorld (List Attempt) =
      λ sender. pure (email_to e.base.event_type sender ∷ []) in
    bind-Throws w (fetch_account_email e.from_account_id f w) rest
      (fetch_account_email-Throws e.from_account_id f w h)
plan-Throws (fraud_alert_note e) f w h =
    let rest : String → Exec NotificationWorld (List Attempt) =
      λ owner. pure (email_to e.base.event_type owner ∷ alert_sms e) in
    bind-Throws w (fetch_account_email e.from_account_id f w) rest
      (fetch_account_email-Throws e.from_account_id f w h)

note-Throws :
    (o : Option NotificationEvent) (e : NotificationEvent) (f : Script) (w : NotificationWorld)
    → o ≡ some e
    → HasOwner (lookup (source_account e) w.accounts_db.accounts)
    → Throws w (notify o f w)
unfolding notify
note-Throws none e f w i h = cc
note-Throws (some n) e f w i h =
    let same : n ≡ e = cc in
    bind-Throws w (build_notification_plan n f w) send_attempts (plan-Throws n f w (rw same h))

-- The handling of a notification whose source account has an owner always throws, with nothing
-- sent to anyone, whatever calls fail.
pub handle_notification_event-Throws :
    (topic : Topic) (p : Payload) (e : NotificationEvent) (f : Script) (w : NotificationWorld)
    → parse_note topic p ≡ some e
    → HasOwner (lookup (source_account e) w.accounts_db.accounts)
    → Throws w (handle_notification_event topic p f w)
unfolding handle_notification_event
handle_notification_event-Throws topic p e f w i h = note-Throws (parse_note topic p) e f w i h
