-- ===== src/Tests/Examples.antt =====
-- The theorems at the data of the tests.
use cn_banking_transaction_s.Base.{
  ◌/◌, ◌%◌, ltb, leb, ◌==◌, ◌+◌, ◌++◌, ℕ, ◌≡◌, ◌≤◌, ◌↔◌, refl, true, false, String, Option, none,
  some, List, [], ◌∷◌, length, take, ◌*◌, arith,
}
use cn_banking_transaction_s.Effect.{delivered, lost, ok, Script}
use cn_banking_transaction_s.Effect.Runs.{Ends}
use cn_banking_transaction_s.Effect.Throws.{Throws}
use cn_banking_transaction_s.Types.{high, transfer_completed, round_number}
use cn_banking_transaction_s.Money.{money_regex}
use cn_banking_transaction_s.Money.Regex.{Amount, money_regex-iff-Amount}
use cn_banking_transaction_s.Outbox.Publisher.{publish_pending_outbox_events}
use cn_banking_transaction_s.Outbox.Publisher.Sound.{IsSound}
use cn_banking_transaction_s.Outbox.Publisher.Rounds.{Round, publish_pending_outbox_events-Round}
use cn_banking_transaction_s.AccountService.Routes.{debit_account, credit_account}
use cn_banking_transaction_s.AccountService.Debits.{DebitAnswered, debit_account-DebitAnswered}
use cn_banking_transaction_s.AccountService.Credits.{CreditAnswered, credit_account-CreditAnswered}
use cn_banking_transaction_s.AccountService.Router.{serve}
use cn_banking_transaction_s.AccountService.Frozen.{IsFrozen, serve-IsFrozen}
use cn_banking_transaction_s.TransferService.Saga.{execute}
use cn_banking_transaction_s.TransferService.Accounting.{At, Accounted}
use cn_banking_transaction_s.TransferService.Accounting.Recovery.{execute-Accounted}
use cn_banking_transaction_s.TransferService.Routes.{create_transfer, create_transfer_schema}
use cn_banking_transaction_s.TransferService.Answers.{
  TransferAnswered, create_transfer-TransferAnswered,
}
use cn_banking_transaction_s.Events.{create_ledger_entry_id, create_deterministic_uuid, uuid_string}
use cn_banking_transaction_s.LedgerService.{
  debit_entry, credit_entry, build_entry, has_entry, LedgerEntry, completed_facts, entry_completed,
  Payload, process_ledger_event, process_topic, process_completed, upsert_entries, upsert_entry,
  build_entries,
}
use cn_banking_transaction_s.LedgerService.Redelivery.{
  completed_again, completed_recorded, BothAdded,
}
use cn_banking_transaction_s.LedgerService.Queries.{ListQuery, list_entries}
use cn_banking_transaction_s.LedgerService.Queries.Pages.{
  AllMatch, NewestFirst, list_entries_sound, pages, pages-take,
}
use cn_banking_transaction_s.FraudService.{
  FraudEvent, Doubles, FraudWorld, sum_outgoing, recent_transfer_count, recent_outgoing_total,
  apply_rules, evaluate_large_transfer, evaluate_velocity_check, evaluate_round_number,
  evaluate_rapid_drain,
}
use cn_banking_transaction_s.AccountService.{freeze_statement}
use cn_banking_transaction_s.AccountService.Routes.{freeze_account, database_failure, found_or_404}
use cn_banking_transaction_s.AccountService.Reads.{
  get_balance, balance_reply, may_read, is_admin, is_owner,
}
use cn_banking_transaction_s.FraudService.Consumer.{
  process_fraud_event, persist_activity, insert_activity, is_seen, if_inserted, evaluate_rules,
  get_account_balance, emit_all, persist_and_emit_alert, insert_alert, is_alerted, emit_alert,
  freeze,
}
use cn_banking_transaction_s.FraudService.Once.{process_fraud_event-again}
use cn_banking_transaction_s.FraudService.Owned.{Silent, process_fraud_event-Silent}
use cn_banking_transaction_s.NotificationService
use cn_banking_transaction_s.NotificationService.{
  transfer_completed_note, handle_notification_event, parse_note,
}
use cn_banking_transaction_s.NotificationService.Owned.{handle_notification_event-Throws}
use cn_banking_transaction_s.LedgerService.Stats.{total_of, total_of-build_entries}
use cn_banking_transaction_s.FraudService.Alerts.{
  RawAlertsQuery, AlertsAnswered, alerts_query_schema, list_alerts, list_alerts-AlertsAnswered,
}
use cn_banking_transaction_s.WebPortal.{
  AuthSession, JwtClaims, Portal, operator, write_stored_session, clear_stored_session,
  read_refresh_token, read_stored_session,
}
use cn_banking_transaction_s.WebPortal.Reload.{reload, write_stored_session-reload}
use cn_banking_transaction_s.AccountService.Create.{create_account}
use cn_banking_transaction_s.AccountService.Opened.{Opened, create_account-Opened}
use cn_banking_transaction_s.Tests.Data.{
  ids, body, requests, create_fresh, new_customer, db, frozen_account, amount_text, drawn,
  saga_fresh, config, order, world, amount_request, initiated_event, completed_event, failed_event,
  sender, digest, at, ledger, fraud_world, notification_world, row, publisher,
}

-- The credit is made, and COMPLETED is not persisted.
abbrev cut_off : Script
cut_off =
    delivered ∷ delivered ∷ delivered ∷ delivered ∷ delivered ∷ delivered ∷ delivered ∷ delivered
    ∷ delivered ∷ delivered ∷ delivered ∷ lost ∷ []

execute-Accounted_example :
    Ends
      (λ _. At order db true true false)
      (Accounted order db)
      (execute config saga_fresh order cut_off world)
execute-Accounted_example = execute-Accounted config saga_fresh order cut_off world refl

create_transfer-TransferAnswered_example :
    TransferAnswered
      (create_transfer_schema ids body)
      world
      (create_transfer ids config saga_fresh body cut_off world)
create_transfer-TransferAnswered_example =
    create_transfer-TransferAnswered ids config saga_fresh body cut_off world refl

debit_account-DebitAnswered_example :
    DebitAnswered
      (some "s3cret")
      (amount_request 7)
      db
      (debit_account (some "s3cret") 50 (amount_request 7) (delivered ∷ []) db)
debit_account-DebitAnswered_example =
    debit_account-DebitAnswered (some "s3cret") 50 (amount_request 7) (delivered ∷ []) db refl

credit_account-CreditAnswered_example :
    CreditAnswered
      (some "s3cret")
      (amount_request 8)
      db
      (credit_account (some "s3cret") 50 (amount_request 8) (delivered ∷ []) db)
credit_account-CreditAnswered_example =
    credit_account-CreditAnswered (some "s3cret") 50 (amount_request 8) (delivered ∷ []) db refl

serve-IsFrozen_example : IsFrozen 9 300 (serve (some "s3cret") requests db)
serve-IsFrozen_example =
    serve-IsFrozen 9 300 (some "s3cret") requests db
      (record { row = frozen_account; there = refl; is_frozen = refl; holds = refl })

none_published : IsSound publisher
none_published id r e m = ground arith

-- The second row's message is lost on the way.

publish_pending_outbox_events-Round_example : Round false (
    publish_pending_outbox_events 90
      (delivered ∷ delivered ∷ delivered ∷ delivered ∷ lost ∷ [])
      publisher)
publish_pending_outbox_events-Round_example =
    publish_pending_outbox_events-Round 90
      (delivered ∷ delivered ∷ delivered ∷ delivered ∷ lost ∷ []) publisher
      ((row 20 none, refl, refl), ((row 10 none, refl, refl), tt)) none_published

abbrev completed_payload : Payload
completed_payload = record { as_completed = some completed_event; as_failed = none }

abbrev failed_payload : Payload
failed_payload = record { as_completed = none; as_failed = some failed_event }

completed_again_example :
    (process_ledger_event digest
      (at transfer_completed)
      (some completed_payload)
      (lost ∷ [])
      (process_ledger_event digest
        (at transfer_completed)
        (some completed_payload)
        []
        ledger).2).2.entries
    ≡ (process_ledger_event digest
        (at transfer_completed)
        (some completed_payload)
        []
        ledger).2.entries
unfolding process_ledger_event process_topic process_completed upsert_entries upsert_entry
completed_again_example =
    completed_again digest (at transfer_completed) completed_payload [] (lost ∷ []) ledger refl refl

completed_recorded_example :
    BothAdded digest
      (at transfer_completed)
      completed_payload
      ledger.entries
      (process_ledger_event digest
        (at transfer_completed)
        (some completed_payload)
        []
        ledger).2.entries
unfolding process_ledger_event process_topic process_completed upsert_entries upsert_entry has_entry
    create_ledger_entry_id
completed_recorded_example =
    completed_recorded digest (at transfer_completed) completed_payload [] ledger refl refl refl
      refl refl

-- Numbers that count thousandths of a cent, and do not round where the rules use them.
abbrev thousandths : Doubles ℕ
thousandths = record {
  of_cents = λ c. c * 1_000;
  literal = λ n. n * 100_000;
  four_fifths = 80_000;
  plus = λ m n. m + n;
  times = λ m n. m * n / 100_000;
  remainder = λ m n. m % n;
  greater = λ m n. ltb n m;
  greater_equal = λ m n. leb n m;
  strictly_equal = λ m n. m == n;
}

-- The account of the event has no owner, so that its balance can be read.
abbrev open_world : FraudWorld
open_world = record fraud_world {
  accounts_db = record db { accounts = (7, record sender { owner_id = none }) ∷ [] };
}

evaluated :
    (process_fraud_event thousandths digest (drawn 200) (some initiated_event) [] open_world).0
    ≡ ok tt
unfolding process_fraud_event persist_activity insert_activity is_seen if_inserted evaluate_rules
    get_account_balance get_balance balance_reply may_read is_admin is_owner recent_transfer_count
    recent_outgoing_total sum_outgoing apply_rules evaluate_large_transfer evaluate_velocity_check
    evaluate_round_number evaluate_rapid_drain emit_all persist_and_emit_alert insert_alert
    is_alerted emit_alert freeze freeze_account freeze_statement database_failure found_or_404
    create_deterministic_uuid uuid_string
evaluated = refl

process_fraud_event-again_example :
    (process_fraud_event thousandths digest
      (drawn 300)
      (some initiated_event)
      (lost ∷ [])
      (process_fraud_event thousandths digest (drawn 200) (some initiated_event) [] open_world).2).2
    ≡ (process_fraud_event thousandths digest (drawn 200) (some initiated_event) [] open_world).2
process_fraud_event-again_example =
    process_fraud_event-again thousandths digest (drawn 200) (drawn 300) (some initiated_event) []
      (lost ∷ []) open_world evaluated

process_fraud_event-Silent_example :
    Silent fraud_world
      (process_fraud_event thousandths digest (drawn 200) (some initiated_event) [] fraud_world).2
process_fraud_event-Silent_example =
    process_fraud_event-Silent thousandths digest (drawn 200) initiated_event [] fraud_world
      (70, refl)

abbrev note : NotificationService.Payload
note = record { as_completed = some completed_event; as_failed = none; as_alert = none }

handle_notification_event-Throws_example :
    Throws notification_world
      (handle_notification_event transfer_completed note [] notification_world)
unfolding parse_note
handle_notification_event-Throws_example =
    handle_notification_event-Throws transfer_completed note
      (transfer_completed_note completed_event) [] notification_world refl (70, refl)

money_regex-iff-Amount_example : (money_regex amount_text ≡ true) ↔ Amount amount_text
money_regex-iff-Amount_example = money_regex-iff-Amount amount_text

-- The entries of one completed transfer.
abbrev recorded : List LedgerEntry
recorded =
    build_entries digest (at transfer_completed) (completed_facts completed_event) entry_completed
      1_500

abbrev query_of_ten : ListQuery
query_of_ten = record { page = 1; limit = 10; from = none; to = some 9_000 }

list_entries_sound_example :
    (length (list_entries 7 query_of_ten recorded) ≤ 10)
    × AllMatch 7 query_of_ten (list_entries 7 query_of_ten recorded)
    × NewestFirst (list_entries 7 query_of_ten recorded)
list_entries_sound_example = list_entries_sound 7 query_of_ten recorded

abbrev debit_of_seven : LedgerEntry
debit_of_seven =
    build_entry digest (at transfer_completed) (completed_facts completed_event) entry_completed
      1_500 debit_entry

abbrev four : List ℕ
four = 5 ∷ 6 ∷ 7 ∷ 8 ∷ []

pages-take_example : pages 2 3 four ≡ take (2 * 3) four
pages-take_example = pages-take 2 3 four

abbrev behind_another : List LedgerEntry
behind_another =
    recorded
    ++ build_entries digest (at transfer_completed) (completed_facts completed_event)
        entry_completed 1_600

total_of-build_entries_example :
    (total_of debit_entry 7 behind_another ≡ total_of debit_entry 7 recorded + 1_250)
    × (total_of credit_entry 7 behind_another ≡ total_of credit_entry 7 recorded + 0)
total_of-build_entries_example =
    total_of-build_entries digest (at transfer_completed) (completed_facts completed_event)
      entry_completed 1_600 7 recorded

abbrev alerts_query : RawAlertsQuery
alerts_query = record {
  severity = some (some high);
  account_id = none;
  from = some (some 10);
  to = none;
  page = none;
  limit = some (some 50);
}

abbrev alert : FraudEvent
alert = record {
  alert_id = 1 ∷ 2 ∷ [];
  source_event_id = 101;
  transfer_id = 100;
  from_account_id = 8;
  amount = 2_000_000;
  rule_triggered = round_number;
  severity = high;
  created_at = 20;
}

abbrev alerted : FraudWorld
alerted = record fraud_world { fraud_events = alert ∷ [] }

list_alerts-AlertsAnswered_example :
    AlertsAnswered
      (alerts_query_schema alerts_query)
      []
      alerted
      (list_alerts alerts_query [] alerted)
list_alerts-AlertsAnswered_example = list_alerts-AlertsAnswered alerts_query [] alerted

abbrev no_claims : String → Option JwtClaims
no_claims token = none

abbrev signed_in : AuthSession
signed_in = record {
  access_token = "a.b.c";
  refresh_token = some "r";
  role = operator;
  subject = some "7";
  expires_at = some 3_600;
  request_id = none;
}

abbrev new_portal : Portal
new_portal = record { in_memory_session = none; storage = none }

write_stored_session-reload_example :
    (read_stored_session no_claims (write_stored_session signed_in new_portal) ≡ some signed_in)
    × (read_refresh_token (reload (write_stored_session signed_in new_portal)) ≡ some "r")
    × (read_stored_session no_claims (reload (write_stored_session signed_in new_portal)) ≡ none)
    × (read_refresh_token (clear_stored_session (write_stored_session signed_in new_portal)) ≡ none)
    × (read_stored_session no_claims
          (reload (clear_stored_session (write_stored_session signed_in new_portal)))
        ≡ none)
write_stored_session-reload_example = write_stored_session-reload no_claims signed_in new_portal

-- The event is not enqueued.
create_account-Opened_example :
    Ends
      (Opened create_fresh db)
      (λ db'. db' ≡ db)
      (create_account create_fresh new_customer
        (some 30)
        (delivered ∷ delivered ∷ delivered ∷ lost ∷ [])
        db)
create_account-Opened_example =
    create_account-Opened create_fresh new_customer (some 30)
      (delivered ∷ delivered ∷ delivered ∷ lost ∷ []) db refl
