-- ===== src/Tests/Data.antt =====
-- The data of the tests: three accounts, a transfer of 12.50, and what a run draws.
use cn_banking_transaction_s.Base.{
  ℕ, ◌+◌, ◌%◌, true, false, String, Option, none, some, List, [], ◌∷◌, str_eq, if◌then◌else◌,
}
use cn_banking_transaction_s.Types.{
  Account, AccountStatus, active, suspended, verified, Fresh, create, TransferInitiatedEvent,
  TransferCompletedEvent, TransferFailedEvent, transfer_initiated, transfer_completed,
  transfer_failed_topic, Topic, build_base_event, transfer_initiated_event,
}
use cn_banking_transaction_s.Effect.{reported, axios}
use cn_banking_transaction_s.Events.{codes}
use cn_banking_transaction_s.Outbox.{OutboxRow, outbox_row}
use cn_banking_transaction_s.Outbox.Publisher.{Publisher}
use cn_banking_transaction_s.AccountService.{AccountsDb}
use cn_banking_transaction_s.AccountService.Routes.{AmountRequest}
use cn_banking_transaction_s.AccountService.Router.{
  AccountRequest, debit_request, credit_request, freeze_request,
}
use cn_banking_transaction_s.AccountService.Create.{CreateFresh, CreateAccountBody}
use cn_banking_transaction_s.TransferService.Routes.{CreateTransferBody}
use cn_banking_transaction_s.Effect.{reply_lost, Script}
use cn_banking_transaction_s.TransferService.{World, Config, Order, SagaFresh}
use cn_banking_transaction_s.LedgerService.{LedgerWorld, Position}
use cn_banking_transaction_s.FraudService.{FraudWorld}
use cn_banking_transaction_s.NotificationService.{NotificationWorld}

abbrev pub account : ℕ → Option ℕ → String → ℕ → AccountStatus → Account
account id owner email balance status = record {
  id = id;
  owner_id = owner;
  name = "A";
  email = email;
  balance = balance;
  kyc_status = verified;
  status = status;
  created_at = 1;
  updated_at = 1;
}

-- Account 7 has an owner, account 8 has none, account 9 is suspended.
abbrev pub sender : Account
sender = account 7 (some 70) "a@bank.test" 10_000 active

abbrev pub receiver : Account
receiver = account 8 none "b@bank.test" 500 active

abbrev pub frozen_account : Account
frozen_account = account 9 (some 90) "c@bank.test" 300 suspended

abbrev pub db : AccountsDb
db = record { accounts = (7, sender) ∷ (8, receiver) ∷ (9, frozen_account) ∷ []; outbox = [] }

abbrev pub amount_text : List ℕ
amount_text = codes "12.50"

abbrev pub drawn : ℕ → Fresh
drawn n = record { uuid = n; now = 1_000 + n }

abbrev pub saga_fresh : SagaFresh
saga_fresh = record {
  row = drawn 100;
  initiated_event = drawn 101;
  initiated_row = drawn 102;
  completed_event = drawn 103;
  completed_row = drawn 104;
  failed_event = drawn 105;
  failed_row = drawn 106;
  debit_at = 1_200;
  credit_at = 1_300;
  refund_at = 1_400;
  completed_at = 1_500;
  step_at = 1_600;
  end_at = 1_700;
}

abbrev pub config : Config
config = record { account_secret = some "s3cret"; transfer_secret = some "s3cret" }

abbrev pub order : Order
order = record { from_account_id = 7; to_account_id = 8; amount = amount_text }

abbrev pub world : World
world = record {
  accounts_db = db;
  transfers = [];
  outbox = [];
  saga_state = record {
    current_step = create;
    debit_completed = false;
    credit_completed = false;
    compensation_completed = false;
    error = none;
  };
}

abbrev pub amount_request : ℕ → AmountRequest
amount_request id = record {
  service_token = some "s3cret";
  id = some id;
  amount = some amount_text;
}

abbrev pub initiated_event : TransferInitiatedEvent
initiated_event = record {
  base = build_base_event (drawn 101) transfer_initiated;
  transfer_id = 100;
  from_account_id = 7;
  to_account_id = 8;
  amount = 2_000_000;
}

abbrev pub completed_event : TransferCompletedEvent
completed_event = record {
  base = build_base_event (drawn 103) transfer_completed;
  transfer_id = 100;
  from_account_id = 7;
  to_account_id = 8;
  amount = 1_250;
  completed_at = 1_500;
}

abbrev pub failed_event : TransferFailedEvent
failed_event = record {
  base = build_base_event (drawn 105) transfer_failed_topic;
  transfer_id = 100;
  from_account_id = 7;
  to_account_id = 8;
  amount = 1_250;
  reason = reported (axios (some 423));
}

-- A function in the place of SHA-1: the low half of each code, and a fixed tail.
abbrev pub digest : List ℕ → List ℕ
digest [] =
    0 ∷ 1 ∷ 2 ∷ 3 ∷ 4 ∷ 5 ∷ 6 ∷ 7 ∷ 8 ∷ 9 ∷ 10 ∷ 11 ∷ 12 ∷ 13 ∷ 14 ∷ 15 ∷ 0 ∷ 1 ∷ 2 ∷ 3 ∷ 4 ∷ 5 ∷ 6
    ∷ 7 ∷ 8 ∷ 9 ∷ 10 ∷ 11 ∷ 12 ∷ 13 ∷ 14 ∷ 15 ∷ []
digest (c ∷ s) = c % 16 ∷ digest s

abbrev pub at : Topic → Position
at topic = record { topic = topic; partition = 2; offset = 15 }

abbrev pub ledger : LedgerWorld
ledger = record { entries = []; transfers = [] }

abbrev pub fraud_world : FraudWorld
fraud_world = record { activity = []; fraud_events = []; sent = []; accounts_db = db }

abbrev pub notification_world : NotificationWorld
notification_world = record { accounts_db = db; sent = [] }

abbrev pub row : ℕ → Option ℕ → OutboxRow
row created_at published_at =
    record (outbox_row created_at transfer_initiated 100
      (transfer_initiated_event initiated_event)) { published_at = published_at }

abbrev pub publisher : Publisher
publisher = record {
  outbox = (1, row 20 none) ∷ (2, row 10 none) ∷ [];
  sent = [];
  producer_connected = false;
  publish_timer = true;
  publishing = false;
}

abbrev pub ids : String → Option ℕ
ids text = if str_eq text "seven" then some 7 else (if str_eq text "eight" then some 8 else none)

abbrev pub body : CreateTransferBody
body = record {
  from_account_id = some "seven";
  to_account_id = some "eight";
  amount = some amount_text;
}

-- A credit of the frozen account, a second freeze, and a debit whose reply is lost.
abbrev pub requests : List (AccountRequest × Script)
requests =
    (credit_request 60 (amount_request 9), [])
    ∷ (freeze_request 61 (some 9), [])
    ∷ (debit_request 62 (amount_request 9), reply_lost ∷ [])
    ∷ []

abbrev pub create_fresh : CreateFresh
create_fresh = record { row = drawn 300; event = drawn 301; outbox_entry = drawn 302 }

abbrev pub new_customer : CreateAccountBody
new_customer = record {
  name = some "D";
  email = some "d@bank.test";
  initial_balance = some (some amount_text);
}
