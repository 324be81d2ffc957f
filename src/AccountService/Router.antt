-- ===== src/AccountService/Router.antt =====
-- services/account-service/src/routes.ts and index.ts: the router, one request after the other.
use cn_banking_transaction_s.Base.{ℕ, String, Option, List, [], ◌∷◌}
use cn_banking_transaction_s.Effect.{Script, Exec, pure, ◌>>=◌, Response}
use cn_banking_transaction_s.Types.{AccountKycStatus}
use cn_banking_transaction_s.AccountService.{AccountsDb}
use cn_banking_transaction_s.AccountService.Routes.{
  AmountRequest, debit_account, credit_account, freeze_account, update_kyc_status,
}
use cn_banking_transaction_s.AccountService.Reads.{Caller, get_account, get_balance}
use cn_banking_transaction_s.AccountService.Create.{CreateFresh, CreateAccountBody, create_account}

-- A request by its route, with the time and the random ids that the handler draws.
pub data AccountRequest : Type 0 where
  debit_request credit_request : ℕ → AmountRequest → AccountRequest
  freeze_request : ℕ → Option ℕ → AccountRequest
  kyc_request : ℕ → Option AccountKycStatus → Option ℕ → AccountRequest
  get_request balance_request : Caller → Option ℕ → AccountRequest
  create_request : CreateFresh → CreateAccountBody → Option ℕ → AccountRequest

-- The answer goes to the client.
abbrev pub drop_reply : {A : Type 0} → Response A → Exec AccountsDb Unit
drop_reply reply = pure tt

unfoldable pub handle : Option String → AccountRequest → Exec AccountsDb Unit
handle secret (debit_request now req) = debit_account secret now req >>= drop_reply
handle secret (credit_request now req) = credit_account secret now req >>= drop_reply
handle secret (freeze_request now id) = freeze_account now id >>= drop_reply
handle secret (kyc_request now kyc id) = update_kyc_status now kyc id >>= drop_reply
handle secret (get_request caller id) = get_account caller id >>= drop_reply
handle secret (balance_request caller id) = get_balance caller id >>= drop_reply
handle secret (create_request fresh body owner) = create_account fresh body owner >>= drop_reply

-- The requests in the order in which they are handled, each with the fates of its calls.
unfoldable pub serve : Option String → List (AccountRequest × Script) → AccountsDb → AccountsDb
serve secret [] db = db
serve secret ((req, f) ∷ reqs) db = serve secret reqs (handle secret req f db).2
