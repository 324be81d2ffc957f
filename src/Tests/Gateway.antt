-- ===== src/Tests/Gateway.antt =====
-- POST /v1/transfers at the gateway, at the data of the tests.
use cn_banking_transaction_s.Base.{String, str_eq, if◌then◌else◌, ℕ, ◌≡◌, refl, some, List, [], ◌∷◌}
use cn_banking_transaction_s.Effect.{
  delivered, lost, reply_lost, Script, transaction, Response, failure, insufficient_funds_code,
}
use cn_banking_transaction_s.Types.{Transfer}
use cn_banking_transaction_s.Money.{cents, money_regex, after_digit, fraction, positive_money}
use cn_banking_transaction_s.AccountService.{debit_statement, may_debit, debited, credit_statement}
use cn_banking_transaction_s.AccountService.Routes.{
  require_service_token, debit_account, debit_valid, debit_reply, credit_account, credit_valid,
  credit_reply, refuse_debit, refuse_credit, database_failure,
}
use cn_banking_transaction_s.TransferService.{
  insert_transfer, create_transfer_record, update_saga_state, update_transfer_state, patch_debit,
  patch_credit,
}
use cn_banking_transaction_s.TransferService.Moved.{held}
use cn_banking_transaction_s.TransferService.Saga.{
  execute, run_steps, run_debit, run_credit, run_complete, on_error, original_error_message,
  compensate, refund, refund_failed, fail,
}
use cn_banking_transaction_s.TransferService.Routes.{
  create_transfer, create_parsed, create_transfer_schema, transfer_error,
}
use cn_banking_transaction_s.Gateway.{
  IdempotencyKey, Gateway, TransferPost, same_key, find_cached, has_lock, delete_lock,
  cache_proxy_response, with_key, post_transfer, post_all,
}
use cn_banking_transaction_s.Gateway.Replay.{Replayed, post_all-Replayed}
use cn_banking_transaction_s.Effect.Answers.{IfOk}
use cn_banking_transaction_s.Gateway.Access.{
  AccessState, Verified, decoded, token_expired, bearer, access_account, Entitled,
  access_account-Entitled,
}
use cn_banking_transaction_s.Tests.Data.{db, ids, body, config, saga_fresh, drawn, world}

abbrev first_post : TransferPost
first_post = record {
  user = 70;
  original_url = "/v1/transfers";
  idempotency_key = some "tx_1";
  body = body;
  fresh = saga_fresh;
}

-- The same request, as it is sent again: the transfer's row gets another id.
abbrev second_post : TransferPost
second_post = record first_post { fresh = record saga_fresh { row = drawn 200 } }

abbrev gateway : Gateway
gateway = record { cache = []; locks = []; world = world }

abbrev first_key : IdempotencyKey
first_key = record { user = 70; http_method = "POST"; original_url = "/v1/transfers"; key = "tx_1" }

abbrev refused : Response Transfer
refused = failure 422 insufficient_funds_code

abbrev answered : Gateway
answered = record gateway { cache = (first_key, refused) ∷ [] }

-- Another user's request with the same key comes between.
abbrev between : List (TransferPost × Script)
between = (record first_post { user = 80 }, []) ∷ (second_post, lost ∷ []) ∷ []

in_cache : find_cached (first_key) answered.cache ≡ some refused
unfolding find_cached same_key
in_cache = refl

post_all-Replayed_example :
    Replayed refused
      (post_all ids config between answered)
      (post_transfer ids config second_post (delivered ∷ []) (post_all ids config between answered))
post_all-Replayed_example =
    post_all-Replayed ids config refused second_post "tx_1" between (delivered ∷ []) answered refl
      in_cache

-- What account 7 holds behind the posts.
unfoldable balance_behind : List (TransferPost × Script) → ℕ
unfolding execute run_steps run_debit run_credit run_complete on_error original_error_message
    compensate refund refund_failed fail insert_transfer create_transfer_record update_saga_state
    update_transfer_state patch_debit patch_credit require_service_token debit_account debit_valid
    debit_reply credit_account credit_valid credit_reply refuse_debit refuse_credit database_failure
    debit_statement may_debit debited credit_statement cents money_regex after_digit fraction
    positive_money transaction create_transfer create_parsed create_transfer_schema transfer_error
    same_key find_cached has_lock delete_lock cache_proxy_response with_key post_transfer post_all
balance_behind ps = held 7 (post_all ids config ps gateway).world.accounts_db

-- The request is sent again, and its answer is repeated: 12.50 has left the account once.
sent_twice : balance_behind ((first_post, []) ∷ (second_post, []) ∷ []) ≡ 8_750
unfolding balance_behind
sent_twice = refl

-- The same key by another URL is another entry of the cache: the transfer is made twice.
abbrev other_url : TransferPost
other_url = record second_post { original_url = "/v1/transfers?again=1" }

sent_by_two_urls : balance_behind ((first_post, []) ∷ (other_url, []) ∷ []) ≡ 7_500
unfolding balance_behind
sent_by_two_urls = refl

-- The transfer service makes the transfer and its answer is lost; when the lock has expired, the
-- request is sent again, and 12.50 leaves the account a second time.
unfoldable lock_expired : Gateway → Gateway
lock_expired g = record g { locks = [] }

abbrev lost_and_expired : Gateway
lost_and_expired =
    lock_expired
      (post_transfer ids config first_post (delivered ∷ delivered ∷ reply_lost ∷ []) gateway).2

unfoldable balance_behind_expiry : ℕ
unfolding balance_behind lock_expired
balance_behind_expiry =
    held 7 (post_transfer ids config second_post [] lost_and_expired).2.world.accounts_db

answer_lost : balance_behind_expiry ≡ 7_500
unfolding balance_behind_expiry
answer_lost = refl

-- A token for each of two users; the second one's is on the blacklist.
abbrev verify : String → Verified
verify token =
    if str_eq token "t70" then decoded (record { sub = 70; role = "customer" }) else token_expired

abbrev access_state : AccessState
access_state = record { blacklist = "t71" ∷ []; accounts_db = db }

access_account-Entitled_example :
    IfOk
      (Entitled verify (λ token. token) (bearer "t70") access_state.blacklist)
      (access_account verify (λ token. token) (bearer "t70") (some 7) [] access_state)
access_account-Entitled_example =
    access_account-Entitled verify (λ token. token) (bearer "t70") (some 7) [] access_state
