-- ===== src/Gateway.antt =====
-- services/api-gateway/src/middleware/idempotency.js and proxy.js: POST /v1/transfers at the gateway,
-- behind the authentication and the rate limit. The entries of Redis stand as long as they live: a
-- cached answer for a day, a lock for half a minute.
pub mod Replay
pub mod Access
use cn_banking_transaction_s.Base.{
  ℕ, Bool, true, false, ◌&&◌, ◌||◌, String, Option, none, some, List, [], ◌∷◌, leb, ◌==◌, str_eq,
  if◌then◌else◌,
}
use cn_banking_transaction_s.Effect.{
  Thrown, axios, plain, not_created, Result, ok, Script, Exec, pure, call, request, catch, ◌>>=◌,
  ◌>>◌, Response, success, failure,
}
use cn_banking_transaction_s.Types.{Transfer}
use cn_banking_transaction_s.TransferService.{World, Config, SagaFresh}
use cn_banking_transaction_s.TransferService.Routes.{CreateTransferBody, create_transfer}
use cn_banking_transaction_s.WebPortal.{non_empty}

-- The parts of `redisKey` and `lockKey`: the user of the token, the method, `originalUrl` with its
-- query, and the header `idempotency-key`. The text that joins them is taken to keep them apart.
pub record IdempotencyKey : Type 0 where
  pub user : ℕ
  pub http_method : String
  pub original_url : String
  pub key : String

unfoldable pub same_key : IdempotencyKey → IdempotencyKey → Bool
same_key a b =
    a.user == b.user
    && (str_eq a.http_method b.http_method
        && (str_eq a.original_url b.original_url && str_eq a.key b.key))

pub record Gateway : Type 0 where
  pub cache : List (IdempotencyKey × Response Transfer)
  pub locks : List IdempotencyKey
  pub world : World

-- An answer of the transfer service, passed on, or one of the gateway's own.
pub data GatewayReply : Type 0 where
  passed_on : Response Transfer → GatewayReply
  gateway_error : ℕ → String → GatewayReply

abbrev pub status_of : Response Transfer → ℕ
status_of (success c t) = c
status_of (failure c x) = c

-- redis.get(redisKey)
unfoldable pub find_cached :
    IdempotencyKey → List (IdempotencyKey × Response Transfer) → Option (Response Transfer)
find_cached k [] = none
find_cached k ((j, r) ∷ cache) =
    let rest = find_cached k cache in if same_key k j then some r else rest

unfoldable pub has_lock : IdempotencyKey → List IdempotencyKey → Bool
has_lock k [] = false
has_lock k (j ∷ locks) = same_key k j || has_lock k locks

unfoldable pub delete_lock : IdempotencyKey → List IdempotencyKey → List IdempotencyKey
delete_lock k [] = []
delete_lock k (j ∷ locks) =
    let rest = delete_lock k locks in if same_key k j then rest else j ∷ rest

-- The error of a call of Redis, which is never looked at.
abbrev pub redis_failure : Thrown
redis_failure = plain not_created

abbrev pub get_cached : IdempotencyKey → Gateway → Result (Option (Response Transfer)) × Gateway
get_cached k g = (ok (find_cached k g.cache), g)

-- redis.set(lockKey, '1', 'NX', ...)
abbrev pub acquire : IdempotencyKey → Gateway → Result Bool × Gateway
acquire k g =
    if has_lock k g.locks then (ok false, g) else (ok true, record g { locks = k ∷ g.locks })

abbrev pub release : IdempotencyKey → Gateway → Result (Unit {0}) × Gateway
release k g = (ok tt, record g { locks = delete_lock k g.locks })

-- The pipeline: both commands or none.
abbrev pub store_and_release :
    IdempotencyKey → Response Transfer → Gateway → Result (Unit {0}) × Gateway
store_and_release k r g =
    (ok tt, record g { cache = (k, r) ∷ g.cache; locks = delete_lock k g.locks })

-- `cacheProxyResponse`: an answer of 500 or more is not cached.
unfoldable pub cache_proxy_response : IdempotencyKey → Response Transfer → Exec Gateway (Unit {0})
cache_proxy_response k r f g =
    if leb 500 (status_of r)
    then call redis_failure (release k) f g
    else call redis_failure (store_and_release k r) f g

abbrev pub on_transfer_service : {A : Type 0} → Exec World A → Exec Gateway A
on_transfer_service m f g = let (r, f', w) = m f g.world in (r, f', record g { world = w })

-- The interceptor logs what `cacheProxyResponse` throws; the handler `error` answers where the
-- transfer service does not.
abbrev pub intercepted : IdempotencyKey → Option (Response Transfer) → Exec Gateway GatewayReply
unfolding cache_proxy_response
intercepted k none = pure (gateway_error 502 "upstream_unavailable")
intercepted k (some r) = catch (cache_proxy_response k r) (λ e. pure tt) >> pure (passed_on r)

abbrev pub no_answer : Thrown → Exec Gateway (Option (Response Transfer))
no_answer e = pure none

abbrev pub upstream : Exec World (Response Transfer) → Exec Gateway (Option (Response Transfer))
upstream m = catch (request (axios none) (on_transfer_service m) >>= λ r. pure (some r)) no_answer

abbrev pub locked :
    IdempotencyKey → Exec World (Response Transfer) → Bool → Exec Gateway GatewayReply
unfolding intercepted
locked k m false = pure (gateway_error 409 "duplicate_request_in_flight")
locked k m true = upstream m >>= intercepted k

abbrev pub looked_up :
    IdempotencyKey
    → Exec World (Response Transfer)
    → Option (Response Transfer)
    → Exec Gateway GatewayReply
unfolding locked
looked_up k m (some r) = pure (passed_on r)
looked_up k m none = call redis_failure (acquire k) >>= locked k m

-- `idempotency`, with the proxy behind it
unfoldable pub with_key :
    IdempotencyKey → Exec World (Response Transfer) → Exec Gateway GatewayReply
unfolding looked_up
with_key k m = call redis_failure (get_cached k) >>= looked_up k m

abbrev pub idempotent :
    ℕ → String → Option String → Exec World (Response Transfer) → Exec Gateway GatewayReply
unfolding with_key
idempotent user url none m = pure (gateway_error 400 "idempotency_key_required")
idempotent user url (some key) m =
    with_key (record { user = user; http_method = "POST"; original_url = url; key = key }) m

-- POST /v1/transfers of a user, by the URL as it was sent, with the header idempotency-key where it
-- is there.
pub record TransferPost : Type 0 where
  pub user : ℕ
  pub original_url : String
  pub idempotency_key : Option String
  pub body : CreateTransferBody
  pub fresh : SagaFresh

module _ (uuid_of : String → Option ℕ) (config : Config) where
  unfoldable pub post_transfer : TransferPost → Exec Gateway GatewayReply
  unfolding idempotent
  post_transfer p =
      idempotent p.user p.original_url (non_empty p.idempotency_key)
        (create_transfer uuid_of config p.fresh p.body)

  -- Requests one after the other, each with the fates of its calls.
  unfoldable pub post_all : List (TransferPost × Script) → Gateway → Gateway
  unfolding post_transfer
  post_all [] g = g
  post_all ((p, f) ∷ ps) g = post_all ps (post_transfer p f g).2
