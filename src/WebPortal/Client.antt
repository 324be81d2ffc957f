-- ===== src/WebPortal/Client.antt =====
-- services/web-portal/src/lib/api/client.ts: a request with its one retry. `fetch` is a parameter,
-- the far side of a call: it takes the access token, where one is sent, and the state to a response.
-- A text that is compared only is its list of code points.
pub mod Attempts
use cn_banking_transaction_s.Base.{
  ℕ, Bool, true, false, not, ◌&&◌, String, Option, none, some, List, [], ◌∷◌, map, leb, ltb, ◌==◌,
  ◌+◌, if◌then◌else◌,
}
use cn_banking_transaction_s.Effect.{
  Thrown, axios, plain, not_created, throw, Message, reported, Result, ok, Exec, pure, call, catch,
  ◌>>=◌, ◌>>◌,
}
use cn_banking_transaction_s.Events.{codes}
use cn_banking_transaction_s.WebPortal.{non_empty, or_else}

-- `error` of a failure: a code of the gateway, or the message of what was thrown.
pub data ApiError : Type 0 where
  code_text : List ℕ → ApiError
  thrown_text : Message → ApiError

pub data ApiResult (A : Type 0) : Type 0 where
  api_success : (status : ℕ) (data_ : A) (request_id : Option String) → ApiResult A
  api_failure :
      (status : ℕ) (error : ApiError) (request_id : Option String) (retry_after : Option ℕ)
      → ApiResult A

-- `error` of the body: a text, an object with a code that is a text or none, or `null`.
pub data GatewayError : Type 0 where
  error_null : GatewayError
  error_text : List ℕ → GatewayError
  error_object : Option (List ℕ) → GatewayError

pub record GatewayErrorBody : Type 0 where
  pub error : Option GatewayError
  pub retry_after : Option ℕ

-- A response: `Number(headers.get('retry-after'))` where that is finite, and what `parseResponseJson`
-- gives, as the data of a success and as the body of an error. It is `null` for 204 and for a body
-- that is no JSON; `none` is this, and a body that is not of the shape that is read.
pub record FetchResponse (A : Type 0) : Type 0 where
  pub status : ℕ
  pub data_ : Option A
  pub error_body : Option GatewayErrorBody
  pub request_id : Option String
  pub retry_after_header : Option ℕ

-- `response.ok`
abbrev pub is_ok : ℕ → Bool
is_ok status = leb 200 status && ltb status 300

-- `defaultErrorByStatus`
unfoldable pub default_error_by_status : ℕ → Option (List ℕ)
default_error_by_status status =
    if status == 400
    then some (codes "validation_failed")
    else if status == 401
    then some (codes "invalid_token")
    else if status == 403
    then some (codes "forbidden")
    else if status == 404
    then some (codes "not_found")
    else if status == 429
    then some (codes "rate_limit_exceeded")
    else if status == 500
    then some (codes "internal_error")
    else if status == 503
    then some (codes "service_degraded")
    else none

-- `toLowerCase` on the codes of the gateway, which are ASCII.
abbrev pub lower_char : ℕ → ℕ
lower_char c = if leb b'A' c && leb c b'Z' then c + 32 else c

abbrev pub to_lower_case : List ℕ → List ℕ
to_lower_case text = map lower_char text

abbrev pub nested_code : Option GatewayError → Option (List ℕ)
nested_code none = none
nested_code (some error_null) = none
nested_code (some (error_text text)) = none
nested_code (some (error_object none)) = none
nested_code (some (error_object (some code))) = some (to_lower_case code)

abbrev pub error_of_body : Option GatewayErrorBody → Option GatewayError
error_of_body none = none
error_of_body (some body) = body.error

abbrev pub or_fallback : Option (List ℕ) → List ℕ
or_fallback none = codes "request_failed"
or_fallback (some text) = text

abbrev pub gateway_error_text : ℕ → Option GatewayError → List ℕ
gateway_error_text status (some (error_text text)) = text
gateway_error_text status e = or_fallback (or_else (nested_code e) (default_error_by_status status))

-- `toRetryAfter`
abbrev pub body_retry_after : Option GatewayErrorBody → Option ℕ
body_retry_after none = none
body_retry_after (some body) = body.retry_after

unfoldable pub to_retry_after : Option ℕ → Option GatewayErrorBody → Option ℕ
to_retry_after header body = or_else header (body_retry_after body)

-- `normalizeGatewayError`
unfoldable pub normalize_gateway_error :
    {A : Type 0} → ℕ → Option GatewayErrorBody → Option String → Option ℕ → ApiResult A
unfolding default_error_by_status
normalize_gateway_error status body request_id retry_after =
    api_failure status (code_text (gateway_error_text status (error_of_body body))) request_id
      retry_after

-- `typeof null` is 'object', so that `data.error.code` throws a TypeError where `error` is null.
abbrev pub is_null : Option GatewayError → Bool
is_null (some error_null) = true
is_null _ = false

unfoldable pub throws_type_error : {A : Type 0} → FetchResponse A → Bool
throws_type_error response =
    not (is_ok response.status) && is_null (error_of_body response.error_body)

-- A TypeError, of which the message is not looked at.
abbrev pub type_error : Thrown
type_error = plain not_created

-- What `attempt` makes of a response where it does not throw.
unfoldable pub result_of : {A : Type 0} → FetchResponse A → ApiResult (Option A)
unfolding normalize_gateway_error to_retry_after
result_of response =
    if is_ok response.status
    then api_success response.status response.data_ response.request_id
    else normalize_gateway_error response.status response.error_body response.request_id
        (to_retry_after response.retry_after_header response.error_body)

-- What `fetch` throws where no response comes.
abbrev pub network_error : Thrown
network_error = axios none

-- The parts of `ApiRequestInit` that steer the request: the token, `refreshAccessToken`, and
-- `retryOnUnauthorized !== false`.
pub record RequestInit (S : Type 0) : Type 0 where
  pub access_token : Option String
  pub refresh_access_token : Option (Exec S (Option String))
  pub retry_on_unauthorized : Bool

-- The `try` ends with a result, or with the token of a retry.
pub data FirstEnd (A : Type 0) : Type 0 where
  first_result : ApiResult A → FirstEnd A
  retry_with : String → FirstEnd A

-- !result.ok && result.status === 401
abbrev pub is_unauthorized : {A : Type 0} → ApiResult A → Bool
is_unauthorized (api_success status d i) = false
is_unauthorized (api_failure status e i r) = status == 401

module _ {S A : Type 0} (fetch : Option String → S → FetchResponse A × S) where
  abbrev pub responded : FetchResponse A × S → Result (FetchResponse A) × S
  responded (response, s) = (ok response, s)

  abbrev pub parsed : FetchResponse A → Exec S (ApiResult (Option A))
  parsed response =
      if throws_type_error response then throw type_error else pure (result_of response)

  -- `attempt`; an empty token is not sent.
  unfoldable pub attempt : Option String → Exec S (ApiResult (Option A))
  unfolding result_of throws_type_error
  attempt token = call network_error (λ s. responded (fetch (non_empty token) s)) >>= parsed

  -- if (refreshedToken)
  abbrev pub with_refreshed : ApiResult (Option A) → Option String → Exec S (FirstEnd (Option A))
  with_refreshed first none = pure (first_result first)
  with_refreshed first (some token) = pure (retry_with token)

  abbrev pub refreshed :
      ApiResult (Option A) → Option (Exec S (Option String)) → Bool → Exec S (FirstEnd (Option A))
  refreshed first none retry = pure (first_result first)
  refreshed first (some refresh) false = pure (first_result first)
  refreshed first (some refresh) true = refresh >>= λ token. with_refreshed first (non_empty token)

  unfoldable pub behind_first : RequestInit S → ApiResult (Option A) → Exec S (FirstEnd (Option A))
  behind_first init first f s =
      if is_unauthorized first
      then refreshed first init.refresh_access_token init.retry_on_unauthorized f s
      else (ok (first_result first), f, s)

  -- The `catch` answers with status 0.
  abbrev pub network_failure : Thrown → Exec S (FirstEnd (Option A))
  network_failure e = pure (first_result (api_failure 0 (thrown_text (reported e)) none none))

  -- `return attempt(refreshedToken)` leaves the `try` before the promise settles, so that what the
  -- retry throws is not caught.
  abbrev pub last_attempt : FirstEnd (Option A) → Exec S (ApiResult (Option A))
  unfolding attempt
  last_attempt (first_result r) = pure r
  last_attempt (retry_with token) = attempt (some token)

  -- `requestJson`
  unfoldable pub request_json : RequestInit S → Exec S (ApiResult (Option A))
  unfolding attempt behind_first
  request_json init =
      catch (attempt init.access_token >>= behind_first init) network_failure >>= last_attempt
