-- ===== src/WebPortal/Auth.antt =====
-- services/web-portal/src/lib/api/auth.ts: signing in and out, and the refresh of a session. The
-- routes of the gateway under /v1/auth are parameters.
pub mod Sessions
use cn_banking_transaction_s.Base.{ℕ, ◌+◌, ◌*◌, true, false, String, Option, none, some, List}
use cn_banking_transaction_s.Effect.{Result, ok, Exec, pure, throw, ◌>>=◌, ◌>>◌}
use cn_banking_transaction_s.Events.{codes}
use cn_banking_transaction_s.WebPortal.{
  AuthSession, JwtClaims, Portal, non_empty, or_else, parse_jwt_session, write_stored_session,
  clear_stored_session, read_refresh_token, read_stored_session,
}
use cn_banking_transaction_s.WebPortal.Client.{
  ApiResult, api_success, api_failure, code_text, FetchResponse, RequestInit, request_json,
  type_error,
}

-- The portal, and what is behind the gateway.
pub record Browser (S : Type 0) : Type 0 where
  pub portal : Portal
  pub server : S

pub record LoginRequest : Type 0 where
  pub email : String
  pub password : String

pub record LoginResponse : Type 0 where
  pub access_token : String
  pub refresh_token : String
  pub expires_in : ℕ

pub record RefreshResponse : Type 0 where
  pub access_token : String
  pub expires_in : ℕ

-- `expiresAtFromSeconds`
abbrev pub expires_at_from_seconds : ℕ → ℕ → ℕ
expires_at_from_seconds now expires_in = now + expires_in * 1_000

-- `...overrides`
abbrev pub override : String → ℕ → Option String → Option AuthSession → Option AuthSession
override refresh_token expires_at request_id none = none
override refresh_token expires_at request_id (some session) = some (record session {
  refresh_token = some refresh_token;
  expires_at = some expires_at;
  request_id = request_id;
})

-- A route behind the gateway: it sees the access token, and changes what is behind the gateway.
abbrev pub Route : Type 0 → Type 0 → Type 0
Route S A = Option String → S → FetchResponse A × S

abbrev pub through :
    {S A : Type 0} → Route S A → Option String → Browser S → FetchResponse A × Browser S
through route token b =
    let (response, s) = route token b.server in (response, record b { server = s })

abbrev pub on_portal : {S : Type 0} → (Portal → Portal) → Exec (Browser S) (Unit {0})
on_portal change f b = (ok tt, f, record b { portal = change b.portal })

-- A request without a token, for which there is no retry.
abbrev pub plain_init : {S : Type 0} → RequestInit (Browser S)
plain_init = record {
  access_token = none;
  refresh_access_token = none;
  retry_on_unauthorized = true;
}

abbrev pub token_of : Option AuthSession → Option String
token_of none = none
token_of (some session) = some session.access_token

module _ (claims_of : String → Option JwtClaims) where
  -- `sessionFromLogin`
  unfoldable pub session_from_login : ℕ → LoginResponse → Option String → Option AuthSession
  session_from_login now response request_id =
      override response.refresh_token (expires_at_from_seconds now response.expires_in) request_id
        (parse_jwt_session claims_of response.access_token)

  -- `sessionFromRefresh`
  unfoldable pub session_from_refresh :
      ℕ → RefreshResponse → String → Option String → Option AuthSession
  session_from_refresh now response refresh_token request_id =
      override refresh_token (expires_at_from_seconds now response.expires_in) request_id
        (parse_jwt_session claims_of response.access_token)

-- `data: null`
abbrev pub without_data : ApiResult (Option (Unit {0})) → ApiResult (Option (Unit {0}))
without_data (api_success status d i) = api_success status none i
without_data (api_failure status e i r) = api_failure status e i r

abbrev pub token_of_result : ApiResult AuthSession → Option String
token_of_result (api_failure status e i r) = none
token_of_result (api_success status session i) = some session.access_token

module _ {S : Type 0} (claims_of : String → Option JwtClaims) where
  -- The session is stored where there is one.
  abbrev pub store :
      ℕ → Option String → Option AuthSession → Exec (Browser S) (ApiResult AuthSession)
  store status request_id none =
      pure (api_failure status (code_text (codes "invalid_auth_response")) request_id none)
  store status request_id (some session) =
      on_portal (write_stored_session session) >> pure (api_success status session request_id)

  -- `accessToken.split` of a body that is `null`, or has no text there, throws.
  abbrev pub signed_in :
      ℕ → ApiResult (Option LoginResponse) → Exec (Browser S) (ApiResult AuthSession)
  signed_in now (api_failure status e i r) = pure (api_failure status e i r)
  signed_in now (api_success status none i) = throw type_error
  signed_in now (api_success status (some response) i) =
      store status i (session_from_login claims_of now response i)

  -- `loginUser`
  unfoldable pub login_user :
      (LoginRequest → Route S LoginResponse)
      → ℕ
      → LoginRequest
      → Exec (Browser S) (ApiResult AuthSession)
  unfolding session_from_login
  login_user login now input = request_json (through (login input)) plain_init >>= signed_in now

  abbrev pub renewed :
      ℕ → String → ApiResult (Option RefreshResponse) → Exec (Browser S) (ApiResult AuthSession)
  renewed now refresh_token (api_failure status e i r) = pure (api_failure status e i r)
  renewed now refresh_token (api_success status none i) = throw type_error
  renewed now refresh_token (api_success status (some response) i) =
      store status i (session_from_refresh claims_of now response refresh_token i)

  abbrev pub refresh_with :
      (String → Route S RefreshResponse)
      → ℕ
      → Option String
      → Exec (Browser S) (ApiResult AuthSession)
  unfolding session_from_refresh
  refresh_with refresh now none =
      pure (api_failure 401 (code_text (codes "refresh_token_required")) none none)
  refresh_with refresh now (some refresh_token) =
      request_json (through (refresh refresh_token)) plain_init >>= renewed now refresh_token

  -- `refreshAuthSession`
  unfoldable pub refresh_auth_session :
      (String → Route S RefreshResponse) → ℕ → Exec (Browser S) (ApiResult AuthSession)
  refresh_auth_session refresh now f b =
      refresh_with refresh now (non_empty (read_refresh_token b.portal)) f b

  -- `refreshAccessTokenForRetry`
  unfoldable pub refresh_access_token_for_retry :
      (String → Route S RefreshResponse) → ℕ → Exec (Browser S) (Option String)
  unfolding refresh_auth_session
  refresh_access_token_for_retry refresh now =
      refresh_auth_session refresh now >>= λ r. pure (token_of_result r)

  abbrev pub logout_init : Portal → RequestInit (Browser S)
  logout_init p = record {
    access_token = token_of (read_stored_session claims_of p);
    refresh_access_token = none;
    retry_on_unauthorized = false;
  }

  -- `logoutUser`: the storage is cleared behind the request, whatever its result.
  unfoldable pub logout_user :
      (Option String → Route S (Unit {0})) → Exec (Browser S) (ApiResult (Option (Unit {0})))
  logout_user logout f b =
      (request_json (through (logout (read_refresh_token b.portal))) (logout_init b.portal)
          >>= λ result. on_portal clear_stored_session >> pure (without_data result))
        f b

  -- `authInit`: the token of the session that is given, or else of the one that is stored.
  unfoldable pub auth_init :
      (String → Route S RefreshResponse) → ℕ → Option AuthSession → Portal → RequestInit (Browser S)
  unfolding refresh_access_token_for_retry
  auth_init refresh now session p = record {
    access_token = or_else (token_of session) (token_of (read_stored_session claims_of p));
    refresh_access_token = some (refresh_access_token_for_retry refresh now);
    retry_on_unauthorized = true;
  }

  -- A request of an API client: `requestJson(url, { ...authInit(options) })`.
  unfoldable pub authorized :
      {A : Type 0}
      → (String → Route S RefreshResponse)
      → Route S A
      → ℕ
      → Option AuthSession
      → Exec (Browser S) (ApiResult (Option A))
  unfolding auth_init
  authorized refresh route now session f b =
      request_json (through route) (auth_init refresh now session b.portal) f b
