-- ===== src/WebPortal/Auth/Sessions.antt =====
-- services/web-portal/src/lib/api/auth.ts: what becomes of the session, whatever calls fail.
use cn_banking_transaction_s.Base.{
  ℕ, ◌≡◌, refl, sym, ap, ◌∙◌, Bool, true, false, String, Option, none, some, [], ◌∷◌, Bool-cases,
  inl, inr, if◌then◌else◌, str_eq,
}
use cn_banking_transaction_s.Effect.{
  delivered, lost, reply_lost, Script, Result, ok, err, Exec, pure, throw, catch, ◌>>=◌, ◌>>◌,
}
use cn_banking_transaction_s.WebPortal.{
  AuthSession, JwtClaims, Portal, non_empty, or_else, write_stored_session, clear_stored_session,
  read_refresh_token, read_stored_session, parse_jwt_session,
}
use cn_banking_transaction_s.WebPortal.Client.{
  ApiResult, api_success, api_failure, FetchResponse, RequestInit, FirstEnd, first_result,
  result_of, is_unauthorized, attempt, behind_first, refreshed, network_failure, last_attempt,
  request_json, is_ok, normalize_gateway_error, to_retry_after, throws_type_error, type_error,
}
use cn_banking_transaction_s.WebPortal.Auth.{
  Browser, RefreshResponse, Route, through, on_portal, plain_init, logout_init, override,
  expires_at_from_seconds, session_from_refresh, store, renewed, refresh_with, refresh_auth_session,
  logout_user, without_data,
}

-- The data of a success is the data of the response.
abbrev FromResponse : {A : Type 0} → FetchResponse A → ApiResult (Option A) → Type 0
FromResponse response (api_success c d i) = d ≡ response.data_
FromResponse response (api_failure c e i r) = Unit

result_of-FromResponse :
    {A : Type 0} (response : FetchResponse A) → FromResponse response (result_of response)
unfolding result_of normalize_gateway_error
result_of-FromResponse response = go (is_ok response.status)
  where
    go :
        (good : Bool)
        → FromResponse response (
            if good
            then api_success response.status response.data_ response.request_id
            else normalize_gateway_error response.status response.error_body response.request_id
                (to_retry_after response.retry_after_header response.error_body))
    go true = refl
    go false = tt

-- The run has returned what the response says, and the portal is as before.
abbrev Quiet :
    {S A : Type 0}
    → FetchResponse A
    → Portal
    → Result (ApiResult (Option A)) × Script × Browser S
    → Type 0
Quiet response p (ok a, f, b) = (b.portal ≡ p) × FromResponse response a
Quiet response p (err e, f, b) = ⊥

module _ {S A : Type 0} (route : Route S A) (init : RequestInit (Browser S)) where
  abbrev rest : FirstEnd (Option A) → Exec (Browser S) (ApiResult (Option A))
  rest = last_attempt (through route)

  abbrev response : Browser S → FetchResponse A × Browser S
  response b = through route (non_empty init.access_token) b

  kept_first :
      (x : FetchResponse A) (first : ApiResult (Option A)) (f : Script) (b : Browser S)
      → FromResponse x first
      → init.refresh_access_token ≡ none
      → Quiet x b.portal (
          (catch (behind_first (through route) init first) (network_failure (through route))
              >>= rest)
            f b)
  unfolding behind_first attempt
  kept_first x first f b from plain =
      go (is_unauthorized first) init.refresh_access_token plain init.retry_on_unauthorized
    where
      go :
          (u : Bool) (o : Option (Exec (Browser S) (Option String)))
          → o ≡ none
          → (retry : Bool)
          → Quiet x b.portal (
              (catch
                    (λ f s.
                      if u
                      then refreshed (through route) first o retry f s
                      else (ok (first_result first), f, s))
                    (network_failure (through route))
                  >>= rest)
                f b)
      go false o e retry = (refl, from)
      go true none e retry = (refl, from)
      go true (some refresh) e retry = cc

  kept_parsed :
      (x : FetchResponse A) (malformed : Bool) (f : Script) (b : Browser S)
      → init.refresh_access_token ≡ none
      → Quiet x b.portal (
          (catch
                ((if malformed then throw type_error else pure (result_of x))
                  >>= behind_first (through route) init)
                (network_failure (through route))
              >>= rest)
            f b)
  unfolding attempt
  kept_parsed x true f b e = (refl, tt)
  kept_parsed x false f b e = kept_first x (result_of x) f b (result_of-FromResponse x) e

  kept_request :
      (f : Script) (b : Browser S)
      → init.refresh_access_token ≡ none
      → Quiet (response b).0 b.portal (request_json (through route) init f b)
  unfolding request_json attempt
  kept_request [] b e =
      kept_parsed (response b).0 (throws_type_error (response b).0) [] (response b).1 e
  kept_request (delivered ∷ f) b e =
      kept_parsed (response b).0 (throws_type_error (response b).0) f (response b).1 e
  kept_request (lost ∷ f) b e = (refl, tt)
  kept_request (reply_lost ∷ f) b e = (refl, tt)

module _ {S : Type 0} (claims_of : String → Option JwtClaims) where
  -- Nobody is signed in, and there is no token for a refresh.
  abbrev pub SignedOut : {A : Type 0} → Result A × Script × Browser S → Type 0
  SignedOut (ok a, f, b) =
      (read_stored_session claims_of b.portal ≡ none) × (read_refresh_token b.portal ≡ none)
  SignedOut (err e, f, b) = ⊥

  cleared :
      (x : FetchResponse (Unit {0}))
      (r : Result (ApiResult (Option (Unit {0}))) × Script × Browser S) (p : Portal)
      → Quiet x p r
      → SignedOut (
          ((λ f b. r) >>= λ result. on_portal clear_stored_session >> pure (without_data result))
            r.1 r.2)
  unfolding clear_stored_session read_refresh_token read_stored_session
  cleared x (ok a, f, b) p q = (refl, refl)
  cleared x (err e, f, b) p q = absurd q

  -- `logoutUser` always returns, and behind it no session and no refresh token can be read, whatever
  -- the gateway answers and whatever calls fail.
  pub logout_user-SignedOut :
      (logout : Option String → Route S (Unit {0})) (f : Script) (b : Browser S)
      → SignedOut (logout_user claims_of logout f b)
  unfolding logout_user
  logout_user-SignedOut logout f b =
      cleared (response (logout (read_refresh_token b.portal)) (logout_init claims_of b.portal) b).0
        _ b.portal
        (kept_request (logout (read_refresh_token b.portal)) (logout_init claims_of b.portal) f b
          refl)

  -- The refresh token is `token`, and the gateway's response to it has no data that can be read.
  abbrev pub Unreadable : (String → Route S RefreshResponse) → Browser S → Type 0
  Unreadable refresh b =
      (token : String) × (read_refresh_token b.portal ≡ some token)
      × ((refresh token none b.server).0.data_ ≡ none)

  -- The end of a refresh, from the browser `b`.
  abbrev pub Refreshed :
      (String → Route S RefreshResponse)
      → Browser S
      → Result (ApiResult AuthSession) × Script × Browser S
      → Type 0
  Refreshed refresh b (ok (api_success c session i), f, b') =
      (read_stored_session claims_of b'.portal ≡ some session)
      × (read_refresh_token b'.portal ≡ read_refresh_token b.portal)
      × (session.refresh_token ≡ read_refresh_token b.portal)
  Refreshed refresh b (ok (api_failure c e i r), f, b') = b'.portal ≡ b.portal
  Refreshed refresh b (err e, f, b') = (b'.portal ≡ b.portal) × Unreadable refresh b

  stored :
      (now c : ℕ) (i : Option String) (token : String) (response : RefreshResponse) (f : Script)
      (b : Browser S) (refresh : String → Route S RefreshResponse) (start : Browser S)
      → b.portal ≡ start.portal
      → read_refresh_token start.portal ≡ some token
      → non_empty (some token) ≡ some token
      → Refreshed refresh start
          (store claims_of c i (session_from_refresh claims_of now response token i) f b)
  unfolding session_from_refresh write_stored_session read_refresh_token read_stored_session
  stored now c i token response f b refresh start q had full =
      go (parse_jwt_session claims_of response.access_token)
    where
      go :
          (o : Option AuthSession)
          → Refreshed refresh start (
              store claims_of c i
                (override token (expires_at_from_seconds now response.expires_in) i o)
                f
                b)
      go none = q
      go (some session) = (refl, ap (λ o. or_else o (some token)) full ∙ sym had, sym had)

  renewed-Refreshed :
      (now : ℕ) (token : String)
      (r : Result (ApiResult (Option RefreshResponse)) × Script × Browser S)
      (refresh : String → Route S RefreshResponse) (start : Browser S)
      → Quiet (refresh token none start.server).0 start.portal r
      → read_refresh_token start.portal ≡ some token
      → non_empty (some token) ≡ some token
      → Refreshed refresh start (((λ f b. r) >>= renewed claims_of now token) r.1 r.2)
  renewed-Refreshed now token (ok (api_failure c e i x), f, b) refresh start q had full = q.0
  renewed-Refreshed now token (ok (api_success c none i), f, b) refresh start q had full =
      (q.0, (token, had, sym q.1))
  renewed-Refreshed now token (ok (api_success c (some renewal) i), f, b) refresh start q had full =
      stored now c i token renewal f b refresh start q.0 had full
  renewed-Refreshed now token (err e, f, b) refresh start q had full = absurd q

  -- If `refreshAuthSession` succeeds, then the session that it returns is the one that is read from
  -- now on, under the refresh token that was there before. If it ends with a failure or rejects, then
  -- the portal is as it was; and it rejects only if the gateway's response to the refresh token has
  -- no data that can be read. This holds whatever calls fail.
  pub refresh_auth_session-Refreshed :
      (refresh : String → Route S RefreshResponse) (now : ℕ) (f : Script) (b : Browser S)
      → Refreshed refresh b (refresh_auth_session claims_of refresh now f b)
  unfolding refresh_auth_session refresh_with
  refresh_auth_session-Refreshed refresh now f b = go (read_refresh_token b.portal) refl
    where
      go :
          (o : Option String)
          → read_refresh_token b.portal ≡ o
          → Refreshed refresh b (refresh_with claims_of refresh now (non_empty o) f b)
      go none e = refl
      go (some token) e = elim (Bool-cases (str_eq token "")) [
        | inl empty ↦ rw empty refl
        | inr full ↦
            let kept : non_empty (some token) ≡ some token = rw full refl in
            rw full (
              renewed-Refreshed now token (request_json (through (refresh token)) plain_init f b)
                refresh b (kept_request (refresh token) plain_init f b refl) e kept)
      ]
