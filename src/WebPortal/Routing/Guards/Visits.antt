-- ===== src/WebPortal/Routing/Guards/Visits.antt =====
-- services/web-portal/src/app/routing/ProtectedRoute.tsx: a visit of a guarded route.
use cn_banking_transaction_s.Base.{
  ℕ, ◌≡◌, refl, ap, ◌∙◌, Bool, true, false, String, Option, none, some, List, if◌then◌else◌,
}
use cn_banking_transaction_s.Effect.{Script, Result, ok, err}
use cn_banking_transaction_s.WebPortal.{UserRole, AuthSession, JwtClaims, read_stored_session}
use cn_banking_transaction_s.WebPortal.Client.{ApiResult, api_success, api_failure}
use cn_banking_transaction_s.WebPortal.Auth.{Browser, RefreshResponse, Route, refresh_auth_session}
use cn_banking_transaction_s.WebPortal.Auth.Sessions.{
  Refreshed, Unreadable, refresh_auth_session-Refreshed,
}
use cn_banking_transaction_s.WebPortal.Routing.Guards.{
  GuardView, restoring, to_login, forbidden_page, outlet, RefreshState, idle, restored, admits,
  guard_view, starts_refresh, settled, new_guard, rendered, visit,
}

module _ {S : Type 0} (claims_of : String → Option JwtClaims) where
  -- What the view that stays says of the session that is read behind the visit; the visit began in
  -- the browser `start`.
  abbrev pub Decided :
      (String → Route S RefreshResponse)
      → Browser S
      → Option (List UserRole)
      → GuardView × Browser S
      → Type 0
  Decided refresh start allowed (outlet, b) =
      (session : AuthSession) × (read_stored_session claims_of b.portal ≡ some session)
      × (admits allowed session.role ≡ true)
  Decided refresh start allowed (forbidden_page, b) =
      (session : AuthSession) × (read_stored_session claims_of b.portal ≡ some session)
      × (admits allowed session.role ≡ false)
  Decided refresh start allowed (to_login, b) = read_stored_session claims_of b.portal ≡ none
  Decided refresh start allowed (restoring, b) =
      (read_stored_session claims_of b.portal ≡ none) × Unreadable claims_of refresh start

  with_session :
      (refresh : String → Route S RefreshResponse) (start : Browser S)
      (allowed : Option (List UserRole)) (state : RefreshState) (session : AuthSession)
      (b : Browser S)
      → read_stored_session claims_of b.portal ≡ some session
      → Decided refresh start allowed (guard_view allowed true state (some session), b)
  unfolding guard_view
  with_session refresh start allowed state session b e = go (admits allowed session.role) refl
    where
      go :
          (ad : Bool)
          → admits allowed session.role ≡ ad
          → Decided refresh start allowed (if ad then outlet else forbidden_page, b)
      go true a = (session, e, a)
      go false a = (session, e, a)

  behind_refresh :
      (refresh : String → Route S RefreshResponse) (allowed : Option (List UserRole))
      (b : Browser S) (r : Result (ApiResult AuthSession) × Script × Browser S)
      → read_stored_session claims_of b.portal ≡ none
      → Refreshed claims_of refresh b r
      → Decided refresh b allowed (rendered claims_of allowed r)
  unfolding rendered settled guard_view
  behind_refresh refresh allowed b (ok (api_success c session i), f, b') e h =
      rw (h.0) (with_session refresh b allowed restored session b' h.0)
  behind_refresh refresh allowed b (ok (api_failure c x i r), f, b') e h =
      let nobody : read_stored_session claims_of b'.portal ≡ none =
        ap (read_stored_session claims_of) h ∙ e in
      rw nobody nobody
  behind_refresh refresh allowed b (err x, f, b') e h =
      let nobody : read_stored_session claims_of b'.portal ≡ none =
        ap (read_stored_session claims_of) h.0 ∙ e in
      rw nobody (nobody, h.1)

  -- Behind the refresh that a visit of a guarded route may start, the guard shows what is inside only
  -- if a session is read whose role is allowed, the page "forbidden" only if one is read whose role
  -- is not, and redirects to /login only if none is read. It goes on waiting only if none is read
  -- and the gateway's response to the refresh token has no data that can be read. This holds
  -- whatever calls fail.
  pub visit-Decided :
      (refresh : String → Route S RefreshResponse) (now : ℕ) (allowed : Option (List UserRole))
      (f : Script) (b : Browser S)
      → Decided refresh b allowed (visit claims_of refresh now allowed f b)
  unfolding visit starts_refresh
  visit-Decided refresh now allowed f b = go (read_stored_session claims_of b.portal) refl
    where
      go :
          (o : Option AuthSession)
          → read_stored_session claims_of b.portal ≡ o
          → Decided refresh b allowed (
              if starts_refresh o true new_guard.refresh_state
              then rendered claims_of allowed (refresh_auth_session claims_of refresh now f b)
              else (guard_view allowed true new_guard.refresh_state o, b))
      go none e =
          behind_refresh refresh allowed b (refresh_auth_session claims_of refresh now f b) e
            (refresh_auth_session-Refreshed claims_of refresh now f b)
      go (some session) e = with_session refresh b allowed idle session b e
