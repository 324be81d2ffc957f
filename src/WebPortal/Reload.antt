-- ===== src/WebPortal/Reload.antt =====
-- services/web-portal/src/app/auth/session.ts: what a session leaves behind when the page is loaded
-- again, which empties the memory and keeps the storage.
use cn_banking_transaction_s.Base.{◌≡◌, refl, String, Option, none, some}
use cn_banking_transaction_s.WebPortal.{
  AuthSession, JwtClaims, Portal, write_stored_session, clear_stored_session, read_refresh_token,
  read_stored_session,
}

abbrev pub reload : Portal → Portal
reload p = record p { in_memory_session = none }

-- A session that is written is read back as it is until the page is loaded again; then its refresh
-- token is still read, exactly, and no session is, whatever the access token says. Behind
-- `clearStoredSession` neither is read, before a reload or after.
pub write_stored_session-reload :
    (claims_of : String → Option JwtClaims) (s : AuthSession) (p : Portal)
    → (read_stored_session claims_of (write_stored_session s p) ≡ some s)
      × (read_refresh_token (reload (write_stored_session s p)) ≡ s.refresh_token)
      × (read_stored_session claims_of (reload (write_stored_session s p)) ≡ none)
      × (read_refresh_token (clear_stored_session (write_stored_session s p)) ≡ none)
      × (read_stored_session claims_of (reload (clear_stored_session (write_stored_session s p)))
          ≡ none)
unfolding write_stored_session clear_stored_session read_refresh_token read_stored_session
write_stored_session-reload claims_of s p = (refl, refl, refl, refl, refl)
