-- ===== src/WebPortal.antt =====
-- services/web-portal/src/app/auth/session.ts: the session in memory and in the browser's storage.
-- `claims_of` is the reading of an access token: the part behind the first dot, decoded from
-- base64url and parsed as JSON, or `none` where a step fails.
pub mod Reload
pub mod Client
pub mod Auth
pub mod Routing
pub mod Forms
use cn_banking_transaction_s.Base.{
  ℕ, String, Option, none, some, List, [], ◌∷◌, str_eq, if◌then◌else◌,
}

pub data UserRole : Type 0 where
  customer operator admin : UserRole

pub record AuthSession : Type 0 where
  pub access_token : String
  pub refresh_token : Option String
  pub role : UserRole
  pub subject : Option String
  pub expires_at : Option ℕ
  pub request_id : Option String

-- The claims that are looked at: `role` and `roles`, each as far as it is text.
pub record JwtClaims : Type 0 where
  pub sub : Option String
  pub role : Option String
  pub roles : List String

-- A parsed object: each field, where it is there with the type that the code asks for.
pub record StoredFields : Type 0 where
  pub access_token : Option String
  pub refresh_token : Option String
  pub role : Option UserRole
  pub subject : Option String
  pub expires_at : Option ℕ

-- The text under `authStorageKey`: the JSON of an object, or a text that is none.
pub data StoredText : Type 0 where
  json : StoredFields → StoredText
  other_text : String → StoredText

pub record Portal : Type 0 where
  pub in_memory_session : Option AuthSession
  pub storage : Option StoredText

-- `isUserRole`
unfoldable pub user_role : String → Option UserRole
user_role text =
    if str_eq text "customer"
    then some customer
    else if str_eq text "operator"
    then some operator
    else if str_eq text "admin"
    then some admin
    else none

abbrev pub or_else {ℓ} : {A : Type ℓ} → Option A → Option A → Option A
or_else none b = b
or_else (some a) b = some a

-- claims.roles?.find(isUserRole)
unfoldable pub find_role : List String → Option UserRole
unfolding user_role
find_role [] = none
find_role (text ∷ rest) = or_else (user_role text) (find_role rest)

abbrev pub named_role : Option String → Option UserRole
unfolding user_role
named_role none = none
named_role (some text) = user_role text

abbrev pub jwt_session : String → Option String → Option UserRole → Option AuthSession
jwt_session token subject none = none
jwt_session token subject (some role) = some (record {
  access_token = token;
  refresh_token = none;
  role = role;
  subject = subject;
  expires_at = none;
  request_id = none;
})

abbrev pub session_of_claims : String → Option JwtClaims → Option AuthSession
session_of_claims token none = none
session_of_claims token (some c) =
    jwt_session token c.sub (or_else (named_role c.role) (find_role c.roles))

-- `writeStoredSession`: the access token is kept in memory only.
unfoldable pub write_stored_session : AuthSession → Portal → Portal
write_stored_session session p = record {
  in_memory_session = some session;
  storage = some (
      json (record {
        access_token = none;
        refresh_token = session.refresh_token;
        role = some session.role;
        subject = session.subject;
        expires_at = session.expires_at;
      }));
}

-- `clearStoredSession`
unfoldable pub clear_stored_session : Portal → Portal
clear_stored_session p = record { in_memory_session = none; storage = none }

-- A text of JavaScript is true unless it is empty.
abbrev pub non_empty : Option String → Option String
non_empty none = none
non_empty (some text) = if str_eq text "" then none else some text

abbrev pub memory_refresh_token : Option AuthSession → Option String
memory_refresh_token none = none
memory_refresh_token (some s) = non_empty s.refresh_token

abbrev pub stored_refresh_token : Option StoredText → Option String
stored_refresh_token none = none
stored_refresh_token (some (json fields)) = fields.refresh_token
stored_refresh_token (some (other_text text)) = none

-- `readRefreshToken`
unfoldable pub read_refresh_token : Portal → Option String
read_refresh_token p =
    or_else (memory_refresh_token p.in_memory_session) (stored_refresh_token p.storage)

module _ (claims_of : String → Option JwtClaims) where
  -- `parseJwtSession` without overrides
  unfoldable pub parse_jwt_session : String → Option AuthSession
  unfolding find_role
  parse_jwt_session token = session_of_claims token (claims_of token)

  abbrev pub session_of_fields : Option String → StoredFields → Option UserRole → Option AuthSession
  session_of_fields none fields role = none
  session_of_fields (some token) fields none = parse_jwt_session token
  session_of_fields (some token) fields (some role) = some (record {
    access_token = token;
    refresh_token = fields.refresh_token;
    role = role;
    subject = fields.subject;
    expires_at = fields.expires_at;
    request_id = none;
  })

  abbrev pub stored_session : Option StoredText → Option AuthSession
  stored_session none = none
  stored_session (some (json fields)) = session_of_fields fields.access_token fields fields.role
  stored_session (some (other_text text)) = if str_eq text "" then none else parse_jwt_session text

  -- `readStoredSession`
  unfoldable pub read_stored_session : Portal → Option AuthSession
  unfolding parse_jwt_session
  read_stored_session p = or_else p.in_memory_session (stored_session p.storage)
