-- ===== src/Gateway/Access.antt =====
-- services/api-gateway/src/middleware/auth.js, and GET /v1/accounts/:id as it passes the gateway.
-- `jwt.verify` and the hash of a token are parameters.
use cn_banking_transaction_s.Base.{
  ℕ, ◌≡◌, refl, Bool, true, false, ◌||◌, String, Option, none, some, List, [], ◌∷◌, str_eq,
  Bool-cases, inl, inr, ◌⊎◌, ap, arith, eq_iff, if◌then◌else◌,
}
use cn_banking_transaction_s.Effect.{
  Thrown, axios, Result, ok, err, Script, Exec, pure, call, request, catch, ◌>>=◌, Response,
  success, failure,
}
use cn_banking_transaction_s.Effect.Answers.{
  IfOk, Answers, Any, Answers-pure, Answers-call, Answers-bind, Answers-catch, Answers-request,
}
use cn_banking_transaction_s.Types.{Account}
use cn_banking_transaction_s.AccountService.{AccountsDb, select_account}
use cn_banking_transaction_s.AccountService.Routes.{database_failure}
use cn_banking_transaction_s.AccountService.Reads.{
  Caller, is_admin, is_owner, may_read, read_reply, get_account,
}
use cn_banking_transaction_s.Gateway.{redis_failure}

-- The header `authorization`: none, `Bearer ` with a token, or another text.
pub data AuthHeader : Type 0 where
  absent not_bearer : AuthHeader
  bearer : String → AuthHeader

pub record Claims : Type 0 where
  pub sub : ℕ
  pub role : String

-- The end of `jwt.verify`
pub data Verified : Type 0 where
  decoded : Claims → Verified
  token_expired invalid_token : Verified

-- `auth:blacklist:...` in Redis, by the hashes of the tokens, and the accounts.
pub record AccessState : Type 0 where
  pub blacklist : List String
  pub accounts_db : AccountsDb

unfoldable pub is_blacklisted : String → List String → Bool
is_blacklisted hash [] = false
is_blacklisted hash (h ∷ rest) = str_eq h hash || is_blacklisted hash rest

-- `next()` with the user, or 401 with the code.
pub data AuthEnd : Type 0 where
  let_through : Claims → AuthEnd
  unauthorized : String → AuthEnd

pub data AccessReply : Type 0 where
  account_answer : Response Account → AccessReply
  gateway_refusal : ℕ → String → AccessReply

-- x-user-id and x-user-role
abbrev pub caller_of : Claims → Caller
caller_of claims = record { user = some claims.sub; role = some claims.role }

abbrev pub on_account_service : {A : Type 0} → Exec AccountsDb A → Exec AccessState A
on_account_service m f s =
    let (r, f', db) = m f s.accounts_db in (r, f', record s { accounts_db = db })

abbrev pub checked : Claims → Bool → AuthEnd
checked claims revoked = if revoked then unauthorized "token_revoked" else let_through claims

module _ (verify : String → Verified) (hash_token : String → String) where
  abbrev pub exists_blacklisted : String → AccessState → Result Bool × AccessState
  exists_blacklisted token s = (ok (is_blacklisted (hash_token token) s.blacklist), s)

  abbrev pub behind_verify : String → Verified → Exec AccessState AuthEnd
  behind_verify token token_expired = pure (unauthorized "token_expired")
  behind_verify token invalid_token = pure (unauthorized "invalid_token")
  behind_verify token (decoded claims) =
      call redis_failure (exists_blacklisted token) >>= λ revoked. pure (checked claims revoked)

  -- `authMiddleware`
  unfoldable pub auth_middleware : AuthHeader → Exec AccessState AuthEnd
  auth_middleware absent = pure (unauthorized "missing_token")
  auth_middleware not_bearer = pure (unauthorized "invalid_token")
  auth_middleware (bearer token) = behind_verify token (verify token)

  abbrev pub upstream_unavailable : Thrown → Exec AccessState AccessReply
  upstream_unavailable e = pure (gateway_refusal 502 "upstream_unavailable")

  abbrev pub proxied : Option ℕ → AuthEnd → Exec AccessState AccessReply
  proxied id (unauthorized code) = pure (gateway_refusal 401 code)
  proxied id (let_through claims) =
      catch
        (request (axios none) (on_account_service (get_account (caller_of claims) id)) >>= λ r.
          pure (account_answer r))
        upstream_unavailable

  -- GET /v1/accounts/:id
  unfoldable pub access_account : AuthHeader → Option ℕ → Exec AccessState AccessReply
  unfolding auth_middleware
  access_account header id = auth_middleware header >>= proxied id

  -- What an answer that shows an account says of the request.
  abbrev pub Entitled : AuthHeader → List String → AccessReply → Type 0
  Entitled header blacklist (gateway_refusal status code) = Unit
  Entitled header blacklist (account_answer (failure c x)) = Unit
  Entitled header blacklist (account_answer (success c a)) =
      (token : String) × (claims : Claims) × (header ≡ bearer token)
      × (verify token ≡ decoded claims)
      × (is_blacklisted (hash_token token) blacklist ≡ false)
      × ((claims.role ≡ "admin") ⊎ (a.owner_id ≡ none) ⊎ (a.owner_id ≡ some claims.sub))

  -- Who was let through.
  abbrev Passed : AuthHeader → List String → AuthEnd → Type 0
  Passed header blacklist (unauthorized code) = Unit
  Passed header blacklist (let_through claims) =
      (token : String) × (header ≡ bearer token)
      × (verify token ≡ decoded claims)
      × (is_blacklisted (hash_token token) blacklist ≡ false)

  owner_cases :
      (owner : Option ℕ) (sub : ℕ)
      → is_owner owner (some sub) ≡ true
      → (owner ≡ none) ⊎ (owner ≡ some sub)
  unfolding is_owner
  owner_cases none sub h = inl refl
  owner_cases (some owner) sub h = inr (ap some (ground arith))

  may_read_cases :
      (claims : Claims) (a : Account)
      → may_read (caller_of claims) a ≡ true
      → (claims.role ≡ "admin") ⊎ (a.owner_id ≡ none) ⊎ (a.owner_id ≡ some claims.sub)
  unfolding may_read is_admin
  may_read_cases claims a h = elim (Bool-cases (str_eq claims.role "admin")) [
    | inl same ↦ inl ((eq_iff claims.role "admin").0 same)
    | inr other ↦
        let owner : is_owner a.owner_id (some claims.sub) ≡ true = rw (other) at h in
        inr (owner_cases a.owner_id claims.sub owner)
  ]

  abbrev MayRead : Caller → Response Account → Type 0
  MayRead caller (failure c x) = Unit
  MayRead caller (success c a) = may_read caller a ≡ true

  read_reply-MayRead :
      (caller : Caller) (o : Option Account) → Answers Any (read_reply caller o) (MayRead caller)
  unfolding read_reply
  read_reply-MayRead caller none = Answers-pure _ tt
  read_reply-MayRead caller (some a) = elim (Bool-cases (may_read caller a)) [
    | inl may ↦ rw may (Answers-pure _ may)
    | inr not_ ↦ rw not_ (Answers-pure _ tt)
  ]

  get_account-MayRead :
      (caller : Caller) (id : Option ℕ) → Answers Any (get_account caller id) (MayRead caller)
  unfolding get_account database_failure
  get_account-MayRead caller none = Answers-pure _ tt
  get_account-MayRead caller (some id) =
      Answers-catch _ database_failure
        (Answers-bind {Q = λ o. Unit} _ _ (Answers-call _ (select_account id) (λ s p. tt))
          (λ o q. read_reply-MayRead caller o))
        (λ e. Answers-pure _ tt)

  auth_middleware-Passed :
      (header : AuthHeader) (blacklist : List String)
      → Answers (λ s. s.blacklist ≡ blacklist) (auth_middleware header) (Passed header blacklist)
  unfolding auth_middleware
  auth_middleware-Passed absent blacklist = Answers-pure _ tt
  auth_middleware-Passed not_bearer blacklist = Answers-pure _ tt
  auth_middleware-Passed (bearer token) blacklist = go (verify token) refl
    where
      go :
          (v : Verified)
          → verify token ≡ v
          → Answers
              (λ s. s.blacklist ≡ blacklist)
              (behind_verify token v)
              (Passed (bearer token) blacklist)
      go token_expired e = Answers-pure _ tt
      go invalid_token e = Answers-pure _ tt
      go (decoded claims) e =
          Answers-bind {Q = λ revoked. is_blacklisted (hash_token token) blacklist ≡ revoked} _ _
            (Answers-call redis_failure (exists_blacklisted token) (λ s same. rw same refl)) passes
        where
          passes :
              (revoked : Bool)
              → is_blacklisted (hash_token token) blacklist ≡ revoked
              → Answers {S = AccessState} Any
                  (pure (checked claims revoked))
                  (Passed (bearer token) blacklist)
          passes true r = Answers-pure _ tt
          passes false r = Answers-pure _ (token, refl, e, r)

  proxied-Entitled :
      (header : AuthHeader) (blacklist : List String) (id : Option ℕ) (end : AuthEnd)
      → Passed header blacklist end
      → Answers Any (proxied id end) (Entitled header blacklist)
  proxied-Entitled header blacklist id (unauthorized code) p = Answers-pure _ tt
  proxied-Entitled header blacklist id (let_through claims) (token, h, v, b) =
      Answers-catch _ upstream_unavailable
        (Answers-bind {Q = MayRead (caller_of claims)} _ _
          (Answers-request (axios none) (on_account_service (get_account (caller_of claims) id))
            (record {
              at = λ f s u.
                  through (get_account (caller_of claims) id f s.accounts_db)
                    (on_account_service (get_account (caller_of claims) id) f s).2
                    ((get_account-MayRead (caller_of claims) id).at f s.accounts_db tt);
            }))
          answered)
        (λ e. Answers-pure _ tt)
    where
      through :
          (r : Result (Response Account) × Script × AccountsDb) (s : AccessState)
          → IfOk (MayRead (caller_of claims)) r
          → IfOk (MayRead (caller_of claims)) (r.0, r.1, s)
      through (ok a, f, db) s q = q
      through (err e, f, db) s q = tt

      answered :
          (r : Response Account)
          → MayRead (caller_of claims) r
          → Answers {S = AccessState} Any (pure (account_answer r)) (Entitled header blacklist)
      answered (failure c x) q = Answers-pure _ tt
      answered (success c a) q = Answers-pure _ (token, claims, h, v, b, may_read_cases claims a q)

  -- An account is shown through the gateway only to a caller who may see it, whatever calls fail: if
  -- GET /v1/accounts/:id is answered with an account, then the request has carried a bearer token
  -- that was verified and was not on the blacklist, and the token's role is admin, or the account
  -- has no owner, or its owner is the token's subject.
  pub access_account-Entitled :
      (header : AuthHeader) (id : Option ℕ) (f : Script) (s : AccessState)
      → IfOk (Entitled header s.blacklist) (access_account header id f s)
  unfolding access_account
  access_account-Entitled header id f s =
      (Answers-bind (auth_middleware header) (proxied id)
          (auth_middleware-Passed header s.blacklist) (proxied-Entitled header s.blacklist id)).at
        f s refl
